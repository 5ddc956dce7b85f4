-- ===== src/Sandbox/PolicyFile/Field.antt =====
-- What each line of a saved policy is read as.
use lumi_os.Base.{
  take_all, ℕ, ◌^◌, ◌<◌, ◌≤◌, ◌≡◌, refl, sym, ap, ◌∙◌, true, false, [], ◌∷◌, ◌++◌, pos, Text, codes,
  text_eq, is_empty, is_space, split_at_first, Without, AreSolid, AreSolid-append,
  AreSolid-print_in, length-print_in, strtoul-hex, strtoul-decimal, atoi, atoi-decimal, print_in,
  is_empty-print_in, lt→ltb, length, length-append, arith,
}
use lumi_os.Sandbox.Policy.{PathRule, Policy}
use lumi_os.Sandbox.PolicyFile.{
  Loaded, set_entry, add_path, flags_of, to_u32, load_line, hex, decimal, is_comment,
}
use lumi_os.Sandbox.PolicyFile.Entry.{newline, IsKey, load_line-entry}

pub hex_solid : (n : ℕ) → AreSolid (hex n)
hex_solid n =
    unfold is_space in
    AreSolid-append (codes "0x") (print_in 16 n) (refl, (refl, tt))
      (AreSolid-print_in 16 n (omega arith) (omega arith))

pub decimal_solid : (n : ℕ) → AreSolid (decimal n)
decimal_solid n = AreSolid-print_in 10 n (omega arith) (omega arith)

pub length-hex : (n : ℕ) → n < 2 ^ 32 → length (hex n) ≤ 10
length-hex n h = omega (arith, length-print_in 16 n 7 (omega arith) (omega (arith, h)))

pub length-decimal : (n : ℕ) → n < 2 ^ 64 → length (decimal n) ≤ 20
length-decimal n h = length-print_in 10 n 19 (omega arith) (omega (arith, h))

flags_of-hex : (n : ℕ) → n < 2 ^ 32 → flags_of (hex n) ≡ n
unfolding flags_of
flags_of-hex n h = rw (flags_of, strtoul-hex n (omega (arith, h))) (omega (arith, h))

to_u32-atoi : (n : ℕ) → n < 2 ^ 31 → to_u32 (atoi (decimal n)) ≡ n
unfolding to_u32
to_u32-atoi n h = rw (atoi-decimal n) (omega (arith, h))

pub is_nil : (s : Text) → is_empty s ≡ true → s ≡ []
is_nil [] h = refl
is_nil (c ∷ s) h = cc

-- What a line `key=val` makes of `l`; without a value it is passed over.
line_lem :
    (key val : Text) (l m : Loaded)
    → IsKey key
    → AreSolid val × (length val ≤ 255)
    → (is_empty val ≡ true → l ≡ m)
    → set_entry key val l ≡ m
    → load_line (newline (key ++ b'=' ∷ val)) l ≡ m
line_lem key [] l m k (h, le) e s = load_line-entry key [] l k h le ∙ e refl
line_lem key (c ∷ val) l m k (h, le) e s = load_line-entry key (c ∷ val) l k h le ∙ s

has_digit : (n : ℕ) → is_empty (decimal n) ≡ true → ⊥
has_digit n b = let e = is_empty-print_in 10 n (omega arith) in cc

has_colon : (s t : Text) → is_empty (s ++ b':' ∷ t) ≡ true → ⊥
has_colon [] t b = cc
has_colon (c ∷ s) t b = cc

pub path_solid : (r : PathRule) → AreSolid r.path → AreSolid (r.path ++ b':' ∷ hex r.flags)
path_solid r h =
    unfold is_space in AreSolid-append r.path (b':' ∷ hex r.flags) h (refl, hex_solid r.flags)

add_path_lem :
    (r : PathRule) (p : Policy)
    → Without b':' r.path
    → length r.path ≤ 240
    → r.flags < 2 ^ 32
    → length p.path_rules < 64
    → add_path (r.path ++ b':' ∷ hex r.flags) p ≡ record p { path_rules = p.path_rules ++ (r ∷ []) }
unfolding add_path
add_path_lem r p w le f lt =
    rw
      (
        add_path,
        split_at_first b':' r.path (hex r.flags) w,
        lt→ltb (length p.path_rules) 64 lt,
        take_all 255 r.path (omega arith),
        flags_of-hex r.flags f,
      )
      refl

abbrev pub with_rest : Policy → Loaded → Loaded
with_rest p l = record l { rest = p }

-- The fields in the order of their lines.
module _ (l : Loaded) where
  pub name_line :
      (name : Text)
      → AreSolid name × (length name ≤ 63)
      → l.rest.name ≡ []
      → load_line (newline (codes "name=" ++ name)) l
        ≡ with_rest (let p = l.rest in record p { name = name }) l
  unfolding set_entry text_eq is_comment
  name_line name (h, le) e =
      let p = l.rest in
      line_lem (codes "name") name l (with_rest (record p { name = name }) l)
        (refl, omega arith, omega arith, omega arith) (h, omega arith)
        (λ b. ap (λ (n : Text). with_rest (record p { name = n }) l) (e ∙ sym (is_nil name b)))
        (rw (take_all 63 name le) refl)

  pub level_line :
      (n : ℕ)
      → n < 2 ^ 64
      → load_line (newline (codes "level=" ++ decimal n)) l ≡ record l { level = pos n }
  unfolding set_entry text_eq is_comment
  level_line n h =
      line_lem (codes "level") (decimal n) l (record l { level = pos n })
        (refl, omega arith, omega arith, omega arith)
        (decimal_solid n, omega (arith, length-decimal n h)) (λ b. absurd (has_digit n b))
        (rw (atoi-decimal n) refl)

  pub net_line :
      (n : ℕ)
      → n < 2 ^ 32
      → load_line (newline (codes "net=" ++ hex n)) l
        ≡ with_rest (let p = l.rest in record p { net_flags = n }) l
  unfolding set_entry text_eq is_comment
  net_line n h =
      line_lem (codes "net") (hex n) l _ (refl, omega arith, omega arith, omega arith)
        (hex_solid n, omega (arith, length-hex n h)) (λ b. cc) (rw (flags_of-hex n h) refl)

  pub ipc_line :
      (n : ℕ)
      → n < 2 ^ 32
      → load_line (newline (codes "ipc=" ++ hex n)) l
        ≡ with_rest (let p = l.rest in record p { ipc_flags = n }) l
  unfolding set_entry text_eq is_comment
  ipc_line n h =
      line_lem (codes "ipc") (hex n) l _ (refl, omega arith, omega arith, omega arith)
        (hex_solid n, omega (arith, length-hex n h)) (λ b. cc) (rw (flags_of-hex n h) refl)

  pub hw_line :
      (n : ℕ)
      → n < 2 ^ 32
      → load_line (newline (codes "hw=" ++ hex n)) l
        ≡ with_rest (let p = l.rest in record p { hw_flags = n }) l
  unfolding set_entry text_eq is_comment
  hw_line n h =
      line_lem (codes "hw") (hex n) l _ (refl, omega arith, omega arith, omega arith)
        (hex_solid n, omega (arith, length-hex n h)) (λ b. cc) (rw (flags_of-hex n h) refl)

  pub apparmor_line :
      (s : Text)
      → AreSolid s × (length s ≤ 127)
      → is_empty s ≡ false
      → load_line (newline (codes "apparmor=" ++ s)) l
        ≡ with_rest (let p = l.rest in record p { apparmor_profile = s }) l
  unfolding set_entry text_eq is_comment
  apparmor_line s (h, le) e =
      let p = l.rest in
      line_lem (codes "apparmor") s l (with_rest (record p { apparmor_profile = s }) l)
        (refl, omega arith, omega arith, omega arith) (h, omega arith) (λ b. absurd (cc))
        (rw (take_all 127 s le) refl)

  pub memory_line :
      (n : ℕ)
      → n < 2 ^ 64
      → 0 < n
      → load_line (newline (codes "max_memory=" ++ decimal n)) l
        ≡ with_rest (let p = l.rest in record p { max_memory = n }) l
  unfolding set_entry text_eq is_comment
  memory_line n h nz =
      let p = l.rest in
      line_lem (codes "max_memory") (decimal n) l (with_rest (record p { max_memory = n }) l)
        (refl, omega arith, omega arith, omega arith)
        (decimal_solid n, omega (arith, length-decimal n h)) (λ b. absurd (has_digit n b))
        (rw (strtoul-decimal n nz h) refl)

  pub pids_line :
      (n : ℕ)
      → n < 2 ^ 31
      → load_line (newline (codes "max_pids=" ++ decimal n)) l
        ≡ with_rest (let p = l.rest in record p { max_pids = n }) l
  unfolding set_entry text_eq is_comment
  pids_line n h =
      let p = l.rest in
      line_lem (codes "max_pids") (decimal n) l (with_rest (record p { max_pids = n }) l)
        (refl, omega arith, omega arith, omega arith)
        (decimal_solid n, omega (arith, length-decimal n (omega arith)))
        (λ b. absurd (has_digit n b)) (rw (to_u32-atoi n h) refl)

  pub fds_line :
      (n : ℕ)
      → n < 2 ^ 31
      → load_line (newline (codes "max_fds=" ++ decimal n)) l
        ≡ with_rest (let p = l.rest in record p { max_fds = n }) l
  unfolding set_entry text_eq is_comment
  fds_line n h =
      let p = l.rest in
      line_lem (codes "max_fds") (decimal n) l (with_rest (record p { max_fds = n }) l)
        (refl, omega arith, omega arith, omega arith)
        (decimal_solid n, omega (arith, length-decimal n (omega arith)))
        (λ b. absurd (has_digit n b)) (rw (to_u32-atoi n h) refl)

  pub path_line :
      (r : PathRule)
      → AreSolid r.path × Without b':' r.path × (length r.path ≤ 240) × (r.flags < 2 ^ 32)
      → length l.rest.path_rules < 64
      → load_line (newline (codes "path=" ++ (r.path ++ b':' ∷ hex r.flags))) l
        ≡ with_rest (let p = l.rest in record p { path_rules = p.path_rules ++ (r ∷ []) }) l
  unfolding set_entry text_eq is_comment
  path_line r (h, w, le, f) lt =
      let p = l.rest in
      let val = r.path ++ b':' ∷ hex r.flags in
      let size = length-append {0} r.path (b':' ∷ hex r.flags) in
      line_lem (codes "path") val l
        (with_rest (record p { path_rules = p.path_rules ++ (r ∷ []) }) l)
        (refl, omega arith, omega arith, omega arith)
        (path_solid r h, omega (arith, size, length-hex r.flags f))
        (λ b. absurd (has_colon r.path (hex r.flags) b))
        (ap (λ (q : Policy). with_rest q l) (add_path_lem r p w le f lt))
