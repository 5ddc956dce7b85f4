-- ===== src/Sandbox/PolicyFile/RoundTrip.antt =====
-- A policy that is saved and loaded.
use lumi_os.Base.{
  chomp, ℕ, ◌+◌, ◌^◌, ◌<◌, ◌≤◌, ◌≡◌, refl, sym, ap, ◌∙◌, Bool, true, false, not, List, [], ◌∷◌,
  ◌++◌, append_assoc, append-nil, pos, Text, codes, is_empty, split_at, Without, AreSolid, map, ltb,
  ltb→lt, length, length-append, arith,
}
use lumi_os.Sandbox.Policy.{
  Level, unconfined, trusted, normal, strict, untrusted, PathRule, Policy, zeroed,
}
use lumi_os.Sandbox.PolicyFile.{
  Loaded, number_of, load_line, load_lines, sbx_policy_load, hex, decimal, when, path_lines,
  policy_lines, sbx_policy_save, is_comment,
}
use lumi_os.Sandbox.PolicyFile.Entry.{
  newline, IsKey, IsLine, AreShort, IsLine-entry, AreShort-when, lines-unlines, after_line,
  after_when,
}
use lumi_os.Sandbox.PolicyFile.Field.{
  hex_solid, decimal_solid, length-hex, length-decimal, is_nil, path_solid, with_rest, name_line,
  level_line, net_line, ipc_line, hw_line, apparmor_line, memory_line, pids_line, fds_line,
  path_line,
}

-- A path that a line can hold: no white space and no colon.
abbrev pub AreSavedPaths : List PathRule → Type 0
AreSavedPaths [] = Unit
AreSavedPaths (r ∷ rs) =
    (AreSolid r.path × Without b':' r.path × (length r.path ≤ 240) × (r.flags < 2 ^ 32))
    × AreSavedPaths rs

-- The texts have no white space, and all fits in its field; the two counts are below 2 ^ 31.
pub record IsSaved (p : Policy) : Type 0 where
  pub name : AreSolid p.name × (length p.name ≤ 63)
  pub profile : AreSolid p.apparmor_profile × (length p.apparmor_profile ≤ 127)
  pub net : p.net_flags < 2 ^ 32
  pub ipc : p.ipc_flags < 2 ^ 32
  pub hw : p.hw_flags < 2 ^ 32
  pub memory : p.max_memory < 2 ^ 64
  pub pids : p.max_pids < 2 ^ 31
  pub fds : p.max_fds < 2 ^ 31
  pub count : length p.path_rules ≤ 64
  pub paths : AreSavedPaths p.path_rules

load_lines-path_lines :
    (rs : List PathRule) (l : Loaded)
    → AreSavedPaths rs
    → length l.rest.path_rules + length rs ≤ 64
    → load_lines (map (λ t. newline t) (path_lines rs)) l
      ≡ with_rest (let p = l.rest in record p { path_rules = p.path_rules ++ rs }) l
unfolding load_lines path_lines
load_lines-path_lines [] l h le =
    let p = l.rest in
    ap (λ (rs : List PathRule). with_rest (record p { path_rules = rs }) l)
      (sym (append-nil p.path_rules))
load_lines-path_lines (r ∷ rs) l h le =
    let p = l.rest in
    let m = with_rest (record p { path_rules = p.path_rules ++ (r ∷ []) }) l in
    let size = length-append {0} p.path_rules (r ∷ []) in
    ap (λ (k : Loaded). load_lines (map (λ t. newline t) (path_lines rs)) k)
      (path_line l r h.0 (omega arith))
    ∙ load_lines-path_lines rs m h.1 (omega (arith, size))
    ∙ ap (λ (ts : List PathRule). with_rest (record p { path_rules = ts }) l)
        (append_assoc p.path_rules (r ∷ []) rs)

AreShort-path_lines : (rs : List PathRule) → AreSavedPaths rs → AreShort (path_lines rs)
unfolding path_lines is_comment
AreShort-path_lines [] h = tt
AreShort-path_lines (r ∷ rs) h =
    let size = length-append {0} r.path (b':' ∷ hex r.flags) in
    (
      IsLine-entry (codes "path") (r.path ++ b':' ∷ hex r.flags)
          (refl, omega arith, omega arith, omega arith) (path_solid r h.0.0)
          (omega (arith, size, length-hex r.flags h.0.3, h.0.2)),
      AreShort-path_lines rs h.1,
    )

number_of_lt : (v : Level) → number_of v < 5
number_of_lt unconfined = omega arith
number_of_lt trusted = omega arith
number_of_lt normal = omega arith
number_of_lt strict = omega arith
number_of_lt untrusted = omega arith

short_decimal : (key : Text) (n : ℕ) → IsKey key → n < 2 ^ 64 → IsLine (key ++ b'=' ∷ decimal n)
short_decimal key n k h =
    IsLine-entry key (decimal n) k (decimal_solid n) (omega (arith, length-decimal n h))

short_hex : (key : Text) (n : ℕ) → IsKey key → n < 2 ^ 32 → IsLine (key ++ b'=' ∷ hex n)
short_hex key n k h = IsLine-entry key (hex n) k (hex_solid n) (omega (arith, length-hex n h))

AreShort-policy_lines : (p : Policy) → IsSaved p → AreShort (policy_lines p)
unfolding policy_lines is_comment
AreShort-policy_lines p h =
    let number = number_of_lt p.level in
    let r9 = path_lines p.path_rules in
    let r8 = when (ltb 0 p.max_fds) (codes "max_fds=" ++ decimal p.max_fds) ++ r9 in
    let r7 = when (ltb 0 p.max_pids) (codes "max_pids=" ++ decimal p.max_pids) ++ r8 in
    let r6 = when (ltb 0 p.max_memory) (codes "max_memory=" ++ decimal p.max_memory) ++ r7 in
    (
      (omega arith, omega arith),
      (
        IsLine-entry (codes "name") p.name (refl, omega arith, omega arith, omega arith) h.name.0
            (omega (arith, h.name.1)),
        (
          short_decimal (codes "level") (number_of p.level)
              (refl, omega arith, omega arith, omega arith) (omega arith),
          (
            short_hex (codes "net") p.net_flags (refl, omega arith, omega arith, omega arith) h.net,
            (
              short_hex (codes "ipc") p.ipc_flags (refl, omega arith, omega arith, omega arith)
                  h.ipc,
              (
                short_hex (codes "hw") p.hw_flags (refl, omega arith, omega arith, omega arith)
                    h.hw,
                AreShort-when (not (is_empty p.apparmor_profile))
                    (codes "apparmor=" ++ p.apparmor_profile) r6
                    (IsLine-entry (codes "apparmor") p.apparmor_profile
                      (refl, omega arith, omega arith, omega arith) h.profile.0
                      (omega (arith, h.profile.1)))
                    (AreShort-when (ltb 0 p.max_memory)
                      (codes "max_memory=" ++ decimal p.max_memory) r7
                      (short_decimal (codes "max_memory") p.max_memory
                        (refl, omega arith, omega arith, omega arith) h.memory)
                      (AreShort-when (ltb 0 p.max_pids) (codes "max_pids=" ++ decimal p.max_pids) r8
                        (short_decimal (codes "max_pids") p.max_pids
                          (refl, omega arith, omega arith, omega arith) (omega (arith, h.pids)))
                        (AreShort-when (ltb 0 p.max_fds) (codes "max_fds=" ++ decimal p.max_fds) r9
                          (short_decimal (codes "max_fds") p.max_fds
                            (refl, omega arith, omega arith, omega arith) (omega (arith, h.fds)))
                          (AreShort-path_lines p.path_rules h.paths)))),
              ),
            ),
          ),
        ),
      ),
    )

not-true : (b : Bool) → not b ≡ true → b ≡ false
not-true true h = cc
not-true false h = refl

not-false : (b : Bool) → not b ≡ false → b ≡ true
not-false true h = refl
not-false false h = cc

is_zero : (n : ℕ) → ltb 0 n ≡ false → 0 ≡ n
is_zero n h = ground arith

comment_line : (l : Loaded) → load_line (newline (codes "# LumiOS sandbox policy")) l ≡ l
unfolding load_line chomp split_at is_comment
comment_line l = refl

-- What a saved policy is when it is loaded: its level as a number, and all else but the rules for
-- system calls, the whitelist and the share of the CPU.
abbrev pub kept : Policy → Loaded
kept p = record {
  level = pos (number_of p.level);
  rest = record p {
    level = unconfined;
    syscall_rules = [];
    syscall_whitelist = false;
    max_cpu_pct = 0;
  };
}

load_lines-policy_lines :
    (p : Policy)
    → IsSaved p
    → load_lines
        (map (λ t. newline t) (policy_lines p))
        (record { level = pos 0; rest = zeroed unconfined })
      ≡ kept p
unfolding policy_lines
load_lines-policy_lines p h =
    let l0 : Loaded = record { level = pos 0; rest = zeroed unconfined } in
    let l1 = with_rest (record (zeroed unconfined) { name = p.name }) l0 in
    let l2 : Loaded = record l1 { level = pos (number_of p.level) } in
    let q2 = l2.rest in
    let l3 = with_rest (record q2 { net_flags = p.net_flags }) l2 in
    let q3 = l3.rest in
    let l4 = with_rest (record q3 { ipc_flags = p.ipc_flags }) l3 in
    let q4 = l4.rest in
    let l5 = with_rest (record q4 { hw_flags = p.hw_flags }) l4 in
    let q5 = l5.rest in
    let l6 = with_rest (record q5 { apparmor_profile = p.apparmor_profile }) l5 in
    let q6 = l6.rest in
    let l7 = with_rest (record q6 { max_memory = p.max_memory }) l6 in
    let q7 = l7.rest in
    let l8 = with_rest (record q7 { max_pids = p.max_pids }) l7 in
    let q8 = l8.rest in
    let l9 = with_rest (record q8 { max_fds = p.max_fds }) l8 in
    let r9 = path_lines p.path_rules in
    let fds = codes "max_fds=" ++ decimal p.max_fds in
    let pids = codes "max_pids=" ++ decimal p.max_pids in
    let memory = codes "max_memory=" ++ decimal p.max_memory in
    let profile = codes "apparmor=" ++ p.apparmor_profile in
    let r8 = when (ltb 0 p.max_fds) fds ++ r9 in
    let r7 = when (ltb 0 p.max_pids) pids ++ r8 in
    let r6 = when (ltb 0 p.max_memory) memory ++ r7 in
    let r5 = when (not (is_empty p.apparmor_profile)) profile ++ r6 in
    let r4 = (codes "hw=" ++ hex p.hw_flags) ∷ r5 in
    let r3 = (codes "ipc=" ++ hex p.ipc_flags) ∷ r4 in
    let r2 = (codes "net=" ++ hex p.net_flags) ∷ r3 in
    let r1 = (codes "level=" ++ decimal (number_of p.level)) ∷ r2 in
    after_line (codes "# LumiOS sandbox policy") ((codes "name=" ++ p.name) ∷ r1) l0 l0
      (comment_line l0)
    ∙ after_line (codes "name=" ++ p.name) r1 l0 l1 (name_line l0 p.name h.name refl)
    ∙ after_line (codes "level=" ++ decimal (number_of p.level)) r2 l1 l2
        (level_line l1 (number_of p.level) (omega (arith, number_of_lt p.level)))
    ∙ after_line (codes "net=" ++ hex p.net_flags) r3 l2 l3 (net_line l2 p.net_flags h.net)
    ∙ after_line (codes "ipc=" ++ hex p.ipc_flags) r4 l3 l4 (ipc_line l3 p.ipc_flags h.ipc)
    ∙ after_line (codes "hw=" ++ hex p.hw_flags) r5 l4 l5 (hw_line l4 p.hw_flags h.hw)
    ∙ after_when (not (is_empty p.apparmor_profile)) profile r6 l5 l6
        (λ b. apparmor_line l5 p.apparmor_profile h.profile (not-true _ b))
        (λ b.
          ap (λ (s : Text). with_rest (record q5 { apparmor_profile = s }) l5)
            (sym (is_nil p.apparmor_profile (not-false _ b))))
    ∙ after_when (ltb 0 p.max_memory) memory r7 l6 l7
        (λ b. memory_line l6 p.max_memory h.memory (ltb→lt 0 p.max_memory b))
        (λ b. ap (λ (n : ℕ). with_rest (record q6 { max_memory = n }) l6) (is_zero p.max_memory b))
    ∙ after_when (ltb 0 p.max_pids) pids r8 l7 l8 (λ b. pids_line l7 p.max_pids h.pids)
        (λ b. ap (λ (n : ℕ). with_rest (record q7 { max_pids = n }) l7) (is_zero p.max_pids b))
    ∙ after_when (ltb 0 p.max_fds) fds r9 l8 l9 (λ b. fds_line l8 p.max_fds h.fds)
        (λ b. ap (λ (n : ℕ). with_rest (record q8 { max_fds = n }) l8) (is_zero p.max_fds b))
    ∙ load_lines-path_lines p.path_rules l9 h.paths (omega (arith, h.count))

-- sbx_policy_load gives back what sbx_policy_save wrote of a policy whose texts have no white space,
-- whose paths have no colon and at most 240 bytes, whose counts of processes and files are below
-- 2 ^ 31, and whose other fields fit: all but the rules for system calls, the whitelist flag and the
-- share of the CPU, which are lost.
pub sbx_policy_load-sbx_policy_save :
    (p : Policy) → IsSaved p → sbx_policy_load (sbx_policy_save p) ≡ kept p
unfolding sbx_policy_load sbx_policy_save policy_lines
sbx_policy_load-sbx_policy_save p h =
    let first : Loaded = record { level = pos 0; rest = zeroed unconfined } in
    ap (λ (ss : List Text). load_lines ss first)
      (lines-unlines (policy_lines p) (AreShort-policy_lines p h))
    ∙ load_lines-policy_lines p h
