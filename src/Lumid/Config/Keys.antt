-- ===== src/Lumid/Config/Keys.antt =====
-- The array `key` of config_parse_service.
use lumi_os.Base.{
  Option, ℕ, ◌+◌, ◌-◌, ◌<◌, ◌≡◌, ◌≢◌, ◌⊎◌, ◌↔◌, refl, sym, ap, subst, ◌∙◌, inl, inr, Bool, true,
  false, ◌||◌, none, some, List, [], ◌∷◌, ◌++◌, Text, is_empty, length, length-take, take,
  if◌then◌else◌, ◌==◌, ltb, split_at, split_at_first, Without, lines, arith, Bool-cases,
  Option-cases,
}
use lumi_os.Lumid.Types.{Service, max_path_len, max_line_len, service_create}
use lumi_os.Lumid.Config.{
  trim, parse_value, Parsing, key_size, key_bytes, parse_entry, parse_header, parse_trimmed,
  parse_lines, parse_file, parse_service, overruns_key,
}
use lumi_os.Lumid.Config.Bounds.{IsBounded, accepted-IsBounded}

-- The text in front of the first `=`, where there is one, leaves room in `key` for the NUL.
abbrev pub KeyFits : Text → Type 0
KeyFits l =
    (before after : Text)
    → Without b'=' before
    → l ≡ before ++ b'=' ∷ after
    → length before < key_size

-- The same for a line, trimmed, that is not empty, a comment or a section header.
abbrev pub LineFits : Text → Type 0
LineFits [] = Unit
LineFits (c ∷ l) = c ≢ b'#' → c ≢ b';' → c ≢ b'[' → KeyFits (c ∷ l)

abbrev pub KeysFit : List Text → Type 0
KeysFit [] = Unit
KeysFit (l ∷ ls) = LineFits (trim l) × KeysFit ls

split_at_whole :
    (c : ℕ) (l : Text) {before after : Text}
    → split_at c l ≡ some (before, after)
    → (l ≡ before ++ c ∷ after) × Without c before
unfolding split_at
split_at_whole c [] h = absurd (cc)
split_at_whole c (d ∷ l) {before} {after} h = elim (Bool-cases (d == c)) [
  | inl e ↦
      let x : ([], l) ≡ (before, after) = ground arith in
      subst (λ (q : Text × Text). (d ∷ l ≡ q.0 ++ c ∷ q.1) × Without c q.0) x (ground arith, tt)
  | inr e ↦ elim (Option-cases (split_at c l)) [
    | inl n ↦ absurd (ground arith)
    | inr ((b, a), q) ↦
        let x : (d ∷ b, a) ≡ (before, after) = ground arith in
        let (w, none_in) = split_at_whole c l q in
        subst (λ (q : Text × Text). (d ∷ l ≡ q.0 ++ c ∷ q.1) × Without c q.0) x
          (ap (λ (t : Text). d ∷ t) w, (λ f. ground arith, none_in))
  ]
]

too_long : Text → Bool
unfolding key_bytes
too_long l = ltb key_size (key_bytes max_path_len l)

too_long-none : (l : Text) → split_at b'=' l ≡ none → too_long l ≡ false
unfolding too_long key_bytes
too_long-none l e = rw (e, key_bytes) refl

room : (k : ℕ) → (ltb key_size (k + 1) ≡ false) ↔ (k < key_size)
room k = ground arith

too_long-some :
    (l before after : Text)
    → split_at b'=' l ≡ some (before, after)
    → (too_long l ≡ false) ↔ (length before < key_size)
unfolding too_long key_bytes
too_long-some l before after e =
    let n = length-take (max_path_len - 1) before in
    let fits = room (length (take (max_path_len - 1) before)) in
    rw (e, key_bytes) (λ f. omega (arith, n, fits.0 f), λ lt. fits.1 (omega (arith, n)))

too_long_iff : (l : Text) → (too_long l ≡ false) ↔ KeyFits l
too_long_iff l = elim (Option-cases (split_at b'=' l)) [
  | inl e ↦ (
    λ f b a w q. absurd (clash e (ap (split_at b'=') q ∙ split_at_first b'=' b a w)),
    λ k. too_long-none l e,
  )
  | inr ((before, after), e) ↦
      let (whole, w) = split_at_whole b'=' l e in
      let fits = too_long-some l before after e in
      (
        λ f b a v q.
            let x : (before, after) ≡ (b, a) =
              injective (sym e ∙ ap (split_at b'=') q ∙ split_at_first b'=' b a v) in
            subst (λ (q : Text × Text). length q.0 < key_size) x (fits.0 f),
        λ k. fits.1 (k before after w whole),
      )
]
  where
    clash : {x : Text × Text} {o : Option (Text × Text)} → o ≡ none → o ≡ some x → ⊥
    clash e f = cc

    injective : {x y : Text × Text} → some x ≡ some y → x ≡ y
    injective e = cc

line_long : Text → Bool
unfolding too_long
line_long [] = false
line_long (c ∷ l) =
    if c == b'#' || c == b';' then false else if c == b'[' then false else too_long (c ∷ l)

line_long_iff : (l : Text) → (line_long l ≡ false) ↔ LineFits l
unfolding line_long
line_long_iff [] = (λ e. tt, λ u. refl)
line_long_iff (c ∷ l) = elim (Bool-cases (c == b'#' || c == b';')) [
  | inl e ↦ rw e (λ f a b d. absurd (ground arith), λ k. refl)
  | inr e ↦ elim (Bool-cases (c == b'[')) [
    | inl g ↦ rw (e, g) (λ f a b d. absurd (ground arith), λ k. refl)
    | inr g ↦
        rw (e, g)
          (
            λ f a b d. (too_long_iff (c ∷ l)).0 f,
            λ k.
                (too_long_iff (c ∷ l)).1
                  (k (λ q. ground arith) (λ q. ground arith) (λ q. ground arith)),
          )
  ]
]

or_false : (o : Bool) → o ≡ o || false
or_false true = refl
or_false false = refl

or_assoc : (a b c : Bool) → (a || b) || c ≡ a || (b || c)
or_assoc true b c = refl
or_assoc false b c = refl

entry_flag : (l : Text) (p : Parsing) → (parse_entry l p).2 ≡ p.2 || too_long l
unfolding parse_entry too_long parse_value
entry_flag l (section, s, o) = elim (Option-cases (split_at b'=' l)) [
  | inl e ↦ rw (too_long-none l e, e, parse_entry, parse_value) (or_false o)
  | inr ((before, after), e) ↦ rw (e, parse_entry, parse_value) refl
]

header_flag : (l : Text) (p : Parsing) → (parse_header l p).2 ≡ p.2
unfolding parse_header
header_flag l (section, s, o) = elim (Option-cases (split_at b']' l)) [
  | inl e ↦ rw (e, parse_header) refl
  | inr ((title, rest), e) ↦ rw (e, parse_header) refl
]

trimmed_flag : (l : Text) (p : Parsing) → (parse_trimmed l p).2 ≡ p.2 || line_long l
unfolding parse_trimmed line_long
trimmed_flag [] p = or_false p.2
trimmed_flag (c ∷ l) p = elim (Bool-cases (c == b'#' || c == b';')) [
  | inl e ↦ rw e (or_false p.2)
  | inr e ↦ elim (Bool-cases (c == b'[')) [
    | inl f ↦ rw (e, f) (header_flag l p ∙ or_false p.2)
    | inr f ↦ rw (e, f) (entry_flag (c ∷ l) p)
  ]
]

any_long : List Text → Bool
unfolding line_long
any_long [] = false
any_long (l ∷ ls) = line_long (trim l) || any_long ls

lines_flag : (ls : List Text) (p : Parsing) → (parse_lines ls p).2 ≡ p.2 || any_long ls
unfolding parse_lines any_long
lines_flag [] p = or_false p.2
lines_flag (l ∷ ls) p =
    lines_flag ls (parse_trimmed (trim l) p)
    ∙ ap (λ b. b || any_long ls) (trimmed_flag (trim l) p)
    ∙ or_assoc p.2 (line_long (trim l)) (any_long ls)

any_long_iff : (ls : List Text) → (any_long ls ≡ false) ↔ KeysFit ls
unfolding any_long
any_long_iff [] = (λ e. tt, λ u. refl)
any_long_iff (l ∷ ls) = elim (Bool-cases (line_long (trim l))) [
  | inl e ↦ rw e (λ f. absurd (cc), λ k. sym e ∙ (line_long_iff (trim l)).1 k.0)
  | inr e ↦
      rw e
        (λ f. ((line_long_iff (trim l)).0 e, (any_long_iff ls).0 f), λ k. (any_long_iff ls).1 k.1)
]

overruns_key_iff :
    (bytes : Text) → (overruns_key bytes ≡ false) ↔ KeysFit (lines max_line_len bytes)
unfolding overruns_key parse_file
overruns_key_iff bytes =
    let flag = lines_flag (lines max_line_len bytes) ([], service_create, false) in
    let fits = any_long_iff (lines max_line_len bytes) in
    (λ f. fits.0 (sym flag ∙ f), λ k. flag ∙ fits.1 k)

-- Of a service that config_parse_service accepts, from the structure that service_create makes:
-- either the text in front of the `=` of some key line of the file has 128 bytes or more, and the
-- parser writes behind the end of its array `key`; or no key line has, the parser stays in that
-- array, the service has a name and a program, and every text and list in it fits in its array.
pub parse_service-IsBounded :
    (bytes : Text) (s : Service)
    → parse_service bytes service_create ≡ some s
    → ((¬ KeysFit (lines max_line_len bytes)) × (overruns_key bytes ≡ true))
      ⊎ (KeysFit (lines max_line_len bytes)
          × (overruns_key bytes ≡ false)
          × IsBounded s
          × (is_empty s.name ≡ false)
          × (is_empty s.exec_path ≡ false))
parse_service-IsBounded bytes s accepted =
    let fits = overruns_key_iff bytes in
    let (bounded, name, exec) = accepted-IsBounded bytes s accepted in
    elim (Bool-cases (overruns_key bytes)) [
      | inl e ↦ inl (λ k. ground arith, e)
      | inr e ↦ inr (fits.0 e, e, bounded, name, exec)
    ]
