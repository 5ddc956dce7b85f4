-- ===== src/Lumid/Config/Value.antt =====
-- Reading back a `key = value` line.
use lumi_os.Base.{
  ℕ, zero, suc, ◌-◌, ◌≤◌, ◌<◌, ◌≡◌, refl, ap, ◌∙◌, ◌≢◌, true, false, some, [], ◌∷◌, ◌++◌, Text,
  is_space, skip_spaces, drop_trailing, length, take, arith, Without, Without-append,
  split_at_first,
}
use lumi_os.Lumid.Config.{trim, parse_value}

-- Every byte is white space.
abbrev pub AllSpace : Text → Type 0
AllSpace [] = Unit
AllSpace (c ∷ s) = (is_space c ≡ true) × AllSpace s

-- No white space at either end.
abbrev pub StartsSolid : Text → Type 0
StartsSolid [] = Unit
StartsSolid (c ∷ s) = is_space c ≡ false

pub record IsTrimmed (s : Text) : Type 0 where
  pub first : StartsSolid s
  pub last : drop_trailing s ≡ s

skip_spaces-append : (pad s : Text) → AllSpace pad → skip_spaces (pad ++ s) ≡ skip_spaces s
unfolding skip_spaces
skip_spaces-append [] s h = refl
skip_spaces-append (c ∷ pad) s h = rw h.0 (skip_spaces-append pad s h.1)

skip_spaces_solid : (s : Text) → StartsSolid s → skip_spaces s ≡ s
unfolding skip_spaces
skip_spaces_solid [] h = refl
skip_spaces_solid (c ∷ s) h = rw h refl

drop_trailing_spaces : (pad : Text) → AllSpace pad → drop_trailing pad ≡ []
unfolding drop_trailing
drop_trailing_spaces [] h = refl
drop_trailing_spaces (c ∷ pad) h = rw (h.0, drop_trailing_spaces pad h.1) refl

drop_trailing-append : (s pad : Text) → AllSpace pad → drop_trailing (s ++ pad) ≡ drop_trailing s
unfolding drop_trailing
drop_trailing-append [] pad h = drop_trailing_spaces pad h
drop_trailing-append (c ∷ s) pad h = rw (drop_trailing-append s pad h) refl

AllSpace-take : (n : ℕ) (pad : Text) → AllSpace pad → AllSpace (take n pad)
AllSpace-take zero pad h = tt
AllSpace-take (suc n) [] h = tt
AllSpace-take (suc n) (c ∷ pad) h = (h.0, AllSpace-take n pad h.1)

-- A cut behind `s` leaves `s` and some of the white space.
take-append :
    (n : ℕ) (s pad : Text)
    → length s ≤ n
    → AllSpace pad
    → (rest : Text) × (take n (s ++ pad) ≡ s ++ rest) × AllSpace rest
take-append n [] pad le h = (take n pad, refl, AllSpace-take n pad h)
take-append zero (c ∷ s) pad le h = absurd (omega arith)
take-append (suc n) (c ∷ s) pad le h =
    let (rest, e, a) = take-append n s pad (omega arith) h in (rest, ap (λ t. c ∷ t) e, a)

Without-AllSpace : (pad : Text) → AllSpace pad → Without b'=' pad
unfolding is_space
Without-AllSpace [] h = tt
Without-AllSpace (c ∷ pad) h = (λ e. ground arith, Without-AllSpace pad h.1)

StartsSolid-append : (s pad : Text) → s ≢ [] → StartsSolid s → StartsSolid (s ++ pad)
StartsSolid-append [] pad ne h = absurd (ne refl)
StartsSolid-append (c ∷ s) pad ne h = h

skip_all : (pad : Text) → AllSpace pad → skip_spaces pad ≡ []
unfolding skip_spaces
skip_all [] h = refl
skip_all (c ∷ pad) h = rw h.0 (skip_all pad h.1)

take-nil : (n : ℕ) → take {A = ℕ} n [] ≡ []
take-nil zero = refl
take-nil (suc n) = refl

drop_trailing-take :
    (n : ℕ) (s pad : Text)
    → AllSpace pad
    → IsTrimmed s
    → length s ≤ n
    → drop_trailing (take n (s ++ pad)) ≡ s
drop_trailing-take n s pad a h le =
    let (rest, e, ar) = take-append n s pad le a in rw e (drop_trailing-append s rest ar ∙ h.last)

-- A value with white space on both sides, cut to `n` bytes behind the white space in front.
trim_value :
    (n : ℕ) (before s after : Text)
    → AllSpace before
    → AllSpace after
    → IsTrimmed s
    → length s ≤ n
    → drop_trailing (take n (skip_spaces (before ++ (s ++ after)))) ≡ s
unfolding drop_trailing
trim_value n before [] after hb ha h le =
    rw (skip_spaces-append before after hb, skip_all after ha, take-nil n) refl
trim_value n before (c ∷ s) after hb ha h le =
    rw
      (
        skip_spaces-append before ((c ∷ s) ++ after) hb,
        skip_spaces_solid ((c ∷ s) ++ after) h.first,
      )
      (drop_trailing-take n (c ∷ s) after ha h le)

-- A key with white space behind it, cut to `n` bytes.
trim_key :
    (n : ℕ) (s after : Text)
    → s ≢ []
    → AllSpace after
    → IsTrimmed s
    → length s ≤ n
    → trim (take n (s ++ after)) ≡ s
unfolding trim
trim_key n s after ne ha h le =
    let (rest, e, ar) = take-append n s after le ha in
    rw (e, skip_spaces_solid (s ++ rest) (StartsSolid-append s rest ne h.first))
      (drop_trailing-append s rest ar ∙ h.last)

-- config_parse_value reads back what a `key = value` line says, with any white space round the `=`
-- and at the end: for a key that is not empty and holds no `=`, and a key and a value with no white
-- space at their ends that fit in `max` bytes with a NUL.
pub parse_value_lem :
    (max : ℕ) (key value pad1 pad2 pad3 : Text)
    → AllSpace pad1
    → AllSpace pad2
    → AllSpace pad3
    → key ≢ []
    → Without b'=' key
    → IsTrimmed key
    → IsTrimmed value
    → length key < max
    → length value < max
    → parse_value max ((key ++ pad1) ++ b'=' ∷ (pad2 ++ (value ++ pad3))) ≡ some (key, value)
unfolding parse_value
parse_value_lem max key value pad1 pad2 pad3 a1 a2 a3 ne w hk hv lk lv = rw (
  split_at_first b'=' (key ++ pad1) (pad2 ++ (value ++ pad3))
      (Without-append b'=' key pad1 w (Without-AllSpace pad1 a1)),
  parse_value,
  trim_key (max - 1) key pad1 ne a1 hk (omega arith),
  trim_value (max - 1) pad2 value pad3 a2 a3 hv (omega arith),
)
