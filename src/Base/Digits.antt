-- ===== src/Base/Digits.antt =====
-- Numbers as texts: %lu and %x of printf, and strtoul with base 0.
use Prim.Native.Nat.{ℕ, zero, suc, ◌+◌, ◌-◌, ◌*◌, ◌/◌, ◌%◌, ◌^◌, ◌<◌, ◌≤◌}
use native.Mathlib.Nat.{div-add-mod, div-lt_self, mod-lt, div-eq-sub-div}
use mathlib.Core.Path.{◌≡◌, refl, ap, ◌∙◌}
use mathlib.Core.Logic.{inl, inr}
use mathlib.Core.Bool.{Bool, true, false, ◌&&◌, ◌||◌}
use mathlib.Core.List.{[], ◌∷◌, ◌++◌, append_assoc}
use native.Mathlib.Omega.{arith}
use lumi_os.Base.Tests.{ltb, leb, ◌==◌, if◌then◌else◌, lt→ltb, ltb→lt, Bool-cases}
use lumi_os.Base.Bytes.{Text, skip_spaces}

-- The digits 0 to 9 and a to f.
unfoldable pub digit : ℕ → ℕ
digit d = if ltb d 10 then b'0' + d else 87 + d

-- At least 36 where the byte is no digit in any base.
unfoldable pub digit_value : ℕ → ℕ
digit_value c =
    if leb 48 c && leb c 57
    then c - 48
    else if leb 97 c && leb c 122
    then c - 87
    else if leb 65 c && leb c 90
    then c - 55
    else 36

-- With `n` rounds at most; a number has fewer digits than that, or one.
unfoldable pub print_from : ℕ → ℕ → ℕ → Text
unfolding digit
print_from base zero n = digit n ∷ []
print_from base (suc rounds) n = elim (ltb n base) [
  | true ↦ digit n ∷ []
  | false ↦ print_from base rounds (n / base) ++ (digit (n % base) ∷ [])
]

unfoldable pub print_in : ℕ → ℕ → Text
print_in base n = print_from base n n

-- The digits in front, and what is behind them.
unfoldable pub read_in : ℕ → ℕ → Text → ℕ × Text
unfolding digit_value
read_in base acc [] = (acc, [])
read_in base acc (c ∷ s) = elim (ltb (digit_value c) base) [
  | true ↦ read_in base (base * acc + digit_value c) s
  | false ↦ (acc, c ∷ s)
]

-- "0x" is a prefix only in front of a digit.
unfoldable pub is_hex : Text → Bool
unfolding digit_value
is_hex (a ∷ b ∷ c ∷ s) = a == b'0' && (b == b'x' || b == b'X') && ltb (digit_value c) 16
is_hex (a ∷ b ∷ []) = false
is_hex (a ∷ []) = false
is_hex [] = false

unfoldable pub drop_two : Text → Text
drop_two (a ∷ b ∷ s) = s
drop_two (a ∷ []) = []
drop_two [] = []

unfoldable pub starts_zero : Text → Bool
starts_zero [] = false
starts_zero (c ∷ s) = c == b'0'

unfoldable pub magnitude : Text → ℕ
unfolding read_in is_hex drop_two starts_zero
magnitude s =
    if is_hex s
    then (read_in 16 0 (drop_two s)).0
    else if starts_zero s
    then (read_in 8 0 s).0
    else (read_in 10 0 s).0

-- ULONG_MAX where the number does not fit in 64 bits, with either sign.
unfoldable pub clamp : Bool → ℕ → ℕ
clamp negative n =
    if leb (2 ^ 64) n then 2 ^ 64 - 1 else if negative then (2 ^ 64 - n) % 2 ^ 64 else n

unfoldable pub signed_magnitude : Text → ℕ
unfolding magnitude clamp
signed_magnitude [] = 0
signed_magnitude (c ∷ s) =
    if c == b'-'
    then clamp true (magnitude s)
    else if c == b'+'
    then clamp false (magnitude s)
    else clamp false (magnitude (c ∷ s))

-- strtoul (s, NULL, 0), and strtoull
unfoldable pub strtoul : Text → ℕ
unfolding signed_magnitude
strtoul s = signed_magnitude (skip_spaces s)

pub mul-zero_add : (base n : ℕ) → base * 0 + n ≡ n
mul-zero_add base n = omega arith

pub digit_value-digit : (d : ℕ) → d < 16 → digit_value (digit d) ≡ d
unfolding digit_value digit
digit_value-digit d h = ground arith

read_in-digit :
    (base acc d : ℕ) (s : Text)
    → base ≤ 16
    → d < base
    → read_in base acc (digit d ∷ s) ≡ read_in base (base * acc + d) s
unfolding read_in
read_in-digit base acc d s hi lt =
    let v = digit_value-digit d (omega arith) in
    let e : ltb (digit_value (digit d)) base ≡ true = rw v (lt→ltb d base lt) in
    rw (e, read_in, v) refl

-- The printed digits are read back, with what is behind them.
pub read_in-print_from :
    (base rounds n : ℕ) (rest : Text)
    → 2 ≤ base
    → base ≤ 16
    → n ≤ rounds
    → read_in base 0 (print_from base rounds n ++ rest) ≡ read_in base n rest
unfolding print_from
read_in-print_from base zero n rest lo hi le =
    read_in-digit base 0 n rest hi (omega arith)
    ∙ ap (λ (k : ℕ). read_in base k rest) (mul-zero_add base n)
read_in-print_from base (suc rounds) n rest lo hi le = elim (Bool-cases (ltb n base)) [
  | inl e ↦
      rw (e, print_from)
        (read_in-digit base 0 n rest hi (ltb→lt n base e)
          ∙ ap (λ (k : ℕ). read_in base k rest) (mul-zero_add base n))
  | inr e ↦
      let big : base ≤ n = ground (arith, e) in
      let less : n / base < n = div-lt_self (omega arith) (omega arith) in
      rw
        (
          e,
          print_from,
          append_assoc (print_from base rounds (n / base)) (digit (n % base) ∷ []) rest,
        )
        (read_in-print_from base rounds (n / base) (digit (n % base) ∷ rest) lo hi (omega arith)
          ∙ read_in-digit base (n / base) (n % base) rest hi (mod-lt n (omega arith))
          ∙ ap (λ (k : ℕ). read_in base k rest) (div-add-mod n base))
]

-- The first digit, which is not 0 for a number that is not 0.
pub print_from-first :
    (base rounds n : ℕ)
    → 2 ≤ base
    → n ≤ rounds
    → (d : ℕ) × (s : Text) × (print_from base rounds n ≡ digit d ∷ s) × (d < base) × (0 < n → 0 < d)
unfolding print_from
print_from-first base zero n lo le = (n, [], refl, omega arith, λ h. h)
print_from-first base (suc rounds) n lo le = elim (Bool-cases (ltb n base)) [
  | inl e ↦ (n, [], rw (e, print_from) refl, ltb→lt n base e, λ h. h)
  | inr e ↦
      let big : base ≤ n = ground (arith, e) in
      let less : n / base < n = div-lt_self (omega arith) (omega arith) in
      let some_left : 0 < n / base =
        (let q : n / base ≡ (n - base) / base + 1 = div-eq-sub-div (omega arith) big in
          omega (arith, q)) in
      let (d, s, first, lt, nz) = print_from-first base rounds (n / base) lo (omega arith) in
      (
        d,
        s ++ (digit (n % base) ∷ []),
        rw (e, print_from) (ap (λ (t : Text). t ++ (digit (n % base) ∷ [])) first),
        lt,
        λ h. nz some_left,
      )
]
