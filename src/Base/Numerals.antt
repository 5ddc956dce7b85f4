-- ===== src/Base/Numerals.antt =====
-- Reading back the numbers that printf writes.
use Prim.Native.Nat.{ℕ, zero, suc, ◌+◌, ◌-◌, ◌*◌, ◌/◌, ◌%◌, ◌^◌, ◌<◌, ◌≤◌}
use native.Mathlib.Nat.{mod-lt, div-lt_self, div-lt_iff_lt-mul, pow-suc, pow-zero}
use mathlib.Core.Path.{◌≡◌, refl, ap, subst, sym, ◌∙◌}
use mathlib.Core.Logic.{◌≢◌, inl, inr}
use mathlib.Core.Bool.{Bool, true, false}
use mathlib.Core.List.{[], ◌∷◌, ◌++◌, append-nil}
use native.Mathlib.Omega.{arith}
use lumi_os.Base.Tests.{ltb, ◌==◌, lt→ltb, ltb→lt, Bool-cases}
use lumi_os.Base.Lists.{length, length-append}
use lumi_os.Base.Int.{pos}
use lumi_os.Base.Bytes.{
  Text, is_space, skip_spaces, is_empty, codes, atoi, digits_from, is_digit, after_spaces, signed,
  strtoll,
}
use lumi_os.Base.Digits.{
  digit, digit_value, digit_value-digit, print_from, print_in, read_in, read_in-print_from,
  print_from-first, is_hex, drop_two, starts_zero, magnitude, clamp, signed_magnitude, strtoul,
}

-- No byte is white space.
abbrev pub AreSolid : Text → Type 0
AreSolid [] = Unit
AreSolid (c ∷ s) = (is_space c ≡ false) × AreSolid s

pub AreSolid-append : (s t : Text) → AreSolid s → AreSolid t → AreSolid (s ++ t)
AreSolid-append [] t h k = k
AreSolid-append (c ∷ s) t h k = (h.0, AreSolid-append s t h.1 k)

digit_solid : (d : ℕ) → d < 16 → is_space (digit d) ≡ false
unfolding digit is_space
digit_solid d h = ground arith

AreSolid-print_from :
    (base rounds n : ℕ) → 2 ≤ base → base ≤ 16 → n ≤ rounds → AreSolid (print_from base rounds n)
unfolding print_from
AreSolid-print_from base zero n lo hi le = (digit_solid n (omega arith), tt)
AreSolid-print_from base (suc rounds) n lo hi le = elim (Bool-cases (ltb n base)) [
  | inl e ↦
      let small : n < 16 = omega (arith, ltb→lt n base e) in
      rw (e, print_from) (digit_solid n small, tt)
  | inr e ↦
      let big : base ≤ n = ground (arith, e) in
      let less : n / base < n = div-lt_self (omega arith) (omega arith) in
      let last : n % base < 16 = omega (arith, mod-lt n {m = base} (omega arith)) in
      rw (e, print_from)
        (AreSolid-append (print_from base rounds (n / base)) (digit (n % base) ∷ [])
          (AreSolid-print_from base rounds (n / base) lo hi (omega arith))
          (digit_solid (n % base) last, tt))
]

pub AreSolid-print_in : (base n : ℕ) → 2 ≤ base → base ≤ 16 → AreSolid (print_in base n)
unfolding print_in
AreSolid-print_in base n lo hi = AreSolid-print_from base n n lo hi (omega arith)

read_print : (base n : ℕ) → 2 ≤ base → base ≤ 16 → read_in base 0 (print_in base n) ≡ (n, [])
unfolding print_in read_in
read_print base n lo hi =
    subst (λ (t : Text). read_in base 0 t ≡ (n, [])) (append-nil (print_from base n n))
      (read_in-print_from base n n [] lo hi (omega arith))

clamp_fits : (n : ℕ) → n < 2 ^ 64 → clamp false n ≡ n
unfolding clamp
clamp_fits n h = ground arith

magnitude-hex :
    (t : Text) (n : ℕ)
    → is_hex (b'0' ∷ b'x' ∷ t) ≡ true
    → read_in 16 0 t ≡ (n, [])
    → magnitude (b'0' ∷ b'x' ∷ t) ≡ n
unfolding magnitude drop_two
magnitude-hex t n h e = rw (h, magnitude, e) refl

-- strtoul with base 0 reads back what %x with "0x" in front writes.
pub strtoul-hex : (n : ℕ) → n < 2 ^ 64 → strtoul (codes "0x" ++ print_in 16 n) ≡ n
unfolding strtoul signed_magnitude skip_spaces is_space print_in
strtoul-hex n h =
    let (d, s, first, lt, nz) = print_from-first 16 n n (omega arith) (omega arith) in
    let hex : is_hex (b'0' ∷ b'x' ∷ print_in 16 n) ≡ true =
      rw first (let v = digit_value-digit d lt in unfold is_hex in rw v (lt→ltb d 16 lt)) in
    rw (magnitude-hex (print_in 16 n) n hex (read_print 16 n (omega arith) (omega arith)))
      (clamp_fits n h)

not_hex : (c : ℕ) (s : Text) → c ≢ b'0' → is_hex (c ∷ s) ≡ false
unfolding is_hex
not_hex c [] h = refl
not_hex c (x ∷ []) h = refl
not_hex c (x ∷ y ∷ s) h = ground (arith, h)

magnitude-decimal :
    (c n : ℕ) (s : Text) → c ≢ b'0' → read_in 10 0 (c ∷ s) ≡ (n, []) → magnitude (c ∷ s) ≡ n
unfolding magnitude starts_zero
magnitude-decimal c n s h e =
    let z : (c == b'0') ≡ false = ground (arith, h) in rw (not_hex c s h, z, magnitude, e) refl

strtoul_plain :
    (c n : ℕ) (s : Text)
    → b'0' < c
    → c ≤ b'9'
    → n < 2 ^ 64
    → read_in 10 0 (c ∷ s) ≡ (n, [])
    → strtoul (c ∷ s) ≡ n
unfolding strtoul signed_magnitude skip_spaces
strtoul_plain c n s lo hi h e =
    let m : magnitude (c ∷ s) ≡ n = magnitude-decimal c n s (λ q. omega arith) e in
    let sp : is_space c ≡ false = unfold is_space in ground arith in
    let minus : (c == b'-') ≡ false = ground arith in
    let plus : (c == b'+') ≡ false = ground arith in
    rw (strtoul, skip_spaces, sp, signed_magnitude, minus, plus, m) (clamp_fits n h)

-- and what %lu writes of a number that is not 0.
pub strtoul-decimal : (n : ℕ) → 0 < n → n < 2 ^ 64 → strtoul (print_in 10 n) ≡ n
unfolding print_in
strtoul-decimal n nz h =
    let (d, s, first, lt, pd) = print_from-first 10 n n (omega arith) (omega arith) in
    let p = pd nz in
    let back : read_in 10 0 (digit d ∷ s) ≡ (n, []) =
      subst (λ (t : Text). read_in 10 0 t ≡ (n, [])) first
        (read_print 10 n (omega arith) (omega arith)) in
    rw first (
      strtoul_plain (digit d) n s (unfold digit in ground arith) (unfold digit in ground arith) h
        back)

-- One byte of a decimal number, as strtoul and as atoi read it.
read_in_step :
    (acc c : ℕ) (s : Text)
    → is_digit c ≡ true
    → read_in 10 acc (c ∷ s) ≡ read_in 10 (10 * acc + (c - 48)) s
unfolding read_in
read_in_step acc c s e =
    let v : digit_value c ≡ c - 48 = unfold digit_value is_digit in ground (arith, e) in
    let t : ltb (digit_value c) 10 ≡ true = unfold digit_value is_digit in ground (arith, e) in
    rw (t, read_in, v) refl

read_in_stop : (acc c : ℕ) (s : Text) → is_digit c ≡ false → read_in 10 acc (c ∷ s) ≡ (acc, c ∷ s)
unfolding read_in
read_in_stop acc c s e =
    let t : ltb (digit_value c) 10 ≡ false = unfold digit_value is_digit in ground (arith, e) in
    rw (t, read_in) refl

digits_from_step :
    (acc c : ℕ) (seen : Bool) (s : Text)
    → is_digit c ≡ true
    → digits_from acc seen (c ∷ s) ≡ digits_from (10 * acc + (c - 48)) true s
unfolding digits_from
digits_from_step acc c seen s e = rw (e, digits_from) refl

digits_from_stop :
    (acc c : ℕ) (seen : Bool) (s : Text)
    → is_digit c ≡ false
    → digits_from acc seen (c ∷ s) ≡ (acc, seen, c ∷ s)
unfolding digits_from
digits_from_stop acc c seen s e = rw (e, digits_from) refl

abbrev as_read : ℕ × Text → ℕ × Bool × Text
as_read r = (r.0, true, r.1)

digits_from-read_in : (acc : ℕ) (s : Text) → digits_from acc true s ≡ as_read (read_in 10 acc s)
digits_from-read_in acc [] = unfold digits_from read_in in refl
digits_from-read_in acc (c ∷ s) = elim (Bool-cases (is_digit c)) [
  | inl e ↦
      digits_from_step acc c true s e
      ∙ digits_from-read_in (10 * acc + (c - 48)) s
      ∙ ap as_read (sym (read_in_step acc c s e))
  | inr e ↦ digits_from_stop acc c true s e ∙ ap as_read (sym (read_in_stop acc c s e))
]

atoi_plain :
    (c n : ℕ) (s : Text)
    → b'0' ≤ c
    → c ≤ b'9'
    → read_in 10 0 (c ∷ s) ≡ (n, [])
    → atoi (c ∷ s) ≡ pos n
unfolding atoi strtoll after_spaces signed skip_spaces
atoi_plain c n s lo hi e =
    let sp : is_space c ≡ false = unfold is_space in ground arith in
    let minus : (c == b'-') ≡ false = ground arith in
    let plus : (c == b'+') ≡ false = ground arith in
    let dig : is_digit c ≡ true = unfold is_digit in ground arith in
    let step : digits_from 0 false (c ∷ s) ≡ (n, true, []) =
      digits_from_step 0 c false s dig
      ∙ digits_from-read_in (10 * 0 + (c - 48)) s
      ∙ ap as_read (sym (read_in_step 0 c s dig) ∙ e) in
    rw (atoi, strtoll, skip_spaces, sp, after_spaces, minus, plus, signed, step) refl

-- atoi reads back what %d and %u write.
pub atoi-decimal : (n : ℕ) → atoi (print_in 10 n) ≡ pos n
unfolding print_in
atoi-decimal n =
    let (d, s, first, lt, pd) = print_from-first 10 n n (omega arith) (omega arith) in
    let back : read_in 10 0 (digit d ∷ s) ≡ (n, []) =
      subst (λ (t : Text). read_in 10 0 t ≡ (n, [])) first
        (read_print 10 n (omega arith) (omega arith)) in
    rw first
      (atoi_plain (digit d) n s (unfold digit in ground arith) (unfold digit in ground arith) back)

fewer :
    (base rounds n k : ℕ)
    → 2 ≤ base
    → n / base ≤ rounds
    → base ≤ n
    → n < base ^ suc k
    → ((j : ℕ) → n / base < base ^ suc j → length (print_from base rounds (n / base)) ≤ suc j)
    → length (print_from base rounds (n / base)) + 1 ≤ suc k
fewer base rounds n zero lo le big lt h =
    let one : base ^ 1 ≡ base = pow-suc base 0 ∙ (rw (pow-zero base) (omega arith)) in
    absurd (omega (arith, one, lt, big))
fewer base rounds n (suc k) lo le big lt h =
    let less : n / base < base ^ suc k =
      (div-lt_iff_lt-mul (omega arith)).1 (subst (λ (t : ℕ). n < t) (pow-suc base (suc k)) lt) in
    omega (arith, h k less)

-- A number below base ^ (k + 1) has at most k + 1 digits.
length-print_from :
    (base rounds n k : ℕ)
    → 2 ≤ base
    → n ≤ rounds
    → n < base ^ suc k
    → length (print_from base rounds n) ≤ suc k
unfolding print_from
length-print_from base zero n k lo le lt = omega arith
length-print_from base (suc rounds) n k lo le lt = elim (Bool-cases (ltb n base)) [
  | inl e ↦ rw (e, print_from) (omega arith)
  | inr e ↦
      let big : base ≤ n = ground (arith, e) in
      let less : n / base < n = div-lt_self (omega arith) (omega arith) in
      rw (e, print_from, length-append (print_from base rounds (n / base)) (digit (n % base) ∷ []))
        (fewer base rounds n k lo (omega arith) big lt
          (λ j h. length-print_from base rounds (n / base) j lo (omega arith) h))
]

pub length-print_in :
    (base n k : ℕ) → 2 ≤ base → n < base ^ suc k → length (print_in base n) ≤ suc k
unfolding print_in
length-print_in base n k lo lt = length-print_from base n n k lo (omega arith) lt

pub is_empty-print_in : (base n : ℕ) → 2 ≤ base → is_empty (print_in base n) ≡ false
unfolding print_in
is_empty-print_in base n lo =
    let (d, s, first, lt, nz) = print_from-first base n n lo (omega arith) in rw first refl
