-- ===== src/Base/Int.antt =====
-- C's signed integers: an integer is a natural number or the negative of a successor. The
-- library's ℤ stands on the unary numbers.
use Prim.Native.Nat.{ℕ, ◌-◌}
use mathlib.Core.Path.{◌≡◌}
use mathlib.Core.Logic.{◌↔◌}
use mathlib.Core.Bool.{Bool, true, false, not}
use native.Mathlib.Omega.{arith}
use lumi_os.Base.Tests.{ltb, leb, ◌==◌, if◌then◌else◌}

-- `negsuc n` is -(n + 1).
pub data ℤ : Type 0 where
  pos : ℕ → ℤ
  negsuc : ℕ → ℤ

-- -n, as C's unary minus on a small number.
abbrev pub neg : ℕ → ℤ
neg n = if n == 0 then pos 0 else negsuc (n - 1)

-- n > 0, n < 0 and n ≠ 0, as the source tests them.
abbrev pub is_positive : ℤ → Bool
is_positive (pos n) = ltb 0 n
is_positive (negsuc n) = false

abbrev pub is_negative : ℤ → Bool
is_negative (pos n) = false
is_negative (negsuc n) = true

abbrev pub is_nonzero : ℤ → Bool
is_nonzero (pos n) = ltb 0 n
is_nonzero (negsuc n) = true

abbrev pub eq_ℤ : ℤ → ℤ → Bool
eq_ℤ (pos a) (pos b) = a == b
eq_ℤ (negsuc a) (negsuc b) = a == b
eq_ℤ (pos a) (negsuc b) = false
eq_ℤ (negsuc a) (pos b) = false

abbrev pub leb_ℤ : ℤ → ℤ → Bool
leb_ℤ (pos a) (pos b) = leb a b
leb_ℤ (pos a) (negsuc b) = false
leb_ℤ (negsuc a) (pos b) = true
leb_ℤ (negsuc a) (negsuc b) = leb b a

abbrev pub ltb_ℤ : ℤ → ℤ → Bool
ltb_ℤ a b = not (leb_ℤ b a)

pub eq_ℤ_iff : (a b : ℤ) → (eq_ℤ a b ≡ true) ↔ (a ≡ b)
eq_ℤ_iff (pos a) (pos b) = ground arith
eq_ℤ_iff (negsuc a) (negsuc b) = ground arith
eq_ℤ_iff (pos a) (negsuc b) = ground arith
eq_ℤ_iff (negsuc a) (pos b) = ground arith
