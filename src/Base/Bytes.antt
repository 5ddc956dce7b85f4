-- ===== src/Base/Bytes.antt =====
-- C strings as the list of their bytes before the terminating NUL, and the functions of the C
-- library that the source calls on them, in the C locale.
use Prim.Native.Nat.{ℕ, ◌+◌, ◌-◌, ◌*◌}
use Prim.Native.Char.{code}
use Prim.Native.String.{String}
use mathlib.Core.Path.{◌≡◌, refl}
use mathlib.Core.Logic.{◌↔◌}
use mathlib.Core.Bool.{Bool, true, false, ◌&&◌, ◌||◌}
use mathlib.Core.List.{List, [], ◌∷◌, reverse}
use mathlib.Core.Option.{Option, none, some}
use native.Mathlib.Omega.{arith}
use lumi_os.Base.Tests.{leb, ◌==◌, if◌then◌else◌}
use lumi_os.Base.Int.{ℤ, pos, neg}

abbrev pub Text : Type 0
Text = List ℕ

abbrev pub codes : String → Text
codes String.[] = []
codes (String.◌∷◌ c s) = code c ∷ codes s

-- strcmp (s, t) == 0
unfoldable pub text_eq : Text → Text → Bool
text_eq [] [] = true
text_eq [] (d ∷ t) = false
text_eq (c ∷ s) [] = false
text_eq (c ∷ s) (d ∷ t) = c == d && text_eq s t

pub text_eq_iff : (s t : Text) → (text_eq s t ≡ true) ↔ (s ≡ t)
unfolding text_eq
text_eq_iff [] [] = ground arith
text_eq_iff [] (d ∷ t) = ground arith
text_eq_iff (c ∷ s) [] = ground arith
text_eq_iff (c ∷ s) (d ∷ t) = ground (arith, text_eq_iff s t)

-- s[0] == '\0'
abbrev pub is_empty : Text → Bool
is_empty [] = true
is_empty (c ∷ s) = false

unfoldable pub is_space : ℕ → Bool
is_space c = c == 32 || leb 9 c && leb c 13

unfoldable pub skip_spaces : Text → Text
skip_spaces [] = []
skip_spaces (c ∷ s) = if is_space c then skip_spaces s else c ∷ s

-- The text without its trailing white space.
unfoldable pub drop_trailing : Text → Text
drop_trailing [] = []
drop_trailing (c ∷ s) =
    let rest = drop_trailing s in if is_space c && is_empty rest then [] else c ∷ rest

-- The part before the first byte `c`, and the part after it, where there is one: strchr.
unfoldable pub split_at : ℕ → Text → Option (Text × Text)
split_at c [] = none
split_at c (d ∷ s) =
    let rest = split_at c s in
    if d == c
    then some ([], s)
    else elim rest [ none ↦ none | some (before, after) ↦ some (d ∷ before, after) ]

-- strtok: the maximal runs of bytes that are no separators, in order. The first argument is the
-- token being read, backwards.
flush : Text → List Text → List Text
flush [] rest = rest
flush (c ∷ s) rest = reverse (c ∷ s) ∷ rest

tokens_from : (ℕ → Bool) → Text → Text → List Text
tokens_from sep token [] = flush token []
tokens_from sep token (c ∷ s) = elim (sep c) [
  | true ↦ flush token (tokens_from sep [] s)
  | false ↦ tokens_from sep (c ∷ token) s
]

unfoldable pub tokens : (ℕ → Bool) → Text → List Text
unfolding tokens_from flush
tokens sep s = tokens_from sep [] s

-- atoi and strtoll in base 10: the value, the rest, and whether a digit was read.
unfoldable pub is_digit : ℕ → Bool
is_digit c = leb 48 c && leb c 57

unfoldable pub digits_from : ℕ → Bool → Text → ℕ × Bool × Text
digits_from acc seen [] = (acc, seen, [])
digits_from acc seen (c ∷ s) = elim (is_digit c) [
  | true ↦ digits_from (10 * acc + (c - 48)) true s
  | false ↦ (acc, seen, c ∷ s)
]

unfoldable pub signed : (ℕ → ℤ) → Text → Option (ℤ × Text)
unfolding digits_from is_digit
signed sign s =
    let (n, seen, rest) = digits_from 0 false s in if seen then some (sign n, rest) else none

unfoldable pub after_spaces : Text → Option (ℤ × Text)
unfolding signed
after_spaces [] = none
after_spaces (c ∷ s) =
    if c == b'-' then signed neg s else if c == b'+' then signed pos s else signed pos (c ∷ s)

-- `none` where no digit was read: strtoll leaves its end pointer at the start.
unfoldable pub strtoll : Text → Option (ℤ × Text)
unfolding after_spaces skip_spaces is_space
strtoll s = after_spaces (skip_spaces s)

unfoldable pub atoi : Text → ℤ
unfolding strtoll
atoi s = elim (strtoll s) [ none ↦ pos 0 | some (n, rest) ↦ n ]

atoi_negative : atoi (codes "  -120x") ≡ neg 120
unfolding atoi
atoi_negative = refl

tokens_example :
    tokens (λ c. c == b' ' || c == b',') (codes " a, bc,,d")
    ≡ codes "a" ∷ codes "bc" ∷ codes "d" ∷ []
unfolding tokens
tokens_example = refl
