-- ===== src/Base/Lines.antt =====
-- fgets: a file read in pieces that end at a newline or at the room of the buffer.
use Prim.Native.Nat.{ℕ, ◌+◌, ◌-◌, ◌<◌}
use mathlib.Core.Path.{◌≡◌, refl, ap, ◌∙◌}
use mathlib.Core.Logic.{◌≢◌}
use mathlib.Core.Bool.{true, false, ◌||◌}
use mathlib.Core.Option.{some}
use mathlib.Core.List.{List, [], ◌∷◌, ◌++◌, reverse, reverse_aux, reverse_aux-eq, reverse-reverse}
use native.Mathlib.Omega.{arith}
use lumi_os.Base.Tests.{leb, ◌==◌, if◌then◌else◌}
use lumi_os.Base.Lists.{length}
use lumi_os.Base.Bytes.{Text, is_empty, split_at}

-- The byte does not stand in the text.
abbrev pub Without : ℕ → Text → Type 0
Without c [] = Unit
Without c (d ∷ s) = (d ≢ c) × Without c s

pub Without-append : (c : ℕ) (s t : Text) → Without c s → Without c t → Without c (s ++ t)
Without-append c [] t h k = k
Without-append c (d ∷ s) t h k = (h.0, Without-append c s t h.1 k)

pub split_at_first : (c : ℕ) (s t : Text) → Without c s → split_at c (s ++ c ∷ t) ≡ some (s, t)
unfolding split_at
split_at_first c [] t h = ground arith
split_at_first c (d ∷ s) t h = rw (split_at_first c s t h.1, split_at) (ground arith)

-- The pieces of a file, where `room` bytes still fit behind `line`, which is read and backwards,
-- and a piece has at most `max - 1` bytes.
unfoldable pub lines_from : ℕ → ℕ → Text → Text → List Text
lines_from max room line [] = if is_empty line then [] else reverse line ∷ []
lines_from max room line (c ∷ s) = elim (c == 10 || leb room 1) [
  | true ↦ reverse (c ∷ line) ∷ lines_from max (max - 1) [] s
  | false ↦ lines_from max (room - 1) (c ∷ line) s
]

-- while (fgets(line, max, fp))
unfoldable pub lines : ℕ → Text → List Text
lines max bytes = lines_from max (max - 1) [] bytes

lines_from-line :
    (max room : ℕ) (line s rest : Text)
    → Without 10 s
    → length s < room
    → lines_from max room line (s ++ 10 ∷ rest)
      ≡ reverse (10 ∷ reverse_aux s line) ∷ lines_from max (max - 1) [] rest
unfolding lines_from
lines_from-line max room line [] rest h lt = refl
lines_from-line max room line (c ∷ s) rest h lt =
    let e : (c == 10 || leb room 1) ≡ false = ground (arith, h.0) in
    rw (e, lines_from) (lines_from-line max (room - 1) (c ∷ line) s rest h.1 (omega arith))

-- A line that fits is read whole, with its newline.
pub lines-append :
    (max : ℕ) (s rest : Text)
    → Without 10 s
    → length s + 1 < max
    → lines max (s ++ 10 ∷ rest) ≡ (s ++ 10 ∷ []) ∷ lines max rest
unfolding lines
lines-append max s rest h lt =
    lines_from-line max (max - 1) [] s rest h (omega arith)
    ∙ ap (λ (t : Text). t ∷ lines_from max (max - 1) [] rest)
        (reverse_aux-eq (reverse s) (10 ∷ [])
          ∙ ap (λ (t : Text). t ++ (10 ∷ [])) (reverse-reverse s))

-- A file of lines, each with its newline.
abbrev pub unlines : List Text → Text
unlines [] = []
unlines (l ∷ ls) = l ++ 10 ∷ unlines ls

abbrev pub AreLines : List Text → Type 0
AreLines [] = Unit
AreLines (l ∷ ls) = Without 10 l × AreLines ls
