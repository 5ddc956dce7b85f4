-- ===== src/Base/Scan.antt =====
-- strstr, the words that %s of sscanf reads, and the end of a line.
use Prim.Native.Nat.{ℕ, zero, suc, ◌≤◌}
use mathlib.Core.Path.{◌≡◌, refl}
use mathlib.Core.Bool.{Bool, true, false, ◌&&◌}
use mathlib.Core.Option.{Option, none, some}
use mathlib.Core.List.{[], ◌∷◌, ◌++◌}
use native.Mathlib.Omega.{arith}
use lumi_os.Base.Tests.{◌==◌, if◌then◌else◌}
use lumi_os.Base.Lists.{length}
use lumi_os.Base.Bytes.{Text, is_space, skip_spaces, split_at}
use lumi_os.Base.Lines.{Without}
use lumi_os.Base.Numerals.{AreSolid}

unfoldable pub starts : Text → Text → Bool
starts [] s = true
starts (c ∷ p) [] = false
starts (c ∷ p) (d ∷ s) = c == d && starts p s

-- strstr: the text from the first occurrence of `p` on.
unfoldable pub strstr : Text → Text → Option Text
unfolding starts
strstr p [] = if starts p [] then some [] else none
strstr p (c ∷ s) = let rest = strstr p s in if starts p (c ∷ s) then some (c ∷ s) else rest

abbrev pub is_some : Option Text → Bool
is_some none = false
is_some (some s) = true

-- strstr (s, p) != NULL
unfoldable pub contains : Text → Text → Bool
contains p s = is_some (strstr p s)

-- char *nl = strchr(line, '\n'); if (nl) *nl = '\0'
unfoldable pub chomp : Text → Text
chomp s = elim (split_at 10 s) [ none ↦ s | some (before, after) ↦ before ]

-- The bytes before white space.
unfoldable pub word : Text → Text
word [] = []
word (c ∷ s) = let rest = word s in if is_space c then [] else c ∷ rest

pub Without-AreSolid : (s : Text) → AreSolid s → Without 10 s
unfolding is_space
Without-AreSolid [] h = tt
Without-AreSolid (c ∷ s) h = (λ e. ground (arith, h.0), Without-AreSolid s h.1)

pub word_solid : (s : Text) → AreSolid s → word s ≡ s
unfolding word
word_solid [] h = refl
word_solid (c ∷ s) h = rw (h.0, word_solid s h.1) refl

pub skip_solid : (s : Text) → AreSolid s → skip_spaces s ≡ s
unfolding skip_spaces
skip_solid [] h = refl
skip_solid (c ∷ s) h = rw h.0 refl

-- %<max>s behind the white space: at most `max` bytes up to white space, and what is behind them.
unfoldable pub field : ℕ → Text → Text × Text
field zero s = ([], s)
field (suc max) [] = ([], [])
field (suc max) (c ∷ s) =
    let (w, rest) = field max s in if is_space c then ([], c ∷ s) else (c ∷ w, rest)

pub field_solid :
    (max : ℕ) (w rest : Text)
    → AreSolid w
    → length w ≤ max
    → field max (w ++ b' ' ∷ rest) ≡ (w, b' ' ∷ rest)
unfolding field is_space
field_solid zero [] rest h le = refl
field_solid zero (c ∷ w) rest h le = absurd (omega arith)
field_solid (suc max) [] rest h le = refl
field_solid (suc max) (c ∷ w) rest h le =
    rw (h.0, field, field_solid max w rest h.1 (omega arith)) refl

pub starts-append : (p s : Text) → starts p (p ++ s) ≡ true
unfolding starts
starts-append [] s = refl
starts-append (c ∷ p) s = ground (arith, starts-append p s)

-- A text is found wherever it stands.
pub contains-append : (before p after : Text) → contains p (before ++ (p ++ after)) ≡ true
unfolding contains strstr
contains-append [] [] [] = refl
contains-append [] [] (c ∷ s) = refl
contains-append [] (d ∷ p) s = ground (arith, starts-append (d ∷ p) s)
contains-append (c ∷ b) p s = ground (arith, contains-append b p s)
