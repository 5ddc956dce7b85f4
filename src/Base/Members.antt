-- ===== src/Base/Members.antt =====
-- Membership and repetition, by recursion on the list.
use mathlib.Core.Path.{◌≡◌}
use mathlib.Core.Logic.{◌⊎◌}
use mathlib.Core.List.{List, [], ◌∷◌}

-- `x` is on the list.
abbrev pub In : {A : Type 0} → A → List A → Type 0
In x [] = ⊥
In x (y ∷ ys) = (x ≡ y) ⊎ In x ys

-- No element stands twice.
abbrev pub Distinct : {A : Type 0} → List A → Type 0
Distinct [] = Unit
Distinct (x ∷ xs) = (¬ In x xs) × Distinct xs
