-- ===== src/Lumid/Resolve/Graph.antt =====
-- The dependency graph of the services, and lists of positions.
use lumi_os.Base.{
  In, Distinct, ℕ, zero, suc, ◌<◌, ◌≡◌, refl, sym, ◌⊎◌, inl, inr, Bool, some, List, [], ◌∷◌, ◌++◌,
  Text, get_elem?, length, arith, Bool-cases, Option-cases,
}
use lumi_os.Lumid.Types.{Service}
use lumi_os.Lumid.Machine.{find_index}
use lumi_os.Lumid.Resolve.{svc_index}

-- `x` stands on the list at some place before `y`.
abbrev pub Before : ℕ → ℕ → List ℕ → Type 0
Before x y [] = ⊥
Before x y (z ∷ zs) = ((x ≡ z) × In y zs) ⊎ Before x y zs

-- The service at `i` names, in `after` or in `requires`, the service at `d`.
pub data Needs (arr : List Service) (i d : ℕ) : Type 0 where
  needs :
      (s : Service) (name : Text)
      → get_elem? arr i ≡ some s
      → In name s.after ⊎ In name s.requires
      → svc_index arr name ≡ some d
      → Needs arr i d

-- One or more steps along the graph.
pub data Reaches (arr : List Service) (i : ℕ) : ℕ → Type 0 where
  one : {d : ℕ} → Needs arr i d → Reaches arr i d
  more : {d e : ℕ} → Reaches arr i d → Needs arr d e → Reaches arr i e

-- The services have a circular dependency.
abbrev pub HasCycle : List Service → Type 0
HasCycle arr = (i : ℕ) × Reaches arr i i

pub In-append_left : (x : ℕ) (xs ys : List ℕ) → In x xs → In x (xs ++ ys)
In-append_left x [] ys h = elim h [ ]
In-append_left x (y ∷ xs) ys (inl e) = inl e
In-append_left x (y ∷ xs) ys (inr h) = inr (In-append_left x xs ys h)

pub In-append_last : (x : ℕ) (xs : List ℕ) → In x (xs ++ (x ∷ []))
In-append_last x [] = inl refl
In-append_last x (y ∷ xs) = inr (In-append_last x xs)

pub In-append_cases : (x y : ℕ) (xs : List ℕ) → In x (xs ++ (y ∷ [])) → In x xs ⊎ (x ≡ y)
In-append_cases x y [] (inl e) = inr e
In-append_cases x y [] (inr h) = elim h [ ]
In-append_cases x y (z ∷ xs) (inl e) = inl (inl e)
In-append_cases x y (z ∷ xs) (inr h) = elim (In-append_cases x y xs h) [
  | inl l ↦ inl (inr l)
  | inr e ↦ inr e
]

pub Before-append_left : (x y z : ℕ) (xs : List ℕ) → Before x y xs → Before x y (xs ++ (z ∷ []))
Before-append_left x y z [] h = elim h [ ]
Before-append_left x y z (w ∷ xs) (inl (e, h)) = inl (e, In-append_left y xs (z ∷ []) h)
Before-append_left x y z (w ∷ xs) (inr h) = inr (Before-append_left x y z xs h)

pub Before-append_last : (x y : ℕ) (xs : List ℕ) → In x xs → Before x y (xs ++ (y ∷ []))
Before-append_last x y [] h = elim h [ ]
Before-append_last x y (w ∷ xs) (inl e) = inl (e, In-append_last y xs)
Before-append_last x y (w ∷ xs) (inr h) = inr (Before-append_last x y xs h)

pub Distinct-append_last :
    (x : ℕ) (xs : List ℕ) → Distinct xs → ¬ In x xs → Distinct (xs ++ (x ∷ []))
Distinct-append_last x [] d n = (λ h. h, tt)
Distinct-append_last x (y ∷ xs) d n = (
  λ h. elim (In-append_cases y x xs h) [ inl l ↦ d.0 l | inr e ↦ n (inl (sym e)) ],
  Distinct-append_last x xs d.1 (λ h. n (inr h)),
)

pub Before-In_left : (x y : ℕ) (xs : List ℕ) → Before x y xs → In x xs
Before-In_left x y [] h = elim h [ ]
Before-In_left x y (z ∷ xs) (inl (e, h)) = inl e
Before-In_left x y (z ∷ xs) (inr h) = inr (Before-In_left x y xs h)

pub Before-In_right : (x y : ℕ) (xs : List ℕ) → Before x y xs → In y xs
Before-In_right x y [] h = elim h [ ]
Before-In_right x y (z ∷ xs) (inl (e, h)) = inr h
Before-In_right x y (z ∷ xs) (inr h) = inr (Before-In_right x y xs h)

In-subst : (x y : ℕ) (xs : List ℕ) → x ≡ y → In x xs → In y xs
In-subst x y xs e h = rw (← e) h

pub Before-trans :
    (x y z : ℕ) (xs : List ℕ) → Distinct xs → Before x y xs → Before y z xs → Before x z xs
Before-trans x y z [] d a b = elim a [ ]
Before-trans x y z (w ∷ xs) d (inl (e, h)) (inl (e', h')) = inl (e, h')
Before-trans x y z (w ∷ xs) d (inl (e, h)) (inr b) = inl (e, Before-In_right y z xs b)
Before-trans x y z (w ∷ xs) d (inr a) (inl (e, h)) =
    absurd (d.0 (In-subst y w xs e (Before-In_right x y xs a)))
Before-trans x y z (w ∷ xs) d (inr a) (inr b) = inr (Before-trans x y z xs d.1 a b)

pub Before-irrefl : (x : ℕ) (xs : List ℕ) → Distinct xs → ¬ Before x x xs
Before-irrefl x [] d h = h
Before-irrefl x (w ∷ xs) d (inl (e, h)) = d.0 (In-subst x w xs e h)
Before-irrefl x (w ∷ xs) d (inr h) = Before-irrefl x xs d.1 h

pub lt-length_of_get_elem? {ℓ} :
    {A : Type ℓ} (xs : List A) (i : ℕ) {x : A} → get_elem? xs i ≡ some x → i < length xs
lt-length_of_get_elem? [] i h = cc
lt-length_of_get_elem? (x ∷ xs) zero h = omega arith
lt-length_of_get_elem? (x ∷ xs) (suc i) h = omega (arith, lt-length_of_get_elem? xs i h)

pub get_elem?_of_lt {ℓ} :
    {A : Type ℓ} (xs : List A) (i : ℕ) → i < length xs → (x : A) × (get_elem? xs i ≡ some x)
get_elem?_of_lt [] i h = elim h [ ]
get_elem?_of_lt (x ∷ xs) zero h = (x, refl)
get_elem?_of_lt (x ∷ xs) (suc i) h = get_elem?_of_lt xs i (omega arith)

find_index-lt :
    (test : Service → Bool) (ss : List Service) {i : ℕ}
    → find_index test ss ≡ some i
    → i < length ss
unfolding find_index
find_index-lt test [] h = cc
find_index-lt test (s ∷ ss) {i} h = elim (Bool-cases (test s)) [
  | inl e ↦ ground arith
  | inr e ↦ elim (Option-cases (find_index test ss)) [
    | inl n ↦ ground arith
    | inr (j, f) ↦ ground (arith, find_index-lt test ss f)
  ]
]

pub svc_index-lt :
    (arr : List Service) (name : Text) {d : ℕ} → svc_index arr name ≡ some d → d < length arr
unfolding svc_index
svc_index-lt arr name h = find_index-lt _ arr h
