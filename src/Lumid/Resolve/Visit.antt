-- ===== src/Lumid/Resolve/Visit.antt =====
-- The outcome of one visit of topo_visit.
use lumi_os.Base.{
  In, ℕ, ◌<◌, ◌≡◌, refl, ap, subst, inl, inr, none, some, List, [], ◌∷◌, Text, length, arith,
  Option-cases,
}
use lumi_os.Lumid.Types.{Service}
use lumi_os.Lumid.Resolve.{
  temporary, permanent, Sort, Visited, done, circular, and_then, svc_index, visit_deps,
}
use lumi_os.Lumid.Resolve.Graph.{Reaches, HasCycle, svc_index-lt}
use lumi_os.Lumid.Resolve.Sorted.{room, Marked, IsSorted, Grows, Grows-refl, Grows-trans}

-- The outcome is a sort of which `P` holds, or a cycle that `C` describes, and never `stuck`.
pub data Ensures (P : Sort → Type 0) (C : Type 0) : Visited → Type 0 where
  sorts : {s : Sort} → P s → Ensures P C (done s)
  cycles : {s : Sort} → C → Ensures P C (circular s)

pub and_then-Ensures :
    {P Q : Sort → Type 0} {C : Type 0} {r : Visited} (f : Sort → Visited)
    → Ensures P C r
    → ((s : Sort) → P s → Ensures Q C (f s))
    → Ensures Q C (and_then r f)
and_then-Ensures f (sorts {s = s} p) g = g s p
and_then-Ensures f (cycles c) g = cycles c

pub weaken :
    {P Q : Sort → Type 0} {C : Type 0} {r : Visited}
    → ((s : Sort) → P s → Q s)
    → Ensures P C r
    → Ensures Q C r
weaken f (sorts {s = s} p) = sorts (f s p)
weaken f (cycles c) = cycles c

-- The services on the path to `i` reach it.
abbrev pub OnPath : List Service → ℕ → Sort → Type 0
OnPath arr i s = (j : ℕ) → Marked s j temporary → Reaches arr j i

-- A visit of `i` from `s` that ends in `t`.
pub record Visits (arr : List Service) (i : ℕ) (s t : Sort) : Type 0 where
  pub valid : IsSorted arr t
  pub grows : Grows s t
  pub visited : Marked t i permanent

pub record VisitsAll (arr : List Service) (ns : List Text) (s t : Sort) : Type 0 where
  pub valid : IsSorted arr t
  pub grows : Grows s t
  pub all : (n : Text) (d : ℕ) → In n ns → svc_index arr n ≡ some d → Marked t d permanent

same_index :
    (arr : List Service) {m n : Text} {c d : ℕ} (t : Sort)
    → svc_index arr n ≡ some d
    → svc_index arr m ≡ some c
    → m ≡ n
    → Marked t d permanent
    → Marked t c permanent
same_index arr {n = n} {c = c} {d = d} t e f q h =
    let p : d ≡ c = cc (e, f, ap (svc_index arr) q) in subst (λ k. Marked t k permanent) p h

module _ {arr : List Service} {n : Text} {ns : List Text} where
  skip_dep :
      {s t : Sort} → svc_index arr n ≡ none → VisitsAll arr ns s t → VisitsAll arr (n ∷ ns) s t
  skip_dep {t} e a = record { valid = a.valid; grows = a.grows; all = marked }
    where
      marked : (m : Text) (d : ℕ) → In m (n ∷ ns) → svc_index arr m ≡ some d → Marked t d permanent
      marked m d (inl q) f = absurd (cc (e, f, ap (svc_index arr) q))
      marked m d (inr h) f = a.all m d h f

  next_dep :
      {d : ℕ} {s t u : Sort}
      → svc_index arr n ≡ some d
      → Visits arr d s t
      → VisitsAll arr ns t u
      → VisitsAll arr (n ∷ ns) s u
  next_dep {u} e a b = record { valid = b.valid; grows = Grows-trans a.grows b.grows; all = marked }
    where
      marked : (m : Text) (c : ℕ) → In m (n ∷ ns) → svc_index arr m ≡ some c → Marked u c permanent
      marked m c (inl q) f = same_index arr u e f q (b.grows.perm _ a.visited)
      marked m c (inr h) f = b.all m c h f

-- What the recursive call promises.
abbrev pub Visitor : List Service → ℕ → (ℕ → Sort → Visited) → Type 0
Visitor arr fuel visit =
    (i : ℕ) (s : Sort)
    → IsSorted arr s
    → i < length arr
    → room s.visit < fuel
    → OnPath arr i s
    → Ensures (λ t. Visits arr i s t) (HasCycle arr) (visit i s)

module _ (arr : List Service) (fuel : ℕ) (visit : ℕ → Sort → Visited)
    (ih : Visitor arr fuel visit) where
  pub visit_deps-Ensures :
      (ns : List Text) (s : Sort)
      → IsSorted arr s
      → room s.visit < fuel
      → ((n : Text) (d : ℕ) → In n ns → svc_index arr n ≡ some d → OnPath arr d s)
      → Ensures (λ t. VisitsAll arr ns s t) (HasCycle arr) (visit_deps visit arr ns s)
  unfolding visit_deps
  visit_deps-Ensures [] s v lt path =
      sorts (record { valid = v; grows = Grows-refl s; all = λ n d h. elim h [ ] })
  visit_deps-Ensures (n ∷ ns) s v lt path = elim (Option-cases (svc_index arr n)) [
    | inl e ↦
        rw (e, visit_deps)
          (weaken (λ t a. skip_dep e a) (visit_deps-Ensures ns s v lt (λ m d h. path m d (inr h))))
    | inr (d, e) ↦
        rw (e, visit_deps)
          (and_then-Ensures _ (ih d s v (svc_index-lt arr n e) lt (path n d (inl refl) e)) (λ t a.
            weaken (λ u b. next_dep e a b)
              (visit_deps-Ensures ns t a.valid (omega (arith, a.grows.less))
                (λ m c h f j p. path m c (inr h) f j (a.grows.back j p)))))
  ]
