-- ===== src/Lumid/Resolve/Order.antt =====
-- service_resolve_deps against the dependency graph.
use lumi_os.Base.{
  In, Distinct, ℕ, zero, suc, ◌+◌, ◌≤◌, ◌<◌, ◌≡◌, refl, sym, subst, ◌↔◌, ◌⊎◌, inl, inr, some, List,
  get_elem?, length, length-take, length-replicate, replicate, arith, pos, neg,
}
use native.Mathlib.Decide.{ℕ_discrete}
use lumi_os.Lumid.Types.{Service, max_services}
use lumi_os.Lumid.Machine.{Machine}
use lumi_os.Lumid.Resolve.{
  Mark, unvisited, temporary, permanent, Sort, Visited, visit_new, visit_all, svc_array, fresh,
  sort_services, resolved, service_resolve_deps,
}
use lumi_os.Lumid.Resolve.Graph.{
  Before, Needs, needs, Reaches, one, more, HasCycle, get_elem?_of_lt, lt-length_of_get_elem?,
  Before-trans, Before-irrefl,
}
use lumi_os.Lumid.Resolve.Sorted.{room, Marked, IsSorted, Grows-refl}
use lumi_os.Lumid.Resolve.Visit.{Ensures, sorts, cycles, and_then-Ensures, weaken, Visits}
use lumi_os.Lumid.Resolve.Recursion.{topo_visit-Ensures}

-- `order` lists the services, each once, each behind all that it names in `after` and `requires`.
pub record IsTopological (arr : List Service) (order : List ℕ) : Type 0 where
  pub once : Distinct order
  pub complete : (i : ℕ) → i < length arr → In i order
  pub only : (i : ℕ) → In i order → i < length arr
  pub behind : (i d : ℕ) → Needs arr i d → Before d i order

-- The outer loop has come to index `i`.
record Progress (arr : List Service) (i : ℕ) (s : Sort) : Type 0 where
  valid : IsSorted arr s
  idle : (j : ℕ) → ¬ Marked s j temporary
  below : (j : ℕ) → j < i → Marked s j permanent
  fits : room s.visit < max_services + 1

below-suc :
    (s : Sort) (i : ℕ)
    → ((j : ℕ) → j < i → Marked s j permanent)
    → Marked s i permanent
    → (j : ℕ) → j < i + 1
    → Marked s j permanent
below-suc s i below m j lt = elim (ℕ_discrete j i) [
  | yes e ↦ subst (λ k. Marked s k permanent) (sym e) m
  | no ne ↦ below j (omega arith)
]

Progress-next :
    {arr : List Service} {i : ℕ} {s t : Sort}
    → Progress arr i s
    → Visits arr i s t
    → Progress arr (i + 1) t
Progress-next {i} {t} g a = record {
  valid = a.valid;
  idle = λ j h. g.idle j (a.grows.back j h);
  below = below-suc t i (λ j lt. a.grows.perm j (g.below j lt)) a.visited;
  fits = omega (arith, g.fits, a.grows.less);
}

visit_new-Ensures :
    (arr : List Service) (i : ℕ) (x : Mark) (s : Sort)
    → Marked s i x
    → i < length arr
    → Progress arr i s
    → Ensures (λ t. Progress arr (i + 1) t) (HasCycle arr) (visit_new (max_services + 1) arr i x s)
unfolding visit_new
visit_new-Ensures arr i unvisited s m lt g =
    weaken (λ t a. Progress-next g a)
      (topo_visit-Ensures arr (max_services + 1) i s g.valid lt g.fits (λ j h. absurd (g.idle j h)))
visit_new-Ensures arr i temporary s m lt g = absurd (g.idle i m)
visit_new-Ensures arr i permanent s m lt g =
    sorts (Progress-next g (record { valid = g.valid; grows = Grows-refl s; visited = m }))

visit_all-Ensures :
    (arr : List Service) (rounds i : ℕ) (s : Sort)
    → i + rounds ≡ length arr
    → Progress arr i s
    → Ensures
        (λ t. Progress arr (length arr) t)
        (HasCycle arr)
        (visit_all (max_services + 1) arr rounds i s)
unfolding visit_all
visit_all-Ensures arr zero i s e g =
    let e' : i ≡ length arr = omega arith in sorts (subst (λ k. Progress arr k s) e' g)
visit_all-Ensures arr (suc rounds) i s e g =
    let (x, m) = get_elem?_of_lt s.visit i (omega (arith, g.valid.size)) in
    rw (m, visit_all)
      (and_then-Ensures _ (visit_new-Ensures arr i x s m (omega arith) g)
        (λ t h. visit_all-Ensures arr rounds (i + 1) t (omega arith) h))

replicate-unvisited :
    (n i : ℕ) {x : Mark} → get_elem? (replicate n unvisited) i ≡ some x → x ≡ unvisited
replicate-unvisited zero i h = cc
replicate-unvisited (suc n) zero h = cc
replicate-unvisited (suc n) (suc i) h = replicate-unvisited n i h

room-replicate : (n : ℕ) → room (replicate n unvisited) ≡ n
room-replicate zero = refl
room-replicate (suc n) = omega (arith, room-replicate n)

Progress-fresh : (arr : List Service) → length arr ≤ max_services → Progress arr 0 fresh
Progress-fresh arr le = record {
  valid = record {
    size = rw (length-replicate max_services unvisited) le;
    in_perm = λ i h. elim h [ ];
    perm_in = λ i h. absurd (cc (replicate-unvisited max_services i h));
    sorted = λ i d h. elim h [ ];
    distinct = tt;
    bounded = λ i h. elim h [ ];
  };
  idle = λ j h. absurd (cc (replicate-unvisited max_services j h));
  below = λ j lt. elim lt [ ];
  fits = omega (arith, room-replicate max_services);
}

Needs-lt : {arr : List Service} {i d : ℕ} → Needs arr i d → i < length arr
Needs-lt {arr} {i} (needs svc name at named found) = lt-length_of_get_elem? arr i at

Progress-IsTopological :
    {arr : List Service} {s : Sort} → Progress arr (length arr) s → IsTopological arr s.order
Progress-IsTopological {s} g = record {
  once = g.valid.distinct;
  complete = λ i lt. g.valid.perm_in i (g.below i lt);
  only = g.valid.bounded;
  behind = λ i d n. g.valid.sorted i d (g.valid.perm_in i (g.below i (Needs-lt n))) n;
}

length-svc_array : (m : Machine) → length (svc_array m) ≤ max_services
unfolding svc_array
length-svc_array m = omega (arith, length-take max_services m.services)

-- A sort that is `done` is topological, and one that is not has met a cycle.
sort_services-Ensures :
    (arr : List Service)
    → length arr ≤ max_services
    → Ensures (λ s. IsTopological arr s.order) (HasCycle arr) (sort_services arr)
unfolding sort_services
sort_services-Ensures arr le =
    weaken (λ s g. Progress-IsTopological g)
      (visit_all-Ensures arr (length arr) 0 fresh (omega arith) (Progress-fresh arr le))

-- A graph that a list orders topologically has no cycle.
Reaches-Before :
    {arr : List Service} {order : List ℕ} {i d : ℕ}
    → IsTopological arr order
    → Reaches arr i d
    → Before d i order
Reaches-Before {i = i} t (one n) = t.behind i _ n
Reaches-Before {order} {i} t (more {d = d} {e = e} r n) =
    Before-trans e d i order t.once (t.behind d e n) (Reaches-Before t r)

pub acyclic_of_IsTopological :
    {arr : List Service} {order : List ℕ} → IsTopological arr order → ¬ HasCycle arr
acyclic_of_IsTopological {order} t (i, r) = Before-irrefl i order t.once (Reaches-Before t r)

-- What service_resolve_deps returns, from what the sort does.
resolved_lem :
    (m : Machine) {r : Visited}
    → Ensures (λ s. IsTopological (svc_array m) s.order) (HasCycle (svc_array m)) r
    → ((resolved m r).0 ≡ pos 0) × IsTopological (svc_array m) (resolved m r).1.start_order
      ⊎ ((resolved m r).0 ≡ neg 1) × HasCycle (svc_array m)
resolved_lem m (sorts t) = inl (refl, t)
resolved_lem m (cycles c) = inr (refl, c)

-- service_resolve_deps returns 0, and the start order that it leaves lists every service of the
-- array once and behind all that it needs, or it returns -1 and there is a circular dependency.
pub service_resolve_deps-IsTopological :
    (m : Machine)
    → ((service_resolve_deps m).0 ≡ pos 0)
        × IsTopological (svc_array m) (service_resolve_deps m).1.start_order
      ⊎ ((service_resolve_deps m).0 ≡ neg 1) × HasCycle (svc_array m)
unfolding service_resolve_deps
service_resolve_deps-IsTopological m =
    resolved_lem m (sort_services-Ensures (svc_array m) (length-svc_array m))

-- service_resolve_deps returns 0 exactly when no service of the array depends on itself, through
-- `after` and `requires` in any number of steps, and -1 exactly when one does.
pub service_resolve_deps_iff :
    (m : Machine)
    → (((service_resolve_deps m).0 ≡ pos 0) ↔ (¬ HasCycle (svc_array m)))
      × (((service_resolve_deps m).0 ≡ neg 1) ↔ HasCycle (svc_array m))
service_resolve_deps_iff m = elim (service_resolve_deps-IsTopological m) [
  | inl (e, t) ↦ (
    (λ _. acyclic_of_IsTopological t, λ _. e),
    (λ f. absurd (cc (e, f)), λ c. absurd (acyclic_of_IsTopological t c)),
  )
  | inr (e, c) ↦ ((λ f. absurd (cc (e, f)), λ n. absurd (n c)), (λ _. c, λ _. e))
]
