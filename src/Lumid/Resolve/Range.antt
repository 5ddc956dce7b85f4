-- ===== src/Lumid/Resolve/Range.antt =====
-- The positions in the start order of service_resolve_deps.
use lumi_os.Base.{
  In, ℕ, zero, suc, ◌+◌, ◌≤◌, ◌<◌, inl, inr, List, [], ◌∷◌, Text, get_elem?, length, length-take,
  arith, Option-cases,
}
use lumi_os.Lumid.Types.{Service, max_services}
use lumi_os.Lumid.Machine.{Machine}
use lumi_os.Lumid.Resolve.{
  Mark, unvisited, temporary, permanent, Sort, Visited, done, circular, stuck, and_then, svc_index,
  visit_deps, enter, leave, visit_service, visit_marked, topo_visit, visit_new, visit_all,
  svc_array, fresh, sort_services, resolved, service_resolve_deps,
}
use lumi_os.Lumid.Resolve.Graph.{In-append_cases, lt-length_of_get_elem?}
use lumi_os.Lumid.Lifecycle.Valid.{IsValid}

abbrev InRange : List Service → Sort → Type 0
InRange arr s = (i : ℕ) → In i s.order → i < length arr

data Ranged (arr : List Service) : Visited → Type 0 where
  finished : {s : Sort} → InRange arr s → Ranged arr (done s)
  aborted : {s : Sort} → InRange arr s → Ranged arr (circular s)
  nothing : Ranged arr stuck

abbrev RangedVisitor : List Service → (ℕ → Sort → Visited) → Type 0
RangedVisitor arr visit = (i : ℕ) (s : Sort) → InRange arr s → Ranged arr (visit i s)

and_then-Ranged :
    {arr : List Service} {r : Visited} (f : Sort → Visited)
    → Ranged arr r
    → ((s : Sort) → InRange arr s → Ranged arr (f s))
    → Ranged arr (and_then r f)
and_then-Ranged f (finished {s = s} h) g = g s h
and_then-Ranged f (aborted h) g = aborted h
and_then-Ranged f nothing g = nothing

module _ (arr : List Service) (visit : ℕ → Sort → Visited) (ih : RangedVisitor arr visit) where
  visit_deps-Ranged :
      (ns : List Text) (s : Sort) → InRange arr s → Ranged arr (visit_deps visit arr ns s)
  unfolding visit_deps
  visit_deps-Ranged [] s h = finished h
  visit_deps-Ranged (n ∷ ns) s h = elim (Option-cases (svc_index arr n)) [
    | inl e ↦ rw (e, visit_deps) (visit_deps-Ranged ns s h)
    | inr (d, e) ↦
        rw (e, visit_deps) (and_then-Ranged _ (ih d s h) (λ t g. visit_deps-Ranged ns t g))
  ]

  leave-InRange : (i : ℕ) (s : Sort) → i < length arr → InRange arr s → InRange arr (leave i s)
  leave-InRange i s lt h j m = elim (In-append_cases j i s.order m) [
    | inl l ↦ h j l
    | inr e ↦ rw e lt
  ]

  visit_marked-Ranged :
      (i : ℕ) (x : Mark) (s : Sort) → InRange arr s → Ranged arr (visit_marked visit arr i x s)
  unfolding visit_marked visit_service
  visit_marked-Ranged i permanent s h = finished h
  visit_marked-Ranged i temporary s h = aborted h
  visit_marked-Ranged i unvisited s h = elim (Option-cases (get_elem? arr i)) [
    | inl e ↦ rw (e, visit_marked) nothing
    | inr (svc, e) ↦
        rw (e, visit_marked)
          (and_then-Ranged _ (visit_deps-Ranged svc.after (enter i s) h) (λ t g.
            and_then-Ranged _ (visit_deps-Ranged svc.requires t g)
              (λ u f. finished (leave-InRange i u (lt-length_of_get_elem? arr i e) f))))
  ]

topo_visit-Ranged :
    (arr : List Service) (fuel : ℕ) → RangedVisitor arr (λ i s. topo_visit fuel arr i s)
unfolding topo_visit
topo_visit-Ranged arr zero i s h = nothing
topo_visit-Ranged arr (suc fuel) i s h = elim (Option-cases (get_elem? s.visit i)) [
  | inl e ↦ rw (e, topo_visit) nothing
  | inr (x, e) ↦ rw (e, topo_visit) (visit_marked-Ranged arr _ (topo_visit-Ranged arr fuel) i x s h)
]

visit_new-Ranged :
    (fuel : ℕ) (arr : List Service) (i : ℕ) (x : Mark) (s : Sort)
    → InRange arr s
    → Ranged arr (visit_new fuel arr i x s)
unfolding visit_new
visit_new-Ranged fuel arr i unvisited s h = topo_visit-Ranged arr fuel i s h
visit_new-Ranged fuel arr i temporary s h = finished h
visit_new-Ranged fuel arr i permanent s h = finished h

visit_all-Ranged :
    (fuel : ℕ) (arr : List Service) (rounds i : ℕ) (s : Sort)
    → InRange arr s
    → Ranged arr (visit_all fuel arr rounds i s)
unfolding visit_all
visit_all-Ranged fuel arr zero i s h = finished h
visit_all-Ranged fuel arr (suc rounds) i s h = elim (Option-cases (get_elem? s.visit i)) [
  | inl e ↦ rw (e, visit_all) nothing
  | inr (x, e) ↦
      rw (e, visit_all)
        (and_then-Ranged _ (visit_new-Ranged fuel arr i x s h)
          (λ t g. visit_all-Ranged fuel arr rounds (i + 1) t g))
]

sort_services-Ranged : (arr : List Service) → Ranged arr (sort_services arr)
unfolding sort_services
sort_services-Ranged arr =
    visit_all-Ranged (max_services + 1) arr (length arr) 0 fresh (λ i h. elim h [ ])

svc_array-le : (m : Machine) → length (svc_array m) ≤ length m.services
unfolding svc_array
svc_array-le m = omega (arith, length-take max_services m.services)

reordered :
    (m : Machine) (order : List ℕ)
    → ((i : ℕ) → In i order → i < length (svc_array m))
    → IsValid m
    → IsValid (record m { start_order = order })
reordered m order h v = record {
  counted = v.counted;
  named = v.named;
  live = v.live;
  ordered = λ i g. omega (arith, h i g, svc_array-le m);
}

resolved-IsValid :
    (m : Machine) {r : Visited} → Ranged (svc_array m) r → IsValid m → IsValid (resolved m r).1
resolved-IsValid m (finished {s = s} h) v = reordered m s.order h v
resolved-IsValid m (aborted {s = s} h) v = reordered m s.order h v
resolved-IsValid m nothing v = v

-- service_resolve_deps keeps the invariant, whether or not it meets a cycle.
pub service_resolve_deps-IsValid : (m : Machine) → IsValid m → IsValid (service_resolve_deps m).1
unfolding service_resolve_deps
service_resolve_deps-IsValid m v = resolved-IsValid m (sort_services-Ranged (svc_array m)) v
