-- ===== src/Lumid/Resolve/Recursion.antt =====
-- topo_visit, by induction on the fuel.
use lumi_os.Base.{
  In, ℕ, zero, suc, ◌<◌, ◌≡◌, sym, subst, ◌≢◌, inl, inr, some, List, get_elem?, length, arith,
}
use lumi_os.Lumid.Types.{Service}
use lumi_os.Lumid.Resolve.{
  Mark, unvisited, temporary, permanent, Sort, Visited, enter, leave, visit_service, visit_marked,
  topo_visit,
}
use lumi_os.Lumid.Resolve.Graph.{
  Needs, needs, one, more, HasCycle, lt-length_of_get_elem?, get_elem?_of_lt,
}
use lumi_os.Lumid.Resolve.Sorted.{
  room, Marked, IsSorted, Grows, Grows-refl, Grows-trans, room-enter, enter-Marked, enter_temporary,
  enter_keeps, enter-IsSorted, leave-Marked, leave_permanent, leave-IsSorted, room-leave,
  leave_temporary, leave_back,
}
use lumi_os.Lumid.Resolve.Visit.{
  Ensures, sorts, cycles, and_then-Ensures, OnPath, Visits, VisitsAll, Visitor, visit_deps-Ensures,
}

-- Below `i`, the path has `i` at its end.
module _ {arr : List Service} {i : ℕ} {svc : Service} {s : Sort} (at : get_elem? arr i ≡ some svc)
    (v : IsSorted arr s) (fresh : Marked s i unvisited) (path : OnPath arr i s) where
  deeper : (d : ℕ) → Needs arr i d → OnPath arr d (enter i s)
  deeper d n j h = elim (enter_temporary v i fresh j h) [
    | inl e ↦ one (subst (λ k. Needs arr k d) (sym e) n)
    | inr (ne, p) ↦ more (path j p) n
  ]

  -- The dependencies that the two loops have visited are all that the service needs.
  all_needed :
      {t u : Sort}
      → VisitsAll arr svc.after (enter i s) t
      → VisitsAll arr svc.requires t u
      → (d : ℕ) → Needs arr i d
      → Marked u d permanent
  all_needed a b d (needs svc' name at' named found) =
      let e : svc' ≡ svc = cc (at, at') in
      elim named [
        | inl h ↦ b.grows.perm d (a.all name d (subst (λ x. In name x.after) e h) found)
        | inr h ↦ b.all name d (subst (λ x. In name x.requires) e h) found
      ]

  finish :
      {t u : Sort}
      → VisitsAll arr svc.after (enter i s) t
      → VisitsAll arr svc.requires t u
      → Visits arr i s (leave i u)
  finish {u} a b = record {
    valid = leave-IsSorted b.valid i open_ inside all;
    grows = record {
      perm = λ j h.
          leave_permanent b.valid i open_ inside all j
            (g.perm j (enter_keeps v i fresh j permanent h (λ e. cc)));
      temp = λ j h.
          leave_temporary b.valid i open_ inside all j (other j h)
            (g.temp j (enter_keeps v i fresh j temporary h (λ e. cc)));
      back = λ j h.
          let q = leave_back b.valid i open_ inside all j h in back_to_start j q.0 (g.back j q.1);
      less = omega (arith, room-leave b.valid i open_ inside all, g.less, room-enter v i fresh);
    };
    visited = leave-Marked b.valid i open_ inside all;
  }
    where
      g : Grows (enter i s) u
      g = Grows-trans a.grows b.grows

      open_ : Marked u i temporary
      open_ = g.temp i (enter-Marked v i fresh)

      inside : i < length arr
      inside = lt-length_of_get_elem? arr i at

      all : (d : ℕ) → Needs arr i d → Marked u d permanent
      all = all_needed a b

      other : (j : ℕ) → Marked s j temporary → i ≢ j
      other j h e = let p : Marked s j unvisited = subst (λ k. Marked s k unvisited) e fresh in cc

      back_to_start : (j : ℕ) → i ≢ j → Marked (enter i s) j temporary → Marked s j temporary
      back_to_start j ne h = elim (enter_temporary v i fresh j h) [
        | inl e ↦ absurd (ne (sym e))
        | inr (_, p) ↦ p
      ]

visit_service-Ensures :
    (arr : List Service) (fuel : ℕ) (visit : ℕ → Sort → Visited)
    → Visitor arr fuel visit
    → (i : ℕ) (svc : Service) (s : Sort) → get_elem? arr i ≡ some svc
    → IsSorted arr s
    → Marked s i unvisited
    → room s.visit < suc fuel
    → OnPath arr i s
    → Ensures (λ t. Visits arr i s t) (HasCycle arr) (visit_service visit arr i svc s)
unfolding visit_service
visit_service-Ensures arr fuel visit ih i svc s at v fresh lt path =
    and_then-Ensures _
      (visit_deps-Ensures arr fuel visit ih svc.after (enter i s) (enter-IsSorted v i fresh) below
        (λ n d h f. deeper at v fresh path d (needs svc n at (inl h) f)))
      λ t a.
        and_then-Ensures _
          (visit_deps-Ensures arr fuel visit ih svc.requires t a.valid
            (omega (arith, below, a.grows.less))
            (λ n d h f j p.
              deeper at v fresh path d (needs svc n at (inr h) f) j (a.grows.back j p)))
          λ u b. sorts (finish at v fresh path a b)
  where
    below : room (enter i s).visit < fuel
    below = omega (arith, room-enter v i fresh)

visit_marked-Ensures :
    (arr : List Service) (fuel : ℕ) (visit : ℕ → Sort → Visited)
    → Visitor arr fuel visit
    → (i : ℕ) (x : Mark) (s : Sort) → IsSorted arr s
    → Marked s i x
    → i < length arr
    → room s.visit < suc fuel
    → OnPath arr i s
    → Ensures (λ t. Visits arr i s t) (HasCycle arr) (visit_marked visit arr i x s)
unfolding visit_marked
visit_marked-Ensures arr fuel visit ih i permanent s v m lt r path =
    sorts (record { valid = v; grows = Grows-refl s; visited = m })
visit_marked-Ensures arr fuel visit ih i temporary s v m lt r path = cycles (i, path i m)
visit_marked-Ensures arr fuel visit ih i unvisited s v m lt r path =
    let (svc, at) = get_elem?_of_lt arr i lt in
    rw (at, visit_marked) (visit_service-Ensures arr fuel visit ih i svc s at v m r path)

pub topo_visit-Ensures :
    (arr : List Service) (fuel : ℕ) → Visitor arr fuel (λ i s. topo_visit fuel arr i s)
unfolding topo_visit
topo_visit-Ensures arr zero i s v lt r path = absurd (omega arith)
topo_visit-Ensures arr (suc fuel) i s v lt r path =
    let (x, m) = get_elem?_of_lt s.visit i (omega (arith, v.size)) in
    rw (m, topo_visit)
      (visit_marked-Ensures arr fuel _ (topo_visit-Ensures arr fuel) i x s v m lt r path)
