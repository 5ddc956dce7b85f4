-- ===== src/Lumid/Resolve.antt =====
-- The dependency resolution of system/core/lumid/src/service.c: a depth-first topological sort.
--
-- `svc_array` holds the first 128 services of the list, so an index into it is a pointer too. The
-- recursion of topo_visit takes fuel; `stuck` is the fuel running out, or a read out of range.
pub mod Graph
pub mod Sorted
pub mod Visit
pub mod Recursion
pub mod Order
pub mod Range
pub mod Tests
use lumi_os.Base.{
  ℕ, zero, suc, ◌+◌, Bool, true, false, Option, none, some, List, [], ◌∷◌, ◌++◌, ℤ, pos, neg, Text,
  text_eq, if◌then◌else◌, get_elem?, set, take, length, replicate, map,
}
use lumi_os.Lumid.Types.{Service, max_services}
use lumi_os.Lumid.Machine.{Machine, find_index}

-- VISIT_NONE, VISIT_TEMP and VISIT_PERM.
pub data Mark : Type 0 where
  unvisited temporary permanent : Mark

-- `visit_state` and `g_start_order`.
pub record Sort : Type 0 where
  pub visit : List Mark
  pub order : List ℕ

pub data Visited : Type 0 where
  done : Sort → Visited
  circular : Sort → Visited
  stuck : Visited

abbrev pub and_then : Visited → (Sort → Visited) → Visited
and_then (done s) f = f s
and_then (circular s) f = circular s
and_then stuck f = stuck

unfoldable pub svc_index : List Service → Text → Option ℕ
unfolding find_index
svc_index arr name = find_index (λ s. text_eq s.name name) arr

-- The loop over `after`, and the one over `requires`: a name that is not registered is passed over.
pub visit_deps : (ℕ → Sort → Visited) → List Service → List Text → Sort → Visited
visit_deps visit arr [] s = done s
visit_deps visit arr (n ∷ ns) s = elim (svc_index arr n) [
  | none ↦ visit_deps visit arr ns s
  | some dep ↦ and_then (visit dep s) (λ t. visit_deps visit arr ns t)
]

abbrev pub enter : ℕ → Sort → Sort
enter i s = record s { visit = set s.visit i temporary }

abbrev pub leave : ℕ → Sort → Sort
leave i s = record { visit = set s.visit i permanent; order = s.order ++ (i ∷ []) }

-- The body of topo_visit below its two guards, with the recursive call as an argument.
pub visit_service : (ℕ → Sort → Visited) → List Service → ℕ → Service → Sort → Visited
visit_service visit arr i svc s =
    and_then (visit_deps visit arr svc.after (enter i s))
      (λ t. and_then (visit_deps visit arr svc.requires t) (λ u. done (leave i u)))

pub visit_marked : (ℕ → Sort → Visited) → List Service → ℕ → Mark → Sort → Visited
visit_marked visit arr i permanent s = done s
visit_marked visit arr i temporary s = circular s
visit_marked visit arr i unvisited s = elim (get_elem? arr i) [
  | none ↦ stuck
  | some svc ↦ visit_service visit arr i svc s
]

pub topo_visit : ℕ → List Service → ℕ → Sort → Visited
topo_visit zero arr i s = stuck
topo_visit (suc fuel) arr i s = elim (get_elem? s.visit i) [
  | none ↦ stuck
  | some mark ↦ visit_marked (λ j t. topo_visit fuel arr j t) arr i mark s
]

-- `if (visit_state[i] == VISIT_NONE)`
pub visit_new : ℕ → List Service → ℕ → Mark → Sort → Visited
visit_new fuel arr i unvisited s = topo_visit fuel arr i s
visit_new fuel arr i temporary s = done s
visit_new fuel arr i permanent s = done s

-- The outer loop, over the indices from `i` on: `rounds` of them are left.
pub visit_all : ℕ → List Service → ℕ → ℕ → Sort → Visited
visit_all fuel arr zero i s = done s
visit_all fuel arr (suc rounds) i s = elim (get_elem? s.visit i) [
  | none ↦ stuck
  | some mark ↦ and_then (visit_new fuel arr i mark s) (λ t. visit_all fuel arr rounds (i + 1) t)
]

pub svc_array : Machine → List Service
svc_array m = take max_services m.services

abbrev pub fresh : Sort
fresh = record { visit = replicate max_services unvisited; order = [] }

-- The fuel is one more than the number of marks: each nested call sets another one.
unfoldable pub sort_services : List Service → Visited
unfolding visit_all visit_new topo_visit visit_marked visit_service visit_deps svc_index
sort_services arr = visit_all (max_services + 1) arr (length arr) 0 fresh

-- A circular dependency leaves the part of the order that was found.
abbrev pub resolved : Machine → Visited → ℤ × Machine
resolved m (done s) = (pos 0, record m { start_order = s.order })
resolved m (circular s) = (neg 1, record m { start_order = s.order })
resolved m stuck = (neg 1, m)

unfoldable pub service_resolve_deps : Machine → ℤ × Machine
unfolding sort_services svc_array
service_resolve_deps m = resolved m (sort_services (svc_array m))
