-- ===== src/Lumid/Load/Valid.antt =====
-- service_register, service_load_all and the invariant of the service manager.
use lumi_os.Base.{
  ℕ, zero, suc, ◌≡◌, refl, sym, subst, inl, inr, Option, none, some, List, [], ◌∷◌, map, In, Text,
  text_eq, text_eq_iff, get_elem?, Bool-cases, Option-cases, arith,
}
use lumi_os.Lumid.Types.{Service, service_create}
use lumi_os.Lumid.Machine.{Machine, find_index, service_find, service_register}
use lumi_os.Lumid.Lifecycle.Frame.{names}
use lumi_os.Lumid.Lifecycle.Valid.{IsLive, IsValid}
use lumi_os.Lumid.Config.{parse_service}
use lumi_os.Lumid.Load.{Entry, is_svc_name, load_entry, load_entries, service_load_all}
use lumi_os.Lumid.Config.State.{parse_service-state}

find_index-none :
    (name : Text) (ss : List Service)
    → find_index (λ s. text_eq s.name name) ss ≡ none
    → ¬ In name (names ss)
unfolding find_index
find_index-none name [] h m = m
find_index-none name (s ∷ ss) h m = elim (Bool-cases (text_eq s.name name)) [
  | inl e ↦ ground arith
  | inr e ↦ elim m [
    | inl q ↦ cc (e, (text_eq_iff s.name name).1 (sym q))
    | inr m' ↦ find_index-none name ss (ground arith) m'
  ]
]

In-map-suc : (i : ℕ) (l : List ℕ) → In i (map suc l) → (j : ℕ) × (i ≡ suc j) × In j l
In-map-suc i [] h = absurd h
In-map-suc i (x ∷ l) (inl e) = (x, e, inl refl)
In-map-suc i (x ∷ l) (inr h) = let (j, e, m) = In-map-suc i l h in (j, e, inr m)

-- Registering a service that has no process, with a new name or one that is taken, keeps the
-- invariant: a taken name leaves all as it was.
pub service_register-IsValid :
    (s : Service) (m : Machine) → IsLive s → IsValid m → IsValid (service_register s m)
unfolding service_register service_find
service_register-IsValid s m l v =
    elim (Option-cases (find_index (λ t. text_eq t.name s.name) m.services)) [
      | inr (i, e) ↦ rw (e, service_register) v
      | inl e ↦
          rw (e, service_register)
            (record {
              counted = omega (arith, v.counted);
              named = (find_index-none s.name m.services e, v.named);
              live = live;
              ordered = λ i h.
                  let (j, q, g) = In-map-suc i m.start_order h in omega (arith, v.ordered j g);
            })
    ]
  where
    live : (i : ℕ) (t : Service) → get_elem? (s ∷ m.services) i ≡ some t → IsLive t
    live zero t h = let q : s ≡ t = cc in subst (λ u. IsLive u) q l
    live (suc i) t h = v.live i t h

-- A service as service_create leaves it is not running.
idle-IsLive : (s : Service) → s.state ≡ service_create.state → IsLive s
unfolding service_create
idle-IsLive s e h = absurd (cc (e, h))

load_entry-IsValid :
    (dir : Text) (e : Entry) (m : Machine) → IsValid m → IsValid (load_entry dir e m).1
unfolding load_entry
load_entry-IsValid dir (name, none) m v = v
load_entry-IsValid dir (name, some bytes) m v = elim (Bool-cases (is_svc_name name)) [
  | inr f ↦ rw f v
  | inl f ↦ elim (Option-cases (parse_service bytes service_create)) [
    | inl e ↦ rw (f, e, load_entry) v
    | inr (s, e) ↦
        rw (f, load_entry, e)
          (service_register-IsValid _ m
            (idle-IsLive s (parse_service-state bytes service_create s e)) v)
  ]
]

load_entries-IsValid :
    (dir : Text) (es : List Entry) (m : Machine) → IsValid m → IsValid (load_entries dir es m).1
unfolding load_entries
load_entries-IsValid dir [] m v = v
load_entries-IsValid dir (e ∷ es) m v =
    load_entries-IsValid dir es (load_entry dir e m).1 (load_entry-IsValid dir e m v)

-- service_load_all keeps the invariant, whatever the directory holds.
pub service_load_all-IsValid :
    (dir : Text) (entries : Option (List Entry)) (m : Machine)
    → IsValid m
    → IsValid (service_load_all dir entries m).1
unfolding service_load_all
service_load_all-IsValid dir none m v = v
service_load_all-IsValid dir (some es) m v = load_entries-IsValid dir es m v
