-- ===== src/Lumid/Main/Valid.antt =====
-- The invariant of the service manager over the whole run of lumid.
use lumi_os.Base.{
  ℕ, ◌≡◌, refl, inl, inr, Bool, false, Option, none, some, List, [], ◌∷◌, Bool-cases, is_negative,
}
use lumi_os.Base.{get_elem?}
use lumi_os.Lumid.Types.{Service}
use lumi_os.Lumid.Machine.{Kernel, IsPosix, Machine}
use lumi_os.Lumid.Lifecycle.Valid.{IsValid}
use lumi_os.Lumid.Lifecycle.StopAll.{service_start_all-IsValid}
use lumi_os.Lumid.Resolve.{service_resolve_deps}
use lumi_os.Lumid.Resolve.Range.{service_resolve_deps-IsValid}
use lumi_os.Lumid.Supervisor.Valid.{handle_sigchld-IsValid, check_services-IsValid}
use lumi_os.Lumid.Ipc.Valid.{handle_request-IsValid}
use lumi_os.Lumid.Load.{Entry, service_load_all}
use lumi_os.Lumid.Load.Valid.{service_load_all-IsValid}
use lumi_os.Lumid.Main.{
  service_dir, System, Signalled, child, shutdown, hangup, ignored, Event, signals, client, Round,
  interrupted, broken, ready, handle_signal, handle_event, handle_events, health_check, event_loop,
  load_and_start_services, no_services, lumid,
}

nothing_there : (i : ℕ) (s : Service) → get_elem? [] i ≡ some s → ⊥
nothing_there i s h = cc

no_services-IsValid : IsValid no_services
no_services-IsValid = record {
  counted = refl;
  named = tt;
  live = λ i s h r. absurd (nothing_there i s h);
  ordered = λ i h. absurd h;
}

module _ (k : Kernel) (posix : IsPosix k) where
  handle_signal-IsValid :
      (l : List Signalled) (s : System) → IsValid s.machine → IsValid (handle_signal k l s).machine
  unfolding handle_signal
  handle_signal-IsValid [] s v = v
  handle_signal-IsValid (child ended ∷ rest) s v =
      handle_signal-IsValid rest _ (handle_sigchld-IsValid k ended s.machine v)
  handle_signal-IsValid (shutdown ∷ rest) s v =
      handle_signal-IsValid rest (record s { is_on = false }) v
  handle_signal-IsValid (hangup entries ∷ rest) s v =
      handle_signal-IsValid rest _
        (service_resolve_deps-IsValid _ (service_load_all-IsValid service_dir entries s.machine v))
  handle_signal-IsValid (ignored ∷ rest) s v = handle_signal-IsValid rest s v

  handle_events-IsValid :
      (es : List Event) (s : System) → IsValid s.machine → IsValid (handle_events k es s).machine
  unfolding handle_events handle_event
  handle_events-IsValid [] s v = v
  handle_events-IsValid (signals l ∷ es) s v =
      handle_events-IsValid es _ (handle_signal-IsValid l s v)
  handle_events-IsValid (client none ∷ es) s v = handle_events-IsValid es s v
  handle_events-IsValid (client (some req) ∷ es) s v =
      handle_events-IsValid es _ (handle_request-IsValid k posix req s.machine v)

  -- Whatever epoll_wait and the descriptors give in however many rounds, event_loop keeps the
  -- invariant, if fork gives process ids above 0.
  pub event_loop-IsValid :
      (rounds : List Round) (s : System)
      → IsValid s.machine
      → IsValid (event_loop k rounds s).machine
  unfolding event_loop health_check
  event_loop-IsValid [] s v = v
  event_loop-IsValid (interrupted ∷ rs) s v = elim (Bool-cases s.is_on) [
    | inr e ↦ rw (e, event_loop) v
    | inl e ↦ rw (e, event_loop) (event_loop-IsValid rs s v)
  ]
  event_loop-IsValid (broken ∷ rs) s v = elim (Bool-cases s.is_on) [
    | inr e ↦ rw (e, event_loop) v
    | inl e ↦ rw (e, event_loop) v
  ]
  event_loop-IsValid (ready es ∷ rs) s v = elim (Bool-cases s.is_on) [
    | inr e ↦ rw (e, event_loop) v
    | inl e ↦
        rw (e, event_loop)
          (event_loop-IsValid rs _
            (check_services-IsValid k posix _ _ (handle_events-IsValid es s v)))
  ]

  load_and_start_services-IsValid :
      (entries : Option (List Entry)) (m : Machine)
      → IsValid m
      → IsValid (load_and_start_services k entries m).1
  unfolding load_and_start_services
  load_and_start_services-IsValid entries m v =
      let v1 = service_load_all-IsValid service_dir entries m v in
      let v2 = service_resolve_deps-IsValid _ v1 in
      elim (Bool-cases (is_negative (service_load_all service_dir entries m).0)) [
        | inl e ↦ rw e v1
        | inr e ↦
            elim (Bool-cases
              (is_negative (service_resolve_deps (service_load_all service_dir entries m).1).0)) [
                | inl f ↦ rw (e, f) v2
                | inr f ↦ rw (e, f) (service_start_all-IsValid k posix _ v2)
              ]
      ]

  -- For every kernel whose fork gives process ids above 0, every content of the service directory
  -- and every list of events, the state in which lumid leaves its event loop satisfies the
  -- invariant.
  pub lumid-IsValid :
      (reboot : Bool) (time : ℕ) (entries : Option (List Entry)) (rounds : List Round)
      → IsValid (lumid k reboot time entries rounds).machine
  unfolding lumid
  lumid-IsValid reboot time entries rounds =
      event_loop-IsValid rounds _
        (load_and_start_services-IsValid entries no_services no_services-IsValid)
