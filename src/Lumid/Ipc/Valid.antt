-- ===== src/Lumid/Ipc/Valid.antt =====
-- The requests of socket.c and the invariant of the service manager.
use lumi_os.Base.{
  ℕ, refl, inl, inr, Bool, ◌&&◌, Option, none, some, List, [], ◌∷◌, ℤ, Text, ltb, get_elem?,
  Bool-cases,
}
use lumi_os.Lumid.Types.{Service, is_running}
use lumi_os.Lumid.Machine.{Kernel, IsPosix, Machine, now, kill_self, sigterm}
use lumi_os.Lumid.Lifecycle.{Returns}
use lumi_os.Lumid.Lifecycle.Frame.{Touches-write, Touches-refl}
use lumi_os.Lumid.Lifecycle.Valid.{
  LiveAt-write, IsValid, IsValid-Touches, service_start-IsValid, service_stop-IsValid,
  service_restart-IsValid,
}
use lumi_os.Lumid.Supervisor.Valid.{IsValid-call}
use lumi_os.Lumid.Ipc.{
  Command, start, stop, restart, status, status_all, enable, disable, log, poweroff, reboot, other,
  Request, Message, operate, set_enabled, leave_loop, report, query_service, query, report_each,
  query_all, dispatch, handle_request,
}

operate-IsValid :
    (cmd : Command) (name : Text) (op : ℕ → Machine → Returns)
    → ((p : ℕ) (m : Machine) → IsValid m → IsValid (op p m).1)
    → (svc : Option ℕ) (m : Machine) → IsValid m
    → IsValid (operate cmd name op svc m).after
unfolding operate
operate-IsValid cmd name op h none m v = v
operate-IsValid cmd name op h (some p) m v = h p m v

set_enabled-IsValid :
    (b : Bool) (msg : Message) (svc : Option ℕ) (m : Machine)
    → IsValid m
    → IsValid (set_enabled b msg svc m).after
unfolding set_enabled
set_enabled-IsValid b msg none m v = v
set_enabled-IsValid b msg (some p) m v =
    IsValid-Touches v (Touches-write _ (λ s. refl) (Touches-refl p m))
      (LiveAt-write p _ m (λ s l. l) (v.live p))

module _ (k : Kernel) where
  report-IsValid :
      (c : ℤ) (msg : Message) (s : Service) (m : Machine)
      → IsValid m
      → IsValid (report k c msg s m).1
  unfolding report
  report-IsValid c msg s m v = elim (Bool-cases (is_running s.state && ltb 0 s.start_time)) [
    | inl e ↦ rw e (IsValid-call now m v)
    | inr e ↦ rw e v
  ]

  query_service-IsValid :
      (name : Text) (o : Option Service) (m : Machine)
      → IsValid m
      → IsValid (query_service k name o m).after
  unfolding query_service
  query_service-IsValid name none m v = v
  query_service-IsValid name (some s) m v = report-IsValid _ _ s m v

  query-IsValid :
      (name : Text) (svc : Option ℕ) (m : Machine) → IsValid m → IsValid (query k name svc m).after
  unfolding query
  query-IsValid name none m v = query_service-IsValid name none m v
  query-IsValid name (some p) m v = query_service-IsValid name (get_elem? m.services p) m v

  report_each-IsValid :
      (ss : List Service) (m : Machine) → IsValid m → IsValid (report_each k ss m).1
  unfolding report_each
  report_each-IsValid [] m v = v
  report_each-IsValid (s ∷ ss) m v = report_each-IsValid ss _ (report-IsValid _ _ s m v)

  dispatch-IsValid :
      IsPosix k
      → (cmd : Command) (name : Text) (svc : Option ℕ) (m : Machine) → IsValid m
      → IsValid (dispatch k cmd name svc m).after
  unfolding dispatch query_all leave_loop
  dispatch-IsValid px start name svc m v =
      operate-IsValid start name _ (service_start-IsValid k px) svc m v
  dispatch-IsValid px stop name svc m v =
      operate-IsValid stop name _ (service_stop-IsValid k px) svc m v
  dispatch-IsValid px restart name svc m v =
      operate-IsValid restart name _ (service_restart-IsValid k px) svc m v
  dispatch-IsValid px status name svc m v = query-IsValid name svc m v
  dispatch-IsValid px status_all name svc m v = report_each-IsValid m.services m v
  dispatch-IsValid px enable name svc m v = set_enabled-IsValid _ _ svc m v
  dispatch-IsValid px disable name svc m v = set_enabled-IsValid _ _ svc m v
  dispatch-IsValid px poweroff name svc m v = IsValid-call (kill_self sigterm) m v
  dispatch-IsValid px reboot name svc m v = IsValid-call (kill_self sigterm) m v
  dispatch-IsValid px log name svc m v = v
  dispatch-IsValid px (other n) name svc m v = v

  -- Whatever a client sends, a malformed request included, the handler keeps the invariant, where
  -- fork gives positive process ids.
  pub handle_request-IsValid :
      IsPosix k
      → (req : Option Request) (m : Machine) → IsValid m
      → IsValid (handle_request k req m).after
  unfolding handle_request
  handle_request-IsValid px none m v = v
  handle_request-IsValid px (some req) m v = dispatch-IsValid px req.cmd req.service_name _ m v
