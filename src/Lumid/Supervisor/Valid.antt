-- ===== src/Lumid/Supervisor/Valid.antt =====
-- supervisor.c and the invariant of the service manager.
use lumi_os.Base.{
  ℕ, zero, suc, ◌+◌, ◌≡◌, refl, inl, inr, ◌&&◌, List, [], ◌∷◌, pos, eq_ℤ, is_negative, ltb,
  get_elem?, length, Bool-cases, Option-cases, arith,
}
use lumi_os.Lumid.Types.{Service, is_restarting}
use lumi_os.Lumid.Machine.{Call, now, WaitStatus, Kernel, IsPosix, Machine, call, find_index}
use lumi_os.Lumid.Lifecycle.{service_start}
use lumi_os.Lumid.Lifecycle.Frame.{Touches-refl, Touches-call, Touches-write}
use lumi_os.Lumid.Lifecycle.Valid.{
  IsLive, LiveAt-set, IsValid, IsValid-Touches, service_start-IsValid,
}
use lumi_os.Lumid.Supervisor.{
  exit_service, schedule, reap_child, handle_sigchld, sub_u64, is_due, restart_due, check_service,
  check_from, check_interval_ns, check_services,
}

schedule-name :
    (w : WaitStatus) (time : ℕ) (s : Service) → (schedule (exit_service w time s)).name ≡ s.name
unfolding schedule exit_service
schedule-name w time s = ground arith

schedule-IsLive :
    (w : WaitStatus) (time : ℕ) (s : Service) → IsLive (schedule (exit_service w time s))
unfolding schedule exit_service
schedule-IsLive w time s h = ground arith

pub IsValid-call : (c : Call) (m : Machine) → IsValid m → IsValid (call c m)
unfolding call
IsValid-call c m v = record {
  counted = v.counted;
  named = v.named;
  live = v.live;
  ordered = v.ordered;
}

module _ (k : Kernel) where
  reap_child-IsValid :
      (pid : ℕ) (w : WaitStatus) (m : Machine) → IsValid m → IsValid (reap_child k pid w m)
  unfolding reap_child
  reap_child-IsValid pid w m v =
      elim (Option-cases (find_index (λ s. eq_ℤ s.pid (pos pid)) m.services)) [
        | inl e ↦ rw (e, reap_child) v
        | inr (i, e) ↦
            rw (e, reap_child)
              (IsValid-Touches v
                (Touches-write _ (λ s. schedule-name w _ s) (Touches-call now (Touches-refl i m)))
                (LiveAt-set i _ _ (λ s. schedule-IsLive w _ s)))
      ]

  -- Whatever children have ended, and however, supervisor_handle_sigchld keeps the invariant.
  pub handle_sigchld-IsValid :
      (ended : List (ℕ × WaitStatus)) (m : Machine) → IsValid m → IsValid (handle_sigchld k ended m)
  unfolding handle_sigchld
  handle_sigchld-IsValid [] m v = v
  handle_sigchld-IsValid ((pid, w) ∷ rest) m v =
      handle_sigchld-IsValid rest (reap_child k pid w m) (reap_child-IsValid pid w m v)

module _ (k : Kernel) (posix : IsPosix k) where
  restart_due-IsValid : (time i : ℕ) (m : Machine) → IsValid m → IsValid (restart_due k time i m)
  unfolding restart_due
  restart_due-IsValid time i m v =
      let v1 = service_start-IsValid k posix i m v in
      elim (Bool-cases (is_negative (service_start k i m).0)) [
        | inl e ↦ rw e (
            IsValid-Touches v1 (Touches-write _ (λ s. refl) (Touches-refl i _))
              (LiveAt-set i _ _ (λ s h. cc)))
        | inr e ↦ rw e v1
      ]

  check_service-IsValid :
      (time i : ℕ) (m : Machine) → IsValid m → IsValid (check_service k time i m)
  unfolding check_service
  check_service-IsValid time i m v = elim (Option-cases (get_elem? m.services i)) [
    | inl e ↦ rw (e, check_service) v
    | inr (s, e) ↦ elim (Bool-cases (is_restarting s.state && is_due time s)) [
      | inl d ↦ rw (e, check_service, d) (restart_due-IsValid time i m v)
      | inr d ↦ rw (e, check_service, d) v
    ]
  ]

  check_from-IsValid :
      (time rounds i : ℕ) (m : Machine) → IsValid m → IsValid (check_from k time rounds i m)
  unfolding check_from
  check_from-IsValid time zero i m v = v
  check_from-IsValid time (suc rounds) i m v =
      check_from-IsValid time rounds (i + 1) (check_service k time i m)
        (check_service-IsValid time i m v)

  -- supervisor_check_services keeps the invariant, where fork gives positive process ids.
  pub check_services-IsValid :
      (last : ℕ) (m : Machine) → IsValid m → IsValid (check_services k (last, m)).1
  unfolding check_services
  check_services-IsValid last m v =
      let v1 = IsValid-call now m v in
      elim (Bool-cases (ltb (sub_u64 (k.clock m.trace) last) check_interval_ns)) [
        | inl e ↦ rw e v1
        | inr e ↦
            rw e (
              check_from-IsValid (k.clock m.trace) (length (call now m).services) 0 (call now m) v1)
      ]
