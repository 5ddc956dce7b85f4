-- ===== src/Lumid/Lifecycle/Restart.antt =====
-- What service_restart does to the process that the service has.
use lumi_os.Base.{
  ℕ, suc, ◌≡◌, refl, ◌∙◌, inl, inr, some, List, [], ◌∷◌, ℤ, pos, negsuc, is_negative, get_elem?,
  Bool-cases, Option-cases, ltb,
}
use lumi_os.Lumid.Types.{Service, starting, restarting, is_running}
use lumi_os.Lumid.Machine.{Call, kill, Kernel, Machine, call, write}
use lumi_os.Lumid.Lifecycle.{
  needs_cgroup, requires_running, set_state, enter_cgroup, open_service_log, launch, start_service,
  service_start, service_stop, restart_sleep, restart_service, service_restart,
}
use lumi_os.Lumid.Lifecycle.Frame.{get_elem?-modify_self}
use lumi_os.Lumid.Lifecycle.Outcome.{service_stop_idle}

-- The signals sent to processes.
abbrev pub kills : List Call → ℕ
kills [] = 0
kills (kill pid signal ∷ cs) = suc (kills cs)
kills (_ ∷ cs) = kills cs

module _ (k : Kernel) (p : ℕ) where
  kills-open_service_log :
      (s : Service) (m : Machine) → kills (open_service_log k s p m).trace ≡ kills m.trace
  unfolding open_service_log call write
  kills-open_service_log s m = elim (Bool-cases (is_negative s.log_fd)) [
    | inl e ↦ rw e refl
    | inr e ↦ rw e refl
  ]

  kills-enter_cgroup :
      (s : Service) (pid : ℕ) (m : Machine) → kills (enter_cgroup s pid m).trace ≡ kills m.trace
  unfolding enter_cgroup call
  kills-enter_cgroup s pid m = elim (Bool-cases (needs_cgroup s)) [
    | inl e ↦ rw e refl
    | inr e ↦ rw e refl
  ]

  kills-launch : (s : Service) (m : Machine) → kills (launch k s p m).1.trace ≡ kills m.trace
  unfolding launch call write
  kills-launch s m = elim (Option-cases (k.forked (open_service_log k s p m).trace)) [
    | inl e ↦ rw (e, launch) (kills-open_service_log s m)
    | inr (pid, e) ↦ rw (e, launch, kills-enter_cgroup) (kills-open_service_log s m)
  ]

  kills-service_start : (m : Machine) → kills (service_start k p m).1.trace ≡ kills m.trace
  unfolding service_start start_service write
  kills-service_start m = elim (Option-cases (get_elem? m.services p)) [
    | inl e ↦ rw (e, service_start) refl
    | inr (s, e) ↦ elim (Bool-cases (is_running s.state)) [
      | inl f ↦ rw (e, service_start, f) refl
      | inr f ↦ elim (Bool-cases (requires_running s.requires (write p (set_state starting) m))) [
        | inl r ↦ rw (e, service_start, f, r) (kills-launch s _)
        | inr r ↦ rw (e, service_start, f, r) refl
      ]
    ]
  ]

  kills-restart_sleep : (d : ℤ) (m : Machine) → kills (restart_sleep k d m).trace ≡ kills m.trace
  unfolding restart_sleep call
  kills-restart_sleep (pos d) m = elim (Bool-cases (ltb 0 d)) [
    | inl e ↦ rw e refl
    | inr e ↦ rw e refl
  ]
  kills-restart_sleep (negsuc d) m = refl

  -- The state RESTARTING that service_restart sets makes service_stop return at once.
  restart_skips_stop :
      (s : Service) (m : Machine)
      → get_elem? m.services p ≡ some s
      → service_stop k p (write p (set_state restarting) m)
        ≡ (pos 0, write p (set_state restarting) m)
  unfolding write
  restart_skips_stop s m e =
      service_stop_idle k p (set_state restarting s) (write p (set_state restarting) m)
        (get_elem?-modify_self p (set_state restarting) m.services e) refl

-- Whatever state the service is in, service_restart sends no signal to any process: it is
-- service_start, after the delay, on a service marked RESTARTING.
pub service_restart-kills :
    (k : Kernel) (p : ℕ) (s : Service) (m : Machine)
    → get_elem? m.services p ≡ some s
    → (service_restart k p m
        ≡ service_start k p (restart_sleep k s.restart_delay_ms (write p (set_state restarting) m)))
      × (kills (service_restart k p m).1.trace ≡ kills m.trace)
unfolding service_restart restart_service write
service_restart-kills k p s m e =
    rw (e, service_restart, restart_skips_stop k p s m e)
      (refl, kills-service_start k p _ ∙ kills-restart_sleep k p s.restart_delay_ms _)
