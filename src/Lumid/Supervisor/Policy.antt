-- ===== src/Lumid/Supervisor/Policy.antt =====
-- The restart policy: which exits restart a service, and what the retry limit limits.
use lumi_os.Base.{
  ℕ, zero, suc, ◌<◌, ◌≡◌, refl, ◌≢◌, ◌↔◌, true, some, ℤ, pos, negsuc, ltb_ℤ, leb_ℤ, get_elem?,
  arith, Bool-cases, inl, inr, is_positive,
}
use lumi_os.Lumid.Types.{
  Service, RestartPolicy, never, always, on_failure, on_abnormal, stopped, failed, restarting,
  running,
}
use lumi_os.Lumid.Machine.{WaitStatus, exited, signaled, neither, Kernel, IsPosix, Machine}
use lumi_os.Lumid.Lifecycle.{service_start}
use lumi_os.Lumid.Lifecycle.Outcome.{At, Launch, launched, refused, IsStarted, service_start-Launch}
use lumi_os.Lumid.Supervisor.{exit_code_of, should_restart, exit_service, schedule}

-- The process has ended: it exited, or a signal, whose number is above 0, killed it.
abbrev pub HasEnded : WaitStatus → Type 0
HasEnded (exited code) = Unit {0}
HasEnded (signaled n) = 0 < n
HasEnded neither = ⊥

-- What a policy says of an end, in the words of the unit files.
abbrev pub Wants : RestartPolicy → WaitStatus → Type 0
Wants never status = ⊥
Wants always status = Unit {0}
Wants on_failure (exited code) = code ≢ 0
Wants on_failure (signaled n) = Unit {0}
Wants on_failure neither = ⊥
Wants on_abnormal (exited code) = ⊥
Wants on_abnormal (signaled n) = Unit {0}
Wants on_abnormal neither = ⊥

-- For a process that has ended, the exit code, in which a signal is a negative number, decides about
-- a restart as the policy says.
should_restart_iff :
    (policy : RestartPolicy) (status : WaitStatus) (before : ℤ)
    → HasEnded status
    → (should_restart policy (exit_code_of status before) ≡ true) ↔ Wants policy status
unfolding should_restart exit_code_of
should_restart_iff never (exited c) b h = (λ e. cc, λ w. absurd w)
should_restart_iff never (signaled c) b h = (λ e. cc, λ w. absurd w)
should_restart_iff always (exited c) b h = (λ e. tt, λ w. refl)
should_restart_iff always (signaled c) b h = (λ e. tt, λ w. refl)
should_restart_iff on_failure (exited c) b h = ground arith
should_restart_iff on_failure (signaled (suc n)) b h = (λ e. tt, λ w. ground arith)
should_restart_iff on_abnormal (exited c) b h = (λ e. cc, λ w. absurd w)
should_restart_iff on_abnormal (signaled (suc n)) b h = (λ e. tt, λ w. ground arith)
should_restart_iff p neither b h = absurd h
should_restart_iff p (signaled zero) b h = absurd (omega arith)

-- Fewer restarts are counted than the limit allows.
abbrev pub HasRetries : Service → Type 0
HasRetries s = ltb_ℤ (pos s.restart_count) s.restart_max_retries ≡ true

retries_of_positive : (limit : ℤ) → is_positive limit ≡ true → ltb_ℤ (pos 0) limit ≡ true
retries_of_positive (pos n) h = ground arith
retries_of_positive (negsuc n) h = cc

schedule_lem :
    (s : Service) (W : Type 0)
    → (should_restart s.restart_policy s.exit_code ≡ true) ↔ W
    → (((schedule s).state ≡ restarting) ↔ (W × HasRetries s))
      × (((schedule s).state ≡ failed) ↔ (W × (¬ HasRetries s)))
      × (((schedule s).state ≡ stopped) ↔ (¬ W))
unfolding schedule
schedule_lem s W h = elim (Bool-cases (should_restart s.restart_policy s.exit_code)) [
  | inl e ↦ elim (Bool-cases (ltb_ℤ (pos s.restart_count) s.restart_max_retries)) [
    | inl r ↦
        rw (e, schedule, r)
          (
            (λ q. (h.0 e, refl), λ w. refl),
            (λ q. cc, λ w. absurd (w.1 refl)),
            (λ q. cc, λ n. absurd (n (h.0 e))),
          )
    | inr r ↦
        rw (e, schedule, r)
          (
            (λ q. cc, λ w. cc (w.1)),
            (λ q. (h.0 e, λ t. cc), λ w. refl),
            (λ q. cc, λ n. absurd (n (h.0 e))),
          )
  ]
  | inr e ↦
      rw (e, schedule)
        (
          (λ q. cc, λ w. cc (e, h.1 w.0)),
          (λ q. cc, λ w. cc (e, h.1 w.0)),
          (λ q w. cc (e, h.1 w), λ n. refl),
        )
]

-- After its process has ended, the service is RESTARTING exactly when its policy wants that end
-- restarted and retries are left, FAILED exactly when it wants it and none is left, and STOPPED
-- exactly when it does not want it.
pub exit_service_lem :
    (s : Service) (status : WaitStatus) (time : ℕ)
    → HasEnded status
    → let t = schedule (exit_service status time s) in
      ((t.state ≡ restarting) ↔ (Wants s.restart_policy status × HasRetries s))
      × ((t.state ≡ failed) ↔ (Wants s.restart_policy status × (¬ HasRetries s)))
      × ((t.state ≡ stopped) ↔ (¬ Wants s.restart_policy status))
unfolding exit_service
exit_service_lem s status time h =
    schedule_lem (exit_service status time s) (Wants s.restart_policy status)
      (should_restart_iff s.restart_policy status s.exit_code h)

-- Where a restart is scheduled, the count of restarts that is written does not pass the limit.
schedule-count_le :
    (s : Service)
    → (schedule s).state ≡ restarting
    → leb_ℤ (pos (schedule s).restart_count) (schedule s).restart_max_retries ≡ true
unfolding schedule
schedule-count_le s h = ground arith

-- Whatever number of restarts was counted before: when service_start has returned 0 for a service
-- that was not running, where fork gives positive process ids, the end that follows, if its policy
-- wants it restarted and the limit is above 0, makes it RESTARTING.
pub restart_never_exhausts :
    (k : Kernel) (p : ℕ) (s : Service) (m : Machine) (status : WaitStatus) (time : ℕ)
    → IsPosix k
    → get_elem? m.services p ≡ some s
    → s.state ≢ running
    → (service_start k p m).0 ≡ pos 0
    → HasEnded status
    → Wants s.restart_policy status
    → is_positive s.restart_max_retries ≡ true
    → At p (service_start k p m).1 (λ t. (schedule (exit_service status time t)).state ≡ restarting)
restart_never_exhausts k p s m status time posix at ne ok ended wants limit =
    next (service_start-Launch k p s m posix at ne) ok
  where
    again :
        (t : Service) → IsStarted s t → (schedule (exit_service status time t)).state ≡ restarting
    again t i = (exit_service_lem t status time ended).0.1 (
      rw i.policy wants,
      rw (i.retries, i.limit) (retries_of_positive s.restart_max_retries limit),
    )

    next :
        {r : ℤ × Machine}
        → Launch s p r
        → r.0 ≡ pos 0
        → At p r.1 (λ t. (schedule (exit_service status time t)).state ≡ restarting)
    next (launched a) e = record {
      service = a.service;
      there = a.there;
      holds = again a.service a.holds;
    }
    next (refused a) e = cc
