-- ===== src/Lumid/Lifecycle/Outcome.antt =====
-- What service_start and service_stop leave in the service that they are given, on every branch.
use lumi_os.Base.{
  ℕ, ◌≡◌, refl, ◌≢◌, inl, inr, true, false, some, ℤ, pos, neg, is_positive, is_negative, get_elem?,
  Bool-cases, Option-cases, arith, if◌then◌else◌, eq_ℤ, lt→ltb,
}
use lumi_os.Lumid.Types.{
  Service, stopped, running, starting, stopping, failed, is_running, is_stoppable, is_simple,
}
use lumi_os.Lumid.Machine.{Call, Kernel, IsPosix, Machine, call, write}
use lumi_os.Lumid.Lifecycle.{
  Returns, needs_cgroup, requires_running, set_state, started, enter_cgroup, open_service_log,
  launch, start_service, service_start, force_kill, reap, terminate, stop_service, service_stop,
}
use lumi_os.Lumid.Lifecycle.Frame.{get_elem?-modify_self}

-- The service at `p` is there, and `P` holds of it.
pub record At (p : ℕ) (m : Machine) (P : Service → Type 0) : Type 0 where
  pub service : Service
  pub there : get_elem? m.services p ≡ some service
  pub holds : P service

module _ {p : ℕ} {P Q : Service → Type 0} where
  pub At-write :
      (m : Machine) (f : Service → Service)
      → At p m P
      → ((s : Service) → P s → Q (f s))
      → At p (write p f m) Q
  unfolding write
  At-write m f a g = record {
    service = f a.service;
    there = get_elem?-modify_self p f m.services a.there;
    holds = g a.service a.holds;
  }

module _ {p : ℕ} {P : Service → Type 0} where
  pub At-call : (c : Call) (m : Machine) → At p m P → At p (call c m) P
  unfolding call
  At-call c m a = record { service = a.service; there = a.there; holds = a.holds }

  At-enter_cgroup : (s : Service) (pid : ℕ) (m : Machine) → At p m P → At p (enter_cgroup s pid m) P
  unfolding enter_cgroup call
  At-enter_cgroup s pid m a = elim (Bool-cases (needs_cgroup s)) [
    | inl e ↦ rw e (record { service = a.service; there = a.there; holds = a.holds })
    | inr e ↦ rw e a
  ]

-- A service that service_start has started.
pub record IsStarted (s t : Service) : Type 0 where
  pub state : t.state ≡ (if is_simple s.type then running else starting)
  pub process : is_positive t.pid ≡ true
  pub retries : t.restart_count ≡ 0
  pub policy : t.restart_policy ≡ s.restart_policy
  pub limit : t.restart_max_retries ≡ s.restart_max_retries

-- One that it has given up.
pub record IsRefused (s t : Service) : Type 0 where
  pub state : t.state ≡ failed
  pub process : t.pid ≡ s.pid

-- In between: marked STARTING, and not launched yet.
record IsStarting (s t : Service) : Type 0 where
  state : t.state ≡ starting
  kind : t.type ≡ s.type
  process : t.pid ≡ s.pid
  policy : t.restart_policy ≡ s.restart_policy
  limit : t.restart_max_retries ≡ s.restart_max_retries

pub data Launch (s : Service) (p : ℕ) : Returns → Type 0 where
  launched : {m : Machine} → At p m (λ t. IsStarted s t) → Launch s p (pos 0, m)
  refused : {m : Machine} → At p m (λ t. IsRefused s t) → Launch s p (neg 1, m)

module _ (k : Kernel) (p : ℕ) where
  At-open_log :
      (s : Service) (m : Machine)
      → At p m (λ t. IsStarting s t)
      → At p (open_service_log k s p m) (λ t. IsStarting s t)
  unfolding open_service_log
  At-open_log s m a = elim (Bool-cases (is_negative s.log_fd)) [
    | inl e ↦ rw e (
        At-write _ _ (At-call _ m a) (λ t h. record {
          state = h.state;
          kind = h.kind;
          process = h.process;
          policy = h.policy;
          limit = h.limit;
        }))
    | inr e ↦ rw e a
  ]

  launch-Launch :
      IsPosix k
      → (s : Service) (m : Machine) → At p m (λ t. IsStarting s t)
      → Launch s p (launch k s p m)
  unfolding launch started
  launch-Launch posix s m a =
      let b = At-open_log s m a in
      elim (Option-cases (k.forked (open_service_log k s p m).trace)) [
        | inl e ↦
            rw (e, launch)
              (refused (
                At-write _ _ (At-call _ _ b) (λ t h. record { state = refl; process = h.process })))
        | inr (pid, e) ↦
            let q = lt→ltb 0 pid (posix (open_service_log k s p m).trace pid e) in
            rw (e, launch)
              (launched (
                At-enter_cgroup s pid _ (
                  At-write _ _ (At-call _ _ (At-call _ _ b)) (λ t h. record {
                    state = rw (h.state, h.kind) refl;
                    process = q;
                    retries = refl;
                    policy = h.policy;
                    limit = h.limit;
                  }))))
      ]

  here : (s : Service) {m : Machine} → get_elem? m.services p ≡ some s → At p m (λ t. t ≡ s)
  here s e = record { service = s; there = e; holds = refl }

  start_service-Launch :
      IsPosix k
      → (s : Service) (m : Machine) → get_elem? m.services p ≡ some s
      → s.state ≢ running
      → Launch s p (start_service k s p m)
  unfolding start_service
  start_service-Launch posix s m at ne = elim (Bool-cases (is_running s.state)) [
    | inl e ↦ absurd (ne (ground arith))
    | inr e ↦
        let a : At p (write p (set_state starting) m) (λ t. IsStarting s t) =
          At-write m (set_state starting) (here s at) (λ t h.
            rw h (record {
              state = refl;
              kind = refl;
              process = refl;
              policy = refl;
              limit = refl;
            })) in
        elim (Bool-cases (requires_running s.requires (write p (set_state starting) m))) [
          | inl r ↦ rw (e, r) (launch-Launch posix s _ a)
          | inr r ↦
              rw (e, r)
                (refused (At-write _ _ a (λ t h. record { state = refl; process = h.process })))
        ]
  ]

-- service_start on a service that does not run, where fork gives positive process ids: it returns 0
-- and the service has a process, no retries counted and the state RUNNING (STARTING where it is not
-- of the simple type), or it returns -1 and the service is FAILED, with the process id it had.
pub service_start-Launch :
    (k : Kernel) (p : ℕ) (s : Service) (m : Machine)
    → IsPosix k
    → get_elem? m.services p ≡ some s
    → s.state ≢ running
    → Launch s p (service_start k p m)
unfolding service_start
service_start-Launch k p s m posix at ne =
    rw (at, service_start) (start_service-Launch k p posix s m at ne)

-- A service that service_stop has stopped.
pub record IsStopped (t : Service) : Type 0 where
  pub state : t.state ≡ stopped
  pub process : t.pid ≡ neg 1

module _ (k : Kernel) (p : ℕ) where
  At-reap : {P : Service → Type 0} (pid : ℤ) (m : Machine) → At p m P → At p (reap k pid m).1 P
  unfolding reap force_kill
  At-reap pid m a = elim (Bool-cases (eq_ℤ (k.waited m.trace).0 (pos 0))) [
    | inl e ↦ rw e (At-call _ _ (At-call _ _ (At-call _ _ a)))
    | inr e ↦ rw e (At-call _ _ a)
  ]

  At-terminate :
      (s : Service) (m : Machine)
      → At p m (λ t. Unit {0})
      → At p (terminate k s p m) (λ t. Unit {0})
  unfolding terminate
  At-terminate s m a = elim (Bool-cases (is_positive s.pid)) [
    | inl e ↦ rw e (At-write _ _ (At-reap s.pid _ (At-call _ _ (At-call _ _ a))) (λ t h. tt))
    | inr e ↦ rw e (At-call _ _ a)
  ]

-- service_stop on a service that is RUNNING or STARTING returns 0 and leaves it STOPPED with no
-- process.
pub service_stop-IsStopped :
    (k : Kernel) (p : ℕ) (s : Service) (m : Machine)
    → get_elem? m.services p ≡ some s
    → is_stoppable s.state ≡ true
    → ((service_stop k p m).0 ≡ pos 0) × At p (service_stop k p m).1 IsStopped
unfolding service_stop stop_service
service_stop-IsStopped k p s m at e =
    let a : At p (write p (set_state stopping) m) (λ t. Unit {0}) =
      At-write m (set_state stopping) (here k p s at) (λ t h. tt) in
    rw (at, service_stop, e)
      (
        refl,
        At-call _ _ (
            At-write _ _ (At-call _ _ (At-terminate k p s _ a))
              (λ t h. record { state = refl; process = refl })),
      )

-- In any other state it returns 0 and does nothing at all.
pub service_stop_idle :
    (k : Kernel) (p : ℕ) (s : Service) (m : Machine)
    → get_elem? m.services p ≡ some s
    → is_stoppable s.state ≡ false
    → service_stop k p m ≡ (pos 0, m)
unfolding service_stop stop_service
service_stop_idle k p s m at e = rw (at, service_stop, e)
