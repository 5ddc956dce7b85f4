-- ===== src/Lumid/Lifecycle/Frame.antt =====
-- Which services service_start, service_stop and service_restart write to.
use lumi_os.Base.{
  ℕ, zero, suc, ◌≡◌, refl, ◌≢◌, ◌∙◌, ap, List, [], ◌∷◌, map, some, ℤ, pos, negsuc, Text, get_elem?,
  length, ltb, inl, inr, is_negative, is_positive, eq_ℤ, Bool-cases, Option-cases,
}
use lumi_os.Lumid.Types.{Service, starting, is_running, is_stoppable}
use lumi_os.Lumid.Machine.{
  Call, WaitStatus, exited, signaled, neither, Kernel, Machine, call, write, modify,
}
use lumi_os.Lumid.Lifecycle.{
  needs_cgroup, requires_running, set_state, started, enter_cgroup, open_service_log, launch,
  start_service, service_start, force_kill, reap, record_exit, terminate, stop_service,
  service_stop, restart_sleep, restart_service, service_restart,
}

pub length-modify :
    (i : ℕ) (f : Service → Service) (ss : List Service) → length (modify i f ss) ≡ length ss
length-modify i f [] = refl
length-modify zero f (s ∷ ss) = refl
length-modify (suc i) f (s ∷ ss) = ap suc (length-modify i f ss)

pub get_elem?-modify_self :
    (i : ℕ) (f : Service → Service) (ss : List Service) {s : Service}
    → get_elem? ss i ≡ some s
    → get_elem? (modify i f ss) i ≡ some (f s)
get_elem?-modify_self i f [] h = cc
get_elem?-modify_self zero f (t ∷ ss) h = cc
get_elem?-modify_self (suc i) f (t ∷ ss) h = get_elem?-modify_self i f ss h

pub get_elem?-modify_ne :
    (i j : ℕ) (f : Service → Service) (ss : List Service)
    → j ≢ i
    → get_elem? (modify i f ss) j ≡ get_elem? ss j
get_elem?-modify_ne i j f [] h = refl
get_elem?-modify_ne zero zero f (s ∷ ss) h = absurd (h refl)
get_elem?-modify_ne zero (suc j) f (s ∷ ss) h = refl
get_elem?-modify_ne (suc i) zero f (s ∷ ss) h = refl
get_elem?-modify_ne (suc i) (suc j) f (s ∷ ss) h = get_elem?-modify_ne i j f ss (λ e. h (ap suc e))

-- The names of the registered services, in order.
abbrev pub names : List Service → List Text
names ss = map (λ s. s.name) ss

names-modify :
    (i : ℕ) (f : Service → Service) (ss : List Service)
    → ((s : Service) → (f s).name ≡ s.name)
    → names (modify i f ss) ≡ names ss
names-modify i f [] h = refl
names-modify zero f (s ∷ ss) h = rw (h s)
names-modify (suc i) f (s ∷ ss) h = rw (names-modify i f ss h)

-- `m'` is `m` but for the service at `p`, whose name stays, and for the trace.
pub record Touches (p : ℕ) (m m' : Machine) : Type 0 where
  pub others : (i : ℕ) → i ≢ p → get_elem? m'.services i ≡ get_elem? m.services i
  pub size : length m'.services ≡ length m.services
  pub named : names m'.services ≡ names m.services
  pub counted : m'.service_count ≡ m.service_count
  pub ordered : m'.start_order ≡ m.start_order

pub Touches-refl : (p : ℕ) (m : Machine) → Touches p m m
Touches-refl p m = record {
  others = λ i ne. refl;
  size = refl;
  named = refl;
  counted = refl;
  ordered = refl;
}

pub Touches-trans : {p : ℕ} {m n o : Machine} → Touches p m n → Touches p n o → Touches p m o
Touches-trans a b = record {
  others = λ i ne. b.others i ne ∙ a.others i ne;
  size = b.size ∙ a.size;
  named = b.named ∙ a.named;
  counted = b.counted ∙ a.counted;
  ordered = b.ordered ∙ a.ordered;
}

pub Touches-call : {p : ℕ} {m n : Machine} (c : Call) → Touches p m n → Touches p m (call c n)
unfolding call
Touches-call c a = record {
  others = a.others;
  size = a.size;
  named = a.named;
  counted = a.counted;
  ordered = a.ordered;
}

pub Touches-write :
    {p : ℕ} {m n : Machine} (f : Service → Service)
    → ((s : Service) → (f s).name ≡ s.name)
    → Touches p m n
    → Touches p m (write p f n)
unfolding write
Touches-write {p} {n} f h a = record {
  others = λ i ne. get_elem?-modify_ne p i f n.services ne ∙ a.others i ne;
  size = length-modify p f n.services ∙ a.size;
  named = names-modify p f n.services h ∙ a.named;
  counted = a.counted;
  ordered = a.ordered;
}

enter_cgroup-Touches :
    {p : ℕ} {m n : Machine} (s : Service) (pid : ℕ)
    → Touches p m n
    → Touches p m (enter_cgroup s pid n)
unfolding enter_cgroup
enter_cgroup-Touches s pid a = elim (Bool-cases (needs_cgroup s)) [
  | inl e ↦ rw e (Touches-call _ (Touches-call _ (Touches-call _ a)))
  | inr e ↦ rw e a
]

record_exit-name : (k : Kernel) (w : WaitStatus) (s : Service) → (record_exit k w s).name ≡ s.name
unfolding record_exit
record_exit-name k (exited c) s = refl
record_exit-name k (signaled c) s = refl
record_exit-name k neither s = refl

module _ (k : Kernel) {p : ℕ} {m : Machine} where
  restart_sleep-Touches : {n : Machine} (d : ℤ) → Touches p m n → Touches p m (restart_sleep k d n)
  unfolding restart_sleep
  restart_sleep-Touches (pos d) a = elim (Bool-cases (ltb 0 d)) [
    | inl e ↦ rw e (Touches-call _ a)
    | inr e ↦ rw e a
  ]
  restart_sleep-Touches (negsuc d) a = a

  open_service_log-Touches :
      {n : Machine} (s : Service) → Touches p m n → Touches p m (open_service_log k s p n)
  unfolding open_service_log
  open_service_log-Touches s a = elim (Bool-cases (is_negative s.log_fd)) [
    | inl e ↦ rw e (Touches-write _ (λ t. refl) (Touches-call _ a))
    | inr e ↦ rw e a
  ]

  launch-Touches : {n : Machine} (s : Service) → Touches p m n → Touches p m (launch k s p n).1
  unfolding launch started
  launch-Touches {n} s a =
      let b = open_service_log-Touches s a in
      elim (Option-cases (k.forked (open_service_log k s p n).trace)) [
        | inl e ↦ rw (e, launch) (Touches-write _ (λ t. refl) (Touches-call _ b))
        | inr (pid, e) ↦
            rw (e, launch)
              (enter_cgroup-Touches s pid
                (Touches-write _ (λ t. refl) (Touches-call _ (Touches-call _ b))))
      ]

  start_service-Touches :
      {n : Machine} (s : Service) → Touches p m n → Touches p m (start_service k s p n).1
  unfolding start_service
  start_service-Touches {n} s a = elim (Bool-cases (is_running s.state)) [
    | inl e ↦ rw e a
    | inr e ↦ elim (Bool-cases (requires_running s.requires (write p (set_state starting) n))) [
      | inl r ↦ rw (e, r) (launch-Touches s (Touches-write _ (λ t. refl) a))
      | inr r ↦ rw (e, r) (Touches-write _ (λ t. refl) (Touches-write _ (λ t. refl) a))
    ]
  ]

  pub service_start-Touches : {n : Machine} → Touches p m n → Touches p m (service_start k p n).1
  unfolding service_start
  service_start-Touches {n} a = elim (Option-cases (get_elem? n.services p)) [
    | inl e ↦ rw (e, service_start) a
    | inr (s, e) ↦ rw (e, service_start) (start_service-Touches s a)
  ]

  reap-Touches : {n : Machine} (pid : ℤ) → Touches p m n → Touches p m (reap k pid n).1
  unfolding reap force_kill
  reap-Touches {n} pid a = elim (Bool-cases (eq_ℤ (k.waited n.trace).0 (pos 0))) [
    | inl e ↦ rw e (Touches-call _ (Touches-call _ (Touches-call _ a)))
    | inr e ↦ rw e (Touches-call _ a)
  ]

  terminate-Touches : {n : Machine} (s : Service) → Touches p m n → Touches p m (terminate k s p n)
  unfolding terminate
  terminate-Touches s a = elim (Bool-cases (is_positive s.pid)) [
    | inl e ↦ rw e (
        Touches-write _ (record_exit-name k _)
          (reap-Touches s.pid (Touches-call _ (Touches-call _ a))))
    | inr e ↦ rw e (Touches-call _ a)
  ]

  pub service_stop-Touches : {n : Machine} → Touches p m n → Touches p m (service_stop k p n).1
  unfolding service_stop stop_service
  service_stop-Touches {n} a = elim (Option-cases (get_elem? n.services p)) [
    | inl e ↦ rw (e, service_stop) a
    | inr (s, e) ↦ elim (Bool-cases (is_stoppable s.state)) [
      | inl r ↦
          rw (e, service_stop, r)
            (Touches-call _ (
              Touches-write _ (λ t. refl)
                (Touches-call _ (terminate-Touches s (Touches-write _ (λ t. refl) a)))))
      | inr r ↦ rw (e, service_stop, r) a
    ]
  ]

  pub service_restart-Touches :
      {n : Machine} → Touches p m n → Touches p m (service_restart k p n).1
  unfolding service_restart restart_service
  service_restart-Touches {n} a = elim (Option-cases (get_elem? n.services p)) [
    | inl e ↦ rw (e, service_restart) a
    | inr (s, e) ↦
        rw (e, service_restart)
          (service_start-Touches (
            restart_sleep-Touches s.restart_delay_ms
              (service_stop-Touches (Touches-write _ (λ t. refl) a))))
  ]
