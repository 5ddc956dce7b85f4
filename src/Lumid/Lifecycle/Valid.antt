-- ===== src/Lumid/Lifecycle/Valid.antt =====
-- The invariant of the service manager, over starting, stopping and restarting.
use lumi_os.Base.{
  ℕ, zero, suc, ◌<◌, ◌≡◌, refl, sym, subst, ◌∙◌, inl, inr, true, some, List, [], ◌∷◌, In, Distinct,
  ℤ, pos, negsuc, is_positive, get_elem?, length, ltb, Bool-cases, Option-cases, lt→ltb,
}
use native.Mathlib.Decide.{ℕ_discrete}
use lumi_os.Lumid.Types.{Service, running, starting, failed, restarting, is_running, is_stoppable}
use lumi_os.Lumid.Machine.{Call, Kernel, IsPosix, Machine, call, write, modify}
use lumi_os.Lumid.Lifecycle.{
  needs_cgroup, requires_running, set_state, started, enter_cgroup, open_service_log, launch,
  start_service, service_start, stop_service, service_stop, restart_sleep, restart_service,
  service_restart,
}
use lumi_os.Lumid.Lifecycle.Frame.{
  names, Touches, Touches-refl, service_start-Touches, service_stop-Touches,
  service_restart-Touches,
}

-- A running service has a process.
abbrev pub IsLive : Service → Type 0
IsLive s = s.state ≡ running → is_positive s.pid ≡ true

abbrev pub LiveAt : ℕ → Machine → Type 0
LiveAt p m = (s : Service) → get_elem? m.services p ≡ some s → IsLive s

-- The count is that of the list, no two services share a name, every running service has a process,
-- and the start order points into the list.
pub record IsValid (m : Machine) : Type 0 where
  pub counted : m.service_count ≡ length m.services
  pub named : Distinct (names m.services)
  pub live : (i : ℕ) → LiveAt i m
  pub ordered : (i : ℕ) → In i m.start_order → i < length m.services

pub IsValid-Touches : {p : ℕ} {m n : Machine} → IsValid m → Touches p m n → LiveAt p n → IsValid n
IsValid-Touches {p} {m} {n} v t l = record {
  counted = t.counted ∙ v.counted ∙ sym t.size;
  named = rw t.named v.named;
  live = λ i. elim (ℕ_discrete i p) [
    | yes e ↦ subst (λ j. LiveAt j n) (sym e) l
    | no ne ↦ λ s h. v.live i s (sym (t.others i ne) ∙ h)
  ];
  ordered = λ i h. subst (λ k. i < k) (sym t.size) (v.ordered i (subst (λ o. In i o) t.ordered h));
}

get_elem?-modify_inv :
    (i : ℕ) (f : Service → Service) (ss : List Service) {t : Service}
    → get_elem? (modify i f ss) i ≡ some t
    → (s : Service) × (get_elem? ss i ≡ some s) × (t ≡ f s)
get_elem?-modify_inv i f [] h = cc
get_elem?-modify_inv zero f (s ∷ ss) h = (s, refl, cc)
get_elem?-modify_inv (suc i) f (s ∷ ss) h = get_elem?-modify_inv i f ss h

pub LiveAt-write :
    (p : ℕ) (f : Service → Service) (m : Machine)
    → ((s : Service) → IsLive s → IsLive (f s))
    → LiveAt p m
    → LiveAt p (write p f m)
unfolding write
LiveAt-write p f m h l t e =
    let (s, e', q) = get_elem?-modify_inv p f m.services e in
    subst (λ x. IsLive x) (sym q) (h s (l s e'))

pub LiveAt-set :
    (p : ℕ) (f : Service → Service) (m : Machine)
    → ((s : Service) → IsLive (f s))
    → LiveAt p (write p f m)
unfolding write
LiveAt-set p f m h t e =
    let (s, e', q) = get_elem?-modify_inv p f m.services e in subst (λ x. IsLive x) (sym q) (h s)

pub LiveAt-call : (p : ℕ) (c : Call) (m : Machine) → LiveAt p m → LiveAt p (call c m)
unfolding call
LiveAt-call p c m l = l

LiveAt-enter_cgroup :
    (p : ℕ) (s : Service) (pid : ℕ) (m : Machine) → LiveAt p m → LiveAt p (enter_cgroup s pid m)
unfolding enter_cgroup call
LiveAt-enter_cgroup p s pid m l = elim (Bool-cases (needs_cgroup s)) [
  | inl e ↦ rw e l
  | inr e ↦ rw e l
]

module _ (k : Kernel) (posix : IsPosix k) (p : ℕ) where
  started-IsLive :
      (t : List Call) (pid time : ℕ) (s : Service)
      → k.forked t ≡ some pid
      → IsLive (started pid time s)
  unfolding started
  started-IsLive t pid time s e h = lt→ltb 0 pid (posix t pid e)

  launch-LiveAt : (s : Service) (m : Machine) → LiveAt p (launch k s p m).1
  unfolding launch
  launch-LiveAt s m = elim (Option-cases (k.forked (open_service_log k s p m).trace)) [
    | inl e ↦ rw (e, launch) (LiveAt-set p (set_state failed) _ (λ t h. cc))
    | inr (pid, e) ↦
        rw (e, launch)
          (LiveAt-enter_cgroup p s pid _
            (LiveAt-set p (started pid _) _ (λ t. started-IsLive _ pid _ t e)))
  ]

  start_service-LiveAt :
      (s : Service) (m : Machine) → LiveAt p m → LiveAt p (start_service k s p m).1
  unfolding start_service
  start_service-LiveAt s m l = elim (Bool-cases (is_running s.state)) [
    | inl e ↦ rw e l
    | inr e ↦ elim (Bool-cases (requires_running s.requires (write p (set_state starting) m))) [
      | inl r ↦ rw (e, r) (launch-LiveAt s _)
      | inr r ↦ rw (e, r) (LiveAt-set p (set_state failed) _ (λ t h. cc))
    ]
  ]

  pub service_start-LiveAt : (m : Machine) → LiveAt p m → LiveAt p (service_start k p m).1
  unfolding service_start
  service_start-LiveAt m l = elim (Option-cases (get_elem? m.services p)) [
    | inl e ↦ rw (e, service_start) l
    | inr (s, e) ↦ rw (e, service_start) (start_service-LiveAt s m l)
  ]

  pub service_stop-LiveAt : (m : Machine) → LiveAt p m → LiveAt p (service_stop k p m).1
  unfolding service_stop stop_service
  service_stop-LiveAt m l = elim (Option-cases (get_elem? m.services p)) [
    | inl e ↦ rw (e, service_stop) l
    | inr (s, e) ↦ elim (Bool-cases (is_stoppable s.state)) [
      | inl r ↦ rw (e, service_stop, r) (LiveAt-call p _ _ (LiveAt-set p _ _ (λ t h. cc)))
      | inr r ↦ rw (e, service_stop, r) l
    ]
  ]

  restart_sleep-LiveAt : (d : ℤ) (m : Machine) → LiveAt p m → LiveAt p (restart_sleep k d m)
  unfolding restart_sleep
  restart_sleep-LiveAt (pos d) m l = elim (Bool-cases (ltb 0 d)) [
    | inl e ↦ rw e (LiveAt-call p _ m l)
    | inr e ↦ rw e l
  ]
  restart_sleep-LiveAt (negsuc d) m l = l

  pub service_restart-LiveAt : (m : Machine) → LiveAt p m → LiveAt p (service_restart k p m).1
  unfolding service_restart restart_service
  service_restart-LiveAt m l = elim (Option-cases (get_elem? m.services p)) [
    | inl e ↦ rw (e, service_restart) l
    | inr (s, e) ↦
        rw (e, service_restart)
          (service_start-LiveAt _ (
            restart_sleep-LiveAt s.restart_delay_ms _
              (service_stop-LiveAt _ (LiveAt-set p (set_state restarting) m (λ t h. cc)))))
  ]

  -- service_start, service_stop and service_restart of any service keep the invariant.
  pub service_start-IsValid : (m : Machine) → IsValid m → IsValid (service_start k p m).1
  service_start-IsValid m v =
      IsValid-Touches v (service_start-Touches k (Touches-refl p m))
        (service_start-LiveAt m (v.live p))

  pub service_stop-IsValid : (m : Machine) → IsValid m → IsValid (service_stop k p m).1
  service_stop-IsValid m v =
      IsValid-Touches v (service_stop-Touches k (Touches-refl p m))
        (service_stop-LiveAt m (v.live p))

  pub service_restart-IsValid : (m : Machine) → IsValid m → IsValid (service_restart k p m).1
  service_restart-IsValid m v =
      IsValid-Touches v (service_restart-Touches k (Touches-refl p m))
        (service_restart-LiveAt m (v.live p))
