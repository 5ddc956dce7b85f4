-- ===== src/Android/Container/State.antt =====
-- The state of the container between two operations.
use lumi_os.Base.{
  ℕ, ◌<◌, ◌≡◌, refl, sym, subst, inl, inr, Bool, true, false, not, ◌||◌, Option, none, some, List,
  [], ◌∷◌, ℤ, pos, neg, is_positive, if◌then◌else◌, Bool-cases, lt→ltb,
}
use lumi_os.Android.Cgroup.{ct_cgroup_add_pid}
use lumi_os.Android.Container.{
  CtState, stopped, starting, running, stopping, failed, CtConfig, Container, Call, read_status,
  malloc, clone, Kernel, World, call, calls, set_pid, clone_flags, android, container_init,
  is_running, write_pid, says_ok, await_ready, started_as, spawn, container_start, container_stop,
  container_wait, container_destroy,
}

-- clone(2) returns a process id above 0 to the parent.
abbrev pub IsPosix : Kernel → Type 0
IsPosix k = (t : List Call) (p : ℕ) → k.cloned t ≡ some p → 0 < p

-- No operation is under way; a container that runs has a process, and one that is stopped has none.
abbrev pub Settled : CtState → ℤ → Type 0
Settled stopped p = p ≡ neg 1
Settled running p = is_positive p ≡ true
Settled failed p = Unit
Settled starting p = ⊥
Settled stopping p = ⊥

pub record IsSettled (m : World) : Type 0 where
  pub settled : Settled m.container.state m.container.init_pid

-- The state that an operation leaves.
record After (r : ℤ × World) : Type 0 where
  after : IsSettled r.1

on_both : (b : Bool) (m n : World) → IsSettled m → IsSettled n → IsSettled (if b then m else n)
on_both true m n p q = p
on_both false m n p q = q

left_failed : (c : ℤ) (m : World) → m.container.state ≡ failed → After (c, m)
left_failed c m e = record { after = record { settled = rw e tt } }

is_running→≡ : (s : CtState) → is_running s ≡ true → s ≡ running
is_running→≡ stopped h = cc
is_running→≡ starting h = cc
is_running→≡ running h = refl
is_running→≡ stopping h = cc
is_running→≡ failed h = cc

write_pid-Settled : (b : Bool) (pid : ℤ) (m : World) → IsSettled m → IsSettled (write_pid b pid m)
write_pid-Settled true pid m i = record { settled = i.settled }
write_pid-Settled false pid m i = i

module _ (k : Kernel) where
  await_ready-Settled :
      (p : ℕ) (m : World) → 0 < p → m.container.init_pid ≡ pos p → After (await_ready k (pos p) m)
  unfolding await_ready
  await_ready-Settled p m lt e = elim (Bool-cases (says_ok (k.status_read m.trace))) [
    | inl o ↦
        rw (o, await_ready)
          (record {
            after =
                write_pid-Settled (k.pid_file_opened (call read_status m).trace) (pos p) _
                  (record { settled = rw e (lt→ltb 0 p lt) });
          })
    | inr o ↦ rw (o, await_ready) (left_failed _ _ refl)
  ]

  started_as-Settled :
      (o : Option ℕ) (m : World) → ((p : ℕ) → o ≡ some p → 0 < p) → After (started_as k o m)
  unfolding started_as
  started_as-Settled none m h = left_failed _ _ refl
  started_as-Settled (some p) m h =
      await_ready-Settled p (calls (ct_cgroup_add_pid android (pos p)) (set_pid (pos p) m))
        (h p refl) refl

  spawn-Settled : IsPosix k → (m : World) → After (spawn k m)
  unfolding spawn
  spawn-Settled h m = elim (Bool-cases (not (k.allocated m.trace))) [
    | inl e ↦ rw (e, spawn) (left_failed _ _ refl)
    | inr e ↦
        rw (e, spawn)
          (started_as-Settled (k.cloned (call malloc m).trace)
            (call (clone (clone_flags m.container.config)) (call malloc m)) (h _))
  ]

  container_start-Settled : IsPosix k → (m : World) → IsSettled m → After (container_start k m)
  unfolding container_start
  container_start-Settled h m i = elim (Bool-cases (is_running m.container.state)) [
    | inl e ↦ rw (e, container_start) (record { after = i })
    | inr e ↦ elim (Bool-cases (not (k.piped m.trace))) [
      | inl p ↦ rw (e, p, container_start) (left_failed _ _ refl)
      | inr p ↦ rw (e, p, container_start) (spawn-Settled h _)
    ]
  ]

  container_stop-Settled : (m : World) → IsSettled m → After (container_stop k m)
  unfolding container_stop
  container_stop-Settled m i =
      elim (Bool-cases
        (not (is_running m.container.state) || not (is_positive m.container.init_pid))) [
          | inl e ↦ rw (e, container_stop) (record { after = i })
          | inr e ↦ rw (e, container_stop) (record { after = record { settled = refl } })
        ]

  container_wait-Settled : (m : World) → IsSettled m → After (container_wait k m)
  unfolding container_wait
  container_wait-Settled m i = elim (Bool-cases (not (is_positive m.container.init_pid))) [
    | inl e ↦ rw (e, container_wait) (record { after = i })
    | inr e ↦ rw (e, container_wait) (record { after = record { settled = refl } })
  ]

  container_destroy-Settled : (m : World) → IsSettled m → IsSettled (container_destroy k m)
  unfolding container_destroy
  container_destroy-Settled m i = on_both _ _ _ (container_stop-Settled m i).after i

-- The operations of a client.
pub data Operation : Type 0 where
  start stop wait destroy : Operation

pub perform : Kernel → Operation → World → World
perform k start m = (container_start k m).1
perform k stop m = (container_stop k m).1
perform k wait m = (container_wait k m).1
perform k destroy m = container_destroy k m

pub perform_each : Kernel → List Operation → World → World
perform_each k [] m = m
perform_each k (o ∷ os) m = perform_each k os (perform k o m)

perform-IsSettled :
    (k : Kernel) (o : Operation) (m : World) → IsPosix k → IsSettled m → IsSettled (perform k o m)
unfolding perform
perform-IsSettled k start m h i = (container_start-Settled k h m i).after
perform-IsSettled k stop m h i = (container_stop-Settled k m i).after
perform-IsSettled k wait m h i = (container_wait-Settled k m i).after
perform-IsSettled k destroy m h i = container_destroy-Settled k m i

perform_each_keeps :
    (k : Kernel) (ops : List Operation) (m : World)
    → IsPosix k
    → IsSettled m
    → IsSettled (perform_each k ops m)
unfolding perform_each
perform_each_keeps k [] m h i = i
perform_each_keeps k (o ∷ os) m h i = perform_each_keeps k os _ h (perform-IsSettled k o m h i)

-- Whatever container_start, container_stop, container_wait and container_destroy are called in
-- whatever order on a container that container_init made, and whatever the kernel answers, where
-- clone gives process ids above 0: after each of them the container is stopped and has the process
-- id -1, or it runs and has a process id above 0, or it has failed.
pub perform_each-IsSettled :
    (k : Kernel) (config : CtConfig) (ops : List Operation) (m : World)
    → IsPosix k
    → m.container ≡ container_init config
    → IsSettled (perform_each k ops m)
perform_each-IsSettled k config ops m h e =
    let init : Settled (container_init config).state (container_init config).init_pid =
      unfold container_init in refl in
    perform_each_keeps k ops m h
      (record { settled = subst (λ (c : Container). Settled c.state c.init_pid) (sym e) init })
