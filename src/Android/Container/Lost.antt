-- ===== src/Android/Container/Lost.antt =====
-- A container whose first process does not report in time.
use lumi_os.Base.{ℕ, ◌≡◌, refl, true, false, some, List, ℤ, pos, neg}
use lumi_os.Android.Cgroup.{ct_cgroup_add_pid}
use lumi_os.Android.Container.{
  failed, starting, Call, malloc, pipe2, clone, clone_flags, call, calls, set_state, set_pid,
  android, Kernel, World, is_running, says_ok, await_ready, started_as, spawn, create_cgroup,
  container_start, container_stop, container_destroy,
}

record Lost (p : ℕ) (r : ℤ × World) : Type 0 where
  code : r.0 ≡ neg 1
  state : r.1.container.state ≡ failed
  pid : r.1.container.init_pid ≡ pos p

stop_failed :
    (k : Kernel) (m : World) → m.container.state ≡ failed → container_stop k m ≡ (pos 0, m)
unfolding container_stop
stop_failed k m e =
    let f : is_running m.container.state ≡ false = rw e refl in rw (f, container_stop) refl

destroy_failed : (k : Kernel) (m : World) → m.container.state ≡ failed → container_destroy k m ≡ m
unfolding container_destroy
destroy_failed k m e =
    let f : is_running m.container.state ≡ false = rw e refl in rw (f, container_destroy) refl

module _ (k : Kernel) (p : ℕ) (ok : (t : List Call) → says_ok (k.status_read t) ≡ false) where
  await_ready-Lost : (m : World) → m.container.init_pid ≡ pos p → Lost p (await_ready k (pos p) m)
  unfolding await_ready
  await_ready-Lost m e =
      rw (ok m.trace, await_ready) (record { code = refl; state = refl; pid = e })

  started_as-Lost : (m : World) → Lost p (started_as k (some p) m)
  unfolding started_as
  started_as-Lost m =
      await_ready-Lost (calls (ct_cgroup_add_pid android (pos p)) (set_pid (pos p) m)) refl

  spawn-Lost :
      (m : World)
      → k.allocated m.trace ≡ true
      → k.cloned (call malloc m).trace ≡ some p
      → Lost p (spawn k m)
  unfolding spawn
  spawn-Lost m al cl =
      rw (al, cl, spawn)
        (started_as-Lost (call (clone (clone_flags m.container.config)) (call malloc m)))

-- Where clone gives a process and no "OK" is read from it, container_start returns -1 and leaves the
-- container FAILED with the id of that process, and neither container_stop nor container_destroy
-- does anything then: the process is not signalled.
pub container_start-lost :
    (k : Kernel) (m : World) (p : ℕ)
    → is_running m.container.state ≡ false
    → ((t : List Call) → k.piped t ≡ true)
    → ((t : List Call) → k.allocated t ≡ true)
    → ((t : List Call) → k.cloned t ≡ some p)
    → ((t : List Call) → says_ok (k.status_read t) ≡ false)
    → let left = (container_start k m).1 in
      ((container_start k m).0 ≡ neg 1)
      × (left.container.state ≡ failed)
      × (left.container.init_pid ≡ pos p)
      × (container_stop k left ≡ (pos 0, left))
      × (container_destroy k left ≡ left)
unfolding container_start
container_start-lost k m p r pi al cl ok =
    let lost : Lost p (container_start k m) =
      rw (r, pi m.trace, container_start)
        (spawn-Lost k p ok (create_cgroup k (call pipe2 (set_state starting m))) (al _) (cl _)) in
    (lost.code, lost.state, lost.pid, stop_failed k _ lost.state, destroy_failed k _ lost.state)
