-- ===== src/Android/Container/Started.antt =====
-- The start of a container whose kernel grants it all.
use lumi_os.Base.{ℕ, ◌<◌, ◌≡◌, refl, true, false, some, List, ℤ, pos, is_positive, lt→ltb}
use lumi_os.Android.Cgroup.{ct_cgroup_add_pid}
use lumi_os.Android.Container.{
  Call, malloc, pipe2, clone, read_status, clone_flags, call, calls, set_state, set_pid, starting,
  android, Kernel, World, is_running, says_ok, await_ready, started_as, spawn, create_cgroup,
  container_start, container_wait,
}

-- A container that has been started, with its PID file.
pub record Started (p : ℕ) (r : ℤ × World) : Type 0 where
  pub code : r.0 ≡ pos 0
  pub pid : r.1.container.init_pid ≡ pos p
  pub file : r.1.pid_file ≡ some (some (pos p))

-- The kernel grants what container_start asks for, and the process `p` reports.
pub record Grants (k : Kernel) (p : ℕ) : Type 0 where
  pub piped : (t : List Call) → k.piped t ≡ true
  pub allocated : (t : List Call) → k.allocated t ≡ true
  pub cloned : (t : List Call) → k.cloned t ≡ some p
  pub reports : (t : List Call) → says_ok (k.status_read t) ≡ true
  pub opened : (t : List Call) → k.pid_file_opened t ≡ true

module _ (k : Kernel) (p : ℕ) (g : Grants k p) where
  await_ready-Started :
      (m : World) → m.container.init_pid ≡ pos p → Started p (await_ready k (pos p) m)
  unfolding await_ready
  await_ready-Started m e =
      rw (g.reports m.trace, g.opened (call read_status m).trace, await_ready)
        (record { code = refl; pid = e; file = refl })

  started_as-Started : (m : World) → Started p (started_as k (some p) m)
  unfolding started_as
  started_as-Started m =
      await_ready-Started (calls (ct_cgroup_add_pid android (pos p)) (set_pid (pos p) m)) refl

  spawn-Started : (m : World) → Started p (spawn k m)
  unfolding spawn
  spawn-Started m =
      rw (g.allocated m.trace, g.cloned (call malloc m).trace, spawn)
        (started_as-Started (call (clone (clone_flags m.container.config)) (call malloc m)))

  pub container_start-Started :
      (m : World) → is_running m.container.state ≡ false → Started p (container_start k m)
  unfolding container_start
  container_start-Started m e =
      rw (e, g.piped m.trace, container_start)
        (spawn-Started (create_cgroup k (call pipe2 (set_state starting m))))

-- container_wait does not touch the PID file.
pub pid_file-container_wait :
    (k : Kernel) (m : World) (p : ℕ)
    → 0 < p
    → m.container.init_pid ≡ pos p
    → (container_wait k m).1.pid_file ≡ m.pid_file
unfolding container_wait
pid_file-container_wait k m p lt e =
    let up : is_positive m.container.init_pid ≡ true = rw e (lt→ltb 0 p lt) in
    rw (up, container_wait) refl
