-- ===== src/Lumid/Lifecycle.antt =====
-- service_start, service_stop, service_restart, service_start_all and service_stop_all of
-- system/core/lumid/src/service.c.
pub mod Frame
pub mod Valid
pub mod Outcome
pub mod Restart
pub mod StopAll
pub mod Tests
use lumi_os.Base.{
  ℕ, suc, ◌+◌, ◌*◌, ◌%◌, ◌^◌, ◌≡◌, Bool, true, false, not, ◌||◌, Option, none, some, List, [], ◌∷◌,
  ◌++◌, ℤ, pos, neg, negsuc, eq_ℤ, is_positive, is_negative, Text, codes, text_eq, if◌then◌else◌,
  get_elem?, ltb, reverse,
}
use lumi_os.Lumid.Types.{
  Service, SvcState, stopped, starting, running, stopping, failed, restarting, is_running,
  is_stoppable, is_simple,
}
use lumi_os.Lumid.Machine.{
  Call, open_log, fork, now, cgroup_create, cgroup_apply_limits, cgroup_add_pid, cgroup_remove,
  kill, usleep, waitpid, sigterm, sigkill, WaitStatus, exited, signaled, neither, Kernel, Machine,
  call, write, modify, find_index, service_find,
}

-- A result code beside the state.
abbrev pub Returns : Type 0
Returns = ℤ × Machine

-- The loop over `requires`: a dependency that is registered must be running.
pub requires_running : List Text → Machine → Bool
requires_running [] m = true
requires_running (r ∷ rs) m =
    let rest = requires_running rs m in
    elim (service_find r m) [
      | none ↦ rest
      | some d ↦ elim (get_elem? m.services d) [
        | none ↦ rest
        | some dep ↦ if is_running dep.state then rest else false
      ]
    ]

-- snprintf (log_path, 256, "/var/log/lumid/%s.log", name); a name has at most 63 bytes.
abbrev pub log_path_of : Text → Text
log_path_of name = codes "/var/log/lumid/" ++ name ++ codes ".log"

abbrev pub needs_cgroup : Service → Bool
needs_cgroup s = is_positive s.cgroup.memory_max || is_positive s.cgroup.cpu_max

abbrev pub set_state : SvcState → Service → Service
set_state st s = record s { state = st }

-- "Create cgroup and add PID"
enter_cgroup : Service → ℕ → Machine → Machine
enter_cgroup s pid m =
    if needs_cgroup s
    then call (cgroup_add_pid s.name pid)
        (call (cgroup_apply_limits s.name s.cgroup) (call (cgroup_create s.name) m))
    else m

-- The parent's side of a successful fork.
started : ℕ → ℕ → Service → Service
started pid time s = record s {
  pid = pos pid;
  start_time = time;
  restart_count = 0;
  state = if is_simple s.type then running else s.state;
}

module _ (k : Kernel) where
  -- "Open log file": only where none is open.
  open_service_log : Service → ℕ → Machine → Machine
  open_service_log s p m =
      let path = log_path_of s.name in
      if is_negative s.log_fd
      then write p (λ t. record t { log_path = path; log_fd = k.opened m.trace })
          (call (open_log path) m)
      else m

  launch : Service → ℕ → Machine → Returns
  launch s p m =
      let m1 = open_service_log s p m in
      elim (k.forked m1.trace) [
        | none ↦ (neg 1, write p (set_state failed) (call fork m1))
        | some pid ↦
            let m2 = call fork m1 in
            (pos 0, enter_cgroup s pid (write p (started pid (k.clock m2.trace)) (call now m2)))
      ]

  start_service : Service → ℕ → Machine → Returns
  start_service s p m =
      if is_running s.state
      then (pos 0, m)
      else let m1 = write p (set_state starting) m in
        if requires_running s.requires m1
        then launch s p m1
        else (neg 1, write p (set_state failed) m1)

  -- A position that is out of range stands for a null pointer.
  pub service_start : ℕ → Machine → Returns
  service_start p m = elim (get_elem? m.services p) [
    | none ↦ (neg 1, m)
    | some s ↦ start_service s p m
  ]

  -- "Still alive, force kill": what `status` holds once the child is reaped.
  force_kill : ℤ → Machine → WaitStatus × Machine
  force_kill pid m =
      let m1 = call (kill pid sigkill) m in ((k.waited m1.trace).1, call (waitpid pid true) m1)

  -- The second `if (svc->pid > 0)`: `true` in the call is a waitpid that blocks.
  reap : ℤ → Machine → WaitStatus × Machine
  reap pid m =
      let (ret, status) = k.waited m.trace in
      let m1 = call (waitpid pid false) m in
      if eq_ℤ ret (pos 0) then force_kill pid m1 else (status, m1)

  -- `if (WIFEXITED(status))`
  record_exit : WaitStatus → Service → Service
  record_exit (exited code) s = record s { exit_code = pos code }
  record_exit (signaled n) s = s
  record_exit neither s = s

  terminate : Service → ℕ → Machine → Machine
  terminate s p m =
      let m1 = if is_positive s.pid then call (kill s.pid sigterm) m else m in
      let m2 = call (usleep 500_000) m1 in
      if is_positive s.pid
      then (let (status, m3) = reap s.pid m2 in write p (record_exit status) m3)
      else m2

  stop_service : Service → ℕ → Machine → Returns
  stop_service s p m =
      if is_stoppable s.state
      then (let m1 = terminate s p (write p (set_state stopping) m) in
          (
            pos 0,
            call (cgroup_remove s.name) (
                write p
                  (λ t. record t { state = stopped; stop_time = k.clock m1.trace; pid = neg 1 })
                  (call now m1)),
          ))
      else (pos 0, m)

  pub service_stop : ℕ → Machine → Returns
  service_stop p m = elim (get_elem? m.services p) [
    | none ↦ (neg 1, m)
    | some s ↦ stop_service s p m
  ]

  -- usleep ((useconds_t) delay * 1000), on 32 bits.
  pub restart_sleep : ℤ → Machine → Machine
  restart_sleep (pos d) m = if ltb 0 d then call (usleep (d * 1000 % 2 ^ 32)) m else m
  restart_sleep (negsuc d) m = m

  restart_service : Service → ℕ → Machine → Returns
  restart_service s p m =
      let (code, m1) = service_stop p (write p (set_state restarting) m) in
      service_start p (restart_sleep s.restart_delay_ms m1)

  pub service_restart : ℕ → Machine → Returns
  service_restart p m = elim (get_elem? m.services p) [
    | none ↦ (neg 1, m)
    | some s ↦ restart_service s p m
  ]

  -- The loop of service_start_all over `g_start_order`, with the number of failures.
  start_each : List ℕ → Machine → ℕ × Machine
  start_each [] m = (0, m)
  start_each (p ∷ ps) m = elim (get_elem? m.services p) [
    | none ↦ start_each ps m
    | some s ↦ elim s.enabled [
      | false ↦ start_each ps m
      | true ↦
          let (code, m1) = service_start p m in
          let (failures, m2) = start_each ps m1 in
          (if is_negative code then failures + 1 else failures, m2)
    ]
  ]

  pub service_start_all : Machine → Returns
  service_start_all m =
      let (failures, m1) = start_each m.start_order m in
      (if ltb 0 failures then neg 1 else pos 0, m1)

  stop_each : List ℕ → Machine → Machine
  stop_each [] m = m
  stop_each (p ∷ ps) m = stop_each ps (service_stop p m).1

  pub service_stop_all : Machine → Machine
  service_stop_all m = stop_each (reverse m.start_order) m
