-- ===== src/Lumid/Supervisor.antt =====
-- system/core/lumid/src/supervisor.c: the exits of children and the deferred restarts.
--
-- What `waitpid (-1, &status, WNOHANG)` returns before it returns 0 or -1 is a list of process ids,
-- which are above 0, with their statuses.
pub mod Policy
pub mod Valid
pub mod Tests
use lumi_os.Base.{
  ℕ, zero, suc, ◌+◌, ◌-◌, ◌*◌, ◌/◌, ◌%◌, ◌^◌, Bool, true, false, ◌&&◌, Option, none, some, List, [],
  ◌∷◌, ℤ, pos, negsuc, neg, eq_ℤ, is_nonzero, is_negative, ltb_ℤ, ltb, leb, if◌then◌else◌,
  get_elem?, length,
}
use lumi_os.Lumid.Types.{
  Service, RestartPolicy, never, always, on_failure, on_abnormal, stopped, failed, restarting,
  is_restarting,
}
use lumi_os.Lumid.Machine.{
  WaitStatus, exited, signaled, neither, Kernel, Machine, now, call, write, find_index,
}
use lumi_os.Lumid.Lifecycle.{service_start}

-- "Record exit info"
pub exit_code_of : WaitStatus → ℤ → ℤ
exit_code_of (exited code) before = pos code
exit_code_of (signaled n) before = neg n
exit_code_of neither before = before

-- The `switch` on the policy.
pub should_restart : RestartPolicy → ℤ → Bool
should_restart always code = true
should_restart on_failure code = is_nonzero code
should_restart on_abnormal code = is_negative code
should_restart never code = false

-- The service after its exit, and the three branches that choose its state.
pub exit_service : WaitStatus → ℕ → Service → Service
unfolding exit_code_of
exit_service status time s = record s {
  exit_code = exit_code_of status s.exit_code;
  pid = neg 1;
  stop_time = time;
}

pub schedule : Service → Service
unfolding should_restart
schedule s =
    if should_restart s.restart_policy s.exit_code
    then (if ltb_ℤ (pos s.restart_count) s.restart_max_retries
        then record s { state = restarting; restart_count = s.restart_count + 1 }
        else record s { state = failed })
    else record s { state = stopped }

-- uint64_t subtraction, and the conversion of an `int` to uint64_t.
abbrev pub sub_u64 : ℕ → ℕ → ℕ
sub_u64 a b = (a + 2 ^ 64 - b) % 2 ^ 64

abbrev pub to_u64 : ℤ → ℕ
to_u64 (pos n) = n
to_u64 (negsuc n) = 2 ^ 64 - 1 - n

-- "Check if restart delay has elapsed"
abbrev pub is_due : ℕ → Service → Bool
is_due time s = leb (to_u64 s.restart_delay_ms) (sub_u64 time s.stop_time / 1_000_000)

abbrev pub check_interval_ns : ℕ
check_interval_ns = 5_000_000_000

module _ (k : Kernel) where
  -- One round of the loop. A process that is no service's is an orphan.
  pub reap_child : ℕ → WaitStatus → Machine → Machine
  unfolding find_index exit_service schedule
  reap_child pid status m = elim (find_index (λ s. eq_ℤ s.pid (pos pid)) m.services) [
    | none ↦ m
    | some i ↦ write i (λ s. schedule (exit_service status (k.clock m.trace) s)) (call now m)
  ]

  pub handle_sigchld : List (ℕ × WaitStatus) → Machine → Machine
  handle_sigchld [] m = m
  handle_sigchld ((pid, status) ∷ rest) m = handle_sigchld rest (reap_child pid status m)

  pub restart_due : ℕ → ℕ → Machine → Machine
  restart_due time i m =
      let (code, m1) = service_start k i m in
      if is_negative code then write i (λ s. record s { state = failed }) m1 else m1

  pub check_service : ℕ → ℕ → Machine → Machine
  unfolding restart_due
  check_service time i m = elim (get_elem? m.services i) [
    | none ↦ m
    | some s ↦ if is_restarting s.state && is_due time s then restart_due time i m else m
  ]

  -- The walk down the list, from position `i` on.
  pub check_from : ℕ → ℕ → ℕ → Machine → Machine
  check_from time zero i m = m
  check_from time (suc rounds) i m = check_from time rounds (i + 1) (check_service time i m)

  -- The state beside the machine is `g_last_check_time`.
  pub check_services : ℕ × Machine → ℕ × Machine
  unfolding check_from check_service
  check_services (last, m) =
      let time = k.clock m.trace in
      let m1 = call now m in
      if ltb (sub_u64 time last) check_interval_ns
      then (last, m1)
      else (time, check_from time (length m1.services) 0 m1)
