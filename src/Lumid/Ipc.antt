-- ===== src/Lumid/Ipc.antt =====
-- socket_handle_request of system/core/lumid/src/socket.c: the commands that lumictl sends.
--
-- A message is kept as its format with its arguments, and what `write` sends to the client is a list
-- of responses. Their delivery is not modelled.
pub mod Replies
pub mod Valid
use lumi_os.Base.{
  ℕ, zero, suc, ◌+◌, ◌-◌, Bool, true, false, ◌&&◌, not, Option, none, some, List, [], ◌∷◌, ◌++◌, ℤ,
  pos, neg, eq_ℤ, Text, is_empty, ltb, if◌then◌else◌, get_elem?,
}
use lumi_os.Lumid.Types.{Service, SvcState, stopped, is_running}
use lumi_os.Lumid.Machine.{Kernel, Machine, now, kill_self, sigterm, call, write, service_find}
use lumi_os.Lumid.Lifecycle.{Returns, service_start, service_stop, service_restart}
use lumi_os.Lumid.Supervisor.{sub_u64}

-- ipc_cmd_t: the values 1 to 10, in this order, and any other.
pub data Command : Type 0 where
  start stop restart status status_all enable disable log poweroff reboot : Command
  other : ℕ → Command

pub record Request : Type 0 where
  pub cmd : Command
  pub service_name : Text

pub data Message : Type 0 where
  none_written invalid_request powering_off rebooting enabled disabled : Message
  not_found : Text → Message
  done failed : Command → Message
  state_of : SvcState → Message
  name_of : Text → Message
  loaded : ℕ → Message
  unknown_command : Command → Message

pub record Response : Type 0 where
  pub code : ℤ
  pub message : Message
  pub state : SvcState
  pub pid : ℤ
  pub exit_code : ℤ
  pub uptime : ℕ

-- memset (&resp, 0, sizeof (resp)), with a code and a message.
abbrev pub reply : ℤ → Message → Response
reply c msg = record {
  code = c;
  message = msg;
  state = stopped;
  pid = pos 0;
  exit_code = pos 0;
  uptime = 0;
}

-- The handler's result, what it sends, and the state that it leaves.
pub record Handled : Type 0 where
  pub result : ℤ
  pub sent : List Response
  pub after : Machine

-- The `write` at the end of the handler.
abbrev answer : Response → Machine → Handled
answer r m = record { result = pos 0; sent = r ∷ []; after = m }

-- START, STOP and RESTART.
operate : Command → Text → (ℕ → Machine → Returns) → Option ℕ → Machine → Handled
operate cmd name op none m = answer (reply (neg 1) (not_found name)) m
operate cmd name op (some p) m =
    let (code, m1) = op p m in
    answer (reply code (if eq_ℤ code (pos 0) then done cmd else failed cmd)) m1

-- ENABLE and DISABLE: without a service, the zeroed response is sent.
set_enabled : Bool → Message → Option ℕ → Machine → Handled
set_enabled b msg none m = answer (reply (pos 0) none_written) m
set_enabled b msg (some p) m =
    answer (reply (pos 0) msg) (write p (λ s. record s { enabled = b }) m)

-- POWEROFF and REBOOT: the main loop ends on the signal.
leave_loop : Message → Machine → Handled
leave_loop msg m = record {
  result = pos 0;
  sent = reply (pos 0) msg ∷ [];
  after = call (kill_self sigterm) m;
}

module _ (k : Kernel) where
  -- The clock is read only for a running service.
  report : ℤ → Message → Service → Machine → Response × Machine
  report c msg s m =
      let r : Response = record {
        code = c;
        message = msg;
        state = s.state;
        pid = s.pid;
        exit_code = s.exit_code;
        uptime = 0;
      } in
      if is_running s.state && ltb 0 s.start_time
      then (record r { uptime = sub_u64 (k.clock m.trace) s.start_time }, call now m)
      else (r, m)

  query_service : Text → Option Service → Machine → Handled
  query_service name none m = answer (reply (neg 1) (not_found name)) m
  query_service name (some s) m = let (r, m1) = report (pos 0) (state_of s.state) s m in answer r m1

  query : Text → Option ℕ → Machine → Handled
  unfolding query_service report
  query name none m = query_service name none m
  query name (some p) m = query_service name (get_elem? m.services p) m

  -- "Send individual service status"
  report_each : List Service → Machine → List Response × Machine
  report_each [] m = ([], m)
  report_each (s ∷ ss) m =
      let (r, m1) = report (pos 0) (name_of s.name) s m in
      let (rs, m2) = report_each ss m1 in (r ∷ rs, m2)

  query_all : Machine → Handled
  unfolding report_each report
  query_all m =
      let (rs, m1) = report_each m.services m in
      record {
        result = pos 0;
        sent = reply (pos m.service_count) (loaded m.service_count) ∷ rs;
        after = m1;
      }

  dispatch : Command → Text → Option ℕ → Machine → Handled
  unfolding operate set_enabled leave_loop query query_all
  dispatch start name svc m = operate start name (λ p n. service_start k p n) svc m
  dispatch stop name svc m = operate stop name (λ p n. service_stop k p n) svc m
  dispatch restart name svc m = operate restart name (λ p n. service_restart k p n) svc m
  dispatch status name svc m = query name svc m
  dispatch status_all name svc m = query_all m
  dispatch enable name svc m = set_enabled true enabled svc m
  dispatch disable name svc m = set_enabled false disabled svc m
  dispatch poweroff name svc m = leave_loop powering_off m
  dispatch reboot name svc m = leave_loop rebooting m
  dispatch log name svc m = answer (reply (neg 1) (unknown_command log)) m
  dispatch (other n) name svc m = answer (reply (neg 1) (unknown_command (other n))) m

  -- A read that does not give a whole request is `none`.
  pub handle_request : Option Request → Machine → Handled
  unfolding dispatch service_find
  handle_request none m = record {
    result = neg 1;
    sent = reply (neg 1) invalid_request ∷ [];
    after = m;
  }
  handle_request (some req) m =
      let svc = if is_empty req.service_name then none else service_find req.service_name m in
      dispatch req.cmd req.service_name svc m
