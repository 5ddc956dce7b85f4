-- ===== src/Lumid/Lumictl.antt =====
-- The client lumictl: system/core/lumid/src/lumictl.c.
--
-- `link` is what the socket does with a request, and `log_of` gives the bytes of a file. A printed line is
-- kept as its format with its arguments; what the functions of socket.c print is left out.
pub mod Log
pub mod Status
mod Tests
use lumi_os.Base.{
  ℕ, zero, suc, ◌+◌, ◌-◌, ◌/◌, ◌%◌, Bool, true, false, ◌&&◌, not, Option, none, some, List, [], ◌∷◌,
  ◌++◌, ℤ, pos, negsuc, neg, is_positive, is_negative, eq_ℤ, Text, codes, text_eq, is_empty, ltb,
  if◌then◌else◌, take,
}
use lumi_os.Lumid.Types.{
  SvcState, stopped, starting, running, stopping, failed, restarting, max_name_len, max_path_len,
}
use lumi_os.Lumid.Lifecycle.{log_path_of}
use lumi_os.Lumid.Ipc.{
  Command, start, stop, restart, status, status_all, enable, disable, log, poweroff, reboot, other,
  Request, Response, Message, name_of,
}
use lumi_os.Lumid.Lumictl.Log.{util_read_file, print_log}

-- The four formats of format_uptime.
pub data Uptime : Type 0 where
  days : ℕ → ℕ → ℕ → ℕ → Uptime
  hours : ℕ → ℕ → ℕ → Uptime
  minutes : ℕ → ℕ → Uptime
  seconds : ℕ → Uptime

pub format_uptime : ℕ → Uptime
format_uptime ns =
    let sec = ns / 1000000000 in
    let min = sec / 60 in
    let hr = min / 60 in
    let day = hr / 24 in
    if ltb 0 day
    then days day (hr % 24) (min % 60) (sec % 60)
    else if ltb 0 hr
    then hours hr (min % 60) (sec % 60)
    else if ltb 0 min
    then minutes min (sec % 60)
    else seconds sec

pub data Colour : Type 0 where
  no_colour green red yellow grey : Colour

pub colour_of : Bool → SvcState → Colour
colour_of false state = no_colour
colour_of true running = green
colour_of true failed = red
colour_of true restarting = yellow
colour_of true stopped = grey
colour_of true starting = grey
colour_of true stopping = grey

-- What print_status writes behind the name and the state.
pub data Info : Type 0 where
  nothing : Info
  running_as : ℤ → Option Uptime → Info
  exited : ℤ → Info

exit_info : ℤ → Info
exit_info code = if eq_ℤ code (neg 1) then nothing else exited code

info_of : SvcState → Response → Info
unfolding exit_info
info_of running r =
    if is_positive r.pid
    then running_as r.pid (if ltb 0 r.uptime then some (format_uptime r.uptime) else none)
    else nothing
info_of failed r = exit_info r.exit_code
info_of stopped r = exit_info r.exit_code
info_of starting r = nothing
info_of stopping r = nothing
info_of restarting r = nothing

pub data Output : Type 0 where
  usage unreachable columns : Output
  usage_of no_such_command no_log : Text → Output
  content : Text → Output
  loaded : ℤ → Output
  service : Text → Output
  row : Message → Colour → SvcState → Info → Output
  message failure error_message : Message → Output

pub print_status : Bool → Message → Response → Output
unfolding info_of
print_status tty name r = row name (colour_of tty r.state) r.state (info_of r.state r)

-- The exit status, and what is printed, in order.
pub record Ran : Type 0 where
  pub exit_status : ℤ
  pub printed : List Output

abbrev pub ran : ℤ → List Output → Ran
ran c out = record { exit_status = c; printed = out }

-- The file is `none` where it cannot be opened or read.
unfoldable pub show_log : Text → Option Text → Ran
unfolding util_read_file
show_log name file = elim (util_read_file file) [
  | none ↦ ran (neg 1) (no_log name ∷ [])
  | some bytes ↦ ran (pos 0) (content (print_log bytes) ∷ [])
]

-- socket_client_connect fails, socket_send_request fails, or the responses can be read that follow.
pub data Exchange : Type 0 where
  refused unsent : Exchange
  received : List Response → Exchange

-- What main makes of its command.
pub data Choice : Type 0 where
  ask : Command → Choice
  without_service without_command : Choice

needs_service : Command → Text → Choice
needs_service cmd svc = if is_empty svc then without_service else ask cmd

pub choose : Text → Text → Choice
unfolding needs_service
choose cmd svc =
    if text_eq cmd (codes "start")
    then needs_service start svc
    else if text_eq cmd (codes "stop")
    then needs_service stop svc
    else if text_eq cmd (codes "restart")
    then needs_service restart svc
    else if text_eq cmd (codes "status")
    then ask (if is_empty svc then status_all else status)
    else if text_eq cmd (codes "enable")
    then ask enable
    else if text_eq cmd (codes "disable")
    then ask disable
    else if text_eq cmd (codes "poweroff")
    then ask poweroff
    else if text_eq cmd (codes "reboot")
    then ask reboot
    else without_command

-- The loop over `count` services: it ends where a response cannot be read.
pub read_each : Bool → ℕ → List Response → List Output
read_each tty zero rs = []
read_each tty (suc n) [] = []
read_each tty (suc n) (r ∷ rs) = print_status tty r.message r ∷ read_each tty n rs

-- "for (int i = 0; i < count; i++)": none for a negative count.
abbrev rounds : ℤ → ℕ
rounds (pos n) = n
rounds (negsuc n) = 0

show_all : Bool → Response → List Response → Ran
unfolding read_each
show_all tty r rs = ran (pos 0) (loaded r.code ∷ columns ∷ read_each tty (rounds r.code) rs)

show_one : Bool → Text → Response → Ran
show_one tty svc r =
    if is_negative r.code
    then ran (pos 1) (failure r.message ∷ [])
    else ran (pos 0) (service svc ∷ print_status tty (name_of svc) r ∷ [])

show_result : Response → Ran
show_result r =
    if is_negative r.code
    then ran (pos 1) (error_message r.message ∷ [])
    else ran (pos 0) (message r.message ∷ [])

pub show_response : Bool → Command → Text → Response → List Response → Ran
unfolding show_all show_one show_result
show_response tty status_all svc r rs = show_all tty r rs
show_response tty status svc r rs = show_one tty svc r
show_response tty start svc r rs = show_result r
show_response tty stop svc r rs = show_result r
show_response tty restart svc r rs = show_result r
show_response tty enable svc r rs = show_result r
show_response tty disable svc r rs = show_result r
show_response tty log svc r rs = show_result r
show_response tty poweroff svc r rs = show_result r
show_response tty reboot svc r rs = show_result r
show_response tty (other n) svc r rs = show_result r

pub receive : Bool → Command → Text → Exchange → Ran
receive tty cmd svc refused = ran (pos 1) (unreachable ∷ [])
receive tty cmd svc unsent = ran (pos 1) []
receive tty cmd svc (received []) = ran (pos 1) []
receive tty cmd svc (received (r ∷ rs)) = show_response tty cmd svc r rs

module _ (tty : Bool) (log_of : Text → Option Text) (link : Request → Exchange) where
  answer_choice : Text → Text → Choice → Ran
  answer_choice cmd svc without_command = ran (pos 1) (no_such_command cmd ∷ usage ∷ [])
  answer_choice cmd svc without_service = ran (pos 1) (usage_of cmd ∷ [])
  answer_choice cmd svc (ask c) =
      receive tty c svc (link (record { cmd = c; service_name = take (max_name_len - 1) svc }))

  unfoldable pub run_command : Text → Text → Ran
  unfolding answer_choice
  run_command cmd svc =
      if text_eq cmd (codes "log")
      then (if is_empty svc
          then ran (pos 1) (usage_of cmd ∷ [])
          else show_log svc (log_of (take (max_path_len - 1) (log_path_of svc))))
      else answer_choice cmd svc (choose cmd svc)

  -- main, without argv[0].
  unfoldable pub lumictl : List Text → Ran
  unfolding run_command
  lumictl [] = ran (pos 1) (usage ∷ [])
  lumictl (cmd ∷ []) = run_command cmd []
  lumictl (cmd ∷ svc ∷ rest) = run_command cmd svc
