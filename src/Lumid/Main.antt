-- ===== src/Lumid/Main.antt =====
-- system/core/lumid/src/main.c: the arguments, the boot, the event loop and the shutdown.
--
-- early_init stands in Lumid.Early. setup_signals and the set-up of epoll are calls of the kernel
-- that the model takes to succeed. What epoll_wait and the reads from the signalfd give is a list of rounds.
pub mod Valid
pub mod Shutdown
pub mod Tests
use lumi_os.Base.{
  ℕ, zero, suc, Bool, true, false, ◌&&◌, not, Option, none, some, List, [], ◌∷◌, ℤ, pos, neg,
  is_negative, Text, codes, text_eq, if◌then◌else◌,
}
use lumi_os.Lumid.Machine.{WaitStatus, Kernel, Machine}
use lumi_os.Lumid.Lifecycle.{service_start_all, service_stop_all}
use lumi_os.Lumid.Resolve.{service_resolve_deps}
use lumi_os.Lumid.Supervisor.{handle_sigchld, check_services}
use lumi_os.Lumid.Ipc.{Request, handle_request}
use lumi_os.Lumid.Load.{Entry, service_load_all}

abbrev pub service_dir : Text
service_dir = codes "/etc/lumid/services"

-- `g_running`, `g_reboot`, `g_last_check_time`, and the state of service.c.
pub record System : Type 0 where
  pub machine : Machine
  pub last_check : ℕ
  pub is_on : Bool
  pub reboot : Bool

-- SIGCHLD with the children that waitpid then reports, SIGTERM or SIGINT, SIGHUP with what the
-- service directory then holds, and any other signal.
pub data Signalled : Type 0 where
  child : List (ℕ × WaitStatus) → Signalled
  shutdown : Signalled
  hangup : Option (List Entry) → Signalled
  ignored : Signalled

-- A ready descriptor: the signalfd with all that is read from it, or the server socket with what
-- accept and then read give.
pub data Event : Type 0 where
  signals : List Signalled → Event
  client : Option (Option Request) → Event

-- One return of epoll_wait.
pub data Round : Type 0 where
  interrupted : Round
  broken : Round
  ready : List Event → Round

-- What main does with its arguments.
pub data Startup : Type 0 where
  must_be_init : Startup
  print_version : Startup
  run : Bool → Bool → Startup

read_args : List Text → Bool → Bool → Startup
read_args [] debug reboot = run debug reboot
read_args (a ∷ as_) debug reboot =
    let rest = read_args as_ (if text_eq a (codes "--debug") then true else debug) (
      if text_eq a (codes "--debug")
      then reboot
      else if text_eq a (codes "--reboot")
      then true
      else reboot) in
    if text_eq a (codes "--version") then print_version else rest

is_test : List Text → Bool
is_test [] = false
is_test (a ∷ as_) = text_eq a (codes "--test")

-- The arguments behind the program's name.
pub main_args : Bool → List Text → Startup
unfolding read_args is_test
main_args is_init args =
    if not is_init && not (is_test args) then must_be_init else read_args args false false

-- How shutdown_system leaves the machine: reboot (2) only as process 1.
pub data Halt : Type 0 where
  restarts : Halt
  powers_off : Halt
  exits : Halt

module _ (k : Kernel) where
  pub handle_signal : List Signalled → System → System
  handle_signal [] s = s
  handle_signal (child ended ∷ rest) s =
      handle_signal rest (record s { machine = handle_sigchld k ended s.machine })
  handle_signal (shutdown ∷ rest) s = handle_signal rest (record s { is_on = false })
  handle_signal (hangup entries ∷ rest) s =
      let (loaded, m1) = service_load_all service_dir entries s.machine in
      let (code, m2) = service_resolve_deps m1 in handle_signal rest (record s { machine = m2 })
  handle_signal (ignored ∷ rest) s = handle_signal rest s

  pub handle_event : Event → System → System
  unfolding handle_signal
  handle_event (signals l) s = handle_signal l s
  handle_event (client none) s = s
  handle_event (client (some req)) s = record s { machine = (handle_request k req s.machine).after }

  handle_events : List Event → System → System
  unfolding handle_event
  handle_events [] s = s
  handle_events (e ∷ es) s = handle_events es (handle_event e s)

  -- "Periodic service health check"
  pub health_check : System → System
  health_check s =
      let (last, m) = check_services k (s.last_check, s.machine) in
      record s { last_check = last; machine = m }

  pub event_loop : List Round → System → System
  unfolding handle_events health_check
  event_loop [] s = s
  event_loop (r ∷ rs) s = elim s.is_on [
    | false ↦ s
    | true ↦ elim r [
      | interrupted ↦ event_loop rs s
      | broken ↦ s
      | ready events ↦ event_loop rs (health_check (handle_events events s))
    ]
  ]

  pub load_and_start_services : Option (List Entry) → Machine → ℤ × Machine
  load_and_start_services entries m =
      let (loaded, m1) = service_load_all service_dir entries m in
      if is_negative loaded
      then (neg 1, m1)
      else (let (code, m2) = service_resolve_deps m1 in
          if is_negative code
          then (neg 1, m2)
          else (let (failures, m3) = service_start_all k m2 in (pos 0, m3)))

  pub shutdown_system : Bool → System → Halt × Machine
  shutdown_system is_init s =
      let m = service_stop_all k s.machine in
      (if is_init then (if s.reboot then restarts else powers_off) else exits, m)

abbrev pub no_services : Machine
no_services = record { services = []; service_count = 0; start_order = []; trace = [] }

-- main below the arguments, with the time of supervisor_init.
pub lumid : Kernel → Bool → ℕ → Option (List Entry) → List Round → System
unfolding load_and_start_services event_loop
lumid k reboot time entries rounds = event_loop k rounds (record {
  machine = (load_and_start_services k entries no_services).1;
  last_check = time;
  is_on = true;
  reboot = reboot;
})
