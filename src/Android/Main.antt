-- ===== src/Android/Main.antt =====
-- The command line of the container: android-compat/container/src/main.c.
--
-- A SIGTERM or SIGINT is taken to arrive while the program waits for the container, if it does. The
-- product of --memory is not cut to 64 bits.
pub mod PidFile
mod Tests
use lumi_os.Base.{
  ℕ, zero, suc, ◌+◌, ◌*◌, Bool, true, false, ◌||◌, Option, none, some, List, [], ◌∷◌, ℤ, pos,
  negsuc, neg, is_positive, is_negative, atoi, Text, codes, text_eq, if◌then◌else◌,
}
use lumi_os.Android.Container.{
  CtConfig, Kernel, World, kill, sigterm, call, ns_all, android, container_init, container_start,
  container_stop, container_wait,
}

pub data Shown : Type 0 where
  nothing usage version is_stopped : Shown
  is_running_as : ℤ → Shown

-- The exit status, what is printed to stdout or as usage, and the state.
pub record Ran : Type 0 where
  pub exit_status : ℤ
  pub shown : Shown
  pub after : World

abbrev pub ran : ℤ → Shown → World → Ran
ran c s m = record { exit_status = c; shown = s; after = m }

pub first_config : CtConfig
first_config = record {
  ns_flags = ns_all;
  share_network = false;
  gpu_passthrough = false;
  binder_enabled = false;
  memory_limit = neg 1;
  cpu_shares = pos 100;
  hostname = android;
}

times : ℕ → ℤ → ℤ
times k (pos n) = pos (k * n)
times k (negsuc n) = neg (k * suc n)

-- One option; --memory takes the next argument, where there is one.
plain_option : Text → CtConfig → CtConfig
plain_option o c =
    if text_eq o (codes "--share-net")
    then record c { share_network = true }
    else if text_eq o (codes "--gpu")
    then record c { gpu_passthrough = true }
    else c

pub read_options : List Text → CtConfig → CtConfig
unfolding plain_option times
read_options [] c = c
read_options (o ∷ []) c = plain_option o c
read_options (o ∷ v ∷ os) c =
    let memory = read_options os (record c { memory_limit = times 1048576 (atoi v) }) in
    let other = read_options (v ∷ os) (plain_option o c) in
    if text_eq o (codes "--memory") then memory else other

-- The signal that the PID file names the target of.
pub stop_running : Option (Option ℤ) → World → World
stop_running (some (some pid)) m = if is_positive pid then call (kill pid sigterm) m else m
stop_running (some none) m = m
stop_running none m = m

pub status_of : Option (Option ℤ) → Shown
status_of none = is_stopped
status_of (some none) = is_running_as (pos 0)
status_of (some (some pid)) = is_running_as pid

module _ (k : Kernel) where
  -- container_wait, or handle_signal in it.
  wait_or_stop : Bool → World → Ran
  wait_or_stop true m = ran (pos 0) nothing (container_stop k m).1
  wait_or_stop false m = let (code, m1) = container_wait k m in ran code nothing m1

  after_start : Bool → ℤ × World → Ran
  unfolding wait_or_stop
  after_start signalled (r, m) =
      if is_negative r then ran (pos 1) nothing m else wait_or_stop signalled m

  pub start_command : Bool → CtConfig → Option (Option ℤ) → World → Ran
  unfolding after_start
  start_command signalled config (some pid) m = ran (pos 1) nothing m
  start_command signalled config none m =
      after_start signalled (container_start k (record m { container = container_init config }))

  -- main, without argv[0]; whether a signal arrives while it waits.
  pub android_container : Bool → List Text → World → Ran
  unfolding start_command first_config
  android_container signalled [] m = ran (pos 1) usage m
  android_container signalled (cmd ∷ options) m =
      if text_eq cmd (codes "--help") || text_eq cmd (codes "-h")
      then ran (pos 0) usage m
      else if text_eq cmd (codes "--version") || text_eq cmd (codes "-v")
      then ran (pos 0) version m
      else if text_eq cmd (codes "start")
      then start_command signalled (read_options options first_config) m.pid_file m
      else if text_eq cmd (codes "stop")
      then ran (pos 0) nothing (stop_running m.pid_file m)
      else if text_eq cmd (codes "status")
      then ran (pos 0) (status_of m.pid_file) m
      else ran (pos 1) usage m
