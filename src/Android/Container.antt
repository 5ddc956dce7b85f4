-- ===== src/Android/Container.antt =====
-- The life of the container: container_init to container_destroy of
-- android-compat/container/src/container.c, and main.c over them.
--
-- `trace` is what the program has asked of the kernel, the latest call first; an answer may depend
-- on all of it. `pid_file` is the file /run/android-container.pid, with what fscanf reads from it.
pub mod State
pub mod Lost
pub mod Started
mod Tests
use lumi_os.Base.{
  ℕ, zero, suc, ◌+◌, ◌*◌, ◌/◌, ◌%◌, ◌^◌, Bool, true, false, not, ◌&&◌, ◌||◌, Option, none, some,
  List, [], ◌∷◌, ◌++◌, reverse, map, ℤ, pos, negsuc, neg, is_positive, eq_ℤ, atoi, Text, codes,
  text_eq, is_empty, ◌==◌, if◌then◌else◌, take,
}
use lumi_os.Android.Cgroup.{
  CgroupCall, ct_cgroup_create, ct_cgroup_set_limits, ct_cgroup_add_pid, ct_cgroup_destroy,
}

pub data CtState : Type 0 where
  stopped starting running stopping failed : CtState

-- ct_config_t; ns_flags is a word of 32 bits.
pub record CtConfig : Type 0 where
  pub ns_flags : ℕ
  pub share_network : Bool
  pub gpu_passthrough : Bool
  pub binder_enabled : Bool
  pub memory_limit : ℤ
  pub cpu_shares : ℤ
  pub hostname : Text

-- container_t, without the status pipe.
pub record Container : Type 0 where
  pub state : CtState
  pub config : CtConfig
  pub init_pid : ℤ

-- The CLONE_NEW* flags, and the signals.
pub data Namespace : Type 0 where
  new_ns new_pid new_ipc new_uts new_cgroup new_net : Namespace

pub data Signal : Type 0 where
  sigterm sigkill : Signal

-- WIFEXITED with its code, or another end.
pub data WaitStatus : Type 0 where
  exited : ℕ → WaitStatus
  otherwise : WaitStatus

pub data Call : Type 0 where
  pipe2 malloc read_status open_pid_file unlink_pid_file : Call
  cgroup : CgroupCall → Call
  clone : List Namespace → Call
  kill : ℤ → Signal → Call
  waitpid : ℤ → Bool → Call
  usleep : ℕ → Call

-- What the kernel answers after the calls listed. `cloned` is `none` where clone fails, and
-- `status_read` is what is read from the status pipe.
pub record Kernel : Type 0 where
  pub piped : List Call → Bool
  pub cgroup_made : List Call → Bool
  pub allocated : List Call → Bool
  pub cloned : List Call → Option ℕ
  pub status_read : List Call → Text
  pub pid_file_opened : List Call → Bool
  pub waited : List Call → ℤ × WaitStatus

pub record World : Type 0 where
  pub container : Container
  pub pid_file : Option (Option ℤ)
  pub trace : List Call

abbrev pub call : Call → World → World
call c m = record m { trace = c ∷ m.trace }

abbrev pub calls : List CgroupCall → World → World
calls cs m = record m { trace = reverse (map (λ c. cgroup c) cs) ++ m.trace }

abbrev pub set_state : CtState → World → World
set_state st m = let c = m.container in record m { container = record c { state = st } }

abbrev pub set_pid : ℤ → World → World
set_pid p m = let c = m.container in record m { container = record c { init_pid = p } }

abbrev pub ns_all : ℕ
ns_all = 95

-- flags & (1 << i)
abbrev has_flag : ℕ → ℕ → Bool
has_flag flags i = (flags / 2 ^ i) % 2 == 1

abbrev when : Bool → Namespace → List Namespace
when b n = if b then n ∷ [] else []

pub clone_flags : CtConfig → List Namespace
clone_flags c =
    when (has_flag c.ns_flags 0) new_ns
    ++ (when (has_flag c.ns_flags 1) new_pid
        ++ (when (has_flag c.ns_flags 3) new_ipc
            ++ (when (has_flag c.ns_flags 4) new_uts
                ++ (when (has_flag c.ns_flags 6) new_cgroup
                    ++ when (not c.share_network && has_flag c.ns_flags 2) new_net))))

abbrev pub android : Text
android = codes "android"

unfoldable pub container_init : CtConfig → Container
container_init config = record {
  state = stopped;
  config = record config {
    ns_flags = if config.ns_flags == 0 then ns_all else config.ns_flags;
    hostname = if is_empty config.hostname then android else config.hostname;
  };
  init_pid = neg 1;
}

-- strncmp(buf, "OK", 2) == 0
unfoldable pub says_ok : Text → Bool
says_ok s = text_eq (take 2 s) (codes "OK")

abbrev pub is_running : CtState → Bool
is_running running = true
is_running _ = false

-- The PID file is written where it can be opened.
abbrev pub write_pid : Bool → ℤ → World → World
write_pid true pid m = record m { pid_file = some (some pid) }
write_pid false pid m = m

module _ (k : Kernel) where
  -- From the handshake on.
  await_ready : ℤ → World → ℤ × World
  unfolding says_ok
  await_ready pid m0 =
      let m1 = call read_status m0 in
      if says_ok (k.status_read m0.trace)
      then (
        pos 0,
        write_pid (k.pid_file_opened m1.trace) pid (call open_pid_file (set_state running m1)),
      )
      else (neg 1, set_state failed m1)

  -- With the result of clone.
  started_as : Option ℕ → World → ℤ × World
  unfolding await_ready
  started_as none m = (neg 1, set_state failed m)
  started_as (some p) m =
      await_ready (pos p) (calls (ct_cgroup_add_pid android (pos p)) (set_pid (pos p) m))

  -- From the allocation of the stack on.
  spawn : World → ℤ × World
  unfolding started_as clone_flags
  spawn m0 =
      let m1 = call malloc m0 in
      let m2 = call (clone (clone_flags m0.container.config)) m1 in
      if not (k.allocated m0.trace)
      then (neg 1, set_state failed m1)
      else started_as (k.cloned m1.trace) m2

  create_cgroup : World → World
  create_cgroup m0 =
      let c = m0.container.config in
      let m1 = calls (ct_cgroup_create android (k.cgroup_made m0.trace)) m0 in
      if is_positive c.memory_limit || is_positive c.cpu_shares
      then calls (ct_cgroup_set_limits android c.memory_limit c.cpu_shares) m1
      else m1

  pub container_start : World → ℤ × World
  unfolding spawn create_cgroup
  container_start m0 =
      let m1 = set_state starting m0 in
      let m2 = call pipe2 m1 in
      if is_running m0.container.state
      then (pos 0, m0)
      else if not (k.piped m1.trace)
      then (neg 1, set_state failed m2)
      else spawn (create_cgroup m2)

  -- waitpid returns 0 where WNOHANG finds the process alive.
  pub end_process : ℤ → World → World
  end_process pid m0 =
      let m1 = call (kill pid sigterm) m0 in
      let m2 = call (waitpid pid true) m1 in
      let m3 = call (usleep 3000000) m2 in
      let m4 = call (waitpid pid true) m3 in
      if eq_ℤ (k.waited m1.trace).0 (pos 0)
      then (if eq_ℤ (k.waited m3.trace).0 (pos 0)
          then call (waitpid pid false) (call (kill pid sigkill) m4)
          else m4)
      else m2

  pub container_stop : World → ℤ × World
  unfolding end_process
  container_stop m0 =
      let pid = m0.container.init_pid in
      if not (is_running m0.container.state) || not (is_positive pid) then (pos 0, m0) else (
        pos 0,
        (let m1 = end_process pid (set_state stopping m0) in
            let m2 = call unlink_pid_file (set_pid (neg 1) (set_state stopped m1)) in
            calls (ct_cgroup_destroy android) (record m2 { pid_file = none })),
      )

  code_of : WaitStatus → ℤ
  code_of (exited n) = pos n
  code_of otherwise = neg 1

  pub container_wait : World → ℤ × World
  unfolding code_of
  container_wait m0 =
      let pid = m0.container.init_pid in
      if not (is_positive pid) then (pos 0, m0) else (
        code_of (k.waited m0.trace).1,
        set_pid (neg 1) (set_state stopped (call (waitpid pid false) m0)),
      )

  pub container_destroy : World → World
  unfolding container_stop
  container_destroy m = if is_running m.container.state then (container_stop m).1 else m
