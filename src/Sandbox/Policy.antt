-- ===== src/Sandbox/Policy.antt =====
-- sbx_policy_t of system/core/sandbox/include/sandbox.h, and the functions that fill it in:
-- seccomp_add_rule and the presets of seccomp.c, landlock_add_path of landlock.c, and
-- sbx_policy_default of sandbox.c.
--
-- The numbers of the system calls come from <sys/syscall.h>: the two lists of seccomp.c, up to the
-- -1 at their ends, are parameters.
pub mod Levels
use lumi_os.Base.{
  ℕ, ◌+◌, ◌*◌, Bool, true, false, List, [], ◌∷◌, ◌++◌, ℤ, pos, neg, Text, codes, if◌then◌else◌, leb,
  length, take,
}

pub data Level : Type 0 where
  unconfined trusted normal strict untrusted : Level

pub data Action : Type 0 where
  allow deny log : Action

pub record SyscallRule : Type 0 where
  pub nr : ℤ
  pub action : Action

pub record PathRule : Type 0 where
  pub path : Text
  pub flags : ℕ

pub record Policy : Type 0 where
  pub name : Text
  pub level : Level
  pub path_rules : List PathRule
  pub syscall_rules : List SyscallRule
  pub syscall_whitelist : Bool
  pub net_flags : ℕ
  pub ipc_flags : ℕ
  pub hw_flags : ℕ
  pub apparmor_profile : Text
  pub max_memory : ℕ
  pub max_pids : ℕ
  pub max_fds : ℕ
  pub max_cpu_pct : ℕ

abbrev pub max_path_rules : ℕ
max_path_rules = 64

abbrev pub max_syscall_rules : ℕ
max_syscall_rules = 128

-- SBX_FS_*, SBX_NET_*, SBX_IPC_* and SBX_HW_*; `|` of distinct bits is their sum.
abbrev pub fs_read : ℕ
fs_read = 1

abbrev pub fs_write : ℕ
fs_write = 2

abbrev pub fs_execute : ℕ
fs_execute = 4

abbrev pub fs_create : ℕ
fs_create = 8

abbrev pub net_full : ℕ
net_full = 255

abbrev pub net_tcp_connect : ℕ
net_tcp_connect = 1

abbrev pub net_dns : ℕ
net_dns = 8

abbrev pub ipc_pipe : ℕ
ipc_pipe = 1

abbrev pub ipc_socket : ℕ
ipc_socket = 2

abbrev pub ipc_shm : ℕ
ipc_shm = 4

abbrev pub ipc_dbus : ℕ
ipc_dbus = 8

-- seccomp_add_rule and landlock_add_path: -1, and no change, where the array is full.
unfoldable pub seccomp_add_rule : Policy → ℤ → Action → ℤ × Policy
seccomp_add_rule p nr action =
    if leb max_syscall_rules (length p.syscall_rules) then (neg 1, p) else (
      pos 0,
      record p { syscall_rules = p.syscall_rules ++ (record { nr = nr; action = action } ∷ []) },
    )

landlock_add_path : Policy → Text → ℕ → ℤ × Policy
landlock_add_path p path flags = if leb max_path_rules (length p.path_rules) then (neg 1, p) else (
  pos 0,
  record p { path_rules = p.path_rules ++ (record { path = take 255 path; flags = flags } ∷ []) },
)

-- The loop of a preset; the result codes are not read.
deny_each : List ℕ → Policy → Policy
unfolding seccomp_add_rule
deny_each [] p = p
deny_each (n ∷ ns) p = deny_each ns (seccomp_add_rule p (pos n) deny).1

-- The calls of landlock_add_path for one level.
add_paths : List (Text × ℕ) → Policy → Policy
unfolding landlock_add_path
add_paths [] p = p
add_paths ((path, flags) ∷ rest) p = add_paths rest (landlock_add_path p path flags).1

-- memset (policy, 0, sizeof (*policy)), with a level.
abbrev pub zeroed : Level → Policy
zeroed level = record {
  name = [];
  level = level;
  path_rules = [];
  syscall_rules = [];
  syscall_whitelist = false;
  net_flags = 0;
  ipc_flags = 0;
  hw_flags = 0;
  apparmor_profile = [];
  max_memory = 0;
  max_pids = 0;
  max_fds = 0;
  max_cpu_pct = 0;
}

module _ (blocked_normal blocked_strict : List ℕ) where
  pub seccomp_preset_normal : Policy → Policy
  unfolding deny_each
  seccomp_preset_normal p = deny_each blocked_normal (record p { syscall_whitelist = false })

  pub seccomp_preset_strict : Policy → Policy
  unfolding seccomp_preset_normal deny_each
  seccomp_preset_strict p = deny_each blocked_strict (seccomp_preset_normal p)

  pub sbx_policy_default : Level → Policy
  unfolding add_paths
  sbx_policy_default unconfined = record (zeroed unconfined) {
    net_flags = net_full;
    ipc_flags = ipc_pipe + ipc_socket + ipc_shm + ipc_dbus;
    hw_flags = 255;
  }
  sbx_policy_default trusted =
      let p =
        add_paths
          ((codes "/usr", fs_read + fs_execute)
            ∷ (codes "/etc", fs_read)
            ∷ (codes "/tmp", fs_read + fs_write + fs_create)
            ∷ [])
          (zeroed trusted) in
      record p {
        net_flags = net_full;
        ipc_flags = ipc_pipe + ipc_socket + ipc_dbus;
        hw_flags = 255;
      }
  sbx_policy_default normal =
      let p =
        add_paths
          ((codes "/usr", fs_read + fs_execute)
            ∷ (codes "/etc", fs_read)
            ∷ (codes "/tmp", fs_read + fs_write + fs_create)
            ∷ (codes "/dev/null", fs_read + fs_write)
            ∷ (codes "/dev/urandom", fs_read)
            ∷ [])
          (zeroed normal) in
      record (seccomp_preset_normal p) {
        net_flags = net_tcp_connect + net_dns;
        ipc_flags = ipc_pipe + ipc_dbus;
        hw_flags = 0;
        max_fds = 256;
        max_pids = 16;
      }
  sbx_policy_default strict =
      let p =
        add_paths
          ((codes "/usr", fs_read + fs_execute)
            ∷ (codes "/etc", fs_read)
            ∷ (codes "/dev/null", fs_read + fs_write)
            ∷ (codes "/dev/urandom", fs_read)
            ∷ [])
          (zeroed strict) in
      record (seccomp_preset_strict p) {
        net_flags = 0;
        ipc_flags = ipc_pipe;
        hw_flags = 0;
        max_fds = 64;
        max_pids = 4;
      }
  sbx_policy_default untrusted =
      let p =
        add_paths ((codes "/usr/lib", fs_read) ∷ (codes "/dev/null", fs_read + fs_write) ∷ [])
          (zeroed untrusted) in
      record (seccomp_preset_strict p) {
        net_flags = 0;
        ipc_flags = 0;
        hw_flags = 0;
        max_memory = 256 * 1024 * 1024;
        max_fds = 32;
        max_pids = 2;
        max_cpu_pct = 50;
      }
