-- ===== src/Lumid/Child.antt =====
-- The child's side of service_start in system/core/lumid/src/service.c, up to its execl, with
-- util_drop_privileges of util.c.
--
-- What chdir, the user database and the calls that change the credentials answer is a parameter.
pub mod Privileges
mod Tests
use lumi_os.Base.{
  ℕ, Bool, true, false, ◌&&◌, not, Option, none, some, List, [], ◌∷◌, ℤ, pos, neg, is_negative,
  Text, is_empty, if◌then◌else◌,
}
use lumi_os.Lumid.Types.{Service, EnvVar}

pub record Passwd : Type 0 where
  pub uid : ℕ
  pub gid : ℕ

-- getpwnam, getgrnam, initgroups, setgid, setuid and chdir.
pub record Accounts : Type 0 where
  pub passwd : Text → Option Passwd
  pub group : Text → Option ℕ
  pub init_groups : Text → ℕ → ℤ
  pub set_gid : ℕ → ℤ
  pub set_uid : ℕ → ℤ
  pub change_dir : Text → ℤ

-- The credentials of a process; `groups` is what initgroups has set, if it has.
pub record Credentials : Type 0 where
  pub uid : ℕ
  pub gid : ℕ
  pub groups : Option (Text × ℕ)

module _ (a : Accounts) where
  -- "Set group": a group that is not found leaves the user's own.
  pub group_of : Text → Passwd → ℕ
  group_of group pw =
      if is_empty group then pw.gid else elim (a.group group) [ none ↦ pw.gid | some gid ↦ gid ]

  -- From the supplementary groups on.
  pub set_ids : Text → ℕ → ℕ → Credentials → ℤ × Credentials
  set_ids user uid gid c =
      let c1 =
        if is_negative (a.init_groups user gid)
        then c
        else record c { groups = some (user, gid) } in
      if is_negative (a.set_gid gid)
      then (neg 1, c1)
      else if is_negative (a.set_uid uid)
      then (neg 1, record c1 { gid = gid })
      else (pos 0, record c1 { gid = gid; uid = uid })

  pub drop_privileges : Text → Text → Credentials → ℤ × Credentials
  unfolding group_of set_ids
  drop_privileges user group c = if is_empty user then (pos 0, c) else elim (a.passwd user) [
    | none ↦ (neg 1, c)
    | some pw ↦ set_ids user pw.uid (group_of group pw) c
  ]

-- What the child is when it calls execl: the descriptor that its output goes to (`none` is what it
-- inherits), the variables that it has set, in order, its directory, if it has changed it, and
-- its credentials. With arguments, a shell runs them.
pub data Program : Type 0 where
  shell : Text → Program
  binary : Text → Program

pub record Running : Type 0 where
  pub output : Option ℤ
  pub env : List EnvVar
  pub directory : Option Text
  pub credentials : Credentials
  pub program : Program

pub data Child : Type 0 where
  exits : ℕ → Child
  execs : Running → Child

-- The service is as it stands after its log file is opened.
pub at_exec : Accounts → Service → Credentials → Running
unfolding drop_privileges
at_exec a s c = record {
  output = if is_negative s.log_fd then none else some s.log_fd;
  env = s.env;
  directory = if is_empty s.working_dir then none else some s.working_dir;
  credentials = if is_empty s.user then c else (drop_privileges a s.user s.group c).1;
  program = if is_empty s.exec_args then binary s.exec_path else shell s.exec_args;
}

pub child_process : Accounts → Service → Credentials → Child
unfolding at_exec
child_process a s c =
    if not (is_empty s.working_dir) && is_negative (a.change_dir s.working_dir)
    then exits 127
    else execs (at_exec a s c)
