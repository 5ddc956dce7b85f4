-- ===== src/Lumid/Early.antt =====
-- early_init of system/core/lumid/src/main.c, and main from there on.
--
-- `mounted` is whether cgroup.controllers is there, and `made` whether a mkdir of util_mkdir_p
-- succeeds or fails with EEXIST. The results of sethostname, of the mkdirs and of the writes are not
-- read, nor is that of cgroup_init but for a message. setup_signals and supervisor_init are taken to
-- succeed.
pub mod Shell
mod Tests
use lumi_os.Base.{
  ℕ, Bool, Option, List, [], ◌∷◌, ◌++◌, ℤ, pos, neg, is_negative, Text, codes, if◌then◌else◌,
}
use lumi_os.Lumid.Machine.{Kernel}
use lumi_os.Lumid.Load.{Entry}
use lumi_os.Lumid.Cgroup.{CgroupCall, write_file, text, util_mkdir_p, cgroup_init}
use lumi_os.Lumid.Mount.{MountCall, MountKernel, mount_initial_filesystems}
use lumi_os.Lumid.Main.{System, Round, lumid}

-- The result of early_init, and what it asks of the kernel behind the mounts.
pub record Early : Type 0 where
  pub result : ℤ
  pub mounts : List MountCall
  pub calls : List CgroupCall

-- LUMID_RUNTIME_DIR, LUMID_LOG_DIR, and two more.
pub directories : List Text
directories = codes "/run/lumid" ∷ codes "/var/log/lumid" ∷ codes "/run/user" ∷ codes "/tmp" ∷ []

pub make_directories : (Text → Bool) → List Text → List CgroupCall
make_directories made [] = []
make_directories made (d ∷ ds) = (util_mkdir_p made d).1 ++ make_directories made ds

abbrev pub pid_file : Text
pid_file = codes "/run/lumid.pid"

pub early_init : MountKernel → (Text → Bool) → Bool → Early
unfolding make_directories directories
early_init k made mounted =
    let (code, t) = mount_initial_filesystems k [] in
    if is_negative code then record { result = neg 1; mounts = t; calls = [] } else record {
      result = pos 0;
      mounts = t;
      calls =
          make_directories made directories
          ++ (cgroup_init mounted made).1
          ++ write_file pid_file (text (codes "1\n")) ∷ [];
    }

-- main becomes the emergency shell, or it runs lumid.
pub data Boot : Type 0 where
  emergency_shell : Boot
  runs : System → Boot

pub boot :
    MountKernel → (Text → Bool) → Bool → Kernel → Bool → ℕ → Option (List Entry) → List Round → Boot
boot mk made mounted k reboot time entries rounds =
    if is_negative (early_init mk made mounted).result
    then emergency_shell
    else runs (lumid k reboot time entries rounds)
