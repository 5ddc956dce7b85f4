-- ===== src/Lumid/Early/Tests.antt =====
-- A boot under a kernel without cgroups.
use lumi_os.Base.{
  ◌≡◌, ◌⊎◌, refl, true, false, Bool, none, [], pos, Text, codes, text_eq, length, if◌then◌else◌,
}
use lumi_os.Lumid.Cgroup.{util_mkdir_p, cgroup_init}
use lumi_os.Lumid.Mount.{
  MountEntry, Answer, done, busy, refused, early_mounts, mount_initial_filesystems,
}
use lumi_os.Lumid.Mount.Initial.{steady, SomeFails}
use lumi_os.Lumid.Main.{lumid}
use lumi_os.Lumid.Early.{emergency_shell, runs, make_directories, directories, early_init, boot}
use lumi_os.Lumid.Early.Shell.{boot_iff}
use lumi_os.Lumid.Samples.{test_kernel}

abbrev all_exist : Text → Bool
all_exist path = true

abbrev without_cgroups : MountEntry → Answer
without_cgroups m = if text_eq m.fstype (codes "cgroup2") then refused else done

boot_iff_example :
    (SomeFails all_exist all_exist without_cgroups early_mounts
      × (boot
            (steady all_exist all_exist without_cgroups)
            all_exist
            false
            test_kernel
            false
            9
            none
            []
          ≡ emergency_shell))
    ⊎ ((¬ SomeFails all_exist all_exist without_cgroups early_mounts)
        × (boot
              (steady all_exist all_exist without_cgroups)
              all_exist
              false
              test_kernel
              false
              9
              none
              []
            ≡ runs (lumid test_kernel false 9 none [])))
boot_iff_example = boot_iff all_exist all_exist without_cgroups false test_kernel false 9 none []

no_cgroups :
    boot (steady all_exist all_exist without_cgroups) all_exist false test_kernel false 9 none []
    ≡ emergency_shell
unfolding boot early_init mount_initial_filesystems text_eq
no_cgroups = refl

-- A mount that is there already is not a failure, and the directories are made.
all_busy : (early_init (steady all_exist all_exist (λ m. busy)) all_exist true).result ≡ pos 0
unfolding early_init mount_initial_filesystems
all_busy = refl

calls : length (early_init (steady all_exist all_exist (λ m. busy)) all_exist true).calls ≡ 14
unfolding early_init mount_initial_filesystems make_directories directories cgroup_init util_mkdir_p
calls = refl
