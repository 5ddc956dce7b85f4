-- ===== src/Android/Main/Tests.antt =====
-- The command line on a kernel that grants all.
use lumi_os.Base.{◌≡◌, refl, true, false, none, some, [], ◌∷◌, pos, codes, text_eq, atoi, arith}
use lumi_os.Android.Container.{exited, Kernel, World, call, kill, sigterm, container_init, says_ok}
use lumi_os.Android.Container.Started.{Grants}
use lumi_os.Android.Main.{
  ran, nothing, is_running_as, first_config, read_options, start_command, android_container,
}
use lumi_os.Android.Main.PidFile.{start_command-stale}

abbrev willing : Kernel
willing = record {
  piped = λ t. true;
  cgroup_made = λ t. true;
  allocated = λ t. true;
  cloned = λ t. some 42;
  status_read = λ t. codes "OK";
  pid_file_opened = λ t. true;
  waited = λ t. (pos 42, exited 0);
}

willing-Grants : Grants willing 42
unfolding says_ok text_eq
willing-Grants = record {
  piped = λ t. refl;
  allocated = λ t. refl;
  cloned = λ t. refl;
  reports = λ t. refl;
  opened = λ t. refl;
}

abbrev fresh : World
fresh = record { container = container_init first_config; pid_file = none; trace = [] }

memory_read :
    (read_options (codes "--gpu" ∷ codes "--memory" ∷ codes "2" ∷ []) first_config).memory_limit
    ≡ pos 2097152
unfolding read_options text_eq atoi
memory_read = refl

start_command-stale_example :
    (android_container willing false
        (codes "status" ∷ [])
        (start_command willing false first_config none fresh).after
      ≡ ran
          (pos 0)
          (is_running_as (pos 42))
          (start_command willing false first_config none fresh).after)
    × (android_container willing false
          (codes "start" ∷ [])
          (start_command willing false first_config none fresh).after
        ≡ ran (pos 1) nothing (start_command willing false first_config none fresh).after)
    × (android_container willing false
          (codes "stop" ∷ [])
          (start_command willing false first_config none fresh).after
        ≡ ran (pos 0) nothing (
            call
              (kill (pos 42) sigterm)
              (start_command willing false first_config none fresh).after))
start_command-stale_example =
    start_command-stale willing 42 willing-Grants first_config [] fresh (omega arith)
