-- ===== src/Android/Main/PidFile.antt =====
-- What becomes of the PID file of the container.
use lumi_os.Base.{
  ℕ, ◌<◌, ◌≡◌, refl, ap, ◌∙◌, false, Option, none, some, List, [], ◌∷◌, ℤ, pos, Text, codes,
  text_eq, lt→ltb,
}
use lumi_os.Android.Container.{
  CtConfig, Kernel, World, call, kill, sigterm, container_init, container_start,
}
use lumi_os.Android.Container.Started.{
  Grants, Started, container_start-Started, pid_file-container_wait,
}
use lumi_os.Android.Main.{
  ran, nothing, is_running_as, start_command, after_start, wait_or_stop, android_container,
  stop_running, status_of, read_options, first_config,
}

module _ (k : Kernel) (p : ℕ) (g : Grants k p) where
  -- With the container started and at its end by itself.
  waited-file :
      (r : ℤ × World)
      → 0 < p
      → Started p r
      → (after_start k false r).after.pid_file ≡ some (some (pos p))
  unfolding after_start wait_or_stop
  waited-file (c, m) lt s = rw s.code (pid_file-container_wait k m p lt s.pid ∙ s.file)

  -- Where the kernel grants what a start asks for, and the container ends by itself with no signal to
  -- the program, `android-container start` leaves the PID file behind: `status` still says that the
  -- container runs, the next `start` exits with 1 and changes nothing, and `stop` sends SIGTERM to
  -- the process id of the container that has ended.
  pub start_command-stale :
      (config : CtConfig) (options : List Text) (m : World)
      → 0 < p
      → let left = (start_command k false config none m).after in
        (android_container k false (codes "status" ∷ []) left
          ≡ ran (pos 0) (is_running_as (pos p)) left)
        × (android_container k false (codes "start" ∷ options) left ≡ ran (pos 1) nothing left)
        × (android_container k false (codes "stop" ∷ []) left
            ≡ ran (pos 0) nothing (call (kill (pos p) sigterm) left))
  unfolding android_container start_command text_eq stop_running status_of
  start_command-stale config options m lt =
      let file : (start_command k false config none m).after.pid_file ≡ some (some (pos p)) =
        waited-file (container_start k (record m { container = container_init config })) lt
          (container_start-Started k p g _ (unfold container_init in refl)) in
      let left = (start_command k false config none m).after in
      (
        ap (λ (f : Option (Option ℤ)). ran (pos 0) (status_of f) left) file,
        ap
            (λ (f : Option (Option ℤ)).
              start_command k false (read_options options first_config) f left)
            file,
        ap (λ (f : Option (Option ℤ)). ran (pos 0) nothing (stop_running f left)) file
            ∙ (rw (lt→ltb 0 p lt) refl),
      )
