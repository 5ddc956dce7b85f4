-- ===== src/Lumid/Supervisor/Tests.antt =====
-- The restart policy at concrete exits.
use lumi_os.Base.{◌≡◌, refl, ◌↔◌, arith}
use lumi_os.Lumid.Types.{stopped, failed, restarting}
use lumi_os.Lumid.Machine.{exited}
use lumi_os.Lumid.Lifecycle.{service_start}
use lumi_os.Lumid.Lifecycle.Outcome.{At}
use lumi_os.Lumid.Lifecycle.Tests.{web_starts}
use lumi_os.Lumid.Supervisor.{should_restart, exit_service, schedule}
use lumi_os.Lumid.Supervisor.Policy.{Wants, HasRetries, exit_service_lem, restart_never_exhausts}
use lumi_os.Lumid.Samples.{test_kernel, test_kernel-IsPosix, web, db, two_services}

exit_service_lem_example :
    (((schedule (exit_service (exited 1) 5 db)).state ≡ restarting)
      ↔ (Wants db.restart_policy (exited 1) × HasRetries db))
    × (((schedule (exit_service (exited 1) 5 db)).state ≡ failed)
        ↔ (Wants db.restart_policy (exited 1) × (¬ HasRetries db)))
    × (((schedule (exit_service (exited 1) 5 db)).state ≡ stopped)
        ↔ (¬ Wants db.restart_policy (exited 1)))
exit_service_lem_example = exit_service_lem db (exited 1) 5 tt

db_restarts : (schedule db).state ≡ restarting
unfolding schedule should_restart
db_restarts = refl

restart_never_exhausts_example :
    At 0
      (service_start test_kernel 0 two_services).1
      (λ t. (schedule (exit_service (exited 1) 5 t)).state ≡ restarting)
restart_never_exhausts_example =
    restart_never_exhausts test_kernel 0 web two_services (exited 1) 5 test_kernel-IsPosix refl
      (λ e. cc) web_starts tt (λ e. omega arith) refl
