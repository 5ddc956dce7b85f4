-- ===== src/Lumid/Lifecycle/Tests.antt =====
-- Starting, stopping and restarting at concrete services.
use lumi_os.Base.{◌≡◌, refl, pos, inl}
use lumi_os.Lumid.Types.{restarting}
use lumi_os.Base.{text_eq}
use lumi_os.Lumid.Machine.{write, service_find, find_index}
use lumi_os.Lumid.Lifecycle.{
  requires_running, set_state, launch, start_service, service_start, service_stop, restart_sleep,
  service_restart, service_stop_all,
}
use lumi_os.Lumid.Lifecycle.Outcome.{Launch, service_start-Launch, service_stop_idle}
use lumi_os.Lumid.Lifecycle.Restart.{kills, service_restart-kills}
use lumi_os.Lumid.Lifecycle.StopAll.{IsDownAt, service_stop_all-IsDownAt}
use lumi_os.Lumid.Samples.{test_kernel, test_kernel-IsPosix, web, db, two_services}

pub web_starts : (service_start test_kernel 0 two_services).0 ≡ pos 0
unfolding service_start start_service launch requires_running service_find find_index write text_eq
web_starts = refl

service_start-Launch_example : Launch web 0 (service_start test_kernel 0 two_services)
service_start-Launch_example =
    service_start-Launch test_kernel 0 web two_services test_kernel-IsPosix refl (λ e. cc)

service_stop_idle_example : service_stop test_kernel 0 two_services ≡ (pos 0, two_services)
service_stop_idle_example = service_stop_idle test_kernel 0 web two_services refl refl

service_restart-kills_example :
    (service_restart test_kernel 1 two_services
      ≡ service_start test_kernel 1 (
          restart_sleep test_kernel db.restart_delay_ms
            (write 1 (set_state restarting) two_services)))
    × (kills (service_restart test_kernel 1 two_services).1.trace ≡ kills two_services.trace)
service_restart-kills_example = service_restart-kills test_kernel 1 db two_services refl

service_stop_all-IsDownAt_example : IsDownAt 1 (service_stop_all test_kernel two_services)
service_stop_all-IsDownAt_example = service_stop_all-IsDownAt test_kernel two_services 1 (inl refl)
