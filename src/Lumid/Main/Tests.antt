-- ===== src/Lumid/Main/Tests.antt =====
-- A run of lumid: a boot with one unit file, a request, and SIGTERM.
use lumi_os.Base.{◌≡◌, refl, true, false, Option, some, List, ◌∷◌, [], codes, inl, inr}
use lumi_os.Lumid.Machine.{exited}
use lumi_os.Lumid.Lifecycle.Valid.{IsValid}
use lumi_os.Lumid.Ipc.{reboot}
use lumi_os.Lumid.Load.{Entry}
use lumi_os.Lumid.Config.Tests.{db_svc}
use lumi_os.Lumid.Main.{
  System, Signalled, child, shutdown, Event, signals, client, Round, interrupted, ready, event_loop,
  lumid,
}
use lumi_os.Lumid.Main.Valid.{lumid-IsValid}
use lumi_os.Lumid.Main.Shutdown.{event_loop_shuts}
use lumi_os.Lumid.Samples.{test_kernel, test_kernel-IsPosix, two_services}

abbrev directory : Option (List Entry)
directory = some ((codes "db.svc", some db_svc) ∷ [])

abbrev reboot_request : Event
reboot_request = client (some (some (record { cmd = reboot; service_name = [] })))

abbrev last_signals : List Signalled
last_signals = child ((2, exited 0) ∷ []) ∷ shutdown ∷ []

abbrev some_rounds : List Round
some_rounds = interrupted ∷ ready (reboot_request ∷ []) ∷ ready (signals last_signals ∷ []) ∷ []

lumid-IsValid_example : IsValid (lumid test_kernel false 9 directory some_rounds).machine
lumid-IsValid_example = lumid-IsValid test_kernel test_kernel-IsPosix false 9 directory some_rounds

abbrev two_running : System
two_running = record { machine = two_services; last_check = 0; is_on = true; reboot = false }

event_loop_shuts_example :
    event_loop test_kernel
      (ready (reboot_request ∷ signals last_signals ∷ []) ∷ some_rounds)
      two_running
    ≡ event_loop test_kernel (ready (reboot_request ∷ signals last_signals ∷ []) ∷ []) two_running
event_loop_shuts_example =
    event_loop_shuts test_kernel last_signals (reboot_request ∷ signals last_signals ∷ [])
      some_rounds two_running (inr (inl refl)) (inr (inl refl))
