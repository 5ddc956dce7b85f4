-- ===== src/Lumid/Lumictl/Tests.antt =====
-- lumictl at a lumid with two services, and a short log.
use lumi_os.Base.{
  ◌≡◌, refl, true, Option, none, List, [], ◌∷◌, pos, Text, codes, text_eq, length, split_at, take,
}
use lumi_os.Lumid.Machine.{service_find}
use lumi_os.Lumid.Ipc.{enable}
use lumi_os.Lumid.Lumictl.{
  Output, loaded, columns, ran, ask, choose, lumictl, format_uptime, days, usage_of, run_command,
}
use lumi_os.Lumid.Lumictl.Log.{print_log, count_lines}
use lumi_os.Lumid.Lumictl.Status.{
  lumid_link, PrintsEach, MissingRan, lumictl_status_all, lumictl_missing,
}
use lumi_os.Lumid.Samples.{test_kernel, two_services, two_services-IsValid}

abbrev no_file : Text → Option Text
no_file path = none

uptime_shown : format_uptime 100000000000000 ≡ days 1 3 46 40
unfolding format_uptime
uptime_shown = refl

start_nothing :
    lumictl true no_file (lumid_link test_kernel two_services) (codes "start" ∷ [])
    ≡ ran (pos 1) (usage_of (codes "start") ∷ [])
unfolding lumictl run_command choose text_eq
start_nothing = refl

short_log : print_log (codes "one\ntwo") ≡ codes "one\ntwo"
unfolding print_log count_lines split_at
short_log = refl

lumictl_status_all_example :
    (rows : List Output) × (lumictl true no_file
        (lumid_link test_kernel two_services)
        (codes "status" ∷ [])
      ≡ ran (pos 0) (loaded (pos (length two_services.services)) ∷ columns ∷ rows))
    × PrintsEach two_services.services rows
lumictl_status_all_example =
    lumictl_status_all test_kernel two_services true no_file two_services-IsValid

dns_missing : service_find (take 63 (codes "dns")) two_services ≡ none
unfolding service_find text_eq
dns_missing = refl

enable_chosen : choose (codes "enable") (codes "dns") ≡ ask enable
unfolding choose text_eq
enable_chosen = refl

lumictl_missing_example :
    MissingRan enable (
      lumictl true no_file
        (lumid_link test_kernel two_services)
        (codes "enable" ∷ codes "dns" ∷ []))
lumictl_missing_example =
    lumictl_missing test_kernel two_services true no_file (codes "enable") (codes "dns") enable
      enable_chosen refl dns_missing
