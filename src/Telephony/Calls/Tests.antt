-- ===== src/Telephony/Calls/Tests.antt =====
-- Three calls as they are hung up.
use lumi_os.Base.{ℕ, ◌/◌, ◌≡◌, refl, false, [], ◌∷◌, pos, codes, length}
use lumi_os.Telephony.Calls.{TelephonyCall, active, Phone, hangup_calls}
use lumi_os.Telephony.Calls.Shutdown.{length-hangup_calls}

abbrev a_call : ℕ → TelephonyCall
a_call id = record { state = active; number = codes "112"; call_id = pos id; multiparty = false }

abbrev three_calls : Phone
three_calls = record {
  airplane_mode = false;
  calls = a_call 1 ∷ a_call 2 ∷ a_call 3 ∷ [];
  sent = [];
}

length-hangup_calls_example : length (hangup_calls three_calls).calls ≡ 3 / 2
length-hangup_calls_example = length-hangup_calls three_calls (refl, (refl, (refl, tt)))
