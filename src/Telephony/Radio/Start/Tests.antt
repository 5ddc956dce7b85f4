-- ===== src/Telephony/Radio/Start/Tests.antt =====
-- A start with one modem, whose SIM is ready.
use lumi_os.Base.{
  ◌≡◌, refl, Bool, true, Text, codes, text_eq, if◌then◌else◌, ◌==◌, strstr, contains, split_at, [],
}
use lumi_os.Telephony.Radio.{Port, ready, modem_send_at, read_response, after}
use lumi_os.Telephony.Radio.Modem.{modem_get_info}
use lumi_os.Telephony.Radio.Sim.{sim_get_state, sim_get_info, sim_state_of}
use lumi_os.Telephony.Radio.Start.{modem_open, telephonyd_init}

abbrev is_acm : Text → Bool
is_acm device = text_eq device (codes "/dev/ttyACM0")

abbrev one_answer : Text → Port
one_answer device = record {
  written = λ sent. true;
  reads = λ sent i. if i == 0 then codes "+CPIN: READY OK" else [];
}

found : (telephonyd_init is_acm one_answer).device_path ≡ codes "/dev/ttyACM0"
unfolding telephonyd_init modem_open modem_send_at modem_get_info read_response contains strstr
    text_eq sim_get_state sim_get_info sim_state_of split_at
found = refl

-- Both slots are given the one SIM.
second_ready : (telephonyd_init is_acm one_answer).radio.sim1.state ≡ ready
unfolding telephonyd_init modem_open modem_send_at modem_get_info read_response contains strstr
    text_eq sim_get_state sim_get_info sim_state_of split_at after
second_ready = refl
