-- ===== src/Telephony/Radio/Tests.antt =====
-- A modem that answers from a script.
use lumi_os.Base.{
  strstr, contains, ℕ, ◌≡◌, refl, true, false, some, [], ◌∷◌, ◌++◌, pos, Text, codes, take, atoi,
  if◌then◌else◌, ◌==◌, arith,
}
use lumi_os.Telephony.Radio.{
  absent, ready, not_registered, rat_unknown, SimInfo, Radio, Port, modem_send_at, read_response,
}
use lumi_os.Telephony.Radio.Network.{network_set_airplane, level_of, csq_of}
use lumi_os.Telephony.Radio.Connection.{data_connect}
use lumi_os.Telephony.Radio.Connection.Airplane.{data_connect-stale}
use lumi_os.Telephony.Radio.Sim.{sim_state_of}
use lumi_os.Telephony.Radio.Sms.{sms_read_incoming}
use lumi_os.Telephony.Radio.Sms.Body.{IsHeader, sms_read_incoming_lem}

abbrev no_sim : SimInfo
no_sim = record {
  state = absent;
  iccid = [];
  imsi = [];
  operator_name = [];
  operator_mcc = [];
  operator_mnc = [];
  phone_number = [];
  slot = 0;
}

abbrev connected : Radio
connected = record {
  modem = record { manufacturer = []; model = []; imei = [] };
  sim0 = no_sim;
  sim1 = no_sim;
  active_sim = 0;
  signal = record { tech = rat_unknown; rssi = pos 0; level = 0 };
  reg_state = not_registered;
  conn = record {
    active = true;
    apn = codes "internet";
    ip = codes "10.0.0.2";
    tech = rat_unknown;
    rx_bytes = 0;
    tx_bytes = 0;
  };
  airplane_mode = false;
  is_open = true;
  sent = [];
}

abbrev one_message : Text
one_message = codes "\r\n+CMGL: 1,\"REC UNREAD\",\"+861\",,\"26/01/01\"\r\nhello\r\nOK\r\n"

-- One read gives the whole answer.
abbrev one_read : Text → ℕ → Text
one_read s i = if i == 0 then s else []

abbrev script : Port
script = record { written = λ sent. true; reads = λ sent. one_read one_message }

not_ready_is_ready : sim_state_of (codes "\r\n+CPIN: NOT READY\r\n\r\nOK\r\n") ≡ ready
unfolding sim_state_of contains strstr
not_ready_is_ready = refl

no_signal : level_of (csq_of (codes "\r\n+CSQ: 99,99\r\n\r\nOK\r\n")) ≡ 5
unfolding level_of csq_of strstr atoi
no_signal = refl

data_connect-stale_example :
    let landed =
      (network_set_airplane script false (network_set_airplane script true connected).1).1 in
    (landed.conn ≡ connected.conn)
    × (data_connect script (codes "internet") landed ≡ (pos 0, landed))
data_connect-stale_example = data_connect-stale script (codes "internet") connected refl

abbrev listed : Radio
listed = record connected { sent = take 511 (codes "AT+CMGL=\"REC UNREAD\"\r") ∷ [] }

message_read :
    modem_send_at script (codes "AT+CMGL=\"REC UNREAD\"") 1024 connected
    ≡ (some one_message, listed)
unfolding modem_send_at read_response contains strstr
message_read = refl

abbrev behind : Text
behind = codes ",,\"26/01/01\"\r\nhello\r\nOK\r\n"

header_found :
    strstr (codes "+CMGL:") one_message
    ≡ some (
        codes "+CMGL: 1,"
        ++ b'"'
          ∷ (codes "REC UNREAD" ++ b'"' ∷ (codes "," ++ b'"' ∷ (codes "+861" ++ b'"' ∷ behind))))
unfolding strstr
header_found = refl

message-IsHeader : IsHeader (codes "+CMGL: 1,") (codes "REC UNREAD") (codes ",") (codes "+861")
message-IsHeader = record {
  quotes = (omega arith, omega arith, omega arith, omega arith);
  line = (omega arith, omega arith, omega arith, omega arith);
}

sms_read_incoming_lem_example : sms_read_incoming script 0 connected ≡ (
  pos 0,
  some (record { sender = take 31 (codes "+861"); body = []; timestamp = 0; pdu_type = 0 }),
  listed,
)
sms_read_incoming_lem_example =
    sms_read_incoming_lem script 0 connected listed one_message (codes "+CMGL: 1,")
      (codes "REC UNREAD") (codes ",") (codes "+861") behind message_read header_found
      message-IsHeader
