-- ===== src/Telephony/Radio/Start.antt =====
-- telephonyd_init of system/services/telephonyd/src/telephonyd.c, and modem_open of modem.c.
--
-- `opens` is whether a device can be opened and tcgetattr succeeds on it, and `port` is its serial
-- port, whose settings are left out.
mod Tests
use lumi_os.Base.{
  ◌≡◌, refl, ap, Bool, true, false, Option, none, some, List, [], ◌∷◌, ℤ, pos, neg, is_negative,
  Text, codes, take, if◌then◌else◌,
}
use lumi_os.Telephony.Radio.{
  Radio, Port, SimInfo, absent, not_registered, rat_unknown, modem_send_at,
}
use lumi_os.Telephony.Radio.Modem.{modem_get_info}
use lumi_os.Telephony.Radio.Sim.{sim_get_state, sim_get_info}

-- telephonyd_t without the calls: three more fields of `modem`, and `running`.
pub record Telephonyd : Type 0 where
  pub radio : Radio
  pub device_path : Text
  pub powered : Bool
  pub online : Bool
  pub running : Bool

abbrev no_sim : SimInfo
no_sim = record {
  state = absent;
  iccid = [];
  imsi = [];
  operator_name = [];
  operator_mcc = [];
  operator_mnc = [];
  phone_number = [];
  slot = 0;
}

-- After the memset and the assignments below it.
abbrev pub blank : Telephonyd
blank = record {
  radio = record {
    modem = record { manufacturer = []; model = []; imei = [] };
    sim0 = no_sim;
    sim1 = no_sim;
    active_sim = 0;
    signal = record { tech = rat_unknown; rssi = pos 0; level = 0 };
    reg_state = not_registered;
    conn = record {
      active = false;
      apn = [];
      ip = [];
      tech = rat_unknown;
      rx_bytes = 0;
      tx_bytes = 0;
    };
    airplane_mode = false;
    is_open = false;
    sent = [];
  };
  device_path = [];
  powered = false;
  online = false;
  running = false;
}

modem_paths : List Text
modem_paths =
    codes "/dev/ttyUSB0"
    ∷ codes "/dev/ttyUSB1"
    ∷ codes "/dev/ttyUSB2"
    ∷ codes "/dev/ttyACM0"
    ∷ codes "/dev/ttyACM1"
    ∷ codes "/dev/ttyHS0"
    ∷ codes "/dev/ttyHS1"
    ∷ []

module _ (opens : Text → Bool) (port : Text → Port) where
  -- What modem_open makes of the answer to "AT".
  answered : Text → Option Text × Radio → Telephonyd → ℤ × Telephonyd
  answered device (none, r) d =
      (neg 1, record d { radio = record r { is_open = false }; device_path = take 63 device })
  answered device (some resp, r) d =
      (pos 0, record d { radio = r; device_path = take 63 device; powered = true; online = true })

  pub modem_open : Text → Telephonyd → ℤ × Telephonyd
  unfolding answered
  modem_open device d = elim (opens device) [
    | false ↦ (neg 1, d)
    | true ↦
        answered device
          (modem_send_at (port device) (codes "AT") 256 (record d.radio { is_open = true })) d
  ]

  -- The loop over the paths, with the modem_get_info behind the first that can be opened.
  open_first : List Text → Telephonyd → Telephonyd
  unfolding modem_open
  open_first [] d = d
  open_first (device ∷ rest) d =
      let (code, d1) = modem_open device d in
      let later = open_first rest d1 in
      if is_negative code
      then later
      else record d1 { radio = (modem_get_info (port device) d1.radio).1 }

  -- The loop over the slots; sim_get_info asks only a SIM that is READY.
  read_sims : Telephonyd → Telephonyd
  read_sims d =
      let p = port d.device_path in
      let r0 = (sim_get_info p (pos 0) (sim_get_state p (pos 0) d.radio).1).1 in
      let r1 = (sim_get_info p (pos 1) (sim_get_state p (pos 1) r0).1).1 in record d { radio = r1 }

  -- The result is 0.
  pub telephonyd_init : Telephonyd
  unfolding open_first modem_paths read_sims
  telephonyd_init = record (read_sims (open_first modem_paths blank)) { running = true }

  modem_open-closed :
      (device : Text) (d : Telephonyd) → opens device ≡ false → modem_open device d ≡ (neg 1, d)
  unfolding modem_open
  modem_open-closed device d e = rw (e, modem_open) refl

  open_first-none :
      ((device : Text) → opens device ≡ false)
      → (devices : List Text) (d : Telephonyd) → open_first devices d ≡ d
  unfolding open_first
  open_first-none closed [] d = refl
  open_first-none closed (device ∷ rest) d =
      rw (modem_open-closed device d (closed device)) (open_first-none closed rest d)

  read_sims-absent : read_sims blank ≡ blank
  unfolding read_sims sim_get_state sim_get_info modem_send_at
  read_sims-absent = refl

  -- Without a device that can be opened, the daemon runs with what the memset left: nothing is
  -- sent, and both SIMs are absent.
  telephonyd_init_no_modem :
      ((device : Text) → opens device ≡ false) → telephonyd_init ≡ record blank { running = true }
  unfolding telephonyd_init
  telephonyd_init_no_modem closed =
      rw (open_first-none closed modem_paths blank)
        (ap (λ (d : Telephonyd). record d { running = true }) read_sims-absent)
