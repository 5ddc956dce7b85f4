-- ===== src/Telephony/Radio.antt =====
-- What sim.c, network.c, data.c, sms.c and modem.c of system/services/telephonyd/src share: the
-- fields of telephonyd_t that they use, and modem_send_at.
--
-- The modem's end of the serial port is a parameter: what each `read` gives after the commands that
-- were sent before; an empty text stands for a read that gives nothing. A text from the modem has no
-- NUL byte.
pub mod Modem
pub mod Sim
pub mod Network
pub mod Connection
pub mod Sms
pub mod Start
mod Tests
use lumi_os.Base.{
  ℕ, zero, suc, ◌+◌, ◌-◌, Bool, true, false, ◌&&◌, ◌||◌, Option, none, some, List, [], ◌∷◌, ◌++◌, ℤ,
  pos, Text, codes, is_empty, split_at, contains, ◌==◌, ltb, if◌then◌else◌, length, take,
}

pub data SimState : Type 0 where
  absent not_ready pin_required puk_required ready error : SimState

pub data NetRegState : Type 0 where
  not_registered home searching denied unknown roaming : NetRegState

pub data RadioTech : Type 0 where
  rat_unknown gsm edge umts hspa hspap lte lte_ca nr nr_nsa : RadioTech

pub record SignalInfo : Type 0 where
  pub tech : RadioTech
  pub rssi : ℤ
  pub level : ℕ

pub record SimInfo : Type 0 where
  pub state : SimState
  pub iccid : Text
  pub imsi : Text
  pub operator_name : Text
  pub operator_mcc : Text
  pub operator_mnc : Text
  pub phone_number : Text
  pub slot : ℕ

pub record ModemInfo : Type 0 where
  pub manufacturer : Text
  pub model : Text
  pub imei : Text

pub record DataConn : Type 0 where
  pub active : Bool
  pub apn : Text
  pub ip : Text
  pub tech : RadioTech
  pub rx_bytes : ℕ
  pub tx_bytes : ℕ

-- `sim0` and `sim1` are the two elements of `sim`; `is_open` is whether modem_fd is not negative.
-- `sent` is what was written to the modem, the latest first.
pub record Radio : Type 0 where
  pub modem : ModemInfo
  pub sim0 : SimInfo
  pub sim1 : SimInfo
  pub active_sim : ℕ
  pub signal : SignalInfo
  pub reg_state : NetRegState
  pub conn : DataConn
  pub airplane_mode : Bool
  pub is_open : Bool
  pub sent : List Text

-- `written` is whether the write of a command succeeds; `reads` are what the following reads give.
pub record Port : Type 0 where
  pub written : List Text → Bool
  pub reads : List Text → ℕ → Text

abbrev pub send : Text → Radio → Radio
send cmd t = record t { sent = cmd ∷ t.sent }

-- The text up to the first `c`, or the whole: char *end = strchr(s, c); if (end) *end = '\0'
pub before : ℕ → Text → Text
before c s = elim (split_at c s) [ none ↦ s | some (first, rest) ↦ first ]

-- The text behind the first `c`.
pub after : ℕ → Text → Option Text
after c s = elim (split_at c s) [ none ↦ none | some (first, rest) ↦ some rest ]

is_final : Text → Bool
is_final s = contains (codes "OK") s || contains (codes "ERROR") s

-- The loop over the reads from the read `i` on, with `retries` left and what was read so far.
pub read_response : (ℕ → Text) → ℕ → ℕ → ℕ → Text → Text
unfolding is_final
read_response reads max zero i total = total
read_response reads max (suc retries) i total =
    let chunk = take (max - 1 - length total) (reads i) in
    let got = total ++ chunk in
    let further = read_response reads max retries (i + 1) got in
    if ltb (length total) (max - 1)
    then (if is_empty chunk then further else if is_final got then got else further)
    else total

module _ (p : Port) where
  -- The answer in `max` bytes with its NUL where modem_send_at returns 0, and `none` where it
  -- returns -1.
  unfoldable pub modem_send_at : Text → ℕ → Radio → Option Text × Radio
  unfolding read_response
  modem_send_at cmd max t =
      let line = take 511 (cmd ++ (13 ∷ [])) in
      let resp = read_response (p.reads (line ∷ t.sent)) max 20 0 [] in
      if t.is_open && p.written t.sent
      then (if contains (codes "OK") resp then some resp else none, send line t)
      else (none, t)
