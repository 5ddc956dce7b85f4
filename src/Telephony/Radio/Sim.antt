-- ===== src/Telephony/Radio/Sim.antt =====
-- system/services/telephonyd/src/sim.c.
use lumi_os.Base.{
  contains, ℕ, Bool, true, false, Option, none, some, [], ◌∷◌, ◌++◌, ℤ, pos, neg, eq_ℤ, Text, codes,
  if◌then◌else◌, ltb, ◌==◌, length, take, drop,
}
use lumi_os.Telephony.Radio.{
  SimState, absent, not_ready, pin_required, puk_required, ready, SimInfo, Radio, Port, before,
  after, modem_send_at,
}

-- The slots 0 and 1.
pub data Slot : Type 0 where
  first second : Slot

pub slot_of : ℤ → Option Slot
slot_of slot =
    if eq_ℤ slot (pos 0) then some first else if eq_ℤ slot (pos 1) then some second else none

abbrev pub sim_of : Slot → Radio → SimInfo
sim_of first t = t.sim0
sim_of second t = t.sim1

abbrev pub set_sim : Slot → SimInfo → Radio → Radio
set_sim first s t = record t { sim0 = s }
set_sim second s t = record t { sim1 = s }

abbrev number_of : Slot → ℕ
number_of first = 0
number_of second = 1

unfoldable pub sim_state_of : Text → SimState
sim_state_of resp =
    if contains (codes "READY") resp
    then ready
    else if contains (codes "SIM PIN") resp
    then pin_required
    else if contains (codes "SIM PUK") resp
    then puk_required
    else not_ready

abbrev pub is_ready : SimState → Bool
is_ready ready = true
is_ready _ = false

abbrev pub is_pin_required : SimState → Bool
is_pin_required pin_required = true
is_pin_required _ = false

skip_blanks : Text → Text
skip_blanks [] = []
skip_blanks (c ∷ s) = if c == 32 then skip_blanks s else c ∷ s

-- The text between the first two quotes, or behind the first.
quoted : Text → Option Text
quoted s = elim (after b'"' s) [ none ↦ none | some rest ↦ some (before b'"' rest) ]

-- The second quoted text.
second_quoted : Text → Option Text
unfolding quoted
second_quoted s = elim (after b'"' s) [
  | none ↦ none
  | some rest ↦ elim (after b'"' rest) [ none ↦ none | some behind ↦ quoted behind ]
]

read_imsi : Option Text → SimInfo → SimInfo
read_imsi none s = s
read_imsi (some resp) s = elim (after 10 resp) [
  | none ↦ s
  | some line ↦
      let imsi = take 15 (before 13 line) in
      if ltb (length imsi) 5
      then record s { imsi = imsi }
      else record s { imsi = imsi; operator_mcc = take 3 imsi; operator_mnc = take 2 (drop 3 imsi) }
]

read_iccid : Option Text → SimInfo → SimInfo
unfolding skip_blanks
read_iccid none s = s
read_iccid (some resp) s = elim (after b':' resp) [
  | none ↦ s
  | some line ↦ record s { iccid = take 23 (before 13 (skip_blanks line)) }
]

read_operator : Option Text → SimInfo → SimInfo
unfolding quoted
read_operator none s = s
read_operator (some resp) s = elim (quoted resp) [
  | none ↦ s
  | some name ↦ record s { operator_name = take 63 name }
]

read_number : Option Text → SimInfo → SimInfo
unfolding second_quoted
read_number none s = s
read_number (some resp) s = elim (second_quoted resp) [
  | none ↦ s
  | some num ↦ record s { phone_number = take 31 num }
]

module _ (p : Port) where
  refresh_state : Slot → Radio → ℤ × Radio
  unfolding sim_state_of
  refresh_state slot t0 =
      let (resp, t) = modem_send_at p (codes "AT+CPIN?") 256 t0 in
      let s = sim_of slot t in
      elim resp [
        | none ↦ (neg 1, set_sim slot (record s { state = absent }) t)
        | some r ↦
            (pos 0, set_sim slot (record s { state = sim_state_of r; slot = number_of slot }) t)
      ]

  unfoldable pub sim_get_state : ℤ → Radio → ℤ × Radio
  unfolding refresh_state slot_of
  sim_get_state slot t = elim (slot_of slot) [ none ↦ (neg 1, t) | some i ↦ refresh_state i t ]

  enter_pin : Slot → Text → Radio → ℤ × Radio
  enter_pin slot pin t0 =
      let cmd = take 63 (codes "AT+CPIN=\"" ++ pin ++ codes "\"") in
      let (resp, t) = modem_send_at p cmd 256 t0 in
      let s = sim_of slot t in
      if is_pin_required (sim_of slot t0).state
      then elim resp [
        | none ↦ (neg 1, t)
        | some r ↦ (pos 0, set_sim slot (record s { state = ready }) t)
      ]
      else (neg 1, t0)

  pub sim_enter_pin : ℤ → Text → Radio → ℤ × Radio
  unfolding enter_pin slot_of
  sim_enter_pin slot pin t = elim (slot_of slot) [ none ↦ (neg 1, t) | some i ↦ enter_pin i pin t ]

  read_info : Slot → Radio → Radio
  unfolding read_imsi read_iccid read_operator read_number
  read_info slot t0 =
      let (imsi, t1) = modem_send_at p (codes "AT+CIMI") 256 t0 in
      let (iccid, t2) = modem_send_at p (codes "AT+CCID") 256 t1 in
      let (name, t3) = modem_send_at p (codes "AT+COPS?") 256 t2 in
      let (num, t4) = modem_send_at p (codes "AT+CNUM") 256 t3 in
      let s =
        read_number num (read_operator name (read_iccid iccid (read_imsi imsi (sim_of slot t0)))) in
      set_sim slot s t4

  unfoldable pub sim_get_info : ℤ → Radio → ℤ × Radio
  unfolding read_info slot_of
  sim_get_info slot t = elim (slot_of slot) [
    | none ↦ (neg 1, t)
    | some i ↦ if is_ready (sim_of i t).state then (pos 0, read_info i t) else (neg 1, t)
  ]

pub sim_switch : ℤ → Radio → ℤ × Radio
unfolding slot_of
sim_switch slot t = elim (slot_of slot) [
  | none ↦ (neg 1, t)
  | some i ↦
      if is_ready (sim_of i t).state
      then (pos 0, record t { active_sim = number_of i })
      else (neg 1, t)
]
