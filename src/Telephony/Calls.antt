-- ===== src/Telephony/Calls.antt =====
-- Call control: system/services/telephonyd/src/call.c, and the loop over the calls in
-- telephonyd_shutdown of telephonyd.c.
--
-- `calls` is the array with `num_calls`. What modem_send_at returns for a command, after those that
-- were sent before, is a parameter; a command is kept as its format with its argument.
pub mod Bound
pub mod Shutdown
mod Tests
use lumi_os.Base.{
  ℕ, zero, suc, ◌+◌, Bool, true, false, ◌||◌, Option, none, some, List, [], ◌∷◌, ◌++◌, ℤ, pos, neg,
  is_negative, eq_ℤ, Text, is_empty, if◌then◌else◌, ltb, length, get_elem?, take,
}

pub data CallState : Type 0 where
  idle dialing alerting incoming active held waiting released : CallState

pub record TelephonyCall : Type 0 where
  pub state : CallState
  pub number : Text
  pub call_id : ℤ
  pub multiparty : Bool

pub data AtCommand : Type 0 where
  dial : Text → AtCommand
  answer hang_up hold : AtCommand
  release : ℤ → AtCommand

pub record Phone : Type 0 where
  pub airplane_mode : Bool
  pub calls : List TelephonyCall
  pub sent : List AtCommand

abbrev pub max_calls : ℕ
max_calls = 8

send : AtCommand → Phone → Phone
send c t = record t { sent = c ∷ t.sent }

-- The loops over the array: the first call with the id, with its state set, or taken out.
pub set_state : ℤ → CallState → List TelephonyCall → Option (List TelephonyCall)
set_state id st [] = none
set_state id st (c ∷ cs) =
    let rest = set_state id st cs in
    if eq_ℤ c.call_id id
    then some (record c { state = st } ∷ cs)
    else elim rest [ none ↦ none | some cs' ↦ some (c ∷ cs') ]

pub remove : ℤ → List TelephonyCall → Option (List TelephonyCall)
remove id [] = none
remove id (c ∷ cs) =
    let rest = remove id cs in
    if eq_ℤ c.call_id id then some cs else elim rest [ none ↦ none | some cs' ↦ some (c ∷ cs') ]

-- The calls after such a loop, with 0, or -1 where no call has the id.
found : Option (List TelephonyCall) → Phone → ℤ × Phone
found none t = (neg 1, t)
found (some cs) t = (pos 0, record t { calls = cs })

-- "if (t->num_calls < 8)"
add_call : Text → Phone → Phone
add_call number t =
    if ltb (length t.calls) max_calls
    then record t {
      calls =
          t.calls
          ++ (record {
            state = dialing;
            number = take 31 number;
            call_id = pos (length t.calls + 1);
            multiparty = false;
          }
              ∷ []);
    }
    else t

module _ (reply : List AtCommand → AtCommand → ℤ) where
  pub call_originate : Text → Phone → ℤ × Phone
  unfolding send
  call_originate number t =
      if is_empty number
      then (neg 1, t)
      else if t.airplane_mode
      then (neg 1, t)
      else if is_negative (reply t.sent (dial number))
      then (neg 1, send (dial number) t)
      else (let t1 = add_call number (send (dial number) t) in (pos (length t1.calls), t1))

  pub call_answer : ℤ → Phone → ℤ × Phone
  unfolding send found
  call_answer id t =
      if is_negative (reply t.sent answer)
      then (neg 1, send answer t)
      else found (set_state id active t.calls) (send answer t)

  pub call_hold : ℤ → Phone → ℤ × Phone
  unfolding send found
  call_hold id t =
      if is_negative (reply t.sent hold)
      then (neg 1, send hold t)
      else found (set_state id held t.calls) (send hold t)

-- The modem's answers are not read.
pub call_hangup : ℤ → Phone → ℤ × Phone
unfolding send found
call_hangup id t = found (remove id t.calls) (send hang_up (send (release id) t))

abbrev pub is_up : CallState → Bool
is_up active = true
is_up dialing = true
is_up _ = false

-- The loop of telephonyd_shutdown from index `i` on; `rounds` are at least as many as are made.
pub hangup_from : ℕ → ℕ → Phone → Phone
unfolding call_hangup
hangup_from zero i t = t
hangup_from (suc rounds) i t = elim (get_elem? t.calls i) [
  | none ↦ t
  | some c ↦ hangup_from rounds (i + 1) (if is_up c.state then (call_hangup c.call_id t).1 else t)
]

pub hangup_calls : Phone → Phone
unfolding hangup_from
hangup_calls t = hangup_from (length t.calls) 0 t
