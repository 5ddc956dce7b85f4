-- ===== src/Telephony/Radio/Sms.antt =====
-- system/services/telephonyd/src/sms.c.
pub mod Body
use lumi_os.Base.{
  strstr, contains, ℕ, ◌-◌, Bool, true, false, ◌&&◌, Option, none, some, List, [], ◌∷◌, ◌++◌, ℤ,
  pos, neg, Text, codes, split_at, if◌then◌else◌, ◌==◌, take, drop,
}
use lumi_os.Telephony.Radio.{Radio, Port, send, modem_send_at}

-- sms_pdu_t, as far as an incoming message fills it in.
pub record SmsPdu : Type 0 where
  pub sender : Text
  pub body : Text
  pub timestamp : ℕ
  pub pdu_type : ℕ

-- The header from "+CMGL:" on: the second quoted text, and the text that is left when a NUL is
-- written over the quote behind it. `none` where one of the four quotes is missing.
pub split_header : Text → Option (Text × Text)
split_header s = elim (split_at b'"' s) [
  | none ↦ none
  | some (a, s1) ↦ elim (split_at b'"' s1) [
    | none ↦ none
    | some (b, s2) ↦ elim (split_at b'"' s2) [
      | none ↦ none
      | some (c, s3) ↦ elim (split_at b'"' s3) [
        | none ↦ none
        | some (d, s4) ↦ some (d, a ++ b'"' ∷ (b ++ b'"' ∷ (c ++ b'"' ∷ d)))
      ]
    ]
  ]
]

abbrev pub crlf : Text
crlf = 13 ∷ 10 ∷ []

-- The text between the first two line ends, or behind the first.
is_crlf : Text → Bool
is_crlf (c ∷ d ∷ s) = c == 13 && d == 10
is_crlf (c ∷ []) = false
is_crlf [] = false

up_to_crlf : Text → Text
unfolding is_crlf
up_to_crlf [] = []
up_to_crlf (c ∷ s) = if is_crlf (c ∷ s) then [] else c ∷ up_to_crlf s

pub body_of : Text → Text
unfolding up_to_crlf
body_of s = elim (strstr crlf s) [ none ↦ [] | some rest ↦ up_to_crlf (drop 2 rest) ]

pub pdu_of : ℕ → Text → SmsPdu
unfolding split_header body_of
pdu_of now s = elim (split_header s) [
  | none ↦ record { sender = []; body = take 511 (body_of s); timestamp = now; pdu_type = 0 }
  | some (from, left) ↦ record {
    sender = take 31 from;
    body = take 511 (body_of left);
    timestamp = now;
    pdu_type = 0;
  }
]

module _ (p : Port) where
  -- The writes up to the first that fails.
  write_each : List Text → Radio → Bool × Radio
  write_each [] t = (true, t)
  write_each (s ∷ rest) t =
      let further = write_each rest (send s t) in if p.written t.sent then further else (false, t)

  send_text : Text → Text → Radio → ℤ × Radio
  unfolding write_each
  send_text number body t0 =
      let (mode, t1) = modem_send_at p (codes "AT+CMGF=1") 256 t0 in
      let cmd = take 63 (codes "AT+CMGS=\"" ++ number ++ codes "\"") in
      let (written, t2) = write_each (cmd ∷ (13 ∷ []) ∷ body ∷ (26 ∷ []) ∷ []) t1 in
      if written
      then (if contains (codes "OK") (take 255 (p.reads t2.sent 0))
          then (pos 0, t2)
          else (neg 1, t2))
      else (neg 1, t2)

  -- `none` is a NULL pointer.
  pub sms_send : Option Text → Option Text → Radio → ℤ × Radio
  unfolding send_text
  sms_send none body t = (neg 1, t)
  sms_send (some number) none t = (neg 1, t)
  sms_send (some number) (some body) t =
      if t.airplane_mode then (neg 1, t) else send_text number body t

  -- The message is `none` where *pdu is not written; `now` is time(NULL).
  pub sms_read_incoming : ℕ → Radio → ℤ × Option SmsPdu × Radio
  unfolding pdu_of
  sms_read_incoming now t0 =
      let (resp, t) = modem_send_at p (codes "AT+CMGL=\"REC UNREAD\"") 1024 t0 in
      elim resp [
        | none ↦ (neg 1, none, t)
        | some r ↦ elim (strstr (codes "+CMGL:") r) [
          | none ↦ (neg 1, none, t)
          | some s ↦ (pos 0, some (pdu_of now s), t)
        ]
      ]
