-- ===== src/Telephony/Radio/Sms/Body.antt =====
-- The body of an incoming message.
use lumi_os.Base.{
  strstr, starts, ℕ, ◌≡◌, refl, ap, Option, none, some, [], ◌∷◌, ◌++◌, pos, Text, codes, Without,
  Without-append, split_at_first, take, arith,
}
use lumi_os.Telephony.Radio.{Radio, Port, modem_send_at}
use lumi_os.Telephony.Radio.Sms.{split_header, crlf, body_of, pdu_of, sms_read_incoming}

-- A header `a"b"c"d"` whose parts hold no quote and no carriage return.
pub record IsHeader (a b c d : Text) : Type 0 where
  pub quotes : Without b'"' a × Without b'"' b × Without b'"' c × Without b'"' d
  pub line : Without 13 a × Without 13 b × Without 13 c × Without 13 d

strstr-crlf : (s : Text) → Without 13 s → strstr crlf s ≡ none
unfolding strstr starts
strstr-crlf [] h = refl
strstr-crlf (c ∷ s) h = ground (arith, strstr-crlf s h.1, h.0)

body_of-none : (s : Text) → Without 13 s → body_of s ≡ []
unfolding body_of
body_of-none s h = rw (body_of, strstr-crlf s h) refl

split_header_lem :
    (a b c d rest : Text)
    → IsHeader a b c d
    → split_header (a ++ b'"' ∷ (b ++ b'"' ∷ (c ++ b'"' ∷ (d ++ b'"' ∷ rest))))
      ≡ some (d, a ++ b'"' ∷ (b ++ b'"' ∷ (c ++ b'"' ∷ d)))
unfolding split_header
split_header_lem a b c d rest h =
    let (qa, qb, qc, qd) = h.quotes in
    rw
      (
        split_header,
        split_at_first b'"' a (b ++ b'"' ∷ (c ++ b'"' ∷ (d ++ b'"' ∷ rest))) qa,
        split_at_first b'"' b (c ++ b'"' ∷ (d ++ b'"' ∷ rest)) qb,
        split_at_first b'"' c (d ++ b'"' ∷ rest) qc,
        split_at_first b'"' d rest qd,
      )
      refl

Without-header :
    (a b c d : Text) → IsHeader a b c d → Without 13 (a ++ b'"' ∷ (b ++ b'"' ∷ (c ++ b'"' ∷ d)))
Without-header a b c d h =
    let (la, lb, lc, ld) = h.line in
    Without-append 13 a _ la (
      λ e. omega arith,
      Without-append 13 b _ lb (λ e. omega arith, Without-append 13 c _ lc (λ e. omega arith, ld)),
    )

-- Of a message whose header, from "+CMGL:" on, has two quoted texts with no carriage return before
-- the end of the second, sms_read_incoming takes the first 31 bytes of the second as the sender and
-- leaves the body empty, whatever follows.
pub sms_read_incoming_lem :
    (p : Port) (now : ℕ) (t after : Radio) (resp a b c d rest : Text)
    → modem_send_at p (codes "AT+CMGL=\"REC UNREAD\"") 1024 t ≡ (some resp, after)
    → strstr (codes "+CMGL:") resp
      ≡ some (a ++ b'"' ∷ (b ++ b'"' ∷ (c ++ b'"' ∷ (d ++ b'"' ∷ rest))))
    → IsHeader a b c d
    → sms_read_incoming p now t ≡ (
      pos 0,
      some (record { sender = take 31 d; body = []; timestamp = now; pdu_type = 0 }),
      after,
    )
unfolding sms_read_incoming pdu_of
sms_read_incoming_lem p now t after resp a b c d rest m s h =
    let left = ap (λ (r : Option Text × Radio). r.1) m in
    let read = ap (λ (r : Option Text × Radio). r.0) m in
    let empty = body_of-none _ (Without-header a b c d h) in
    rw (read, sms_read_incoming, s, split_header_lem a b c d rest h, pdu_of, empty, left) refl
