-- ===== src/Telephony/Radio/Connection/Airplane.antt =====
-- The data connection across the airplane mode.
use lumi_os.Base.{
  ℕ, ◌≡◌, refl, ap, codes, ◌∙◌, inl, inr, true, false, ◌&&◌, pos, Text, is_negative, Bool-cases,
}
use lumi_os.Telephony.Radio.{DataConn, Radio, Port, modem_send_at}
use lumi_os.Telephony.Radio.Modem.{result}
use lumi_os.Telephony.Radio.Network.{network_register, network_set_airplane}
use lumi_os.Telephony.Radio.Connection.{data_connect}

-- The same connection and the same airplane mode.
record Same (t u : Radio) : Type 0 where
  conn : u.conn ≡ t.conn
  airplane : u.airplane_mode ≡ t.airplane_mode

then_Same : {t u v : Radio} → Same t u → Same u v → Same t v
then_Same a b = record { conn = b.conn ∙ a.conn; airplane = b.airplane ∙ a.airplane }

module _ (p : Port) where
  modem_send_at-Same : (cmd : Text) (max : ℕ) (t : Radio) → Same t (modem_send_at p cmd max t).1
  unfolding modem_send_at
  modem_send_at-Same cmd max t = elim (Bool-cases (t.is_open && p.written t.sent)) [
    | inl e ↦ rw (e, modem_send_at) (record { conn = refl; airplane = refl })
    | inr e ↦ rw (e, modem_send_at) (record { conn = refl; airplane = refl })
  ]

  network_register-Same : (t : Radio) → Same t (network_register p t).1
  unfolding network_register
  network_register-Same t =
      let r1 = modem_send_at p (codes "AT+CREG=1") 256 t in
      let r2 = modem_send_at p (codes "AT+COPS=0") 256 r1.1 in
      let s1 = modem_send_at-Same (codes "AT+CREG=1") 256 t in
      let s2 = then_Same s1 (modem_send_at-Same (codes "AT+COPS=0") 256 r1.1) in
      elim (Bool-cases (is_negative (result r1.0))) [
        | inl e ↦ rw (e, network_register) s1
        | inr e ↦ elim (Bool-cases (is_negative (result r2.0))) [
          | inl f ↦ rw (e, f, network_register) s2
          | inr f ↦ rw (e, f, network_register) (record { conn = s2.conn; airplane = s2.airplane })
        ]
      ]

-- A data connection that is up when the airplane mode is switched on counts as up after it has been
-- switched off again, whatever the modem answers: data_connect
-- returns 0, sends nothing and changes nothing.
pub data_connect-stale :
    (p : Port) (apn : Text) (t : Radio)
    → t.conn.active ≡ true
    → let landed = (network_set_airplane p false (network_set_airplane p true t).1).1 in
      (landed.conn ≡ t.conn) × (data_connect p apn landed ≡ (pos 0, landed))
unfolding data_connect network_set_airplane
data_connect-stale p apn t e =
    let off = modem_send_at-Same p (codes "AT+CFUN=4") 256 (record t { airplane_mode = true }) in
    let up = (network_set_airplane p true t).1 in
    let on = modem_send_at-Same p (codes "AT+CFUN=1") 256 (record up { airplane_mode = false }) in
    let joined =
      network_register-Same p
        (modem_send_at p (codes "AT+CFUN=1") 256 (record up { airplane_mode = false })).1 in
    let landed = then_Same on joined in
    let kept = landed.conn ∙ off.conn in
    (kept, rw (landed.airplane, data_connect, ap (λ (c : DataConn). c.active) kept, e) refl)
