-- ===== src/Telephony/Radio/Connection.antt =====
-- system/services/telephonyd/src/data.c.
pub mod Airplane
use lumi_os.Base.{
  strstr, ◌≡◌, refl, sym, ap, ◌∙◌, inl, inr, Bool, true, false, ◌&&◌, Option, none, some, ◌++◌, ℤ,
  pos, neg, is_negative, Text, codes, if◌then◌else◌, take, Bool-cases,
}
use lumi_os.Telephony.Radio.{DataConn, Radio, Port, before, after, modem_send_at}
use lumi_os.Telephony.Radio.Modem.{result}
use lumi_os.Telephony.Radio.Network.{network_register, network_set_airplane}

-- The address of an answer to AT+CGPADDR, or what it was.
pub ip_or : Text → Option Text → Text
ip_or old none = old
ip_or old (some resp) = elim (strstr (codes "+CGPADDR:") resp) [
  | none ↦ old
  | some s ↦ elim (after b'"' s) [ none ↦ old | some rest ↦ take 15 (before b'"' rest) ]
]

module _ (p : Port) where
  activate : Text → Radio → ℤ × Radio
  unfolding ip_or
  activate apn t0 =
      let define = take 127 (codes "AT+CGDCONT=1,\"IP\",\"" ++ apn ++ codes "\"") in
      let (defined, t1) = modem_send_at p define 256 t0 in
      let (active, t2) = modem_send_at p (codes "AT+CGACT=1,1") 256 t1 in
      let (address, t3) = modem_send_at p (codes "AT+CGPADDR=1") 256 t2 in
      if is_negative (result defined)
      then (neg 1, t1)
      else if is_negative (result active)
      then (neg 1, t2)
      else (
        pos 0,
        record t3 {
          conn = record {
            active = true;
            apn = take 63 apn;
            ip = ip_or t0.conn.ip address;
            tech = t0.signal.tech;
            rx_bytes = 0;
            tx_bytes = 0;
          };
        },
      )

  pub data_connect : Text → Radio → ℤ × Radio
  unfolding activate
  data_connect apn t =
      if t.airplane_mode then (neg 1, t) else if t.conn.active then (pos 0, t) else activate apn t

  pub data_disconnect : Radio → ℤ × Radio
  data_disconnect t0 =
      let (resp, t) = modem_send_at p (codes "AT+CGACT=0,1") 256 t0 in
      let c = t0.conn in
      if t0.conn.active
      then (pos 0, record t { conn = record c { active = false } })
      else (pos 0, t0)

-- The connection is none where the caller gives no place for it.
pub data_get_status : Bool → Radio → ℤ × Option DataConn
data_get_status false t = (neg 1, none)
data_get_status true t = (pos 0, some t.conn)
