-- ===== src/Telephony/Radio/Modem.antt =====
-- modem_power and modem_get_info of system/services/telephonyd/src/modem.c, and modem_close.
use lumi_os.Base.{Bool, false, Option, none, some, ℤ, pos, neg, Text, codes, if◌then◌else◌, take}
use lumi_os.Telephony.Radio.{Radio, Port, before, after, modem_send_at}

-- The result code of modem_send_at.
abbrev pub result : Option Text → ℤ
result none = neg 1
result (some resp) = pos 0

-- The line behind the first newline of an answer.
pub second_line : Text → Option Text
second_line resp = elim (after 10 resp) [ none ↦ none | some line ↦ some (before 13 line) ]

-- What is written where there is such a line: strncpy into an array of n + 1 bytes.
pub line_or : Text → Option Text → Text
unfolding second_line
line_or old none = old
line_or old (some resp) = elim (second_line resp) [ none ↦ old | some line ↦ line ]

pub modem_close : Radio → ℤ × Radio
modem_close t = (pos 0, record t { is_open = false })

module _ (p : Port) where
  pub modem_power : Bool → Radio → ℤ × Radio
  modem_power on t =
      let (resp, t1) =
        modem_send_at p (if on then codes "AT+CFUN=1" else codes "AT+CFUN=0") 256 t in
      (result resp, t1)

  unfoldable pub modem_get_info : Radio → ℤ × Radio
  unfolding line_or
  modem_get_info t0 =
      let (maker, t1) = modem_send_at p (codes "AT+CGMI") 256 t0 in
      let (model, t2) = modem_send_at p (codes "AT+CGMM") 256 t1 in
      let (imei, t3) = modem_send_at p (codes "AT+CGSN") 256 t2 in
      let m = t0.modem in
      (
        pos 0,
        record t3 {
          modem = record {
            manufacturer = take 63 (line_or m.manufacturer maker);
            model = take 63 (line_or m.model model);
            imei = take 19 (line_or m.imei imei);
          };
        },
      )
