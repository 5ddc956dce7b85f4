-- ===== src/Telephony/Radio/Network.antt =====
-- system/services/telephonyd/src/network.c.
use lumi_os.Base.{
  strstr, ℕ, suc, ◌+◌, ◌-◌, ◌*◌, Bool, true, false, Option, none, some, ◌++◌, ℤ, pos, negsuc, neg,
  atoi, leb_ℤ, is_negative, Text, codes, if◌then◌else◌, leb, ◌==◌, take, drop,
}
use lumi_os.Telephony.Radio.{
  not_registered, searching, RadioTech, rat_unknown, gsm, edge, umts, hspa, hspap, lte, lte_ca, nr,
  nr_nsa, Radio, Port, before, after, modem_send_at,
}
use lumi_os.Telephony.Radio.Modem.{result}

module _ (p : Port) where
  unfoldable pub network_register : Radio → ℤ × Radio
  network_register t0 =
      let (enabled, t1) = modem_send_at p (codes "AT+CREG=1") 256 t0 in
      let (chosen, t2) = modem_send_at p (codes "AT+COPS=0") 256 t1 in
      if is_negative (result enabled)
      then (neg 1, t1)
      else if is_negative (result chosen)
      then (neg 1, t2)
      else (pos 0, record t2 { reg_state = searching })

-- sscanf (p, "+CSQ: %d", &csq), with csq 0 before.
unfoldable pub csq_of : Text → ℤ
csq_of resp = elim (strstr (codes "+CSQ:") resp) [ none ↦ pos 0 | some s ↦ atoi (drop 5 s) ]

-- -113 + csq * 2
pub rssi_of : ℤ → ℤ
rssi_of (pos n) =
    if n == 99 then neg 120 else if leb 113 (2 * n) then pos (2 * n - 113) else neg (113 - 2 * n)
rssi_of (negsuc n) = neg (113 + 2 * suc n)

unfoldable pub level_of : ℤ → ℕ
level_of csq =
    if leb_ℤ (pos 20) csq
    then 5
    else if leb_ℤ (pos 15) csq
    then 4
    else if leb_ℤ (pos 10) csq
    then 3
    else if leb_ℤ (pos 5) csq
    then 2
    else if leb_ℤ (pos 1) csq
    then 1
    else 0

pub mode_of : RadioTech → Text
mode_of gsm = codes "13"
mode_of umts = codes "14"
mode_of lte = codes "38"
mode_of nr = codes "71"
mode_of rat_unknown = codes "2"
mode_of edge = codes "2"
mode_of hspa = codes "2"
mode_of hspap = codes "2"
mode_of lte_ca = codes "2"
mode_of nr_nsa = codes "2"

module _ (p : Port) where
  pub network_get_signal : Radio → ℤ × Radio
  unfolding csq_of rssi_of level_of
  network_get_signal t0 =
      let (resp, t) = modem_send_at p (codes "AT+CSQ") 256 t0 in
      elim resp [
        | none ↦ (neg 1, t)
        | some r ↦
            let csq = csq_of r in
            (
              pos 0,
              record t { signal = record { tech = lte; rssi = rssi_of csq; level = level_of csq } },
            )
      ]

  -- The name, in `len` bytes, is none where nothing is written.
  pub network_get_operator : ℕ → Radio → ℤ × Option Text × Radio
  network_get_operator len t0 =
      let (resp, t) = modem_send_at p (codes "AT+COPS?") 256 t0 in
      elim resp [
        | none ↦ (neg 1, none, t)
        | some r ↦ elim (after b'"' r) [
          | none ↦ (pos 0, none, t)
          | some rest ↦ (pos 0, some (take (len - 1) (before b'"' rest)), t)
        ]
      ]

  pub network_set_preferred_tech : RadioTech → Radio → ℤ × Radio
  unfolding mode_of
  network_set_preferred_tech tech t0 =
      let (resp, t) = modem_send_at p (codes "AT+CNMP=" ++ mode_of tech) 256 t0 in (result resp, t)

  unfoldable pub network_set_airplane : Bool → Radio → ℤ × Radio
  unfolding network_register
  network_set_airplane true t0 =
      let (resp, t) =
        modem_send_at p (codes "AT+CFUN=4") 256 (record t0 { airplane_mode = true }) in
      (pos 0, record t { reg_state = not_registered })
  network_set_airplane false t0 =
      let (resp, t) =
        modem_send_at p (codes "AT+CFUN=1") 256 (record t0 { airplane_mode = false }) in
      (pos 0, (network_register p t).1)
