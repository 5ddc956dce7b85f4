-- ===== src/Bluetooth/Tests.antt =====
-- A table with one phone, which is blocked.
use lumi_os.Base.{◌≡◌, refl, true, false, none, some, [], ◌∷◌, pos, neg, codes, text_eq}
use lumi_os.Bluetooth.{
  Bluetoothd, Device, phone, disconnected, connected, paired, zeroed, find_device, connect_device,
  unpair_device, disconnect_device, with_device, read_line, scan_start, scan_get_results, btd_init,
  adapter_get_info,
}
use lumi_os.Bluetooth.Devices.{pair, start_scan, set_alias, perform_device, perform_each, no_device}

no_device_example :
    let bt =
      perform_each
        (start_scan ∷ set_alias (codes "Lumi") ∷ [])
        (btd_init (some (codes "0A\n")) none).1 in
    perform_device pair bt (codes "0B") ≡ (neg 1, bt)
no_device_example =
    no_device (some (codes "0A\n")) none (start_scan ∷ set_alias (codes "Lumi") ∷ []) pair
      (codes "0B")

abbrev blocked_phone : Device
blocked_phone = record {
  address = codes "0B";
  name = codes "P";
  type = phone;
  state = disconnected;
  rssi = neg 60;
  is_paired = false;
  trusted = false;
  blocked = true;
  class_of_device = 0;
  icon = [];
  battery = 0;
}

abbrev one_phone : Bluetoothd
one_phone = record zeroed { devices = blocked_phone ∷ [] }

phone_found : find_device one_phone (codes "0B") ≡ some 0
unfolding find_device text_eq
phone_found = refl

-- A blocked device is connected.
connects : connect_device one_phone (codes "0B") ≡ (
  pos 0,
  record one_phone { devices = record blocked_phone { state = connected; is_paired = true } ∷ [] },
)
unfolding connect_device find_device text_eq
connects = refl

-- disconnect_device makes a device PAIRED that was unpaired.
unpaired :
    (disconnect_device (unpair_device one_phone (codes "0B")).1 (codes "0B")).1
    ≡ record one_phone { devices = record blocked_phone { state = paired } ∷ [] }
unfolding disconnect_device unpair_device with_device find_device text_eq
unpaired = refl

-- The name is read without its newline, and the scan needs an adapter with power.
named : (btd_init (some (codes "0A\n")) (some (codes "hci\n"))).1.adapter.alias ≡ codes "hci"
unfolding btd_init adapter_get_info read_line
named = refl

no_power : scan_start zeroed ≡ (neg 1, zeroed)
unfolding scan_start
no_power = refl

results : scan_get_results one_phone (pos 5) ≡ (pos 1, blocked_phone ∷ [])
unfolding scan_get_results
results = refl
