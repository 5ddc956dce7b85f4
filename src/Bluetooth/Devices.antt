-- ===== src/Bluetooth/Devices.antt =====
-- The table of devices over the life of the daemon.
use lumi_os.Base.{
  ℕ, ◌≡◌, refl, ap, ◌∙◌, Bool, true, Option, none, some, List, [], ◌∷◌, ℤ, pos, neg, Text, zero,
  suc, get_elem?, set, if◌then◌else◌, arith,
}
use lumi_os.Bluetooth.{
  Bluetoothd, Device, connected, paired_device, find_device, find_from, update_at, with_device,
  pair_device, unpair_device, connect_device, disconnect_device, trust_device, block_device,
  scan_start, scan_stop, adapter_get_info, adapter_power, adapter_set_discoverable,
  adapter_set_alias, btd_init,
}

-- The functions that take the address of a device, and the others.
pub data DeviceOp : Type 0 where
  pair unpair connect disconnect : DeviceOp
  trust block : Bool → DeviceOp

pub data Op : Type 0 where
  device : DeviceOp → Text → Op
  start_scan stop_scan : Op
  power : Bool → Op
  set_discoverable : Bool → ℕ → Op
  set_alias : Text → Op
  get_info : Option Text → Option Text → Op

abbrev pub perform_device : DeviceOp → Bluetoothd → Text → ℤ × Bluetoothd
perform_device pair bt a = pair_device bt a
perform_device unpair bt a = unpair_device bt a
perform_device connect bt a = connect_device bt a
perform_device disconnect bt a = disconnect_device bt a
perform_device (trust b) bt a = trust_device bt a b
perform_device (block b) bt a = block_device bt a b

abbrev pub perform : Op → Bluetoothd → ℤ × Bluetoothd
perform (device op a) bt = perform_device op bt a
perform start_scan bt = scan_start bt
perform stop_scan bt = scan_stop bt
perform (power on) bt = adapter_power bt on
perform (set_discoverable b timeout) bt = adapter_set_discoverable bt b timeout
perform (set_alias alias) bt = adapter_set_alias bt alias
perform (get_info address_file name_file) bt = adapter_get_info address_file name_file bt

abbrev pub perform_each : List Op → Bluetoothd → Bluetoothd
perform_each [] bt = bt
perform_each (op ∷ ops) bt = perform_each ops (perform op bt).1

with_device-none :
    (f : Device → Device) (bt : Bluetoothd) (a : Text)
    → bt.devices ≡ []
    → with_device f bt a ≡ (neg 1, bt)
unfolding with_device find_device
with_device-none f bt a e =
    let lost : find_from bt.devices a ≡ none =
      (ap (λ (ds : List Device). find_from ds a) e ∙ (unfold find_from in refl)) in
    rw (lost, with_device) refl

perform_device-none :
    (op : DeviceOp) (bt : Bluetoothd) (a : Text)
    → bt.devices ≡ []
    → perform_device op bt a ≡ (neg 1, bt)
unfolding pair_device unpair_device connect_device disconnect_device trust_device block_device
perform_device-none pair bt a e = with_device-none _ bt a e
perform_device-none unpair bt a e = with_device-none _ bt a e
perform_device-none connect bt a e = with_device-none _ bt a e
perform_device-none disconnect bt a e = with_device-none _ bt a e
perform_device-none (trust b) bt a e = with_device-none _ bt a e
perform_device-none (block b) bt a e = with_device-none _ bt a e

perform-empty : (op : Op) (bt : Bluetoothd) → bt.devices ≡ [] → (perform op bt).1.devices ≡ []
unfolding scan_start scan_stop adapter_get_info adapter_power adapter_set_discoverable
    adapter_set_alias
perform-empty (device op a) bt e =
    ap (λ (r : ℤ × Bluetoothd). r.1.devices) (perform_device-none op bt a e) ∙ e
perform-empty start_scan bt e = ground arith
perform-empty stop_scan bt e = ground arith
perform-empty (power on) bt e = e
perform-empty (set_discoverable b timeout) bt e = e
perform-empty (set_alias alias) bt e = e
perform-empty (get_info none name_file) bt e = e
perform-empty (get_info (some b) name_file) bt e = e

perform_each-empty :
    (ops : List Op) (bt : Bluetoothd) → bt.devices ≡ [] → (perform_each ops bt).devices ≡ []
perform_each-empty [] bt e = e
perform_each-empty (op ∷ ops) bt e =
    perform_each-empty ops (perform op bt).1 (perform-empty op bt e)

btd_init-empty :
    (address_file name_file : Option Text) → (btd_init address_file name_file).1.devices ≡ []
unfolding btd_init adapter_get_info
btd_init-empty none name_file = refl
btd_init-empty (some b) name_file = refl

-- From btd_init on, whatever functions of the daemon are called in whatever order, scans included,
-- no device is known: pair_device, unpair_device, connect_device, disconnect_device, trust_device
-- and block_device return -1 and change nothing, for every address.
pub no_device :
    (address_file name_file : Option Text) (ops : List Op) (op : DeviceOp) (a : Text)
    → let bt = perform_each ops (btd_init address_file name_file).1 in
      perform_device op bt a ≡ (neg 1, bt)
no_device address_file name_file ops op a =
    perform_device-none op _ a (perform_each-empty ops _ (btd_init-empty address_file name_file))

update_at-set :
    (f : Device → Device) (ds : List Device) (i : ℕ) (d : Device)
    → get_elem? ds i ≡ some d
    → update_at f i ds ≡ set ds i (f d)
unfolding update_at
update_at-set f [] i d e = cc
update_at-set f (x ∷ ds) zero d e = cc
update_at-set f (x ∷ ds) (suc i) d e = ap (λ (l : List Device). x ∷ l) (update_at-set f ds i d e)

connected_device :
    (d : Device)
    → record (if d.is_paired then d else paired_device d) { state = connected }
      ≡ record d { state = connected; is_paired = true }
unfolding paired_device
connected_device d = ground arith

-- In any table, connect_device of an address that is found returns 0, and of the whole state only
-- the first device with that address changes: it is CONNECTED and paired, whatever its state was,
-- and whether or not it is blocked.
connect_device_lem :
    (bt : Bluetoothd) (a : Text) (i : ℕ) (d : Device)
    → find_device bt a ≡ some i
    → get_elem? bt.devices i ≡ some d
    → connect_device bt a ≡ (
      pos 0,
      record bt { devices = set bt.devices i (record d { state = connected; is_paired = true }) },
    )
unfolding connect_device with_device
connect_device_lem bt a i d f e =
    rw (f, with_device, update_at-set _ bt.devices i d e, connected_device d) refl
