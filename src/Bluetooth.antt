-- ===== src/Bluetooth.antt =====
-- The Bluetooth daemon of system/services/bluetoothd: pairing.c, scan.c, adapter.c, and btd_init and
-- btd_shutdown of bluetoothd.c.
--
-- What is printed is left out. The files of sysfs are parameters: the bytes, or none where they
-- cannot be opened.
pub mod Devices
mod Tests
use lumi_os.Base.{
  ℕ, zero, suc, ◌-◌, ◌^◌, Bool, true, false, not, Option, none, some, List, [], ◌∷◌, ℤ, pos, negsuc,
  neg, Text, codes, text_eq, lines, lines_from, split_at, chomp, if◌then◌else◌, ltb, length, take,
  set, get_elem?,
}

pub data BtType : Type 0 where
  unknown phone computer headset speaker keyboard mouse gamepad watch car : BtType

pub data BtState : Type 0 where
  disconnected connecting connected paired bonded : BtState

pub record Device : Type 0 where
  pub address : Text
  pub name : Text
  pub type : BtType
  pub state : BtState
  pub rssi : ℤ
  pub is_paired : Bool
  pub trusted : Bool
  pub blocked : Bool
  pub class_of_device : ℕ
  pub icon : Text
  pub battery : ℕ

pub record Adapter : Type 0 where
  pub address : Text
  pub name : Text
  pub alias : Text
  pub powered : Bool
  pub discoverable : Bool
  pub pairable : Bool
  pub discoverable_timeout : ℕ

-- The first num_devices elements of the array.
pub record Bluetoothd : Type 0 where
  pub adapter : Adapter
  pub devices : List Device
  pub scanning : Bool

-- The position of the first device with the address.
pub find_from : List Device → Text → Option ℕ
find_from [] address = none
find_from (d ∷ ds) address =
    let rest = find_from ds address in
    if text_eq d.address address then some 0 else elim rest [ none ↦ none | some i ↦ some (suc i) ]

pub find_device : Bluetoothd → Text → Option ℕ
unfolding find_from
find_device bt address = find_from bt.devices address

pub update_at : (Device → Device) → ℕ → List Device → List Device
update_at f i [] = []
update_at f zero (d ∷ ds) = f d ∷ ds
update_at f (suc i) (d ∷ ds) = d ∷ update_at f i ds

-- `if (!dev) return -1;`, and otherwise the assignments to the device.
pub with_device : (Device → Device) → Bluetoothd → Text → ℤ × Bluetoothd
unfolding find_device update_at
with_device f bt address = elim (find_device bt address) [
  | none ↦ (neg 1, bt)
  | some i ↦ (pos 0, record bt { devices = update_at f i bt.devices })
]

pub paired_device : Device → Device
paired_device d = record d { state = paired; is_paired = true }

pub pair_device : Bluetoothd → Text → ℤ × Bluetoothd
unfolding with_device paired_device
pair_device bt address = with_device paired_device bt address

pub unpair_device : Bluetoothd → Text → ℤ × Bluetoothd
unfolding with_device
unpair_device bt address =
    with_device (λ d. record d { state = disconnected; is_paired = false; trusted = false }) bt
      address

-- pair_device of the same address finds the same device. CONNECTING is overwritten at once.
pub connect_device : Bluetoothd → Text → ℤ × Bluetoothd
unfolding with_device paired_device
connect_device bt address =
    with_device (λ d. record (if d.is_paired then d else paired_device d) { state = connected }) bt
      address

pub disconnect_device : Bluetoothd → Text → ℤ × Bluetoothd
unfolding with_device
disconnect_device bt address = with_device (λ d. record d { state = paired }) bt address

pub trust_device : Bluetoothd → Text → Bool → ℤ × Bluetoothd
unfolding with_device
trust_device bt address trust = with_device (λ d. record d { trusted = trust }) bt address

pub block_device : Bluetoothd → Text → Bool → ℤ × Bluetoothd
unfolding with_device
block_device bt address block = with_device (λ d. record d { blocked = block }) bt address

pub scan_start : Bluetoothd → ℤ × Bluetoothd
scan_start bt =
    if bt.scanning
    then (pos 0, bt)
    else if not bt.adapter.powered
    then (neg 1, bt)
    else (pos 0, record bt { scanning = true; devices = [] })

pub scan_stop : Bluetoothd → ℤ × Bluetoothd
scan_stop bt = if not bt.scanning then (pos 0, bt) else (pos 0, record bt { scanning = false })

-- The result, and what is written to `out`.
pub scan_get_results : Bluetoothd → ℤ → ℤ × List Device
scan_get_results bt (negsuc n) = (negsuc n, [])
scan_get_results bt (pos max) =
    let count = if ltb (length bt.devices) max then length bt.devices else max in
    (pos count, take count bt.devices)

-- fgets into an array of `size` bytes, and the newline cut off; an empty file changes nothing.
pub read_line : ℕ → Text → Text → Text
unfolding lines lines_from chomp split_at
read_line size old bytes = elim (lines size bytes) [ [] ↦ old | l ∷ ls ↦ chomp l ]

pub adapter_get_info : Option Text → Option Text → Bluetoothd → ℤ × Bluetoothd
unfolding read_line
adapter_get_info none name_file bt = (neg 1, bt)
adapter_get_info (some bytes) name_file bt =
    let a = bt.adapter in
    let name : Text = elim name_file [ none ↦ codes "LumiOS" | some b ↦ read_line 128 a.name b ] in
    (
      pos 0,
      record bt {
        adapter = record a {
          address = read_line 18 a.address bytes;
          name = name;
          alias = take 127 name;
          powered = true;
          pairable = true;
          discoverable = false;
          discoverable_timeout = 180;
        };
      },
    )

pub adapter_power : Bluetoothd → Bool → ℤ × Bluetoothd
adapter_power bt on = (pos 0, record bt { adapter = record bt.adapter { powered = on } })

pub adapter_set_discoverable : Bluetoothd → Bool → ℕ → ℤ × Bluetoothd
adapter_set_discoverable bt discoverable timeout = (
  pos 0,
  record bt {
    adapter = record bt.adapter { discoverable = discoverable; discoverable_timeout = timeout };
  },
)

pub adapter_set_alias : Bluetoothd → Text → ℤ × Bluetoothd
adapter_set_alias bt alias =
    (pos 0, record bt { adapter = record bt.adapter { alias = take 127 alias } })

abbrev pub zeroed : Bluetoothd
zeroed = record {
  adapter = record {
    address = [];
    name = [];
    alias = [];
    powered = false;
    discoverable = false;
    pairable = false;
    discoverable_timeout = 0;
  };
  devices = [];
  scanning = false;
}

-- The result of adapter_get_info is only reported.
pub btd_init : Option Text → Option Text → ℤ × Bluetoothd
unfolding adapter_get_info
btd_init address_file name_file = (pos 0, (adapter_get_info address_file name_file zeroed).1)

pub btd_shutdown : Bluetoothd → Bluetoothd
unfolding scan_stop
btd_shutdown bt = if bt.scanning then (scan_stop bt).1 else bt
