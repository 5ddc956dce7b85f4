-- ===== src/Net.antt =====
-- The network daemon of system/services/netd: monitor.c, wifi.c, dhcp.c and dns.c, with netd_init and
-- netd_shutdown of netd.c.
--
-- What is printed to stderr is left out. The system is a parameter: what stands in a file or comes
-- from a pipe (none where it cannot be opened), whether access finds a path, and what a command
-- returns; a command that is run is recorded, the latest first. The round of netd_run is
-- monitor_update.
pub mod Traffic
pub mod Links
mod Tests
use lumi_os.Base.{
  ℕ, zero, suc, ◌+◌, ◌-◌, ◌%◌, ◌^◌, Bool, true, false, not, ◌&&◌, Option, none, some, List, [], ◌∷◌,
  ◌++◌, ℤ, pos, negsuc, neg, Text, codes, text_eq, is_empty, skip_spaces, starts, lines, lines_from,
  split_at, chomp, read_in, clamp, digit_value, is_space, if◌then◌else◌, ltb, ◌==◌, length, take,
}

pub data NetState : Type 0 where
  down connecting connected disconnecting failed : NetState

pub data IfaceType : Type 0 where
  wifi ethernet cellular vpn loopback : IfaceType

pub record NetIface : Type 0 where
  pub name : Text
  pub type : IfaceType
  pub state : NetState
  pub ip4 : Text
  pub ip6 : Text
  pub gateway : Text
  pub dns0 : Text
  pub dns1 : Text
  pub mac : Text
  pub signal : ℤ
  pub ssid : Text
  pub rx_bytes : ℕ
  pub tx_bytes : ℕ
  pub is_default : Bool

abbrev pub zeroed : NetIface
zeroed = record {
  name = [];
  type = wifi;
  state = down;
  ip4 = [];
  ip6 = [];
  gateway = [];
  dns0 = [];
  dns1 = [];
  mac = [];
  signal = pos 0;
  ssid = [];
  rx_bytes = 0;
  tx_bytes = 0;
  is_default = false;
}

pub record Lease : Type 0 where
  pub ip : Text
  pub gateway : Text
  pub dns1 : Text
  pub dns2 : Text
  pub subnet : Text
  pub lease_time : ℕ
  pub obtained : ℕ

pub record System : Type 0 where
  pub file : Text → Option Text
  pub access : Text → Bool
  pub pipe : Text → Option Text
  pub status : Text → ℤ

-- fopen and fgets into an array of `size` bytes, with the newline cut off, or none for -1.
pub read_sysfs : System → ℕ → Text → Option Text
unfolding lines lines_from chomp split_at
read_sysfs s size path = elim (s.file path) [
  | none ↦ none
  | some bytes ↦ elim (lines size bytes) [ [] ↦ none | l ∷ ls ↦ some (chomp l) ]
]

-- strtoull (s, NULL, 10)
signed_u64 : Text → ℕ
unfolding read_in clamp digit_value
signed_u64 [] = 0
signed_u64 (c ∷ s) =
    if c == b'-'
    then clamp true (read_in 10 0 s).0
    else if c == b'+'
    then clamp false (read_in 10 0 s).0
    else clamp false (read_in 10 0 (c ∷ s)).0

strtoull : Text → ℕ
unfolding signed_u64 skip_spaces is_space
strtoull s = signed_u64 (skip_spaces s)

pub read_sysfs_u64 : System → Text → ℕ
unfolding read_sysfs strtoull
read_sysfs_u64 s path = elim (read_sysfs s 32 path) [ none ↦ 0 | some line ↦ strtoull line ]

-- snprintf (path, 256, "/sys/class/net/%s/<file>", name)
sys_path : Text → Text → Text
sys_path name file = take 255 (codes "/sys/class/net/" ++ (name ++ file))

type_of : System → Text → IfaceType
unfolding sys_path text_eq
type_of s name =
    if s.access (sys_path name (codes "/wireless"))
    then wifi
    else if text_eq name (codes "lo")
    then loopback
    else ethernet

-- NET_DOWN is 0, which memset has set.
state_of : System → Text → NetState
unfolding sys_path read_sysfs text_eq
state_of s name = elim (read_sysfs s 32 (sys_path name (codes "/operstate"))) [
  | none ↦ down
  | some state ↦ if text_eq state (codes "up") then connected else down
]

mac_of : System → Text → Text
unfolding sys_path read_sysfs
mac_of s name = elim (read_sysfs s 18 (sys_path name (codes "/address"))) [
  | none ↦ []
  | some mac ↦ mac
]

-- The body of the loop for one entry of the directory.
pub read_iface : System → Text → NetIface
unfolding sys_path type_of state_of mac_of read_sysfs_u64
read_iface s name = record zeroed {
  name = take 31 name;
  type = type_of s name;
  state = state_of s name;
  mac = mac_of s name;
  rx_bytes = read_sysfs_u64 s (sys_path name (codes "/statistics/rx_bytes"));
  tx_bytes = read_sysfs_u64 s (sys_path name (codes "/statistics/tx_bytes"));
}

-- ent->d_name[0] == '.'
pub is_hidden : Text → Bool
is_hidden [] = false
is_hidden (c ∷ s) = c == b'.'

-- The loop over the directory, with room for `room` more interfaces.
pub read_ifaces : System → ℕ → List Text → List NetIface
unfolding read_iface is_hidden
read_ifaces s room [] = []
read_ifaces s zero (n ∷ ns) = []
read_ifaces s (suc room) (n ∷ ns) = elim (is_hidden n) [
  | true ↦ read_ifaces s (suc room) ns
  | false ↦ read_iface s n ∷ read_ifaces s room ns
]

abbrev pub max_ifaces : ℕ
max_ifaces = 16

-- The first g_iface_count elements of g_ifaces. The entries of /sys/class/net are none where
-- opendir fails.
pub monitor_update : System → Option (List Text) → List NetIface → List NetIface
unfolding read_ifaces
monitor_update s none old = old
monitor_update s (some names) old = read_ifaces s max_ifaces names

-- The result, and what is copied to `out`; a negative `max` would be copied as a size.
pub monitor_get_interfaces : List NetIface → ℕ → ℕ × List NetIface
monitor_get_interfaces ifaces max =
    let count = if ltb (length ifaces) max then length ifaces else max in (count, take count ifaces)

abbrev pub is_loopback : IfaceType → Bool
is_loopback loopback = true
is_loopback _ = false

-- The sums are of 64 bits.
pub add_traffic : List NetIface → ℕ → ℕ → ℕ × ℕ
add_traffic [] rx tx = (rx, tx)
add_traffic (i ∷ is) rx tx =
    add_traffic is (if is_loopback i.type then rx else (rx + i.rx_bytes) % 2 ^ 64)
      (if is_loopback i.type then tx else (tx + i.tx_bytes) % 2 ^ 64)

pub monitor_get_traffic : List NetIface → ℕ × ℕ
unfolding add_traffic
monitor_get_traffic ifaces = add_traffic ifaces 0 0
