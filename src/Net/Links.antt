-- ===== src/Net/Links.antt =====
-- wifi.c, dhcp.c and dns.c of system/services/netd/src, and netd_init and netd_shutdown of netd.c. A
-- command line that is passed to the shell is kept as it is built, cut to its array.
use lumi_os.Base.{
  ℕ, Bool, true, false, not, Option, none, some, List, [], ◌∷◌, ◌++◌, ℤ, pos, neg, Text, codes,
  is_empty, starts, lines, lines_from, split_at, chomp, if◌then◌else◌, ◌==◌, take,
}
use lumi_os.Net.{System, NetIface, NetState, down, connected, wifi, zeroed, Lease}

-- g_wifi_iface and g_wifi_initialized.
pub record Wifi : Type 0 where
  pub iface : Text
  pub is_initialized : Bool

abbrev pub first_wifi : Wifi
first_wifi = record { iface = codes "wlan0"; is_initialized = false }

name_iface : Option Text → Wifi → Wifi
name_iface none w = w
name_iface (some name) w = record w { iface = take 31 name }

-- The result, the new state and the commands that are run.
pub wifi_init : System → Option Text → Wifi → ℤ × Wifi × List Text
unfolding name_iface
wifi_init s iface w0 =
    let w = name_iface iface w0 in
    if s.access (take 127 (codes "/sys/class/net/" ++ (w.iface ++ codes "/wireless")))
    then (
      pos 0,
      record w { is_initialized = true },
      take 255 (codes "ip link set " ++ (w.iface ++ codes " up 2>/dev/null")) ∷ [],
    )
    else (neg 1, w, [])

-- wifi_scan writes no results.
pub wifi_scan : Wifi → ℤ
wifi_scan w = if not w.is_initialized then neg 1 else pos 0

pub wifi_connect : Wifi → Text → Text → ℤ
wifi_connect w ssid password = if not w.is_initialized then neg 1 else pos 0

pub wifi_disconnect : Wifi → ℤ
wifi_disconnect w = pos 0

-- strncmp (buf, "up", 2) == 0, on the first line of operstate.
pub read_operstate : System → Text → NetState
unfolding lines lines_from starts
read_operstate s name =
    elim (s.file (take 255 (codes "/sys/class/net/" ++ (name ++ codes "/operstate")))) [
      | none ↦ down
      | some bytes ↦ elim (lines 128 bytes) [
        | [] ↦ down
        | l ∷ ls ↦ if starts (codes "up") l then connected else down
      ]
    ]

-- The interface is as it was where the result is -1.
pub wifi_get_status : System → Wifi → NetIface → ℤ × NetIface
unfolding read_operstate
wifi_get_status s w old = if not w.is_initialized then (neg 1, old) else (
  pos 0,
  record zeroed { name = take 31 w.iface; type = wifi; state = read_operstate s w.iface },
)

abbrev is_connected : NetState → Bool
is_connected connected = true
is_connected _ = false

-- `garbage` is what the variable `iface` holds before anything is written to it.
unfoldable pub wifi_is_connected : System → NetIface → Wifi → Bool
unfolding wifi_get_status
wifi_is_connected s garbage w = is_connected (wifi_get_status s w garbage).1.state

abbrev no_lease : Lease
no_lease = record {
  ip = [];
  gateway = [];
  dns1 = [];
  dns2 = [];
  subnet = [];
  lease_time = 0;
  obtained = 0;
}

request_cmd : Text → Text
request_cmd iface = take 255 (
    codes "udhcpc -i "
    ++ (iface ++ (codes " -n -q 2>/dev/null || dhclient -1 " ++ (iface ++ codes " 2>/dev/null"))))

ip_cmd : Text → Text
ip_cmd iface =
    take 255 (codes "ip -4 addr show " ++ (iface ++ codes " | grep -oP 'inet \\K[\\d.]+'"))

read_ip : System → Text → Text
unfolding ip_cmd lines lines_from chomp split_at
read_ip s iface = elim (s.pipe (ip_cmd iface)) [
  | none ↦ []
  | some bytes ↦ elim (lines 16 bytes) [ [] ↦ [] | l ∷ ls ↦ chomp l ]
]

is_zero : ℤ → Bool
is_zero (pos n) = n == 0
is_zero _ = false

-- For a lease that is there, at the time `now`: the result, the lease and the commands.
unfoldable pub dhcp_request : System → ℕ → Option Text → Lease → ℤ × Lease × List Text
unfolding is_zero request_cmd read_ip
dhcp_request s now none old = (neg 1, old, [])
dhcp_request s now (some iface) old =
    if is_zero (s.status (request_cmd iface))
    then (
      pos 0,
      record no_lease { ip = read_ip s iface; obtained = now; lease_time = 86400 },
      ip_cmd iface ∷ request_cmd iface ∷ [],
    )
    else (neg 1, no_lease, request_cmd iface ∷ [])

pub dhcp_release : System → Text → ℤ × List Text
unfolding is_zero
dhcp_release s iface =
    let cmd = take 255 (codes "ip addr flush dev " ++ (iface ++ codes " 2>/dev/null")) in
    (if is_zero (s.status cmd) then pos 0 else neg 1, cmd ∷ [])

pub dhcp_renew : System → ℕ → Option Text → Lease → ℤ × Lease × List Text
unfolding dhcp_request
dhcp_renew s now iface old = dhcp_request s now iface old

nameserver : Option Text → Text
nameserver none = []
nameserver (some dns) = if is_empty dns then [] else codes "nameserver " ++ (dns ++ codes "\n")

-- The result, and what /etc/resolv.conf holds afterwards, if it could be opened.
unfoldable pub dns_set_servers : Bool → Option Text → Option Text → ℤ × Option Text
unfolding nameserver
dns_set_servers false dns1 dns2 = (neg 1, none)
dns_set_servers true dns1 dns2 =
    (pos 0, some (codes "# Generated by LumiOS netd\n" ++ (nameserver dns1 ++ nameserver dns2)))

pub dns_set_doh : Option Text → ℤ
dns_set_doh none = neg 1
dns_set_doh (some doh_url) = pos 0

-- What monitor.c and wifi.c keep.
pub record Netd : Type 0 where
  pub ifaces : List NetIface
  pub wifi_state : Wifi

-- The results of the parts are only reported.
unfoldable pub netd_init : System → Netd → ℤ × Netd × List Text
unfolding wifi_init
netd_init s d =
    let (code, w, cmds) = wifi_init s (some (codes "wlan0")) d.wifi_state in
    (pos 0, record { ifaces = []; wifi_state = w }, cmds)
