-- ===== src/Net/Tests.antt =====
-- A machine with two interfaces.
use lumi_os.Base.{
  ◌%◌, ◌^◌, ◌≡◌, refl, true, false, Option, none, some, List, [], ◌∷◌, pos, Text, codes, text_eq,
  take, if◌then◌else◌,
}
use lumi_os.Net.{
  System, zeroed, connected, ethernet, read_iface, max_ifaces, monitor_update, monitor_get_traffic,
}
use lumi_os.Net.Traffic.{visible, sum_of, monitor_get_traffic_lem}
use lumi_os.Net.Links.{first_wifi, wifi_is_connected, dhcp_request, dns_set_servers, netd_init}

abbrev file_of : Text → Option Text
file_of path =
    if text_eq path (codes "/sys/class/net/eth0/statistics/rx_bytes")
    then some (codes "1200\n")
    else if text_eq path (codes "/sys/class/net/eth0/operstate")
    then some (codes "up\n")
    else if text_eq path (codes "/sys/class/net/lo/statistics/rx_bytes")
    then some (codes "77\n")
    else none

abbrev machine : System
machine = record {
  file = file_of;
  access = λ p. false;
  pipe = λ c. some (codes "10.0.0.2\n");
  status = λ c. pos 0;
}

abbrev names : List Text
names = codes "." ∷ codes "lo" ∷ codes "eth0" ∷ []

monitor_get_traffic_lem_example :
    let ns = take max_ifaces (visible names) in
    monitor_get_traffic (monitor_update machine (some names) [])
    ≡ (sum_of machine (λ i. i.rx_bytes) ns % 2 ^ 64, sum_of machine (λ i. i.tx_bytes) ns % 2 ^ 64)
monitor_get_traffic_lem_example = monitor_get_traffic_lem machine names []

traffic : monitor_get_traffic (monitor_update machine (some names) []) ≡ (1200, 0)
unfolding monitor_get_traffic monitor_update
traffic = refl

eth0 :
    read_iface machine (codes "eth0")
    ≡ record zeroed { name = codes "eth0"; type = ethernet; state = connected; rx_bytes = 1200 }
unfolding read_iface
eth0 = refl

-- Without a wireless interface, the answer is what the memory happens to hold.
unset :
    wifi_is_connected machine
      (record zeroed { state = connected })
      (netd_init machine (record { ifaces = []; wifi_state = first_wifi })).1.wifi_state
    ≡ true
unfolding wifi_is_connected netd_init
unset = refl

leased :
    (dhcp_request machine 5
      (some (codes "eth0"))
      (dhcp_request machine 1 none (record {
        ip = [];
        gateway = [];
        dns1 = [];
        dns2 = [];
        subnet = [];
        lease_time = 0;
        obtained = 0;
      })).1).1.ip
    ≡ codes "10.0.0.2"
unfolding dhcp_request
leased = refl

resolv :
    dns_set_servers true (some (codes "1.1.1.1")) (some [])
    ≡ (pos 0, some (codes "# Generated by LumiOS netd\nnameserver 1.1.1.1\n"))
unfolding dns_set_servers
resolv = refl
