-- ===== src/Net/Traffic.antt =====
-- The traffic that the monitor reports.
use lumi_os.Base.{
  ℕ, zero, suc, ◌+◌, ◌%◌, ◌^◌, ◌<◌, ◌≡◌, refl, ap, ◌∙◌, Bool, true, false, some, List, [], ◌∷◌,
  Text, inl, inr, Bool-cases, if◌then◌else◌, take, arith,
}
use lumi_os.Net.{
  System, NetIface, is_loopback, is_hidden, read_iface, read_ifaces, max_ifaces, monitor_update,
  add_traffic, monitor_get_traffic,
}

-- The names that do not begin with a dot.
abbrev pub visible : List Text → List Text
visible [] = []
visible (n ∷ ns) = let rest = visible ns in if is_hidden n then rest else n ∷ rest

-- The sum of what is read for the names, without the loopback interface.
abbrev pub sum_of : System → (NetIface → ℕ) → List Text → ℕ
sum_of s bytes [] = 0
sum_of s bytes (n ∷ ns) =
    (if is_loopback (read_iface s n).type then 0 else bytes (read_iface s n)) + sum_of s bytes ns

read_each : System → List Text → List NetIface
read_each s [] = []
read_each s (n ∷ ns) = read_iface s n ∷ read_each s ns

read_ifaces_lem :
    (s : System) (room : ℕ) (ns : List Text)
    → read_ifaces s room ns ≡ read_each s (take room (visible ns))
unfolding read_ifaces read_each
read_ifaces_lem s zero [] = refl
read_ifaces_lem s (suc room) [] = refl
read_ifaces_lem s zero (n ∷ ns) = refl
read_ifaces_lem s (suc room) (n ∷ ns) = elim (Bool-cases (is_hidden n)) [
  | inl e ↦ rw (e, read_ifaces) (read_ifaces_lem s (suc room) ns)
  | inr e ↦
      rw (e, read_ifaces)
        (ap (λ (l : List NetIface). read_iface s n ∷ l) (read_ifaces_lem s room ns))
]

both : {a b c d : ℕ} → a ≡ c → b ≡ d → ◌≡◌ {A = ℕ × ℕ} (a, b) (c, d)
both p q = λ i. (p i, q i)

-- One round of the loop on one of the sums.
abbrev added : Bool → ℕ → ℕ → ℕ
added b sum bytes = if b then sum else (sum + bytes) % 2 ^ 64

added-lt : (b : Bool) (sum bytes : ℕ) → sum < 2 ^ 64 → added b sum bytes < 2 ^ 64
added-lt true sum bytes h = h
added-lt false sum bytes h = omega arith

added-sum :
    (b : Bool) (sum bytes rest : ℕ)
    → (added b sum bytes + rest) % 2 ^ 64 ≡ (sum + ((if b then 0 else bytes) + rest)) % 2 ^ 64
added-sum true sum bytes rest = omega arith
added-sum false sum bytes rest = omega arith

add_traffic_lem :
    (s : System) (ns : List Text) (rx tx : ℕ)
    → rx < 2 ^ 64
    → tx < 2 ^ 64
    → add_traffic (read_each s ns) rx tx ≡ (
      (rx + sum_of s (λ i. i.rx_bytes) ns) % 2 ^ 64,
      (tx + sum_of s (λ i. i.tx_bytes) ns) % 2 ^ 64,
    )
unfolding add_traffic read_each
add_traffic_lem s [] rx tx h k = both (omega arith) (omega arith)
add_traffic_lem s (n ∷ ns) rx tx h k =
    let i = read_iface s n in
    let b = is_loopback i.type in
    add_traffic_lem s ns (added b rx i.rx_bytes) (added b tx i.tx_bytes)
      (added-lt b rx i.rx_bytes h) (added-lt b tx i.tx_bytes k)
    ∙ both (added-sum b rx i.rx_bytes (sum_of s (λ i. i.rx_bytes) ns))
        (added-sum b tx i.tx_bytes (sum_of s (λ i. i.tx_bytes) ns))

-- After a monitor_update that can read the directory, whatever was known before,
-- monitor_get_traffic gives modulo 2 ^ 64 the sums of the received and the sent bytes that are read
-- for the first 16 names with no dot in front, without the loopback interface.
pub monitor_get_traffic_lem :
    (s : System) (ns : List Text) (old : List NetIface)
    → let names = take max_ifaces (visible ns) in
      monitor_get_traffic (monitor_update s (some ns) old)
      ≡ (sum_of s (λ i. i.rx_bytes) names % 2 ^ 64, sum_of s (λ i. i.tx_bytes) names % 2 ^ 64)
unfolding monitor_get_traffic monitor_update
monitor_get_traffic_lem s ns old =
    ap (λ (l : List NetIface). add_traffic l 0 0) (read_ifaces_lem s max_ifaces ns)
    ∙ add_traffic_lem s (take max_ifaces (visible ns)) 0 0 (omega arith) (omega arith)
    ∙ both (omega arith) (omega arith)
