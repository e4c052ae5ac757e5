-- ===== src/Ids/PortScan.antt =====
-- src/ids/port_scan.rs. Times are nanoseconds on one monotonic clock, and `duration_since` stops at
-- zero, as the truncated `-` does. Each reading of the clock is an argument. The hash of an address
-- is a parameter (the standard library's `DefaultHasher`, of 64 bits).
pub mod Window
pub mod Burst
pub mod Sweep
mod Tests
use ocellus_network_monitor.Prelude.{
  ℕ, ◌+◌, ◌-◌, ◌*◌, ◌^◌, bit_and, Bool, not, Option, none, some, List, [], ◌∷◌, ◌++◌, length,
  retain, any, ltb, leb, ◌==◌, if◌then◌else◌, ℕ_discrete,
}
use ocellus_network_monitor.Prelude.Map.{lookup, insert, retain_map}
use ocellus_network_monitor.Packet.{IpAddr, IpAddr-discrete}
use ocellus_network_monitor.Ids.Score.{Signal, score_port_scan}

abbrev pub secs : ℕ → ℕ
secs n = n * 10 ^ 9

-- The value and the time of an entry.
abbrev pub Entry : Type 0
Entry = ℕ × ℕ

pub record SlidingSet : Type 0 where
  pub entries : List Entry
  pub window : ℕ

abbrev pub set_new : ℕ → SlidingSet
set_new window = record { entries = []; window = window }

-- `now.duration_since(t) < window`
abbrev pub is_fresh : ℕ → ℕ → Entry → Bool
is_fresh now window e = ltb (now - e.1) window

abbrev pub has_value : ℕ → List Entry → Bool
has_value val = any (λ e. e.0 == val)

abbrev pub add_entry : ℕ → ℕ → List Entry → List Entry
add_entry now val es = if not (has_value val es) then es ++ ((val, now) ∷ []) else es

unfoldable pub set_insert : ℕ → SlidingSet → ℕ → ℕ × SlidingSet
set_insert now s val =
    let kept = retain (is_fresh now s.window) s.entries in
    let es = add_entry now val kept in (length es, record s { entries = es })

pub record PortScanDetector : Type 0 where
  pub ports_per_src : List (IpAddr × SlidingSet)
  pub srcs_per_port : List (ℕ × SlidingSet)
  pub window : ℕ
  pub port_threshold : ℕ
  pub src_threshold : ℕ

unfoldable pub new : PortScanDetector
new = record {
  ports_per_src = [];
  srcs_per_port = [];
  window = secs 60;
  port_threshold = 20;
  src_threshold = 50;
}

-- `or_insert_with(|| SlidingSet::new(window))`
abbrev pub or_new : ℕ → Option SlidingSet → SlidingSet
or_new window none = set_new window
or_new window (some s) = s

abbrev pub horizontal_signal : Signal
horizontal_signal = record { name = "port_scan_horizontal"; score = score_port_scan }

abbrev pub vertical_signal : Signal
vertical_signal = record { name = "port_scan_vertical"; score = score_port_scan }

-- The first block of `inspect`: the count of ports of the source, and the updated table.
unfoldable pub count_ports : ℕ → PortScanDetector → IpAddr → ℕ → ℕ × PortScanDetector
unfolding set_insert
count_ports now d src_ip dst_port =
    let (n, s) =
      set_insert now (or_new d.window (lookup IpAddr-discrete src_ip d.ports_per_src)) dst_port in
    (n, record d { ports_per_src = insert IpAddr-discrete src_ip s d.ports_per_src })

module _ (hash : IpAddr → ℕ) where
  abbrev pub ip_hash : IpAddr → ℕ
  ip_hash ip = bit_and (hash ip) 0xFFFF

  -- The second block: the count of source hashes of the port.
  unfoldable pub count_srcs : ℕ → PortScanDetector → IpAddr → ℕ → ℕ × PortScanDetector
  unfolding set_insert
  count_srcs now d src_ip dst_port =
      let (n, s) =
        set_insert now (or_new d.window (lookup ℕ_discrete dst_port d.srcs_per_port))
          (ip_hash src_ip) in
      (n, record d { srcs_per_port = insert ℕ_discrete dst_port s d.srcs_per_port })

  -- `now` is the reading of the first block, `later` that of the second, which runs only where the
  -- first raises nothing.
  unfoldable pub inspect : ℕ → ℕ → PortScanDetector → IpAddr → ℕ → Option Signal × PortScanDetector
  inspect now later d src_ip dst_port =
      let (horizontal, d') = count_ports now d src_ip dst_port in
      let (vertical, d'') = count_srcs later d' src_ip dst_port in
      if leb d.port_threshold horizontal
      then (some horizontal_signal, d')
      else (if leb d.src_threshold vertical then (some vertical_signal, d'') else (none, d''))

-- A table entry after the sweep: its fresh entries, unless none is left.
abbrev pub nonempty : SlidingSet → Option SlidingSet
nonempty s = elim s.entries [ [] ↦ none | e ∷ es ↦ some s ]

unfoldable pub sweep_set : ℕ → SlidingSet → Option SlidingSet
sweep_set now s = nonempty (record s { entries = retain (is_fresh now s.window) s.entries })

unfoldable pub sweep : ℕ → PortScanDetector → PortScanDetector
unfolding sweep_set
sweep now d = record d {
  ports_per_src = retain_map IpAddr-discrete (λ _. sweep_set now) d.ports_per_src;
  srcs_per_port = retain_map ℕ_discrete (λ _. sweep_set now) d.srcs_per_port;
}
