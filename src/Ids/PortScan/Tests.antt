-- ===== src/Ids/PortScan/Tests.antt =====
-- Concrete bursts and sweeps.
use ocellus_network_monitor.Prelude.{
  ℕ, ℕ_discrete, ◌≤◌, ◌≡◌, ◌↔◌, some, List, [], ◌∷◌, length, arith,
}
use ocellus_network_monitor.Packet.{IpAddr-discrete, v4}
use ocellus_network_monitor.Ids.Samples.{small_hash}
use ocellus_network_monitor.Ids.PortScan.{SlidingSet, new, horizontal_signal, inspect, sweep}
use ocellus_network_monitor.Ids.PortScan.Burst.{
  Probe, observe_all, probes_of, distinct, see, values, burst_horizontal,
}
use ocellus_network_monitor.Ids.PortScan.Sweep.{probe, tick, apply_all, inspect-sweep}

abbrev half_stale : SlidingSet
half_stale = record { entries = (80, 3) ∷ (22, 40) ∷ []; window = 60 }

abbrev at_time : ℕ → ℕ → ℕ → Probe
at_time src port now = record { src = v4 src; port = port; now = now; later = now }

-- Two sources, interleaved.
abbrev mixed : List Probe
mixed = at_time 1 80 5 ∷ at_time 2 80 6 ∷ at_time 1 81 7 ∷ at_time 1 80 8 ∷ []

burst_horizontal_example :
    ((inspect small_hash 9 9 (observe_all small_hash new mixed) (v4 1) 443).0
      ≡ some horizontal_signal)
    ↔ (20 ≤ length (see (distinct (values (probes_of small_hash (v4 1) mixed))) 443))
unfolding probes_of IpAddr-discrete ℕ_discrete
burst_horizontal_example =
    burst_horizontal small_hash mixed (v4 1) 443 9 9 5 9 (omega arith) (omega arith) (omega arith)
      (omega arith)

inspect-sweep_example :
    let d = apply_all small_hash new (probe (v4 1) 80 5 5 ∷ tick 50 ∷ probe (v4 1) 81 60 60 ∷ []) in
    (inspect small_hash 71 72 (sweep 70 d) (v4 1) 82).0 ≡ (inspect small_hash 71 72 d (v4 1) 82).0
inspect-sweep_example =
    inspect-sweep small_hash (probe (v4 1) 80 5 5 ∷ tick 50 ∷ probe (v4 1) 81 60 60 ∷ []) 70 71 72
      (v4 1) 82 (omega arith) (omega arith)
