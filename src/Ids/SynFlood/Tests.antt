-- ===== src/Ids/SynFlood/Tests.antt =====
-- Concrete handshakes, resets and bursts of SYNs.
use mathlib.Core.List.{Mem}
use ocellus_network_monitor.Prelude.{
  ℕ, ℕ_discrete, ◌*◌, ◌≤◌, ◌≡◌, ◌↔◌, refl, true, some, List, [], ◌∷◌, arith, ite, none,
}
use ocellus_network_monitor.Prelude.Map.{lookup}
use ocellus_network_monitor.Packet.{IpAddr-discrete, v4}
use ocellus_network_monitor.Ids.SynFlood.{
  to_f32, syn_ack_ratio, Readings, FlowKey-discrete, PerIpCounters, new, flag_is_syn, is_flood,
  inspect, rst_signal,
}
use ocellus_network_monitor.Ids.SynFlood.Rst.{rst_always_reported}
use ocellus_network_monitor.Ids.SynFlood.Handshake.{handshake_closes}
use ocellus_network_monitor.Ids.SynFlood.Flood.{
  Segment, observe_all, segments_of, count_of, acknowledges, flood_of_window,
}

abbrev at_ns : ℕ → Readings
at_ns t = record { created = t; checked = t; restarted = t; opened = t }

rst_always_reported_example : Mem rst_signal (inspect (at_ns 5) new (v4 2) (v4 1) 80 4000 4).0
rst_always_reported_example = rst_always_reported (at_ns 5) new (v4 2) (v4 1) 80 4000 4 refl refl

handshake_closes_example :
    let d = (inspect (at_ns 5) new (v4 1) (v4 2) 4000 80 2).1 in
    let d' = (inspect (at_ns 6) d (v4 2) (v4 1) 80 4000 18).1 in
    lookup FlowKey-discrete (v4 1, v4 2, 4000, 80) d'.half_open
    ≡ ite (FlowKey-discrete (v4 2, v4 1, 80, 4000) (v4 1, v4 2, 4000, 80)) none (
        ite
          (FlowKey-discrete (v4 1, v4 2, 4000, 80) (v4 1, v4 2, 4000, 80))
          none
          (lookup FlowKey-discrete (v4 1, v4 2, 4000, 80) new.half_open))
handshake_closes_example =
    handshake_closes (at_ns 5) (at_ns 6) new (v4 1) (v4 2) 4000 80 2 18 (v4 1, v4 2, 4000, 80) refl
      refl refl

abbrev syn_from : ℕ → ℕ → Segment
syn_from src t = record {
  readings = at_ns t;
  src = v4 src;
  dst = v4 9;
  src_port = 4000;
  dst_port = 80;
  flags = 2;
}

abbrev three_syns : List Segment
three_syns = syn_from 1 5 ∷ syn_from 2 6 ∷ syn_from 1 7 ∷ []

flood_of_window_example :
    (c : PerIpCounters) × (lookup IpAddr-discrete (v4 1) (observe_all new three_syns).counters
      ≡ some c)
    × ((is_flood 5 c ≡ true) ↔ (
        (50 ≤ count_of flag_is_syn (syn_from 1 5 ∷ syn_from 1 7 ∷ []))
        × (5 * count_of acknowledges (syn_from 1 5 ∷ syn_from 1 7 ∷ [])
            ≤ count_of flag_is_syn (syn_from 1 5 ∷ syn_from 1 7 ∷ []))))
unfolding segments_of count_of IpAddr-discrete ℕ_discrete
flood_of_window_example =
    flood_of_window three_syns (v4 1) (syn_from 1 5) (syn_from 1 7 ∷ []) refl (omega arith)
      (omega arith) (omega arith)

-- Fewer than five SYNs for each acknowledgement, whose quotient rounds to 5.0.
quotient_rounds_up :
    is_flood 5 (record { syns = 20971524; acks = 4194305; last_reset = 0; window = 10 }) ≡ true
unfolding is_flood syn_ack_ratio to_f32
quotient_rounds_up = refl
