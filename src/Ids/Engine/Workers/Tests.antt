-- ===== src/Ids/Engine/Workers/Tests.antt =====
-- Calls of `analyze` beside the sweeper on concrete packets.
use ocellus_network_monitor.Prelude.{
  ℕ_discrete, ◌≡◌, true, refl, none, some, List, [], ◌∷◌, ◌++◌, get_elem?, Outcome, done, panic,
}
use ocellus_network_monitor.Prelude.Map.{contains, add, lookup}
use ocellus_network_monitor.Packet.{TransportMeta, RawPacket}
use ocellus_network_monitor.Ids.Samples.{exact_bloom, ascii_lowercase, samples}
use ocellus_network_monitor.Ids.Score.{is_clean, from_signals, sum_scores}
use ocellus_network_monitor.Ids.Baseline
use ocellus_network_monitor.Ids.Baseline.{is_learning_phase}
use ocellus_network_monitor.Ids.Blacklist
use ocellus_network_monitor.Ids.PortScan
use ocellus_network_monitor.Ids.RateLimit
use ocellus_network_monitor.Ids.SynFlood
use ocellus_network_monitor.Ids.Engine.{
  new, check_addresses, check_source, raise_option, raise, check_rate, check_ports, check_handshake,
  check_headers, note_if, check_country, scan_payload, dns_query_name, check_dns,
  check_unusual_port, check_vlan,
}
use ocellus_network_monitor.Ids.Engine.Tests.{
  clock_at, syn_meta, syn_packet, esp_meta, esp_packet, fresh, trained, seven,
}
use ocellus_network_monitor.Ids.Engine.Workers.{
  Work, Pool, Move, works_on, sweeps_ports, sweeps_flows, sweeps_buckets, ticks_phase, begin,
  decide, advance_at, move, run_moves,
}
use ocellus_network_monitor.Ids.Engine.Workers.Advance.{result_of}
use ocellus_network_monitor.Ids.Engine.Workers.Learning.{run_moves-unpoisoned}
use ocellus_network_monitor.Ids.Engine.Workers.Together.{
  started, is_finished, Reported, run_moves-finishes,
}

abbrev two : List (RawPacket × TransportMeta)
two = (esp_packet, esp_meta) ∷ (syn_packet, syn_meta) ∷ []

-- Two steps of each call.
abbrev both : List Move
both =
    works_on 0 (clock_at 5)
    ∷ works_on 1 (clock_at 5)
    ∷ works_on 1 (clock_at 6)
    ∷ works_on 0 (clock_at 6)
    ∷ []

abbrev sweeps : List Move
sweeps =
    sweeps_ports 6
    ∷ sweeps_flows (λ k. 6) (λ ip. 6)
    ∷ sweeps_buckets (λ ip. 6)
    ∷ ticks_phase 6 6
    ∷ []

abbrev mixed : List Move
mixed = both ++ (both ++ (sweeps ++ (both ++ (both ++ (both ++ (both ++ both))))))

run_moves-finishes_example :
    (p : Pool samples) × (w : Work) × (run_moves samples
        (λ state. none)
        (started samples (λ state. none) fresh seven two)
        mixed
      ≡ done p)
    × (get_elem? p.works 1 ≡ some w)
    × (is_finished w.place ≡ true)
    × Reported (some (Blacklist.ip_signal exact_bloom ascii_lowercase)) (result_of w.place)
unfolding Blacklist.new Blacklist.add_ip Blacklist.check_ip contains add ℕ_discrete
run_moves-finishes_example =
    run_moves-finishes samples (λ state. none) fresh seven two mixed 1 syn_packet syn_meta refl

abbrev one : List (RawPacket × TransportMeta)
one = (esp_packet, esp_meta) ∷ []

abbrev alone : List Move
alone = both ++ (both ++ (sweeps ++ (both ++ both)))

abbrev of_done : Pool samples → Outcome (Pool samples) → Pool samples
of_done p (done p') = p'
of_done p panic = p

abbrev after : Pool samples
after =
    of_done (started samples (λ state. none) trained seven one)
      (run_moves samples (λ state. none) (started samples (λ state. none) trained seven one) alone)

run_moves-unpoisoned_example : after.engine.baseline ≡ trained
unfolding run_moves move begin decide advance_at new check_addresses check_source raise_option raise
    check_rate check_ports check_handshake check_headers note_if check_country scan_payload
    dns_query_name check_dns check_unusual_port check_vlan RateLimit.inspect RateLimit.new
    RateLimit.pass RateLimit.consume RateLimit.verdict Blacklist.new Blacklist.add_ip
    Blacklist.check_ip Baseline.new Baseline.is_known_country is_learning_phase contains add
    ℕ_discrete lookup from_signals sum_scores is_clean RateLimit.count_packet RateLimit.roll_window
    RateLimit.sweep PortScan.sweep PortScan.new SynFlood.sweep SynFlood.new Baseline.tick_phase
run_moves-unpoisoned_example =
    run_moves-unpoisoned samples (λ state. none) trained seven one alone after refl refl refl
