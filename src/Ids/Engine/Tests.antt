-- ===== src/Ids/Engine/Tests.antt =====
-- One engine on concrete packets.
use mathlib.Core.List.{Mem}
use ocellus_network_monitor.Prelude.{
  ◌+◌, ℕ, ℕ_discrete, ◌≡◌, ◌≤◌, refl, false, none, some, List, [], ◌∷◌, length, min, done,
}
use ocellus_network_monitor.Prelude.Map.{contains, add}
use ocellus_network_monitor.Packet.{v4, ethernet, TransportMeta, RawPacket}
use ocellus_network_monitor.Ids.Samples.{exact_bloom, ascii_lowercase, whole_decimals, samples}
use ocellus_network_monitor.Ids.Score.{IdsResult}
use ocellus_network_monitor.Ids.Baseline
use ocellus_network_monitor.Ids.Baseline.{is_learning_phase}
use ocellus_network_monitor.Ids.Blacklist
use ocellus_network_monitor.Ids.Engine.{Clock, IdsEngine, new, analyze}
use ocellus_network_monitor.Ids.Engine.Run.{analyze_all, analyze_all-returns, analyze_blacklisted}

abbrev pub clock_at : ℕ → Clock
clock_at t = record {
  rate = record {
    created_refill = t;
    created_start = t;
    checked = t;
    restarted = t;
    consumed = t;
    sum = λ a b. a + b;
  };
  ports = t;
  sources = t;
  handshake = record { created = t; checked = t; restarted = t; opened = t };
}

abbrev pub syn_meta : TransportMeta
syn_meta = record {
  src_ip = v4 7;
  dst_ip = v4 2;
  src_port = some 4000;
  dst_port = some 80;
  protocol = 6;
  tcp_flags = some 2;
  ttl = 64;
  ip_flags = 0;
  ip_frag_offset = 0;
  icmp_type = none;
  icmp_code = none;
  eth_src_mac = none;
  vlan_id = none;
  payload_offset = 54;
}

abbrev pub syn_packet : RawPacket
syn_packet = record {
  timestamp = 5;
  bytes = [];
  orig_len = 54;
  cap_len = 54;
  interface = "eth0";
  link_type = ethernet;
  transport = some syn_meta;
  is_truncated = false;
  packet_id = 1;
  ids_score = 0;
  ids_flag = 0;
}

abbrev pub fresh : Baseline.Baseline whole_decimals
fresh = Baseline.new whole_decimals 0 none none

abbrev pub seven : Blacklist.Blacklist exact_bloom ascii_lowercase
seven = Blacklist.add_ip exact_bloom ascii_lowercase (Blacklist.new exact_bloom ascii_lowercase) 7

abbrev twice : List (Clock × RawPacket)
twice = (clock_at 5, syn_packet) ∷ (clock_at 6, syn_packet) ∷ []

analyze_all-returns_example :
    (results : List IdsResult) × (e' : IdsEngine samples) × (analyze_all samples
        (new samples fresh seven)
        twice
      ≡ done (results, e'))
    × (length results ≡ 2)
analyze_all-returns_example = analyze_all-returns samples fresh seven twice

analyze_blacklisted_example :
    (results : List IdsResult) × (e : IdsEngine samples) × (result : IdsResult) × (e' : IdsEngine
      samples)
    × (analyze_all samples (new samples fresh seven) twice ≡ done (results, e))
    × (analyze samples (clock_at 5) e syn_packet ≡ done (result, e'))
    × (result.flag_reason ≡ 7)
    × Mem (Blacklist.ip_signal exact_bloom ascii_lowercase) result.signals
    × (min 90 100 ≤ result.total_score)
unfolding Blacklist.new Blacklist.add_ip Blacklist.check_ip contains add ℕ_discrete
analyze_blacklisted_example =
    analyze_blacklisted samples fresh seven twice (clock_at 5) syn_packet syn_meta
      (Blacklist.ip_signal exact_bloom ascii_lowercase) refl refl

-- A baseline that was loaded with an ended learning phase.
abbrev pub trained : Baseline.Baseline whole_decimals
trained =
    Baseline.new whole_decimals 0 none
      (some (record (Baseline.default_state whole_decimals) { learned_at = 1 }))

-- A packet of a listed source without ports.
abbrev pub esp_meta : TransportMeta
esp_meta = record syn_meta { src_port = none; dst_port = none; tcp_flags = none; protocol = 50 }

abbrev pub esp_packet : RawPacket
esp_packet = record syn_packet { transport = some esp_meta }
