-- ===== src/Analyzer/Scores/Tests.antt =====
-- Two packets, the second of which a worker picks first.
use ocellus_network_monitor.Prelude.{
  ◌+◌, ℕ, ◌≡◌, refl, none, some, false, List, [], ◌∷◌, length, get_elem?, done, arith,
}
use ocellus_network_monitor.Packet.{v4, ethernet, RawPacket}
use ocellus_network_monitor.Mpsc.Queue.{list_channel}
use ocellus_network_monitor.Ids.Samples.{exact_bloom, ascii_lowercase, whole_decimals, samples}
use ocellus_network_monitor.Ids.Baseline
use ocellus_network_monitor.Ids.Blacklist
use ocellus_network_monitor.Ids.Engine.{Clock, IdsEngine, new}
use ocellus_network_monitor.Analyzer.{Job, score_batch}
use ocellus_network_monitor.Analyzer.Batch.{Schedules}
use ocellus_network_monitor.Analyzer.Scores.{IsScored, score_batch-IsScored}

abbrev clock_at : ℕ → Clock
clock_at t = record {
  rate = record {
    created_refill = t;
    created_start = t;
    checked = t;
    restarted = t;
    consumed = t;
    sum = λ a b. a + b;
  };
  ports = t;
  sources = t;
  handshake = record { created = t; checked = t; restarted = t; opened = t };
}

abbrev esp : ℕ → RawPacket
esp n = record {
  timestamp = n;
  bytes = [];
  orig_len = 54;
  cap_len = 54;
  interface = "eth0";
  link_type = ethernet;
  transport = some (record {
    src_ip = v4 n;
    dst_ip = v4 2;
    src_port = none;
    dst_port = none;
    protocol = 50;
    tcp_flags = none;
    ttl = 64;
    ip_flags = 0;
    ip_frag_offset = 0;
    icmp_type = none;
    icmp_code = none;
    eth_src_mac = none;
    vlan_id = none;
    payload_offset = 34;
  });
  is_truncated = false;
  packet_id = n;
  ids_score = 0;
  ids_flag = 0;
}

abbrev fresh : IdsEngine samples
fresh =
    new samples (Baseline.new whole_decimals 0 none none)
      (Blacklist.new exact_bloom ascii_lowercase)

abbrev batch : List RawPacket
batch = esp 7 ∷ esp 8 ∷ []

abbrev jobs : List Job
jobs = (1, clock_at 5) ∷ (0, clock_at 6) ∷ []

jobs-Schedules : Schedules 2 jobs
jobs-Schedules = record {
  within = (omega arith, (omega arith, tt));
  once = (refl, (refl, tt));
  covers = (refl, (refl, tt));
}

score_batch-IsScored_example :
    (ps' : List RawPacket) × (e' : IdsEngine samples) × (p' : RawPacket) × (score_batch samples
        list_channel jobs fresh batch
      ≡ done (ps', e'))
    × (length ps' ≡ length batch)
    × (get_elem? ps' 1 ≡ some p')
    × IsScored samples list_channel 1 jobs fresh batch (esp 8) p'
unfolding new
score_batch-IsScored_example =
    score_batch-IsScored samples list_channel jobs fresh batch 1 (esp 8) refl jobs-Schedules refl
