-- ===== src/Client/Heartbeat/Reports/Tests.antt =====
-- A packet that the detectors flagged, and the heartbeats before and after it.
use ocellus_network_monitor.Prelude.{
  ℕ, ◌/◌, ◌≡◌, refl, none, some, List, [], ◌∷◌, map, arith, inr, ◌⊎◌, false,
}
use ocellus_network_monitor.Packet.{IpAddr, v4, ethernet, RawPacket}
use ocellus_network_monitor.Text.{
  Str, parse_u32, digits_from, is_whitespace, words_from, has_prefix, lines_from,
}
use ocellus_network_monitor.Client.{received}
use ocellus_network_monitor.Client.Heartbeat.{
  Float32, HeartbeatConfig, RegisterAgentRequest, RegisterAgentResponse, unknown, Reading,
  tasks_started, Event, stream_wakes, beat_due, beat_cancelled, run_tasks, register_agent,
  hostname_or_default, read_mem_usage_mb, mem_of_lines,
}
use ocellus_network_monitor.Client.Heartbeat.Reports.{
  beats_at, reported, expected, heartbeats_report,
}

abbrev whole : Float32
whole = record { F32 = ℕ; of_nat = λ n. n; parse = λ s. parse_u32 s; div = λ a b. a / b }

abbrev rss_line : Str
rss_line =
    b'P' ∷ 10 ∷ b'V' ∷ b'm' ∷ b'R' ∷ b'S' ∷ b'S' ∷ b':' ∷ 9 ∷ b' ' ∷ b'4' ∷ b'0' ∷ b'9' ∷ b'6'
    ∷ b' ' ∷ b'k' ∷ b'B' ∷ 10 ∷ []

four_mb : read_mem_usage_mb whole (some rss_line) ≡ 4
unfolding read_mem_usage_mb mem_of_lines parse_u32 digits_from is_whitespace words_from has_prefix
    lines_from
four_mb = refl

abbrev refuses : RegisterAgentRequest → ℕ ⊎ RegisterAgentResponse
refuses req = inr (record { ok = false; message = req.hostname })

refused : register_agent refuses none "linux" "token" "agent" "0.1.0" ≡ some (unknown "unknown")
unfolding register_agent hostname_or_default
refused = refl

abbrev flagged_packet : RawPacket
flagged_packet = record {
  timestamp = 1;
  bytes = [];
  orig_len = 84;
  cap_len = 84;
  interface = "eth0";
  link_type = ethernet;
  transport = some (record {
    src_ip = v4 1;
    dst_ip = v4 2;
    src_port = none;
    dst_port = none;
    protocol = 1;
    tcp_flags = none;
    ttl = 64;
    ip_flags = 0;
    ip_frag_offset = 0;
    icmp_type = some 8;
    icmp_code = some 0;
    eth_src_mac = none;
    vlan_id = none;
    payload_offset = 42;
  });
  is_truncated = false;
  packet_id = 1;
  ids_score = 90;
  ids_flag = 7;
}

abbrev no_hash : List ℕ → List ℕ
no_hash bytes = []

abbrev no_text : IpAddr → Str
no_text ip = []

abbrev cfg : HeartbeatConfig
cfg = record {
  agent_id = "agent";
  interval = 10;
  agent_version = "0.1.0";
  hostname = "host";
  os_info = "linux";
}

abbrev reading : Reading
reading = record { now = some 5; status = some rss_line }

abbrev events : List (Event whole)
events =
    beat_due reading
    ∷ stream_wakes (received (some flagged_packet))
    ∷ beat_due reading
    ∷ beat_cancelled
    ∷ []

heartbeats_report_example :
    map (reported whole) (run_tasks whole no_hash no_text cfg 2 (tasks_started whole) events).beats
    ≡ map (expected whole no_hash no_text cfg 2) (beats_at whole [] events)
heartbeats_report_example = heartbeats_report whole no_hash no_text cfg 2 events (omega arith)
