-- ===== src/Client/Tests.antt =====
-- A stream of three packets with a batch size of two.
use ocellus_network_monitor.Prelude.{
  ℕ, ◌%◌, ◌^◌, ◌<◌, ◌≡◌, refl, true, false, none, some, List, [], ◌∷◌, ◌++◌, ◌||◌, ◌==◌, length,
  All, arith,
}
use ocellus_network_monitor.Packet.{IpAddr, v4, ethernet, RawPacket}
use ocellus_network_monitor.Text.{Str}
use ocellus_network_monitor.Client.{
  Wake, received, ticked, cancelled, start, decode_tcp_flags, run_packet_stream,
}
use ocellus_network_monitor.Client.Batches.{
  events_of, messages, IsSized, Numbered, run_packet_stream_delivers,
}

syn_ack_names : decode_tcp_flags 18 ≡ "SYN" ∷ "ACK" ∷ []
unfolding decode_tcp_flags
syn_ack_names = refl

abbrev no_hash : List ℕ → List ℕ
no_hash bytes = []

abbrev no_text : IpAddr → Str
no_text ip = []

abbrev ping : ℕ → RawPacket
ping n = record {
  timestamp = n;
  bytes = [];
  orig_len = 84;
  cap_len = 84;
  interface = "eth0";
  link_type = ethernet;
  transport = some (record {
    src_ip = v4 1;
    dst_ip = v4 2;
    src_port = none;
    dst_port = none;
    protocol = 1;
    tcp_flags = none;
    ttl = 64;
    ip_flags = 0;
    ip_frag_offset = 0;
    icmp_type = some 8;
    icmp_code = some 0;
    eth_src_mac = none;
    vlan_id = none;
    payload_offset = 42;
  });
  is_truncated = false;
  packet_id = n;
  ids_score = 0;
  ids_flag = 0;
}

abbrev three_pings : List Wake
three_pings =
    received (some (ping 1))
    ∷ ticked
    ∷ received (some (ping 2))
    ∷ received (some (ping 3))
    ∷ cancelled
    ∷ []

run_packet_stream_delivers_example :
    let s = run_packet_stream no_hash no_text "agent" 2 start three_pings in
    (events_of s.handed ++ s.pending ≡ messages no_hash no_text "agent" three_pings)
    × All (IsSized 2) s.handed
    × Numbered 0 s.handed
    × (length s.pending < 2)
    × ((s.running || length s.pending == 0) ≡ true)
    × (s.captured ≡ length (messages no_hash no_text "agent" three_pings) % 2 ^ 64)
run_packet_stream_delivers_example =
    run_packet_stream_delivers no_hash no_text "agent" 2 three_pings (omega arith)
