-- ===== src/Startup/Files/Tests.antt =====
-- A list with a comment and one address, and a packet from it.
use ocellus_network_monitor.Prelude.{
  ◌+◌, ◌≡◌, ◌≤◌, refl, Option, none, some, false, [], ◌∷◌, ◌++◌, done,
}
use ocellus_network_monitor.Packet.{v4, ethernet, RawPacket, TransportMeta}
use ocellus_network_monitor.Text.{
  Str, lines, lines_from, strip_cr, trim, trim_start, trim_end, is_whitespace, parse_ipv4,
  parse_octet, split_from, digits_from,
}
use ocellus_network_monitor.Ids.Samples.{samples, whole_decimals}
use ocellus_network_monitor.Ids.Score.{IdsResult}
use ocellus_network_monitor.Ids.Baseline
use ocellus_network_monitor.Ids.Blacklist.Files.{IsAddressLine}
use ocellus_network_monitor.Ids.Geo.{Maxmind}
use ocellus_network_monitor.Ids.Engine.{Clock, IdsEngine, analyze}
use ocellus_network_monitor.Startup.{Environment, with_geo, build_geo, build_engine}
use ocellus_network_monitor.Startup.Files.{started_flags}

abbrev comment : Str
comment = b'#' ∷ b'l' ∷ []

abbrev entry : Str
entry = b' ' ∷ b'0' ∷ b'.' ∷ b'0' ∷ b'.' ∷ b'1' ∷ b'.' ∷ b'7' ∷ []

abbrev content : Str
content = comment ++ (10 ∷ (entry ++ (10 ∷ [])))

abbrev env : Environment
env = record {
  ids_baseline_path = none;
  geoip_mmdb_path = some [];
  ids_ip_blacklist_path = some [];
  ids_domain_blacklist_path = none;
  hostname = none;
  read_to_string = λ p. some content;
}

abbrev no_database : Maxmind
no_database = record { Reader = Str; open_readfile = λ p. none; lookup = λ r ip. none }

abbrev no_state : Str → Option (Baseline.BaselineState whole_decimals)
no_state s = none

abbrev clock : Clock
clock = record {
  rate = record {
    created_refill = 5;
    created_start = 5;
    checked = 5;
    restarted = 5;
    consumed = 5;
    sum = λ a b. a + b;
  };
  ports = 5;
  sources = 5;
  handshake = record { created = 5; checked = 5; restarted = 5; opened = 5 };
}

abbrev esp : TransportMeta
esp = record {
  src_ip = v4 263;
  dst_ip = v4 2;
  src_port = none;
  dst_port = none;
  protocol = 50;
  tcp_flags = none;
  ttl = 64;
  ip_flags = 0;
  ip_frag_offset = 0;
  icmp_type = none;
  icmp_code = none;
  eth_src_mac = none;
  vlan_id = none;
  payload_offset = 34;
}

abbrev esp_packet : RawPacket
esp_packet = record {
  timestamp = 5;
  bytes = [];
  orig_len = 54;
  cap_len = 54;
  interface = "eth0";
  link_type = ethernet;
  transport = some esp;
  is_truncated = false;
  packet_id = 1;
  ids_score = 0;
  ids_flag = 0;
}

content-lines : lines content ≡ (comment ∷ []) ++ (entry ∷ [])
unfolding lines_from strip_cr
content-lines = refl

entry-IsAddressLine : IsAddressLine (trim entry) 263
unfolding trim trim_start trim_end is_whitespace parse_ipv4 parse_octet split_from digits_from
entry-IsAddressLine = record { kept = refl; single = refl; parsed = refl }

started_flags_example :
    let with_lookup = with_geo no_database samples (build_geo no_database env) in
    (result : IdsResult) × (e' : IdsEngine with_lookup) × (analyze with_lookup clock
        (build_engine samples no_database no_state env 0)
        esp_packet
      ≡ done (result, e'))
    × (result.flag_reason ≡ 7)
    × (90 ≤ result.total_score)
started_flags_example =
    started_flags samples no_database no_state env 0 content entry (comment ∷ []) [] 263 clock
      esp_packet esp refl content-lines entry-IsAddressLine refl refl
