-- ===== src/Ids/Engine/Checks.antt =====
-- src/ids/mod.rs: the report that `analyze` builds, and its checks that need no detector.
use ocellus_network_monitor.Prelude.{
  ℕ, Bool, false, not, ◌&&◌, ◌||◌, Option, none, some, String, List, [], ◌∷◌, ◌++◌, length, ltb,
  leb, ◌==◌, if◌then◌else◌, ℕ_discrete, bit_and, Outcome, done, ◌>>=◌, slice_from,
}
use ocellus_network_monitor.Prelude.Map.{contains}
use ocellus_network_monitor.Packet.{TransportMeta, RawPacket}
use ocellus_network_monitor.Text.{Str}
use ocellus_network_monitor.Ids.Score.{
  Signal, score_unusual_port_network, score_unusual_port_global,
}
use ocellus_network_monitor.Ids.Dns
use ocellus_network_monitor.Ids.Dns.{Floats}

abbrev pub well_known_ports : List ℕ
well_known_ports =
    20 ∷ 21 ∷ 22 ∷ 23 ∷ 25 ∷ 53 ∷ 67 ∷ 68 ∷ 69 ∷ 80 ∷ 110 ∷ 111 ∷ 119 ∷ 123 ∷ 135 ∷ 137 ∷ 138 ∷ 139
    ∷ 143 ∷ 161 ∷ 162 ∷ 179 ∷ 194 ∷ 389 ∷ 443 ∷ 445 ∷ 464 ∷ 465 ∷ 514 ∷ 515 ∷ 587 ∷ 631 ∷ 636 ∷ 993
    ∷ 995 ∷ 1080 ∷ 1194 ∷ 1433 ∷ 1521 ∷ 1723 ∷ 3306 ∷ 3389 ∷ 5432 ∷ 5900 ∷ 6379 ∷ 8080 ∷ 8443 ∷ 8888
    ∷ []

-- `primary_flag` and `signals`.
pub record Report : Type 0 where
  pub flag : ℕ
  pub signals : List Signal

abbrev pub empty_report : Report
empty_report = record { flag = 0; signals = [] }

-- A signal that leaves the flag alone.
abbrev pub note : Signal → Report → Report
note s r = record { flag = r.flag; signals = r.signals ++ (s ∷ []) }

-- A signal that sets the flag if none is set.
unfoldable pub raise : ℕ → Signal → Report → Report
raise flag s r = record {
  flag = if r.flag == 0 then flag else r.flag;
  signals = r.signals ++ (s ∷ []);
}

unfoldable pub raise_option : ℕ → Option Signal → Report → Report
raise_option flag none r = r
raise_option flag (some s) r = raise flag s r

unfoldable pub raise_all : ℕ → List Signal → Report → Report
raise_all flag [] r = r
raise_all flag (s ∷ ss) r = raise_all flag ss (raise flag s r)

-- The source address of a packet sets the flag outright.
unfoldable pub check_source : Option Signal → Report → Report
check_source none r = r
check_source (some s) r = record { flag = 7; signals = r.signals ++ (s ∷ []) }

unfoldable pub note_if : Bool → Signal → Report → Report
note_if b s r = if b then note s r else r

abbrev pub plain_signal : String → ℕ → Signal
plain_signal name score = record { name = name; score = score }

-- The checks on the header fields: ICMP type, fragmentation, truncation.
abbrev pub is_unusual_icmp : TransportMeta → Option ℕ → Option ℕ → Bool
is_unusual_icmp tm none icmp_code = false
is_unusual_icmp tm (some icmp_type) none = false
is_unusual_icmp tm (some icmp_type) (some icmp_code) = tm.protocol == 1 && leb 30 icmp_type

unfoldable pub check_headers : RawPacket → TransportMeta → Report → Report
check_headers pkt tm r = note_if pkt.is_truncated (plain_signal "packet_truncated" 10) (
    note_if (ltb 0 tm.ip_frag_offset || not (bit_and tm.ip_flags 0x01 == 0))
      (plain_signal "ip_fragmentation" 20)
      (note_if (is_unusual_icmp tm tm.icmp_type tm.icmp_code) (plain_signal "icmp_unusual_type" 25)
        r))

unfoldable pub check_vlan : Option ℕ → Report → Report
check_vlan none r = r
check_vlan (some vid) r = note_if (vid == 0 || vid == 4095) (plain_signal "vlan_reserved_id" 20) r

abbrev pub is_port : Option ℕ → ℕ → Bool
is_port none p = false
is_port (some q) p = q == p

-- `tm.payload_offset > 0 && tm.payload_offset < pkt.data.len()`
abbrev pub has_payload : RawPacket → TransportMeta → Bool
has_payload pkt tm = ltb 0 tm.payload_offset && ltb tm.payload_offset (length pkt.bytes)

unfoldable pub dns_query_name : RawPacket → TransportMeta → Outcome (Option Str)
dns_query_name pkt tm =
    if tm.protocol == 17
      && ((is_port tm.dst_port 53 || is_port tm.src_port 53) && has_payload pkt tm)
    then (do payload ← slice_from pkt.bytes tm.payload_offset; Dns.extract_dns_query_name payload)
    else done none

-- `f & 0x02 != 0 && f & 0x10 == 0`
abbrev pub is_syn : Option ℕ → Bool
is_syn none = false
is_syn (some f) = not (bit_and f 0x02 == 0) && bit_and f 0x10 == 0

abbrev pub port_score : ℕ → ℕ
port_score dst_port =
    if contains ℕ_discrete dst_port well_known_ports
    then score_unusual_port_network
    else score_unusual_port_global
