-- ===== src/Packet.antt =====
-- src/raw_packet.rs: what the capture thread knows of a packet. Bytes are numbers below 256, and
-- an address is the number that its bytes spell in network order.
use ocellus_network_monitor.Prelude.{ℕ, ◌+◌, ◌*◌, Bool, Option, List, String, ℕ_discrete}

-- `std::net::IpAddr`
pub data IpAddr : Type 0 where
  v4 : ℕ → IpAddr
  v6 : List ℕ → IpAddr

IpAddr_eq : Discrete IpAddr
IpAddr_eq = hlevel ℕ_discrete

unfoldable pub IpAddr-discrete : Discrete IpAddr
unfolding IpAddr_eq
IpAddr-discrete = IpAddr_eq

-- `Ipv4Addr::new(a, b, c, d)`, with `u32::from` of it as the representation
abbrev pub ipv4_new : ℕ → ℕ → ℕ → ℕ → IpAddr
ipv4_new a b c d = v4 (((a * 256 + b) * 256 + c) * 256 + d)

pub data LinkType : Type 0 where
  ethernet raw_ip loopback : LinkType
  unknown : ℕ → LinkType

pub record TransportMeta : Type 0 where
  pub src_ip : IpAddr
  pub dst_ip : IpAddr
  pub src_port : Option ℕ
  pub dst_port : Option ℕ
  pub protocol : ℕ
  pub tcp_flags : Option ℕ
  pub ttl : ℕ
  pub ip_flags : ℕ
  pub ip_frag_offset : ℕ
  pub icmp_type : Option ℕ
  pub icmp_code : Option ℕ
  pub eth_src_mac : Option (List ℕ)
  pub vlan_id : Option ℕ
  pub payload_offset : ℕ

-- `timestamp` is in nanoseconds since the epoch; `ids_score` is a whole number of points.
pub record RawPacket : Type 0 where
  pub timestamp : ℕ
  pub bytes : List ℕ
  pub orig_len : ℕ
  pub cap_len : ℕ
  pub interface : String
  pub link_type : LinkType
  pub transport : Option TransportMeta
  pub is_truncated : Bool
  pub packet_id : ℕ
  pub ids_score : ℕ
  pub ids_flag : ℕ
