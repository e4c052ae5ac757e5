-- ===== src/Capture/Parse.antt =====
-- `pcap_linktype_to_enum`, `parse_transport`, `parse_ipv4`, `parse_ipv6` and
-- `system_time_from_timeval` of src/capture.rs.
use ocellus_network_monitor.Prelude.{
  ℕ, ◌+◌, ◌*◌, ◌/◌, ◌%◌, ◌^◌, bit_and, not, ◌&&◌, ◌||◌, Option, none, some, List, [], ◌∷◌, length,
  drop, ◌==◌, leb, ltb, if◌then◌else◌, Outcome, done, panic, ◌>>=◌, index, slice, be_u16,
}
use ocellus_network_monitor.Packet.{
  v6, ipv4_new, LinkType, ethernet, raw_ip, loopback, unknown, TransportMeta,
}

unfoldable pub pcap_linktype_to_enum : ℕ → LinkType
pcap_linktype_to_enum n =
    if n == 1
    then ethernet
    else if n == 12
    then raw_ip
    else if n == 0
    then loopback
    else unknown (n % 2 ^ 32)

-- `Option`'s `?` in a function that can panic.
abbrev pub try_some {ℓ κ} :
    {A : Type ℓ} {B : Type κ} → Option A → (A → Outcome (Option B)) → Outcome (Option B)
try_some none f = done none
try_some (some a) f = f a

-- `xs.get(from..)`
abbrev pub get_from : List ℕ → ℕ → Option (List ℕ)
get_from xs from = if leb from (length xs) then some (drop from xs) else none

-- `<[u8; n]>::try_from(xs).ok()`
abbrev pub try_array : ℕ → List ℕ → Option (List ℕ)
try_array n xs = if length xs == n then some xs else none

-- The tuple of the inner `match`: ports, TCP flags, ICMP type and code, payload offset.
pub record AppFields : Type 0 where
  pub src_port : Option ℕ
  pub dst_port : Option ℕ
  pub tcp_flags : Option ℕ
  pub icmp_type : Option ℕ
  pub icmp_code : Option ℕ
  pub app_payload_offset : ℕ

unfoldable pub tcp_fields : List ℕ → ℕ → Outcome AppFields
tcp_fields tl payload_offset = do
  b12 ← index tl 12
  b0 ← index tl 0
  b1 ← index tl 1
  b2 ← index tl 2
  b3 ← index tl 3
  b13 ← index tl 13
  done (record {
    src_port = some (be_u16 b0 b1);
    dst_port = some (be_u16 b2 b3);
    tcp_flags = some b13;
    icmp_type = none;
    icmp_code = none;
    app_payload_offset = payload_offset + b12 / 2 ^ 4 * 4;
  })

unfoldable pub udp_fields : List ℕ → ℕ → Outcome AppFields
udp_fields tl payload_offset = do
  b0 ← index tl 0
  b1 ← index tl 1
  b2 ← index tl 2
  b3 ← index tl 3
  done (record {
    src_port = some (be_u16 b0 b1);
    dst_port = some (be_u16 b2 b3);
    tcp_flags = none;
    icmp_type = none;
    icmp_code = none;
    app_payload_offset = payload_offset + 8;
  })

unfoldable pub icmp_fields : List ℕ → ℕ → Outcome AppFields
icmp_fields tl payload_offset = do
  b0 ← index tl 0
  b1 ← index tl 1
  done (record {
    src_port = none;
    dst_port = none;
    tcp_flags = none;
    icmp_type = some b0;
    icmp_code = some b1;
    app_payload_offset = payload_offset + 8;
  })

unfoldable pub no_fields : ℕ → AppFields
no_fields payload_offset = record {
  src_port = none;
  dst_port = none;
  tcp_flags = none;
  icmp_type = none;
  icmp_code = none;
  app_payload_offset = payload_offset;
}

-- The inner `match` of `parse_ipv4`, where ICMP is protocol 1.
unfoldable pub match_proto_v4 : ℕ → List ℕ → ℕ → Outcome AppFields
match_proto_v4 proto tl payload_offset =
    if proto == 6 && leb 20 (length tl)
    then tcp_fields tl payload_offset
    else if proto == 17 && leb 8 (length tl)
    then udp_fields tl payload_offset
    else if proto == 1 && leb 4 (length tl)
    then icmp_fields tl payload_offset
    else done (no_fields payload_offset)

-- The inner `match` of `parse_ipv6`, where ICMP is protocol 58.
unfoldable pub match_proto_v6 : ℕ → List ℕ → ℕ → Outcome AppFields
match_proto_v6 proto tl payload_offset =
    if proto == 6 && leb 20 (length tl)
    then tcp_fields tl payload_offset
    else if proto == 17 && leb 8 (length tl)
    then udp_fields tl payload_offset
    else if proto == 58 && leb 4 (length tl)
    then icmp_fields tl payload_offset
    else done (no_fields payload_offset)

-- `& 0x1FFF` and `* 8` are in `u16`.
abbrev pub frag_bytes : ℕ → ℕ
frag_bytes flags_frag = bit_and flags_frag 0x1FFF * 8 % 2 ^ 16

unfoldable pub parse_ipv4 : List ℕ → ℕ → Option (List ℕ) → Option ℕ → Outcome (Option TransportMeta)
parse_ipv4 ip ip_offset eth_src_mac vlan_id = if ltb (length ip) 20 then done none else do
  b0 ← index ip 0
  let ihl = bit_and b0 0x0F * 4
  if ltb ihl 20 || ltb (length ip) ihl then done none else do
    ttl ← index ip 8
    proto ← index ip 9
    f0 ← index ip 6
    f1 ← index ip 7
    s0 ← index ip 12
    s1 ← index ip 13
    s2 ← index ip 14
    s3 ← index ip 15
    d0 ← index ip 16
    d1 ← index ip 17
    d2 ← index ip 18
    d3 ← index ip 19
    try_some (get_from ip ihl) (λ tl. do
      app ← match_proto_v4 proto tl (ip_offset + ihl)
      done (
          some (record {
            src_ip = ipv4_new s0 s1 s2 s3;
            dst_ip = ipv4_new d0 d1 d2 d3;
            src_port = app.src_port;
            dst_port = app.dst_port;
            protocol = proto;
            tcp_flags = app.tcp_flags;
            ttl = ttl;
            ip_flags = bit_and (be_u16 f0 f1 / 2 ^ 13) 0x07;
            ip_frag_offset = frag_bytes (be_u16 f0 f1);
            icmp_type = app.icmp_type;
            icmp_code = app.icmp_code;
            eth_src_mac = eth_src_mac;
            vlan_id = vlan_id;
            payload_offset = app.app_payload_offset;
          })))

unfoldable pub parse_ipv6 : List ℕ → ℕ → Option (List ℕ) → Option ℕ → Outcome (Option TransportMeta)
parse_ipv6 ip ip_offset eth_src_mac vlan_id = if ltb (length ip) 40 then done none else do
  proto ← index ip 6
  ttl ← index ip 7
  src ← slice ip 8 24
  try_some (try_array 16 src) (λ src_ip. do
    dst ← slice ip 24 40
    try_some (try_array 16 dst) (λ dst_ip. try_some (get_from ip 40) (λ tl. do
      app ← match_proto_v6 proto tl (ip_offset + 40)
      done (
          some (record {
            src_ip = v6 src_ip;
            dst_ip = v6 dst_ip;
            src_port = app.src_port;
            dst_port = app.dst_port;
            protocol = proto;
            tcp_flags = app.tcp_flags;
            ttl = ttl;
            ip_flags = 0;
            ip_frag_offset = 0;
            icmp_type = app.icmp_type;
            icmp_code = app.icmp_code;
            eth_src_mac = eth_src_mac;
            vlan_id = vlan_id;
            payload_offset = app.app_payload_offset;
          })))))

-- What the layer 2 `match` hands on: the IP offset, the MAC address and the VLAN.
pub record Layer2 : Type 0 where
  pub ip_offset : ℕ
  pub eth_src_mac : Option (List ℕ)
  pub vlan_id : Option ℕ

-- The end of the Ethernet arm: only IPv4 and IPv6 go on.
abbrev pub accept_etype : ℕ → Layer2 → Option Layer2
accept_etype etype l2 = if not (etype == 0x0800) && not (etype == 0x86DD) then none else some l2

unfoldable pub parse_ethernet : List ℕ → Outcome (Option Layer2)
parse_ethernet frame = if ltb (length frame) 14 then done none else do
  mac ← slice frame 6 12
  e0 ← index frame 12
  e1 ← index frame 13
  if be_u16 e0 e1 == 0x8100 && ltb 18 (length frame)
      then (do
        t0 ← index frame 14
        t1 ← index frame 15
        i0 ← index frame 16
        i1 ← index frame 17
        done (
            accept_etype (be_u16 i0 i1) (record {
              ip_offset = 18;
              eth_src_mac = try_array 6 mac;
              vlan_id = some (bit_and (be_u16 t0 t1) 0x0FFF);
            })))
      else done (
          accept_etype (be_u16 e0 e1)
            (record { ip_offset = 14; eth_src_mac = try_array 6 mac; vlan_id = none }))

unfoldable pub layer2 : List ℕ → LinkType → Outcome (Option Layer2)
layer2 frame ethernet = parse_ethernet frame
layer2 frame loopback = done (some (record { ip_offset = 4; eth_src_mac = none; vlan_id = none }))
layer2 frame raw_ip = done (some (record { ip_offset = 0; eth_src_mac = none; vlan_id = none }))
layer2 frame (unknown n) = done none

-- The dispatch on the version nibble, `(ip.first()? >> 4) & 0xF`.
unfoldable pub parse_ip : List ℕ → Layer2 → Outcome (Option TransportMeta)
parse_ip [] l2 = done none
parse_ip (b ∷ rest) l2 =
    let version = bit_and (b / 2 ^ 4) 0xF in
    if version == 4
    then parse_ipv4 (b ∷ rest) l2.ip_offset l2.eth_src_mac l2.vlan_id
    else if version == 6
    then parse_ipv6 (b ∷ rest) l2.ip_offset l2.eth_src_mac l2.vlan_id
    else done none

unfoldable pub parse_transport : List ℕ → LinkType → Outcome (Option TransportMeta)
parse_transport frame link_type = do
  header ← layer2 frame link_type
  try_some header (λ l2. try_some (get_from frame l2.ip_offset) (λ ip. parse_ip ip l2))

-- Seconds and microseconds to nanoseconds since the epoch, both as unsigned numbers. `micros * 1000` is in
-- `u32`; `Duration::new` carries whole seconds, and the sum with `UNIX_EPOCH` panics where the seconds do
-- not fit `i64`.
unfoldable pub system_time_from_timeval : ℕ → ℕ → Outcome ℕ
system_time_from_timeval secs micros =
    let nanos = micros * 1000 % 2 ^ 32 in
    let whole = secs + nanos / 10 ^ 9 in
    if ltb whole (2 ^ 63) then done (whole * 10 ^ 9 + nanos % 10 ^ 9) else panic
