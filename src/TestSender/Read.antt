-- ===== src/TestSender/Read.antt =====
-- What the parser of the capture and the test sender itself read in a frame.
use ocellus_network_monitor.Prelude.{
  ℕ, ◌+◌, ◌/◌, ◌%◌, ◌^◌, ◌≤◌, ◌<◌, ◌≡◌, refl, ap, bit_and, true, false, ◌&&◌, ◌||◌, Bool-cases, inl,
  inr, Option, none, some, List, ◌++◌, length, drop, ◌==◌, leb, ltb, arith, tests, index,
  from_option, slice, be_u16, Ensures, Ensures-bind, Ensures-guard, Ensures-index,
}
use ocellus_network_monitor.Prelude.Bits.{bit_and-ones}
use ocellus_network_monitor.Packet.{ipv4_new, ethernet, TransportMeta}
use ocellus_network_monitor.Capture.Parse.{
  AppFields, tcp_fields, udp_fields, icmp_fields, parse_transport, layer2, parse_ethernet, parse_ip,
  parse_ipv4, match_proto_v4,
}
use ocellus_network_monitor.TestSender.{Draws, draw, transport_of}
use ocellus_network_monitor.TestSender.Build.{headers, port_bytes}

-- The metadata has the drawn addresses, time to live and protocol, no fragmentation, no VLAN, and
-- these ports.
unfoldable pub Reads : Draws → ℕ → Option ℕ → Option ℕ → TransportMeta → Type 0
Reads d proto src_port dst_port tm =
    (tm.src_ip ≡ ipv4_new d.src0 d.src1 d.src2 d.src3)
    × (tm.dst_ip ≡ ipv4_new d.dst0 d.dst1 d.dst2 d.dst3)
    × (tm.protocol ≡ proto)
    × (tm.ttl ≡ d.ttl)
    × (tm.ip_flags ≡ 0)
    × (tm.ip_frag_offset ≡ 0)
    × (tm.eth_src_mac ≡ some (draw 6 λ i. d.macs (6 + i)))
    × (tm.vlan_id ≡ none)
    × (tm.src_port ≡ src_port)
    × (tm.dst_port ≡ dst_port)

-- The parser reads metadata, with the ports of the fields of the upper layer.
abbrev pub Parsed : (AppFields → Type 0) → Draws → ℕ → Option TransportMeta → Type 0
Parsed Q d proto o =
    (tm : TransportMeta) × (app : AppFields) × (o ≡ some tm)
    × Q app
    × Reads d proto app.src_port app.dst_port tm

pub parse_transport-Parsed :
    (Q : AppFields → Type 0) (d : Draws) (proto ip_len : ℕ) (rest : List ℕ)
    → Ensures Q (match_proto_v4 proto rest 34)
    → Ensures (Parsed Q d proto) (parse_transport (headers d proto ip_len ++ rest) ethernet)
unfolding parse_transport layer2 parse_ethernet parse_ip parse_ipv4 index from_option slice Reads
parse_transport-Parsed Q d proto ip_len rest h =
    let frame = headers d proto ip_len ++ rest in
    let ip = drop 14 frame in
    let h1 : ltb (length frame) 14 ≡ false = omega tests in
    let h2 : leb 12 (length frame) ≡ true = omega tests in
    let h3 : leb 14 (length frame) ≡ true = omega tests in
    let h4 : ltb (length ip) 20 ≡ false = omega tests in
    let h5 : leb 20 (length ip) ≡ true = omega tests in
    rw (h1, h2, h3, h4, h5)
      (Ensures-bind (Parsed Q d proto) Q (match_proto_v4 proto rest 34) _ h
        λ app q. (_, app, refl, q, (refl, refl, refl, refl, refl, refl, refl, refl, refl, refl)))

abbrev pub Any : AppFields → Type 0
Any app = Unit {0}

tcp_fields-returns : (tl : List ℕ) (o : ℕ) → 20 ≤ length tl → Ensures Any (tcp_fields tl o)
unfolding tcp_fields
tcp_fields-returns tl o h = Ensures-index Any tl 12 _ (omega arith) λ b12 _.
    Ensures-index Any tl 0 _ (omega arith) λ b0 _. Ensures-index Any tl 1 _ (omega arith) λ b1 _.
      Ensures-index Any tl 2 _ (omega arith) λ b2 _.
        Ensures-index Any tl 3 _ (omega arith)
          λ b3 _. Ensures-index Any tl 13 _ (omega arith) λ b13 _. tt

udp_fields-returns : (tl : List ℕ) (o : ℕ) → 8 ≤ length tl → Ensures Any (udp_fields tl o)
unfolding udp_fields
udp_fields-returns tl o h = Ensures-index Any tl 0 _ (omega arith) λ b0 _.
    Ensures-index Any tl 1 _ (omega arith) λ b1 _.
      Ensures-index Any tl 2 _ (omega arith)
        λ b2 _. Ensures-index Any tl 3 _ (omega arith) λ b3 _. tt

icmp_fields-returns : (tl : List ℕ) (o : ℕ) → 4 ≤ length tl → Ensures Any (icmp_fields tl o)
unfolding icmp_fields
icmp_fields-returns tl o h =
    Ensures-index Any tl 0 _ (omega arith) λ b0 _. Ensures-index Any tl 1 _ (omega arith) λ b1 _. tt

-- The parser's upper layer returns, whatever the bytes.
pub match_proto_v4-returns :
    (proto : ℕ) (tl : List ℕ) (o : ℕ) → Ensures Any (match_proto_v4 proto tl o)
unfolding match_proto_v4
match_proto_v4-returns proto tl o =
    Ensures-guard Any (proto == 6 && leb 20 (length tl)) _ _
      (λ h. tcp_fields-returns tl o (ground arith))
      λ _.
        Ensures-guard Any (proto == 17 && leb 8 (length tl)) _ _
          (λ h. udp_fields-returns tl o (ground arith))
          λ _.
            Ensures-guard Any (proto == 1 && leb 4 (length tl)) _ _
              (λ h. icmp_fields-returns tl o (ground arith)) λ _. tt

port_digits : (p : ℕ) → p < 2 ^ 16 → be_u16 (p / 2 ^ 8 % 2 ^ 8) (bit_and p 0xFF) ≡ p
port_digits p h = omega (arith, bit_and-ones 8 p)

-- The sender's metadata of a frame.
abbrev pub Described : Draws → ℕ → Option ℕ → Option ℕ → Option TransportMeta → Type 0
Described d proto src_port dst_port o =
    (tm : TransportMeta) × (o ≡ some tm) × Reads d proto src_port dst_port tm

pub transport_of-icmp :
    (d : Draws) (ip_len : ℕ) (rest : List ℕ)
    → Ensures (Described d 1 none none) (transport_of (headers d 1 ip_len ++ rest))
unfolding transport_of index from_option slice Reads
transport_of-icmp d ip_len rest =
    let frame = headers d 1 ip_len ++ rest in
    let h1 : leb 34 (length frame) ≡ true = omega tests in
    let h2 : leb 12 (length frame) ≡ true = omega tests in
    rw (h1, h2) (_, refl, (refl, refl, refl, refl, refl, refl, refl, refl, refl, refl))

pub transport_of-ports :
    (d : Draws) (proto ip_len : ℕ) (rest : List ℕ)
    → (proto == 1) ≡ false
    → d.src_port < 2 ^ 16
    → d.dst_port < 2 ^ 16
    → Ensures
        (Described d proto (some d.src_port) (some d.dst_port))
        (transport_of (headers d proto ip_len ++ (port_bytes d ++ rest)))
unfolding transport_of index from_option slice Reads
transport_of-ports d proto ip_len rest n s t =
    let frame = headers d proto ip_len ++ (port_bytes d ++ rest) in
    let h1 : leb 34 (length frame) ≡ true = omega tests in
    let h2 : leb 12 (length frame) ≡ true = omega tests in
    let h3 : ltb 37 (length frame) ≡ true = omega tests in
    rw (h1, h2, h3, n)
      (
        _,
        refl,
        (
          refl,
          refl,
          refl,
          refl,
          refl,
          refl,
          refl,
          refl,
          ap some (port_digits d.src_port s),
          ap some (port_digits d.dst_port t),
        ),
      )

-- The ports of an upper layer that is TCP or UDP.
abbrev pub DrawnPorts : Draws → AppFields → Type 0
DrawnPorts d app = (app.src_port ≡ some d.src_port) × (app.dst_port ≡ some d.dst_port)

pub match_proto_v4-ports :
    (d : Draws) (proto : ℕ) (more : List ℕ)
    → (proto == 6 || proto == 17) ≡ true
    → 16 ≤ length more
    → d.src_port < 2 ^ 16
    → d.dst_port < 2 ^ 16
    → Ensures (DrawnPorts d) (match_proto_v4 proto (port_bytes d ++ more) 34)
unfolding match_proto_v4 tcp_fields udp_fields index from_option
match_proto_v4-ports d proto more h k s t =
    let tl = port_bytes d ++ more in
    let sp : some (be_u16 (d.src_port / 2 ^ 8 % 2 ^ 8) (bit_and d.src_port 0xFF))
        ≡ some d.src_port =
      ap some (port_digits d.src_port s) in
    let dp : some (be_u16 (d.dst_port / 2 ^ 8 % 2 ^ 8) (bit_and d.dst_port 0xFF))
        ≡ some d.dst_port =
      ap some (port_digits d.dst_port t) in
    let h20 : leb 20 (length tl) ≡ true = omega tests in
    let h8 : leb 8 (length tl) ≡ true = omega tests in
    elim (Bool-cases (proto == 6)) [
      | inl e ↦
          rw (e, h20)
            (Ensures-index (DrawnPorts d) tl 12 _ (omega arith)
              λ b12 _. Ensures-index (DrawnPorts d) tl 13 _ (omega arith) λ b13 _. (sp, dp))
      | inr e ↦ let u : (proto == 17) ≡ true = ground arith in rw (e, u, h8) (sp, dp)
    ]
