-- ===== src/TestSender/Frames.antt =====
-- The frames of the test sender, read back by the parser of the capture.
use ocellus_network_monitor.Prelude.{
  ℕ, zero, suc, ◌+◌, ◌^◌, ◌<◌, ◌≡◌, refl, sym, ◌∙◌, ap, false, Option, none, some, List, [], ◌∷◌,
  ◌++◌, ◌==◌, arith, done, ◌>>=◌, index, get_elem?, index-get_elem?, Ensures, Ensures-done,
}
use ocellus_network_monitor.Packet.{ethernet, TransportMeta, RawPacket}
use ocellus_network_monitor.Capture.Parse.{AppFields, parse_transport, match_proto_v4}
use ocellus_network_monitor.TestSender.{
  Draws, draw, frame_of, build_frame, transport_of, raw_of, frame_to_raw,
}
use ocellus_network_monitor.TestSender.Build.{
  headers, port_bytes, ip_len_of, frame_of-icmp, frame_of-ports,
}
use ocellus_network_monitor.TestSender.Read.{
  Reads, Parsed, Described, Any, parse_transport-Parsed, match_proto_v4-returns, transport_of-icmp,
  transport_of-ports,
}

-- The sender's metadata of a frame, and what the parser reads in it, with its upper layer.
abbrev Sent : (AppFields → Type 0) → Draws → ℕ → List ℕ → Option ℕ → Option ℕ → Type 0
Sent Q d now bytes src_port dst_port =
    (raw : RawPacket) × (tm tm' : TransportMeta) × (proto : ℕ) × (app : AppFields) × (frame_to_raw
        now bytes
      ≡ done raw)
    × (raw.transport ≡ some tm)
    × (parse_transport bytes ethernet ≡ done (some tm'))
    × Q app
    × Reads d proto src_port dst_port tm
    × Reads d proto app.src_port app.dst_port tm'

frame_to_raw-Sent :
    (Q : AppFields → Type 0) (d : Draws) (now proto : ℕ) (bytes : List ℕ)
    (src_port dst_port : Option ℕ)
    → Ensures (Described d proto src_port dst_port) (transport_of bytes)
    → Ensures (Parsed Q d proto) (parse_transport bytes ethernet)
    → Sent Q d now bytes src_port dst_port
unfolding frame_to_raw
frame_to_raw-Sent Q d now proto bytes src_port dst_port h k =
    let (o, returned, (tm, same, reads)) =
      Ensures-done (Described d proto src_port dst_port) (transport_of bytes) h in
    let (o', returned', (tm', app, same', q, reads')) =
      Ensures-done (Parsed Q d proto) (parse_transport bytes ethernet) k in
    (
      raw_of now bytes o,
      tm,
      tm',
      proto,
      app,
      ap (λ m. m >>= λ t. done (raw_of now bytes t)) returned,
      same,
      returned' ∙ ap done same',
      q,
      reads,
      reads',
    )

frame_to_raw-icmp :
    (d : Draws) (now : ℕ)
    → Sent Any d now
        (headers d 1 (ip_len_of (34 + d.payload_len)) ++ draw d.payload_len d.payload)
        none
        none
frame_to_raw-icmp d now =
    let rest = draw d.payload_len d.payload in
    let ip_len = ip_len_of (34 + d.payload_len) in
    frame_to_raw-Sent Any d now 1 _ none none (transport_of-icmp d ip_len rest)
      (parse_transport-Parsed Any d 1 ip_len rest (match_proto_v4-returns 1 rest 34))

frame_to_raw-ports :
    (Q : AppFields → Type 0) (d : Draws) (now proto : ℕ)
    → (proto == 1) ≡ false
    → d.src_port < 2 ^ 16
    → d.dst_port < 2 ^ 16
    → Ensures Q (match_proto_v4 proto (port_bytes d ++ draw d.payload_len d.payload) 34)
    → Sent Q d now
        (headers d proto (ip_len_of (38 + d.payload_len))
          ++ (port_bytes d ++ draw d.payload_len d.payload))
        (some d.src_port)
        (some d.dst_port)
frame_to_raw-ports Q d now proto n s t h =
    let rest = draw d.payload_len d.payload in
    let ip_len = ip_len_of (38 + d.payload_len) in
    frame_to_raw-Sent Q d now proto _ _ _ (transport_of-ports d proto ip_len rest n s t)
      (parse_transport-Parsed Q d proto ip_len (port_bytes d ++ rest) h)

-- The headers of two descriptions of a packet.
unfoldable pub SameHeaders : TransportMeta → TransportMeta → Type 0
SameHeaders tm tm' =
    (tm'.src_ip ≡ tm.src_ip)
    × (tm'.dst_ip ≡ tm.dst_ip)
    × (tm'.protocol ≡ tm.protocol)
    × (tm'.ttl ≡ tm.ttl)
    × (tm'.ip_flags ≡ tm.ip_flags)
    × (tm'.ip_frag_offset ≡ tm.ip_frag_offset)
    × (tm'.eth_src_mac ≡ tm.eth_src_mac)
    × (tm'.vlan_id ≡ tm.vlan_id)

Reads-SameHeaders :
    (d : Draws) (proto : ℕ) (s t s' t' : Option ℕ) (tm tm' : TransportMeta)
    → Reads d proto s t tm
    → Reads d proto s' t' tm'
    → SameHeaders tm tm'
unfolding Reads SameHeaders
Reads-SameHeaders d proto s t s' t' tm tm' (a1, a2, a3, a4, a5, a6, a7, a8, _, _)
      (b1, b2, b3, b4, b5, b6, b7, b8, _, _) =
    (
      b1 ∙ sym a1,
      b2 ∙ sym a2,
      b3 ∙ sym a3,
      b4 ∙ sym a4,
      b5 ∙ sym a5,
      b6 ∙ sym a6,
      b7 ∙ sym a7,
      b8 ∙ sym a8,
    )

-- What a frame of the test sender comes to: the packet that it sends, and what the parser reads.
abbrev Agrees : Draws → ℕ → List ℕ → Type 0
Agrees d now bytes =
    (raw : RawPacket) × (tm tm' : TransportMeta) × (frame_to_raw now bytes ≡ done raw)
    × (raw.transport ≡ some tm)
    × (parse_transport bytes ethernet ≡ done (some tm'))
    × SameHeaders tm tm'

Sent-Agrees :
    (Q : AppFields → Type 0) (d : Draws) (now : ℕ) (bytes : List ℕ) (s t : Option ℕ)
    → Sent Q d now bytes s t
    → Agrees d now bytes
Sent-Agrees Q d now bytes s t (raw, tm, tm', proto, app, made, same, parsed, q, r, r') = (
  raw,
  tm,
  tm',
  made,
  same,
  parsed,
  Reads-SameHeaders d proto s t app.src_port app.dst_port tm tm' r r',
)

pub build_frame-at :
    (d : Draws) (i proto : ℕ)
    → d.proto_index ≡ i
    → index (1 ∷ 6 ∷ 17 ∷ []) i ≡ done proto
    → build_frame d ≡ frame_of d proto
unfolding build_frame
build_frame-at d i proto e h = rw (e, h) refl

icmp-Agrees :
    (d : Draws) (now : ℕ)
    → d.proto_index ≡ 0
    → (bytes : List ℕ) × (build_frame d ≡ done bytes) × Agrees d now bytes
icmp-Agrees d now e = (
  _,
  build_frame-at d 0 1 e (index-get_elem? (1 ∷ 6 ∷ 17 ∷ []) 0 1 refl) ∙ frame_of-icmp d,
  Sent-Agrees Any d now _ none none (frame_to_raw-icmp d now),
)

ports-Agrees :
    (d : Draws) (now i proto : ℕ)
    → d.proto_index ≡ i
    → get_elem? (1 ∷ 6 ∷ 17 ∷ []) i ≡ some proto
    → (proto == 1) ≡ false
    → d.src_port < 2 ^ 16
    → d.dst_port < 2 ^ 16
    → (bytes : List ℕ) × (build_frame d ≡ done bytes) × Agrees d now bytes
ports-Agrees d now i proto e at n s t = (
  _,
  build_frame-at d i proto e (index-get_elem? (1 ∷ 6 ∷ 17 ∷ []) i proto at)
      ∙ frame_of-ports d proto n,
  Sent-Agrees Any d now _ (some d.src_port) (some d.dst_port)
      (frame_to_raw-ports Any d now proto n s t (match_proto_v4-returns proto _ 34)),
)

-- Whatever numbers the test sender draws in the ranges that it asks for, it builds a frame, and the
-- metadata that it sends with the frame is what the parser of the capture reads in the frame: the
-- addresses, the protocol, the time to live, the fragmentation, the MAC address and the VLAN. Neither
-- the sender nor the parser reads or writes outside the frame.
pub build_frame-agrees :
    (d : Draws) (now : ℕ)
    → d.proto_index < 3
    → d.src_port < 2 ^ 16
    → d.dst_port < 2 ^ 16
    → (bytes : List ℕ) × (raw : RawPacket) × (tm tm' : TransportMeta) × (build_frame d ≡ done bytes)
      × (frame_to_raw now bytes ≡ done raw)
      × (raw.transport ≡ some tm)
      × (parse_transport bytes ethernet ≡ done (some tm'))
      × SameHeaders tm tm'
build_frame-agrees d now h s t = flat (by_index d.proto_index refl)
  where
    flat :
        (bytes : List ℕ) × (build_frame d ≡ done bytes) × Agrees d now bytes
        → (bytes : List ℕ) × (raw : RawPacket) × (tm tm' : TransportMeta) × (build_frame d
            ≡ done bytes)
          × (frame_to_raw now bytes ≡ done raw)
          × (raw.transport ≡ some tm)
          × (parse_transport bytes ethernet ≡ done (some tm'))
          × SameHeaders tm tm'
    flat (bytes, built, (raw, tm, tm', made, same, parsed, agree)) =
        (bytes, raw, tm, tm', built, made, same, parsed, agree)

    by_index :
        (i : ℕ)
        → d.proto_index ≡ i
        → (bytes : List ℕ) × (build_frame d ≡ done bytes) × Agrees d now bytes
    by_index zero e = icmp-Agrees d now e
    by_index (suc zero) e = ports-Agrees d now 1 6 e refl refl s t
    by_index (suc (suc zero)) e = ports-Agrees d now 2 17 e refl refl s t
    by_index (suc (suc (suc i))) e = absurd (omega arith)
