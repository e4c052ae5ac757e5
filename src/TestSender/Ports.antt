-- ===== src/TestSender/Ports.antt =====
-- The ports of the frames of the test sender.
use ocellus_network_monitor.Prelude.{
  ℕ, zero, suc, ◌+◌, ◌^◌, ◌≤◌, ◌<◌, ◌≡◌, refl, ◌∙◌, ap, true, false, ◌||◌, some, List, [], ◌∷◌,
  ◌++◌, ◌==◌, arith, done, get_elem?, index-get_elem?, Ensures, Ensures-done,
}
use ocellus_network_monitor.Packet.{ethernet, TransportMeta}
use ocellus_network_monitor.Capture.Parse.{parse_transport}
use ocellus_network_monitor.TestSender.{Draws, draw, build_frame, transport_of}
use ocellus_network_monitor.TestSender.Build.{length-draw, port_bytes, ip_len_of, frame_of-ports}
use ocellus_network_monitor.TestSender.Read.{
  Reads, Parsed, Described, DrawnPorts, parse_transport-Parsed, transport_of-ports,
  match_proto_v4-ports,
}
use ocellus_network_monitor.TestSender.Frames.{build_frame-at}

-- The frame, the sender's metadata of it and the parser's, with the drawn ports in both.
abbrev SamePorts : Draws → Type 0
SamePorts d =
    (bytes : List ℕ) × (tm tm' : TransportMeta) × (build_frame d ≡ done bytes)
    × (transport_of bytes ≡ done (some tm))
    × (parse_transport bytes ethernet ≡ done (some tm'))
    × (tm.src_port ≡ some d.src_port)
    × (tm.dst_port ≡ some d.dst_port)
    × (tm'.src_port ≡ some d.src_port)
    × (tm'.dst_port ≡ some d.dst_port)

same_ports :
    (d : Draws) (proto : ℕ) (bytes : List ℕ)
    → build_frame d ≡ done bytes
    → Ensures (Described d proto (some d.src_port) (some d.dst_port)) (transport_of bytes)
    → Ensures (Parsed (DrawnPorts d) d proto) (parse_transport bytes ethernet)
    → SamePorts d
unfolding Reads
same_ports d proto bytes built h k =
    let (o, returned, (tm, same, (_, _, _, _, _, _, _, _, src, dst))) =
      Ensures-done (Described d proto (some d.src_port) (some d.dst_port)) (transport_of bytes) h in
    let (o', returned', (tm', app, same', (s, t), (_, _, _, _, _, _, _, _, src', dst'))) =
      Ensures-done (Parsed (DrawnPorts d) d proto) (parse_transport bytes ethernet) k in
    (
      bytes,
      tm,
      tm',
      built,
      returned ∙ ap done same,
      returned' ∙ ap done same',
      src,
      dst,
      src' ∙ s,
      dst' ∙ t,
    )

ports_at :
    (d : Draws) (i proto : ℕ)
    → d.proto_index ≡ i
    → get_elem? (1 ∷ 6 ∷ 17 ∷ []) i ≡ some proto
    → (proto == 1) ≡ false
    → (proto == 6 || proto == 17) ≡ true
    → 16 ≤ d.payload_len
    → d.src_port < 2 ^ 16
    → d.dst_port < 2 ^ 16
    → SamePorts d
ports_at d i proto e at n k l s t =
    let rest = draw d.payload_len d.payload in
    let ip_len = ip_len_of (38 + d.payload_len) in
    let size = length-draw d.payload_len d.payload in
    same_ports d proto _
      (build_frame-at d i proto e (index-get_elem? (1 ∷ 6 ∷ 17 ∷ []) i proto at)
        ∙ frame_of-ports d proto n)
      (transport_of-ports d proto ip_len rest n s t)
      (parse_transport-Parsed (DrawnPorts d) d proto ip_len (port_bytes d ++ rest)
        (match_proto_v4-ports d proto rest k (omega arith) s t))

-- A frame of TCP or UDP with at least sixteen bytes behind the ports is long enough for the parser: the
-- ports that it reads are those that the sender drew, and so are those of the sender's own metadata.
pub build_frame-ports :
    (d : Draws)
    → 1 ≤ d.proto_index
    → d.proto_index < 3
    → 16 ≤ d.payload_len
    → d.src_port < 2 ^ 16
    → d.dst_port < 2 ^ 16
    → (bytes : List ℕ) × (tm tm' : TransportMeta) × (build_frame d ≡ done bytes)
      × (transport_of bytes ≡ done (some tm))
      × (parse_transport bytes ethernet ≡ done (some tm'))
      × (tm.src_port ≡ some d.src_port)
      × (tm.dst_port ≡ some d.dst_port)
      × (tm'.src_port ≡ some d.src_port)
      × (tm'.dst_port ≡ some d.dst_port)
build_frame-ports d l h k s t = by_index d.proto_index refl
  where
    by_index : (i : ℕ) → d.proto_index ≡ i → SamePorts d
    by_index zero e = absurd (omega arith)
    by_index (suc zero) e = ports_at d 1 6 e refl refl refl k s t
    by_index (suc (suc zero)) e = ports_at d 2 17 e refl refl refl k s t
    by_index (suc (suc (suc i))) e = absurd (omega arith)
