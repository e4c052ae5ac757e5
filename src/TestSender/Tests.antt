-- ===== src/TestSender/Tests.antt =====
-- The test sender on concrete random numbers.
use ocellus_network_monitor.Prelude.{ℕ, ◌≡◌, some, List, arith, done}
use ocellus_network_monitor.Packet.{ethernet, TransportMeta, RawPacket}
use ocellus_network_monitor.Capture.Parse.{parse_transport}
use ocellus_network_monitor.TestSender.{build_frame, frame_to_raw}
use ocellus_network_monitor.TestSender.Samples.{udp_draws}
use ocellus_network_monitor.TestSender.Frames.{SameHeaders, build_frame-agrees}

build_frame-agrees_example :
    (bytes : List ℕ) × (raw : RawPacket) × (tm tm' : TransportMeta) × (build_frame udp_draws
      ≡ done bytes)
    × (frame_to_raw 7 bytes ≡ done raw)
    × (raw.transport ≡ some tm)
    × (parse_transport bytes ethernet ≡ done (some tm'))
    × SameHeaders tm tm'
build_frame-agrees_example =
    build_frame-agrees udp_draws 7 (omega arith) (omega arith) (omega arith)
