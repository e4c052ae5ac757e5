-- ===== src/Capture/Tests.antt =====
-- A frame with a VLAN tag through the parser.
use ocellus_network_monitor.Prelude.{ℕ, ◌≡◌, Option, List, [], ◌∷◌, length, arith, done}
use ocellus_network_monitor.Packet.{ethernet, TransportMeta}
use ocellus_network_monitor.Capture.Parse.{parse_transport}
use ocellus_network_monitor.Capture.Safe.{Fits, parse_transport-Fits}

-- Ethernet with VLAN 5, IPv4, a TCP SYN to port 80, two bytes of data.
abbrev tagged_syn : List ℕ
tagged_syn =
    1 ∷ 2 ∷ 3 ∷ 4 ∷ 5 ∷ 6 ∷ 7 ∷ 8 ∷ 9 ∷ 10 ∷ 11 ∷ 12 ∷ 0x81 ∷ 0x00 ∷ 0x00 ∷ 0x05 ∷ 0x08 ∷ 0x00
    ∷ 0x45 ∷ 0 ∷ 0 ∷ 42 ∷ 0 ∷ 0 ∷ 0x40 ∷ 0 ∷ 64 ∷ 6 ∷ 0 ∷ 0 ∷ 10 ∷ 0 ∷ 0 ∷ 1 ∷ 10 ∷ 0 ∷ 0 ∷ 2 ∷ 0x1f
    ∷ 0x90 ∷ 0 ∷ 80 ∷ 0 ∷ 0 ∷ 0 ∷ 0 ∷ 0 ∷ 0 ∷ 0 ∷ 0 ∷ 0x50 ∷ 2 ∷ 0 ∷ 0 ∷ 0 ∷ 0 ∷ 0 ∷ 0 ∷ 7 ∷ 7 ∷ []

parse_transport-Fits_example :
    (o : Option TransportMeta) × (parse_transport tagged_syn ethernet ≡ done o)
    × Fits (length tagged_syn) o
parse_transport-Fits_example = parse_transport-Fits tagged_syn ethernet (omega arith)
