-- ===== src/TestSender/Generate.antt =====
-- The packets of one tick of the test sender.
use ocellus_network_monitor.Prelude.{
  ℕ, zero, suc, ◌^◌, ◌<◌, ◌≡◌, refl, ◌∙◌, ap, some, List, length, All, done, Allows, Allows-bind,
  Allows-value, Ensures, Ensures-bind,
}
use ocellus_network_monitor.Packet.{ethernet, TransportMeta, RawPacket}
use ocellus_network_monitor.Capture.Parse.{parse_transport}
use ocellus_network_monitor.TestSender.{Draws, transport_of, raw_of, frame_to_raw, generate}
use ocellus_network_monitor.TestSender.Frames.{SameHeaders, build_frame-agrees}

-- The metadata of a packet is what the capture would read in its bytes.
abbrev pub Genuine : RawPacket → Type 0
Genuine raw =
    (tm tm' : TransportMeta) × (raw.transport ≡ some tm)
    × (parse_transport raw.bytes ethernet ≡ done (some tm'))
    × SameHeaders tm tm'

-- The ranges that the sender asks the random numbers for, as far as they matter.
abbrev pub InRange : Draws → Type 0
InRange d = (d.proto_index < 3) × (d.src_port < 2 ^ 16) × (d.dst_port < 2 ^ 16)

frame_to_raw-bytes :
    (now : ℕ) (bytes : List ℕ) → Allows (λ raw. raw.bytes ≡ bytes) (frame_to_raw now bytes)
unfolding frame_to_raw
frame_to_raw-bytes now bytes =
    Allows-bind (λ (raw : RawPacket). raw.bytes ≡ bytes) (transport_of bytes)
      (λ transport. done (raw_of now bytes transport)) λ transport. refl

abbrev pub Batch : ℕ → List RawPacket → Type 0
Batch n raws = (length raws ≡ n) × All Genuine raws

pub generate-Batch :
    (n : ℕ) (draws : ℕ → Draws) (clock : ℕ → ℕ)
    → ((i : ℕ) → InRange (draws i))
    → Ensures (Batch n) (generate n draws clock)
unfolding generate
generate-Batch zero draws clock h = (refl, tt)
generate-Batch (suc n) draws clock h =
    let (bytes, raw, tm, tm', built, made, same, parsed, agree) =
      build_frame-agrees (draws 0) (clock 0) (h 0).0 (h 0).1 (h 0).2 in
    let kept =
      Allows-value (λ (r : RawPacket). r.bytes ≡ bytes) (frame_to_raw (clock 0) bytes) raw made
        (frame_to_raw-bytes (clock 0) bytes) in
    rw (built, made)
      (Ensures-bind (Batch (suc n)) (Batch n) (generate n _ _) _
        (generate-Batch n (λ i. draws (suc i)) (λ i. clock (suc i)) λ i. h (suc i))
        λ raws (size, all). (
          ap (λ k. suc k) size,
          ((tm, tm', same, ap (λ b. parse_transport b ethernet) kept ∙ parsed, agree), all),
        ))
