-- ===== src/TestSender.antt =====
-- src/tests/test_sender.rs: the generator of synthetic packets that `--test-send` runs in place of the
-- capture, straight into the channel of the packet stream. What the random numbers are is a parameter.
mod Build
mod Read
pub mod Frames
pub mod Ports
pub mod Delivers
pub mod Generate
pub mod Samples
pub mod Ticks
mod Tests
use ocellus_network_monitor.Prelude.{
  ℕ, zero, suc, ◌+◌, ◌-◌, ◌*◌, ◌/◌, ◌%◌, ◌^◌, ◌≤◌, ◌<◌, bit_and, Bool, true, false, not, ◌&&◌,
  Option, none, some, List, [], ◌∷◌, ◌++◌, length, ◌==◌, leb, ltb, if◌then◌else◌, Outcome, done,
  panic, ◌>>=◌, index, slice, be_u16,
}
use ocellus_network_monitor.Packet.{ipv4_new, ethernet, TransportMeta, RawPacket}

pub record TestSenderConfig : Type 0 where
  pub packets_per_tick : ℕ
  pub tick_interval : ℕ
  pub max_ticks : Option ℕ

-- The interval is in milliseconds.
abbrev pub default_config : TestSenderConfig
default_config = record { packets_per_tick = 20; tick_interval = 200; max_ticks = none }

-- The random numbers of one frame; the bytes of a loop are drawn by their place in it.
pub record Draws : Type 0 where
  pub proto_index : ℕ
  pub payload_len : ℕ
  pub macs : ℕ → ℕ
  pub ttl : ℕ
  pub src0 : ℕ
  pub src1 : ℕ
  pub src2 : ℕ
  pub src3 : ℕ
  pub dst0 : ℕ
  pub dst1 : ℕ
  pub dst2 : ℕ
  pub dst3 : ℕ
  pub src_port : ℕ
  pub dst_port : ℕ
  pub payload : ℕ → ℕ

-- The first draws of a loop, in order.
abbrev pub draw : ℕ → (ℕ → ℕ) → List ℕ
draw zero f = []
draw (suc n) f = f 0 ∷ draw n λ i. f (suc i)

-- `vec![0; n]`
abbrev pub zeros : ℕ → List ℕ
zeros zero = []
zeros (suc n) = 0 ∷ zeros n

-- `buf[i] = b`
abbrev pub put : List ℕ → ℕ → ℕ → Outcome (List ℕ)
put [] i b = panic
put (x ∷ xs) zero b = done (b ∷ xs)
put (x ∷ xs) (suc i) b = put xs i b >>= λ ys. done (x ∷ ys)

-- Assignments from an index on, one after the other.
abbrev pub put_all : List ℕ → ℕ → List ℕ → Outcome (List ℕ)
put_all buf i [] = done buf
put_all buf i (b ∷ bs) = do buf' ← put buf i b; put_all buf' (suc i) bs

-- `for b in buf[from..].iter_mut()`, each with a byte that is drawn.
abbrev pub fill_from : List ℕ → ℕ → (ℕ → ℕ) → Outcome (List ℕ)
fill_from buf zero f = done (draw (length buf) f)
fill_from [] (suc i) f = panic
fill_from (x ∷ xs) (suc i) f = fill_from xs i f >>= λ ys. done (x ∷ ys)

abbrev pub port_hdr : Bool → ℕ
port_hdr has_ports = if has_ports then 4 else 0

abbrev pub put_ports : Bool → Draws → List ℕ → Outcome (List ℕ)
put_ports true d buf = put_all buf 34 (
    d.src_port / 2 ^ 8 % 2 ^ 8
    ∷ bit_and d.src_port 0xFF
    ∷ d.dst_port / 2 ^ 8 % 2 ^ 8
    ∷ bit_and d.dst_port 0xFF
    ∷ [])
put_ports false d buf = done buf

-- The frame with a protocol byte; `ETH_HDR` is 14 and `IPV4_HDR` is 20.
unfoldable pub frame_of : Draws → ℕ → Outcome (List ℕ)
frame_of d proto_byte = do
  let has_ports = not (proto_byte == 1)
  let total = 14 + 20 + port_hdr has_ports + d.payload_len
  let ip_len = (total - 14) % 2 ^ 16
  b0 ← put_all (zeros total) 0 (draw 12 d.macs)
  b1 ← put_all b0 12 (0x08 ∷ 0x00 ∷ 0x45 ∷ [])
  b2 ← put_all b1 16 (ip_len / 2 ^ 8 % 2 ^ 8 ∷ bit_and ip_len 0xFF ∷ [])
  b3 ← put_all b2 22 (d.ttl ∷ proto_byte ∷ [])
  b4 ← put_all b3 26 (d.src0 ∷ d.src1 ∷ d.src2 ∷ d.src3 ∷ d.dst0 ∷ d.dst1 ∷ d.dst2 ∷ d.dst3 ∷ [])
  b5 ← put_ports (has_ports && ltb 37 total) d b4
  fill_from b5 (14 + 20 + port_hdr has_ports) d.payload

-- `[1u8, 6, 17].get(i).unwrap()`
unfoldable pub build_frame : Draws → Outcome (List ℕ)
build_frame d = index (1 ∷ 6 ∷ 17 ∷ []) d.proto_index >>= frame_of d

abbrev pub ports_of : Bool → List ℕ → Outcome (Option ℕ × Option ℕ)
ports_of false bytes = done (none, none)
ports_of true bytes = do
  p0 ← index bytes 34
  p1 ← index bytes 35
  q0 ← index bytes 36
  q1 ← index bytes 37
  done (some (be_u16 p0 p1), some (be_u16 q0 q1))

unfoldable pub transport_of : List ℕ → Outcome (Option TransportMeta)
transport_of bytes =
    if leb 34 (length bytes)
    then (do
      proto ← index bytes 23
      s0 ← index bytes 26
      s1 ← index bytes 27
      s2 ← index bytes 28
      s3 ← index bytes 29
      d0 ← index bytes 30
      d1 ← index bytes 31
      d2 ← index bytes 32
      d3 ← index bytes 33
      ttl ← index bytes 22
      let has_ports = not (proto == 1) && ltb 37 (length bytes)
      (src_port, dst_port) ← ports_of has_ports bytes
      mac ← slice bytes 6 12
      done (
          some (record {
            src_ip = ipv4_new s0 s1 s2 s3;
            dst_ip = ipv4_new d0 d1 d2 d3;
            src_port = src_port;
            dst_port = dst_port;
            protocol = proto;
            tcp_flags = if proto == 6 then some 0x02 else none;
            ttl = ttl;
            ip_flags = 0;
            ip_frag_offset = 0;
            icmp_type = if proto == 1 then some 8 else none;
            icmp_code = if proto == 1 then some 0 else none;
            eth_src_mac = some mac;
            vlan_id = none;
            payload_offset = 14 + 20 + port_hdr has_ports;
          })))
    else done none

-- The packet of a frame, made at a time `now`.
abbrev pub raw_of : ℕ → List ℕ → Option TransportMeta → RawPacket
raw_of now bytes transport = record {
  timestamp = now;
  bytes = bytes;
  orig_len = length bytes % 2 ^ 32;
  cap_len = length bytes % 2 ^ 32;
  interface = "test";
  link_type = ethernet;
  transport = transport;
  is_truncated = false;
  packet_id = 0;
  ids_score = 0;
  ids_flag = 0;
}

unfoldable pub frame_to_raw : ℕ → List ℕ → Outcome RawPacket
frame_to_raw now bytes = do transport ← transport_of bytes; done (raw_of now bytes transport)

-- Where the task waits: in the `send` of the first packet of the tick, or asleep after a tick.
pub data SenderPlace : Type 0 where
  sending : RawPacket → List RawPacket → SenderPlace
  sleeping stopped : SenderPlace

-- What a wait ends with. A full channel keeps the task in `send`.
pub data SenderWake : Type 0 where
  ready closed cancelled : SenderWake

-- `sent` are the packets that went into the channel.
pub record Sender : Type 0 where
  pub tick : ℕ
  pub place : SenderPlace
  pub sent : List RawPacket

abbrev pub first : Sender
first = record { tick = 0; place = sleeping; sent = [] }

-- `cfg.max_ticks.is_some_and(|max| tick >= max)`
abbrev pub is_last : Option ℕ → ℕ → Bool
is_last none tick = false
is_last (some max) tick = leb max tick

-- The packets of a tick, from the draws and the clock readings by their place in it.
unfoldable pub generate : ℕ → (ℕ → Draws) → (ℕ → ℕ) → Outcome (List RawPacket)
generate zero draws clock = done []
generate (suc n) draws clock = do
  bytes ← build_frame (draws 0)
  raw ← frame_to_raw (clock 0) bytes
  raws ← generate n (λ i. draws (suc i)) (λ i. clock (suc i))
  done (raw ∷ raws)

-- The rest of the packets of a tick: after the last the tick is counted.
abbrev pub go_on : Sender → List RawPacket → Sender
go_on s [] = record s { tick = (s.tick + 1) % 2 ^ 64; place = sleeping }
go_on s (raw ∷ raws) = record s { place = sending raw raws }

module _ (cfg : TestSenderConfig) (draws : ℕ → ℕ → Draws) (clock : ℕ → ℕ → ℕ) where
  -- The head of the loop.
  unfoldable pub next_tick : Sender → Outcome Sender
  next_tick s = if is_last cfg.max_ticks s.tick then done (record s { place = stopped }) else (do
    raws ← generate cfg.packets_per_tick (draws s.tick) (clock s.tick)
    done (go_on s raws))

  abbrev pub wake_at : SenderPlace → Sender → SenderWake → Outcome Sender
  wake_at (sending raw raws) s ready = done (go_on (record s { sent = s.sent ++ (raw ∷ []) }) raws)
  wake_at (sending raw raws) s closed = done (record s { place = stopped })
  wake_at (sending raw raws) s cancelled = done (record s { place = stopped })
  wake_at sleeping s ready = next_tick s
  wake_at sleeping s closed = done s
  wake_at sleeping s cancelled = done (record s { place = stopped })
  wake_at stopped s w = done s

  unfoldable pub run_wakes : Sender → List SenderWake → Outcome Sender
  run_wakes s [] = done s
  run_wakes s (w ∷ ws) = do s' ← wake_at s.place s w; run_wakes s' ws

  unfoldable pub run_test_sender : List SenderWake → Outcome Sender
  run_test_sender ws = do s ← next_tick first; run_wakes s ws
