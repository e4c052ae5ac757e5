-- ===== src/Client.antt =====
-- src/grpc_client.rs: the message of a packet, and the event loop of `run_packet_stream`. The hash of the
-- payload (the `blake3` crate) and the text of an address are parameters. The stream here goes
-- up to the batches that `flush` hands to `send`; whether the channel takes a batch, and what becomes of it
-- then, is in Client.Link.
pub mod Batches
pub mod Heartbeat
pub mod Link
mod Tests
use ocellus_network_monitor.Prelude.{
  ℕ, ◌+◌, ◌/◌, ◌%◌, ◌^◌, bit_and, Bool, true, false, Option, none, some, String, List, [], ◌∷◌,
  ◌++◌, length, leb, ◌==◌, if◌then◌else◌,
}
use ocellus_network_monitor.Packet.{IpAddr, TransportMeta, RawPacket}
use ocellus_network_monitor.Text.{Str}

-- `PacketEvent`, with the time stamp's two parts.
pub record PacketEvent : Type 0 where
  pub agent_id : String
  pub seconds : ℕ
  pub nanos : ℕ
  pub src_ip : Str
  pub src_port : ℕ
  pub dst_ip : Str
  pub dest_port : ℕ
  pub protocol : ℕ
  pub size : ℕ
  pub ttl : ℕ
  pub tcp_flags : List String
  pub flag_reason : ℕ
  pub anomaly_score : ℕ
  pub payload_hash : List ℕ
  pub interface : String
  pub direction : String

pub record PacketBatch : Type 0 where
  pub events : List PacketEvent
  pub seq : ℕ
  pub agent_id : String

abbrev pub flag_name : ℕ → ℕ → String → List String
flag_name flags bit name = if bit_and flags bit == 0 then [] else name ∷ []

unfoldable pub decode_tcp_flags : ℕ → List String
decode_tcp_flags flags =
    flag_name flags 0x01 "FIN"
    ++ (flag_name flags 0x02 "SYN"
        ++ (flag_name flags 0x04 "RST"
            ++ (flag_name flags 0x08 "PSH"
                ++ (flag_name flags 0x10 "ACK" ++ flag_name flags 0x20 "URG"))))

abbrev pub flags_of : Option ℕ → List String
flags_of none = []
flags_of (some flags) = decode_tcp_flags flags

abbrev pub or_zero : Option ℕ → ℕ
or_zero none = 0
or_zero (some n) = n

-- The numbers of the `Protocol` enum.
abbrev pub protocol_number : ℕ → ℕ
protocol_number p =
    if p == 6 then 1 else if p == 17 then 2 else if p == 1 then 3 else if p == 58 then 3 else 4

-- What the loop waits for: cancellation, the capture channel (`none` when it is closed), the timer.
pub data Wake : Type 0 where
  cancelled : Wake
  received : Option RawPacket → Wake
  ticked : Wake

-- The variables of the loop, the batches that were handed to `send`, whether or not it succeeded, and whether
-- the loop still runs.
pub record Stream : Type 0 where
  pub pending : List PacketEvent
  pub seq : ℕ
  pub captured : ℕ
  pub handed : List PacketBatch
  pub running : Bool

abbrev pub start : Stream
start = record { pending = []; seq = 0; captured = 0; handed = []; running = true }

abbrev pub flush_events : String → Stream → List PacketEvent → Stream
flush_events agent_id s [] = s
flush_events agent_id s (e ∷ es) = record s {
  pending = [];
  seq = (s.seq + 1) % 2 ^ 64;
  handed = s.handed ++ (record { events = e ∷ es; seq = s.seq; agent_id = agent_id } ∷ []);
}

unfoldable pub flush : String → Stream → Stream
flush agent_id s = flush_events agent_id s s.pending

abbrev pub stop : Stream → Stream
stop s = record s { running = false }

-- A packet that has a message.
unfoldable pub enqueue : String → ℕ → Stream → PacketEvent → Stream
enqueue agent_id batch_size s event =
    let s' = record s {
      captured = (s.captured + 1) % 2 ^ 64;
      pending = s.pending ++ (event ∷ []);
    } in
    if leb batch_size (length s'.pending) then flush agent_id s' else s'

abbrev pub enqueue_option : String → ℕ → Stream → Option PacketEvent → Stream
enqueue_option agent_id batch_size s none = s
enqueue_option agent_id batch_size s (some event) = enqueue agent_id batch_size s event

module _ (blake3 : List ℕ → List ℕ) (ip_to_string : IpAddr → Str) where
  abbrev pub event_of : RawPacket → String → TransportMeta → PacketEvent
  event_of raw agent_id tm = record {
    agent_id = agent_id;
    seconds = raw.timestamp / 10 ^ 9;
    nanos = raw.timestamp % 10 ^ 9;
    src_ip = ip_to_string tm.src_ip;
    src_port = or_zero tm.src_port;
    dst_ip = ip_to_string tm.dst_ip;
    dest_port = or_zero tm.dst_port;
    protocol = protocol_number tm.protocol;
    size = raw.orig_len;
    ttl = tm.ttl;
    tcp_flags = flags_of tm.tcp_flags;
    flag_reason = raw.ids_flag;
    anomaly_score = raw.ids_score;
    payload_hash = blake3 raw.bytes;
    interface = raw.interface;
    direction = "unknown";
  }

  abbrev pub parse_option : RawPacket → String → Option TransportMeta → Option PacketEvent
  parse_option raw agent_id none = none
  parse_option raw agent_id (some tm) = some (event_of raw agent_id tm)

  unfoldable pub parse_packet : RawPacket → String → Option PacketEvent
  parse_packet raw agent_id = parse_option raw agent_id raw.transport

  -- One round of the loop.
  unfoldable pub step : String → ℕ → Stream → Wake → Stream
  step agent_id batch_size s cancelled = stop (flush agent_id s)
  step agent_id batch_size s (received none) = stop (flush agent_id s)
  step agent_id batch_size s (received (some raw)) =
      enqueue_option agent_id batch_size s (parse_packet raw agent_id)
  step agent_id batch_size s ticked = flush agent_id s

  -- The loop on the events in the order in which it wakes; it ends with the first that stops it.
  unfoldable pub run_packet_stream : String → ℕ → Stream → List Wake → Stream
  unfolding step
  run_packet_stream agent_id batch_size s [] = s
  run_packet_stream agent_id batch_size s (w ∷ ws) =
      let rest = run_packet_stream agent_id batch_size (step agent_id batch_size s w) ws in
      if s.running then rest else s
