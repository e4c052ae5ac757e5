-- ===== src/Client/Link.antt =====
-- src/grpc_client.rs: the way of the batches from `run_packet_stream` to the server. The call that opens the
-- stream, the channel of batches between the task and the call, and the task that logs acknowledgements.
mod Sent
pub mod Delivers
use ocellus_network_monitor.Prelude.{
  ℕ, ◌≡◌, Bool, true, false, Option, none, some, String, List, [], ◌∷◌, ◌++◌, length, drop,
}
use ocellus_network_monitor.Packet.{IpAddr}
use ocellus_network_monitor.Text.{Str}
use ocellus_network_monitor.Mpsc.{Mpsc}
use ocellus_network_monitor.Client.{PacketBatch, Wake, Stream, start, step}

-- `IngestAck`
pub record IngestAck : Type 0 where
  pub seq : ℕ
  pub accepted : ℕ
  pub rejected : ℕ
  pub message : String

-- What the acknowledgement task wakes for; `E` is an error of the call.
pub data AckWake (E : Type 0) : Type 0 where
  ack_cancelled : AckWake E
  ack_received : IngestAck → AckWake E
  ack_error : E → AckWake E
  ack_closed : AckWake E

-- The task logs, and ends when it is cancelled or the server closes.
pub record AckTask (E : Type 0) : Type 0 where
  pub logged : List (AckWake E)
  pub running : Bool

module _ {E : Type 0} where
  abbrev pub log : AckTask E → AckWake E → Bool → AckTask E
  log t w running = record { logged = t.logged ++ (w ∷ []); running = running }

  unfoldable pub ack_step : AckTask E → AckWake E → AckTask E
  ack_step t ack_cancelled = log t ack_cancelled false
  ack_step t (ack_received ack) = log t (ack_received ack) true
  ack_step t (ack_error e) = log t (ack_error e) true
  ack_step t ack_closed = log t ack_closed false

-- Before the answer to `ingest_packets`, after it, and after its refusal, which ends the task.
pub data Opening : Type 0 where
  asking accepted refused : Opening

-- How many batches the channel holds.
abbrev pub batch_capacity : ℕ
batch_capacity = 64

module _ (E : Type 0) (batches : Mpsc PacketBatch) where
  open batches use {Channel, channel, try_send, try_recv, drop_receiver, is_closed, contents}

  -- The two tasks with the channel: `waiting` is the batch in `send`. Then the events of the packet stream
  -- so far, the batches that the call has taken from the channel and not yet brought to the server, those
  -- that the server received, and those that were lost with the stream.
  pub record Link : Type 0 where
    pub opening : Opening
    pub stream : Stream
    pub waiting : List PacketBatch
    pub batch_tx : Channel
    pub acks : AckTask E
    pub wakes : List Wake
    pub in_flight : List PacketBatch
    pub delivered : List PacketBatch
    pub lost : List PacketBatch

  unfoldable pub link_started : Link
  link_started = record {
    opening = asking;
    stream = start;
    waiting = [];
    batch_tx = channel batch_capacity;
    acks = record { logged = []; running = false };
    wakes = [];
    in_flight = [];
    delivered = [];
    lost = [];
  }

  -- The answer to `ingest_packets`; the acknowledgement task starts where the server accepts.
  unfoldable pub answer : Bool → Link → Link
  answer true s = record s { opening = accepted; acks = record s.acks { running = true } }
  answer false s = record s { opening = refused }

  module _ (blake3 : List ℕ → List ℕ) (ip_to_string : IpAddr → Str) (agent_id : String)
      (batch_size : ℕ) where
    -- The task handles an event; a batch that it makes waits in `send`.
    unfoldable pub wake : Wake → Link → Link
    wake w s =
        let stream = step blake3 ip_to_string agent_id batch_size s.stream w in
        record s {
          stream = stream;
          waiting = drop (length s.stream.handed) stream.handed;
          wakes = s.wakes ++ (w ∷ []);
        }

    -- A closed channel fails the `send`, which the task only logs. The end of the stream, by the server or
    -- with the connection, loses the batches on their way.
    pub data LinkStep (s : Link) : Link → Type 0 where
      answered : (yes_no : Bool) → s.opening ≡ asking → LinkStep s (answer yes_no s)
      wakes_for :
          (w : Wake)
          → s.opening ≡ accepted
          → s.stream.running ≡ true
          → s.waiting ≡ []
          → LinkStep s (wake w s)
      sends :
          (b : PacketBatch) (rest : List PacketBatch) (c : Channel)
          → s.waiting ≡ b ∷ rest
          → try_send s.batch_tx b ≡ some c
          → LinkStep s (record s { batch_tx = c; waiting = rest })
      send_fails :
          (b : PacketBatch) (rest : List PacketBatch)
          → s.waiting ≡ b ∷ rest
          → is_closed s.batch_tx ≡ true
          → LinkStep s (record s { waiting = rest; lost = s.lost ++ (b ∷ []) })
      call_takes :
          (b : PacketBatch) (c : Channel)
          → try_recv s.batch_tx ≡ some (b, c)
          → LinkStep s (record s { batch_tx = c; in_flight = s.in_flight ++ (b ∷ []) })
      server_receives :
          (b : PacketBatch) (rest : List PacketBatch)
          → s.in_flight ≡ b ∷ rest
          → LinkStep s (record s { in_flight = rest; delivered = s.delivered ++ (b ∷ []) })
      server_ends : LinkStep s (record s {
        batch_tx = drop_receiver s.batch_tx;
        in_flight = [];
        lost = s.lost ++ (s.in_flight ++ contents s.batch_tx);
      })
      acknowledges :
          (w : AckWake E)
          → s.acks.running ≡ true
          → LinkStep s (record s { acks = ack_step s.acks w })

    pub data LinkReach (s : Link) : Link → Type 0 where
      link_here : LinkReach s s
      link_next : {t u : Link} → LinkReach s t → LinkStep t u → LinkReach s u
