-- ===== src/Pipeline.antt =====
-- src/main.rs from the start of the tasks to the end of `main`, in capture mode: the threads and tasks
-- that share the ring, the channel and the engine, as a step relation in which any of them may move next.
pub mod Flow
pub mod Account
pub mod Moves
pub mod Conserve
pub mod Shutdown
pub mod Agent
mod Tests
use ocellus_network_monitor.Prelude.{
  ℕ, ◌<◌, ◌≡◌, ◌≢◌, Bool, true, false, Option, none, some, String, List, [], ◌∷◌, ◌++◌, length,
  done,
}
use ocellus_network_monitor.Packet.{IpAddr, RawPacket}
use ocellus_network_monitor.Text.{Str}
use ocellus_network_monitor.Mpsc.{Mpsc}
use ocellus_network_monitor.Ring
use ocellus_network_monitor.Ring.Schedule.{evicted}
use ocellus_network_monitor.Client
use ocellus_network_monitor.Client.{Stream, received, ticked, cancelled}
use ocellus_network_monitor.Ids.Baseline
use ocellus_network_monitor.Ids.Blacklist
use ocellus_network_monitor.Ids.Engine
use ocellus_network_monitor.Ids.Engine.{Externals, SweepClock}
use ocellus_network_monitor.Analyzer.{Job, Position, scoring, draining, exited, Analysis, turn}
use ocellus_network_monitor.Analyzer.Batch.{Schedules}

-- The capture thread: in `run_capture`, in `analysis_thread.join()`, or done.
pub data CaptureThread : Type 0 where
  capturing joining joined : CaptureThread

-- `main`: at `ctrl_c`, at the three awaits and joins after it, or past `baseline.persist()`.
pub data MainTask : Type 0 where
  serving awaits_stream awaits_heartbeat awaits_capture finished : MainTask

-- The packets whose scoring or forwarding has begun.
unfoldable pub in_flight : Position → List RawPacket
in_flight Position.draining = []
in_flight Position.popping = []
in_flight Position.exited = []
in_flight (Position.scoring ps) = ps
in_flight (Position.forwarding ps) = ps

-- The jobs of a step of the analyzer pick each packet of the batch that it scores once.
abbrev pub Suits : List Job → Position → Type 0
Suits jobs p = Schedules (length (in_flight p)) jobs

-- How many packets the ring between the threads holds.
abbrev pub ring_size : ℕ
ring_size = 4096

module _ (externals : Externals) (mpsc : Mpsc RawPacket) (blake3 : List ℕ → List ℕ)
    (to_json : Baseline.BaselineState externals.decimals → Option Str) where
  open externals use {bloom, decimals, to_lowercase, ip_to_string}
  open mpsc use {channel, try_recv, drop_receiver, is_closed, contents}

  -- The threads and tasks with what they share; then the packets captured, evicted from the ring, received
  -- by the packet stream, and freed with the channel.
  pub record System : Type 0 where
    pub analysis : Analysis externals mpsc
    pub capture : CaptureThread
    pub stream : Stream
    pub heartbeat_runs : Bool
    pub main : MainTask
    pub captured : List RawPacket
    pub evictions : List RawPacket
    pub taken : List RawPacket
    pub freed : List RawPacket

  unfoldable pub started :
      ℕ → Baseline.Baseline decimals → Blacklist.Blacklist bloom to_lowercase → System
  started channel_capacity baseline blacklist = record {
    analysis = record {
      ring = Ring.new ring_size;
      engine = Engine.new externals baseline blacklist;
      grpc_tx = channel channel_capacity;
      position = draining;
      refused = [];
    };
    capture = capturing;
    stream = Client.start;
    heartbeat_runs = true;
    main = serving;
    captured = [];
    evictions = [];
    taken = [];
    freed = [];
  }

  -- The capture thread pushes a packet.
  unfoldable pub capture_packet : RawPacket → System → System
  capture_packet pkt s =
      let ring = s.analysis.ring in
      record s {
        analysis = record s.analysis { ring = (Ring.push ring pkt).0 };
        captured = s.captured ++ (pkt ∷ []);
        evictions = s.evictions ++ evicted ring;
      }

  -- The task is over, and the receiver goes with it, with what is in the channel.
  unfoldable pub drop_capture_rx : System → System
  drop_capture_rx s = record s {
    analysis = record s.analysis { grpc_tx = drop_receiver s.analysis.grpc_tx };
    freed = s.freed ++ contents s.analysis.grpc_tx;
  }

  module _ (agent_id : String) (batch_size : ℕ) where
    abbrev pub stream_step : Stream → Client.Wake → Stream
    stream_step = Client.step blake3 ip_to_string agent_id batch_size

    unfoldable pub receive : RawPacket → mpsc.Channel → System → System
    receive pkt c s = record s {
      analysis = record s.analysis { grpc_tx = c };
      stream = stream_step s.stream (received (some pkt));
      taken = s.taken ++ (pkt ∷ []);
    }

    -- The stream's loop ends with a last flush. Its receiver is still open.
    unfoldable pub stop_stream : System → System
    stop_stream s = record s { stream = stream_step s.stream cancelled }

    -- Where the server refuses the stream, its task ends before it receives anything. `tx` lives until
    -- the end of `main`, so the stream never finds its channel closed. The last flush can wait in `send`
    -- for any time before the task is over.
    pub data Step (s : System) : System → Type 0 where
      captures : (pkt : RawPacket) → s.capture ≡ capturing → Step s (capture_packet pkt s)
      capture_returns : s.capture ≡ capturing → Step s (record s { capture = joining })
      analyzes :
          (jobs : List Job) (a : Analysis externals mpsc)
          → Suits jobs s.analysis.position
          → turn externals mpsc jobs s.analysis ≡ done a
          → Step s (record s { analysis = a })
      analyzer_joined :
          s.capture ≡ joining
          → s.analysis.position ≡ exited
          → Step s (record s { capture = joined })
      sweeps :
          (clock : SweepClock)
          → Step s (record s {
            analysis = record s.analysis {
              engine = (Engine.sweep_tick externals to_json clock s.analysis.engine).1;
            };
          })
      stream_receives :
          (pkt : RawPacket) (c : mpsc.Channel)
          → s.stream.running ≡ true
          → try_recv s.analysis.grpc_tx ≡ some (pkt, c)
          → Step s (receive pkt c s)
      stream_fails :
          s.stream.running ≡ true → s.taken ≡ [] → s.stream.pending ≡ [] → Step s (stop_stream s)
      stream_ticks :
          s.stream.running ≡ true → Step s (record s { stream = stream_step s.stream ticked })
      stream_stops : s.stream.running ≡ true → s.main ≢ serving → Step s (stop_stream s)
      receiver_drops :
          s.stream.running ≡ false
          → is_closed s.analysis.grpc_tx ≡ false
          → Step s (drop_capture_rx s)
      heartbeat_stops : s.main ≢ serving → Step s (record s { heartbeat_runs = false })
      ctrl_c : s.main ≡ serving → Step s (record s { main = awaits_stream })
      stream_awaited :
          s.main ≡ awaits_stream
          → s.stream.running ≡ false
          → is_closed s.analysis.grpc_tx ≡ true
          → Step s (record s { main = awaits_heartbeat })
      heartbeat_awaited :
          s.main ≡ awaits_heartbeat
          → s.heartbeat_runs ≡ false
          → Step s (record s { main = awaits_capture })
      capture_joined :
          s.main ≡ awaits_capture → s.capture ≡ joined → Step s (record s { main = finished })

    pub data Reach (s : System) : System → Type 0 where
      here : Reach s s
      next : {t u : System} → Reach s t → Step t u → Reach s u
