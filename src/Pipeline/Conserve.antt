-- ===== src/Pipeline/Conserve.antt =====
-- In every reachable state of the agent, each captured packet is in exactly one place, in order.
use mathlib.Core.List.{Sublist}
use mathlib.Core.List.Sublist
use ocellus_network_monitor.Prelude.{
  ◌||◌, ◌==◌, true, ℕ, ◌+◌, ◌<◌, ◌≤◌, ◌%◌, ◌^◌, ◌≡◌, refl, Option, String, List, [], ◌++◌, length,
  done, arith, Ensures-done,
}
use ocellus_network_monitor.Packet.{RawPacket}
use ocellus_network_monitor.Text.{Str}
use ocellus_network_monitor.Mpsc.{Mpsc}
use ocellus_network_monitor.Ring
use ocellus_network_monitor.Ring.{RingInner, push}
use ocellus_network_monitor.Client
use ocellus_network_monitor.Client.{PacketEvent, Stream, flush, parse_packet}
use ocellus_network_monitor.Client.Batches.{events_of}
use ocellus_network_monitor.Ids.Baseline
use ocellus_network_monitor.Ids.Blacklist
use ocellus_network_monitor.Ids.Engine
use ocellus_network_monitor.Ids.Engine.{Externals}
use ocellus_network_monitor.Analyzer.{Job, Analysis, turn, turn_at}
use ocellus_network_monitor.Pipeline.{
  System, started, in_flight, Suits, ring_size, Step, Reach, here, next, captures, capture_returns,
  analyzes, analyzer_joined, sweeps, stream_receives, stream_ticks, stream_fails, stream_stops,
  receiver_drops, heartbeat_stops, ctrl_c, stream_awaited, heartbeat_awaited, capture_joined,
}
use ocellus_network_monitor.Pipeline.Flow.{HandsOn, turn-HandsOn, marks, holds}
use ocellus_network_monitor.Pipeline.Account.{messages_of, Flows}
use ocellus_network_monitor.Pipeline.Moves.{
  captures-Flows, turn-Flows, receive-Flows, ticks-Flows, stop_stream-Flows, drop_capture_rx-Flows,
}

module _ (externals : Externals) (mpsc : Mpsc RawPacket) (blake3 : List ℕ → List ℕ)
    (to_json : Baseline.BaselineState externals.decimals → Option Str) where
  open externals use {bloom, crate, decimals, to_lowercase, ip_to_string}
  open mpsc use {contents, contents-try_recv, contents-drop_receiver, contents-channel, channel}

  abbrev S : Type 0
  S = System externals mpsc blake3 to_json

  module _ (agent_id : String) (batch_size : ℕ) where
    abbrev Kept : S → Type 0
    Kept = Flows externals mpsc blake3 to_json agent_id batch_size

    -- Steps that leave the packets, the ring, the scanner and the stream alone.
    still-Flows :
        (capture : _) (heartbeat_runs : _) (main : _) (s : S)
        → Kept s
        → Kept (record s { capture = capture; heartbeat_runs = heartbeat_runs; main = main })
    still-Flows capture heartbeat_runs main s h = record {
      valid = h.valid;
      capacity = h.capacity;
      order = h.order;
      size = h.size;
      counted = h.counted;
      scanner = h.scanner;
      quiet = h.quiet;
      reports = h.reports;
      rested = h.rested;
    }

    sweeps-Flows :
        (clock : Engine.SweepClock) (s : S)
        → Kept s
        → Kept (record s {
          analysis = record s.analysis {
            engine = (Engine.sweep_tick externals to_json clock s.analysis.engine).1;
          };
        })
    unfolding Engine.sweep_tick
    sweeps-Flows clock s h = record {
      valid = h.valid;
      capacity = h.capacity;
      order = h.order;
      size = h.size;
      counted = h.counted;
      scanner = h.scanner;
      quiet = h.quiet;
      reports = h.reports;
      rested = h.rested;
    }

    Step-Flows :
        {s t : S}
        → 0 < batch_size
        → Step externals mpsc blake3 to_json agent_id batch_size s t
        → Kept s
        → Kept t
    unfolding Client.step
    Step-Flows {s} b (captures pkt c) h =
        captures-Flows externals mpsc blake3 to_json agent_id batch_size pkt s h
    Step-Flows {s} b (capture_returns c) h = still-Flows _ _ _ s h
    Step-Flows {s} b (analyzes jobs a suits e) h =
        turn-Flows externals mpsc blake3 to_json agent_id batch_size jobs a s suits e h
    Step-Flows {s} b (analyzer_joined c e) h = still-Flows _ _ _ s h
    Step-Flows {s} b (sweeps clock) h = sweeps-Flows clock s h
    Step-Flows {s} b (stream_receives pkt c r e) h =
        receive-Flows externals mpsc blake3 to_json agent_id batch_size pkt c s b r e h
    Step-Flows {s} b (stream_fails r e f) h =
        stop_stream-Flows externals mpsc blake3 to_json agent_id batch_size s b h
    Step-Flows {s} b (stream_ticks r) h =
        ticks-Flows externals mpsc blake3 to_json agent_id batch_size s b h
    Step-Flows {s} b (stream_stops r n) h =
        stop_stream-Flows externals mpsc blake3 to_json agent_id batch_size s b h
    Step-Flows {s} b (receiver_drops off c) h =
        drop_capture_rx-Flows externals mpsc blake3 to_json agent_id batch_size s off h
    Step-Flows {s} b (heartbeat_stops n) h = still-Flows _ _ _ s h
    Step-Flows {s} b (ctrl_c e) h = still-Flows _ _ _ s h
    Step-Flows {s} b (stream_awaited e r c) h = still-Flows _ _ _ s h
    Step-Flows {s} b (heartbeat_awaited e r) h = still-Flows _ _ _ s h
    Step-Flows {s} b (capture_joined e c) h = still-Flows _ _ _ s h

    Reach-Flows :
        {s t : S}
        → 0 < batch_size
        → Reach externals mpsc blake3 to_json agent_id batch_size s t
        → Kept s
        → Kept t
    Reach-Flows b here h = h
    Reach-Flows b (next r st) h = Step-Flows b st (Reach-Flows b r h)

    started-Flows :
        (channel_capacity : ℕ) (baseline : Baseline.Baseline decimals)
        (blacklist : Blacklist.Blacklist bloom to_lowercase)
        → 0 < batch_size
        → Kept (started externals mpsc blake3 to_json channel_capacity baseline blacklist)
    unfolding started Ring.new in_flight Engine.new messages_of events_of
    started-Flows channel_capacity baseline blacklist positive =
        let empty = contents-channel channel_capacity in
        record {
          valid = record { positive = omega arith; bounded = omega arith; counter = omega arith };
          capacity = refl;
          order = rw empty (Sublist.refl []);
          size = rw empty refl;
          counted = refl;
          scanner = refl;
          quiet = λ _. refl;
          rested = refl;
          reports = record {
            order = refl;
            sizes = tt;
            room = positive;
            numbers = tt;
            next = refl;
            count = refl;
          };
        }

    reached-Flows :
        (channel_capacity : ℕ) (baseline : Baseline.Baseline decimals)
        (blacklist : Blacklist.Blacklist bloom to_lowercase) (s : S)
        → 0 < batch_size
        → Reach externals mpsc blake3 to_json agent_id batch_size
            (started externals mpsc blake3 to_json channel_capacity baseline blacklist)
            s
        → Kept s
    reached-Flows channel_capacity baseline blacklist s positive r =
        Reach-Flows positive r (started-Flows channel_capacity baseline blacklist positive)

    -- In capture mode with a positive batch size, in every state that the threads and tasks can reach, in
    -- whatever order they move: the ring holds at most 4096 packets. The packets that the stream received,
    -- those freed with the channel, and those in the channel, in the analyzer's hands and in the ring, in
    -- this order and taken without their scores, are a subsequence of the packets captured. Together with
    -- those that the channel refused and those that the ring evicted they are as many as were captured. The
    -- ring's drop counter is the number of evictions, modulo 2^64. The batches handed to
    -- `send` and the messages still pending carry the messages of the packets received, in order; none is pending once the stream has ended.
    pub pipeline_conserves :
        (channel_capacity : ℕ) (baseline : Baseline.Baseline decimals)
        (blacklist : Blacklist.Blacklist bloom to_lowercase) (s : S)
        → 0 < batch_size
        → Reach externals mpsc blake3 to_json agent_id batch_size
            (started externals mpsc blake3 to_json channel_capacity baseline blacklist)
            s
        → (length s.analysis.ring.buf ≤ ring_size)
          × Sublist
              (marks (s.taken ++ (s.freed ++ holds externals mpsc s.analysis)))
              (marks s.captured)
          × (length s.captured
              ≡ length (s.taken ++ (s.freed ++ holds externals mpsc s.analysis))
                + length s.analysis.refused
                + length s.evictions)
          × (s.analysis.ring.dropped ≡ length s.evictions % 2 ^ 64)
          × (events_of s.stream.handed ++ s.stream.pending
              ≡ messages_of externals mpsc blake3 to_json agent_id s.taken)
          × ((s.stream.running || length s.stream.pending == 0) ≡ true)
    pipeline_conserves channel_capacity baseline blacklist s positive r =
        let h = reached-Flows channel_capacity baseline blacklist s positive r in
        (
          omega (arith, h.valid.bounded, h.capacity),
          h.order,
          h.size,
          h.counted,
          h.reports.order,
          h.rested,
        )

    -- In capture mode with a positive batch size, in every state that the threads and tasks can reach: if
    -- the workers' jobs are the places of the batch that the analyzer scores, each exactly once and all of
    -- them, the analyzer's next step does not panic.
    pub turn-returns :
        (channel_capacity : ℕ) (baseline : Baseline.Baseline decimals)
        (blacklist : Blacklist.Blacklist bloom to_lowercase) (s : S) (jobs : List Job)
        → 0 < batch_size
        → Reach externals mpsc blake3 to_json agent_id batch_size
            (started externals mpsc blake3 to_json channel_capacity baseline blacklist)
            s
        → Suits jobs s.analysis.position
        → (a : Analysis externals mpsc) × (turn externals mpsc jobs s.analysis ≡ done a)
    turn-returns channel_capacity baseline blacklist s jobs positive r suits =
        let h = reached-Flows channel_capacity baseline blacklist s positive r in
        let (a, e, _) =
          Ensures-done (HandsOn externals mpsc s.analysis)
            (turn_at externals mpsc jobs s.analysis.position s.analysis)
            (turn-HandsOn externals mpsc jobs s.analysis.position s.analysis refl h.scanner
              suits) in
        (a, e)
