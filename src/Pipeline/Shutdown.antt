-- ===== src/Pipeline/Shutdown.antt =====
-- Nothing closes the ring, so the analyzer never leaves its loop and `main` never gets past the join.
use ocellus_network_monitor.Prelude.{
  ℕ, ◌≡◌, ◌≢◌, refl, ◌∙◌, ap, Bool, true, false, Option, none, some, String, List, [], ◌∷◌, arith,
  Allows, Allows-bind, Allows-value,
}
use ocellus_network_monitor.Packet.{RawPacket}
use ocellus_network_monitor.Text.{Str}
use ocellus_network_monitor.Mpsc.{Mpsc}
use ocellus_network_monitor.Ring.{RingInner, push, make_room, pop_blocking, drain_batch, pop_front}
use ocellus_network_monitor.Ring
use ocellus_network_monitor.Ids.Baseline
use ocellus_network_monitor.Ids.Blacklist
use ocellus_network_monitor.Ids.Engine.{Externals}
use ocellus_network_monitor.Analyzer.{
  Job, Position, draining, popping, exited, scoring, forwarding, after_drain, after_pop, Analysis,
  score_batch, forward, forward_option, turn_at,
}
use ocellus_network_monitor.Pipeline.{
  CaptureThread, capturing, joining, joined, MainTask, finished, System, started, capture_packet,
  receive, stop_stream, drop_capture_rx, Step, Reach, here, next, captures, capture_returns,
  analyzes, analyzer_joined, sweeps, stream_receives, stream_ticks, stream_fails, stream_stops,
  receiver_drops, heartbeat_stops, ctrl_c, stream_awaited, heartbeat_awaited, capture_joined,
}

abbrev is_exited : Position → Bool
is_exited draining = false
is_exited popping = false
is_exited exited = true
is_exited (scoring ps) = false
is_exited (forwarding ps) = false

abbrev is_joined : CaptureThread → Bool
is_joined capturing = false
is_joined joining = false
is_joined joined = true

abbrev is_finished : MainTask → Bool
is_finished MainTask.serving = false
is_finished MainTask.awaits_stream = false
is_finished MainTask.awaits_heartbeat = false
is_finished MainTask.awaits_capture = false
is_finished finished = true

after_drain-goes_on : (ps : List RawPacket) → is_exited (after_drain ps) ≡ false
after_drain-goes_on [] = refl
after_drain-goes_on (p ∷ ps) = refl

-- A pop from an open ring does not end the loop.
pop_goes_on :
    (r : RingInner RawPacket)
    → r.closed ≡ false
    → (is_exited (after_pop (pop_blocking r).0) ≡ false) × ((pop_blocking r).1.closed ≡ false)
unfolding pop_blocking
pop_goes_on r h = (ground arith, ground arith)

module _ (externals : Externals) (mpsc : Mpsc RawPacket) (blake3 : List ℕ → List ℕ)
    (to_json : Baseline.BaselineState externals.decimals → Option Str) where
  open externals use {bloom, decimals, to_lowercase}

  abbrev A : Type 0
  A = Analysis externals mpsc

  abbrev S : Type 0
  S = System externals mpsc blake3 to_json

  -- The ring is open and the analyzer in its loop.
  abbrev IsOpen : A → Type 0
  IsOpen a = (a.ring.closed ≡ false) × (is_exited a.position ≡ false)

  forward-ring : (pkt : RawPacket) (a : A) → (forward externals mpsc pkt a).ring ≡ a.ring
  unfolding forward
  forward-ring pkt a = by_channel (mpsc.try_send a.grpc_tx pkt)
    where
      by_channel : (o : Option mpsc.Channel) → (forward_option externals mpsc pkt o a).ring ≡ a.ring
      by_channel none = refl
      by_channel (some c) = refl

  turn-IsOpen :
      (jobs : List Job) (p : Position) (a : A)
      → a.ring.closed ≡ false
      → is_exited p ≡ false
      → Allows IsOpen (turn_at externals mpsc jobs p a)
  unfolding turn_at drain_batch
  turn-IsOpen jobs draining a h k = (h, after_drain-goes_on (drain_batch a.ring 64).0)
  turn-IsOpen jobs popping a h k =
      let (goes_on, open_still) = pop_goes_on a.ring h in (open_still, goes_on)
  turn-IsOpen jobs exited a h k = cc
  turn-IsOpen jobs (scoring ps) a h k =
      Allows-bind IsOpen (score_batch externals mpsc jobs a.engine ps) _ λ (scored, e). (h, refl)
  turn-IsOpen jobs (forwarding []) a h k = (h, refl)
  turn-IsOpen jobs (forwarding (pkt ∷ ps)) a h k =
      (ap (λ r. r.closed) (forward-ring pkt a) ∙ h, refl)

  -- Nobody has passed a join that waits for the analyzer.
  abbrev IsWaiting : S → Type 0
  IsWaiting s = IsOpen s.analysis × (is_joined s.capture ≡ false) × (is_finished s.main ≡ false)

  push-closed : (r : RingInner RawPacket) (pkt : RawPacket) → (push r pkt).0.closed ≡ r.closed
  unfolding push make_room
  push-closed r pkt = ground arith

  module _ (agent_id : String) (batch_size : ℕ) where
    Step-IsWaiting :
        {s t : S}
        → Step externals mpsc blake3 to_json agent_id batch_size s t
        → IsWaiting s
        → IsWaiting t
    unfolding capture_packet receive stop_stream drop_capture_rx
    Step-IsWaiting {s} (captures pkt c) ((o, x), j, m) =
        ((push-closed s.analysis.ring pkt ∙ o, x), j, m)
    Step-IsWaiting (capture_returns c) (o, j, m) = (o, refl, m)
    Step-IsWaiting {s} (analyzes jobs a suits e) ((o, x), j, m) = (
      Allows-value IsOpen (turn_at externals mpsc jobs s.analysis.position s.analysis) a e
          (turn-IsOpen jobs s.analysis.position s.analysis o x),
      j,
      m,
    )
    Step-IsWaiting (analyzer_joined c e) ((o, x), j, m) = cc
    Step-IsWaiting (sweeps clock) (o, j, m) = (o, j, m)
    Step-IsWaiting (stream_receives pkt c r e) (o, j, m) = (o, j, m)
    Step-IsWaiting (stream_fails r e f) (o, j, m) = (o, j, m)
    Step-IsWaiting (stream_ticks r) (o, j, m) = (o, j, m)
    Step-IsWaiting (stream_stops r n) (o, j, m) = (o, j, m)
    Step-IsWaiting (receiver_drops r c) (o, j, m) = (o, j, m)
    Step-IsWaiting (heartbeat_stops n) (o, j, m) = (o, j, m)
    Step-IsWaiting (ctrl_c e) (o, j, m) = (o, j, refl)
    Step-IsWaiting (stream_awaited e r c) (o, j, m) = (o, j, refl)
    Step-IsWaiting (heartbeat_awaited e r) (o, j, m) = (o, j, refl)
    Step-IsWaiting (capture_joined e c) (o, j, m) = cc

    Reach-IsWaiting :
        {s t : S}
        → Reach externals mpsc blake3 to_json agent_id batch_size s t
        → IsWaiting s
        → IsWaiting t
    Reach-IsWaiting here h = h
    Reach-IsWaiting (next r st) h = Step-IsWaiting st (Reach-IsWaiting r h)

    -- In capture mode, whatever the threads, the tasks, the clocks and the channel do: the ring is never
    -- closed, the analyzer thread never leaves its loop, the capture thread never gets past joining it, and
    -- `main`, once interrupted, never gets past joining the capture thread, so it never reaches the final
    -- `baseline.persist()`.
    pub shutdown_hangs :
        (channel_capacity : ℕ) (baseline : Baseline.Baseline decimals)
        (blacklist : Blacklist.Blacklist bloom to_lowercase) (s : S)
        → Reach externals mpsc blake3 to_json agent_id batch_size
            (started externals mpsc blake3 to_json channel_capacity baseline blacklist)
            s
        → (s.analysis.ring.closed ≡ false)
          × (s.analysis.position ≢ exited)
          × (s.capture ≢ joined)
          × (s.main ≢ finished)
    unfolding started Ring.new
    shutdown_hangs channel_capacity baseline blacklist s r =
        let ((o, x), j, m) = Reach-IsWaiting r ((refl, refl), refl, refl) in
        (o, (λ e. cc), (λ e. cc), (λ e. cc))
