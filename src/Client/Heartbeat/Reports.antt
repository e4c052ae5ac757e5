-- ===== src/Client/Heartbeat/Reports.antt =====
-- What the heartbeats say of the packets.
mod Tests
use ocellus_network_monitor.Prelude.{
  map-append, ℕ, ◌+◌, ◌%◌, ◌^◌, ◌<◌, ◌≡◌, refl, sym, ◌∙◌, ap, subst, Bool, true, false, Bool-cases,
  inl, inr, if◌then◌else◌, Option, none, some, String, List, [], ◌∷◌, ◌++◌, append-nil,
  append_assoc, map, length,
}
use ocellus_network_monitor.Packet.{IpAddr}
use ocellus_network_monitor.Text.{Str}
use ocellus_network_monitor.Client.{Stream, Wake, start, step, run_packet_stream}
use ocellus_network_monitor.Client.Batches.{
  run_packet_stream-append, messages, run_packet_stream_delivers,
}
use ocellus_network_monitor.Client.Heartbeat.{
  Float32, HeartbeatConfig, AgentHeartbeat, Tasks, tasks_started, Event, stream_wakes, beat_due,
  beat_cancelled, heartbeat, task_step, run_tasks,
}

module _ (float32 : Float32) where
  -- For each heartbeat before the loop's cancellation, the wakes of the stream so far.
  unfoldable pub beats_at : List Wake → List (Event float32) → List (List Wake)
  beats_at ws [] = []
  beats_at ws (stream_wakes w ∷ es) = beats_at (ws ++ (w ∷ [])) es
  beats_at ws (beat_due reading ∷ es) = ws ∷ beats_at ws es
  beats_at ws (beat_cancelled ∷ es) = []

  -- Captured, flagged and dropped packets.
  abbrev pub reported : AgentHeartbeat float32 → ℕ × ℕ × ℕ
  reported hb = (hb.packets_captured, hb.packets_flagged, hb.packets_dropped)

  module _ (blake3 : List ℕ → List ℕ) (ip_to_string : IpAddr → Str) (cfg : HeartbeatConfig)
      (batch_size : ℕ) where
    abbrev T : Type 0
    T = Tasks float32

    abbrev run : T → List (Event float32) → T
    run = run_tasks float32 blake3 ip_to_string cfg batch_size

    abbrev stream_after : List Wake → Stream
    stream_after = run_packet_stream blake3 ip_to_string cfg.agent_id batch_size start

    abbrev pub expected : List Wake → ℕ × ℕ × ℕ
    expected ws = (length (messages blake3 ip_to_string cfg.agent_id ws) % 2 ^ 64, 0, 0)

    abbrev next : Stream → Wake → Stream
    next s w = if s.running then step blake3 ip_to_string cfg.agent_id batch_size s w else s

    -- The tasks when the stream has seen these wakes.
    record Stands (ws : List Wake) (t : T) : Type 0 where
      stream : t.stream ≡ stream_after ws
      captured : t.counters.captured ≡ t.stream.captured
      flagged : t.counters.flagged ≡ 0
      dropped : t.counters.dropped ≡ 0

    stopped_beats :
        (t : T) (es : List (Event float32)) → t.beating ≡ false → (run t es).beats ≡ t.beats
    unfolding run_tasks task_step
    stopped_beats t [] off = refl
    stopped_beats t (stream_wakes w ∷ es) off =
        stopped_beats (task_step float32 blake3 ip_to_string cfg batch_size t (stream_wakes w)) es
          off
    stopped_beats t (beat_due reading ∷ es) off =
        let t' : T = record t {
          beats = t.beats ++ (heartbeat float32 cfg t.counters reading ∷ []);
        } in
        ap (λ b. (run (if b then t' else t) es).beats) off ∙ stopped_beats t es off
    stopped_beats t (beat_cancelled ∷ es) off = stopped_beats (record t { beating = false }) es refl

    beat_report :
        (ws : List Wake) (t : T) (reading : _)
        → 0 < batch_size
        → Stands ws t
        → reported (heartbeat float32 cfg t.counters reading) ≡ expected ws
    unfolding heartbeat
    beat_report ws t reading positive h =
        let (_, _, _, _, _, count) =
          run_packet_stream_delivers blake3 ip_to_string cfg.agent_id batch_size ws positive in
        rw (h.captured ∙ ap (λ s. s.captured) h.stream ∙ count, h.flagged, h.dropped) refl

    run-reports :
        (ws : List Wake) (t : T) (es : List (Event float32))
        → 0 < batch_size
        → t.beating ≡ true
        → Stands ws t
        → map reported (run t es).beats ≡ map reported t.beats ++ map expected (beats_at ws es)
    unfolding run_tasks task_step beats_at
    run-reports ws t [] positive on h = sym (append-nil _)
    run-reports ws t (stream_wakes w ∷ es) positive on h =
        run-reports (ws ++ (w ∷ []))
          (task_step float32 blake3 ip_to_string cfg batch_size t (stream_wakes w)) es positive on
          (record {
            stream =
                ap (λ s. next s w) h.stream
                ∙ sym (
                    run_packet_stream-append blake3 ip_to_string cfg.agent_id batch_size start ws
                      w);
            captured = refl;
            flagged = h.flagged;
            dropped = h.dropped;
          })
    run-reports ws t (beat_due reading ∷ es) positive on h =
        let hb = heartbeat float32 cfg t.counters reading in
        let t' : T = record t { beats = t.beats ++ (hb ∷ []) } in
        let rest = run-reports ws t' es positive on (record {
          stream = h.stream;
          captured = h.captured;
          flagged = h.flagged;
          dropped = h.dropped;
        }) in
        ap (λ b. map reported (run (if b then t' else t) es).beats) on
        ∙ rest
        ∙ ap (λ l. l ++ map expected (beats_at ws es)) (map-append reported t.beats (hb ∷ []))
        ∙ append_assoc (map reported t.beats) (reported hb ∷ []) (map expected (beats_at ws es))
        ∙ ap (λ r. map reported t.beats ++ (r ∷ map expected (beats_at ws es)))
            (beat_report ws t reading positive h)
    run-reports ws t (beat_cancelled ∷ es) positive on h =
        ap (map reported) (stopped_beats (record t { beating = false }) es refl)
        ∙ sym (append-nil _)

    -- With a positive batch size and any interleaving of what the packet stream and the heartbeat loop wake
    -- for: the heartbeats sent are those due before the loop is cancelled, and each reports as captured the
    -- number of messages made of the packets that the stream had received by then, modulo 2^64, and 0
    -- flagged and 0 dropped packets, whatever the packets' flags are.
    pub heartbeats_report :
        (es : List (Event float32))
        → 0 < batch_size
        → map reported
            (run_tasks float32 blake3 ip_to_string cfg batch_size (tasks_started float32) es).beats
          ≡ map expected (beats_at [] es)
    unfolding run_packet_stream
    heartbeats_report es positive =
        run-reports [] (tasks_started float32) es positive refl
          (record { stream = refl; captured = refl; flagged = refl; dropped = refl })
