-- ===== src/Pipeline/Moves.antt =====
-- What a step of the capture thread, the analyzer or the packet stream does to the account.
use mathlib.Core.List.{Sublist}
use mathlib.Core.List.Sublist
use ocellus_network_monitor.Prelude.{
  ◌||◌, ◌==◌, Bool, true, false, ℕ, ◌<◌, ◌%◌, ◌^◌, ◌≡◌, refl, sym, ◌∙◌, ap, subst, Option, none,
  some, String, List, [], ◌∷◌, ◌++◌, append-nil, append_assoc, length, length-append, done, arith,
  Ensures-value,
}
use ocellus_network_monitor.Packet.{RawPacket}
use ocellus_network_monitor.Text.{Str}
use ocellus_network_monitor.Mpsc.{Mpsc}
use ocellus_network_monitor.Ring.{push}
use ocellus_network_monitor.Ring.Newest.{push-IsValid}
use ocellus_network_monitor.Ring.Schedule.{evicted, push-evicted, push-dropped}
use ocellus_network_monitor.Client
use ocellus_network_monitor.Client.{PacketEvent, Stream, flush, parse_packet}
use ocellus_network_monitor.Client.Batches.{
  Keeps, to_list, flush_all-Keeps, flush-running, stop-Keeps, enqueue-Keeps,
}
use ocellus_network_monitor.Ids.Baseline
use ocellus_network_monitor.Ids.Engine.{Externals}
use ocellus_network_monitor.Analyzer.{Job, Analysis, turn, turn_at}
use ocellus_network_monitor.Pipeline.{
  System, in_flight, Suits, capture_packet, receive, stop_stream, drop_capture_rx,
}
use ocellus_network_monitor.Pipeline.Flow.{HandsOn, turn-HandsOn, marks, holds}
use ocellus_network_monitor.Pipeline.Account.{
  messages_of, messages_of-append, line, Flows, regroup, evict_order, line_order,
}

module _ (externals : Externals) (mpsc : Mpsc RawPacket) (blake3 : List ℕ → List ℕ)
    (to_json : Baseline.BaselineState externals.decimals → Option Str) where
  open externals use {bloom, crate, decimals, to_lowercase, ip_to_string}
  open mpsc use {contents, contents-try_recv, contents-drop_receiver, contents-channel, channel}

  abbrev S : Type 0
  S = System externals mpsc blake3 to_json

  module _ (agent_id : String) (batch_size : ℕ) where
    abbrev Kept : S → Type 0
    Kept = Flows externals mpsc blake3 to_json agent_id batch_size

    enqueue_report :
        {got : List PacketEvent} {stream : Stream} (o : Option PacketEvent)
        → 0 < batch_size
        → Keeps batch_size got stream
        → Keeps batch_size
            (got ++ (to_list o ++ []))
            (Client.enqueue_option agent_id batch_size stream o)
    enqueue_report {got} {stream} none positive k =
        subst (λ l. Keeps batch_size l stream) (sym (append-nil got)) k
    enqueue_report {got} {stream} (some event) positive k =
        (enqueue-Keeps agent_id batch_size got stream event positive k).0

    enqueue_option-running :
        (stream : Stream) (got : List PacketEvent) (o : Option PacketEvent)
        → 0 < batch_size
        → Keeps batch_size got stream
        → (Client.enqueue_option agent_id batch_size stream o).running ≡ stream.running
    enqueue_option-running stream got none positive k = refl
    enqueue_option-running stream got (some event) positive k =
        (enqueue-Keeps agent_id batch_size got stream event positive k).1

    rested_empty : (b : Bool) (n : ℕ) → n ≡ 0 → (b || n == 0) ≡ true
    rested_empty b n h = ground arith

    pub captures-Flows :
        (pkt : RawPacket) (s : S)
        → Kept s
        → Kept (capture_packet externals mpsc blake3 to_json pkt s)
    unfolding capture_packet
    captures-Flows pkt s h =
        let ring = s.analysis.ring in
        let (moved, same) = push-evicted ring pkt in
        let c = contents s.analysis.grpc_tx in
        let i = in_flight s.analysis.position in
        let before = regroup s.taken s.freed c i ring.buf in
        let after = regroup s.taken s.freed c i (push ring pkt).0.buf in
        let front = s.taken ++ (s.freed ++ (c ++ i)) in
        record {
          valid = push-IsValid ring pkt h.valid;
          capacity = same ∙ h.capacity;
          order =
              subst (λ l. Sublist (marks l) (marks (s.captured ++ (pkt ∷ [])))) (sym after)
                (evict_order front (evicted ring) ring.buf (push ring pkt).0.buf s.captured pkt
                  moved (subst (λ l. Sublist (marks l) (marks s.captured)) before h.order));
          size = omega (
            arith,
            h.size,
            ap length before,
            ap length after,
            ap length moved,
            length-append front ring.buf,
            length-append front (push ring pkt).0.buf,
            length-append ring.buf (pkt ∷ []),
            length-append (evicted ring) (push ring pkt).0.buf,
            length-append s.captured (pkt ∷ []),
            length-append s.evictions (evicted ring),
          );
          counted =
              push-dropped ring pkt (length s.evictions) h.valid h.counted
              ∙ ap (λ n. n % 2 ^ 64) (sym (length-append s.evictions (evicted ring)));
          scanner = h.scanner;
          quiet = h.quiet;
          reports = h.reports;
          rested = h.rested;
        }

    pub turn-Flows :
        (jobs : List Job) (a : Analysis externals mpsc) (s : S)
        → Suits jobs s.analysis.position
        → turn externals mpsc jobs s.analysis ≡ done a
        → Kept s
        → Kept (record s { analysis = a })
    turn-Flows jobs a s suits e h =
        let k : HandsOn externals mpsc s.analysis a =
          Ensures-value (HandsOn externals mpsc s.analysis)
            (turn_at externals mpsc jobs s.analysis.position s.analysis) a e
            (turn-HandsOn externals mpsc jobs s.analysis.position s.analysis refl h.scanner
              suits) in
        let t = s.taken in
        let f = s.freed in
        let l = holds externals mpsc s.analysis in
        let l' = holds externals mpsc a in
        record {
          valid = record {
            positive = omega (arith, h.valid.positive, k.cap);
            bounded = omega (arith, h.valid.bounded, k.cap, k.bounded);
            counter = omega (arith, h.valid.counter, k.dropped);
          };
          capacity = k.cap ∙ h.capacity;
          order = Sublist.trans (line_order t f l' l k.order) h.order;
          size = omega (
            arith,
            h.size,
            k.size,
            length-append t (f ++ l),
            length-append f l,
            length-append t (f ++ l'),
            length-append f l',
          );
          counted = k.dropped ∙ h.counted;
          scanner = k.scanner;
          quiet = h.quiet;
          reports = h.reports;
          rested = h.rested;
        }

    abbrev received_by : S → RawPacket → Stream
    received_by s pkt =
        Client.enqueue_option agent_id batch_size s.stream
          (parse_packet blake3 ip_to_string pkt agent_id)

    pub receive-Flows :
        (pkt : RawPacket) (c : mpsc.Channel) (s : S)
        → 0 < batch_size
        → s.stream.running ≡ true
        → mpsc.try_recv s.analysis.grpc_tx ≡ some (pkt, c)
        → Kept s
        → Kept (receive externals mpsc blake3 to_json agent_id batch_size pkt c s)
    unfolding receive Client.step messages_of
    receive-Flows pkt c s positive on e h =
        let rest = in_flight s.analysis.position ++ s.analysis.ring.buf in
        let last = pkt ∷ [] in
        let none_freed = h.quiet on in
        let same : (s.taken ++ last) ++ (s.freed ++ (contents c ++ rest))
            ≡ line externals mpsc blake3 to_json s =
          ap (λ f. (s.taken ++ last) ++ (f ++ (contents c ++ rest))) none_freed
          ∙ append_assoc s.taken last (contents c ++ rest)
          ∙ ap (λ l. s.taken ++ (l ++ rest)) (sym (contents-try_recv s.analysis.grpc_tx c pkt e))
          ∙ ap (λ f. s.taken ++ (f ++ holds externals mpsc s.analysis)) (sym none_freed) in
        record {
          valid = h.valid;
          capacity = h.capacity;
          order = subst (λ l. Sublist (marks l) (marks s.captured)) (sym same) h.order;
          size = omega (arith, h.size, ap length same);
          counted = h.counted;
          scanner = h.scanner;
          quiet = λ _. none_freed;
          rested =
              ap (λ b. b || length (received_by s pkt).pending == 0)
                (enqueue_option-running s.stream _ (parse_packet blake3 ip_to_string pkt agent_id)
                    positive h.reports
                  ∙ on);
          reports =
              subst
                (λ l. Keeps batch_size l (
                  Client.enqueue_option agent_id batch_size s.stream
                    (parse_packet blake3 ip_to_string pkt agent_id)))
                (sym (messages_of-append externals mpsc blake3 to_json agent_id s.taken last))
                (enqueue_report (parse_packet blake3 ip_to_string pkt agent_id) positive h.reports);
        }

    pub ticks-Flows :
        (s : S) → 0 < batch_size → Kept s → Kept (record s { stream = flush agent_id s.stream })
    ticks-Flows s positive h = record {
      valid = h.valid;
      capacity = h.capacity;
      order = h.order;
      size = h.size;
      counted = h.counted;
      scanner = h.scanner;
      quiet = λ on. h.quiet (sym (flush-running agent_id s.stream) ∙ on);
      reports = (flush_all-Keeps agent_id batch_size _ s.stream positive h.reports).0;
      rested =
          rested_empty (flush agent_id s.stream).running (length (flush agent_id s.stream).pending)
            (flush_all-Keeps agent_id batch_size _ s.stream positive h.reports).1;
    }

    pub stop_stream-Flows :
        (s : S)
        → 0 < batch_size
        → Kept s
        → Kept (stop_stream externals mpsc blake3 to_json agent_id batch_size s)
    unfolding stop_stream Client.step
    stop_stream-Flows s positive h = record {
      valid = h.valid;
      capacity = h.capacity;
      order = h.order;
      size = h.size;
      counted = h.counted;
      scanner = h.scanner;
      quiet = λ e. cc;
      rested =
          rested_empty false (length (flush agent_id s.stream).pending)
            (flush_all-Keeps agent_id batch_size _ s.stream positive h.reports).1;
      reports =
          stop-Keeps batch_size (messages_of externals mpsc blake3 to_json agent_id s.taken)
            (flush agent_id s.stream)
            (flush_all-Keeps agent_id batch_size _ s.stream positive h.reports).0;
    }

    pub drop_capture_rx-Flows :
        (s : S)
        → s.stream.running ≡ false
        → Kept s
        → Kept (drop_capture_rx externals mpsc blake3 to_json s)
    unfolding drop_capture_rx
    drop_capture_rx-Flows s off h =
        let rest = in_flight s.analysis.position ++ s.analysis.ring.buf in
        let c = s.analysis.grpc_tx in
        let same : s.taken ++ ((s.freed ++ contents c) ++ (contents (mpsc.drop_receiver c) ++ rest))
            ≡ line externals mpsc blake3 to_json s =
          ap (λ l. s.taken ++ ((s.freed ++ contents c) ++ (l ++ rest))) (contents-drop_receiver c)
          ∙ ap (λ l. s.taken ++ l) (append_assoc s.freed (contents c) rest) in
        record {
          valid = h.valid;
          capacity = h.capacity;
          order = subst (λ l. Sublist (marks l) (marks s.captured)) (sym same) h.order;
          size = omega (arith, h.size, ap length same);
          counted = h.counted;
          scanner = h.scanner;
          quiet = λ e. absurd (cc (e, off));
          rested = h.rested;
          reports = h.reports;
        }
