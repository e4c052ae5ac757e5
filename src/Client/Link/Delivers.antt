-- ===== src/Client/Link/Delivers.antt =====
-- What the server receives of the batches.
mod Tests
use ocellus_network_monitor.Prelude.{
  ℕ, ◌<◌, ◌≤◌, ◌≡◌, refl, sym, ◌∙◌, ap, subst, Bool, true, false, ◌||◌, Bool-cases, inl, inr,
  Option, none, some, String, List, [], ◌∷◌, ◌++◌, append-nil, append_assoc, any, length, drop,
  drop-append, All, leb, ◌==◌, if◌then◌else◌, arith,
}
use ocellus_network_monitor.Packet.{IpAddr}
use ocellus_network_monitor.Text.{Str}
use ocellus_network_monitor.Mpsc.{Mpsc}
use ocellus_network_monitor.Client.{
  PacketEvent, PacketBatch, Wake, cancelled, received, ticked, Stream, start, flush, flush_events,
  stop, enqueue, enqueue_option, parse_packet, step, run_packet_stream,
}
use ocellus_network_monitor.Client.Batches.{
  flush-running, events_of, IsSized, Numbered, messages, run_packet_stream-append,
  run_packet_stream_delivers,
}
use ocellus_network_monitor.Client.Link.Sent.{step-sent}
use ocellus_network_monitor.Client.Link.{
  Link, link_started, answer, wake, LinkStep, answered, wakes_for, sends, send_fails, call_takes,
  server_receives, server_ends, acknowledges, LinkReach, link_here, link_next,
}

-- An event that ends the task.
abbrev pub is_end : Wake → Bool
is_end cancelled = true
is_end (received none) = true
is_end (received (some raw)) = false
is_end ticked = false

any-is_end : (ws : List Wake) (w : Wake) → any is_end (ws ++ (w ∷ [])) ≡ (any is_end ws || is_end w)
any-is_end [] w = ground arith
any-is_end (v ∷ ws) w = ground (arith, any-is_end ws w)

module _ (blake3 : List ℕ → List ℕ) (ip_to_string : IpAddr → Str) (agent_id : String)
    (batch_size : ℕ) where
  enqueue_option-running :
      (o : Option PacketEvent) (s : Stream)
      → (enqueue_option agent_id batch_size s o).running ≡ s.running
  unfolding enqueue
  enqueue_option-running none s = refl
  enqueue_option-running (some event) s =
      elim (Bool-cases (leb batch_size (length (s.pending ++ (event ∷ []))))) [
        | inl full ↦ simp full (flush-running agent_id _)
        | inr room ↦ simp room refl
      ]

  -- The task ends with an event that ends it only.
  step-runs :
      (id : String) (w : Wake) (s : Stream) (ws : List Wake)
      → s.running ≡ true
      → ((step blake3 ip_to_string agent_id batch_size s w).running || any is_end (ws ++ (w ∷ [])))
        ≡ true
  unfolding step
  step-runs id cancelled s ws on = ground (arith, any-is_end ws cancelled)
  step-runs id (received none) s ws on = ground (arith, any-is_end ws (received none))
  step-runs id (received (some raw)) s ws on =
      ground (arith, enqueue_option-running (parse_packet blake3 ip_to_string raw agent_id) s)
  step-runs id ticked s ws on = ground (arith, flush-running agent_id s)

  module _ (E : Type 0) (batches : Mpsc PacketBatch) where
    open batches use {
      contents, is_closed, contents-channel, contents-try_send, contents-try_recv,
      contents-drop_receiver, is_closed-channel, is_closed-try_send, is_closed-try_recv,
      is_closed-drop_receiver,
    }

    abbrev L : Type 0
    L = Link E batches

    abbrev Reaches : L → L → Type 0
    Reaches = LinkReach E batches blake3 ip_to_string agent_id batch_size

    -- The batches that have left the task.
    abbrev pub on_way : L → List PacketBatch
    on_way s = s.in_flight ++ contents s.batch_tx

    -- The batches in the order in which they were made.
    abbrev pub in_order : L → List PacketBatch
    in_order s = s.delivered ++ (s.lost ++ (on_way s ++ s.waiting))

    record Carries (s : L) : Type 0 where
      stream : s.stream ≡ run_packet_stream blake3 ip_to_string agent_id batch_size start s.wakes
      flow : in_order s ≡ s.stream.handed
      none_lost : is_closed s.batch_tx ≡ false → s.lost ≡ []
      emptied : is_closed s.batch_tx ≡ true → on_way s ≡ []
      runs : (s.stream.running || any is_end s.wakes) ≡ true

    wake-Carries :
        (w : Wake) (s : L)
        → s.stream.running ≡ true
        → s.waiting ≡ []
        → Carries s
        → Carries (wake E batches blake3 ip_to_string agent_id batch_size w s)
    unfolding wake
    wake-Carries w s on free h =
        let run = run_packet_stream blake3 ip_to_string agent_id batch_size start in
        let new =
          drop (length s.stream.handed)
            (step blake3 ip_to_string agent_id batch_size s.stream w).handed in
        let c = on_way s in
        let before : s.delivered ++ (s.lost ++ c) ≡ s.stream.handed =
          ap (λ l. s.delivered ++ (s.lost ++ l)) (sym (append-nil c) ∙ ap (λ l. c ++ l) (sym free))
          ∙ h.flow in
        record {
          stream =
              ap
                (λ b.
                  if b then step blake3 ip_to_string agent_id batch_size s.stream w else s.stream)
                (sym on)
              ∙ ap (λ t. if t.running then step blake3 ip_to_string agent_id batch_size t w else t)
                  h.stream
              ∙ sym (
                  run_packet_stream-append blake3 ip_to_string agent_id batch_size start s.wakes w);
          flow =
              ap (λ l. s.delivered ++ l) (sym (append_assoc s.lost c new))
              ∙ sym (append_assoc s.delivered (s.lost ++ c) new)
              ∙ ap (λ l. l ++ new) before
              ∙ step-sent blake3 ip_to_string agent_id batch_size s.stream w;
          none_lost = h.none_lost;
          emptied = h.emptied;
          runs = step-runs agent_id w s.stream s.wakes on;
        }

    step-Carries :
        {s t : L}
        → LinkStep E batches blake3 ip_to_string agent_id batch_size s t
        → Carries s
        → Carries t
    unfolding answer
    step-Carries (answered true e) h = record {
      stream = h.stream;
      flow = h.flow;
      none_lost = h.none_lost;
      emptied = h.emptied;
      runs = h.runs;
    }
    step-Carries (answered false e) h = record {
      stream = h.stream;
      flow = h.flow;
      none_lost = h.none_lost;
      emptied = h.emptied;
      runs = h.runs;
    }
    step-Carries {s} (wakes_for w o on free) h = wake-Carries w s on free h
    step-Carries {s} (sends b rest c made sent) h =
        let q = on_way s in
        let same : (s.in_flight ++ contents c) ++ rest ≡ q ++ s.waiting =
          ap (λ l. (s.in_flight ++ l) ++ rest) (contents-try_send s.batch_tx c b sent)
          ∙ ap (λ l. l ++ rest) (sym (append_assoc s.in_flight (contents s.batch_tx) (b ∷ [])))
          ∙ append_assoc q (b ∷ []) rest
          ∙ ap (λ l. q ++ l) (sym made) in
        record {
          stream = h.stream;
          flow = ap (λ l. s.delivered ++ (s.lost ++ l)) same ∙ h.flow;
          none_lost = λ e. h.none_lost (is_closed-try_send s.batch_tx c b sent).0;
          emptied = λ e. cc ((is_closed-try_send s.batch_tx c b sent).1);
          runs = h.runs;
        }
    step-Carries {s} (send_fails b rest made closed) h =
        let none_left = h.emptied closed in
        record {
          stream = h.stream;
          flow =
              ap (λ l. s.delivered ++ ((s.lost ++ (b ∷ [])) ++ (l ++ rest))) none_left
              ∙ ap (λ l. s.delivered ++ l) (append_assoc s.lost (b ∷ []) rest)
              ∙ ap (λ l. s.delivered ++ (s.lost ++ l)) (sym made)
              ∙ ap (λ l. s.delivered ++ (s.lost ++ (l ++ s.waiting))) (sym none_left)
              ∙ h.flow;
          none_lost = λ e. cc;
          emptied = h.emptied;
          runs = h.runs;
        }
    step-Carries {s} (call_takes b c taken) h =
        let same : (s.in_flight ++ (b ∷ [])) ++ contents c ≡ on_way s =
          append_assoc s.in_flight (b ∷ []) (contents c)
          ∙ ap (λ l. s.in_flight ++ l) (sym (contents-try_recv s.batch_tx c b taken)) in
        let kept = is_closed-try_recv s.batch_tx c b taken in
        record {
          stream = h.stream;
          flow = ap (λ l. s.delivered ++ (s.lost ++ (l ++ s.waiting))) same ∙ h.flow;
          none_lost = λ e. h.none_lost (sym kept ∙ e);
          emptied = λ e. same ∙ h.emptied (sym kept ∙ e);
          runs = h.runs;
        }
    step-Carries {s} (server_receives b rest made) h =
        let q = on_way s in
        let left = rest ++ contents s.batch_tx in
        let head : q ≡ b ∷ left = ap (λ l. l ++ contents s.batch_tx) made in
        let attached : is_closed s.batch_tx ≡ false = elim (Bool-cases (is_closed s.batch_tx)) [
          | inl closed ↦ absurd (cc (h.emptied closed, head))
          | inr open_still ↦ open_still
        ] in
        let none_yet = h.none_lost attached in
        record {
          stream = h.stream;
          flow =
              ap (λ l. (s.delivered ++ (b ∷ [])) ++ (l ++ (left ++ s.waiting))) none_yet
              ∙ append_assoc s.delivered (b ∷ []) (left ++ s.waiting)
              ∙ ap (λ l. s.delivered ++ (l ++ s.waiting)) (sym head)
              ∙ ap (λ l. s.delivered ++ (l ++ (q ++ s.waiting))) (sym none_yet)
              ∙ h.flow;
          none_lost = λ e. none_yet;
          emptied = λ e. absurd (cc (e, attached));
          runs = h.runs;
        }
    step-Carries {s} server_ends h =
        let q = on_way s in
        record {
          stream = h.stream;
          flow =
              ap (λ l. s.delivered ++ ((s.lost ++ q) ++ (l ++ s.waiting)))
                (contents-drop_receiver s.batch_tx)
              ∙ ap (λ l. s.delivered ++ l) (append_assoc s.lost q s.waiting)
              ∙ h.flow;
          none_lost = λ e. cc (is_closed-drop_receiver s.batch_tx);
          emptied = λ e. contents-drop_receiver s.batch_tx;
          runs = h.runs;
        }
    step-Carries (acknowledges w e) h = record {
      stream = h.stream;
      flow = h.flow;
      none_lost = h.none_lost;
      emptied = h.emptied;
      runs = h.runs;
    }

    Reaches-Carries : {s t : L} → Reaches s t → Carries s → Carries t
    Reaches-Carries link_here h = h
    Reaches-Carries (link_next r st) h = step-Carries st (Reaches-Carries r h)

    started-Carries : Carries (link_started E batches)
    unfolding link_started run_packet_stream
    started-Carries = record {
      stream = refl;
      flow = rw (contents-channel 64) refl;
      none_lost = λ e. refl;
      emptied = λ e. contents-channel 64;
      runs = refl;
    }

    pub in_order-sent : (s : L) → Reaches (link_started E batches) s → in_order s ≡ s.stream.handed
    in_order-sent s r = (Reaches-Carries r started-Carries).flow

    -- With a positive batch size, in every state that the packet stream, the channel and the server can
    -- reach: the batches that the server received, then those that were lost, those that the call has taken,
    -- those in the channel and the one in `send` carry, with the messages still pending, the messages of the packets received before the
    -- stream stopped, in order. They have at least one message and at most the batch size and are numbered
    -- from 0 upward (in `u64`). None is lost unless the server has ended the stream.
    pub link_delivers :
        (s : L)
        → 0 < batch_size
        → Reaches (link_started E batches) s
        → (events_of (in_order s) ++ s.stream.pending
            ≡ messages blake3 ip_to_string agent_id s.wakes)
          × All (IsSized batch_size) (in_order s)
          × Numbered 0 (in_order s)
          × ((is_closed s.batch_tx || length s.lost == 0) ≡ true)
    link_delivers s positive r =
        let h = Reaches-Carries r started-Carries in
        let (order, sizes, numbers, _, _, _) =
          run_packet_stream_delivers blake3 ip_to_string agent_id batch_size s.wakes positive in
        let sent = ap (λ t. t.handed) h.stream in
        (
          ap (λ l. events_of l ++ s.stream.pending) (h.flow ∙ sent)
              ∙ ap
                  (λ t.
                    events_of
                      (run_packet_stream blake3 ip_to_string agent_id batch_size start
                        s.wakes).handed
                    ++ t.pending)
                  h.stream
              ∙ order,
          subst (All (IsSized batch_size)) (sym (h.flow ∙ sent)) sizes,
          subst (Numbered 0) (sym (h.flow ∙ sent)) numbers,
          elim (Bool-cases (is_closed s.batch_tx)) [
            | inl closed ↦ ap (λ b. b || length s.lost == 0) closed
            | inr attached ↦
                ap (λ b. b || length s.lost == 0) attached
                ∙ ap (λ l. length l == 0) (h.none_lost attached)
          ],
        )

    -- A closed channel stays closed, and nothing is received from it.
    step-Closed :
        {s t : L}
        → LinkStep E batches blake3 ip_to_string agent_id batch_size s t
        → Carries s
        → is_closed s.batch_tx ≡ true
        → (is_closed t.batch_tx ≡ true) × (t.delivered ≡ s.delivered)
    unfolding answer wake
    step-Closed (answered true e) h closed = (closed, refl)
    step-Closed (answered false e) h closed = (closed, refl)
    step-Closed (wakes_for w o on free) h closed = (closed, refl)
    step-Closed {s} (sends b rest c made sent) h closed =
        cc ((is_closed-try_send s.batch_tx c b sent).0)
    step-Closed (send_fails b rest made e) h closed = (closed, refl)
    step-Closed {s} (call_takes b c taken) h closed =
        (is_closed-try_recv s.batch_tx c b taken ∙ closed, refl)
    step-Closed {s} (server_receives b rest made) h closed =
        absurd (cc (ap (λ l. l ++ contents s.batch_tx) made, h.emptied closed))
    step-Closed {s} server_ends h closed = (is_closed-drop_receiver s.batch_tx, refl)
    step-Closed (acknowledges w e) h closed = (closed, refl)

    Reaches-Closed :
        {s t : L}
        → Reaches s t
        → Carries s
        → is_closed s.batch_tx ≡ true
        → (is_closed t.batch_tx ≡ true) × (t.delivered ≡ s.delivered)
    Reaches-Closed link_here h closed = (closed, refl)
    Reaches-Closed (link_next r st) h closed =
        let (still, same) = Reaches-Closed r h closed in
        let (now, kept) = step-Closed st (Reaches-Carries r h) still in (now, kept ∙ same)

    -- Once the server has ended the stream, in every state that can follow: the channel stays closed, the
    -- server receives nothing more, and every batch made that it had not received is lost or waits to be
    -- lost. The task goes on all the same: it has not ended unless an event was the cancellation or the
    -- closed channel of packets.
    pub closed_loses :
        (s t : L)
        → Reaches (link_started E batches) s
        → is_closed s.batch_tx ≡ true
        → Reaches s t
        → (is_closed t.batch_tx ≡ true)
          × (t.delivered ≡ s.delivered)
          × (s.delivered ++ (t.lost ++ t.waiting) ≡ t.stream.handed)
          × ((t.stream.running || any is_end t.wakes) ≡ true)
    closed_loses s t before closed after =
        let h = Reaches-Carries before started-Carries in
        let k = Reaches-Carries after h in
        let (still, same) = Reaches-Closed after h closed in
        (
          still,
          same,
          ap (λ l. l ++ (t.lost ++ t.waiting)) (sym same)
              ∙ ap (λ l. t.delivered ++ (t.lost ++ (l ++ t.waiting))) (sym (k.emptied still))
              ∙ k.flow,
          k.runs,
        )
