-- ===== src/Client/Batches.antt =====
-- The batches of the packet stream against the packets received.
mod Keeping
unfoldable pub use Keeping.*
use ocellus_network_monitor.Prelude.{
  Bool, ℕ, ◌+◌, ◌%◌, ◌^◌, ◌<◌, ◌≤◌, ◌≡◌, refl, sym, ◌∙◌, ap, subst, true, false, ◌||◌, Option, none,
  some, String, List, [], ◌∷◌, ◌++◌, append-nil, append_assoc, length, length-append, All,
  All-append, leb, ◌==◌, if◌then◌else◌, arith, tests, Bool-cases, inl, inr,
}
use ocellus_network_monitor.Packet.{IpAddr}
use ocellus_network_monitor.Text.{Str}
use ocellus_network_monitor.Client.{
  PacketEvent, PacketBatch, Wake, cancelled, received, ticked, Stream, start, flush, flush_events,
  stop, enqueue, enqueue_option, parse_packet, step, run_packet_stream,
}

abbrev pub to_list : Option PacketEvent → List PacketEvent
to_list none = []
to_list (some e) = e ∷ []

module _ (blake3 : List ℕ → List ℕ) (ip_to_string : IpAddr → Str) where
  -- The messages of the packets that the loop receives before an event that stops it.
  unfoldable pub messages : String → List Wake → List PacketEvent
  messages agent_id [] = []
  messages agent_id (cancelled ∷ ws) = []
  messages agent_id (received none ∷ ws) = []
  messages agent_id (received (some raw) ∷ ws) =
      to_list (parse_packet blake3 ip_to_string raw agent_id) ++ messages agent_id ws
  messages agent_id (ticked ∷ ws) = messages agent_id ws

  abbrev run : String → ℕ → Stream → List Wake → Stream
  run = run_packet_stream blake3 ip_to_string

  run_stopped :
      (agent_id : String) (size : ℕ) (s : Stream) (ws : List Wake)
      → s.running ≡ false
      → run agent_id size s ws ≡ s
  unfolding run_packet_stream
  run_stopped agent_id size s [] h = refl
  run_stopped agent_id size s (w ∷ ws) h = rw h refl

  -- What holds when the loop has seen all events.
  abbrev Ends : ℕ → List PacketEvent → Stream → Type 0
  Ends size got s = Keeps size got s × ((s.running || length s.pending == 0) ≡ true)

  run_on :
      (agent_id : String) (size : ℕ) (s : Stream) (w : Wake) (ws : List Wake)
      → s.running ≡ true
      → run agent_id size s (w ∷ ws)
        ≡ run agent_id size (step blake3 ip_to_string agent_id size s w) ws
  unfolding run_packet_stream
  run_on agent_id size s w ws on =
      ap (λ b. if b then run agent_id size (step blake3 ip_to_string agent_id size s w) ws else s)
        on

  -- One more event.
  pub run_packet_stream-append :
      (agent_id : String) (size : ℕ) (s : Stream) (ws : List Wake) (w : Wake)
      → run agent_id size s (ws ++ (w ∷ [])) ≡ (
          let s' = run agent_id size s ws in
          if s'.running then step blake3 ip_to_string agent_id size s' w else s')
  unfolding run_packet_stream
  run_packet_stream-append agent_id size s [] w = refl
  run_packet_stream-append agent_id size s (v ∷ ws) w =
      let next : Stream → Stream =
        λ s. if s.running then step blake3 ip_to_string agent_id size s w else s in
      let s' = step blake3 ip_to_string agent_id size s v in
      let Goal : Bool → Type 0 = λ b.
        (if b then run agent_id size s' (ws ++ (w ∷ [])) else s)
        ≡ next (if b then run agent_id size s' ws else s) in
      elim (Bool-cases s.running) [
        | inl on ↦ subst Goal (sym on) (run_packet_stream-append agent_id size s' ws w)
        | inr off ↦
            subst Goal (sym off)
              (sym (ap (λ b. if b then step blake3 ip_to_string agent_id size s w else s) off))
      ]

  -- An event that stops the loop.
  stopped-Ends :
      (agent_id : String) (size : ℕ) (ws : List Wake) (got : List PacketEvent) (s : Stream)
      → 0 < size
      → Keeps size got s
      → Ends size (got ++ []) (run agent_id size (stop (flush agent_id s)) ws)
  stopped-Ends agent_id size ws got s h k =
      let (k', empty) = flush_all-Keeps agent_id size got s h k in
      let s' = stop (flush agent_id s) in
      subst (Ends size (got ++ [])) (sym (run_stopped agent_id size s' ws refl))
        (rw (append-nil got) (stop-Keeps size got (flush agent_id s) k', rw empty refl))

  run-Ends :
      (agent_id : String) (size : ℕ) (ws : List Wake) (got : List PacketEvent) (s : Stream)
      → 0 < size
      → s.running ≡ true
      → Keeps size got s
      → Ends size (got ++ messages agent_id ws) (run agent_id size s ws)
  unfolding messages step run_packet_stream
  run-Ends agent_id size [] got s h on k =
      rw (append-nil got) (k, ap (λ b. b || length s.pending == 0) on)
  run-Ends agent_id size (w ∷ ws) got s h on k =
      subst (Ends size (got ++ messages agent_id (w ∷ ws))) (sym (run_on agent_id size s w ws on))
        (by_wake w (λ got s on k. run-Ends agent_id size ws got s h on k))
    where
      Rest : Type 0
      Rest =
          (got : List PacketEvent) (s : Stream)
          → s.running ≡ true
          → Keeps size got s
          → Ends size (got ++ messages agent_id ws) (run agent_id size s ws)

      by_event :
          (o : Option PacketEvent)
          → Rest
          → Ends size
              (got ++ (to_list o ++ messages agent_id ws))
              (run agent_id size (enqueue_option agent_id size s o) ws)
      by_event none go = go got s on k
      by_event (some event) go =
          let (k', on') = enqueue-Keeps agent_id size got s event h k in
          subst (λ l. Ends size l (run agent_id size (enqueue agent_id size s event) ws))
            (append_assoc got (event ∷ []) (messages agent_id ws)) (go _ _ (on' ∙ on) k')

      by_wake :
          (w : Wake)
          → Rest
          → Ends size
              (got ++ messages agent_id (w ∷ ws))
              (run agent_id size (step blake3 ip_to_string agent_id size s w) ws)
      by_wake cancelled go = stopped-Ends agent_id size ws got s h k
      by_wake (received none) go = stopped-Ends agent_id size ws got s h k
      by_wake (received (some raw)) go = by_event (parse_packet blake3 ip_to_string raw agent_id) go
      by_wake ticked go =
          go got (flush agent_id s) (flush-running agent_id s ∙ on)
            (flush_all-Keeps agent_id size got s h k).0

  -- On any events, with a positive batch size, the batches that the loop hands to `send`, whether or not the
  -- channel then takes them, and after them the packets still pending carry the messages of the packets
  -- received before the loop stopped, in order: up to the `send`, none is missing, repeated or reordered.
  -- Every batch has at least one packet and at most the batch size; the batches are numbered
  -- from 0 upward (in `u64`); fewer packets than the batch size are pending, none once the loop has
  -- stopped; and the captured counter is the number of messages, modulo 2^64.
  pub run_packet_stream_delivers :
      (agent_id : String) (size : ℕ) (ws : List Wake)
      → 0 < size
      → let s = run_packet_stream blake3 ip_to_string agent_id size start ws in
        (events_of s.handed ++ s.pending ≡ messages agent_id ws)
        × All (IsSized size) s.handed
        × Numbered 0 s.handed
        × (length s.pending < size)
        × ((s.running || length s.pending == 0) ≡ true)
        × (s.captured ≡ length (messages agent_id ws) % 2 ^ 64)
  unfolding events_of
  run_packet_stream_delivers agent_id size ws h =
      let first : Keeps size [] start = record {
        order = refl;
        sizes = tt;
        room = h;
        numbers = tt;
        next = refl;
        count = refl;
      } in
      let (k, quiet) = run-Ends agent_id size ws [] start h refl first in
      (k.order, k.sizes, k.numbers, k.room, quiet, k.count)
