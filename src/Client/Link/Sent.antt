-- ===== src/Client/Link/Sent.antt =====
-- An event adds batches to those that the packet stream has made.
use ocellus_network_monitor.Prelude.{
  ℕ, ◌≡◌, refl, sym, ◌∙◌, ap, Bool, true, false, Option, none, some, String, List, [], ◌∷◌, ◌++◌,
  append-nil, length, drop, drop-append, leb, if◌then◌else◌,
}
use ocellus_network_monitor.Packet.{IpAddr}
use ocellus_network_monitor.Text.{Str}
use ocellus_network_monitor.Client.{
  PacketEvent, PacketBatch, Wake, cancelled, received, ticked, Stream, flush, flush_events, enqueue,
  enqueue_option, parse_packet, step,
}

-- The batches that an event makes.
abbrev Makes : Stream → Stream → Type 0
Makes s s' = (bs : List PacketBatch) × (s'.handed ≡ s.handed ++ bs)

flush-Makes : (agent_id : String) (s : Stream) → Makes s (flush agent_id s)
unfolding flush
flush-Makes agent_id s = by_pending s.pending
  where
    by_pending : (p : List PacketEvent) → Makes s (flush_events agent_id s p)
    by_pending [] = ([], sym (append-nil s.handed))
    by_pending (e ∷ es) = (record { events = e ∷ es; seq = s.seq; agent_id = agent_id } ∷ [], refl)

if-Makes : (b : Bool) (s t u : Stream) → Makes s t → Makes s u → Makes s (if b then t else u)
if-Makes true s t u h k = h
if-Makes false s t u h k = k

enqueue-Makes :
    (agent_id : String) (size : ℕ) (s : Stream) (e : PacketEvent)
    → Makes s (enqueue agent_id size s e)
unfolding enqueue
enqueue-Makes agent_id size s e =
    if-Makes (leb size (length (s.pending ++ (e ∷ [])))) s _ _ (flush-Makes agent_id _)
      ([], sym (append-nil s.handed))

module _ (blake3 : List ℕ → List ℕ) (ip_to_string : IpAddr → Str) (agent_id : String)
    (batch_size : ℕ) where
  step-Makes : (s : Stream) (w : Wake) → Makes s (step blake3 ip_to_string agent_id batch_size s w)
  unfolding step
  step-Makes s cancelled = flush-Makes agent_id s
  step-Makes s (received none) = flush-Makes agent_id s
  step-Makes s (received (some raw)) = by_event (parse_packet blake3 ip_to_string raw agent_id)
    where
      by_event : (o : Option PacketEvent) → Makes s (enqueue_option agent_id batch_size s o)
      by_event none = ([], sym (append-nil s.handed))
      by_event (some e) = enqueue-Makes agent_id batch_size s e
  step-Makes s ticked = flush-Makes agent_id s

  pub step-sent :
      (s : Stream) (w : Wake)
      → let s' = step blake3 ip_to_string agent_id batch_size s w in
        s.handed ++ drop (length s.handed) s'.handed ≡ s'.handed
  step-sent s w =
      let s' = step blake3 ip_to_string agent_id batch_size s w in
      let (bs, e) = step-Makes s w in
      ap (λ l. s.handed ++ drop (length s.handed) l) e
      ∙ ap (λ l. s.handed ++ l) (drop-append s.handed bs)
      ∙ sym e
