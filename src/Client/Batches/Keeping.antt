-- ===== src/Client/Batches/Keeping.antt =====
-- What the loop of the packet stream keeps while it takes in messages and flushes.
use ocellus_network_monitor.Prelude.{
  ℕ, ◌+◌, ◌%◌, ◌^◌, ◌<◌, ◌≤◌, ◌≡◌, refl, sym, ◌∙◌, ap, String, List, [], ◌∷◌, ◌++◌, append-nil,
  append_assoc, length, length-append, All, All-append, leb, arith, tests, Bool-cases, inl, inr,
}
use ocellus_network_monitor.Client.{
  PacketEvent, PacketBatch, Stream, flush, flush_events, stop, enqueue,
}

-- The packets of the batches, in order.
unfoldable pub events_of : List PacketBatch → List PacketEvent
events_of [] = []
events_of (b ∷ bs) = b.events ++ events_of bs

-- Each batch has between one and `size` packets.
abbrev pub IsSized : ℕ → PacketBatch → Type 0
IsSized size b = (0 < length b.events) × (length b.events ≤ size)

-- The batches count up from `n`, in `u64`.
abbrev pub Numbered : ℕ → List PacketBatch → Type 0
Numbered n [] = Unit
Numbered n (b ∷ bs) = (b.seq ≡ n % 2 ^ 64) × Numbered (n + 1) bs

events_of-append :
    (bs : List PacketBatch) (b : PacketBatch)
    → events_of (bs ++ (b ∷ [])) ≡ events_of bs ++ b.events
unfolding events_of
events_of-append [] b = append-nil b.events
events_of-append (c ∷ bs) b =
    ap (λ l. c.events ++ l) (events_of-append bs b)
    ∙ sym (append_assoc c.events (events_of bs) b.events)

Numbered-append :
    (n : ℕ) (bs : List PacketBatch) (b : PacketBatch)
    → Numbered n bs
    → b.seq ≡ (n + length bs) % 2 ^ 64
    → Numbered n (bs ++ (b ∷ []))
Numbered-append n [] b h e = (omega arith, tt)
Numbered-append n (c ∷ bs) b h e = (h.0, Numbered-append (n + 1) bs b h.1 (omega arith))

-- The state of the loop after it took in these packets.
pub record Keeps (size : ℕ) (got : List PacketEvent) (s : Stream) : Type 0 where
  pub order : events_of s.handed ++ s.pending ≡ got
  pub sizes : All (IsSized size) s.handed
  pub room : length s.pending < size
  pub numbers : Numbered 0 s.handed
  pub next : s.seq ≡ length s.handed % 2 ^ 64
  pub count : s.captured ≡ length got % 2 ^ 64

flush-Keeps :
    (agent_id : String) (size : ℕ) (got : List PacketEvent) (s : Stream)
    → 0 < size
    → events_of s.handed ++ s.pending ≡ got
    → All (IsSized size) s.handed
    → length s.pending ≤ size
    → Numbered 0 s.handed
    → s.seq ≡ length s.handed % 2 ^ 64
    → s.captured ≡ length got % 2 ^ 64
    → Keeps size got (flush agent_id s) × (length (flush agent_id s).pending ≡ 0)
unfolding flush
flush-Keeps agent_id size got s h order sizes fits numbers next count =
    by_pending s.pending order fits
  where
    by_pending :
        (p : List PacketEvent)
        → events_of s.handed ++ p ≡ got
        → length p ≤ size
        → Keeps size got (flush_events agent_id (record s { pending = p }) p)
          × (length (flush_events agent_id (record s { pending = p }) p).pending ≡ 0)
    by_pending [] o f = (
      record { order = o; sizes = sizes; room = h; numbers = numbers; next = next; count = count },
      refl,
    )
    by_pending (e ∷ es) o f =
        let b : PacketBatch = record { events = e ∷ es; seq = s.seq; agent_id = agent_id } in
        let len = length-append s.handed (b ∷ []) in
        (
          record {
            order = append-nil (events_of (s.handed ++ (b ∷ []))) ∙ events_of-append s.handed b ∙ o;
            sizes = All-append (IsSized size) s.handed (b ∷ []) sizes ((omega arith, f), tt);
            room = h;
            numbers = Numbered-append 0 s.handed b numbers (omega arith);
            next = omega arith;
            count = count;
          },
          refl,
        )

pub flush-running : (agent_id : String) (s : Stream) → (flush agent_id s).running ≡ s.running
unfolding flush
flush-running agent_id s = by_pending s.pending
  where
    by_pending : (p : List PacketEvent) → (flush_events agent_id s p).running ≡ s.running
    by_pending [] = refl
    by_pending (e ∷ es) = refl

pub flush_all-Keeps :
    (agent_id : String) (size : ℕ) (got : List PacketEvent) (s : Stream)
    → 0 < size
    → Keeps size got s
    → Keeps size got (flush agent_id s) × (length (flush agent_id s).pending ≡ 0)
flush_all-Keeps agent_id size got s h k =
    flush-Keeps agent_id size got s h k.order k.sizes (omega (arith, k.room)) k.numbers k.next
      k.count

pub stop-Keeps :
    (size : ℕ) (got : List PacketEvent) (s : Stream) → Keeps size got s → Keeps size got (stop s)
stop-Keeps size got s k = record {
  order = k.order;
  sizes = k.sizes;
  room = k.room;
  numbers = k.numbers;
  next = k.next;
  count = k.count;
}

abbrev queued : Stream → PacketEvent → Stream
queued s event = record s {
  captured = (s.captured + 1) % 2 ^ 64;
  pending = s.pending ++ (event ∷ []);
}

pub enqueue-Keeps :
    (agent_id : String) (size : ℕ) (got : List PacketEvent) (s : Stream) (event : PacketEvent)
    → 0 < size
    → Keeps size got s
    → Keeps size (got ++ (event ∷ [])) (enqueue agent_id size s event)
      × ((enqueue agent_id size s event).running ≡ s.running)
unfolding enqueue
enqueue-Keeps agent_id size got s event h k =
    let s' = queued s event in
    let got' = got ++ (event ∷ []) in
    let len = length-append s.pending (event ∷ []) in
    let len' = length-append got (event ∷ []) in
    let order : events_of s'.handed ++ s'.pending ≡ got' =
      sym (append_assoc (events_of s.handed) s.pending (event ∷ []))
      ∙ ap (λ l. l ++ (event ∷ [])) k.order in
    let count : s'.captured ≡ length got' % 2 ^ 64 = omega (arith, k.count) in
    elim (Bool-cases (leb size (length s'.pending))) [
      | inl full ↦ rw full (
        (flush-Keeps agent_id size got' s' h order k.sizes (omega (arith, k.room)) k.numbers k.next
            count).0,
        flush-running agent_id s',
      )
      | inr space ↦ rw space (
        record {
          order = order;
          sizes = k.sizes;
          room = omega tests;
          numbers = k.numbers;
          next = k.next;
          count = count;
        },
        refl,
      )
    ]
