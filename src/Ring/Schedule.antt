-- ===== src/Ring/Schedule.antt =====
-- Every interleaving of the threads that share a ring is a list of atomic calls. The history
-- records, beside the ring, what was pushed, handed to a consumer and evicted so far.
use mathlib.Core.List.{Sublist, sublist-append_left}
use mathlib.Core.List.Sublist
use ocellus_network_monitor.Prelude.{
  ℕ, ◌+◌, ◌^◌, ◌%◌, ◌≤◌, ◌<◌, min, ◌≡◌, refl, List, [], ◌∷◌, ◌++◌, append_assoc, length,
  length-append, ◌==◌, arith, sym, ap, ◌∙◌, if◌then◌else◌, take-append-drop, Option, none, some,
  ℕ_discrete,
}
use ocellus_network_monitor.Ring.{
  RingInner, Wait, returns, waits, new, pop_front, make_room, push, pop_blocking, try_pop,
  drain_batch, close,
}
use ocellus_network_monitor.Ring.Newest.{IsValid, push-IsValid}

pub data Op {ℓ} (A : Type ℓ) : Type ℓ where
  push_op : A → Op A
  pop_blocking_op : Op A
  try_pop_op : Op A
  drain_op : ℕ → Op A
  close_op : Op A

pub record History {ℓ} (A : Type ℓ) : Type ℓ where
  pub ring : RingInner A
  pub pushed : List A
  pub delivered : List A
  pub lost : List A

module _ {ℓ} {A : Type ℓ} where
  abbrev pub to_list : Option A → List A
  to_list none = []
  to_list (some x) = x ∷ []

  abbrev pub received : Wait A → List A
  received (returns o) = to_list o
  received waits = []

  -- The entry that a `push` evicts.
  unfoldable pub evicted : RingInner A → List A
  evicted r = if length r.buf == r.cap then to_list (pop_front r.buf).0 else []

  unfoldable pub act : History A → Op A → History A
  act h (push_op x) = record h {
    ring = (push h.ring x).0;
    pushed = h.pushed ++ (x ∷ []);
    lost = h.lost ++ evicted h.ring;
  }
  act h pop_blocking_op =
      let (w, r) = pop_blocking h.ring in
      record h { ring = r; delivered = h.delivered ++ received w }
  act h try_pop_op =
      let (o, r) = try_pop h.ring in record h { ring = r; delivered = h.delivered ++ to_list o }
  act h (drain_op n) =
      let (xs, r) = drain_batch h.ring n in record h { ring = r; delivered = h.delivered ++ xs }
  act h close_op = record h { ring = close h.ring }

  unfoldable pub run : History A → List (Op A) → History A
  run h [] = h
  run h (op ∷ ops) = run (act h op) ops

  abbrev pub start : ℕ → History A
  start cap = record { ring = new cap; pushed = []; delivered = []; lost = [] }

  -- Everything pushed is gone from the front or still held, and what is gone was delivered, in the
  -- order of the pushes, or evicted.
  pub record Accounted (cap : ℕ) (h : History A) : Type ℓ where
    pub valid : IsValid h.ring
    pub capacity : h.ring.cap ≡ cap
    pub gone : List A
    pub order : h.pushed ≡ gone ++ h.ring.buf
    pub fifo : Sublist h.delivered gone
    pub size : length gone ≡ length h.delivered + length h.lost
    pub counted : h.ring.dropped ≡ length h.lost % 2 ^ 64

  -- A call that takes `xs` from the front of the buffer and delivers it.
  Accounted-deliver :
      (cap : ℕ) (h : History A) (r : RingInner A) (xs : List A)
      → Accounted cap h
      → h.ring.buf ≡ xs ++ r.buf
      → r.cap ≡ h.ring.cap
      → r.dropped ≡ h.ring.dropped
      → Accounted cap (record h { ring = r; delivered = h.delivered ++ xs })
  Accounted-deliver cap h r xs a e c d = record {
    valid = record {
      positive = omega (arith, a.valid.positive);
      bounded = omega (arith, a.valid.bounded, ap length e, length-append xs r.buf);
      counter = omega (arith, a.valid.counter);
    };
    capacity = c ∙ a.capacity;
    gone = a.gone ++ xs;
    order = a.order ∙ ap (λ b. a.gone ++ b) e ∙ sym (append_assoc a.gone xs r.buf);
    fifo = Sublist.append a.fifo (Sublist.refl xs);
    size = omega (arith, length-append a.gone xs, length-append h.delivered xs, a.size);
    counted = d ∙ a.counted;
  }

  pop_front-buf : (xs : List A) → xs ≡ to_list (pop_front xs).0 ++ (pop_front xs).1
  pop_front-buf [] = refl
  pop_front-buf (x ∷ xs) = refl

  -- What a call leaves alone, when it takes `xs` from the front.
  abbrev pub Takes : RingInner A → List A → RingInner A → Type ℓ
  Takes r xs r' = (r.buf ≡ xs ++ r'.buf) × (r'.cap ≡ r.cap) × (r'.dropped ≡ r.dropped)

  pub pop_blocking-Takes :
      (r : RingInner A) → Takes r (received (pop_blocking r).0) (pop_blocking r).1
  unfolding pop_blocking
  pop_blocking-Takes r = ground (arith, pop_front-buf r.buf)

  pub drain_batch-Takes :
      (r : RingInner A) (n : ℕ) → Takes r (drain_batch r n).0 (drain_batch r n).1
  unfolding drain_batch
  drain_batch-Takes r n = (sym (take-append-drop (min n (length r.buf)) r.buf), refl, refl)

  -- `push` moves the evicted entry out of the front.
  pub push-evicted :
      (r : RingInner A) (x : A)
      → (r.buf ++ (x ∷ []) ≡ evicted r ++ (push r x).0.buf) × ((push r x).0.cap ≡ r.cap)
  unfolding push evicted
  push-evicted r x = (
    ap (λ b. b ++ (x ∷ [])) (room_lem r) ∙ append_assoc (evicted r) (make_room r).buf (x ∷ []),
    cap_lem r,
  )
    where
      room_lem : (q : RingInner A) → q.buf ≡ evicted q ++ (make_room q).buf
      room_lem q = ground (arith, pop_front-buf q.buf)

      cap_lem : (q : RingInner A) → (make_room q).cap ≡ q.cap
      cap_lem q = ground arith

  to_list-pop_front : (xs : List A) → 0 < length xs → length (to_list (pop_front xs).0) ≡ 1
  to_list-pop_front [] h = absurd (omega arith)
  to_list-pop_front (x ∷ xs) h = refl

  pub push-dropped :
      (r : RingInner A) (x : A) (n : ℕ)
      → IsValid r
      → r.dropped ≡ n % 2 ^ 64
      → (push r x).0.dropped ≡ (n + length (evicted r)) % 2 ^ 64
  unfolding push evicted make_room
  push-dropped r x n v e = elim (ℕ_discrete (length r.buf) r.cap) [
    | yes full ↦ ground (arith, to_list-pop_front r.buf (omega (arith, v.positive)))
    | no room ↦ ground arith
  ]

  act-Accounted : (cap : ℕ) (h : History A) (op : Op A) → Accounted cap h → Accounted cap (act h op)
  unfolding act
  act-Accounted cap h (push_op x) a =
      let (moved, same) = push-evicted h.ring x in
      record {
        valid = push-IsValid h.ring x a.valid;
        capacity = same ∙ a.capacity;
        gone = a.gone ++ evicted h.ring;
        order =
            ap (λ b. b ++ (x ∷ [])) a.order
            ∙ append_assoc a.gone h.ring.buf (x ∷ [])
            ∙ ap (λ b. a.gone ++ b) moved
            ∙ sym (append_assoc a.gone (evicted h.ring) (push h.ring x).0.buf);
        fifo = Sublist.trans a.fifo (sublist-append_left a.gone (evicted h.ring));
        size = omega (
          arith,
          length-append a.gone (evicted h.ring),
          length-append h.lost (evicted h.ring),
          a.size,
        );
        counted =
            push-dropped h.ring x (length h.lost) a.valid a.counted
            ∙ ap (λ n. n % 2 ^ 64) (sym (length-append h.lost (evicted h.ring)));
      }
  act-Accounted cap h pop_blocking_op a =
      let (e, c, d) = pop_blocking-Takes h.ring in
      Accounted-deliver cap h (pop_blocking h.ring).1 (received (pop_blocking h.ring).0) a e c d
  act-Accounted cap h try_pop_op a =
      unfold try_pop in
      Accounted-deliver cap h (try_pop h.ring).1 (to_list (try_pop h.ring).0) a
        (pop_front-buf h.ring.buf) refl refl
  act-Accounted cap h (drain_op n) a =
      let (e, c, d) = drain_batch-Takes h.ring n in
      Accounted-deliver cap h (drain_batch h.ring n).1 (drain_batch h.ring n).0 a e c d
  act-Accounted cap h close_op a =
      unfold close in
      record {
        valid = record {
          positive = a.valid.positive;
          bounded = a.valid.bounded;
          counter = a.valid.counter;
        };
        capacity = a.capacity;
        gone = a.gone;
        order = a.order;
        fifo = a.fifo;
        size = a.size;
        counted = a.counted;
      }

  run-Accounted :
      (cap : ℕ) (ops : List (Op A)) (h : History A) → Accounted cap h → Accounted cap (run h ops)
  unfolding run
  run-Accounted cap [] h a = a
  run-Accounted cap (op ∷ ops) h a = run-Accounted cap ops (act h op) (act-Accounted cap h op a)

  start-Accounted : (cap : ℕ) → 0 < cap → Accounted cap (start cap)
  unfolding new
  start-Accounted cap p = record {
    valid = record { positive = p; bounded = omega arith; counter = omega arith };
    capacity = refl;
    gone = [];
    order = refl;
    fifo = Sublist.refl [];
    size = refl;
    counted = refl;
  }

  -- After any interleaving of calls on a new ring of positive capacity: the ring holds at most
  -- `cap` entries; the delivered entries followed by the held ones are a sublist of the pushed
  -- ones, so the order is first in first out and nothing is duplicated or invented; each pushed
  -- entry is delivered, held or evicted, by count; the drop counter is the number of evicted
  -- entries, modulo 2^64.
  pub run_conserves :
      (cap : ℕ) (ops : List (Op A))
      → 0 < cap
      → let h = run (start cap) ops in
        (length h.ring.buf ≤ cap)
        × Sublist (h.delivered ++ h.ring.buf) h.pushed
        × (length h.pushed ≡ length h.delivered + length h.ring.buf + length h.lost)
        × (h.ring.dropped ≡ length h.lost % 2 ^ 64)
  run_conserves cap ops p =
      let h = run (start cap) ops in
      let a = run-Accounted cap ops (start cap) (start-Accounted cap p) in
      (
        omega (arith, a.valid.bounded, a.capacity),
        rw a.order (Sublist.append a.fifo (Sublist.refl h.ring.buf)),
        omega (arith, a.size, ap length a.order, length-append a.gone h.ring.buf),
        a.counted,
      )
