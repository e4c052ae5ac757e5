-- ===== src/Ring.antt =====
-- src/ring_buffer.rs: the bounded buffer between the capture thread and the analyzer.
-- A handle is a reference to one shared `RingInner` behind a mutex, so each method is one atomic
-- step on that state: it returns the new state beside its result.
pub mod Newest
pub mod Schedule
pub mod Batch
mod Tests
use ocellus_network_monitor.Prelude.{
  ℕ, zero, suc, ◌+◌, ◌^◌, ◌%◌, min, Bool, true, false, Option, none, some, List, [], ◌∷◌, ◌++◌,
  length, take, drop, ◌==◌, if◌then◌else◌,
}

pub record RingInner {ℓ} (A : Type ℓ) : Type ℓ where
  pub buf : List A
  pub cap : ℕ
  pub dropped : ℕ
  pub closed : Bool

-- What a thread inside `pop_blocking` finds when it holds the lock.
pub data Wait {ℓ} (A : Type ℓ) : Type ℓ where
  returns : Option A → Wait A
  waits : Wait A

module _ {ℓ} {A : Type ℓ} where
  unfoldable pub new : ℕ → RingInner A
  new cap = record { buf = []; cap = cap; dropped = 0; closed = false }

  -- `VecDeque::pop_front`
  abbrev pub pop_front : List A → Option A × List A
  pop_front [] = (none, [])
  pop_front (x ∷ xs) = (some x, xs)

  -- The test that makes room: at capacity the oldest entry goes and is counted.
  unfoldable pub make_room : RingInner A → RingInner A
  make_room r =
      if length r.buf == r.cap
      then record r { buf = (pop_front r.buf).1; dropped = (r.dropped + 1) % 2 ^ 64 }
      else r

  unfoldable pub push : RingInner A → A → RingInner A × ℕ
  unfolding make_room
  push r item = let r' = make_room r in (record r' { buf = r'.buf ++ (item ∷ []) }, r'.dropped)

  -- One round of the loop of `pop_blocking`; a thread that waits runs it again when it is woken.
  unfoldable pub pop_blocking : RingInner A → Wait A × RingInner A
  pop_blocking r = elim (pop_front r.buf).0 [
    | some item ↦ (returns (some item), record r { buf = (pop_front r.buf).1 })
    | none ↦ if r.closed then (returns none, r) else (waits, r)
  ]

  unfoldable pub try_pop : RingInner A → Option A × RingInner A
  try_pop r = ((pop_front r.buf).0, record r { buf = (pop_front r.buf).1 })

  unfoldable pub drain_batch : RingInner A → ℕ → List A × RingInner A
  drain_batch r max =
      let count = min max (length r.buf) in (take count r.buf, record r { buf = drop count r.buf })

  unfoldable pub close : RingInner A → RingInner A
  close r = record r { closed = true }

  unfoldable pub stats : RingInner A → ℕ × ℕ
  stats r = (length r.buf, r.dropped)
