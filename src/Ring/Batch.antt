-- ===== src/Ring/Batch.antt =====
-- `drain_batch` against repeated `try_pop`.
use native.Mathlib.Nat.{zero-min, min-zero}
use ocellus_network_monitor.Prelude.{
  ℕ, zero, suc, ◌≡◌, refl, List, [], ◌∷◌, ◌++◌, length, take, drop, min, arith, ap, ◌∙◌, ap₂, sym,
}
use ocellus_network_monitor.Ring.{RingInner, try_pop, drain_batch}
use ocellus_network_monitor.Ring.Schedule.{to_list}

module _ {ℓ} {A : Type ℓ} where
  pub try_pops : ℕ → RingInner A → List A × RingInner A
  try_pops zero r = ([], r)
  try_pops (suc n) r =
      let (o, r') = try_pop r in let (xs, r'') = try_pops n r' in (to_list o ++ xs, r'')

  take-nil : (n : ℕ) → take {A = A} n [] ≡ []
  take-nil zero = refl
  take-nil (suc n) = refl

  drop-nil : (n : ℕ) → drop {A = A} n [] ≡ []
  drop-nil zero = refl
  drop-nil (suc n) = refl

  take-min : (n : ℕ) (xs : List A) → take (min n (length xs)) xs ≡ take n xs
  take-min zero xs = rw zero-min
  take-min (suc n) [] = rw min-zero
  take-min (suc n) (x ∷ xs) = ap (λ k. take k (x ∷ xs)) (min_suc n xs) ∙ ap (◌∷◌ x) (take-min n xs)
    where
      min_suc : (m : ℕ) (ys : List A) → min (suc m) (suc (length ys)) ≡ suc (min m (length ys))
      min_suc m ys = omega arith

  drop-min : (n : ℕ) (xs : List A) → drop (min n (length xs)) xs ≡ drop n xs
  drop-min zero xs = rw zero-min
  drop-min (suc n) [] = rw min-zero
  drop-min (suc n) (x ∷ xs) = ap (λ k. drop k (x ∷ xs)) (min_suc n xs) ∙ drop-min n xs
    where
      min_suc : (m : ℕ) (ys : List A) → min (suc m) (suc (length ys)) ≡ suc (min m (length ys))
      min_suc m ys = omega arith

  try_pops-take :
      (n : ℕ) (xs : List A) (r : RingInner A)
      → r.buf ≡ xs
      → try_pops n r ≡ (take n xs, record r { buf = drop n xs })
  unfolding try_pops try_pop
  try_pops-take zero xs r e = rw (← e)
  try_pops-take (suc n) [] r e = rw e (
      rw (try_pops-take n [] (record r { buf = [] }) refl)
        (ap₂ (λ a b. (a, record r { buf = b })) (take-nil n) (drop-nil n)))
  try_pops-take (suc n) (x ∷ xs) r e = rw e (rw (try_pops-take n xs (record r { buf = xs }) refl))

  -- `drain_batch` with a limit does what as many calls of `try_pop` do: the same entries in the
  -- same order, and the same ring.
  pub drain_batch-try_pops : (n : ℕ) (r : RingInner A) → drain_batch r n ≡ try_pops n r
  unfolding drain_batch
  drain_batch-try_pops n r =
      ap₂ (λ a b. (a, record r { buf = b })) (take-min n r.buf) (drop-min n r.buf)
      ∙ sym (try_pops-take n r.buf r refl)
