-- ===== src/Prelude/Panics.antt =====
-- Code that can panic: an index or a slice out of range.
use Prim.Native.Nat.{ℕ, zero, suc, ◌+◌, ◌-◌, ◌*◌, ◌≤◌, ◌<◌}
use mathlib.Core.Path.{◌≡◌, refl, ap, subst}
use mathlib.Core.Bool.{Bool, true, false, ◌&&◌}
use mathlib.Core.List.{List, [], ◌∷◌, ◌++◌}
use mathlib.Core.Option.{Option, none, some}
use native.Mathlib.Omega.{arith}
use ocellus_network_monitor.Prelude.Tests.{if◌then◌else◌, leb, le→leb}
use ocellus_network_monitor.Prelude.Lists.{length, get_elem?, take, drop, length-append}

pub data Outcome {ℓ} (A : Type ℓ) : Type ℓ where
  done : A → Outcome A
  panic : Outcome A

-- If the computation returns, its value satisfies the predicate.
abbrev pub Allows {ℓ} : {A : Type ℓ} → (A → Type 0) → Outcome A → Type 0
Allows P (done a) = P a
Allows P panic = Unit

infixl 5 ◌>>=◌
abbrev pub ◌>>=◌ {ℓ κ} : {A : Type ℓ} {B : Type κ} → Outcome A → (A → Outcome B) → Outcome B
done a >>= f = f a
panic >>= f = panic

-- The computation returns, and its value satisfies the predicate.
abbrev pub Ensures {ℓ} : {A : Type ℓ} → (A → Type 0) → Outcome A → Type 0
Ensures P (done a) = P a
Ensures P panic = ⊥

module _ {ℓ} {A : Type ℓ} where
  unfoldable pub from_option : Option A → Outcome A
  from_option none = panic
  from_option (some a) = done a

  -- `xs[i]`
  unfoldable pub index : List A → ℕ → Outcome A
  unfolding from_option
  index xs i = from_option (get_elem? xs i)

  pub index-get_elem? :
      (xs : List A) (i : ℕ) (x : A) → get_elem? xs i ≡ some x → index xs i ≡ done x
  unfolding index from_option
  index-get_elem? xs i x h = rw h refl

  -- `&xs[from..to]`
  unfoldable pub slice : List A → ℕ → ℕ → Outcome (List A)
  slice xs from to =
      if leb from to && leb to (length xs) then done (take (to - from) (drop from xs)) else panic

  -- `&xs[from..]`
  unfoldable pub slice_from : List A → ℕ → Outcome (List A)
  slice_from xs from = if leb from (length xs) then done (drop from xs) else panic

-- `u16::from_be_bytes([hi, lo])`
abbrev pub be_u16 : ℕ → ℕ → ℕ
be_u16 hi lo = hi * 256 + lo

module _ {ℓ κ} {A : Type ℓ} {B : Type κ} (P : B → Type 0) where
  -- An index in range returns the element, and the rest goes on with it.
  pub Ensures-index :
      (xs : List A) (i : ℕ) (f : A → Outcome B)
      → i < length xs
      → ((x : A) → get_elem? xs i ≡ some x → Ensures P (f x))
      → Ensures P (index xs i >>= f)
  unfolding index from_option
  Ensures-index [] i f h k = absurd (omega arith)
  Ensures-index (x ∷ xs) zero f h k = k x refl
  Ensures-index (x ∷ xs) (suc i) f h k = Ensures-index xs i f (omega arith) k

  pub Ensures-slice :
      (xs : List A) (from to : ℕ) (f : List A → Outcome B)
      → from ≤ to
      → to ≤ length xs
      → Ensures P (f (take (to - from) (drop from xs)))
      → Ensures P (slice xs from to >>= f)
  unfolding slice
  Ensures-slice xs from to f h k e = rw (le→leb from to h, le→leb to (length xs) k) e

  pub Ensures-slice_from :
      (xs : List A) (from : ℕ) (f : List A → Outcome B)
      → from ≤ length xs
      → Ensures P (f (drop from xs))
      → Ensures P (slice_from xs from >>= f)
  unfolding slice_from
  Ensures-slice_from xs from f h e = rw (le→leb from (length xs) h) e

  pub Ensures-bind :
      (Q : A → Type 0) (m : Outcome A) (f : A → Outcome B)
      → Ensures Q m
      → ((a : A) → Q a → Ensures P (f a))
      → Ensures P (m >>= f)
  Ensures-bind Q (done a) f h k = k a h
  Ensures-bind Q panic f h k = absurd h

pub Ensures-guard {κ} :
    {B : Type κ} (P : B → Type 0) (b : Bool) (m rest : Outcome B)
    → (b ≡ true → Ensures P m)
    → (b ≡ false → Ensures P rest)
    → Ensures P (if b then m else rest)
Ensures-guard P true m rest h k = h refl
Ensures-guard P false m rest h k = k refl

pub Ensures-weaken {ℓ} :
    {A : Type ℓ} (P Q : A → Type 0) (m : Outcome A)
    → ((a : A) → P a → Q a)
    → Ensures P m
    → Ensures Q m
Ensures-weaken P Q (done a) f h = f a h
Ensures-weaken P Q panic f h = h

-- What is ensured of a computation is a value that it returns.
pub Ensures-done {ℓ} :
    {A : Type ℓ} (P : A → Type 0) (m : Outcome A) → Ensures P m → (a : A) × (m ≡ done a) × P a
Ensures-done P (done a) h = (a, refl, h)
Ensures-done P panic h = absurd h

pub Ensures-value {ℓ} :
    {A : Type ℓ} (P : A → Type 0) (m : Outcome A) (a : A) → m ≡ done a → Ensures P m → P a
Ensures-value P m a e h = subst (Ensures P) e h

module _ {ℓ} {A : Type ℓ} where
  get_elem?-append :
      (pre : List A) (x : A) (r : List A) → get_elem? (pre ++ (x ∷ r)) (length pre) ≡ some x
  get_elem?-append [] x r = refl
  get_elem?-append (y ∷ pre) x r = get_elem?-append pre x r

  pub index-append :
      (pre : List A) (x : A) (r : List A) → index (pre ++ (x ∷ r)) (length pre) ≡ done x
  unfolding index from_option
  index-append pre x r = rw (get_elem?-append pre x r) refl

  pub drop-append : (pre r : List A) → drop (length pre) (pre ++ r) ≡ r
  drop-append [] r = refl
  drop-append (y ∷ pre) r = drop-append pre r

  take-append : (b r : List A) → take (length b) (b ++ r) ≡ b
  take-append [] r = refl
  take-append (y ∷ b) r = ap (◌∷◌ y) (take-append b r)

  pub slice-append :
      (pre b r : List A) (from to : ℕ)
      → from ≡ length pre
      → to ≡ length pre + length b
      → slice (pre ++ (b ++ r)) from to ≡ done b
  unfolding slice
  slice-append pre b r from to e f =
      let size = length-append pre (b ++ r) in
      let size' = length-append b r in
      let count : length pre + length b - length pre ≡ length b = omega arith in
      rw
        (
          e,
          f,
          le→leb (length pre) (length pre + length b) (omega arith),
          le→leb (length pre + length b) (length (pre ++ (b ++ r))) (omega arith),
          count,
          drop-append pre (b ++ r),
          take-append b r,
        )
        refl

pub Allows-bind {ℓ κ} :
    {A : Type ℓ} {B : Type κ} (P : B → Type 0) (m : Outcome A) (f : A → Outcome B)
    → ((a : A) → Allows P (f a))
    → Allows P (m >>= f)
Allows-bind P (done a) f h = h a
Allows-bind P panic f h = tt

pub Allows-value {ℓ} :
    {A : Type ℓ} (P : A → Type 0) (m : Outcome A) (a : A) → m ≡ done a → Allows P m → P a
Allows-value P m a e h = subst (Allows P) e h

pub Allows-chain {ℓ κ} :
    {A : Type ℓ} {B : Type κ} (P : B → Type 0) (Q : A → Type 0) (m : Outcome A) (f : A → Outcome B)
    → Allows Q m
    → ((a : A) → Q a → Allows P (f a))
    → Allows P (m >>= f)
Allows-chain P Q (done a) f h k = k a h
Allows-chain P Q panic f h k = tt

pub Allows-weaken {ℓ} :
    {A : Type ℓ} (P Q : A → Type 0) (m : Outcome A)
    → ((a : A) → P a → Q a)
    → Allows P m
    → Allows Q m
Allows-weaken P Q (done a) f h = f a h
Allows-weaken P Q panic f h = tt
