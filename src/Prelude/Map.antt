-- ===== src/Prelude/Map.antt =====
-- Finite maps and sets (`HashMap`, `HashSet`, `DashMap`) as association lists with distinct keys.
use mathlib.Core.Path.{◌≡◌, refl, sym}
use mathlib.Core.Logic.{ite, ◌≢◌, if_pos, if_neg}
use mathlib.Core.Bool.{Bool, true, false, Bool-discrete}
use mathlib.Core.Option.{Option, none, some}
use mathlib.Core.List.{List, [], ◌∷◌}
use Prim.Native.Nat.{◌+◌, ◌≤◌}
use native.Mathlib.Omega.{arith}
use ocellus_network_monitor.Prelude.Lists.{length, All}

module _ {ℓ} {K V : Type ℓ} (dec : Discrete K) where
  unfoldable pub lookup : K → List (K × V) → Option V
  lookup k [] = none
  lookup k ((j, v) ∷ m) = ite (dec j k) (some v) (lookup k m)

  unfoldable pub insert : K → V → List (K × V) → List (K × V)
  insert k v [] = (k, v) ∷ []
  insert k v ((j, w) ∷ m) = ite (dec j k) ((k, v) ∷ m) ((j, w) ∷ insert k v m)

  unfoldable pub remove : K → List (K × V) → List (K × V)
  remove k [] = []
  remove k ((j, w) ∷ m) = ite (dec j k) (remove k m) ((j, w) ∷ remove k m)

  -- `retain`, whose closure may change the value that it keeps.
  unfoldable pub retain_map : (K → V → Option V) → List (K × V) → List (K × V)
  retain_map f [] = []
  retain_map f ((j, w) ∷ m) =
      let rest = retain_map f m in elim (f j w) [ none ↦ rest | some w' ↦ (j, w') ∷ rest ]

  abbrev pub Absent : K → List (K × V) → Type ℓ
  Absent k = All (λ e. e.0 ≢ k)

  abbrev pub Distinct : List (K × V) → Type ℓ
  Distinct [] = Unit
  Distinct ((k, v) ∷ m) = Absent k m × Distinct m

  pub lookup-insert :
      (k j : K) (v : V) (m : List (K × V))
      → lookup j (insert k v m) ≡ ite (dec k j) (some v) (lookup j m)
  unfolding lookup insert
  lookup-insert k j v [] = refl
  lookup-insert k j v ((i, w) ∷ m) = ground (arith, lookup-insert k j v m)

  pub lookup-insert_self : (k : K) (v : V) (m : List (K × V)) → lookup k (insert k v m) ≡ some v
  lookup-insert_self k v m = rw (lookup-insert k k v m) (if_pos (dec k k) refl _ _)

  pub lookup-insert_ne :
      (k j : K) (v : V) (m : List (K × V)) → k ≢ j → lookup j (insert k v m) ≡ lookup j m
  lookup-insert_ne k j v m h = rw (lookup-insert k j v m) (if_neg (dec k j) h _ _)

  pub lookup-remove :
      (k j : K) (m : List (K × V)) → lookup j (remove k m) ≡ ite (dec k j) none (lookup j m)
  unfolding lookup remove
  lookup-remove k j [] = ground arith
  lookup-remove k j ((i, w) ∷ m) = ground (arith, lookup-remove k j m)

  lookup-Absent : (k : K) (m : List (K × V)) → Absent k m → lookup k m ≡ none
  unfolding lookup
  lookup-Absent k [] h = refl
  lookup-Absent k ((j, w) ∷ m) h = rw (if_neg (dec j k) h.0) (lookup-Absent k m h.1)

  Absent-insert :
      (k j : K) (v : V) (m : List (K × V)) → k ≢ j → Absent j m → Absent j (insert k v m)
  unfolding insert
  Absent-insert k j v [] n h = (n, tt)
  Absent-insert k j v ((i, w) ∷ m) n h = ground (arith, Absent-insert k j v m n h.1)

  pub insert-Distinct : (k : K) (v : V) (m : List (K × V)) → Distinct m → Distinct (insert k v m)
  unfolding insert
  insert-Distinct k v [] h = (tt, tt)
  insert-Distinct k v ((j, w) ∷ m) h = elim (dec j k) [
    | yes e ↦ rw (if_pos (dec j k) e) (rw (← e) h.0, h.1)
    | no n ↦
        rw (if_neg (dec j k) n)
          (Absent-insert k j v m (λ e. n (sym e)) h.0, insert-Distinct k v m h.1)
  ]

  Absent-remove : (k j : K) (m : List (K × V)) → Absent j m → Absent j (remove k m)
  unfolding remove
  Absent-remove k j [] h = h
  Absent-remove k j ((i, w) ∷ m) h = ground (arith, Absent-remove k j m h.1)

  pub remove-Distinct : (k : K) (m : List (K × V)) → Distinct m → Distinct (remove k m)
  unfolding remove
  remove-Distinct k [] h = h
  remove-Distinct k ((j, w) ∷ m) h =
      ground (arith, Absent-remove k j m h.0, remove-Distinct k m h.1)

  pub length-remove : (k : K) (m : List (K × V)) → length (remove k m) ≤ length m
  unfolding remove
  length-remove k [] = omega arith
  length-remove k ((j, w) ∷ m) = ground (arith, length-remove k m)

  pub length-insert_absent :
      (k : K) (v : V) (m : List (K × V)) → lookup k m ≡ none → length (insert k v m) ≡ length m + 1
  unfolding insert lookup
  length-insert_absent k v [] h = refl
  length-insert_absent k v ((j, w) ∷ m) h = ground (arith, length-insert_absent k v m)

  Absent-retain_map :
      (f : K → V → Option V) (j : K) (m : List (K × V)) → Absent j m → Absent j (retain_map f m)
  unfolding retain_map
  Absent-retain_map f j [] h = h
  Absent-retain_map f j ((i, w) ∷ m) h = ground (arith, Absent-retain_map f j m h.1)

  pub retain_map-Distinct :
      (f : K → V → Option V) (m : List (K × V)) → Distinct m → Distinct (retain_map f m)
  unfolding retain_map
  retain_map-Distinct f [] h = h
  retain_map-Distinct f ((j, w) ∷ m) h =
      ground (arith, Absent-retain_map f j m h.0, retain_map-Distinct f m h.1)

  -- On distinct keys, `retain_map` acts on each key's value alone.
  pub lookup-retain_map :
      (f : K → V → Option V) (k : K) (m : List (K × V))
      → Distinct m
      → lookup k (retain_map f m) ≡ elim (lookup k m) [ none ↦ none | some v ↦ f k v ]
  unfolding lookup retain_map
  lookup-retain_map f k [] h = refl
  lookup-retain_map f k ((j, w) ∷ m) h = elim (dec j k) [
    | yes e ↦
        ground (arith, e, lookup-Absent k (retain_map f m) (Absent-retain_map f k m (rw (← e) h.0)))
    | no n ↦ ground (arith, lookup-retain_map f k m h.1)
  ]

-- A set is its list of elements.
module _ {ℓ} {K : Type ℓ} (dec : Discrete K) where
  unfoldable pub contains : K → List K → Bool
  contains k [] = false
  contains k (j ∷ s) = ite (dec j k) true (contains k s)

  unfoldable pub add : K → List K → List K
  unfolding contains
  add k s = ite (Bool-discrete (contains k s) true) s (k ∷ s)

  pub contains-add :
      (k j : K) (s : List K) → contains j (add k s) ≡ ite (dec k j) true (contains j s)
  unfolding contains add
  contains-add k j s = ground arith
