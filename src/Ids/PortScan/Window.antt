-- ===== src/Ids/PortScan/Window.antt =====
-- The sliding set: what it holds after any run of insertions.
use ocellus_network_monitor.Prelude.{
  ℕ, ◌-◌, ◌<◌, ◌≡◌, refl, Bool, true, false, ◌||◌, List, [], ◌∷◌, ◌++◌, length, retain, All,
  All-append, arith, Bool-cases, inl, inr,
}
use ocellus_network_monitor.Ids.PortScan.{Entry, SlidingSet, is_fresh, has_value, set_insert}

-- Insertions in order, each a value with its time.
unfoldable pub insert_all : SlidingSet → List Entry → SlidingSet
insert_all s [] = s
insert_all s (e ∷ es) = insert_all (set_insert e.1 s e.0).1 es

-- No value twice.
abbrev pub IsUnique : List Entry → Type 0
IsUnique [] = Unit
IsUnique (e ∷ es) = (has_value e.0 es ≡ false) × IsUnique es

has_value-retain :
    (p : Entry → Bool) (v : ℕ) (es : List Entry)
    → has_value v es ≡ false
    → has_value v (retain p es) ≡ false
has_value-retain p v [] h = h
has_value-retain p v (e ∷ es) h = ground (arith, has_value-retain p v es)

retain-IsUnique : (p : Entry → Bool) (es : List Entry) → IsUnique es → IsUnique (retain p es)
retain-IsUnique p [] h = h
retain-IsUnique p (e ∷ es) h =
    ground (arith, has_value-retain p e.0 es h.0, retain-IsUnique p es h.1)

has_value-append :
    (v : ℕ) (xs ys : List Entry) → has_value v (xs ++ ys) ≡ (has_value v xs || has_value v ys)
has_value-append v [] ys = refl
has_value-append v (x ∷ xs) ys = ground (arith, has_value-append v xs ys)

append-IsUnique :
    (v t : ℕ) (es : List Entry)
    → has_value v es ≡ false
    → IsUnique es
    → IsUnique (es ++ ((v, t) ∷ []))
append-IsUnique v t [] h u = (refl, tt)
append-IsUnique v t (e ∷ es) h u = (
  ground (arith, has_value-append e.0 es ((v, t) ∷ [])),
  append-IsUnique v t es (ground arith) u.1,
)

-- After an insertion the values are distinct and every entry is inside the window.
pub record Current (now : ℕ) (s : SlidingSet) : Type 0 where
  pub unique : IsUnique s.entries
  pub fresh : All (λ e. now - e.1 < s.window) s.entries

retain-fresh :
    (now window : ℕ) (es : List Entry)
    → All (λ e. now - e.1 < window) (retain (is_fresh now window) es)
retain-fresh now window [] = tt
retain-fresh now window (e ∷ es) = ground (arith, retain-fresh now window es)

-- Any insertion into a set with distinct values returns the number of its entries, which are those
-- inside the window, with distinct values, the inserted one among them.
pub set_insert-Current :
    (now v : ℕ) (s : SlidingSet)
    → 0 < s.window
    → IsUnique s.entries
    → let (n, s') = set_insert now s v in
      Current now s' × (n ≡ length s'.entries) × (has_value v s'.entries ≡ true)
unfolding set_insert
set_insert-Current now v s h u =
    let kept = retain (is_fresh now s.window) s.entries in
    let ku = retain-IsUnique (is_fresh now s.window) s.entries u in
    let kf = retain-fresh now s.window s.entries in
    elim (Bool-cases (has_value v kept)) [
      | inl there ↦ rw there (record { unique = ku; fresh = kf }, refl, there)
      | inr new ↦ rw new (
        record {
          unique = append-IsUnique v now kept new ku;
          fresh = All-append (λ e. now - e.1 < s.window) kept ((v, now) ∷ []) kf (omega arith, tt);
        },
        refl,
        ground (arith, has_value-append v kept ((v, now) ∷ [])),
      )
    ]
