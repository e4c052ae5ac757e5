-- ===== src/Ids/Payload/Scan.antt =====
-- The full scan of a payload: it returns, and its signals against the table of signatures.
use ocellus_network_monitor.Prelude.{
  ℕ, zero, suc, ◌<◌, ◌≡◌, refl, sym, ap, true, false, some, String, List, [], ◌∷◌, length,
  get_elem?, drop, All, map, done, index, Ensures, index-get_elem?, Ensures-bind, Ensures-guard,
  Ensures-done, arith,
}
use mathlib.Core.Option.{some-injective}
use ocellus_network_monitor.Ids.Score.{Signal}
use ocellus_network_monitor.Ids.Payload.{
  Signature, signatures, matches_at, Match, AhoCorasick, PayloadRule, new, is_seen, scan_from,
  scan_all,
}

-- The signal is one of the table, and its pattern occurs in the payload.
pub IsReported : List ℕ → Signal → Type 0
IsReported payload s =
    (i at : ℕ) × (g : Signature) × (get_elem? signatures i ≡ some g)
    × (s ≡ record { name = g.name; score = g.score })
    × (matches_at g.pattern (drop at payload) ≡ true)

-- No two signals have one name, and none has a name of the list.
pub Fresh : List String → List Signal → Type 0
Fresh seen [] = Unit
Fresh seen (s ∷ ss) = (is_seen s.name seen ≡ false) × Fresh (s.name ∷ seen) ss

abbrev rules_of : List Signature → List PayloadRule
rules_of = map (λ s. record { name = s.name; score = s.score })

get_elem?-map {ℓ κ} :
    {A : Type ℓ} {B : Type κ} (f : A → B) (xs : List A) (i : ℕ) (y : B)
    → get_elem? (map f xs) i ≡ some y
    → (x : A) × (get_elem? xs i ≡ some x) × (y ≡ f x)
get_elem?-map f [] i y h = cc
get_elem?-map f (x ∷ xs) zero y h = (x, refl, sym (some-injective _ _ h))
get_elem?-map f (x ∷ xs) (suc i) y h = get_elem?-map f xs i y h

map-get_elem? {ℓ κ} :
    {A : Type ℓ} {B : Type κ} (f : A → B) (xs : List A) (i : ℕ) (x : A)
    → get_elem? xs i ≡ some x
    → get_elem? (map f xs) i ≡ some (f x)
map-get_elem? f [] i x h = cc
map-get_elem? f (y ∷ xs) zero x h = ap some (ap f (some-injective _ _ h))
map-get_elem? f (y ∷ xs) (suc i) x h = map-get_elem? f xs i x h

abbrev patterns : List (List ℕ)
patterns = map (λ s. s.pattern) signatures

abbrev Occurs : List ℕ → Match → Type 0
Occurs payload m =
    (p : List ℕ) × (get_elem? patterns m.pattern ≡ some p)
    × (matches_at p (drop m.start payload) ≡ true)

-- The signature of a match, and its rule.
found-rule :
    (payload : List ℕ) (m : Match)
    → Occurs payload m
    → (g : Signature) × IsReported payload (record { name = g.name; score = g.score })
      × (index (rules_of signatures) m.pattern ≡ done (record { name = g.name; score = g.score }))
unfolding IsReported
found-rule payload m (p, e, o) =
    let (g, at, same) = get_elem?-map (λ s. s.pattern) signatures m.pattern p e in
    (
      g,
      (m.pattern, m.start, g, at, refl, rw (← same) o),
      index-get_elem? (rules_of signatures) m.pattern _ (
          map-get_elem? (λ s. record { name = s.name; score = s.score }) signatures m.pattern g at),
    )

scan_from-reports :
    (payload : List ℕ) (seen : List String) (ms : List Match)
    → ((i : ℕ) (m : Match) → get_elem? ms i ≡ some m → Occurs payload m)
    → Ensures
        (λ ss. All (IsReported payload) ss × Fresh seen ss)
        (scan_from (rules_of signatures) seen ms)
unfolding scan_from Fresh
scan_from-reports payload seen [] h = (tt, tt)
scan_from-reports payload seen (m ∷ ms) h =
    let (g, reported, rule) = found-rule payload m (h 0 m refl) in
    rw rule (
      Ensures-guard _ (is_seen g.name seen) _ _
        (λ _. scan_from-reports payload seen ms (λ i. h (suc i)))
        λ fresh.
          Ensures-bind _ _ (scan_from (rules_of signatures) (g.name ∷ seen) ms) _
            (scan_from-reports payload (g.name ∷ seen) ms (λ i. h (suc i)))
            λ ss (all, apart). ((reported, all), (fresh, apart)))

-- A scan that starts with a match reports something.
scan_from-nonempty :
    (payload : List ℕ) (ms : List Match)
    → 0 < length ms
    → ((i : ℕ) (m : Match) → get_elem? ms i ≡ some m → Occurs payload m)
    → Ensures (λ ss. 0 < length ss) (scan_from (rules_of signatures) [] ms)
unfolding scan_from
scan_from-nonempty payload [] h occ = absurd (omega arith)
scan_from-nonempty payload (m ∷ ms) h occ =
    let (g, _, rule) = found-rule payload m (occ 0 m refl) in
    rw rule (
      Ensures-bind _ _ (scan_from (rules_of signatures) (g.name ∷ []) ms) _
        (scan_from-reports payload (g.name ∷ []) ms (λ i. occ (suc i))) λ rest _. omega arith)

module _ (crate : AhoCorasick) where
  open crate use {build, find_iter, occurs, found}

  -- On every payload the full scan returns: no match indexes past the rules. Each of its signals is a
  -- line of the table whose pattern occurs in the payload, and no two have one name.
  pub scan_all-reports :
      (payload : List ℕ)
      → (ss : List Signal) × (scan_all crate (new crate) payload ≡ done ss)
        × All (IsReported payload) ss
        × Fresh [] ss
  unfolding scan_all new
  scan_all-reports payload =
      let ms = find_iter (build patterns) payload in
      let (ss, e, (all, apart)) =
        Ensures-done (λ ss. All (IsReported payload) ss × Fresh [] ss)
          (scan_from (rules_of signatures) [] ms)
          (scan_from-reports payload [] ms (occurs patterns payload)) in
      (ss, e, all, apart)

  -- Where the pattern of any line of the table occurs in the payload, up to ASCII case, the full scan
  -- returns at least one signal.
  pub scan_all-found :
      (payload : List ℕ) (i at : ℕ) (g : Signature)
      → get_elem? signatures i ≡ some g
      → matches_at g.pattern (drop at payload) ≡ true
      → (ss : List Signal) × (scan_all crate (new crate) payload ≡ done ss) × (0 < length ss)
  unfolding scan_all new
  scan_all-found payload i at g h k =
      let ms = find_iter (build patterns) payload in
      let line = map-get_elem? (λ s. s.pattern) signatures i g h in
      let some_match = found patterns payload i at g.pattern line k in
      Ensures-done (λ ss. 0 < length ss) (scan_from (rules_of signatures) [] ms)
        (scan_from-nonempty payload ms some_match (occurs patterns payload))
