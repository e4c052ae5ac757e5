-- ===== src/Ids/Samples.antt =====
-- Concrete externals for the tests: an exact filter, a plain search for the first occurrence of each
-- pattern, whole numbers for floats, and the ASCII lowercase mapping.
use mathlib.Core.Option.{some-injective}
use ocellus_network_monitor.Prelude.{
  ℕ, zero, suc, ◌+◌, ◌*◌, ◌<◌, ◌≡◌, refl, ap, subst, Bool-cases, inl, inr, true, Option, none, some,
  List, [], ◌∷◌, length, drop, get_elem?, map, if◌then◌else◌, ℕ_discrete, arith, ltb,
}
use ocellus_network_monitor.Prelude.Map.{contains, add, contains-add}
use ocellus_network_monitor.Packet.{IpAddr, v4, v6}
use ocellus_network_monitor.Text.{Str}
use ocellus_network_monitor.Ids.Baseline.{Decimals}
use ocellus_network_monitor.Ids.Blacklist.{Bloom}
use ocellus_network_monitor.Ids.Dns.{Floats}
use ocellus_network_monitor.Ids.Payload.{matches_at, fold_case, Match, AhoCorasick}
use ocellus_network_monitor.Ids.Engine.{Externals}

pub set_self : (f : List ℕ) (x : ℕ) → contains ℕ_discrete x (add ℕ_discrete x f) ≡ true
set_self f x = ground (arith, contains-add ℕ_discrete x x f)

pub set_keep :
    (f : List ℕ) (x y : ℕ)
    → contains ℕ_discrete y f ≡ true
    → contains ℕ_discrete y (add ℕ_discrete x f) ≡ true
set_keep f x y h = ground (arith, contains-add ℕ_discrete x y f)

abbrev pub exact_bloom : Bloom
exact_bloom = record {
  Filter = List ℕ;
  new_for_fp_rate = [];
  set = λ f x. add ℕ_discrete x f;
  check = λ f x. contains ℕ_discrete x f;
  check-set_self = λ f x. set_self f x;
  check-set_keep = λ f x y h. set_keep f x y h;
}

-- The first place of a pattern.
place : List ℕ → List ℕ → ℕ → Option ℕ
place p [] pos = if matches_at p [] then some pos else none
place p (t ∷ ts) pos = if matches_at p (t ∷ ts) then some pos else place p ts (pos + 1)

add_match : ℕ → Option ℕ → List Match → List Match
add_match k none ms = ms
add_match k (some at) ms = record { pattern = k; start = at } ∷ ms

pub search_from : ℕ → List (List ℕ) → List ℕ → List Match
search_from k [] text = []
search_from k (p ∷ ps) text = add_match k (place p text 0) (search_from (k + 1) ps text)

place_sound :
    (p text : List ℕ) (pos at : ℕ)
    → place p text pos ≡ some at
    → (d : ℕ) × (at ≡ pos + d) × (matches_at p (drop d text) ≡ true)
unfolding place
place_sound p [] pos at h = elim (Bool-cases (matches_at p [])) [
  | inl e ↦ (0, ground arith, e)
  | inr e ↦ absurd (ground arith)
]
place_sound p (t ∷ ts) pos at h = elim (Bool-cases (matches_at p (t ∷ ts))) [
  | inl e ↦ (0, ground arith, e)
  | inr e ↦
      let h' : place p ts (pos + 1) ≡ some at = ground arith in
      let (d, same, found) = place_sound p ts (pos + 1) at h' in (suc d, omega arith, found)
]

place_total :
    (p text : List ℕ) (pos d : ℕ)
    → matches_at p (drop d text) ≡ true
    → (at : ℕ) × (place p text pos ≡ some at)
unfolding place
place_total p [] pos zero h = (pos, rw h refl)
place_total p [] pos (suc d) h = (pos, rw h refl)
place_total p (t ∷ ts) pos zero h = (pos, rw h refl)
place_total p (t ∷ ts) pos (suc d) h = elim (Bool-cases (matches_at p (t ∷ ts))) [
  | inl e ↦ (pos, rw e refl)
  | inr e ↦ rw e (place_total p ts (pos + 1) d h)
]

abbrev Found : ℕ → List (List ℕ) → List ℕ → Match → Type 0
Found k ps text m =
    (j : ℕ) × (p : List ℕ) × (m.pattern ≡ k + j)
    × (get_elem? ps j ≡ some p)
    × (matches_at p (drop m.start text) ≡ true)

pub search_sound :
    (k : ℕ) (ps : List (List ℕ)) (text : List ℕ) (i : ℕ) (m : Match)
    → get_elem? (search_from k ps text) i ≡ some m
    → Found k ps text m
unfolding search_from add_match
search_sound k [] text i m h = cc
search_sound k (p ∷ ps) text i m h =
    by_place (search_sound (k + 1) ps text) (place p text 0) refl i h
  where
    later : Found (k + 1) ps text m → Found k (p ∷ ps) text m
    later (j, q, same, at, found) = (suc j, q, omega arith, at, found)

    Rest : Type 0
    Rest =
        (i : ℕ) (m : Match)
        → get_elem? (search_from (k + 1) ps text) i ≡ some m
        → Found (k + 1) ps text m

    by_place :
        Rest
        → (o : Option ℕ) → place p text 0 ≡ o
        → (i : ℕ) → get_elem? (add_match k o (search_from (k + 1) ps text)) i ≡ some m
        → Found k (p ∷ ps) text m
    by_place r none e i h = later (r i m h)
    by_place r (some at) e zero h =
        let (d, same, found) = place_sound p text 0 at e in
        let is : record { pattern = k; start = at } ≡ m = some-injective _ _ h in
        let here : at ≡ d = omega arith in
        let first : k ≡ m.pattern = ap (λ n. n.pattern) is in
        (0, p, omega arith, refl, rw (← is, here) found)
    by_place r (some at) e (suc i) h = later (r i m h)

pub search_total :
    (k : ℕ) (ps : List (List ℕ)) (text : List ℕ) (i d : ℕ) (p : List ℕ)
    → get_elem? ps i ≡ some p
    → matches_at p (drop d text) ≡ true
    → 0 < length (search_from k ps text)
unfolding search_from add_match
search_total k [] text i d p h f = cc
search_total k (q ∷ ps) text zero d p h f =
    let same : q ≡ p = some-injective _ _ h in
    let (at, e) = place_total q text 0 d (rw same f) in rw e (omega arith)
search_total k (q ∷ ps) text (suc i) d p h f =
    let rest = search_total (k + 1) ps text i d p h f in by_place (place q text 0) rest
  where
    by_place :
        (o : Option ℕ)
        → 0 < length (search_from (k + 1) ps text)
        → 0 < length (add_match k o (search_from (k + 1) ps text))
    by_place none r = r
    by_place (some at) r = omega arith

pub search_occurs :
    (ps : List (List ℕ)) (text : List ℕ) (i : ℕ) (m : Match)
    → get_elem? (search_from 0 ps text) i ≡ some m
    → (p : List ℕ) × (get_elem? ps m.pattern ≡ some p) × (matches_at p (drop m.start text) ≡ true)
search_occurs ps text i m h =
    let (j, p, same, at, found) = search_sound 0 ps text i m h in
    let here : j ≡ m.pattern = omega arith in
    (p, subst (λ n. get_elem? ps n ≡ some p) here at, found)

abbrev pub plain_search : AhoCorasick
plain_search = record {
  Automaton = List (List ℕ);
  build = λ ps. ps;
  find_iter = search_from 0;
  occurs = λ ps text i m h. search_occurs ps text i m h;
  found = λ ps text i at p h f. search_total 0 ps text i at p h f;
}

abbrev pub whole_floats : Floats
whole_floats = record {
  Float = ℕ;
  zero_float = 0;
  from_nat = λ n. n;
  divide = λ a b. a;
  times = λ a b. a * b;
  negate = λ a. a;
  log2 = λ a. a;
  plus = λ a b. a + b;
  exceeds_threshold = λ a. ltb 3 a;
}

abbrev pub whole_decimals : Decimals
whole_decimals = record {
  Decimal = ℕ;
  nought = 0;
  ema_alpha = 1;
  ema_rest = 999;
  sum = λ a b. a + b;
  product = λ a b. a * b;
}

abbrev pub ascii_lowercase : Str → Str
ascii_lowercase = map fold_case

abbrev pub small_hash : IpAddr → ℕ
small_hash (v4 n) = n
small_hash (v6 bytes) = length bytes

abbrev pub digits_of : IpAddr → Str
digits_of (v4 n) = n ∷ []
digits_of (v6 bytes) = bytes

abbrev pub one_country : IpAddr → Option Str
one_country (v4 n) = some (b'U' ∷ b'S' ∷ [])
one_country (v6 bytes) = none

abbrev pub samples : Externals
samples = record {
  bloom = exact_bloom;
  crate = plain_search;
  floats = whole_floats;
  decimals = whole_decimals;
  hash = small_hash;
  to_lowercase = ascii_lowercase;
  ip_to_string = digits_of;
  country_code = one_country;
}
