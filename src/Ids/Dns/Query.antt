-- ===== src/Ids/Dns/Query.antt =====
-- The reader of DNS query names returns on every payload, and so does the payload inspection.
use ocellus_network_monitor.Prelude.{
  ℕ, zero, suc, ◌+◌, ◌≤◌, ◌<◌, ◌≡◌, ◌||◌, Option, none, some, List, [], ◌∷◌, length, ltb, leb, ◌==◌,
  done, Ensures, Ensures-index, Ensures-slice, Ensures-guard, Ensures-bind, Ensures-done, arith,
  tests, bit_and, be_u16, ltb→le,
}
use ocellus_network_monitor.Text.{Str}
use ocellus_network_monitor.Ids.Score.{Signal}
use ocellus_network_monitor.Ids.Dns.{
  Floats, read_labels, join_labels, extract_dns_query_name, tunnel_check, inspect_found,
  inspect_payload,
}

abbrev Any : {A : Type 0} → A → Type 0
Any a = Unit {0}

-- Each round moves at least two bytes on, so the payload's length is fuel enough.
read_labels-returns :
    (fuel : ℕ) (payload : List ℕ) (pos : ℕ) (labels : List Str)
    → pos ≤ length payload
    → length payload < pos + fuel
    → Ensures Any (read_labels fuel payload pos labels)
unfolding read_labels
read_labels-returns zero payload pos labels p h = absurd (omega arith)
read_labels-returns (suc fuel) payload pos labels p h =
    Ensures-guard Any (leb (length payload) pos) _ _ (λ _. tt)
      λ inside. Ensures-index Any payload pos _ (omega tests) λ len e.
        Ensures-guard Any (len == 0 || bit_and len 0xC0 == 0xC0) _ _ (λ _. tt)
          λ more.
            Ensures-guard Any (ltb (length payload) (pos + 1 + len)) _ _ (λ _. tt)
              λ fits.
                Ensures-slice Any payload (pos + 1) (pos + 1 + len) _ (omega arith) (omega tests)
                  (read_labels-returns fuel payload (pos + 1 + len) _ (omega tests) (omega arith))

extract-returns : (payload : List ℕ) → Ensures Any (extract_dns_query_name payload)
unfolding extract_dns_query_name
extract-returns payload =
    Ensures-guard Any (ltb (length payload) 12) _ _ (λ _. tt)
      λ long. Ensures-index Any payload 4 _ (omega tests) λ q4 e4.
        Ensures-index Any payload 5 _ (omega tests) λ q5 e5.
          Ensures-guard Any (be_u16 q4 q5 == 0) _ _ (λ _. tt)
            λ some_question.
              Ensures-bind Any Any (read_labels (length payload) payload 12 []) _
                (read_labels-returns (length payload) payload 12 [] (omega tests) (omega tests))
                λ _ _. tt

-- On every payload `extract_dns_query_name` returns: no index or slice is out of range, and the loop
-- ends within as many rounds as the payload has bytes.
pub extract_dns_query_name-returns :
    (payload : List ℕ) → (r : Option Str) × (extract_dns_query_name payload ≡ done r)
extract_dns_query_name-returns payload =
    let (r, e, _) = Ensures-done Any (extract_dns_query_name payload) (extract-returns payload) in
    (r, e)

-- A name is found only in a payload with a whole header.
NeedsHeader : List ℕ → Option Str → Type 0
NeedsHeader payload none = Unit
NeedsHeader payload (some name) = 12 ≤ length payload

extract-header : (payload : List ℕ) → Ensures (NeedsHeader payload) (extract_dns_query_name payload)
unfolding extract_dns_query_name NeedsHeader
extract-header payload =
    Ensures-guard (NeedsHeader payload) (ltb (length payload) 12) _ _ (λ _. tt)
      λ long. Ensures-index (NeedsHeader payload) payload 4 _ (omega tests) λ q4 e4.
        Ensures-index (NeedsHeader payload) payload 5 _ (omega tests) λ q5 e5.
          Ensures-guard (NeedsHeader payload) (be_u16 q4 q5 == 0) _ _ (λ _. tt)
            λ some_question.
              Ensures-bind (NeedsHeader payload) Any (read_labels (length payload) payload 12 []) _
                (read_labels-returns (length payload) payload 12 [] (omega tests) (omega tests))
                λ labels _. joined labels (ltb→le (length payload) 12 long)
  where
    joined : (o : Option (List Str)) → 12 ≤ length payload → NeedsHeader payload (join_labels o)
    joined none h = tt
    joined (some []) h = tt
    joined (some (l ∷ ls)) h = h

module _ (floats : Floats) (to_lowercase : Str → Str) where
  tunnel_check-returns :
      (payload : List ℕ)
      → 8 ≤ length payload
      → Ensures Any (tunnel_check floats to_lowercase payload)
  unfolding tunnel_check
  tunnel_check-returns payload h =
      Ensures-guard Any (ltb 6 (length payload)) _ _
        (λ _. Ensures-index Any payload 2 _ (omega arith) λ b2 e2.
          Ensures-index Any payload 3 _ (omega arith) λ b3 e3.
            Ensures-index Any payload 6 _ (omega arith)
              λ b6 e6. Ensures-index Any payload 7 _ (omega arith) λ b7 e7. tt)
        λ _. tt

  -- On every payload `inspect_payload` returns: it reads byte 7 after testing only that there are
  -- seven bytes, but a name is found only where there are twelve.
  pub inspect_payload-returns :
      (payload : List ℕ)
      → (ss : List Signal) × (inspect_payload floats to_lowercase payload ≡ done ss)
  unfolding inspect_payload NeedsHeader
  inspect_payload-returns payload =
      let (ss, e, _) = Ensures-done Any (inspect_payload floats to_lowercase payload) (
        Ensures-bind Any (NeedsHeader payload) (extract_dns_query_name payload) _
          (extract-header payload) found) in
      (ss, e)
    where
      found :
          (o : Option Str)
          → NeedsHeader payload o
          → Ensures Any (inspect_found floats to_lowercase payload o)
      found none h = tt
      found (some name) h =
          Ensures-bind Any Any (tunnel_check floats to_lowercase payload) _
            (tunnel_check-returns payload (omega arith)) λ _ _. tt
