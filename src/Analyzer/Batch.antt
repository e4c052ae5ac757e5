-- ===== src/Analyzer/Batch.antt =====
-- A batch keeps its packets and their order, whichever way the workers pick them.
use mathlib.Core.Option.{some-injective}
use ocellus_network_monitor.Prelude.{
  ℕ, zero, suc, Bool, true, false, any, ◌==◌, ◌<◌, ◌≡◌, refl, sym, ◌∙◌, ap, some, List, [], ◌∷◌,
  length, get_elem?, set, map, All, Ensures, Ensures-index, Ensures-bind, Ensures-weaken,
}
use ocellus_network_monitor.Packet.{RawPacket}
use ocellus_network_monitor.Mpsc.{Mpsc}
use ocellus_network_monitor.Ids.Payload
use ocellus_network_monitor.Ids.Engine.{Clock, Externals, IdsEngine, analyze}
use ocellus_network_monitor.Ids.Engine.Run.{Guarded, analyze-Guarded}
use ocellus_network_monitor.Analyzer.{Job, with_result, score_one, score_batch}

-- A packet without its score.
abbrev pub unscored : RawPacket → RawPacket
unscored pkt = record pkt { ids_score = 0; ids_flag = 0 }

abbrev pub InRange : ℕ → List Job → Type 0
InRange n = All (λ job. job.0 < n)

abbrev pub is_at : ℕ → Job → Bool
is_at i job = job.0 == i

-- No place comes twice.
abbrev pub Once : List Job → Type 0
Once [] = Unit
Once (job ∷ jobs) = (any (is_at job.0) jobs ≡ false) × Once jobs

-- Every place below `n` comes.
abbrev pub Covers : ℕ → List Job → Type 0
Covers zero jobs = Unit
Covers (suc n) jobs = (any (is_at n) jobs ≡ true) × Covers n jobs

-- The workers' picks of a batch of `n` packets.
pub record Schedules (n : ℕ) (jobs : List Job) : Type 0 where
  pub within : InRange n jobs
  pub once : Once jobs
  pub covers : Covers n jobs

length-set {ℓ} : {A : Type ℓ} (xs : List A) (i : ℕ) (x : A) → length (set xs i x) ≡ length xs
length-set [] i x = refl
length-set (y ∷ xs) zero x = refl
length-set (y ∷ xs) (suc i) x = ap suc (length-set xs i x)

map-set {ℓ κ} :
    {A : Type ℓ} {B : Type κ} (f : A → B) (xs : List A) (i : ℕ) (x y : A)
    → get_elem? xs i ≡ some x
    → f y ≡ f x
    → map f (set xs i y) ≡ map f xs
map-set f [] i x y h e = refl
map-set f (z ∷ xs) zero x y h e = ap (λ w. w ∷ map f xs) (e ∙ ap f (sym (some-injective _ _ h)))
map-set f (z ∷ xs) (suc i) x y h e = ap (◌∷◌ (f z)) (map-set f xs i x y h e)

module _ (externals : Externals) (mpsc : Mpsc RawPacket) where
  open externals use {crate}

  abbrev E : Type 0
  E = IdsEngine externals

  score_one-Ensures :
      (clock : Clock) (e : E) (pkt : RawPacket)
      → e.payload_scanner ≡ Payload.new crate
      → Ensures
          (λ (p, e'). (unscored p ≡ unscored pkt) × (e'.payload_scanner ≡ Payload.new crate))
          (score_one externals mpsc clock e pkt)
  unfolding score_one with_result Guarded
  score_one-Ensures clock e pkt h =
      Ensures-bind _ (Guarded externals e) (analyze externals clock e pkt) _
        (analyze-Guarded externals clock e pkt h)
        λ (result, e') (scanner, _, _, _). (refl, scanner ∙ h)

  -- What a scored batch keeps.
  abbrev pub KeepsBatch : List RawPacket → List RawPacket × E → Type 0
  KeepsBatch ps (ps', e') =
      (map unscored ps' ≡ map unscored ps) × (e'.payload_scanner ≡ Payload.new crate)

  pub score_batch-KeepsBatch :
      (jobs : List Job) (e : E) (ps : List RawPacket)
      → e.payload_scanner ≡ Payload.new crate
      → InRange (length ps) jobs
      → Ensures (KeepsBatch ps) (score_batch externals mpsc jobs e ps)
  unfolding score_batch
  score_batch-KeepsBatch [] e ps h within = (refl, h)
  score_batch-KeepsBatch ((i, clock) ∷ jobs) e ps h within =
      Ensures-index _ ps i _ within.0 λ pkt there.
        Ensures-bind _ _ (score_one externals mpsc clock e pkt) _ (score_one-Ensures clock e pkt h)
          λ (scored, e') (same, h').
            Ensures-weaken _ _ (score_batch externals mpsc jobs e' (set ps i scored))
              (λ (ps', e'') (kept, h''). (kept ∙ map-set unscored ps i pkt scored there same, h''))
              (score_batch-KeepsBatch jobs e' (set ps i scored) h'
                (rw (length-set ps i scored) within.1))
