-- ===== src/Analyzer/Scores.antt =====
-- Each packet of a batch is scored once.
mod Tests
use mathlib.Core.Option.{some-injective}
use ocellus_network_monitor.Prelude.{
  get_elem?-set_other, get_elem?-set_same, length-map, ℕ, zero, suc, ◌+◌, ◌<◌, ◌≡◌, ◌≢◌, refl, sym,
  ◌∙◌, ap, subst, Bool, true, false, ◌||◌, any, ◌==◌, ℕ_discrete, Option, some, none, List, [], ◌∷◌,
  ◌++◌, length, get_elem?, set, map, All, arith, tests, index, index-get_elem?, Outcome, done,
  panic, ◌>>=◌, Allows, Allows-bind, Allows-chain, Allows-weaken, Allows-value, Ensures-done,
}
use ocellus_network_monitor.Packet.{RawPacket}
use ocellus_network_monitor.Mpsc.{Mpsc}
use ocellus_network_monitor.Ids.Payload
use ocellus_network_monitor.Ids.Score.{IdsResult}
use ocellus_network_monitor.Ids.Engine.{Clock, Externals, IdsEngine, analyze}
use ocellus_network_monitor.Analyzer.{Job, with_result, score_one, score_batch}
use ocellus_network_monitor.Analyzer.Batch.{
  unscored, Schedules, Once, Covers, is_at, KeepsBatch, score_batch-KeepsBatch,
}

Covers-any : (n i : ℕ) (jobs : List Job) → i < n → Covers n jobs → any (is_at i) jobs ≡ true
Covers-any zero i jobs h c = absurd (omega arith)
Covers-any (suc n) i jobs h c = elim (ℕ_discrete i n) [
  | yes e ↦ subst (λ k. any (is_at k) jobs ≡ true) (sym e) c.0
  | no ne ↦ Covers-any n i jobs (omega arith) c.1
]

not_at : (i j : ℕ) (b : Bool) → ((j == i) || b) ≡ false → (j ≢ i) × (b ≡ false)
not_at i j b h = ground arith

later_at : (i j : ℕ) (b : Bool) → j ≢ i → ((j == i) || b) ≡ true → b ≡ true
later_at i j b ne h = ground arith

get_elem?-length {ℓ} :
    {A : Type ℓ} (xs : List A) (i : ℕ) (x : A) → get_elem? xs i ≡ some x → i < length xs
get_elem?-length [] i x h = absurd cc
get_elem?-length (y ∷ xs) zero x h = omega arith
get_elem?-length (y ∷ xs) (suc i) x h = omega (arith, get_elem?-length xs i x h)

-- With the equation of the value.
Allows-bind_value {ℓ κ} :
    {A : Type ℓ} {B : Type κ} (P : B → Type 0) (m : Outcome A) (f : A → Outcome B)
    → ((a : A) → m ≡ done a → Allows P (f a))
    → Allows P (m >>= f)
Allows-bind_value P (done a) f h = h a refl
Allows-bind_value P panic f h = tt

module _ (externals : Externals) (mpsc : Mpsc RawPacket) where
  open externals use {crate}

  abbrev E : Type 0
  E = IdsEngine externals

  -- The packet of the `i`th place as its job leaves it: with the score and the flag that the analysis of the
  -- packet gives at the job's clock readings, on the engine as the jobs before it leave it.
  abbrev pub IsScored : ℕ → List Job → E → List RawPacket → RawPacket → RawPacket → Type 0
  IsScored i jobs e qs p p' =
      (before : List Job) × (clock : Clock) × (after : List Job) × (mid : List RawPacket)
      × (shared : E) × (result : IdsResult) × (e' : E) × (jobs ≡ before ++ ((i, clock) ∷ after))
      × (score_batch externals mpsc before e qs ≡ done (mid, shared))
      × (analyze externals clock shared p ≡ done (result, e'))
      × (p' ≡ record p { ids_score = result.total_score; ids_flag = result.flag_reason })

  -- The same for the first job.
  abbrev Makes : Clock → E → RawPacket → RawPacket × E → Type 0
  Makes clock e p (p', e'') =
      (result : IdsResult) × (e' : E) × (analyze externals clock e p ≡ done (result, e'))
      × (p' ≡ record p { ids_score = result.total_score; ids_flag = result.flag_reason })

  score_one-Makes :
      (clock : Clock) (e : E) (p : RawPacket)
      → Allows (Makes clock e p) (score_one externals mpsc clock e p)
  unfolding score_one with_result
  score_one-Makes clock e p = by_outcome (analyze externals clock e p) refl
    where
      by_outcome :
          (m : Outcome (IdsResult × E))
          → analyze externals clock e p ≡ m
          → Allows (Makes clock e p) (m >>= λ (result, e'). done (with_result p result, e'))
      by_outcome panic same = tt
      by_outcome (done (result, e')) same = (result, e', same, refl)

  -- The jobs that are left do not touch another place.
  score_batch-elsewhere :
      (i : ℕ) (o : Option RawPacket) (jobs : List Job) (e : E) (qs : List RawPacket)
      → any (is_at i) jobs ≡ false
      → get_elem? qs i ≡ o
      → Allows (λ (ps, e'). get_elem? ps i ≡ o) (score_batch externals mpsc jobs e qs)
  unfolding score_batch
  score_batch-elsewhere i o [] e qs h at = at
  score_batch-elsewhere i o ((j, clock) ∷ jobs) e qs h at =
      let (other, rest) = not_at i j (any (is_at i) jobs) h in
      Allows-bind _ (index qs j) _ λ pkt.
        Allows-bind _ (score_one externals mpsc clock e pkt) _ λ (scored, e').
          score_batch-elsewhere i o jobs e' (set qs j scored) rest
            (get_elem?-set_other qs i j scored other ∙ at)

  abbrev Placed : ℕ → List Job → E → List RawPacket → RawPacket → List RawPacket × E → Type 0
  Placed i jobs e qs p (ps, e') =
      (p' : RawPacket) × (get_elem? ps i ≡ some p') × IsScored i jobs e qs p p'

  -- A job for another place goes first.
  IsScored-later :
      (i j : ℕ) (clock : Clock) (jobs : List Job) (e e' : E) (qs : List RawPacket)
      (p p' pkt scored : RawPacket)
      → index qs j ≡ done pkt
      → score_one externals mpsc clock e pkt ≡ done (scored, e')
      → IsScored i jobs e' (set qs j scored) p p'
      → IsScored i ((j, clock) ∷ jobs) e qs p p'
  unfolding score_batch
  IsScored-later i j clock jobs e e' qs p p' pkt scored picked made
        (before, at, after, mid, shared, result, e'', split, run, analyzed, is) =
      (
        (j, clock) ∷ before,
        at,
        after,
        mid,
        shared,
        result,
        e'',
        ap (λ l. (j, clock) ∷ l) split,
        ap
              (λ (m : Outcome RawPacket). m >>= λ q.
                score_one externals mpsc clock e q >>= λ (r, e1).
                score_batch externals mpsc before e1 (set qs j r))
              picked
            ∙ ap
                (λ (m : Outcome (RawPacket × E)).
                  m >>= λ (r, e1). score_batch externals mpsc before e1 (set qs j r))
                made
            ∙ run,
        analyzed,
        is,
      )

  score_batch-Placed :
      (i : ℕ) (p : RawPacket) (jobs : List Job) (e : E) (qs : List RawPacket)
      → any (is_at i) jobs ≡ true
      → Once jobs
      → get_elem? qs i ≡ some p
      → Allows (Placed i jobs e qs p) (score_batch externals mpsc jobs e qs)
  unfolding score_batch
  score_batch-Placed i p [] e qs h once at = absurd cc
  score_batch-Placed i p ((j, clock) ∷ jobs) e qs h (fresh, once) at =
      let P = Placed i ((j, clock) ∷ jobs) e qs p in
      elim (ℕ_discrete j i) [
        | yes same ↦
            let at' : get_elem? qs j ≡ some p = ap (get_elem? qs) same ∙ at in
            subst
              (λ m. Allows P (
                m >>= λ pkt. score_one externals mpsc clock e pkt >>= λ (scored, e').
                score_batch externals mpsc jobs e' (set qs j scored)))
              (sym (index-get_elem? qs j p at'))
              (Allows-chain P (Makes clock e p) (score_one externals mpsc clock e p) _
                (score_one-Makes clock e p)
                λ (scored, e') (result, e1, analyzed, is).
                  Allows-weaken (λ (ps, e''). get_elem? ps i ≡ some scored) P
                    (score_batch externals mpsc jobs e' (set qs j scored))
                    (λ (ps, e'') there. (
                      scored,
                      there,
                      (
                        [],
                        clock,
                        jobs,
                        qs,
                        e,
                        result,
                        e1,
                        ap (λ k. (k, clock) ∷ jobs) same,
                        refl,
                        analyzed,
                        is,
                      ),
                    ))
                    (score_batch-elsewhere i (some scored) jobs e' (set qs j scored)
                      (subst (λ k. any (is_at k) jobs ≡ false) same fresh)
                      (subst (λ k. get_elem? (set qs j scored) k ≡ some scored) same
                        (get_elem?-set_same qs j scored p at'))))
        | no other ↦ Allows-bind_value P (index qs j) _ λ pkt picked.
            Allows-bind_value P (score_one externals mpsc clock e pkt) _ λ (scored, e') made.
              Allows-weaken (Placed i jobs e' (set qs j scored) p) P
                (score_batch externals mpsc jobs e' (set qs j scored))
                (λ (ps, e'') (p', there, is).
                  (p', there, IsScored-later i j clock jobs e e' qs p p' pkt scored picked made is))
                (score_batch-Placed i p jobs e' (set qs j scored)
                  (later_at i j (any (is_at i) jobs) other h) once
                  (get_elem?-set_other qs i j scored other ∙ at))
      ]

  -- In whichever order the workers pick the packets of a batch, each once, with an engine that has the
  -- program's signatures: scoring the batch does not panic, it keeps the number of packets, and the packet
  -- at each place comes out, at the same place, as itself with the total score and the flag of its analysis.
  -- That analysis is the one of the place's job, with the job's clock readings, on the shared engine as
  -- the jobs picked before it leave it.
  pub score_batch-IsScored :
      (jobs : List Job) (e : E) (ps : List RawPacket) (i : ℕ) (p : RawPacket)
      → e.payload_scanner ≡ Payload.new crate
      → Schedules (length ps) jobs
      → get_elem? ps i ≡ some p
      → (ps' : List RawPacket) × (e' : E) × (p' : RawPacket) × (score_batch externals mpsc jobs e ps
          ≡ done (ps', e'))
        × (length ps' ≡ length ps)
        × (get_elem? ps' i ≡ some p')
        × IsScored i jobs e ps p p'
  score_batch-IsScored jobs e ps i p h schedule at =
      let run = score_batch externals mpsc jobs e ps in
      let ((ps', e'), returned, (kept, _)) =
        Ensures-done (KeepsBatch externals mpsc ps) run
          (score_batch-KeepsBatch externals mpsc jobs e ps h schedule.within) in
      let covered = Covers-any (length ps) i jobs (get_elem?-length ps i p at) schedule.covers in
      let (p', there, scored) =
        Allows-value (Placed i jobs e ps p) run (ps', e') returned
          (score_batch-Placed i p jobs e ps covered schedule.once at) in
      (
        ps',
        e',
        p',
        returned,
        sym (length-map unscored ps') ∙ ap length kept ∙ length-map unscored ps,
        there,
        scored,
      )
