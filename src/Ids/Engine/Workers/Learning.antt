-- ===== src/Ids/Engine/Workers/Learning.antt =====
-- What calls that run at the same time teach the baseline in the refinement phase.
use ocellus_network_monitor.Prelude.{
  ℕ, ◌≡◌, refl, ◌∙◌, ap, ◌⊎◌, inl, inr, true, false, Option, none, some, List, [], ◌∷◌, get_elem?,
  any, done, Ensures, Ensures-bind, Ensures-value, any-get_elem?, any-set_true, any-set_keeps,
  any-set_false,
}
use ocellus_network_monitor.Packet.{TransportMeta, RawPacket}
use ocellus_network_monitor.Text.{Str}
use ocellus_network_monitor.Ids.Baseline
use ocellus_network_monitor.Ids.Baseline.{is_learning_phase}
use ocellus_network_monitor.Ids.Blacklist
use ocellus_network_monitor.Ids.Payload
use ocellus_network_monitor.Ids.Engine.{Clock, Externals, IdsEngine, new}
use ocellus_network_monitor.Ids.Engine.Workers.{
  Work, begin, begin_all, advance, Pool, Move, works_on, sweeps_ports, sweeps_flows, sweeps_buckets,
  ticks_phase, work_on, move, run_moves,
}
use ocellus_network_monitor.Ids.Engine.Workers.Advance.{
  has_clean, is_observing, Advanced, advance-Advanced,
}
use ocellus_network_monitor.Ids.Engine.Workers.Together.{started}

module _ (externals : Externals)
    (to_json : Baseline.BaselineState externals.decimals → Option Str) where
  open externals use {bloom, crate, decimals, to_lowercase}

  abbrev P : Type 0
  P = Pool externals

  -- A call has decided on a clean result, or the baseline is as it was and no call writes to it.
  Untaught : Baseline.Baseline decimals → P → Type 0
  Untaught b p =
      (p.engine.payload_scanner ≡ Payload.new crate)
      × ((any has_clean p.works ≡ true)
          ⊎ ((p.engine.baseline ≡ b) × (any is_observing p.works ≡ false)))

  module _ (b : Baseline.Baseline decimals) (refine : is_learning_phase b.phase ≡ false) where
    work_on-Untaught :
        (j : ℕ) (clock : Clock) (p : P) (o : Option Work)
        → get_elem? p.works j ≡ o
        → Untaught b p
        → Ensures (Untaught b) (work_on externals clock j p o)
    unfolding Untaught
    work_on-Untaught j clock p none e h = h
    work_on-Untaught j clock p (some w) e (scanner, h) =
        Ensures-bind (Untaught b) (Advanced externals p.engine w)
          (advance externals clock p.engine w) _
          (advance-Advanced externals clock p.engine w scanner)
          λ (w', e') a. (
            a.scanner ∙ scanner,
            (elim h [
              | inl clean ↦ inl (any-set_keeps has_clean p.works j w' w e a.clean clean)
              | inr (same, idle) ↦
                  elim (a.learns (ap (λ c. is_learning_phase c.phase) same ∙ refine)
                    (any-get_elem? is_observing p.works j w idle e)) [
                      | inl clean ↦ inl (any-set_true has_clean p.works j w' w e clean)
                      | inr (kept, idle') ↦
                          inr (kept ∙ same, any-set_false is_observing p.works j w' idle idle')
                    ]
            ]),
          )

    tick_phase-same :
        (checked ended : ℕ) (c : Baseline.Baseline decimals)
        → c ≡ b
        → (Baseline.tick_phase decimals to_json checked ended c).1 ≡ b
    unfolding Baseline.tick_phase
    tick_phase-same checked ended c e = rw (e, refine) refl

    move-Untaught :
        (p : P) (m : Move) → Untaught b p → Ensures (Untaught b) (move externals to_json p m)
    unfolding Untaught move
    move-Untaught p (works_on j clock) h = work_on-Untaught j clock p (get_elem? p.works j) refl h
    move-Untaught p (sweeps_ports now) h = h
    move-Untaught p (sweeps_flows flows counters) h = h
    move-Untaught p (sweeps_buckets buckets) h = h
    move-Untaught p (ticks_phase checked ended) (scanner, inl clean) = (scanner, inl clean)
    move-Untaught p (ticks_phase checked ended) (scanner, inr (same, idle)) =
        (scanner, inr (tick_phase-same checked ended p.engine.baseline same, idle))

    run_moves-Untaught :
        (ms : List Move) (p : P)
        → Untaught b p
        → Ensures (Untaught b) (run_moves externals to_json p ms)
    unfolding run_moves
    run_moves-Untaught [] p h = h
    run_moves-Untaught (m ∷ ms) p h =
        Ensures-bind (Untaught b) (Untaught b) (move externals to_json p m) _ (move-Untaught p m h)
          λ p' h'. run_moves-Untaught ms p' h'

  begin_all-idle :
      (e : IdsEngine externals) (ps : List (RawPacket × TransportMeta))
      → any is_observing (begin_all externals e ps) ≡ false
  unfolding begin
  begin_all-idle e [] = refl
  begin_all-idle e (p ∷ ps) = begin_all-idle e ps

  -- Alerting traffic cannot teach the baseline by the way its calls interleave. Where calls of `analyze`
  -- share an engine that is in the refinement phase from the start, and after any order of steps of the
  -- calls and of the sweeper no call has decided on a clean result, the baseline is the one before.
  pub run_moves-unpoisoned :
      (baseline : Baseline.Baseline decimals) (blacklist : Blacklist.Blacklist bloom to_lowercase)
      (ps : List (RawPacket × TransportMeta)) (ms : List Move) (p : P)
      → is_learning_phase baseline.phase ≡ false
      → run_moves externals to_json (started externals to_json baseline blacklist ps) ms ≡ done p
      → any has_clean p.works ≡ false
      → p.engine.baseline ≡ baseline
  unfolding Untaught new
  run_moves-unpoisoned baseline blacklist ps ms p refine returned unclean =
      let (_, h) = Ensures-value (Untaught baseline) _ p returned (
        run_moves-Untaught baseline refine ms (started externals to_json baseline blacklist ps)
          (refl, inr (refl, begin_all-idle (new externals baseline blacklist) ps))) in
      elim h [ inl clean ↦ absurd (cc (clean, unclean)) | inr (same, _) ↦ same ]
