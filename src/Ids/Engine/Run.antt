-- ===== src/Ids/Engine/Run.antt =====
-- The analysis of a series of packets by one engine.
use mathlib.Core.List.Perm
use mathlib.Core.List.{Mem, mem-cons_self}
use ocellus_network_monitor.Prelude.{
  ℕ, suc, ◌≤◌, ◌≡◌, refl, sym, ◌∙◌, ap, subst, Bool, true, false, ◌||◌, Option, none, some, List,
  [], ◌∷◌, length, any, if◌then◌else◌, arith, min, Outcome, done, ◌>>=◌, Ensures, Ensures-bind,
  Ensures-done, Ensures-value, Ensures-weaken,
}
use ocellus_network_monitor.Packet.{TransportMeta, RawPacket}
use ocellus_network_monitor.Text.{Str}
use ocellus_network_monitor.Ids.Score.{Signal, IdsResult, from_signals, is_clean, sum_scores}
use ocellus_network_monitor.Ids.Score.Bands.{from_signals_lem}
use ocellus_network_monitor.Ids.Baseline
use ocellus_network_monitor.Ids.Baseline.{is_learning_phase}
use ocellus_network_monitor.Ids.Blacklist
use ocellus_network_monitor.Ids.Payload
use ocellus_network_monitor.Ids.Engine.{
  Report, empty_report, check_source, Clock, Externals, IdsEngine, new, check_addresses,
  observe_packet, observe_port_option, observe_country_option, observe_dns_option, analyze_option,
  analyze,
}
use ocellus_network_monitor.Ids.Engine.Extend.{Extends, Extends-trans, raise_option-Extends}
use ocellus_network_monitor.Ids.Engine.Verdict.{Analyzed, analyze-Analyzed}

-- What a result says of a signal.
abbrev pub Reports : Signal → IdsResult → Type 0
Reports s result =
    (result.flag_reason ≡ 7) × Mem s result.signals × (min s.score 100 ≤ result.total_score)

first_score :
    (s : Signal) (ss : List Signal) (flag : ℕ)
    → min s.score 100 ≤ (from_signals (s ∷ ss) flag).total_score
unfolding from_signals sum_scores
first_score s ss flag = omega arith

pub first-Reports :
    (s : Signal) (r : Report)
    → Extends (record { flag = 7; signals = s ∷ [] }) r
    → Reports s (from_signals r.signals r.flag)
unfolding Extends
first-Reports s r (f, tail, p) =
    let (_, _, _, flag, _, perm, _) = from_signals_lem r.signals r.flag 0 in
    (flag ∙ f (λ z. absurd (omega arith)), (Perm.mem_iff perm).1 (rw p mem-cons_self), total)
  where
    total : min s.score 100 ≤ (from_signals r.signals r.flag).total_score
    total = rw p (first_score s tail r.flag)

module _ (externals : Externals) where
  open externals use {
    bloom, crate, floats, decimals, hash, to_lowercase, ip_to_string, country_code,
  }

  abbrev E : Type 0
  E = IdsEngine externals

  -- The packets in the order of analysis, each with the clock readings of its call.
  unfoldable pub analyze_all : E → List (Clock × RawPacket) → Outcome (List IdsResult × E)
  analyze_all e [] = done ([], e)
  analyze_all e ((clock, pkt) ∷ ps) = do
    (result, e') ← analyze externals clock e pkt
    (results, e'') ← analyze_all e' ps
    done (result ∷ results, e'')

  port-phase :
      (o : Option ℕ) (b : Baseline.Baseline decimals)
      → (observe_port_option externals o b).phase ≡ b.phase
  unfolding Baseline.observe_port
  port-phase none b = refl
  port-phase (some p) b = refl

  country-phase :
      (o : Option Str) (b : Baseline.Baseline decimals)
      → (observe_country_option externals o b).phase ≡ b.phase
  unfolding Baseline.observe_country
  country-phase none b = refl
  country-phase (some code) b = refl

  dns-phase :
      (o : Option Str) (b : Baseline.Baseline decimals)
      → (observe_dns_option externals o b).phase ≡ b.phase
  unfolding Baseline.observe_dns
  dns-phase none b = refl
  dns-phase (some domain) b = refl

  observe_packet-phase :
      (tm : TransportMeta) (geo query_name : Option Str) (b : Baseline.Baseline decimals)
      → (observe_packet externals tm geo query_name b).phase ≡ b.phase
  unfolding observe_packet Baseline.observe_dst_ip Baseline.observe_protocol
  observe_packet-phase tm geo query_name b =
      dns-phase query_name _ ∙ country-phase geo _ ∙ port-phase tm.dst_port b

  -- What an analysis leaves of the engine.
  unfoldable pub Guarded : E → IdsResult × E → Type 0
  Guarded e (result, e') =
      (e'.payload_scanner ≡ e.payload_scanner)
      × (e'.blacklist ≡ e.blacklist)
      × (e'.baseline.phase ≡ e.baseline.phase)
      × ((is_learning_phase e.baseline.phase || is_clean result) ≡ false → e'.baseline ≡ e.baseline)

  Guarded-of_Analyzed :
      (e : E) (tm : TransportMeta) (p : IdsResult × E) → Analyzed externals e tm p → Guarded e p
  unfolding Analyzed Guarded
  Guarded-of_Analyzed e tm (result, e') (r, geo, query_name, x, same, scanner, blacklist, learned) =
      (
        scanner,
        blacklist,
        ap (λ b. b.phase) learned ∙ kept (is_learning_phase e.baseline.phase || is_clean result),
        λ h. learned ∙ ap (λ t. if t then observed else e.baseline) h,
      )
    where
      observed : Baseline.Baseline decimals
      observed = observe_packet externals tm geo query_name e.baseline

      kept : (t : Bool) → (if t then observed else e.baseline).phase ≡ e.baseline.phase
      kept true = observe_packet-phase tm geo query_name e.baseline
      kept false = refl

  pub analyze-Guarded :
      (clock : Clock) (e : E) (pkt : RawPacket)
      → e.payload_scanner ≡ Payload.new crate
      → Ensures (Guarded e) (analyze externals clock e pkt)
  unfolding analyze Guarded
  analyze-Guarded clock e pkt h = by_transport pkt.transport
    where
      by_transport :
          (o : Option TransportMeta) → Ensures (Guarded e) (analyze_option externals clock e pkt o)
      by_transport none = (refl, refl, refl, λ h. refl)
      by_transport (some tm) =
          Ensures-weaken _ (Guarded e) _ (Guarded-of_Analyzed e tm)
            (analyze-Analyzed externals clock e pkt tm h)

  -- The same for a series.
  abbrev AllGuarded : E → List (Clock × RawPacket) → List IdsResult × E → Type 0
  AllGuarded e ps (results, e') =
      (length results ≡ length ps)
      × (e'.payload_scanner ≡ e.payload_scanner)
      × (e'.blacklist ≡ e.blacklist)
      × (e'.baseline.phase ≡ e.baseline.phase)
      × (is_learning_phase e.baseline.phase ≡ false
          → any is_clean results ≡ false
          → e'.baseline ≡ e.baseline)

  analyze_all-AllGuarded :
      (ps : List (Clock × RawPacket)) (e : E)
      → e.payload_scanner ≡ Payload.new crate
      → Ensures (AllGuarded e ps) (analyze_all e ps)
  unfolding analyze_all Guarded
  analyze_all-AllGuarded [] e h = (refl, refl, refl, refl, λ r c. refl)
  analyze_all-AllGuarded ((clock, pkt) ∷ ps) e h =
      Ensures-bind (AllGuarded e ((clock, pkt) ∷ ps)) (Guarded e) (analyze externals clock e pkt) _
        (analyze-Guarded clock e pkt h)
        λ (result, e') (scanner, blacklist, phase, kept).
          Ensures-bind (AllGuarded e ((clock, pkt) ∷ ps)) (AllGuarded e' ps) (analyze_all e' ps) _
            (analyze_all-AllGuarded ps e' (scanner ∙ h))
            λ (results, e'') (size, scanner', blacklist', phase', kept'). (
              ap (λ n. suc n) size,
              scanner' ∙ scanner,
              blacklist' ∙ blacklist,
              phase' ∙ phase,
              λ refine unclean.
                  kept' (ap is_learning_phase phase ∙ refine) (ground arith) ∙ kept (ground arith),
            )

  -- On every series of packets, whatever their bytes, their metadata and the clock, an engine that was
  -- made by `new` with any baseline and any blacklist returns a result for each packet: no index or
  -- slice of any detector is out of range and no loop runs on.
  pub analyze_all-returns :
      (baseline : Baseline.Baseline decimals) (blacklist : Blacklist.Blacklist bloom to_lowercase)
      (ps : List (Clock × RawPacket))
      → (results : List IdsResult) × (e' : E) × (analyze_all (new externals baseline blacklist) ps
          ≡ done (results, e'))
        × (length results ≡ length ps)
  unfolding new
  analyze_all-returns baseline blacklist ps =
      let e = new externals baseline blacklist in
      let ((results, e'), returned, (size, _, _, _, _)) =
        Ensures-done (AllGuarded e ps) (analyze_all e ps) (analyze_all-AllGuarded ps e refl) in
      (results, e', returned, size)

  -- Traffic that raises an alert cannot teach the baseline: where the engine is in the refinement
  -- phase and every packet of a series scores at or above the information threshold, the baseline
  -- after the series is the one before it.
  pub baseline_unpoisoned :
      (baseline : Baseline.Baseline decimals) (blacklist : Blacklist.Blacklist bloom to_lowercase)
      (ps : List (Clock × RawPacket)) (results : List IdsResult) (e' : E)
      → analyze_all (new externals baseline blacklist) ps ≡ done (results, e')
      → is_learning_phase baseline.phase ≡ false
      → any is_clean results ≡ false
      → e'.baseline ≡ baseline
  unfolding new
  baseline_unpoisoned baseline blacklist ps results e' returned refine unclean =
      let e = new externals baseline blacklist in
      let (_, _, _, _, kept) =
        Ensures-value (AllGuarded e ps) (analyze_all e ps) (results, e') returned
          (analyze_all-AllGuarded ps e refl) in
      kept refine unclean

  -- The blacklist's report on a listed source.
  pub source_report :
      (e : E) (tm : TransportMeta) (s : Signal)
      → Blacklist.check_ip bloom to_lowercase e.blacklist tm.src_ip ≡ some s
      → Extends
          (record { flag = 7; signals = s ∷ [] })
          (check_addresses externals e tm empty_report)
  unfolding check_addresses check_source
  source_report e tm s h = rw h (raise_option-Extends 7 _ _)

  -- A packet whose source the blacklist flags, on any engine that has the program's signatures.
  pub analyze-Reports :
      (clock : Clock) (e : E) (pkt : RawPacket) (tm : TransportMeta) (s : Signal)
      → e.payload_scanner ≡ Payload.new crate
      → pkt.transport ≡ some tm
      → Blacklist.check_ip bloom to_lowercase e.blacklist tm.src_ip ≡ some s
      → (result : IdsResult) × (e' : E) × (analyze externals clock e pkt ≡ done (result, e'))
        × Reports s result
  unfolding analyze Analyzed
  analyze-Reports clock e pkt tm s scanner h listed =
      let ((result, e'), returned, found) =
        Ensures-done (Analyzed externals e tm) (analyze_option externals clock e pkt (some tm))
          (analyze-Analyzed externals clock e pkt tm scanner) in
      let (r, _, _, x, same, _, _, _) = found in
      (
        result,
        e',
        ap (analyze_option externals clock e pkt) h ∙ returned,
        subst (Reports s) (sym same)
            (first-Reports s r (Extends-trans _ _ r (source_report e tm s listed) x)),
      )

  -- After any series of packets, a packet whose source address the blacklist flags is reported, in the
  -- learning phase as in the refinement phase. An engine that was made by `new` with any baseline and any
  -- blacklist returns on the series, and on the packet after it; the packet's flag is then 7, the
  -- blacklist's signal is among the signals of the result, and the total is no lower than the signal's
  -- score, up to the cap of 100.
  pub analyze_blacklisted :
      (baseline : Baseline.Baseline decimals) (blacklist : Blacklist.Blacklist bloom to_lowercase)
      (ps : List (Clock × RawPacket)) (clock : Clock) (pkt : RawPacket) (tm : TransportMeta)
      (s : Signal)
      → pkt.transport ≡ some tm
      → Blacklist.check_ip bloom to_lowercase blacklist tm.src_ip ≡ some s
      → (results : List IdsResult) × (e : E) × (result : IdsResult) × (e' : E) × (analyze_all
            (new externals baseline blacklist)
            ps
          ≡ done (results, e))
        × (analyze externals clock e pkt ≡ done (result, e'))
        × (result.flag_reason ≡ 7)
        × Mem s result.signals
        × (min s.score 100 ≤ result.total_score)
  unfolding new
  analyze_blacklisted baseline blacklist ps clock pkt tm s h k =
      let e0 = new externals baseline blacklist in
      let ((results, e), before, (_, scanner, kept, _, _)) =
        Ensures-done (AllGuarded e0 ps) (analyze_all e0 ps) (analyze_all-AllGuarded ps e0 refl) in
      let listed = ap (λ b. Blacklist.check_ip bloom to_lowercase b tm.src_ip) kept ∙ k in
      let (result, e', returned, (flag, mem, total)) =
        analyze-Reports clock e pkt tm s scanner h listed in
      (results, e, result, e', before, returned, flag, mem, total)
