-- ===== src/Ids/Engine/Workers/Together.antt =====
-- Any interleaving of the steps of several calls and of the sweeper on one engine.
use mathlib.Core.Option.{some-injective}
use ocellus_network_monitor.Prelude.{
  ℕ, zero, suc, ◌+◌, ◌-◌, ◌≤◌, ◌≡◌, refl, sym, ◌∙◌, ap, subst, Option, none, some, List, [], ◌∷◌,
  get_elem?, set, ◌==◌, ℕ_discrete, if◌then◌else◌, arith, Bool, true, false, ◌||◌, ltb, done,
  Ensures, Ensures-bind, Ensures-done, get_elem?-set_same, get_elem?-set_other,
}
use ocellus_network_monitor.Packet.{TransportMeta, RawPacket}
use ocellus_network_monitor.Text.{Str}
use ocellus_network_monitor.Ids.Score.{Signal, IdsResult}
use ocellus_network_monitor.Ids.Baseline
use ocellus_network_monitor.Ids.Baseline.{is_learning_phase}
use ocellus_network_monitor.Ids.Blacklist
use ocellus_network_monitor.Ids.Payload
use ocellus_network_monitor.Ids.Engine.{
  Report, empty_report, Clock, Externals, IdsEngine, new, check_addresses,
}
use ocellus_network_monitor.Ids.Engine.Extend.{Extends-refl, Extends-trans}
use ocellus_network_monitor.Ids.Engine.Run.{Reports, first-Reports, source_report}
use ocellus_network_monitor.Ids.Engine.Workers.{
  Place, rates, ports, handshakes, countries, payloads, names, unusual, decides, observing,
  finished, Work, begin, begin_all, advance, Pool, Move, works_on, sweeps_ports, sweeps_flows,
  sweeps_buckets, ticks_phase, work_on, move, run_moves,
}
use ocellus_network_monitor.Ids.Engine.Workers.Advance.{
  steps_left, result_of, DecidedFrom, Follows, Advanced, advance-Advanced,
}

-- The call has returned.
abbrev pub is_finished : Place → Bool
is_finished (finished result) = true
is_finished _ = false

-- What the result of a call, where it has one, says of the blacklist's signal, where there is one.
abbrev pub Reported : Option Signal → Option IdsResult → Type 0
Reported none o = Unit
Reported (some s) none = Unit
Reported (some s) (some result) = Reports s result

module _ (externals : Externals)
    (to_json : Baseline.BaselineState externals.decimals → Option Str) where
  open externals use {bloom, crate, decimals, to_lowercase}

  abbrev E : Type 0
  E = IdsEngine externals

  abbrev P : Type 0
  P = Pool externals

  abbrev own : ℕ → Move → ℕ
  own i (works_on j clock) = if j == i then 1 else 0
  own i _ = 0

  -- The steps that a schedule gives to one call.
  abbrev pub steps_of : ℕ → List Move → ℕ
  steps_of i [] = 0
  steps_of i (m ∷ ms) = own i m + steps_of i ms

  -- How one call stands after moves of the pool.
  Follow : ℕ → Report → ℕ → P → Type 0
  Follow i start left p =
      (p.engine.payload_scanner ≡ Payload.new crate)
      × (w : Work) × (get_elem? p.works i ≡ some w)
      × Follows start w
      × (steps_left w.place ≤ left)

  work_on-Follow :
      (i j : ℕ) (start : Report) (left : ℕ) (clock : Clock) (p : P) (o : Option Work)
      → get_elem? p.works j ≡ o
      → Follow i start left p
      → Ensures (Follow i start (left - own i (works_on j clock))) (work_on externals clock j p o)
  unfolding Follow
  work_on-Follow i j start left clock p none e (scanner, w, at, f, fewer) = elim (ℕ_discrete j i) [
    | yes s ↦ absurd (cc (at, e, s))
    | no n ↦ (scanner, w, at, f, ground arith)
  ]
  work_on-Follow i j start left clock p (some v) e (scanner, w, at, f, fewer) =
      Ensures-bind (Follow i start (left - own i (works_on j clock)))
        (Advanced externals p.engine v) (advance externals clock p.engine v) _
        (advance-Advanced externals clock p.engine v scanner)
        λ (v', e') a. elim (ℕ_discrete j i) [
          | yes s ↦
              let same : w ≡ v = some-injective _ _ (sym at ∙ ap (get_elem? p.works) (sym s) ∙ e) in
              let fewer' = subst (λ u. steps_left u.place ≤ left) same fewer in
              let step = a.fewer in
              (
                a.scanner ∙ scanner,
                v',
                ap (get_elem? (set p.works j v')) (sym s) ∙ get_elem?-set_same p.works j v' v e,
                a.follows start (subst (Follows start) same f),
                ground arith,
              )
          | no n ↦
              (a.scanner ∙ scanner, w, get_elem?-set_other p.works i j v' n ∙ at, f, ground arith)
        ]

  -- Where the call takes no step.
  Follow-rest :
      (i : ℕ) (start : Report) (left : ℕ) (p : P)
      → Follow i start left p
      → Follow i start (left - 0) p
  Follow-rest i start left p h = subst (λ k. Follow i start k p) (omega arith) h

  move-Follow :
      (i : ℕ) (start : Report) (left : ℕ) (p : P) (m : Move)
      → Follow i start left p
      → Ensures (Follow i start (left - own i m)) (move externals to_json p m)
  unfolding Follow move
  move-Follow i start left p (works_on j clock) h =
      work_on-Follow i j start left clock p (get_elem? p.works j) refl h
  move-Follow i start left p (sweeps_ports now) h = Follow-rest i start left p h
  move-Follow i start left p (sweeps_flows flows counters) h = Follow-rest i start left p h
  move-Follow i start left p (sweeps_buckets buckets) h = Follow-rest i start left p h
  move-Follow i start left p (ticks_phase checked ended) h = Follow-rest i start left p h

  run_moves-Follow :
      (i : ℕ) (start : Report) (ms : List Move) (left : ℕ) (p : P)
      → Follow i start left p
      → Ensures (Follow i start (left - steps_of i ms)) (run_moves externals to_json p ms)
  unfolding run_moves
  run_moves-Follow i start [] left p h = Follow-rest i start left p h
  run_moves-Follow i start (m ∷ ms) left p h =
      Ensures-bind (Follow i start (left - steps_of i (m ∷ ms))) (Follow i start (left - own i m))
        (move externals to_json p m) _ (move-Follow i start left p m h)
        λ p' h'.
          subst (λ k. Ensures (Follow i start k) (run_moves externals to_json p' ms)) (omega arith)
            (run_moves-Follow i start ms (left - own i m) p' h')

  begin_all-Follow :
      (e : E) (ps : List (RawPacket × TransportMeta)) (i : ℕ) (pkt : RawPacket) (tm : TransportMeta)
      → get_elem? ps i ≡ some (pkt, tm)
      → get_elem? (begin_all externals e ps) i ≡ some (begin externals e pkt tm)
  begin_all-Follow e [] i pkt tm h = absurd (cc h)
  begin_all-Follow e (p ∷ ps) zero pkt tm h =
      ap (λ q. some (begin externals e q.0 q.1)) (some-injective _ _ h)
  begin_all-Follow e (p ∷ ps) (suc i) pkt tm h = begin_all-Follow e ps i pkt tm h

  -- A call with no step left has returned.
  is_finished-of_steps :
      (k : ℕ) (p : Place) → steps_left p ≤ 14 - k → (ltb k 14 || is_finished p) ≡ true
  is_finished-of_steps k (finished result) h = ground arith
  is_finished-of_steps k rates h = ground arith
  is_finished-of_steps k ports h = ground arith
  is_finished-of_steps k handshakes h = ground arith
  is_finished-of_steps k countries h = ground arith
  is_finished-of_steps k payloads h = ground arith
  is_finished-of_steps k names h = ground arith
  is_finished-of_steps k unusual h = ground arith
  is_finished-of_steps k decides h = ground arith
  is_finished-of_steps k (observing os result) h = ground arith

  decided-Reported :
      (e : E) (tm : TransportMeta) (o : Option Signal) (d : Option IdsResult)
      → Blacklist.check_ip bloom to_lowercase e.blacklist tm.src_ip ≡ o
      → DecidedFrom (check_addresses externals e tm empty_report) d
      → Reported o d
  decided-Reported e tm none d h f = tt
  decided-Reported e tm (some s) none h f = tt
  decided-Reported e tm (some s) (some result) h (r, x, same) =
      subst (Reports s) (sym same)
        (first-Reports s r (Extends-trans _ _ r (source_report externals e tm s h) x))

  -- The calls on packets, before their first step.
  abbrev pub started :
      Baseline.Baseline decimals
      → Blacklist.Blacklist bloom to_lowercase
      → List (RawPacket × TransportMeta)
      → P
  started baseline blacklist ps =
      let e = new externals baseline blacklist in
      record { engine = e; works = begin_all externals e ps }

  -- Calls of `analyze` on packets with headers share an engine that `new` made with any baseline and
  -- any blacklist. Whatever order the steps of the calls and of the sweeper come in, with whatever clock
  -- readings, none of them panics, and a call that gets fourteen steps or more has returned by then.
  -- Where the blacklist flags a call's source address and the call has decided on its result, the result
  -- has flag 7, has the blacklist's signal among its signals, and has a total no lower than the signal's
  -- score, up to the cap of 100.
  pub run_moves-finishes :
      (baseline : Baseline.Baseline decimals) (blacklist : Blacklist.Blacklist bloom to_lowercase)
      (ps : List (RawPacket × TransportMeta)) (ms : List Move) (i : ℕ) (pkt : RawPacket)
      (tm : TransportMeta)
      → get_elem? ps i ≡ some (pkt, tm)
      → (p : P) × (w : Work) × (run_moves externals to_json (started baseline blacklist ps) ms
          ≡ done p)
        × (get_elem? p.works i ≡ some w)
        × ((ltb (steps_of i ms) 14 || is_finished w.place) ≡ true)
        × Reported (Blacklist.check_ip bloom to_lowercase blacklist tm.src_ip) (result_of w.place)
  unfolding Follow new begin
  run_moves-finishes baseline blacklist ps ms i pkt tm at =
      let e = new externals baseline blacklist in
      let start = check_addresses externals e tm empty_report in
      let (p, returned, (_, w, at', f, fewer)) =
        Ensures-done (Follow i start (14 - steps_of i ms)) _ (
          run_moves-Follow i start ms 14 (started baseline blacklist ps) (
            refl,
            begin externals e pkt tm,
            begin_all-Follow e ps i pkt tm at,
            (Extends-refl start, tt),
            omega arith,
          )) in
      (
        p,
        w,
        returned,
        at',
        is_finished-of_steps (steps_of i ms) w.place fewer,
        decided-Reported e tm _ (result_of w.place) refl f.1,
      )
