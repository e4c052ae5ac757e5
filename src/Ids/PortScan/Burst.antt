-- ===== src/Ids/PortScan/Burst.antt =====
-- Horizontal scans: what a source triggers does not depend on the other sources, and a burst inside
-- one window is counted exactly.
use ocellus_network_monitor.Prelude.{
  ℕ, suc, ◌-◌, ◌≤◌, ◌<◌, ◌≡◌, ◌≢◌, ◌↔◌, refl, sym, ap, ◌∙◌, some, List, [], ◌∷◌, ◌++◌, length,
  retain, any, All, All-append, map, ◌==◌, if◌then◌else◌, ite, arith, Bool-cases, inl, inr, lt→ltb,
}
use ocellus_network_monitor.Prelude.Map.{lookup, lookup-insert}
use ocellus_network_monitor.Packet.{IpAddr, IpAddr-discrete}
use ocellus_network_monitor.Ids.PortScan.{
  secs, Entry, SlidingSet, set_new, is_fresh, has_value, set_insert, PortScanDetector, new, or_new,
  horizontal_signal, vertical_signal, count_ports, count_srcs, inspect,
}
use ocellus_network_monitor.Ids.PortScan.Window.{insert_all}

-- The values in the order of their first sighting.
abbrev pub see : List ℕ → ℕ → List ℕ
see seen v = if any (λ w. w == v) seen then seen else seen ++ (v ∷ [])

unfoldable pub distinct_from : List ℕ → List ℕ → List ℕ
distinct_from seen [] = seen
distinct_from seen (v ∷ vs) = distinct_from (see seen v) vs

abbrev pub distinct : List ℕ → List ℕ
distinct = distinct_from []

abbrev pub values : List Entry → List ℕ
values = map (λ e. e.0)

-- Times from `first` to `last`.
abbrev pub Between : ℕ → ℕ → List Entry → Type 0
Between first last = All (λ e. (first ≤ e.1) × (e.1 ≤ last))

length-values : (es : List Entry) → length (values es) ≡ length es
length-values [] = refl
length-values (e ∷ es) = ap suc (length-values es)

module _ (first last window : ℕ) (short : last - first < window) where
  retain_all :
      (now : ℕ) (es : List Entry)
      → now ≤ last
      → Between first last es
      → retain (is_fresh now window) es ≡ es
  retain_all now [] h b = refl
  retain_all now (e ∷ es) h b =
      let fresh : now - e.1 < window = omega (arith, b.0) in
      rw (lt→ltb (now - e.1) window fresh) (ap (◌∷◌ e) (retain_all now es h b.1))

  has_value-any : (v : ℕ) (es : List Entry) → has_value v es ≡ any (λ w. w == v) (values es)
  has_value-any v [] = refl
  has_value-any v (e ∷ es) = ground (arith, has_value-any v es)

  values-append : (xs ys : List Entry) → values (xs ++ ys) ≡ values xs ++ values ys
  values-append [] ys = refl
  values-append (x ∷ xs) ys = ap (◌∷◌ x.0) (values-append xs ys)

  insert-see :
      (s : SlidingSet) (v now : ℕ)
      → s.window ≡ window
      → first ≤ now
      → now ≤ last
      → Between first last s.entries
      → let s' = (set_insert now s v).1 in
        (values s'.entries ≡ see (values s.entries) v)
        × Between first last s'.entries
        × (s'.window ≡ window)
  unfolding set_insert
  insert-see s v now w lo hi b = elim (Bool-cases (has_value v s.entries)) [
    | inl old ↦
        rw (w, retain_all now s.entries hi b, old)
          (rw (sym (has_value-any v s.entries) ∙ old) refl, b, refl)
    | inr fresh ↦
        rw (w, retain_all now s.entries hi b, fresh)
          (
            rw (sym (has_value-any v s.entries) ∙ fresh) (values-append s.entries ((v, now) ∷ [])),
            All-append (λ e. (first ≤ e.1) × (e.1 ≤ last)) s.entries ((v, now) ∷ []) b
                ((lo, hi), tt),
            refl,
          )
  ]

  -- Insertions inside one window keep the distinct values, in the order of their first sighting.
  insert_all-distinct :
      (es : List Entry) (s : SlidingSet)
      → s.window ≡ window
      → Between first last s.entries
      → Between first last es
      → (values (insert_all s es).entries ≡ distinct_from (values s.entries) (values es))
        × Between first last (insert_all s es).entries
        × ((insert_all s es).window ≡ window)
  unfolding insert_all distinct_from
  insert_all-distinct [] s w b bs = (refl, b, w)
  insert_all-distinct ((v, now) ∷ es) s w b bs =
      let (e, b', w') = insert-see s v now w bs.0.0 bs.0.1 b in
      let (rest, b'', w'') = insert_all-distinct es (set_insert now s v).1 w' b' bs.1 in
      (rest ∙ ap (λ l. distinct_from l (values es)) e, b'', w'')

-- A packet as the detector sees it, with the two readings of the clock.
pub record Probe : Type 0 where
  pub src : IpAddr
  pub port : ℕ
  pub now : ℕ
  pub later : ℕ

module _ (hash : IpAddr → ℕ) where
  abbrev pub observe : PortScanDetector → Probe → PortScanDetector
  observe d p = (inspect hash p.now p.later d p.src p.port).1

  pub observe_all : PortScanDetector → List Probe → PortScanDetector
  observe_all d [] = d
  observe_all d (p ∷ ps) = observe_all (observe d p) ps

  -- The insertions of one source.
  unfoldable pub probes_of : IpAddr → List Probe → List Entry
  probes_of src [] = []
  probes_of src (p ∷ ps) =
      let rest = probes_of src ps in ite (IpAddr-discrete p.src src) ((p.port, p.now) ∷ rest) rest

  abbrev pub tracked : IpAddr → PortScanDetector → SlidingSet
  tracked src d = or_new d.window (lookup IpAddr-discrete src d.ports_per_src)

  observe-tracked :
      (src : IpAddr) (d : PortScanDetector) (p : Probe)
      → tracked src (observe d p)
        ≡ ite
            (IpAddr-discrete p.src src)
            (set_insert p.now (tracked src d) p.port).1
            (tracked src d)
  unfolding inspect count_ports count_srcs
  observe-tracked src d p = elim (IpAddr-discrete p.src src) [
    | yes same ↦ ground (
      arith,
      lookup-insert IpAddr-discrete p.src src (set_insert p.now (tracked p.src d) p.port).1
          d.ports_per_src,
    )
    | no other ↦ ground (
      arith,
      lookup-insert IpAddr-discrete p.src src (set_insert p.now (tracked p.src d) p.port).1
          d.ports_per_src,
    )
  ]

  -- Whatever the interleaving, the set of a source is that of its own packets.
  observe_all-tracked :
      (src : IpAddr) (ps : List Probe) (d : PortScanDetector)
      → tracked src (observe_all d ps) ≡ insert_all (tracked src d) (probes_of src ps)
  unfolding observe_all probes_of insert_all
  observe_all-tracked src [] d = refl
  observe_all-tracked src (p ∷ ps) d =
      ground (arith, observe_all-tracked src ps (observe d p), observe-tracked src d p)

  -- The settings never change.
  observe_all-thresholds :
      (ps : List Probe) (d : PortScanDetector)
      → ((observe_all d ps).window ≡ d.window)
        × ((observe_all d ps).port_threshold ≡ d.port_threshold)
  unfolding observe_all
  observe_all-thresholds [] d = (refl, refl)
  observe_all-thresholds (p ∷ ps) d =
      let (w, t) = observe_all-thresholds ps (observe d p) in
      let (w', t') = step d p in (w ∙ w', t ∙ t')
    where
      step :
          (e : PortScanDetector) (q : Probe)
          → ((observe e q).window ≡ e.window) × ((observe e q).port_threshold ≡ e.port_threshold)
      step e q = unfold inspect count_ports count_srcs in ground arith

  horizontal-ne-vertical : horizontal_signal ≢ vertical_signal
  horizontal-ne-vertical e = cc

  inspect-horizontal :
      (now later : ℕ) (d : PortScanDetector) (src : IpAddr) (port : ℕ)
      → ((inspect hash now later d src port).0 ≡ some horizontal_signal)
        ↔ (d.port_threshold ≤ (set_insert now (tracked src d) port).0)
  unfolding inspect count_ports count_srcs
  inspect-horizontal now later d src port =
      (λ e. ground (arith, horizontal-ne-vertical), λ h. ground arith)

  -- A new detector, and any interleaving of packets of all sources, in which those of one source
  -- lie inside one window of 60 s: its next packet inside the window raises the horizontal signal
  -- exactly when it brings the number of distinct ports that the source has contacted to 20.
  pub burst_horizontal :
      (ps : List Probe) (src : IpAddr) (port now later first last : ℕ)
      → last - first < secs 60
      → first ≤ now
      → now ≤ last
      → Between first last (probes_of src ps)
      → ((inspect hash now later (observe_all new ps) src port).0 ≡ some horizontal_signal)
        ↔ (20 ≤ length (see (distinct (values (probes_of src ps))) port))
  burst_horizontal ps src port now later first last short lo hi inside =
      let d = observe_all new ps in
      let own = probes_of src ps in
      let set = insert_all (set_new (secs 60)) own in
      let same : tracked src d ≡ set = observe_all-tracked src ps new ∙ start own in
      let (_, limit) = observe_all-thresholds ps new in
      let (seen, b, w) =
        insert_all-distinct first last (secs 60) short own (set_new (secs 60)) refl tt inside in
      let (last_seen, _, _) = insert-see first last (secs 60) short set port now w lo hi b in
      let count : (set_insert now (tracked src d) port).0
          ≡ length (see (distinct (values own)) port) =
        ap (λ t. (set_insert now t port).0) same
        ∙ count-values set
        ∙ ap length (last_seen ∙ ap (λ l. see l port) seen) in
      let (to, from) = inspect-horizontal now later d src port in
      (
        λ e. omega (arith, to e, count, limit, threshold),
        λ h. from (omega (arith, count, limit, threshold)),
      )
    where
      start :
          (es : List Entry) → insert_all (tracked src new) es ≡ insert_all (set_new (secs 60)) es
      start es = unfold new lookup in refl

      threshold : new.port_threshold ≡ 20
      threshold = unfold new in refl

      count-values :
          (s : SlidingSet)
          → (set_insert now s port).0 ≡ length (values (set_insert now s port).1.entries)
      count-values s = unfold set_insert in sym (length-values _)
