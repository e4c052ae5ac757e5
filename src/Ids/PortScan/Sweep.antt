-- ===== src/Ids/PortScan/Sweep.antt =====
-- The sweeper frees memory and changes no later answer.
use ocellus_network_monitor.Prelude.{
  leb, ℕ, ◌≤◌, ◌≡◌, refl, sym, ap, ap₂, ◌∙◌, Bool, true, false, Option, none, some, List, [], ◌∷◌,
  retain, if◌then◌else◌, ℕ_discrete, arith, ◌⊎◌, inl, inr, Option-cases,
}
use ocellus_network_monitor.Prelude.Map.{
  lookup, insert, retain_map, Distinct, lookup-insert, insert-Distinct, retain_map-Distinct,
  lookup-retain_map,
}
use ocellus_network_monitor.Packet.{IpAddr, IpAddr-discrete}
use ocellus_network_monitor.Ids.Score.{Signal}
use ocellus_network_monitor.Ids.PortScan.{
  Entry, SlidingSet, is_fresh, set_insert, PortScanDetector, new, or_new, count_ports, count_srcs,
  ip_hash, inspect, horizontal_signal, vertical_signal, sweep_set, sweep,
}

retain-retain :
    (t now w : ℕ) (es : List Entry)
    → t ≤ now
    → retain (is_fresh now w) (retain (is_fresh t w) es) ≡ retain (is_fresh now w) es
retain-retain t now w [] h = refl
retain-retain t now w (e ∷ es) h = ground (arith, retain-retain t now w es h)

-- A table: its keys are distinct and its sets have one window.
pub record IsTable {K : Type 0} (dec : Discrete K) (w : ℕ) (m : List (K × SlidingSet))
    : Type 0 where
  pub keys : Distinct dec m
  pub windows : (k : K) (s : SlidingSet) → lookup dec k m ≡ some s → s.window ≡ w

module _ {K : Type 0} (dec : Discrete K) (w : ℕ) where
  insert-IsTable :
      (k : K) (s : SlidingSet) (m : List (K × SlidingSet))
      → s.window ≡ w
      → IsTable dec w m
      → IsTable dec w (insert dec k s m)
  insert-IsTable k s m e v = record {
    keys = insert-Distinct dec k s m v.keys;
    windows = λ j t h. ground (arith, lookup-insert dec k j s m, v.windows j t);
  }

  or_new-window :
      (k : K) (m : List (K × SlidingSet)) → IsTable dec w m → (or_new w (lookup dec k m)).window ≡ w
  or_new-window k m v = elim (Option-cases (lookup dec k m)) [
    | inl e ↦ rw e refl
    | inr (s, e) ↦ rw e (v.windows k s e)
  ]

  sweep_set-window : (t : ℕ) (s s' : SlidingSet) → sweep_set t s ≡ some s' → s'.window ≡ s.window
  unfolding sweep_set
  sweep_set-window t s s' h = ground arith

  sweep-IsTable :
      (t : ℕ) (m : List (K × SlidingSet))
      → IsTable dec w m
      → IsTable dec w (retain_map dec (λ _. sweep_set t) m)
  sweep-IsTable t m v = record {
    keys = retain_map-Distinct dec (λ _. sweep_set t) m v.keys;
    windows = λ k s h. from k s (sym (lookup-retain_map dec (λ _. sweep_set t) k m v.keys) ∙ h);
  }
    where
      from :
          (k : K) (s : SlidingSet)
          → ◌≡◌ {A = Option SlidingSet}
              (elim (lookup dec k m) [ none ↦ none | some v ↦ sweep_set t v ])
              (some s)
          → s.window ≡ w
      from k s h = elim (Option-cases (lookup dec k m)) [
        | inl e ↦ ground arith
        | inr (s₀, e) ↦ ground (arith, sweep_set-window t s₀ s, v.windows k s₀ e)
      ]

  -- A swept set answers the next insertion as the set itself, or a new one in its place.
  set_insert-sweep :
      (t now : ℕ) (s : SlidingSet) (val : ℕ)
      → t ≤ now
      → s.window ≡ w
      → set_insert now (or_new w (sweep_set t s)) val ≡ set_insert now s val
  unfolding set_insert sweep_set
  set_insert-sweep t now s val h e = ground (arith, retain-retain t now s.window s.entries h)

  insert-sweep :
      (t now : ℕ) (k : K) (m : List (K × SlidingSet)) (val : ℕ)
      → t ≤ now
      → IsTable dec w m
      → set_insert now (or_new w (lookup dec k (retain_map dec (λ _. sweep_set t) m))) val
        ≡ set_insert now (or_new w (lookup dec k m)) val
  insert-sweep t now k m val h v =
      rw (lookup-retain_map dec (λ _. sweep_set t) k m v.keys)
        (cases (Option-cases (lookup dec k m)))
    where
      cases :
          (lookup dec k m ≡ none) ⊎ ((s : SlidingSet) × (lookup dec k m ≡ some s))
          → set_insert now
              (or_new w (elim (lookup dec k m) [ none ↦ none | some v ↦ sweep_set t v ]))
              val
            ≡ set_insert now (or_new w (lookup dec k m)) val
      cases (inl e) = rw e refl
      cases (inr (s, e)) = rw e (set_insert-sweep t now s val h (v.windows k s e))

pub record IsValid (d : PortScanDetector) : Type 0 where
  pub ports : IsTable IpAddr-discrete d.window d.ports_per_src
  pub srcs : IsTable ℕ_discrete d.window d.srcs_per_port

new-IsValid : IsValid new
unfolding new lookup
new-IsValid = record {
  ports = record { keys = tt; windows = λ k s h. cc };
  srcs = record { keys = tt; windows = λ k s h. cc };
}

set_insert-window : (now : ℕ) (s : SlidingSet) (v : ℕ) → (set_insert now s v).1.window ≡ s.window
unfolding set_insert
set_insert-window now s v = refl

-- A call of the detector: a packet, or a tick of the sweeper.
pub data Call : Type 0 where
  probe : IpAddr → ℕ → ℕ → ℕ → Call
  tick : ℕ → Call

module _ (hash : IpAddr → ℕ) where
  pub apply : PortScanDetector → Call → PortScanDetector
  apply d (probe src port now later) = (inspect hash now later d src port).1
  apply d (tick t) = sweep t d

  pub apply_all : PortScanDetector → List Call → PortScanDetector
  apply_all d [] = d
  apply_all d (c ∷ cs) = apply_all (apply d c) cs

  count_ports-IsValid :
      (now : ℕ) (d : PortScanDetector) (src : IpAddr) (port : ℕ)
      → IsValid d
      → IsValid (count_ports now d src port).1
  unfolding count_ports
  count_ports-IsValid now d src port v =
      let s = or_new d.window (lookup IpAddr-discrete src d.ports_per_src) in
      record {
        ports =
            insert-IsTable IpAddr-discrete d.window src (set_insert now s port).1 d.ports_per_src
              (set_insert-window now s port
                ∙ or_new-window IpAddr-discrete d.window src d.ports_per_src v.ports)
              v.ports;
        srcs = v.srcs;
      }

  count_srcs-IsValid :
      (now : ℕ) (d : PortScanDetector) (src : IpAddr) (port : ℕ)
      → IsValid d
      → IsValid (count_srcs hash now d src port).1
  unfolding count_srcs
  count_srcs-IsValid now d src port v =
      let s = or_new d.window (lookup ℕ_discrete port d.srcs_per_port) in
      record {
        ports = v.ports;
        srcs =
            insert-IsTable ℕ_discrete d.window port (set_insert now s (ip_hash hash src)).1
              d.srcs_per_port
              (set_insert-window now s (ip_hash hash src)
                ∙ or_new-window ℕ_discrete d.window port d.srcs_per_port v.srcs)
              v.srcs;
      }

  if_IsValid :
      (b : Bool) (x y : Option Signal × PortScanDetector)
      → IsValid x.1
      → IsValid y.1
      → IsValid (if b then x else y).1
  if_IsValid true x y p q = p
  if_IsValid false x y p q = q

  inspect-IsValid :
      (now later : ℕ) (d : PortScanDetector) (src : IpAddr) (port : ℕ)
      → IsValid d
      → IsValid (inspect hash now later d src port).1
  inspect-IsValid now later d src port v =
      let d' = (count_ports now d src port).1 in
      let v' = count_ports-IsValid now d src port v in
      let v'' = count_srcs-IsValid later d' src port v' in
      unfold inspect in
      if_IsValid (leb d.port_threshold (count_ports now d src port).0) _ _ v'
        (if_IsValid (leb d.src_threshold (count_srcs hash later d' src port).0) _ _ v'' v'')

  sweep-IsValid : (t : ℕ) (d : PortScanDetector) → IsValid d → IsValid (sweep t d)
  unfolding sweep
  sweep-IsValid t d v = record {
    ports = sweep-IsTable IpAddr-discrete d.window t d.ports_per_src v.ports;
    srcs = sweep-IsTable ℕ_discrete d.window t d.srcs_per_port v.srcs;
  }

  apply_all-IsValid : (cs : List Call) (d : PortScanDetector) → IsValid d → IsValid (apply_all d cs)
  unfolding apply_all apply
  apply_all-IsValid [] d v = v
  apply_all-IsValid (probe src port now later ∷ cs) d v =
      apply_all-IsValid cs (inspect hash now later d src port).1
        (inspect-IsValid now later d src port v)
  apply_all-IsValid (tick t ∷ cs) d v = apply_all-IsValid cs (sweep t d) (sweep-IsValid t d v)

  -- The answer, from the two counts.
  abbrev choice : PortScanDetector → ℕ → ℕ → Option Signal
  choice d p q =
      if leb d.port_threshold p
      then some horizontal_signal
      else if leb d.src_threshold q
      then some vertical_signal
      else none

  inspect-choice :
      (now later : ℕ) (d : PortScanDetector) (src : IpAddr) (port : ℕ)
      → (inspect hash now later d src port).0
        ≡ choice d
            (set_insert now (or_new d.window (lookup IpAddr-discrete src d.ports_per_src)) port).0
            (set_insert later
              (or_new d.window (lookup ℕ_discrete port d.srcs_per_port))
              (ip_hash hash src)).0
  unfolding inspect count_ports count_srcs
  inspect-choice now later d src port =
      pick
        (leb d.port_threshold
          (set_insert now (or_new d.window (lookup IpAddr-discrete src d.ports_per_src)) port).0)
        (leb d.src_threshold
          (set_insert later (or_new d.window (lookup ℕ_discrete port d.srcs_per_port))
            (ip_hash hash src)).0)
        _ _ _ _ _ _
    where
      pick :
          (a b : Bool) (x y z : Option Signal) (d₁ d₂ d₃ : PortScanDetector)
          → (let t : Option Signal × PortScanDetector =
                if a then (x, d₁) else (if b then (y, d₂) else (z, d₃)) in
              t).0
            ≡ (if a then x else if b then y else z)
      pick true b x y z d₁ d₂ d₃ = refl
      pick false true x y z d₁ d₂ d₃ = refl
      pick false false x y z d₁ d₂ d₃ = refl

  inspect-sweep_of_IsValid :
      (t now later : ℕ) (d : PortScanDetector) (src : IpAddr) (port : ℕ)
      → t ≤ now
      → t ≤ later
      → IsValid d
      → (inspect hash now later (sweep t d) src port).0 ≡ (inspect hash now later d src port).0
  inspect-sweep_of_IsValid t now later d src port h k v =
      inspect-choice now later (sweep t d) src port
      ∙ swept
      ∙ sym (inspect-choice now later d src port)
    where
      swept :
          choice
            (sweep t d)
            (set_insert now
              (or_new (sweep t d).window (lookup IpAddr-discrete src (sweep t d).ports_per_src))
              port).0
            (set_insert later
              (or_new (sweep t d).window (lookup ℕ_discrete port (sweep t d).srcs_per_port))
              (ip_hash hash src)).0
          ≡ choice d
              (set_insert now (or_new d.window (lookup IpAddr-discrete src d.ports_per_src)) port).0
              (set_insert later
                (or_new d.window (lookup ℕ_discrete port d.srcs_per_port))
                (ip_hash hash src)).0
      swept =
          unfold sweep in
          ap₂ (λ p q. choice d p q)
            (ap (λ r. r.0)
              (insert-sweep IpAddr-discrete d.window t now src d.ports_per_src port h v.ports))
            (ap (λ r. r.0)
              (insert-sweep ℕ_discrete d.window t later port d.srcs_per_port (ip_hash hash src) k
                v.srcs))

  -- After any packets and ticks on a new detector, one more tick changes the answer to no packet
  -- that is inspected later than the tick.
  pub inspect-sweep :
      (cs : List Call) (t now later : ℕ) (src : IpAddr) (port : ℕ)
      → t ≤ now
      → t ≤ later
      → let d = apply_all new cs in
        (inspect hash now later (sweep t d) src port).0 ≡ (inspect hash now later d src port).0
  inspect-sweep cs t now later src port h k =
      inspect-sweep_of_IsValid t now later (apply_all new cs) src port h k
        (apply_all-IsValid cs new new-IsValid)
