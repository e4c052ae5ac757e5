-- ===== src/Ids/SynFlood/Flood.antt =====
-- The SYN and ACK counters of one window.
use native.Mathlib.Nat.{add-zero, zero-add, add_assoc}
use ocellus_network_monitor.Prelude.{
  ap₂, sym, ℕ, ◌+◌, ◌-◌, ◌*◌, ◌%◌, ◌^◌, ◌≤◌, ◌<◌, ◌≡◌, ◌↔◌, refl, ◌∙◌, Bool, true, ◌||◌, Option,
  none, some, List, [], ◌∷◌, ite, if◌then◌else◌, arith, All, ap, lt→ltb,
}
use ocellus_network_monitor.Prelude.Map.{lookup, lookup-insert}
use ocellus_network_monitor.Packet.{IpAddr, IpAddr-discrete}
use ocellus_network_monitor.Ids.SynFlood.{
  secs, PerIpCounters, SynFloodDetector, new, Readings, flag_is_syn, flag_is_ack, flag_is_syn_ack,
  to_f32, syn_ack_ratio, bump, is_flood, inspect, maybe_reset, count_ack, count_syn,
}

-- A packet as the detector sees it.
pub record Segment : Type 0 where
  pub readings : Readings
  pub src : IpAddr
  pub dst : IpAddr
  pub src_port : ℕ
  pub dst_port : ℕ
  pub flags : ℕ

abbrev observe : SynFloodDetector → Segment → SynFloodDetector
observe d p = (inspect p.readings d p.src p.dst p.src_port p.dst_port p.flags).1

pub observe_all : SynFloodDetector → List Segment → SynFloodDetector
observe_all d [] = d
observe_all d (p ∷ ps) = observe_all (observe d p) ps

-- The segments of one source.
unfoldable pub segments_of : IpAddr → List Segment → List Segment
segments_of src [] = []
segments_of src (p ∷ ps) =
    let rest = segments_of src ps in ite (IpAddr-discrete p.src src) (p ∷ rest) rest

pub bump_all : Option PerIpCounters → List Segment → Option PerIpCounters
bump_all o [] = o
bump_all o (p ∷ ps) = bump_all (some (bump p.readings o p.flags)) ps

-- Whatever the interleaving, the counters of a source are those of its own segments.
observe_all-lookup :
    (src : IpAddr) (ps : List Segment) (d : SynFloodDetector)
    → lookup IpAddr-discrete src (observe_all d ps).counters
      ≡ bump_all (lookup IpAddr-discrete src d.counters) (segments_of src ps)
unfolding observe_all segments_of bump_all inspect
observe_all-lookup src [] d = refl
observe_all-lookup src (p ∷ ps) d = ground (
  arith,
  observe_all-lookup src ps (observe d p),
  lookup-insert IpAddr-discrete p.src src
      (bump p.readings (lookup IpAddr-discrete p.src d.counters) p.flags) d.counters,
)

unfoldable pub count_of : (ℕ → Bool) → List Segment → ℕ
count_of test [] = 0
count_of test (p ∷ ps) = (if test p.flags then 1 else 0) + count_of test ps

abbrev pub acknowledges : ℕ → Bool
acknowledges flags = flag_is_ack flags || flag_is_syn_ack flags

-- The segment is checked less than 10 s after the window's start.
abbrev pub InWindow : ℕ → Segment → Type 0
InWindow start p = p.readings.checked - start < secs 10

abbrev window_at : ℕ → ℕ → ℕ → PerIpCounters
window_at start syns acks = record {
  syns = syns % 2 ^ 64;
  acks = acks % 2 ^ 64;
  last_reset = start;
  window = secs 10;
}

bump-window :
    (t : Readings) (start syns acks flags : ℕ)
    → t.checked - start < secs 10
    → bump t (some (window_at start syns acks)) flags
      ≡ window_at start
          (syns + (if flag_is_syn flags then 1 else 0))
          (acks + (if acknowledges flags then 1 else 0))
unfolding bump
bump-window t start syns acks flags h = count (flag_is_syn flags) (acknowledges flags)
  where
    count :
        (a b : Bool)
        → count_ack b (count_syn a (maybe_reset t.checked t.restarted (window_at start syns acks)))
          ≡ window_at start (syns + (if a then 1 else 0)) (acks + (if b then 1 else 0))
    count a b = ground arith

bump_all-window :
    (start syns acks : ℕ) (ps : List Segment)
    → All (InWindow start) ps
    → bump_all (some (window_at start syns acks)) ps
      ≡ some (window_at start (syns + count_of flag_is_syn ps) (acks + count_of acknowledges ps))
unfolding bump_all count_of
bump_all-window start syns acks [] h =
    ap₂ (λ a b. some (window_at start a b)) (sym (add-zero syns)) (sym (add-zero acks))
bump_all-window start syns acks (p ∷ ps) h =
    let a = if flag_is_syn p.flags then 1 else 0 in
    let b = if acknowledges p.flags then 1 else 0 in
    ap (λ c. bump_all (some c) ps) (bump-window p.readings start syns acks p.flags h.0)
    ∙ bump_all-window start (syns + a) (acks + b) ps h.1
    ∙ ap₂ (λ x y. some (window_at start x y)) (add_assoc syns a (count_of flag_is_syn ps))
        (add_assoc acks b (count_of acknowledges ps))

-- The counters that a source's first segment creates.
bump-new :
    (t : Readings) (flags : ℕ) → bump t none flags ≡ bump t (some (window_at t.created 0 0)) flags
unfolding bump
bump-new t flags = refl

bump_all-new :
    (p : Segment) (ps : List Segment)
    → All (InWindow p.readings.created) (p ∷ ps)
    → bump_all none (p ∷ ps)
      ≡ some (
          window_at p.readings.created
            (count_of flag_is_syn (p ∷ ps))
            (count_of acknowledges (p ∷ ps)))
unfolding bump_all
bump_all-new p ps h =
    ap (λ c. bump_all (some c) ps) (bump-new p.readings p.flags)
    ∙ bump_all-window p.readings.created 0 0 (p ∷ ps) h
    ∙ ap₂ (λ x y. some (window_at p.readings.created x y)) (zero-add _) (zero-add _)

to_f32-small : (n : ℕ) → n < 2 ^ 24 → to_f32 n ≡ n
unfolding to_f32
to_f32-small n h = rw (lt→ltb n (2 ^ 24) h) refl

-- The ratio test without the fraction, for counts that leave the rounding no room.
is_flood_iff :
    (c : PerIpCounters)
    → c.syns < 2 ^ 24
    → c.acks < 2 ^ 22
    → (is_flood 5 c ≡ true) ↔ ((50 ≤ c.syns) × (5 * c.acks ≤ c.syns))
unfolding is_flood syn_ack_ratio
is_flood_iff c few_syns few_acks =
    let syns = to_f32-small c.syns few_syns in
    let acks = to_f32-small c.acks (omega arith) in rw (syns, acks) (ground arith)

-- On a new detector, after any interleaving of segments, a source whose segments (at least one) all
-- fall into the first 10 s window, with fewer than 2^24 SYNs and fewer than 2^22 acknowledgements, has
-- counters that pass the flood test, which compares an `f32` quotient, exactly when it sent at least 50
-- SYNs and at least five times as many as acknowledgements.
pub flood_of_window :
    (ps : List Segment) (src : IpAddr) (p : Segment) (own : List Segment)
    → segments_of src ps ≡ p ∷ own
    → All (InWindow p.readings.created) (p ∷ own)
    → count_of flag_is_syn (p ∷ own) < 2 ^ 24
    → count_of acknowledges (p ∷ own) < 2 ^ 22
    → (c : PerIpCounters) × (lookup IpAddr-discrete src (observe_all new ps).counters ≡ some c)
      × ((is_flood 5 c ≡ true) ↔ (
          (50 ≤ count_of flag_is_syn (p ∷ own))
          × (5 * count_of acknowledges (p ∷ own) ≤ count_of flag_is_syn (p ∷ own))))
flood_of_window ps src p own e h few_syns few_acks =
    let syns = count_of flag_is_syn (p ∷ own) in
    let acks = count_of acknowledges (p ∷ own) in
    let c = window_at p.readings.created syns acks in
    let same_syns : c.syns ≡ syns = omega (arith, few_syns) in
    let same_acks : c.acks ≡ acks = omega (arith, few_acks) in
    let (to, from) = is_flood_iff c (omega (arith, few_syns)) (omega (arith, few_acks)) in
    (
      c,
      observe_all-lookup src ps new ∙ start ∙ ap (bump_all none) e ∙ bump_all-new p own h,
      (
        λ flood.
            let (many, ratio) = to flood in
            (omega (arith, many, same_syns), omega (arith, ratio, same_syns, same_acks)),
        λ (many, ratio).
            from (omega (arith, many, same_syns), omega (arith, ratio, same_syns, same_acks)),
      ),
    )
  where
    start :
        bump_all (lookup IpAddr-discrete src new.counters) (segments_of src ps)
        ≡ bump_all none (segments_of src ps)
    start = unfold new lookup in refl
