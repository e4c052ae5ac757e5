-- ===== src/Ids/RateLimit/Conforms.antt =====
-- The token bucket of one source over any run of packets.
use native.Mathlib.Nat.{mul-le-mul_right}
use ocellus_network_monitor.Prelude.{
  ℕ, ◌+◌, ◌-◌, ◌*◌, ◌^◌, ◌≤◌, ◌≡◌, refl, ◌∙◌, ap, tests, le→leb, Bool-cases, inl, inr, Bool, true,
  false, Option, none, some, List, [], ◌∷◌, ite, if◌then◌else◌, arith, leb, ltb, ltb→lt, ◌<◌, min,
  length, All, ◌⊎◌,
}
use ocellus_network_monitor.Prelude.Map.{lookup, insert, lookup-insert}
use ocellus_network_monitor.Packet.{IpAddr, IpAddr-discrete}
use ocellus_network_monitor.Ids.RateLimit.{
  giga, Bucket, bucket_new, refilled, consume, RateLimiter, new, Readings, or_bucket, roll_window,
  count_packet, pass, inspect,
}

-- A packet as the limiter sees it.
pub record Arrival : Type 0 where
  pub readings : Readings
  pub src : IpAddr
  pub pkt_bytes : ℕ
  pub is_syn : Bool

-- What the rounding of `f64` leaves of the sum: below 1000 tokens it gives at most one unit of 10^-9 tokens
-- more than the whole units in the two parts, and it keeps a whole token that either part holds.
pub record Rounds (sum : ℕ → ℕ → ℕ) : Type 0 where
  pub most : (t g : ℕ) → t + g < 1000 * giga → sum t g ≤ t + g + 1
  pub keeps : (t g : ℕ) → giga ≤ t → giga ≤ sum t g
  pub gains : (t g : ℕ) → giga ≤ g → giga ≤ sum t g

abbrev pub Rounded : Arrival → Type 0
Rounded p = Rounds p.readings.sum

abbrev observe : RateLimiter → Arrival → RateLimiter
observe l p = (inspect p.readings l p.src p.pkt_bytes p.is_syn).1

pub observe_all : RateLimiter → List Arrival → RateLimiter
observe_all l [] = l
observe_all l (p ∷ ps) = observe_all (observe l p) ps

-- The packets of one source.
unfoldable pub arrivals_of : IpAddr → List Arrival → List Arrival
arrivals_of src [] = []
arrivals_of src (p ∷ ps) =
    let rest = arrivals_of src ps in ite (IpAddr-discrete p.src src) (p ∷ rest) rest

abbrev pass_one : RateLimiter → Option Bucket → Arrival → Bool × Bucket
pass_one l o p = pass p.readings l o p.pkt_bytes p.is_syn

-- How many of the packets of a source, whose bucket is given, pass the packet rate.
pub passes : RateLimiter → Option Bucket → List Arrival → ℕ
passes l o [] = 0
passes l o (p ∷ ps) = (if (pass_one l o p).0 then 1 else 0) + passes l (some (pass_one l o p).1) ps

-- How many packets of a source pass the packet rate over a run with all sources.
pub passed : IpAddr → RateLimiter → List Arrival → ℕ
passed src l [] = 0
passed src l (p ∷ ps) =
    ite (IpAddr-discrete p.src src)
      (if (pass_one l (lookup IpAddr-discrete p.src l.buckets) p).0 then 1 else 0) 0
    + passed src (observe l p) ps

-- The buckets of the other sources do not matter.
passes-buckets :
    (l : RateLimiter) (bs : List (IpAddr × Bucket)) (o : Option Bucket) (ps : List Arrival)
    → passes (record l { buckets = bs }) o ps ≡ passes l o ps
unfolding passes pass
passes-buckets l bs o [] = refl
passes-buckets l bs o (p ∷ ps) =
    ap (λ n. (if (pass_one l o p).0 then 1 else 0) + n)
      (passes-buckets l bs (some (pass_one l o p).1) ps)

passed-passes :
    (src : IpAddr) (l : RateLimiter) (ps : List Arrival)
    → passed src l ps ≡ passes l (lookup IpAddr-discrete src l.buckets) (arrivals_of src ps)
unfolding passed passes arrivals_of inspect
passed-passes src l [] = refl
passed-passes src l (p ∷ ps) =
    let b = (pass_one l (lookup IpAddr-discrete p.src l.buckets) p).1 in
    let bs = insert IpAddr-discrete p.src b l.buckets in
    ground (
      arith,
      passed-passes src (observe l p) ps,
      passes-buckets l bs (lookup IpAddr-discrete src bs) (arrivals_of src ps),
      lookup-insert IpAddr-discrete p.src src b l.buckets,
    )

-- The readings in `consume` do not go back, from `now` to `last`.
unfoldable pub Ordered : ℕ → List Arrival → ℕ → Type 0
Ordered now [] last = now ≤ last
Ordered now (p ∷ ps) last = (now ≤ p.readings.consumed) × Ordered p.readings.consumed ps last

-- One `consume`: tokens before and the refill pay for tokens after and the packet.
consume-pays :
    (add : ℕ → ℕ → ℕ) (now rate capacity : ℕ) (b : Bucket)
    → Rounds add
    → capacity ≤ 1000
    → b.last_refill ≤ now
    → let r = consume add now rate capacity b in
      ((if r.0 then giga else 0) + r.1.tokens + b.last_refill * rate ≤ b.tokens + now * rate + 1)
      × (r.1.last_refill ≡ now)
unfolding consume
consume-pays add now rate capacity b rounds small h =
    let sum : (now - b.last_refill + b.last_refill) * rate ≡ now * rate =
      ap (λ t. t * rate) (omega arith) in
    let most = capped b.tokens ((now - b.last_refill) * rate) in
    elim (Bool-cases (leb giga (refilled add now rate capacity b))) [
      | inl enough ↦ rw enough (omega (tests, sum, most), refl)
      | inr short ↦ rw short (omega (tests, sum, most), refl)
    ]
  where
    capped : (t g : ℕ) → min (add t g) (capacity * giga) ≤ t + g + 1
    capped t g = elim (Bool-cases (ltb (t + g) (1000 * giga))) [
      | inl below ↦ omega (tests, rounds.most t g (ltb→lt _ _ below))
      | inr above ↦ omega (tests, small)
    ]

-- The bucket before a packet of a source.
abbrev before : RateLimiter → Option Bucket → Arrival → Bucket
before l o p = or_bucket l.capacity p.readings o

pass-pays :
    (l : RateLimiter) (o : Option Bucket) (p : Arrival)
    → Rounded p
    → l.capacity ≤ 1000
    → (before l o p).last_refill ≤ p.readings.consumed
    → ((if (pass_one l o p).0 then giga else 0)
          + (pass_one l o p).1.tokens
          + (before l o p).last_refill * l.pkt_rate
        ≤ (before l o p).tokens + p.readings.consumed * l.pkt_rate + 1)
      × ((pass_one l o p).1.last_refill ≡ p.readings.consumed)
unfolding pass
pass-pays l o p rounds small h =
    let b = before l o p in
    let b' = count_packet p.pkt_bytes p.is_syn (roll_window l.window_ns p.readings b) in
    let (tokens, refill) = same b in
    let (pays, last) =
      consume-pays p.readings.sum p.readings.consumed l.pkt_rate l.capacity b' rounds small
        (omega (arith, refill, h)) in
    (omega (arith, pays, tokens, ap (λ t. t * l.pkt_rate) refill), last)
  where
    same :
        (b : Bucket)
        → let b' = count_packet p.pkt_bytes p.is_syn (roll_window l.window_ns p.readings b) in
          (b'.tokens ≡ b.tokens) × (b'.last_refill ≡ b.last_refill)
    same b = unfold count_packet roll_window in ground arith

if-giga : (b : Bool) → (if b then giga else 0) ≡ (if b then 1 else 0) * giga
if-giga true = refl
if-giga false = refl

-- Over any run of a source's packets, a token bucket passes no more than it held and was refilled.
passes-pays :
    (l : RateLimiter) (b : Bucket) (ps : List Arrival) (last : ℕ)
    → All Rounded ps
    → l.capacity ≤ 1000
    → Ordered b.last_refill ps last
    → passes l (some b) ps * giga + b.last_refill * l.pkt_rate
      ≤ b.tokens + last * l.pkt_rate + length ps
unfolding passes Ordered
passes-pays l b [] last rounds small h = omega (arith, mul-le-mul_right l.pkt_rate h)
passes-pays l b (p ∷ ps) last rounds small h =
    let r = pass_one l (some b) p in
    let (pays, refill) = pass-pays l (some b) p rounds.0 small h.0 in
    let rest = passes-pays l r.1 ps last rounds.1 small (rw refill h.1) in
    omega (arith, pays, rest, if-giga r.0, ap (λ t. t * l.pkt_rate) refill)

passes-new :
    (l : RateLimiter) (p : Arrival) (ps : List Arrival)
    → passes l none (p ∷ ps)
      ≡ passes l
          (some (bucket_new l.capacity p.readings.created_refill p.readings.created_start))
          (p ∷ ps)
unfolding passes pass
passes-new l p ps = refl

-- On a new limiter and over any run of packets of all sources, if the readings in `consume` of one
-- source never go back, and its `f64` sums round as `Rounds` says: the number of its packets within the
-- packet rate is at most the capacity 1000, plus 500 for each second from its first packet to its last, plus
-- 10^-9 for each of its packets, whatever the others send.
pub passed_bound :
    (src : IpAddr) (ps : List Arrival) (p : Arrival) (own : List Arrival) (last : ℕ)
    → arrivals_of src ps ≡ p ∷ own
    → All Rounded (p ∷ own)
    → Ordered p.readings.created_refill (p ∷ own) last
    → passed src new ps * giga + p.readings.created_refill * 500
      ≤ 1000 * giga + last * 500 + length (p ∷ own)
passed_bound src ps p own last e rounds h =
    let b = bucket_new new.capacity p.readings.created_refill p.readings.created_start in
    let count : passed src new ps ≡ passes new (some b) (p ∷ own) =
      passed-passes src new ps ∙ start ∙ ap (passes new none) e ∙ passes-new new p own in
    let bound = passes-pays new b (p ∷ own) last rounds (unfold new in omega arith) h in
    numbers count bound
  where
    start :
        passes new (lookup IpAddr-discrete src new.buckets) (arrivals_of src ps)
        ≡ passes new none (arrivals_of src ps)
    start = unfold new lookup in refl

    numbers :
        {n m : ℕ}
        → n ≡ m
        → m * giga + p.readings.created_refill * new.pkt_rate
          ≤ new.capacity * giga + last * new.pkt_rate + length (p ∷ own)
        → n * giga + p.readings.created_refill * 500 ≤ 1000 * giga + last * 500 + length (p ∷ own)
    numbers c b = unfold new in omega arith

-- Each packet comes at least 2 ms, the time of one token, after the one before.
unfoldable pub Spaced : ℕ → List Arrival → Type 0
Spaced now [] = Unit
Spaced now (p ∷ ps) = (now + 2 * 10 ^ 6 ≤ p.readings.consumed) × Spaced p.readings.consumed ps

-- A refilled bucket passes the packet.
pass-enough :
    (l : RateLimiter) (o : Option Bucket) (p : Arrival)
    → 1 ≤ l.capacity
    → Rounded p
    → (giga ≤ (before l o p).tokens)
      ⊎ (giga ≤ (p.readings.consumed - (before l o p).last_refill) * l.pkt_rate)
    → ((pass_one l o p).0 ≡ true) × ((pass_one l o p).1.last_refill ≡ p.readings.consumed)
unfolding pass consume count_packet roll_window
pass-enough l o p cap rounds h =
    let b = before l o p in
    let b' = count_packet p.pkt_bytes p.is_syn (roll_window l.window_ns p.readings b) in
    let gain = (p.readings.consumed - b.last_refill) * l.pkt_rate in
    let total = p.readings.sum b.tokens gain in
    let whole : giga ≤ total = elim h [
      | inl held ↦ rounds.keeps b.tokens gain held
      | inr gained ↦ rounds.gains b.tokens gain gained
    ] in
    let e : refilled p.readings.sum p.readings.consumed l.pkt_rate l.capacity b'
        ≡ min total (l.capacity * giga) =
      same b in
    let enough : leb giga (refilled p.readings.sum p.readings.consumed l.pkt_rate l.capacity b')
        ≡ true =
      le→leb _ _ (omega (arith, e, whole)) in
    rw enough (refl, refl)
  where
    same :
        (b : Bucket)
        → refilled p.readings.sum p.readings.consumed l.pkt_rate l.capacity
            (count_packet p.pkt_bytes p.is_syn (roll_window l.window_ns p.readings b))
          ≡ min
              (p.readings.sum b.tokens ((p.readings.consumed - b.last_refill) * l.pkt_rate))
              (l.capacity * giga)
    same b = unfold count_packet roll_window in ground arith

passes-Spaced :
    (l : RateLimiter) (b : Bucket) (ps : List Arrival)
    → l.pkt_rate ≡ 500
    → 1 ≤ l.capacity
    → All Rounded ps
    → Spaced b.last_refill ps
    → passes l (some b) ps ≡ length ps
unfolding passes Spaced
passes-Spaced l b [] r c rounds h = refl
passes-Spaced l b (p ∷ ps) r c rounds h =
    let refill : (p.readings.consumed - b.last_refill) * l.pkt_rate
        ≡ (p.readings.consumed - b.last_refill) * 500 =
      ap (λ t. (p.readings.consumed - b.last_refill) * t) r in
    let (ok, at) = pass-enough l (some b) p c rounds.0 (inr (omega (arith, refill, h.0))) in
    let rest = passes-Spaced l (pass_one l (some b) p).1 ps r c rounds.1 (rw at h.1) in
    rw ok (omega (arith, rest))

-- On a new limiter and over any run of packets of all sources: a source whose packets keep 2 ms
-- apart, by the readings in `consume`, and whose `f64` sums round as `Rounds` says, never exceeds the packet
-- rate.
pub Spaced-passed :
    (src : IpAddr) (ps : List Arrival) (p : Arrival) (own : List Arrival)
    → arrivals_of src ps ≡ p ∷ own
    → All Rounded (p ∷ own)
    → Spaced p.readings.consumed own
    → passed src new ps ≡ length (p ∷ own)
Spaced-passed src ps p own e rounds h =
    let (ok, at) = first in
    passed-passes src new ps
    ∙ start
    ∙ ap (passes new none) e
    ∙ step ok (passes-Spaced new (pass_one new none p).1 own rate cap rounds.1 (rw at h))
  where
    rate : new.pkt_rate ≡ 500
    rate = unfold new in refl

    cap : 1 ≤ new.capacity
    cap = unfold new in omega arith

    first :
        ((pass_one new none p).0 ≡ true)
        × ((pass_one new none p).1.last_refill ≡ p.readings.consumed)
    first = pass-enough new none p cap rounds.0 (inl (unfold new in omega arith))

    start :
        passes new (lookup IpAddr-discrete src new.buckets) (arrivals_of src ps)
        ≡ passes new none (arrivals_of src ps)
    start = unfold new lookup in refl

    step :
        (pass_one new none p).0 ≡ true
        → passes new (some (pass_one new none p).1) own ≡ length own
        → passes new none (p ∷ own) ≡ length (p ∷ own)
    step ok rest = unfold passes in rw ok (omega (arith, rest))
