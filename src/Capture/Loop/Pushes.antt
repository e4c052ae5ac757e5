-- ===== src/Capture/Loop/Pushes.antt =====
-- The packets that `run_capture` pushes into the ring.
use ocellus_network_monitor.Prelude.{
  ℕ, ◌+◌, ◌*◌, ◌/◌, arith, Option, Allows, ◌%◌, ◌^◌, ◌<◌, ◌≡◌, refl, sym, ◌∙◌, ap, subst, Bool,
  true, false, ◌↔◌, String, List, [], ◌∷◌, length, ltb, ltb→lt, lt→ltb, All, Outcome, done, panic,
  ◌>>=◌, Ensures, Ensures-bind, Ensures-done, Ensures-weaken,
}
use ocellus_network_monitor.Packet.{LinkType, RawPacket, TransportMeta}
use ocellus_network_monitor.Config.{Config}
use ocellus_network_monitor.Ring
use ocellus_network_monitor.Ring.Newest.{push_all}
use ocellus_network_monitor.Capture.Parse.{parse_transport, system_time_from_timeval}
use ocellus_network_monitor.Capture.Safe.{IsByte, Fits, parse_transport-Fits}
use ocellus_network_monitor.Capture.Loop.{
  ok, err, Pcap, capture_failed, Header, Next, packet, timeout_expired, no_more_packets, fails,
  Round, Flow, continues, returns, CaptureState, raw_of, push_packet, on_next, round, capture_loop,
  open_device, on_opened, run_capture,
}

-- A packet that the loop makes of a header and bytes.
pub record IsCapture (interface : String) (link_type : LinkType) (id : ℕ) (header : Header)
    (bytes : List ℕ) (p : RawPacket) : Type 0 where
  pub same_bytes : p.bytes ≡ bytes
  pub lengths : (p.orig_len ≡ header.len) × (p.cap_len ≡ header.caplen)
  pub truncated : (p.is_truncated ≡ true) ↔ (header.caplen < header.len)
  pub time : p.timestamp ≡ header.tv_sec * 10 ^ 9 + header.tv_usec * 1000 % 2 ^ 32
  pub source : (p.interface ≡ interface) × (p.link_type ≡ link_type)
  pub number : p.packet_id ≡ id
  pub parsed : parse_transport bytes link_type ≡ done p.transport
  pub fits : Fits (length bytes) p.transport
  pub unscored : (p.ids_score ≡ 0) × (p.ids_flag ≡ 0)

-- One packet for each header, with consecutive ids, in `u64`.
abbrev pub Captured : String → LinkType → ℕ → List (Header × List ℕ) → List RawPacket → Type 0
Captured interface link_type id [] [] = Unit
Captured interface link_type id [] (p ∷ ps) = ⊥
Captured interface link_type id (h ∷ hs) [] = ⊥
Captured interface link_type id (h ∷ hs) (p ∷ ps) =
    IsCapture interface link_type id h.0 h.1 p
    × Captured interface link_type ((id + 1) % 2 ^ 64) hs ps

-- A state whose ring took one such packet.
abbrev Pushed : String → LinkType → Header → List ℕ → CaptureState → CaptureState → Type 0
Pushed interface link_type header bytes s s' =
    (p : RawPacket) × (s'.buffer ≡ (Ring.push s.buffer p).0)
    × (s'.packet_counter ≡ (s.packet_counter + 1) % 2 ^ 64)
    × IsCapture interface link_type s.packet_counter header bytes p

-- Where the seconds leave room for what the microseconds carry.
system_time_from_timeval-done :
    (secs micros : ℕ)
    → secs + 4 < 2 ^ 63
    → system_time_from_timeval secs micros ≡ done (secs * 10 ^ 9 + micros * 1000 % 2 ^ 32)
unfolding system_time_from_timeval
system_time_from_timeval-done secs micros h =
    let nanos = micros * 1000 % 2 ^ 32 in
    let whole = secs + nanos / 10 ^ 9 in
    let fits : ltb whole (2 ^ 63) ≡ true = lt→ltb whole (2 ^ 63) (omega arith) in
    let same : whole * 10 ^ 9 + nanos % 10 ^ 9 ≡ secs * 10 ^ 9 + nanos = omega arith in
    rw fits (ap (λ n. done n) same)

-- A time that `SystemTime` holds, and bytes.
abbrev pub IsSound : Header × List ℕ → Type 0
IsSound (header, bytes) = (header.tv_sec + 4 < 2 ^ 63) × All IsByte bytes

push_packet-Pushed :
    (interface : String) (link_type : LinkType) (header : Header) (bytes : List ℕ)
    (s : CaptureState)
    → IsSound (header, bytes)
    → Ensures
        (Pushed interface link_type header bytes s)
        (push_packet interface link_type header bytes s)
unfolding push_packet raw_of
push_packet-Pushed interface link_type header bytes s (early, within) =
    let (transport, e, fits) = parse_transport-Fits bytes link_type within in
    let timestamp = header.tv_sec * 10 ^ 9 + header.tv_usec * 1000 % 2 ^ 32 in
    let raw = λ (time : ℕ). λ (t : Option TransportMeta).
      raw_of interface link_type time s.packet_counter header bytes t in
    let made : IsCapture interface link_type s.packet_counter header bytes
        (raw timestamp transport) =
      record {
        same_bytes = refl;
        lengths = (refl, refl);
        truncated = (ltb→lt header.caplen header.len, lt→ltb header.caplen header.len);
        time = refl;
        source = (refl, refl);
        number = refl;
        parsed = e;
        fits = fits;
        unscored = (refl, refl);
      } in
    Ensures-bind (Pushed interface link_type header bytes s) (λ t. t ≡ transport) _ _
      (subst (Ensures (λ t. t ≡ transport)) (sym e) refl)
      λ t same_t.
        Ensures-bind (Pushed interface link_type header bytes s) (λ time. time ≡ timestamp) _ _
          (subst (Ensures (λ time. time ≡ timestamp))
            (sym (system_time_from_timeval-done header.tv_sec header.tv_usec early)) refl)
          λ time same_time. (
            raw timestamp transport,
            ap (λ (q : ℕ × Option TransportMeta). (Ring.push s.buffer (raw q.0 q.1)).0)
                (ap (λ x. (x, t)) same_time ∙ ap (λ y. (timestamp, y)) same_t),
            refl,
            made,
          )

Ensures-map {ℓ κ μ} :
    {A : Type ℓ} {B : Type κ} {C : Type μ} (P : C → Type 0) (m : Outcome A) (g : A → B)
    (k : B → Outcome C)
    → Ensures P (m >>= λ a. k (g a))
    → Ensures P ((m >>= λ a. done (g a)) >>= k)
Ensures-map P (done a) g k h = h
Ensures-map P panic g k h = h

Allows-map {ℓ κ μ} :
    {A : Type ℓ} {B : Type κ} {C : Type μ} (P : C → Type 0) (m : Outcome A) (g : A → B)
    (k : B → Outcome C)
    → ((a : A) → Allows P (k (g a)))
    → Allows P ((m >>= λ a. done (g a)) >>= k)
Allows-map P (done a) g k h = h a
Allows-map P panic g k h = tt

module _ {E : Type 0} where
  abbrev pub seen : Bool → Next E → List (Header × List ℕ) → List (Header × List ℕ)
  seen true next rest = []
  seen false (packet header bytes) rest = (header, bytes) ∷ rest
  seen false timeout_expired rest = rest
  seen false no_more_packets rest = []
  seen false (fails e) rest = []

  -- The packets received before the first round that reads the flag set, or that finds the end of the
  -- packets or an error.
  pub arrivals : List (Round E) → List (Header × List ℕ)
  arrivals [] = []
  arrivals (r ∷ rs) = seen r.shutdown r.next (arrivals rs)

  abbrev pub outcome : Bool → Next E → Flow E → Flow E
  outcome true next rest = returns (ok tt)
  outcome false (packet header bytes) rest = rest
  outcome false timeout_expired rest = rest
  outcome false no_more_packets rest = returns (ok tt)
  outcome false (fails e) rest = returns (err (capture_failed e))

  -- What that round makes of the loop.
  unfoldable pub ending : List (Round E) → Flow E
  ending [] = continues
  ending (r ∷ rs) = outcome r.shutdown r.next (ending rs)

  -- What the round would receive is sound.
  abbrev pub HasSound : Round E → Type 0
  HasSound r = All IsSound (seen false r.next [])

  module _ (interface : String) (link_type : LinkType) where
    -- From a state to what the loop leaves.
    abbrev Pushes : CaptureState → List (Round E) → Flow E × CaptureState → Type 0
    Pushes s rs (f, s') =
        (f ≡ ending rs)
        × ((ps : List RawPacket) × (s'.buffer ≡ push_all s.buffer ps)
            × Captured interface link_type s.packet_counter (arrivals rs) ps)

    -- One round, with what the loop does after it.
    round-Pushes :
        (shutdown : Bool) (next : Next E) (rs : List (Round E)) (s : CaptureState)
        → All IsSound (seen false next [])
        → ((s : CaptureState) → Ensures (Pushes s rs) (capture_loop interface link_type rs s))
        → Ensures
            (Pushes s (record { shutdown = shutdown; next = next } ∷ rs))
            (capture_loop interface link_type (record { shutdown = shutdown; next = next } ∷ rs) s)
    unfolding capture_loop round on_next arrivals ending push_all
    round-Pushes true next rs s here go = (refl, ([], refl, tt))
    round-Pushes false (packet header bytes) rs s here go =
        let first = push_packet interface link_type header bytes s in
        Ensures-map _ first (λ s'. (continues, s')) _
          (Ensures-bind _ (Pushed interface link_type header bytes s) first _
            (push_packet-Pushed interface link_type header bytes s here.0)
            λ s' (p, pushed, counted, made).
              Ensures-weaken (Pushes s' rs) _ (capture_loop interface link_type rs s')
                (λ (f, t) (e, (ps, all, caught)). (
                  e,
                  (
                    p ∷ ps,
                    all ∙ ap (λ r. push_all r ps) pushed,
                    (
                      made,
                      subst (λ id. Captured interface link_type id (arrivals rs) ps) counted caught,
                    ),
                  ),
                ))
                (go s'))
    round-Pushes false timeout_expired rs s here go = go s
    round-Pushes false no_more_packets rs s here go = (refl, ([], refl, tt))
    round-Pushes false (fails e) rs s here go = (refl, ([], refl, tt))

    -- Where the loop does not panic, the rounds say how it ends.
    round-ends :
        (shutdown : Bool) (next : Next E) (rs : List (Round E)) (s : CaptureState)
        → ((s : CaptureState)
            → Allows (λ p. p.0 ≡ ending rs) (capture_loop interface link_type rs s))
        → Allows
            (λ p. p.0 ≡ ending (record { shutdown = shutdown; next = next } ∷ rs))
            (capture_loop interface link_type (record { shutdown = shutdown; next = next } ∷ rs) s)
    unfolding capture_loop round on_next ending
    round-ends true next rs s go = refl
    round-ends false (packet header bytes) rs s go =
        Allows-map _ (push_packet interface link_type header bytes s) (λ s'. (continues, s')) _ go
    round-ends false timeout_expired rs s go = go s
    round-ends false no_more_packets rs s go = refl
    round-ends false (fails e) rs s go = refl

    pub capture_loop-ends :
        (rs : List (Round E)) (s : CaptureState)
        → Allows (λ p. p.0 ≡ ending rs) (capture_loop interface link_type rs s)
    unfolding capture_loop ending
    capture_loop-ends [] s = refl
    capture_loop-ends (r ∷ rs) s = round-ends r.shutdown r.next rs s λ s'. capture_loop-ends rs s'

    pub capture_loop-Pushes :
        (rs : List (Round E)) (s : CaptureState)
        → All HasSound rs
        → Ensures (Pushes s rs) (capture_loop interface link_type rs s)
    unfolding capture_loop arrivals ending push_all
    capture_loop-Pushes [] s within = (refl, ([], refl, tt))
    capture_loop-Pushes (r ∷ rs) s within =
        round-Pushes r.shutdown r.next rs s within.0 (λ s'. capture_loop-Pushes rs s' within.1)

module _ (pcap : Pcap) where
  -- Where the device opens, every packet is a list of bytes, and the seconds of every time stamp, read as
  -- unsigned, are less than 2^63 - 4: `run_capture` does not panic. It runs on until the first round that reads the shutdown flag set or finds the end of the packets, and then
  -- returns without an error, or finds an error of the capture, and then returns it. The ring takes, in
  -- order, one packet for each that arrived before: with its bytes, lengths and time, the interface's name
  -- and link type, consecutive ids from the counter, `is_truncated` just when fewer bytes were captured
  -- than the packet has, and what the parser says of its bytes, in range.
  pub run_capture_pushes :
      (config : Config) (interface : String) (link_type : LinkType)
      (rounds : List (Round pcap.Error)) (s : CaptureState)
      → open_device pcap config ≡ ok (interface, link_type)
      → All HasSound rounds
      → (s' : CaptureState) × (ps : List RawPacket) × (run_capture pcap config rounds s
          ≡ done (ending rounds, s'))
        × (s'.buffer ≡ push_all s.buffer ps)
        × Captured interface link_type s.packet_counter (arrivals rounds) ps
  unfolding run_capture
  run_capture_pushes config interface link_type rounds s opened within =
      let run = capture_loop interface link_type rounds s in
      let (p, e, h) =
        Ensures-done (Pushes interface link_type s rounds) run
          (capture_loop-Pushes interface link_type rounds s within) in
      let (same, (ps, all, caught)) = h in
      (p.1, ps, ap (on_opened pcap rounds s) opened ∙ e ∙ ap (λ f. done (f, p.1)) same, all, caught)
