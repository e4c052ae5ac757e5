-- ===== src/Pipeline/Flow.antt =====
-- Every captured packet on its way through ring, analyzer, channel and stream.
use mathlib.Core.List.{Sublist, sublist-cons_self}
use mathlib.Core.List.Sublist
use ocellus_network_monitor.Prelude.{
  map-append, length-map, ◌+◌, ◌≤◌, ◌≡◌, refl, sym, ◌∙◌, ap, subst, Option, none, some, List, [],
  ◌∷◌, ◌++◌, append_assoc, map, length, length-append, arith, Ensures, Ensures-bind,
}
use ocellus_network_monitor.Packet.{RawPacket}
use ocellus_network_monitor.Mpsc.{Mpsc}
use ocellus_network_monitor.Ring
use ocellus_network_monitor.Ring.{RingInner, push, pop_blocking, drain_batch}
use ocellus_network_monitor.Ring.Schedule.{Takes, received, pop_blocking-Takes, drain_batch-Takes}
use ocellus_network_monitor.Ids.Payload
use ocellus_network_monitor.Ids.Engine
use ocellus_network_monitor.Ids.Engine.{Externals}
use ocellus_network_monitor.Analyzer.{
  Job, Position, draining, popping, exited, scoring, forwarding, after_drain, after_pop, Analysis,
  score_batch, forward, forward_option, turn_at,
}
use ocellus_network_monitor.Analyzer.Batch.{unscored, KeepsBatch, score_batch-KeepsBatch}
use ocellus_network_monitor.Pipeline.{in_flight, Suits}

in_flight-after_drain : (ps : List RawPacket) → in_flight (after_drain ps) ≡ ps
unfolding in_flight
in_flight-after_drain [] = refl
in_flight-after_drain (p ∷ ps) = refl

in_flight-after_pop : (w : Ring.Wait RawPacket) → in_flight (after_pop w) ≡ received w
unfolding in_flight
in_flight-after_pop (Ring.returns none) = refl
in_flight-after_pop (Ring.returns (some pkt)) = refl
in_flight-after_pop Ring.waits = refl

-- Packets by what the capture knows of them.
abbrev pub marks : List RawPacket → List RawPacket
marks = map unscored

module _ (externals : Externals) (mpsc : Mpsc RawPacket) where
  open externals use {crate}
  open mpsc use {Channel, try_send, contents, contents-try_send}

  abbrev A : Type 0
  A = Analysis externals mpsc

  -- What the analysis holds, from the packet that arrives next to the one captured last.
  abbrev pub holds : A → List RawPacket
  holds a = contents a.grpc_tx ++ (in_flight a.position ++ a.ring.buf)

  -- A step of the analyzer hands packets on, or drops them.
  pub record HandsOn (a a' : A) : Type 0 where
    pub order : Sublist (marks (holds a')) (marks (holds a))
    pub size : length (holds a') + length a'.refused ≡ length (holds a) + length a.refused
    pub bounded : length a'.ring.buf ≤ length a.ring.buf
    pub cap : a'.ring.cap ≡ a.ring.cap
    pub dropped : a'.ring.dropped ≡ a.ring.dropped
    pub scanner : a'.engine.payload_scanner ≡ Payload.new crate

  pub equal_order : (xs ys : List RawPacket) → xs ≡ ys → Sublist (marks xs) (marks ys)
  equal_order xs ys e = subst (λ l. Sublist (marks xs) (marks l)) e (Sublist.refl (marks xs))

  skip_order :
      (cs : List RawPacket) (pkt : RawPacket) (ps : List RawPacket)
      → Sublist (marks (cs ++ ps)) (marks (cs ++ (pkt ∷ ps)))
  skip_order cs pkt ps =
      rw (map-append unscored cs ps, map-append unscored cs (pkt ∷ ps))
        (Sublist.append (Sublist.refl (marks cs)) (sublist-cons_self (unscored pkt) (marks ps)))

  -- A step that leaves the ring's counters and the refused packets alone, and holds the same packets.
  same-HandsOn :
      (a a' : A)
      → holds a' ≡ holds a
      → a'.refused ≡ a.refused
      → length a'.ring.buf ≤ length a.ring.buf
      → a'.ring.cap ≡ a.ring.cap
      → a'.ring.dropped ≡ a.ring.dropped
      → a'.engine.payload_scanner ≡ Payload.new crate
      → HandsOn a a'
  same-HandsOn a a' e f b c d h = record {
    order = equal_order (holds a') (holds a) e;
    size = omega (arith, ap length e, ap length f);
    bounded = b;
    cap = c;
    dropped = d;
    scanner = h;
  }

  -- Taking packets out of the ring.
  Takes-HandsOn :
      (a : A) (xs : List RawPacket) (r : RingInner RawPacket) (p : Position)
      → a.engine.payload_scanner ≡ Payload.new crate
      → in_flight a.position ≡ []
      → in_flight p ≡ xs
      → Takes a.ring xs r
      → HandsOn a (record a { ring = r; position = p })
  Takes-HandsOn a xs r p h before after (buf, cap, dropped) =
      same-HandsOn a (record a { ring = r; position = p })
        (ap (λ l. contents a.grpc_tx ++ l)
          (ap (λ l. l ++ r.buf) after ∙ sym buf ∙ ap (λ l. l ++ a.ring.buf) (sym before)))
        refl (omega (arith, ap length buf, length-append xs r.buf)) cap dropped h

  scores-HandsOn :
      (a : A) (ps : List RawPacket) (p : List RawPacket × Engine.IdsEngine externals)
      → in_flight a.position ≡ ps
      → KeepsBatch externals mpsc ps p
      → HandsOn a (record a { engine = p.1; position = forwarding p.0 })
  unfolding in_flight
  scores-HandsOn a ps (scored, e) at (same, h) =
      let cs = contents a.grpc_tx in
      let b = a.ring.buf in
      let path : marks (cs ++ (scored ++ b)) ≡ marks (cs ++ (in_flight a.position ++ b)) =
        map-append unscored cs (scored ++ b)
        ∙ ap (λ l. marks cs ++ l)
            (map-append unscored scored b
              ∙ ap (λ l. l ++ marks b) (same ∙ ap marks (sym at))
              ∙ sym (map-append unscored (in_flight a.position) b))
        ∙ sym (map-append unscored cs (in_flight a.position ++ b)) in
      let lengths = ap length path in
      record {
        order = subst (Sublist (marks (cs ++ (scored ++ b)))) path (Sublist.refl _);
        size = omega (
          arith,
          lengths,
          length-map unscored (cs ++ (scored ++ b)),
          length-map unscored (cs ++ (in_flight a.position ++ b)),
        );
        bounded = omega arith;
        cap = refl;
        dropped = refl;
        scanner = h;
      }

  forward-HandsOn :
      (a : A) (pkt : RawPacket) (ps : List RawPacket)
      → a.engine.payload_scanner ≡ Payload.new crate
      → in_flight a.position ≡ pkt ∷ ps
      → HandsOn a (record (forward externals mpsc pkt a) { position = forwarding ps })
  unfolding forward in_flight
  forward-HandsOn a pkt ps h at = by_channel (try_send a.grpc_tx pkt) refl
    where
      by_channel :
          (o : Option Channel)
          → try_send a.grpc_tx pkt ≡ o
          → HandsOn a (record (forward_option externals mpsc pkt o a) { position = forwarding ps })
      by_channel none e =
          let cs = contents a.grpc_tx in
          let l = ps ++ a.ring.buf in
          let now : holds a ≡ cs ++ (pkt ∷ l) = ap (λ f. cs ++ (f ++ a.ring.buf)) at in
          record {
            order =
                subst (λ l'. Sublist (marks (cs ++ l)) (marks l')) (sym now) (skip_order cs pkt l);
            size = omega (
              arith,
              ap length now,
              length-append cs l,
              length-append cs (pkt ∷ l),
              length-append a.refused (pkt ∷ []),
            );
            bounded = omega arith;
            cap = refl;
            dropped = refl;
            scanner = h;
          }
      by_channel (some c) e =
          same-HandsOn a (record a { grpc_tx = c; position = forwarding ps })
            (ap (λ l. l ++ (ps ++ a.ring.buf)) (contents-try_send a.grpc_tx c pkt e)
              ∙ append_assoc (contents a.grpc_tx) (pkt ∷ []) (ps ++ a.ring.buf)
              ∙ ap (λ f. contents a.grpc_tx ++ (f ++ a.ring.buf)) (sym at))
            refl (omega arith) refl refl h

  pub turn-HandsOn :
      (jobs : List Job) (p : Position) (a : A)
      → a.position ≡ p
      → a.engine.payload_scanner ≡ Payload.new crate
      → Suits jobs p
      → Ensures (HandsOn a) (turn_at externals mpsc jobs p a)
  unfolding turn_at in_flight
  turn-HandsOn jobs draining a at h suits =
      Takes-HandsOn a (drain_batch a.ring 64).0 (drain_batch a.ring 64).1 _ h (ap in_flight at)
        (in_flight-after_drain _) (drain_batch-Takes a.ring 64)
  turn-HandsOn jobs popping a at h suits =
      Takes-HandsOn a (received (pop_blocking a.ring).0) (pop_blocking a.ring).1 _ h
        (ap in_flight at) (in_flight-after_pop (pop_blocking a.ring).0) (pop_blocking-Takes a.ring)
  turn-HandsOn jobs exited a at h suits = same-HandsOn a a refl refl (omega arith) refl refl h
  turn-HandsOn jobs (scoring ps) a at h suits =
      Ensures-bind (HandsOn a) (KeepsBatch externals mpsc ps)
        (score_batch externals mpsc jobs a.engine ps) _
        (score_batch-KeepsBatch externals mpsc jobs a.engine ps h suits.within)
        λ p kept. scores-HandsOn a ps p (ap in_flight at) kept
  turn-HandsOn jobs (forwarding []) a at h suits =
      same-HandsOn a (record a { position = draining })
        (ap (λ f. contents a.grpc_tx ++ (f ++ a.ring.buf)) (sym (ap in_flight at))) refl
        (omega arith) refl refl h
  turn-HandsOn jobs (forwarding (pkt ∷ ps)) a at h suits =
      forward-HandsOn a pkt ps h (ap in_flight at)
