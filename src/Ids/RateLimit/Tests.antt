-- ===== src/Ids/RateLimit/Tests.antt =====
-- Concrete runs of the rate limiter.
use ocellus_network_monitor.Prelude.{
  ℕ, ℕ_discrete, ◌+◌, ◌*◌, ◌≤◌, ◌≡◌, refl, false, List, [], ◌∷◌, arith,
}
use ocellus_network_monitor.Packet.{IpAddr-discrete, v4}
use ocellus_network_monitor.Ids.RateLimit.{giga, new}
use ocellus_network_monitor.Ids.RateLimit.Conforms.{
  Arrival, Rounds, arrivals_of, Ordered, Spaced, passed, passed_bound, Spaced-passed,
}

abbrev packet_from : ℕ → ℕ → Arrival
packet_from src t = record {
  readings = record {
    created_refill = t;
    created_start = t;
    checked = t;
    restarted = t;
    consumed = t;
    sum = λ a b. a + b;
  };
  src = v4 src;
  pkt_bytes = 60;
  is_syn = false;
}

-- Two packets of one source, one of another between them.
abbrev three_packets : List Arrival
three_packets = packet_from 1 1000 ∷ packet_from 2 1500 ∷ packet_from 1 9000000 ∷ []

-- The exact sum is within the bounds.
exact : Rounds λ a b. a + b
exact = record {
  most = λ t g h. omega arith;
  keeps = λ t g h. omega arith;
  gains = λ t g h. omega arith;
}

passed_bound_example :
    passed (v4 1) new three_packets * giga + 1000 * 500 ≤ 1000 * giga + 9000000 * 500 + 2
unfolding arrivals_of Ordered IpAddr-discrete ℕ_discrete
passed_bound_example =
    passed_bound (v4 1) three_packets (packet_from 1 1000) (packet_from 1 9000000 ∷ []) 9000000 refl
      (exact, (exact, tt)) (omega arith)

Spaced-passed_example : passed (v4 1) new three_packets ≡ 2
unfolding arrivals_of Spaced IpAddr-discrete ℕ_discrete
Spaced-passed_example =
    Spaced-passed (v4 1) three_packets (packet_from 1 1000) (packet_from 1 9000000 ∷ []) refl
      (exact, (exact, tt)) (omega arith)
