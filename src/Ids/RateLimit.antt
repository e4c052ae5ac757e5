-- ===== src/Ids/RateLimit.antt =====
-- src/ids/rate_limit.rs. Times are nanoseconds. The program's tokens are `f64`; here they are the whole units
-- of 10^-9 tokens in them, so that the test against 1.0, the token taken and the cap at the capacity are exact.
-- The sum of the refill is rounded, by an argument of each call; the clock's readings are arguments as well.
pub mod Conforms
mod Tests
use ocellus_network_monitor.Prelude.{
  ℕ, ◌+◌, ◌-◌, ◌*◌, ◌%◌, ◌^◌, min, Bool, true, false, not, ◌&&◌, Option, none, some, List, [], ◌∷◌,
  ltb, leb, if◌then◌else◌,
}
use ocellus_network_monitor.Prelude.Map.{lookup, insert, retain_map}
use ocellus_network_monitor.Packet.{IpAddr, IpAddr-discrete}
use ocellus_network_monitor.Ids.Score.{Signal, score_rate_exceeded}

-- One token, and one second.
abbrev pub giga : ℕ
giga = 10 ^ 9

pub record Bucket : Type 0 where
  pub tokens : ℕ
  pub last_refill : ℕ
  pub bytes : ℕ
  pub connections : ℕ
  pub window_start : ℕ

abbrev pub bucket_new : ℕ → ℕ → ℕ → Bucket
bucket_new capacity refill start = record {
  tokens = capacity * giga;
  last_refill = refill;
  bytes = 0;
  connections = 0;
  window_start = start;
}

-- The tokens after the refill, with the sum as `f64` rounds it.
abbrev pub refilled : (ℕ → ℕ → ℕ) → ℕ → ℕ → ℕ → Bucket → ℕ
refilled sum now rate capacity b =
    min (sum b.tokens ((now - b.last_refill) * rate)) (capacity * giga)

unfoldable pub consume : (ℕ → ℕ → ℕ) → ℕ → ℕ → ℕ → Bucket → Bool × Bucket
consume sum now rate capacity b =
    let tokens = refilled sum now rate capacity b in
    if leb giga tokens
    then (true, record b { tokens = tokens - giga; last_refill = now })
    else (false, record b { tokens = tokens; last_refill = now })

pub record RateLimiter : Type 0 where
  pub buckets : List (IpAddr × Bucket)
  pub pkt_rate : ℕ
  pub capacity : ℕ
  pub bytes_rate : ℕ
  pub conn_rate : ℕ
  pub window_ns : ℕ

unfoldable pub new : RateLimiter
new = record {
  buckets = [];
  pkt_rate = 500;
  capacity = 1000;
  bytes_rate = 10 * 1024 * 1024;
  conn_rate = 50;
  window_ns = giga;
}

-- The clock readings of one call: the two of `Bucket::new`, the elapsed time of the window, its
-- restart, and the one in `consume`; and the rounded sum of the tokens and the refill.
pub record Readings : Type 0 where
  pub created_refill : ℕ
  pub created_start : ℕ
  pub checked : ℕ
  pub restarted : ℕ
  pub consumed : ℕ
  pub sum : ℕ → ℕ → ℕ

abbrev pub or_bucket : ℕ → Readings → Option Bucket → Bucket
or_bucket capacity t none = bucket_new capacity t.created_refill t.created_start
or_bucket capacity t (some b) = b

-- The per-window counters restart when the window has elapsed.
unfoldable pub roll_window : ℕ → Readings → Bucket → Bucket
roll_window window t b =
    if leb window (t.checked - b.window_start)
    then record b { bytes = 0; connections = 0; window_start = t.restarted }
    else b

-- The counters are `u64`.
unfoldable pub count_packet : ℕ → Bool → Bucket → Bucket
count_packet pkt_bytes is_syn b = record b {
  bytes = (b.bytes + pkt_bytes) % 2 ^ 64;
  connections = if is_syn then (b.connections + 1) % 2 ^ 64 else b.connections;
}

abbrev pub packets_signal : Signal
packets_signal = record { name = "rate_exceeded_packets"; score = score_rate_exceeded }

abbrev pub bytes_signal : Signal
bytes_signal = record { name = "rate_exceeded_bytes"; score = score_rate_exceeded }

abbrev pub connections_signal : Signal
connections_signal = record { name = "rate_exceeded_connections"; score = score_rate_exceeded }

-- The bucket of a source, if it has one, after a packet, and whether the packet was within rate.
unfoldable pub pass : Readings → RateLimiter → Option Bucket → ℕ → Bool → Bool × Bucket
pass t l o pkt_bytes is_syn =
    consume t.sum t.consumed l.pkt_rate l.capacity
      (count_packet pkt_bytes is_syn (roll_window l.window_ns t (or_bucket l.capacity t o)))

-- The chain of checks after `consume`.
unfoldable pub verdict : RateLimiter → Bool → Bool × Bucket → Option Signal
verdict l is_syn r =
    if not r.0
    then some packets_signal
    else if ltb l.bytes_rate r.1.bytes
    then some bytes_signal
    else if is_syn && ltb l.conn_rate r.1.connections
    then some connections_signal
    else none

unfoldable pub inspect : Readings → RateLimiter → IpAddr → ℕ → Bool → Option Signal × RateLimiter
inspect t l src_ip pkt_bytes is_syn =
    let r = pass t l (lookup IpAddr-discrete src_ip l.buckets) pkt_bytes is_syn in
    (verdict l is_syn r, record l { buckets = insert IpAddr-discrete src_ip r.1 l.buckets })

-- `elapsed().as_secs() < 120`, read anew for each bucket
unfoldable pub sweep : (IpAddr → ℕ) → RateLimiter → RateLimiter
sweep now l = record l {
  buckets =
      retain_map IpAddr-discrete
        (λ ip b. if ltb (now ip - b.last_refill) (120 * giga) then some b else none) l.buckets;
}
