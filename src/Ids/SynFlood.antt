-- ===== src/Ids/SynFlood.antt =====
-- src/ids/syn_flood.rs. Each reading of the clock, in nanoseconds, is an argument. The ratio of
-- two counters is compared with 5.0 as the `f32` quotient is: both counters are rounded to 24 bits, and the
-- quotient to the nearest `f32`.
pub mod Rst
pub mod Handshake
pub mod Flood
mod Tests
use ocellus_network_monitor.Prelude.{
  ℕ, zero, suc, ◌+◌, ◌-◌, ◌*◌, ◌/◌, ◌%◌, ◌^◌, bit_and, Bool, true, false, not, ◌&&◌, ◌||◌, Option,
  none, some, List, [], ◌∷◌, ◌++◌, length, ltb, leb, ◌==◌, if◌then◌else◌, ℕ_discrete,
}
use ocellus_network_monitor.Prelude.Map.{lookup, insert, remove, retain_map}
use ocellus_network_monitor.Packet.{IpAddr, IpAddr-discrete}
use ocellus_network_monitor.Ids.Score.{Signal, score_half_open_high, score_syn_flood}

abbrev pub tcp_syn : ℕ
tcp_syn = 0x02

abbrev pub tcp_ack : ℕ
tcp_ack = 0x10

abbrev pub tcp_rst : ℕ
tcp_rst = 0x04

-- FIN, PSH and URG: 0x01 | 0x08 | 0x20
abbrev pub tcp_xmas : ℕ
tcp_xmas = 0x29

abbrev pub score_port_scan_xmas : ℕ
score_port_scan_xmas = 55

abbrev pub secs : ℕ → ℕ
secs n = n * 10 ^ 9

-- `flags & bit != 0`
abbrev pub has_flag : ℕ → ℕ → Bool
has_flag flags bit = not (bit_and flags bit == 0)

pub record PerIpCounters : Type 0 where
  pub syns : ℕ
  pub acks : ℕ
  pub last_reset : ℕ
  pub window : ℕ

abbrev pub counters_new : ℕ → PerIpCounters
counters_new now = record { syns = 0; acks = 0; last_reset = now; window = secs 10 }

-- The elapsed time is read at `checked`, the new start at `restarted`.
abbrev pub maybe_reset : ℕ → ℕ → PerIpCounters → PerIpCounters
maybe_reset checked restarted c =
    if leb c.window (checked - c.last_reset)
    then record c { syns = 0; acks = 0; last_reset = restarted }
    else c

-- How often a `u64` is halved until it has 24 bits; 40 times are enough.
pub f32_exponent : ℕ → ℕ → ℕ
f32_exponent zero n = 0
f32_exponent (suc fuel) n =
    let rest = f32_exponent fuel (n / 2) in if ltb n (2 ^ 24) then 0 else suc rest

-- Whether a rest `r` below `2 ^ e` rounds the even or odd `q` up: to the nearest, ties to even.
abbrev pub rounds_up : ℕ → ℕ → ℕ → Bool
rounds_up e q r = ltb (2 ^ e) (2 * r) || 2 * r == 2 ^ e && q % 2 == 1

-- `n as f32`, which is a whole number.
unfoldable pub to_f32 : ℕ → ℕ
unfolding f32_exponent
to_f32 n =
    let e = f32_exponent 40 n in
    let q = n / 2 ^ e in
    if ltb n (2 ^ 24) then n else (q + (if rounds_up e q (n % 2 ^ e) then 1 else 0)) * 2 ^ e

-- Numerator and denominator of `syn_ack_ratio`, before the quotient is rounded.
unfoldable pub syn_ack_ratio : PerIpCounters → ℕ × ℕ
syn_ack_ratio c = if c.acks == 0 then (to_f32 c.syns, 1) else (to_f32 c.syns, to_f32 c.acks)

-- Whether the quotient in `f32` is at least the threshold, a whole number between 4 and 8, as the program's
-- 5.0: there the `f32` numbers are 2^-21 apart and the threshold's last bit is even, so that the quotient
-- rounds to it from half a step below.
abbrev pub ratio_ge : ℕ × ℕ → ℕ → Bool
ratio_ge r threshold = leb ((threshold * 2 ^ 22 - 1) * r.1) (r.0 * 2 ^ 22)

abbrev pub FlowKey : Type 0
FlowKey = IpAddr × IpAddr × ℕ × ℕ

flow_eq : Discrete FlowKey
flow_eq = hlevel (IpAddr-discrete, ℕ_discrete)

unfoldable pub FlowKey-discrete : Discrete FlowKey
unfolding flow_eq
FlowKey-discrete = flow_eq

pub record SynFloodDetector : Type 0 where
  pub counters : List (IpAddr × PerIpCounters)
  pub half_open : List (FlowKey × ℕ)
  pub syn_ack_ratio_threshold : ℕ
  pub half_open_threshold : ℕ
  pub half_open_ttl : ℕ

unfoldable pub new : SynFloodDetector
new = record {
  counters = [];
  half_open = [];
  syn_ack_ratio_threshold = 5;
  half_open_threshold = 200;
  half_open_ttl = secs 30;
}

-- The clock readings of one call.
pub record Readings : Type 0 where
  pub created : ℕ
  pub checked : ℕ
  pub restarted : ℕ
  pub opened : ℕ

abbrev pub flag_is_syn : ℕ → Bool
flag_is_syn flags = has_flag flags tcp_syn && not (has_flag flags tcp_ack)

abbrev pub flag_is_syn_ack : ℕ → Bool
flag_is_syn_ack flags = has_flag flags tcp_syn && has_flag flags tcp_ack

abbrev pub flag_is_rst : ℕ → Bool
flag_is_rst flags = has_flag flags tcp_rst

abbrev pub flag_is_ack : ℕ → Bool
flag_is_ack flags = not (flag_is_syn flags) && has_flag flags tcp_ack

abbrev pub or_counters : ℕ → Option PerIpCounters → PerIpCounters
or_counters now none = counters_new now
or_counters now (some c) = c

abbrev pub count_syn : Bool → PerIpCounters → PerIpCounters
count_syn b c = if b then record c { syns = (c.syns + 1) % 2 ^ 64 } else c

abbrev pub count_ack : Bool → PerIpCounters → PerIpCounters
count_ack b c = if b then record c { acks = (c.acks + 1) % 2 ^ 64 } else c

-- The counters of a source, if it has some, after a packet.
unfoldable pub bump : Readings → Option PerIpCounters → ℕ → PerIpCounters
bump t o flags =
    count_ack (flag_is_ack flags || flag_is_syn_ack flags)
      (count_syn (flag_is_syn flags) (maybe_reset t.checked t.restarted (or_counters t.created o)))

abbrev pub updated : Readings → SynFloodDetector → IpAddr → ℕ → PerIpCounters
updated t d src_ip flags = bump t (lookup IpAddr-discrete src_ip d.counters) flags

abbrev pub syn_flood_signal : Signal
syn_flood_signal = record { name = "syn_flood"; score = score_syn_flood }

abbrev pub half_open_signal : Signal
half_open_signal = record { name = "half_open_high"; score = score_half_open_high }

abbrev pub rst_signal : Signal
rst_signal = record { name = "rst_injection"; score = 25 }

abbrev pub xmas_signal : Signal
xmas_signal = record { name = "xmas_scan"; score = score_port_scan_xmas }

abbrev pub when : Bool → Signal → List Signal
when b s = if b then s ∷ [] else []

-- The ratio test on the counters.
unfoldable pub is_flood : ℕ → PerIpCounters → Bool
is_flood threshold c = leb 50 c.syns && ratio_ge (syn_ack_ratio c) threshold

-- The half-open table after the packet.
unfoldable pub track : ℕ → List (FlowKey × ℕ) → FlowKey → FlowKey → ℕ → List (FlowKey × ℕ)
track opened half_open flow_key rev_key flags =
    if flag_is_syn flags
    then insert FlowKey-discrete flow_key opened half_open
    else if flag_is_syn_ack flags || flag_is_rst flags || flag_is_ack flags
    then remove FlowKey-discrete flow_key (remove FlowKey-discrete rev_key half_open)
    else half_open

abbrev pub is_some : {A : Type 0} → Option A → Bool
is_some none = false
is_some (some a) = true

-- `contains_key`
abbrev pub contains_key : FlowKey → List (FlowKey × ℕ) → Bool
contains_key k m = is_some (lookup FlowKey-discrete k m)

unfoldable pub inspect :
    Readings → SynFloodDetector → IpAddr → IpAddr → ℕ → ℕ → ℕ → List Signal × SynFloodDetector
inspect t d src_ip dst_ip src_port dst_port flags =
    let flow_key : FlowKey = (src_ip, dst_ip, src_port, dst_port) in
    let rev_key : FlowKey = (dst_ip, src_ip, dst_port, src_port) in
    let c = updated t d src_ip flags in
    let half_open = track t.opened d.half_open flow_key rev_key flags in
    (
      when (is_flood d.syn_ack_ratio_threshold c) syn_flood_signal
          ++ (when (leb d.half_open_threshold (length half_open)) half_open_signal
              ++ (when
                    (flag_is_rst flags
                      && (not (contains_key flow_key half_open)
                          && not (contains_key rev_key half_open)))
                    rst_signal
                  ++ when (flags == tcp_xmas) xmas_signal)),
      record d { counters = insert IpAddr-discrete src_ip c d.counters; half_open = half_open },
    )

-- An entry of `retain` under its test.
abbrev pub keep_if : {V : Type 0} → Bool → V → Option V
keep_if b v = if b then some v else none

-- The elapsed time is read anew for each entry.
unfoldable pub sweep : (FlowKey → ℕ) → (IpAddr → ℕ) → SynFloodDetector → SynFloodDetector
sweep flow_now ip_now d = record d {
  half_open =
      retain_map FlowKey-discrete
        (λ k created. keep_if (ltb (flow_now k - created) d.half_open_ttl) created) d.half_open;
  counters =
      retain_map IpAddr-discrete
        (λ ip c. keep_if (ltb (ip_now ip - c.last_reset) (c.window * 10)) c) d.counters;
}
