-- ===== src/Ids/Baseline/Phases.antt =====
-- Runs of the baseline: the phase it is in, and what it knows.
use ocellus_network_monitor.Prelude.{
  ℕ, ◌-◌, ◌≡◌, refl, Bool, true, false, not, ◌&&◌, ◌||◌, Option, List, [], ◌∷◌, any, leb,
  ℕ_discrete, ite, arith,
}
use ocellus_network_monitor.Prelude.Map.{contains-add}
use ocellus_network_monitor.Packet.{IpAddr}
use ocellus_network_monitor.Text.{Str, Str-discrete}
use ocellus_network_monitor.Ids.Baseline.{
  Decimals, is_learning_phase, BaselineState, Baseline, is_learning, observe_port, observe_country,
  observe_protocol, observe_rates, observe_dst_ip, observe_dns, is_known_port, is_known_country,
  is_known_dns, finish_learning, tick_phase,
}

-- The equality test of a set's elements.
abbrev same {ℓ} : {A : Type ℓ} → Discrete A → A → A → Bool
same dec a b = ite (dec a b) true false

module _ (decimals : Decimals) (ip_to_string : IpAddr → Str) (to_lowercase : Str → Str)
    (to_json : BaselineState decimals → Option Str) where
  open decimals use {Decimal}

  abbrev B : Type 0
  B = Baseline decimals

  -- A call of a worker or of the sweeper.
  pub data Event : Type 0 where
    port : ℕ → Event
    dst_ip : IpAddr → Event
    country : Str → Event
    dns : Str → Event
    protocol : ℕ → Event
    rates : ℕ → Decimal → Decimal → Event
    tick : ℕ → ℕ → Event
    finish : ℕ → Event

  pub apply : B → Event → B
  apply b (port p) = observe_port decimals p b
  apply b (dst_ip ip) = observe_dst_ip decimals ip_to_string ip b
  apply b (country c) = observe_country decimals c b
  apply b (dns d) = observe_dns decimals to_lowercase d b
  apply b (protocol p) = observe_protocol decimals p b
  apply b (rates now pkts bytes) = observe_rates decimals now pkts bytes b
  apply b (tick checked now) = (tick_phase decimals to_json checked now b).1
  apply b (finish now) = (finish_learning decimals to_json now b).1

  pub run_events : B → List Event → B
  run_events b [] = b
  run_events b (e ∷ es) = run_events (apply b e) es

  -- The call ends the learning of a baseline started then.
  pub ends : ℕ → ℕ → Event → Bool
  ends started duration (port p) = false
  ends started duration (dst_ip ip) = false
  ends started duration (country c) = false
  ends started duration (dns d) = false
  ends started duration (protocol p) = false
  ends started duration (rates now pkts bytes) = false
  ends started duration (tick checked now) = leb duration (checked - started)
  ends started duration (finish now) = true

  apply-fixed :
      (b : B) (e : Event)
      → ((apply b e).learning_started ≡ b.learning_started)
        × ((apply b e).learning_duration ≡ b.learning_duration)
  unfolding apply observe_port observe_dst_ip observe_country observe_dns observe_protocol
      observe_rates tick_phase finish_learning
  apply-fixed b (port p) = (refl, refl)
  apply-fixed b (dst_ip ip) = (refl, refl)
  apply-fixed b (country c) = (refl, refl)
  apply-fixed b (dns d) = (refl, refl)
  apply-fixed b (protocol p) = (refl, refl)
  apply-fixed b (rates now pkts bytes) = (refl, refl)
  apply-fixed b (tick checked now) = (ground arith, ground arith)
  apply-fixed b (finish now) = (ground arith, ground arith)

  apply-phase :
      (b : B) (e : Event)
      → is_learning decimals (apply b e)
        ≡ (is_learning decimals b && not (ends b.learning_started b.learning_duration e))
  unfolding apply ends is_learning_phase observe_port observe_dst_ip observe_country observe_dns
      observe_protocol observe_rates tick_phase finish_learning
  apply-phase b (port p) = ground arith
  apply-phase b (dst_ip ip) = ground arith
  apply-phase b (country c) = ground arith
  apply-phase b (dns d) = ground arith
  apply-phase b (protocol p) = ground arith
  apply-phase b (rates now pkts bytes) = ground arith
  apply-phase b (tick checked now) = ground arith
  apply-phase b (finish now) = ground arith

  -- After any calls the baseline is learning exactly when it was before them and none of them was an
  -- explicit `finish_learning` or a `tick_phase` that read the clock once the learning time was over.
  -- So it never returns to learning.
  pub learning_until :
      (b : B) (es : List Event)
      → is_learning decimals (run_events b es)
        ≡ (is_learning decimals b && not (any (ends b.learning_started b.learning_duration) es))
  unfolding run_events
  learning_until b [] = ground arith
  learning_until b (e ∷ es) =
      let (s, d) = apply-fixed b e in
      ground (arith, learning_until (apply b e) es, apply-phase b e, s, d)

  -- What a call adds to a set.
  pub adds_port : ℕ → Event → Bool
  adds_port p (port q) = same ℕ_discrete q p
  adds_port p e = false

  pub adds_country : Str → Event → Bool
  adds_country c (country d) = same Str-discrete d c
  adds_country c e = false

  pub adds_dns : Str → Event → Bool
  adds_dns n (dns d) = same Str-discrete (to_lowercase d) (to_lowercase n)
  adds_dns n e = false

  apply-port :
      (b : B) (e : Event) (p : ℕ)
      → is_known_port decimals (apply b e) p ≡ (is_known_port decimals b p || adds_port p e)
  unfolding apply adds_port is_known_port observe_port observe_dst_ip observe_country observe_dns
      observe_protocol observe_rates tick_phase finish_learning
  apply-port b (port q) p = ground (arith, contains-add ℕ_discrete q p b.state.common_ports)
  apply-port b (dst_ip ip) p = ground arith
  apply-port b (country c) p = ground arith
  apply-port b (dns d) p = ground arith
  apply-port b (protocol q) p = ground arith
  apply-port b (rates now pkts bytes) p = ground arith
  apply-port b (tick checked now) p = ground arith
  apply-port b (finish now) p = ground arith

  apply-country :
      (b : B) (e : Event) (c : Str)
      → is_known_country decimals (apply b e) c
        ≡ (is_known_country decimals b c || adds_country c e)
  unfolding apply adds_country is_known_country observe_port observe_dst_ip observe_country
      observe_dns observe_protocol observe_rates tick_phase finish_learning
  apply-country b (country d) c = ground (arith, contains-add Str-discrete d c b.state.countries)
  apply-country b (dst_ip ip) c = ground arith
  apply-country b (port q) c = ground arith
  apply-country b (dns d) c = ground arith
  apply-country b (protocol q) c = ground arith
  apply-country b (rates now pkts bytes) c = ground arith
  apply-country b (tick checked now) c = ground arith
  apply-country b (finish now) c = ground arith

  apply-dns :
      (b : B) (e : Event) (n : Str)
      → is_known_dns decimals to_lowercase (apply b e) n
        ≡ (is_known_dns decimals to_lowercase b n || adds_dns n e)
  unfolding apply adds_dns is_known_dns observe_port observe_dst_ip observe_country observe_dns
      observe_protocol observe_rates tick_phase finish_learning
  apply-dns b (dns d) n = ground (
    arith,
    contains-add Str-discrete (to_lowercase d) (to_lowercase n) b.state.common_dns_domains,
  )
  apply-dns b (dst_ip ip) n = ground arith
  apply-dns b (port q) n = ground arith
  apply-dns b (country c) n = ground arith
  apply-dns b (protocol q) n = ground arith
  apply-dns b (rates now pkts bytes) n = ground arith
  apply-dns b (tick checked now) n = ground arith
  apply-dns b (finish now) n = ground arith

  -- After any calls a port, a country or a domain is known exactly when it was before or one of the
  -- calls observed it; for domains, one with the same lowercase form. Nothing is forgotten, the end
  -- of the learning phase included.
  pub known_after :
      (b : B) (es : List Event) (p : ℕ) (c n : Str)
      → let b' = run_events b es in
        (is_known_port decimals b' p ≡ (is_known_port decimals b p || any (adds_port p) es))
        × (is_known_country decimals b' c
            ≡ (is_known_country decimals b c || any (adds_country c) es))
        × (is_known_dns decimals to_lowercase b' n
            ≡ (is_known_dns decimals to_lowercase b n || any (adds_dns n) es))
  unfolding run_events
  known_after b [] p c n = (ground arith, ground arith, ground arith)
  known_after b (e ∷ es) p c n =
      let (hp, hc, hn) = known_after (apply b e) es p c n in
      (
        ground (arith, hp, apply-port b e p),
        ground (arith, hc, apply-country b e c),
        ground (arith, hn, apply-dns b e n),
      )
