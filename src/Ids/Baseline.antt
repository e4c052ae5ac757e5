-- ===== src/Ids/Baseline.antt =====
-- src/ids/baseline.rs. The `f64` arithmetic, the JSON encoding, the Unicode lowercase mapping and
-- the text of an address are parameters; each reading of the clock is an argument. A write of the
-- file is a value that the operation returns.
pub mod Phases
mod Tests
use ocellus_network_monitor.Prelude.{
  ℕ, zero, suc, ◌+◌, ◌-◌, ◌*◌, ◌/◌, ◌%◌, ◌^◌, Bool, true, false, ◌&&◌, Option, none, some, List, [],
  ◌∷◌, ltb, leb, ◌==◌, if◌then◌else◌, ℕ_discrete,
}
use ocellus_network_monitor.Prelude.Map.{lookup, insert, contains, add}
use ocellus_network_monitor.Packet.{IpAddr}
use ocellus_network_monitor.Text.{Str, Str-discrete}

-- The `f64` values, with `EMA_ALPHA` and `1.0 - EMA_ALPHA`.
pub record Decimals : Type 1 where
  pub Decimal : Type 0
  pub nought : Decimal
  pub ema_alpha : Decimal
  pub ema_rest : Decimal
  pub sum : Decimal → Decimal → Decimal
  pub product : Decimal → Decimal → Decimal

-- The default learning time, in seconds.
abbrev pub learning_secs : ℕ
learning_secs = 30 * 60

pub data Phase : Type 0 where
  learning refinement : Phase

unfoldable pub is_learning_phase : Phase → Bool
is_learning_phase learning = true
is_learning_phase refinement = false

module _ (decimals : Decimals) where
  open decimals use {Decimal, nought, ema_alpha, ema_rest, sum, product}

  pub record HourlyBucket : Type 0 where
    pub avg_packet_rate : Decimal
    pub avg_bytes_rate : Decimal
    pub samples : ℕ

  abbrev pub ema : Decimal → Decimal → Decimal
  ema new old = sum (product ema_alpha new) (product ema_rest old)

  unfoldable pub update : Decimal → Decimal → HourlyBucket → HourlyBucket
  update pkt_rate bytes_rate b =
      if b.samples == 0
      then record {
        avg_packet_rate = pkt_rate;
        avg_bytes_rate = bytes_rate;
        samples = b.samples + 1;
      }
      else record {
        avg_packet_rate = ema pkt_rate b.avg_packet_rate;
        avg_bytes_rate = ema bytes_rate b.avg_bytes_rate;
        samples = (b.samples + 1) % 2 ^ 64;
      }

  pub record BaselineState : Type 0 where
    pub common_ports : List ℕ
    pub dst_ips : List Str
    pub countries : List Str
    pub common_dns_domains : List Str
    pub protocol_dist : List (ℕ × Decimal)
    pub hourly : List HourlyBucket
    pub learned_at : ℕ
    pub ring_buffer_recommended : ℕ

  abbrev pub default_bucket : HourlyBucket
  default_bucket = record { avg_packet_rate = nought; avg_bytes_rate = nought; samples = 0 }

  unfoldable pub repeated : {A : Type 0} → ℕ → A → List A
  repeated zero a = []
  repeated (suc n) a = a ∷ repeated n a

  abbrev pub default_state : BaselineState
  default_state = record {
    common_ports = [];
    dst_ips = [];
    countries = [];
    common_dns_domains = [];
    protocol_dist = [];
    hourly = repeated 24 default_bucket;
    learned_at = 0;
    ring_buffer_recommended = 0;
  }

  -- Times are seconds.
  pub record Baseline : Type 0 where
    pub state : BaselineState
    pub phase : Phase
    pub learning_started : ℕ
    pub learning_duration : ℕ
    pub persist_path : Option Str

  abbrev pub or_default : Option BaselineState → BaselineState
  or_default none = default_state
  or_default (some s) = s

  abbrev pub first_phase : BaselineState → Phase
  first_phase s = if ltb 0 s.learned_at then refinement else learning

  -- `loaded` is what the file at the path was read and decoded to.
  unfoldable pub new : ℕ → Option Str → Option BaselineState → Baseline
  new now persist_path loaded =
      let state = or_default loaded in
      record {
        state = state;
        phase = first_phase state;
        learning_started = now;
        learning_duration = learning_secs;
        persist_path = persist_path;
      }

  abbrev pub is_learning : Baseline → Bool
  is_learning b = is_learning_phase b.phase

  -- The text written at the path, where there is a path and the encoding succeeds.
  abbrev pub write_at : Str → Option Str → Option (Str × Str)
  write_at path none = none
  write_at path (some json) = some (path, json)

  abbrev pub write_to : Option Str → Option Str → Option (Str × Str)
  write_to none json = none
  write_to (some path) json = write_at path json

  -- `or_insert(0.0)`
  abbrev pub or_nought : Option Decimal → Decimal
  or_nought none = nought
  or_nought (some d) = d

  unfoldable pub bump_protocol : ℕ → List (ℕ × Decimal) → List (ℕ × Decimal)
  bump_protocol proto dist =
      let entry = or_nought (lookup ℕ_discrete proto dist) in
      insert ℕ_discrete proto (sum ema_alpha (product ema_rest entry)) dist

  unfoldable pub update_at :
      ℕ → (HourlyBucket → HourlyBucket) → List HourlyBucket → List HourlyBucket
  update_at i f [] = []
  update_at zero f (b ∷ bs) = f b ∷ bs
  update_at (suc i) f (b ∷ bs) = b ∷ update_at i f bs

  abbrev pub current_hour : ℕ → ℕ
  current_hour now = now / 3600 % 24

  abbrev pub with_state : Baseline → BaselineState → Baseline
  with_state b s = record b { state = s }

  unfoldable pub observe_port : ℕ → Baseline → Baseline
  observe_port port b =
      with_state b (record b.state { common_ports = add ℕ_discrete port b.state.common_ports })

  unfoldable pub observe_country : Str → Baseline → Baseline
  observe_country code b =
      with_state b (record b.state { countries = add Str-discrete code b.state.countries })

  unfoldable pub observe_protocol : ℕ → Baseline → Baseline
  observe_protocol proto b =
      with_state b (record b.state { protocol_dist = bump_protocol proto b.state.protocol_dist })

  unfoldable pub observe_rates : ℕ → Decimal → Decimal → Baseline → Baseline
  observe_rates now pkt_rate bytes_rate b = with_state b (record b.state {
    hourly = update_at (current_hour now) (update pkt_rate bytes_rate) b.state.hourly;
  })

  unfoldable pub is_known_port : Baseline → ℕ → Bool
  is_known_port b port = contains ℕ_discrete port b.state.common_ports

  unfoldable pub is_known_country : Baseline → Str → Bool
  is_known_country b code = contains Str-discrete code b.state.countries

  module _ (ip_to_string : IpAddr → Str) where
    unfoldable pub observe_dst_ip : IpAddr → Baseline → Baseline
    observe_dst_ip ip b =
        with_state b
          (record b.state { dst_ips = add Str-discrete (ip_to_string ip) b.state.dst_ips })

  module _ (to_lowercase : Str → Str) where
    unfoldable pub observe_dns : Str → Baseline → Baseline
    observe_dns domain b = with_state b (record b.state {
      common_dns_domains = add Str-discrete (to_lowercase domain) b.state.common_dns_domains;
    })

    unfoldable pub is_known_dns : Baseline → Str → Bool
    is_known_dns b domain = contains Str-discrete (to_lowercase domain) b.state.common_dns_domains

  module _ (to_json : BaselineState → Option Str) where
    -- The file and the text that are written.
    unfoldable pub persist : Baseline → Option (Str × Str)
    persist b = write_to b.persist_path (to_json b.state)

    unfoldable pub finish_learning : ℕ → Baseline → Option (Str × Str) × Baseline
    finish_learning now b =
        if is_learning b
        then (let b' = record b {
          phase = refinement;
          state = record b.state { learned_at = now };
        } in
            (persist b', b'))
        else (none, b)

    -- `checked` is the reading for the elapsed time, `now` the one of `finish_learning`.
    unfoldable pub tick_phase : ℕ → ℕ → Baseline → Option (Str × Str) × Baseline
    tick_phase checked now b =
        if is_learning b && leb b.learning_duration (checked - b.learning_started)
        then finish_learning now b
        else (none, b)
