-- ===== src/Ids/Engine/Workers.antt =====
-- src/ids/mod.rs and src/analyzer.rs: calls of `analyze` that run at the same time on one engine, beside the
-- sweeper. A call takes a step for each detector that it asks, for each look at the baseline and for each
-- observation that it makes; between two steps any other thread may move.
pub mod Advance
pub mod Learning
pub mod Together
mod Tests
use ocellus_network_monitor.Prelude.{
  ℕ, zero, suc, ◌||◌, Option, none, some, List, [], ◌∷◌, ◌++◌, get_elem?, set, map, ltb,
  if◌then◌else◌, Outcome, done, ◌>>=◌,
}
use ocellus_network_monitor.Packet.{IpAddr, TransportMeta, RawPacket}
use ocellus_network_monitor.Text.{Str}
use ocellus_network_monitor.Ids.Score.{IdsResult, from_signals, threshold_info}
use ocellus_network_monitor.Ids.Baseline
use ocellus_network_monitor.Ids.Baseline.{is_learning_phase}
use ocellus_network_monitor.Ids.PortScan
use ocellus_network_monitor.Ids.RateLimit
use ocellus_network_monitor.Ids.SynFlood
use ocellus_network_monitor.Ids.Engine.{
  Report, empty_report, Clock, Externals, IdsEngine, check_addresses, check_rate, check_ports,
  check_handshake, check_country, check_headers, scan_payload, dns_query_name, check_dns,
  check_unusual_port, check_vlan,
}

-- A write of the baseline.
pub data Observation : Type 0 where
  saw_port : ℕ → Observation
  saw_dst_ip : IpAddr → Observation
  saw_protocol : ℕ → Observation
  saw_country : Str → Observation
  saw_dns : Str → Observation

abbrev pub if_some : {A : Type 0} → (A → Observation) → Option A → List Observation
if_some f none = []
if_some f (some a) = f a ∷ []

-- The observations of a packet, in the order of the code.
unfoldable pub observations : TransportMeta → Option Str → Option Str → List Observation
observations tm geo_country query_name =
    if_some saw_port tm.dst_port
    ++ (saw_dst_ip tm.dst_ip
        ∷ saw_protocol tm.protocol
        ∷ (if_some saw_country geo_country ++ if_some saw_dns query_name))

-- What a call does next; after its decision it has its result.
pub data Place : Type 0 where
  rates ports handshakes countries payloads names unusual decides : Place
  observing : List Observation → IdsResult → Place
  finished : IdsResult → Place

-- A call of `analyze` on a packet with headers.
pub record Work : Type 0 where
  pub pkt : RawPacket
  pub tm : TransportMeta
  pub report : Report
  pub query_name : Option Str
  pub place : Place

-- A move of a call, by its place in the list, or one of the steps of the sweeper's round.
pub data Move : Type 0 where
  works_on : ℕ → Clock → Move
  sweeps_ports : ℕ → Move
  sweeps_flows : (SynFlood.FlowKey → ℕ) → (IpAddr → ℕ) → Move
  sweeps_buckets : (IpAddr → ℕ) → Move
  ticks_phase : ℕ → ℕ → Move

module _ (externals : Externals) where
  open externals use {decimals, to_lowercase, ip_to_string, country_code}

  abbrev pub E : Type 0
  E = IdsEngine externals

  unfoldable pub observe : Observation → Baseline.Baseline decimals → Baseline.Baseline decimals
  observe (saw_port p) b = Baseline.observe_port decimals p b
  observe (saw_dst_ip ip) b = Baseline.observe_dst_ip decimals ip_to_string ip b
  observe (saw_protocol p) b = Baseline.observe_protocol decimals p b
  observe (saw_country code) b = Baseline.observe_country decimals code b
  observe (saw_dns domain) b = Baseline.observe_dns decimals to_lowercase domain b

  -- The blacklist does not change while calls run.
  unfoldable pub begin : E → RawPacket → TransportMeta → Work
  begin e pkt tm = record {
    pkt = pkt;
    tm = tm;
    report = check_addresses externals e tm empty_report;
    query_name = none;
    place = rates;
  }

  abbrev pub reported : Work → Place → Report × E → Outcome (Work × E)
  reported w place (r, e) = done (record w { report = r; place = place }, e)

  -- The decision whether the baseline learns from the packet.
  unfoldable pub decide : E → Work → Place
  decide e w =
      let result = from_signals w.report.signals w.report.flag in
      if is_learning_phase e.baseline.phase || ltb result.total_score threshold_info
      then observing (observations w.tm (country_code w.tm.src_ip) w.query_name) result
      else finished result

  unfoldable pub advance_at : Clock → Place → E → Work → Outcome (Work × E)
  unfolding decide
  advance_at clock rates e w = reported w ports (check_rate externals clock e w.pkt w.tm w.report)
  advance_at clock ports e w =
      reported w handshakes (check_ports externals clock e w.tm w.tm.dst_port w.report)
  advance_at clock handshakes e w =
      reported w countries
        (check_handshake externals clock e w.tm w.tm.tcp_flags w.tm.src_port w.tm.dst_port w.report)
  advance_at clock countries e w =
      reported w payloads (
        check_country externals e (country_code w.tm.src_ip) (check_headers w.pkt w.tm w.report),
        e,
      )
  advance_at clock payloads e w = do
    scanned ← scan_payload externals e w.pkt w.tm w.report
    query_name ← dns_query_name w.pkt w.tm
    done (record w { report = scanned; query_name = query_name; place = names }, e)
  advance_at clock names e w = do
    named ← check_dns externals e w.pkt w.tm w.query_name w.report
    done (record w { report = named; place = unusual }, e)
  advance_at clock unusual e w =
      reported w decides
        (check_vlan w.tm.vlan_id (check_unusual_port externals e w.tm.dst_port w.report), e)
  advance_at clock decides e w = done (record w { place = decide e w }, e)
  advance_at clock (observing [] result) e w = done (record w { place = finished result }, e)
  advance_at clock (observing (o ∷ os) result) e w =
      done (record w { place = observing os result }, record e { baseline = observe o e.baseline })
  advance_at clock (finished result) e w = done (w, e)

  abbrev pub advance : Clock → E → Work → Outcome (Work × E)
  advance clock e w = advance_at clock w.place e w

  -- The engine with the calls that share it.
  pub record Pool : Type 0 where
    pub engine : E
    pub works : List Work

  abbrev pub put_work : Pool → ℕ → Work × E → Pool
  put_work p i (w, e) = record { engine = e; works = set p.works i w }

  abbrev pub work_on : Clock → ℕ → Pool → Option Work → Outcome Pool
  work_on clock i p none = done p
  work_on clock i p (some w) = advance clock p.engine w >>= λ m. done (put_work p i m)

  abbrev pub with_engine : Pool → E → Outcome Pool
  with_engine p e = done (record p { engine = e })

  module _ (to_json : Baseline.BaselineState decimals → Option Str) where
    unfoldable pub move : Pool → Move → Outcome Pool
    move p (works_on i clock) = work_on clock i p (get_elem? p.works i)
    move p (sweeps_ports now) =
        with_engine p (record p.engine { port_scan = PortScan.sweep now p.engine.port_scan })
    move p (sweeps_flows flows counters) =
        with_engine p
          (record p.engine { syn_flood = SynFlood.sweep flows counters p.engine.syn_flood })
    move p (sweeps_buckets buckets) =
        with_engine p
          (record p.engine { rate_limiter = RateLimit.sweep buckets p.engine.rate_limiter })
    move p (ticks_phase checked ended) = with_engine p (record p.engine {
      baseline = (Baseline.tick_phase decimals to_json checked ended p.engine.baseline).1;
    })

    unfoldable pub run_moves : Pool → List Move → Outcome Pool
    run_moves p [] = done p
    run_moves p (m ∷ ms) = do p' ← move p m; run_moves p' ms

  abbrev pub begin_all : E → List (RawPacket × TransportMeta) → List Work
  begin_all e ps = map (λ p. begin e p.0 p.1) ps
