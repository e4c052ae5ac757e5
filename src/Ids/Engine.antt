-- ===== src/Ids/Engine.antt =====
-- src/ids/mod.rs: the analysis of one packet by all detectors, in the order of the code, and a tick of
-- the sweeper. The country of an address is a parameter, which start-up fills with the detector of Ids.Geo.
pub mod Extend
pub mod Run
pub mod Verdict
pub mod Workers
mod Tests
mod Checks
unfoldable pub use Checks.*
use ocellus_network_monitor.Prelude.{
  ℕ, ◌+◌, ◌<◌, Bool, true, false, not, ◌&&◌, ◌||◌, Option, none, some, String, List, [], ◌∷◌, ◌++◌,
  length, ltb, leb, ◌==◌, if◌then◌else◌, ℕ_discrete, bit_and, Outcome, done, panic, ◌>>=◌,
  slice_from,
}
use ocellus_network_monitor.Prelude.Map.{contains}
use ocellus_network_monitor.Packet.{IpAddr, TransportMeta, RawPacket}
use ocellus_network_monitor.Text.{Str}
use ocellus_network_monitor.Ids.Score.{
  Signal, IdsResult, from_signals, is_clean, threshold_info, score_geo_anomaly,
  score_unusual_port_network, score_unusual_port_global,
}
use ocellus_network_monitor.Ids.Baseline
use ocellus_network_monitor.Ids.Baseline.{Decimals, is_learning_phase}
use ocellus_network_monitor.Ids.Blacklist
use ocellus_network_monitor.Ids.Blacklist.{Bloom}
use ocellus_network_monitor.Ids.Dns
use ocellus_network_monitor.Ids.Dns.{Floats}
use ocellus_network_monitor.Ids.Payload
use ocellus_network_monitor.Ids.Payload.{AhoCorasick}
use ocellus_network_monitor.Ids.PortScan
use ocellus_network_monitor.Ids.RateLimit
use ocellus_network_monitor.Ids.SynFlood

-- The clock readings of the detectors in one call.
pub record Clock : Type 0 where
  pub rate : RateLimit.Readings
  pub ports : ℕ
  pub sources : ℕ
  pub handshake : SynFlood.Readings

-- The clock readings of one round of the sweeper.
pub record SweepClock : Type 0 where
  pub ports : ℕ
  pub flows : SynFlood.FlowKey → ℕ
  pub counters : IpAddr → ℕ
  pub buckets : IpAddr → ℕ
  pub checked : ℕ
  pub ended : ℕ

-- What is not of the program: the libraries, and the country of an address.
pub record Externals : Type 1 where
  pub bloom : Bloom
  pub crate : AhoCorasick
  pub floats : Floats
  pub decimals : Decimals
  pub hash : IpAddr → ℕ
  pub to_lowercase : Str → Str
  pub ip_to_string : IpAddr → Str
  pub country_code : IpAddr → Option Str

module _ (externals : Externals) where
  open externals use {
    bloom, crate, floats, decimals, hash, to_lowercase, ip_to_string, country_code,
  }

  pub record IdsEngine : Type 0 where
    pub port_scan : PortScan.PortScanDetector
    pub syn_flood : SynFlood.SynFloodDetector
    pub rate_limiter : RateLimit.RateLimiter
    pub blacklist : Blacklist.Blacklist bloom to_lowercase
    pub payload_scanner : Payload.PayloadScanner crate
    pub baseline : Baseline.Baseline decimals

  unfoldable pub new :
      Baseline.Baseline decimals → Blacklist.Blacklist bloom to_lowercase → IdsEngine
  new baseline blacklist = record {
    port_scan = PortScan.new;
    syn_flood = SynFlood.new;
    rate_limiter = RateLimit.new;
    blacklist = blacklist;
    payload_scanner = Payload.new crate;
    baseline = baseline;
  }

  unfoldable pub check_addresses : IdsEngine → TransportMeta → Report → Report
  check_addresses e tm r =
      raise_option 7 (Blacklist.check_ip bloom to_lowercase e.blacklist tm.dst_ip)
        (check_source (Blacklist.check_ip bloom to_lowercase e.blacklist tm.src_ip) r)

  unfoldable pub check_rate :
      Clock → IdsEngine → RawPacket → TransportMeta → Report → Report × IdsEngine
  check_rate clock e pkt tm r =
      let (s, l) =
        RateLimit.inspect clock.rate e.rate_limiter tm.src_ip pkt.orig_len (is_syn tm.tcp_flags) in
      (raise_option 6 s r, record e { rate_limiter = l })

  unfoldable pub check_ports :
      Clock → IdsEngine → TransportMeta → Option ℕ → Report → Report × IdsEngine
  check_ports clock e tm none r = (r, e)
  check_ports clock e tm (some dst_port) r =
      let (s, d) = PortScan.inspect hash clock.ports clock.sources e.port_scan tm.src_ip dst_port in
      (raise_option 1 s r, record e { port_scan = d })

  unfoldable pub check_handshake :
      Clock
      → IdsEngine
      → TransportMeta
      → Option ℕ
      → Option ℕ
      → Option ℕ
      → Report
      → Report × IdsEngine
  check_handshake clock e tm none src_port dst_port r = (r, e)
  check_handshake clock e tm (some flags) none dst_port r = (r, e)
  check_handshake clock e tm (some flags) (some src_port) none r = (r, e)
  check_handshake clock e tm (some flags) (some src_port) (some dst_port) r =
      let (ss, d) =
        SynFlood.inspect clock.handshake e.syn_flood tm.src_ip tm.dst_ip src_port dst_port flags in
      (raise_all 2 ss r, record e { syn_flood = d })

  -- The state of the baseline is read only.
  unfoldable pub check_country : IdsEngine → Option Str → Report → Report
  check_country e none r = r
  check_country e (some code) r =
      if not (is_learning_phase e.baseline.phase)
        && not (Baseline.is_known_country decimals e.baseline code)
      then raise 4 (plain_signal "geo_new_country" score_geo_anomaly) r
      else r

  unfoldable pub scan_payload : IdsEngine → RawPacket → TransportMeta → Report → Outcome Report
  scan_payload e pkt tm r =
      if has_payload pkt tm
      then (do
        payload ← slice_from pkt.bytes tm.payload_offset
        ss ← Payload.scan_all crate e.payload_scanner payload
        done (raise_all 5 ss r))
      else done r

  abbrev pub dns_anomalies : IdsEngine → Str → Report → Report
  dns_anomalies e domain r =
      if not (Baseline.is_known_dns decimals to_lowercase e.baseline domain)
      then raise_all 3 (Dns.inspect_name floats to_lowercase domain) r
      else r

  unfoldable pub check_dns :
      IdsEngine → RawPacket → TransportMeta → Option Str → Report → Outcome Report
  check_dns e pkt tm none r = done r
  check_dns e pkt tm (some domain) r =
      let r' =
        dns_anomalies e domain
          (raise_option 7 (Blacklist.check_domain bloom to_lowercase e.blacklist domain) r) in
      if ltb tm.payload_offset (length pkt.bytes)
      then (do
        payload ← slice_from pkt.bytes tm.payload_offset
        ss ← Dns.inspect_payload floats to_lowercase payload
        done (raise_all 3 ss r'))
      else done r'

  unfoldable pub check_unusual_port : IdsEngine → Option ℕ → Report → Report
  check_unusual_port e none r = r
  check_unusual_port e (some dst_port) r =
      note_if
        (not (is_learning_phase e.baseline.phase)
          && not (Baseline.is_known_port decimals e.baseline dst_port))
        (plain_signal "unusual_port" (port_score dst_port)) r

  abbrev pub observe_port_option :
      Option ℕ → Baseline.Baseline decimals → Baseline.Baseline decimals
  observe_port_option none b = b
  observe_port_option (some p) b = Baseline.observe_port decimals p b

  abbrev pub observe_country_option :
      Option Str → Baseline.Baseline decimals → Baseline.Baseline decimals
  observe_country_option none b = b
  observe_country_option (some code) b = Baseline.observe_country decimals code b

  abbrev pub observe_dns_option :
      Option Str → Baseline.Baseline decimals → Baseline.Baseline decimals
  observe_dns_option none b = b
  observe_dns_option (some domain) b = Baseline.observe_dns decimals to_lowercase domain b

  -- The observations of one packet.
  unfoldable pub observe_packet :
      TransportMeta
      → Option Str
      → Option Str
      → Baseline.Baseline decimals
      → Baseline.Baseline decimals
  observe_packet tm geo_country query_name b = observe_dns_option query_name (
      observe_country_option geo_country (
        Baseline.observe_protocol decimals tm.protocol (
          Baseline.observe_dst_ip decimals ip_to_string tm.dst_ip
            (observe_port_option tm.dst_port b))))

  -- The end of `analyze`: the result, and the baseline where it may learn from the packet.
  unfoldable pub conclude :
      IdsEngine → TransportMeta → Option Str → Option Str → Report → IdsResult × IdsEngine
  conclude e tm geo_country query_name r =
      let result = from_signals r.signals r.flag in
      if is_learning_phase e.baseline.phase || ltb result.total_score threshold_info
      then (result, record e { baseline = observe_packet tm geo_country query_name e.baseline })
      else (result, e)

  -- The detectors with state, in the order of the code.
  unfoldable pub run_detectors : Clock → IdsEngine → RawPacket → TransportMeta → Report × IdsEngine
  run_detectors clock e pkt tm =
      let (r, e1) = check_rate clock e pkt tm (check_addresses e tm empty_report) in
      let (r', e2) = check_ports clock e1 tm tm.dst_port r in
      check_handshake clock e2 tm tm.tcp_flags tm.src_port tm.dst_port r'

  abbrev pub analyze_transport :
      Clock → IdsEngine → RawPacket → TransportMeta → Outcome (IdsResult × IdsEngine)
  analyze_transport clock e pkt tm = do
    let (r, e') = run_detectors clock e pkt tm
    let geo_country = country_code tm.src_ip
    let r' = check_country e' geo_country (check_headers pkt tm r)
    scanned ← scan_payload e' pkt tm r'
    query_name ← dns_query_name pkt tm
    named ← check_dns e' pkt tm query_name scanned
    done (
        conclude e' tm geo_country query_name
          (check_vlan tm.vlan_id (check_unusual_port e' tm.dst_port named)))

  abbrev pub analyze_option :
      Clock → IdsEngine → RawPacket → Option TransportMeta → Outcome (IdsResult × IdsEngine)
  analyze_option clock e pkt none = done (from_signals [] 0, e)
  analyze_option clock e pkt (some tm) = analyze_transport clock e pkt tm

  unfoldable pub analyze : Clock → IdsEngine → RawPacket → Outcome (IdsResult × IdsEngine)
  analyze clock e pkt = analyze_option clock e pkt pkt.transport

  -- One round of the sweeper thread, with the texts written to the baseline's file.
  unfoldable pub sweep_tick :
      (Baseline.BaselineState decimals → Option Str)
      → SweepClock
      → IdsEngine
      → List (Option (Str × Str)) × IdsEngine
  sweep_tick to_json clock e =
      let (write, b) = Baseline.tick_phase decimals to_json clock.checked clock.ended e.baseline in
      (
        write ∷ Baseline.persist decimals to_json b ∷ [],
        record e {
          port_scan = PortScan.sweep clock.ports e.port_scan;
          syn_flood = SynFlood.sweep clock.flows clock.counters e.syn_flood;
          rate_limiter = RateLimit.sweep clock.buckets e.rate_limiter;
          baseline = b;
        },
      )
