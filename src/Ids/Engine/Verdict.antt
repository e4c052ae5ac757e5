-- ===== src/Ids/Engine/Verdict.antt =====
-- `analyze` as a whole: it returns, a blacklisted source decides its flag, and the baseline learns in
-- the refinement phase from clean packets only.
use ocellus_network_monitor.Prelude.{
  ℕ, ◌≡◌, refl, sym, ◌∙◌, subst, Bool, Bool-cases, inl, inr, true, false, not, ◌&&◌, ◌||◌, Option,
  none, some, length, ltb, ◌==◌, if◌then◌else◌, arith, tests, Outcome, done, drop, Ensures,
  Ensures-slice_from, Ensures-bind, Ensures-guard,
}
use ocellus_network_monitor.Packet.{TransportMeta, RawPacket}
use ocellus_network_monitor.Text.{Str}
use ocellus_network_monitor.Ids.Score.{IdsResult, from_signals, is_clean, threshold_info}
use ocellus_network_monitor.Ids.Baseline
use ocellus_network_monitor.Ids.Baseline.{Decimals, is_learning_phase}
use ocellus_network_monitor.Ids.Blacklist
use ocellus_network_monitor.Ids.Blacklist.{Bloom}
use ocellus_network_monitor.Ids.Dns
use ocellus_network_monitor.Ids.Dns.{Floats}
use ocellus_network_monitor.Ids.Dns.Query.{extract_dns_query_name-returns, inspect_payload-returns}
use ocellus_network_monitor.Ids.Payload
use ocellus_network_monitor.Ids.Payload.{AhoCorasick}
use ocellus_network_monitor.Ids.Payload.Scan.{scan_all-reports}
use ocellus_network_monitor.Ids.RateLimit
use ocellus_network_monitor.Ids.Engine.{
  Report, empty_report, raise_option, has_payload, is_port, is_syn, dns_query_name, Clock,
  Externals, IdsEngine, check_addresses, check_rate, check_ports, check_handshake, check_country,
  check_headers, scan_payload, dns_anomalies, check_dns, check_unusual_port, observe_packet,
  conclude, run_detectors, analyze_option,
}
use ocellus_network_monitor.Ids.Engine.Extend.{
  Extends, Extends-refl, Extends-trans, raise-Extends, raise_option-Extends, raise_all-Extends,
  note_if-Extends, check_headers-Extends, check_vlan-Extends,
}

-- A computation that returns ensures what holds of its value.
Ensures-returned :
    {A : Type 0} (m : Outcome A) → (a : A) × (m ≡ done a) → Ensures (λ (_ : A). Unit {0}) m
Ensures-returned m (a, e) = subst (Ensures (λ _. Unit {0})) (sym e) tt

pub dns_query_name-returns :
    (pkt : RawPacket) (tm : TransportMeta)
    → Ensures (λ (_ : Option Str). Unit {0}) (dns_query_name pkt tm)
unfolding dns_query_name
dns_query_name-returns pkt tm =
    Ensures-guard _
      (tm.protocol == 17
        && ((is_port tm.dst_port 53 || is_port tm.src_port 53) && has_payload pkt tm))
      _ _
      (λ h. Ensures-slice_from _ pkt.bytes tm.payload_offset _ (ground arith) (
        Ensures-returned (Dns.extract_dns_query_name (drop tm.payload_offset pkt.bytes))
          (extract_dns_query_name-returns (drop tm.payload_offset pkt.bytes))))
      λ _. tt

if_Extends : (b : Bool) (r s : Report) → Extends r s → Extends r (if b then s else r)
if_Extends true r s h = h
if_Extends false r s h = Extends-refl r

module _ (externals : Externals) where
  open externals use {
    bloom, crate, floats, decimals, hash, to_lowercase, ip_to_string, country_code,
  }

  abbrev E : Type 0
  E = IdsEngine externals

  -- The parts of the engine that no detector with state changes.
  abbrev pub Same : E → E → Type 0
  Same e e' =
      (e'.baseline ≡ e.baseline)
      × (e'.blacklist ≡ e.blacklist)
      × (e'.payload_scanner ≡ e.payload_scanner)

  pub check_ports-lem :
      (clock : Clock) (e : E) (tm : TransportMeta) (o : Option ℕ) (r : Report)
      → let (r', e') = check_ports externals clock e tm o r in Extends r r' × Same e e'
  unfolding check_ports
  check_ports-lem clock e tm none r = (Extends-refl r, (refl, refl, refl))
  check_ports-lem clock e tm (some p) r = (raise_option-Extends 1 _ r, (refl, refl, refl))

  pub check_handshake-lem :
      (clock : Clock) (e : E) (tm : TransportMeta) (f s d : Option ℕ) (r : Report)
      → let (r', e') = check_handshake externals clock e tm f s d r in Extends r r' × Same e e'
  unfolding check_handshake
  check_handshake-lem clock e tm none s d r = (Extends-refl r, (refl, refl, refl))
  check_handshake-lem clock e tm (some f) none d r = (Extends-refl r, (refl, refl, refl))
  check_handshake-lem clock e tm (some f) (some s) none r = (Extends-refl r, (refl, refl, refl))
  check_handshake-lem clock e tm (some f) (some s) (some d) r =
      (raise_all-Extends 2 _ r, (refl, refl, refl))

  run_detectors-lem :
      (clock : Clock) (e : E) (pkt : RawPacket) (tm : TransportMeta)
      → let (r, e') = run_detectors externals clock e pkt tm in
        Extends (check_addresses externals e tm empty_report) r × Same e e'
  unfolding run_detectors check_rate
  run_detectors-lem clock e pkt tm =
      let (s, l) =
        RateLimit.inspect clock.rate e.rate_limiter tm.src_ip pkt.orig_len (is_syn tm.tcp_flags) in
      let r = check_addresses externals e tm empty_report in
      let r1 = raise_option 6 s r in
      let e1 : E = record e { rate_limiter = l } in
      let p2 = check_ports externals clock e1 tm tm.dst_port r1 in
      let (x2, (b2, l2, s2)) = check_ports-lem clock e1 tm tm.dst_port r1 in
      let (x3, (b3, l3, s3)) =
        check_handshake-lem clock p2.1 tm tm.tcp_flags tm.src_port tm.dst_port p2.0 in
      (
        Extends-trans r r1 _ (raise_option-Extends 6 s r) (Extends-trans r1 p2.0 _ x2 x3),
        (b3 ∙ b2, l3 ∙ l2, s3 ∙ s2),
      )

  pub check_country-Extends :
      (e : E) (o : Option Str) (r : Report) → Extends r (check_country externals e o r)
  unfolding check_country
  check_country-Extends e none r = Extends-refl r
  check_country-Extends e (some code) r = if_Extends _ r _ (raise-Extends 4 _ r)

  pub check_unusual_port-Extends :
      (e : E) (o : Option ℕ) (r : Report) → Extends r (check_unusual_port externals e o r)
  unfolding check_unusual_port
  check_unusual_port-Extends e none r = Extends-refl r
  check_unusual_port-Extends e (some p) r =
      note_if-Extends
        (not (is_learning_phase e.baseline.phase)
          && not (Baseline.is_known_port decimals e.baseline p))
        _ r

  pub scan_payload-Extends :
      (e : E) (pkt : RawPacket) (tm : TransportMeta) (r : Report)
      → e.payload_scanner ≡ Payload.new crate
      → Ensures (Extends r) (scan_payload externals e pkt tm r)
  unfolding scan_payload
  scan_payload-Extends e pkt tm r h =
      Ensures-guard (Extends r) (has_payload pkt tm) _ _
        (λ inside. Ensures-slice_from (Extends r) pkt.bytes tm.payload_offset _ (ground arith) (
          let (ss, returned, _, _) = scan_all-reports crate (drop tm.payload_offset pkt.bytes) in
          rw (h, returned) (raise_all-Extends 5 ss r)))
        λ _. Extends-refl r

  dns_anomalies-Extends :
      (e : E) (domain : Str) (r : Report) → Extends r (dns_anomalies externals e domain r)
  dns_anomalies-Extends e domain r = if_Extends _ r _ (raise_all-Extends 3 _ r)

  pub check_dns-Extends :
      (e : E) (pkt : RawPacket) (tm : TransportMeta) (o : Option Str) (r : Report)
      → Ensures (Extends r) (check_dns externals e pkt tm o r)
  unfolding check_dns
  check_dns-Extends e pkt tm none r = Extends-refl r
  check_dns-Extends e pkt tm (some domain) r =
      let found = Blacklist.check_domain bloom to_lowercase e.blacklist domain in
      let listed = raise_option 7 found r in
      let named = dns_anomalies externals e domain listed in
      let upto : Extends r named =
        Extends-trans r listed named (raise_option-Extends 7 found r)
          (dns_anomalies-Extends e domain listed) in
      Ensures-guard (Extends r) (ltb tm.payload_offset (length pkt.bytes)) _ _
        (λ inside. Ensures-slice_from (Extends r) pkt.bytes tm.payload_offset _ (omega tests) (
          let (ss, returned) =
            inspect_payload-returns floats to_lowercase (drop tm.payload_offset pkt.bytes) in
          rw returned (Extends-trans r named _ upto (raise_all-Extends 3 ss named))))
        λ _. upto

  -- What the analysis of a packet with these addresses and ports does to the engine.
  unfoldable pub Analyzed : E → TransportMeta → IdsResult × E → Type 0
  Analyzed e tm (result, e') =
      (r : Report) × (geo query_name : Option Str) × Extends
        (check_addresses externals e tm empty_report) r
      × (result ≡ from_signals r.signals r.flag)
      × (e'.payload_scanner ≡ e.payload_scanner)
      × (e'.blacklist ≡ e.blacklist)
      × (e'.baseline ≡ (
          if is_learning_phase e.baseline.phase || is_clean result
          then observe_packet externals tm geo query_name e.baseline
          else e.baseline))

  conclude-Analyzed :
      (e e' : E) (tm : TransportMeta) (geo query_name : Option Str) (r : Report)
      → Extends (check_addresses externals e tm empty_report) r
      → Same e e'
      → Analyzed e tm (conclude externals e' tm geo query_name r)
  unfolding Analyzed conclude is_clean
  conclude-Analyzed e e' tm geo query_name r x (b, l, s) =
      let result = from_signals r.signals r.flag in
      elim (Bool-cases
        (is_learning_phase e'.baseline.phase || ltb result.total_score threshold_info)) [
          | inl t ↦ rw t (r, geo, query_name, x, refl, s, l, rw (← b, t) refl)
          | inr t ↦ rw t (r, geo, query_name, x, refl, s, l, rw (← b, t) refl)
        ]

  pub analyze-Analyzed :
      (clock : Clock) (e : E) (pkt : RawPacket) (tm : TransportMeta)
      → e.payload_scanner ≡ Payload.new crate
      → Ensures (Analyzed e tm) (analyze_option externals clock e pkt (some tm))
  analyze-Analyzed clock e pkt tm h =
      let p = run_detectors externals clock e pkt tm in
      let (x1, same) = run_detectors-lem clock e pkt tm in
      let e' = p.1 in
      let headers = check_headers pkt tm p.0 in
      let geo = country_code tm.src_ip in
      let countries = check_country externals e' geo headers in
      let x2 =
        Extends-trans p.0 headers countries (check_headers-Extends pkt tm p.0)
          (check_country-Extends e' geo headers) in
      Ensures-bind (Analyzed e tm) (Extends countries) (scan_payload externals e' pkt tm countries)
        _ (scan_payload-Extends e' pkt tm countries (same.2 ∙ h))
        λ scanned x3.
          Ensures-bind (Analyzed e tm) (λ _. Unit {0}) (dns_query_name pkt tm) _
            (dns_query_name-returns pkt tm)
            λ query_name _.
              Ensures-bind (Analyzed e tm) (Extends scanned)
                (check_dns externals e' pkt tm query_name scanned) _
                (check_dns-Extends e' pkt tm query_name scanned)
                λ named x4.
                  conclude-Analyzed e e' tm geo query_name _
                    (Extends-trans _ p.0 _ x1 (
                      Extends-trans _ countries _ x2 (
                        Extends-trans _ scanned _ x3 (
                          Extends-trans _ named _ x4 (
                            Extends-trans named _ _
                              (check_unusual_port-Extends e' tm.dst_port named)
                              (check_vlan-Extends tm.vlan_id _))))))
                    same
