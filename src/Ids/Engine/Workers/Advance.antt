-- ===== src/Ids/Engine/Workers/Advance.antt =====
-- One step of one call, whatever the engine that it finds.
use ocellus_network_monitor.Prelude.{
  ℕ, suc, ◌-◌, ◌≤◌, ◌≡◌, refl, ap, ◌⊎◌, Bool, Bool-cases, inl, inr, true, false, ◌||◌, Option, none,
  some, [], ◌∷◌, ◌++◌, length-append, length, ltb, arith, Ensures, Ensures-bind,
}
use ocellus_network_monitor.Packet.{TransportMeta}
use ocellus_network_monitor.Text.{Str}
use ocellus_network_monitor.Ids.Score.{IdsResult, from_signals, is_clean, threshold_info}
use ocellus_network_monitor.Ids.Baseline.{is_learning_phase}
use ocellus_network_monitor.Ids.Payload
use ocellus_network_monitor.Ids.Engine.{
  Report, Clock, Externals, IdsEngine, check_headers, check_rate, check_unusual_port,
}
use ocellus_network_monitor.Ids.Engine.Extend.{
  Extends, Extends-trans, raise_option-Extends, check_headers-Extends, check_vlan-Extends,
}
use ocellus_network_monitor.Ids.Engine.Verdict.{
  dns_query_name-returns, check_ports-lem, check_handshake-lem, check_country-Extends,
  scan_payload-Extends, check_dns-Extends, check_unusual_port-Extends,
}
use ocellus_network_monitor.Ids.Engine.Workers.{
  Observation, if_some, saw_port, saw_dst_ip, saw_protocol, saw_country, saw_dns, observations,
  Place, rates, ports, handshakes, countries, payloads, names, unusual, decides, observing,
  finished, Work, decide, advance_at, advance,
}

-- The steps that a call still has to take, at most.
abbrev pub steps_left : Place → ℕ
steps_left rates = 14
steps_left ports = 13
steps_left handshakes = 12
steps_left countries = 11
steps_left payloads = 10
steps_left names = 9
steps_left unusual = 8
steps_left decides = 7
steps_left (observing os result) = suc (length os)
steps_left (finished result) = 0

-- The result of a call that has decided.
abbrev pub result_of : Place → Option IdsResult
result_of (observing os result) = some result
result_of (finished result) = some result
result_of _ = none

abbrev clean_option : Option IdsResult → Bool
clean_option none = false
clean_option (some result) = is_clean result

-- The call has decided on a clean result.
abbrev pub has_clean : Work → Bool
has_clean w = clean_option (result_of w.place)

-- The call is writing to the baseline.
abbrev pub is_observing : Work → Bool
is_observing w = at w.place
  where
    at : Place → Bool
    at (observing os result) = true
    at _ = false

length-if_some : {A : Type 0} (f : A → Observation) (o : Option A) → length (if_some f o) ≤ 1
length-if_some f none = omega arith
length-if_some f (some a) = omega arith

length-observations :
    (tm : TransportMeta) (geo query_name : Option Str) → length (observations tm geo query_name) ≤ 5
unfolding observations
length-observations tm geo query_name =
    let rest = if_some saw_country geo ++ if_some saw_dns query_name in
    let h =
      length-append (if_some saw_port tm.dst_port)
        (saw_dst_ip tm.dst_ip ∷ saw_protocol tm.protocol ∷ rest) in
    let k = length-append (if_some saw_country geo) (if_some saw_dns query_name) in
    let p = length-if_some saw_port tm.dst_port in
    let c = length-if_some saw_country geo in
    let d = length-if_some saw_dns query_name in omega arith

-- The result is that of a report that extends the first one.
abbrev pub DecidedFrom : Report → Option IdsResult → Type 0
DecidedFrom start none = Unit
DecidedFrom start (some result) =
    (r : Report) × Extends start r × (result ≡ from_signals r.signals r.flag)

abbrev pub Follows : Report → Work → Type 0
Follows start w = Extends start w.report × DecidedFrom start (result_of w.place)

module _ (externals : Externals) where
  open externals use {crate, decimals, country_code}

  abbrev E : Type 0
  E = IdsEngine externals

  -- What one step of a call leaves.
  pub record Advanced (e : E) (w : Work) (next : Work × E) : Type 0 where
    pub scanner : next.1.payload_scanner ≡ e.payload_scanner
    pub fewer : steps_left next.0.place ≤ steps_left w.place - 1
    pub follows : (start : Report) → Follows start w → Follows start next.0
    pub clean : has_clean w ≡ true → has_clean next.0 ≡ true
    pub learns :
        is_learning_phase e.baseline.phase ≡ false
        → is_observing w ≡ false
        → (has_clean next.0 ≡ true)
          ⊎ ((next.1.baseline ≡ e.baseline) × (is_observing next.0 ≡ false))

  -- A step that neither decides nor writes to the baseline.
  asked :
      (e e' : E) (w : Work) (p p' : Place) (r : Report) (query_name : Option Str)
      → result_of p ≡ none
      → result_of p' ≡ none
      → is_observing (record w { place = p' }) ≡ false
      → steps_left p' ≤ steps_left p - 1
      → Extends w.report r
      → e'.payload_scanner ≡ e.payload_scanner
      → e'.baseline ≡ e.baseline
      → Advanced e
          (record w { place = p })
          (record w { report = r; query_name = query_name; place = p' }, e')
  asked e e' w p p' r query_name undecided undecided' idle steps x scanner baseline = record {
    scanner = scanner;
    fewer = steps;
    follows = λ start (y, _). (Extends-trans start w.report r y x, rw undecided' tt);
    clean = λ h. absurd (cc (h, ap clean_option undecided));
    learns = λ _ _. inr (baseline, idle);
  }

  decides-Advanced :
      (e : E) (w : Work)
      → Advanced e (record w { place = decides }) (record w { place = decide externals e w }, e)
  unfolding decide is_clean
  decides-Advanced e w =
      let result = from_signals w.report.signals w.report.flag in
      let os = observations w.tm (country_code w.tm.src_ip) w.query_name in
      elim (Bool-cases
        (is_learning_phase e.baseline.phase || ltb result.total_score threshold_info)) [
          | inl t ↦ rw t record {
            scanner = refl;
            fewer = omega (arith, length-observations w.tm (country_code w.tm.src_ip) w.query_name);
            follows = λ start (y, _). (y, (w.report, y, refl));
            clean = λ h. absurd (cc h);
            learns = λ refine _. inl (ground arith);
          }
          | inr f ↦ rw f record {
            scanner = refl;
            fewer = omega arith;
            follows = λ start (y, _). (y, (w.report, y, refl));
            clean = λ h. absurd (cc h);
            learns = λ refine _. inr (refl, refl);
          }
        ]

  advance_at-Advanced :
      (clock : Clock) (p : Place) (e : E) (w : Work)
      → e.payload_scanner ≡ Payload.new crate
      → Ensures
          (Advanced e (record w { place = p }))
          (advance_at externals clock p e (record w { place = p }))
  unfolding advance_at check_rate
  advance_at-Advanced clock rates e w h =
      asked e _ w rates ports _ w.query_name refl refl refl (omega arith)
        (raise_option-Extends 6 _ w.report) refl refl
  advance_at-Advanced clock ports e w h =
      let (x, (b, _, s)) = check_ports-lem externals clock e w.tm w.tm.dst_port w.report in
      asked e _ w ports handshakes _ w.query_name refl refl refl (omega arith) x s b
  advance_at-Advanced clock handshakes e w h =
      let (x, (b, _, s)) =
        check_handshake-lem externals clock e w.tm w.tm.tcp_flags w.tm.src_port w.tm.dst_port
          w.report in
      asked e _ w handshakes countries _ w.query_name refl refl refl (omega arith) x s b
  advance_at-Advanced clock countries e w h =
      let headers = check_headers w.pkt w.tm w.report in
      asked e e w countries payloads _ w.query_name refl refl refl (omega arith)
        (Extends-trans w.report headers _ (check_headers-Extends w.pkt w.tm w.report)
          (check_country-Extends externals e (country_code w.tm.src_ip) headers))
        refl refl
  advance_at-Advanced clock payloads e w h =
      Ensures-bind (Advanced e (record w { place = payloads })) (Extends w.report) _ _
        (scan_payload-Extends externals e w.pkt w.tm w.report h)
        λ scanned x.
          Ensures-bind (Advanced e (record w { place = payloads })) (λ _. Unit {0}) _ _
            (dns_query_name-returns w.pkt w.tm)
            λ query_name _.
              asked e e w payloads names scanned query_name refl refl refl (omega arith) x refl refl
  advance_at-Advanced clock names e w h =
      Ensures-bind (Advanced e (record w { place = names })) (Extends w.report) _ _
        (check_dns-Extends externals e w.pkt w.tm w.query_name w.report)
        λ named x.
          asked e e w names unusual named w.query_name refl refl refl (omega arith) x refl refl
  advance_at-Advanced clock unusual e w h =
      let noted = check_unusual_port externals e w.tm.dst_port w.report in
      asked e e w unusual decides _ w.query_name refl refl refl (omega arith)
        (Extends-trans w.report noted _
          (check_unusual_port-Extends externals e w.tm.dst_port w.report)
          (check_vlan-Extends w.tm.vlan_id noted))
        refl refl
  advance_at-Advanced clock decides e w h = decides-Advanced e (record w { place = decides })
  advance_at-Advanced clock (observing [] result) e w h = record {
    scanner = refl;
    fewer = omega arith;
    follows = λ start f. f;
    clean = λ c. c;
    learns = λ _ c. absurd (cc c);
  }
  advance_at-Advanced clock (observing (o ∷ os) result) e w h = record {
    scanner = refl;
    fewer = omega arith;
    follows = λ start f. f;
    clean = λ c. c;
    learns = λ _ c. absurd (cc c);
  }
  advance_at-Advanced clock (finished result) e w h = record {
    scanner = refl;
    fewer = omega arith;
    follows = λ start f. f;
    clean = λ c. c;
    learns = λ _ _. inr (refl, refl);
  }

  pub advance-Advanced :
      (clock : Clock) (e : E) (w : Work)
      → e.payload_scanner ≡ Payload.new crate
      → Ensures (Advanced e w) (advance externals clock e w)
  advance-Advanced clock e w h = advance_at-Advanced clock w.place e w h
