-- ===== src/Ids/Score.antt =====
-- src/ids/score.rs. Every weight of the program is a whole number, and `f32` adds whole numbers
-- below 2^24 exactly, so a score is a natural number. A signal's `detail` is text for a reader.
pub mod Sort
pub mod Bands
mod Tests
use ocellus_network_monitor.Prelude.{
  ℕ, zero, suc, ◌+◌, min, Bool, true, false, String, List, [], ◌∷◌, length, ltb, leb, if◌then◌else◌,
}

abbrev pub threshold_info : ℕ
threshold_info = 30

abbrev pub threshold_warning : ℕ
threshold_warning = 60

abbrev pub threshold_alert : ℕ
threshold_alert = 85

abbrev pub score_blacklist_ip : ℕ
score_blacklist_ip = 90

abbrev pub score_blacklist_domain : ℕ
score_blacklist_domain = 80

abbrev pub score_payload_sig : ℕ
score_payload_sig = 70

abbrev pub score_syn_flood : ℕ
score_syn_flood = 65

abbrev pub score_port_scan : ℕ
score_port_scan = 60

abbrev pub score_half_open_high : ℕ
score_half_open_high = 50

abbrev pub score_dns_anomaly : ℕ
score_dns_anomaly = 45

abbrev pub score_rate_exceeded : ℕ
score_rate_exceeded = 40

abbrev pub score_geo_anomaly : ℕ
score_geo_anomaly = 35

abbrev pub score_unusual_port_network : ℕ
score_unusual_port_network = 30

abbrev pub score_unusual_port_global : ℕ
score_unusual_port_global = 20

abbrev pub correlation_bonus : ℕ
correlation_bonus = 10

pub data Severity : Type 0 where
  info warning alert critical : Severity

unfoldable pub from_score : ℕ → Severity
from_score score =
    if leb threshold_alert score
    then if leb 95 score then critical else alert
    else if leb threshold_warning score
    then warning
    else info

pub record Signal : Type 0 where
  pub name : String
  pub score : ℕ

pub record IdsResult : Type 0 where
  pub total_score : ℕ
  pub severity : Severity
  pub flag_reason : ℕ
  pub signals : List Signal

unfoldable pub sum_scores : List Signal → ℕ
sum_scores [] = 0
sum_scores (s ∷ ss) = s.score + sum_scores ss

-- The stable `sort_by` with the arguments swapped: descending scores, ties in their old order.
unfoldable pub insert_signal : Signal → List Signal → List Signal
insert_signal s [] = s ∷ []
insert_signal s (t ∷ ts) = if ltb s.score t.score then t ∷ insert_signal s ts else s ∷ t ∷ ts

unfoldable pub sort_signals : List Signal → List Signal
unfolding insert_signal
sort_signals [] = []
sort_signals (s ∷ ss) = insert_signal s (sort_signals ss)

unfoldable pub from_signals : List Signal → ℕ → IdsResult
unfolding sum_scores sort_signals from_score
from_signals signals flag_reason =
    let bonus = if leb 2 (length signals) then correlation_bonus else 0 in
    let total_score = min (sum_scores signals + bonus) 100 in
    record {
      total_score = total_score;
      severity = from_score total_score;
      flag_reason = flag_reason;
      signals = sort_signals signals;
    }

unfoldable pub is_clean : IdsResult → Bool
is_clean r = ltb r.total_score threshold_info
