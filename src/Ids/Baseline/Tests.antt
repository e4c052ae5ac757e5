-- ===== src/Ids/Baseline/Tests.antt =====
-- Concrete runs of the baseline.
use ocellus_network_monitor.Prelude.{◌≡◌, Option, none, List, [], ◌∷◌, any, ◌&&◌, ◌||◌, not}
use ocellus_network_monitor.Text.{Str}
use ocellus_network_monitor.Ids.Samples.{whole_decimals, ascii_lowercase, digits_of}
use ocellus_network_monitor.Ids.Baseline.{
  BaselineState, Baseline, new, is_learning, is_known_port, is_known_country, is_known_dns,
}
use ocellus_network_monitor.Ids.Baseline.Phases.{
  Event, port, dns, tick, run_events, ends, adds_port, adds_country, adds_dns, learning_until,
  known_after,
}

abbrev no_json : BaselineState whole_decimals → Option Str
no_json s = none

abbrev fresh : Baseline whole_decimals
fresh = new whole_decimals 1000 none none

abbrev half_hour : List (Event whole_decimals digits_of ascii_lowercase no_json)
half_hour = port 80 ∷ tick 1500 1500 ∷ dns (b'A' ∷ []) ∷ tick 2800 2800 ∷ []

learning_until_example :
    is_learning whole_decimals
      (run_events whole_decimals digits_of ascii_lowercase no_json fresh half_hour)
    ≡ (is_learning whole_decimals fresh
        && not (
            any
              (ends whole_decimals digits_of ascii_lowercase no_json fresh.learning_started
                fresh.learning_duration)
              half_hour))
learning_until_example =
    learning_until whole_decimals digits_of ascii_lowercase no_json fresh half_hour

known_after_example :
    let b = run_events whole_decimals digits_of ascii_lowercase no_json fresh half_hour in
    (is_known_port whole_decimals b 80 ≡ (
      is_known_port whole_decimals fresh 80
      || any (adds_port whole_decimals digits_of ascii_lowercase no_json 80) half_hour))
    × (is_known_country whole_decimals b (b'U' ∷ []) ≡ (
        is_known_country whole_decimals fresh (b'U' ∷ [])
        || any
            (adds_country whole_decimals digits_of ascii_lowercase no_json (b'U' ∷ []))
            half_hour))
    × (is_known_dns whole_decimals ascii_lowercase b (b'a' ∷ []) ≡ (
        is_known_dns whole_decimals ascii_lowercase fresh (b'a' ∷ [])
        || any (adds_dns whole_decimals digits_of ascii_lowercase no_json (b'a' ∷ [])) half_hour))
known_after_example =
    known_after whole_decimals digits_of ascii_lowercase no_json fresh half_hour 80 (b'U' ∷ [])
      (b'a' ∷ [])
