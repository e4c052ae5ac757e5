-- ===== src/Ids/Score/Bands.antt =====
-- The total score, its severity band and the order of a result's signals.
use mathlib.Core.List.{Perm}
use ocellus_network_monitor.Prelude.{
  ℕ, ◌+◌, ◌≤◌, ◌<◌, ◌≡◌, min, List, length, arith, leb, if◌then◌else◌, ◌∷◌, refl,
}
use ocellus_network_monitor.Ids.Score.{
  Severity, info, warning, alert, critical, from_score, Signal, sum_scores, from_signals,
}
use ocellus_network_monitor.Ids.Score.Sort.{
  IsDescending, with_score, sort_signals-IsDescending, sort_signals-perm, sort_signals-with_score,
}

-- The score interval of each band.
abbrev pub Band : Severity → ℕ → Type 0
Band info n = n < 60
Band warning n = (60 ≤ n) × (n < 85)
Band alert n = (85 ≤ n) × (n < 95)
Band critical n = 95 ≤ n

from_score-Band : (n : ℕ) → Band (from_score n) n
unfolding from_score
from_score-Band n = ground arith

-- What `from_signals` promises: the score is capped at 100; it is the sum of the weights, with
-- 10 more for two or more signals, wherever that stays below the cap; the severity is the band that
-- holds the score; the flag is the argument; and the signals are those given, by descending score,
-- with equal scores in the order given.
pub from_signals_lem :
    (ss : List Signal) (flag n : ℕ)
    → let r = from_signals ss flag in
      (r.total_score ≤ 100)
      × (r.total_score ≡ min (sum_scores ss + (if leb 2 (length ss) then 10 else 0)) 100)
      × Band r.severity r.total_score
      × (r.flag_reason ≡ flag)
      × IsDescending r.signals
      × Perm r.signals ss
      × (with_score n r.signals ≡ with_score n ss)
unfolding from_signals
from_signals_lem ss flag n = (
  omega arith,
  refl,
  from_score-Band (from_signals ss flag).total_score,
  refl,
  sort_signals-IsDescending ss,
  sort_signals-perm ss,
  sort_signals-with_score n ss,
)

-- One more signal never lowers the score.
pub from_signals_mono :
    (s : Signal) (ss : List Signal) (flag : ℕ)
    → (from_signals ss flag).total_score ≤ (from_signals (s ∷ ss) flag).total_score
unfolding from_signals sum_scores
from_signals_mono s ss flag = ground arith
