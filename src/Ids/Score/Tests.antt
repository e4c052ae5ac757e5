-- ===== src/Ids/Score/Tests.antt =====
-- The score of concrete signals.
use mathlib.Core.List.{Perm}
use ocellus_network_monitor.Prelude.{min, leb, if◌then◌else◌, ◌+◌, ◌≤◌, ◌≡◌, [], ◌∷◌, length}
use ocellus_network_monitor.Ids.Score.{Signal, from_signals, sum_scores}
use ocellus_network_monitor.Ids.Score.Sort.{IsDescending, with_score}
use ocellus_network_monitor.Ids.Score.Bands.{Band, from_signals_lem}

abbrev weak : Signal
weak = record { name = "packet_truncated"; score = 10 }

abbrev strong : Signal
strong = record { name = "port_scan_horizontal"; score = 60 }

from_signals_lem_example :
    let ss = weak ∷ strong ∷ [] in
    let r = from_signals ss 1 in
    (r.total_score ≤ 100)
    × (r.total_score ≡ min (sum_scores ss + (if leb 2 (length ss) then 10 else 0)) 100)
    × Band r.severity r.total_score
    × (r.flag_reason ≡ 1)
    × IsDescending r.signals
    × Perm r.signals ss
    × (with_score 60 r.signals ≡ with_score 60 ss)
from_signals_lem_example = from_signals_lem (weak ∷ strong ∷ []) 1 60
