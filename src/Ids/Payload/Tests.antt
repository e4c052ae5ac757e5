-- ===== src/Ids/Payload/Tests.antt =====
-- A scan of a concrete payload.
use ocellus_network_monitor.Prelude.{ℕ, refl, ◌<◌, ◌≡◌, List, [], ◌∷◌, length, All, done}
use ocellus_network_monitor.Ids.Score.{Signal}
use ocellus_network_monitor.Ids.Samples.{plain_search}
use ocellus_network_monitor.Ids.Payload.{matches_at, new, scan_all}
use ocellus_network_monitor.Ids.Payload.Scan.{IsReported, Fresh, scan_all-reports, scan_all-found}

-- `x`, then `mSfV`.
abbrev marked : List ℕ
marked = b'x' ∷ b'm' ∷ b'S' ∷ b'f' ∷ b'V' ∷ []

scan_all-reports_example :
    (ss : List Signal) × (scan_all plain_search (new plain_search) marked ≡ done ss)
    × All (IsReported marked) ss
    × Fresh [] ss
scan_all-reports_example = scan_all-reports plain_search marked

scan_all-found_example :
    (ss : List Signal) × (scan_all plain_search (new plain_search) marked ≡ done ss)
    × (0 < length ss)
unfolding matches_at
scan_all-found_example =
    scan_all-found plain_search marked 2 1
      (record {
        pattern = 0x4d ∷ 0x53 ∷ 0x46 ∷ 0x56 ∷ [];
        name = "metasploit_payload_marker";
        score = 70;
      })
      refl refl
