-- ===== src/Ids/Dns/Tests.antt =====
-- Query names in concrete payloads.
use ocellus_network_monitor.Prelude.{ℕ, ◌≡◌, some, List, [], ◌∷◌, ◌++◌, map, done, arith}
use ocellus_network_monitor.Text.{join}
use ocellus_network_monitor.Text.Utf8.{from_utf8_lossy}
use ocellus_network_monitor.Ids.Dns.{extract_dns_query_name}
use ocellus_network_monitor.Ids.Dns.Wire.{encode_labels, header, extract-encode}

abbrev a_dot_xyz : List (List ℕ)
a_dot_xyz = (b'a' ∷ []) ∷ (b'x' ∷ b'y' ∷ b'z' ∷ []) ∷ []

abbrev query : List ℕ
query = header 0 1 1 0 0 1 0 0 0 0 0 0 ++ (encode_labels a_dot_xyz ++ (0 ∷ 0 ∷ 1 ∷ []))

extract-encode_example :
    extract_dns_query_name query ≡ done (some (join (b'.' ∷ []) (map from_utf8_lossy a_dot_xyz)))
extract-encode_example =
    extract-encode 0 1 1 0 0 1 0 0 0 0 0 0 (b'a' ∷ []) ((b'x' ∷ b'y' ∷ b'z' ∷ []) ∷ []) (0 ∷ 1 ∷ [])
      (omega arith) (omega arith)
