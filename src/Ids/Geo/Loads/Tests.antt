-- ===== src/Ids/Geo/Loads/Tests.antt =====
-- A database that opens, then a path that does not.
use ocellus_network_monitor.Prelude.{◌≡◌, refl, none, some, Option, List, [], ◌∷◌}
use ocellus_network_monitor.Packet.{v4}
use ocellus_network_monitor.Text.{Str}
use ocellus_network_monitor.Ids.Geo.{Maxmind, new, load, country_code}
use ocellus_network_monitor.Ids.Geo.Loads.{load_all}

open_short : Str → Option Str
open_short [] = none
open_short (c ∷ s) = some (c ∷ s)

abbrev by_path : Maxmind
by_path = record {
  Reader = Str;
  open_readfile = λ p. open_short p;
  lookup = λ r ip. some (record { country = some (record { iso_code = some r }) });
}

abbrev paths : List Str
paths = (b'D' ∷ b'E' ∷ []) ∷ [] ∷ []

code : country_code by_path (load_all by_path (new by_path) paths) (v4 1) ≡ some (b'D' ∷ b'E' ∷ [])
unfolding load_all load new country_code open_short
code = refl
