-- ===== src/Ids/Geo.antt =====
-- src/ids/geo.rs: the country of an address, over the `maxminddb` crate, a parameter.
pub mod Loads
use ocellus_network_monitor.Prelude.{ℕ, Bool, true, false, Option, none, some, List, [], ◌∷◌}
use ocellus_network_monitor.Packet.{IpAddr}
use ocellus_network_monitor.Text.{Str}

-- A country of the database has an ISO code or not. `open_readfile` and `lookup` answer `none` for an
-- error, which the program only logs or drops.
pub record Country : Type 0 where
  pub iso_code : Option Str

pub record GeoRecord : Type 0 where
  pub country : Option Country

pub record Maxmind : Type 1 where
  pub Reader : Type 0
  pub open_readfile : Str → Option Reader
  pub lookup : Reader → IpAddr → Option GeoRecord

-- `?`
abbrev pub try_with : {A B : Type 0} → Option A → (A → Option B) → Option B
try_with none f = none
try_with (some a) f = f a

module _ (maxmind : Maxmind) where
  open maxmind use {Reader, open_readfile, lookup}

  pub record GeoDetector : Type 0 where
    pub reader : Option Reader

  unfoldable pub new : GeoDetector
  new = record { reader = none }

  abbrev pub loaded : GeoDetector → Option Reader → GeoDetector
  loaded g none = g
  loaded g (some r) = record { reader = some r }

  unfoldable pub load : Str → GeoDetector → GeoDetector
  load path g = loaded g (open_readfile path)

  abbrev pub is_some : {A : Type 0} → Option A → Bool
  is_some none = false
  is_some (some a) = true

  unfoldable pub is_loaded : GeoDetector → Bool
  is_loaded g = is_some g.reader

  unfoldable pub country_code : GeoDetector → IpAddr → Option Str
  country_code g ip = try_with g.reader λ reader.
      try_with (lookup reader ip) λ found. try_with found.country λ country. country.iso_code
