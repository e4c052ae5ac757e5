-- ===== src/Ids/Geo/Loads.antt =====
-- Loading databases one after another.
mod Tests
use ocellus_network_monitor.Prelude.{
  ℕ, ◌≡◌, refl, ap, ◌∙◌, Bool, true, false, Option, none, some, List, [], ◌∷◌,
}
use ocellus_network_monitor.Packet.{IpAddr}
use ocellus_network_monitor.Text.{Str}
use ocellus_network_monitor.Ids.Geo.{
  Maxmind, GeoDetector, new, loaded, load, is_some, is_loaded, country_code,
}

module _ (maxmind : Maxmind) where
  open maxmind use {Reader, open_readfile}

  unfoldable pub load_all : GeoDetector maxmind → List Str → GeoDetector maxmind
  load_all g [] = g
  load_all g (p ∷ ps) = load_all (load maxmind p g) ps

  abbrev later : Option Reader → Option Reader → Option Reader
  later first none = first
  later first (some r) = some r

  -- The database of the last path that opens.
  pub last_opened : List Str → Option Reader
  last_opened [] = none
  last_opened (p ∷ ps) = later (open_readfile p) (last_opened ps)

  load_all-reader :
      (g : GeoDetector maxmind) (ps : List Str)
      → (load_all g ps).reader ≡ later g.reader (last_opened ps)
  unfolding load_all load last_opened
  load_all-reader g [] = refl
  load_all-reader g (p ∷ ps) =
      load_all-reader (loaded maxmind g (open_readfile p)) ps
      ∙ by_opened (open_readfile p) (last_opened ps)
    where
      by_opened :
          (o l : Option Reader) → later (loaded maxmind g o).reader l ≡ later g.reader (later o l)
      by_opened none none = refl
      by_opened none (some r) = refl
      by_opened (some q) none = refl
      by_opened (some q) (some r) = refl

  -- After any loads into a new detector, the detector is loaded, and answers every address, as the
  -- database of the last path that opened does: a load that fails changes nothing, and where none
  -- succeeded no address has a country.
  pub country_code-load_all :
      (ps : List Str) (ip : IpAddr)
      → (is_loaded maxmind (load_all (new maxmind) ps) ≡ is_some maxmind (last_opened ps))
        × (country_code maxmind (load_all (new maxmind) ps) ip
            ≡ country_code maxmind (record { reader = last_opened ps }) ip)
  unfolding is_loaded country_code new
  country_code-load_all ps ip =
      let e : (load_all (new maxmind) ps).reader ≡ last_opened ps =
        load_all-reader (new maxmind) ps ∙ by_last (last_opened ps) in
      (ap (is_some maxmind) e, ap (λ r. country_code maxmind (record { reader = r }) ip) e)
    where
      by_last : (l : Option Reader) → later none l ≡ l
      by_last none = refl
      by_last (some r) = refl
