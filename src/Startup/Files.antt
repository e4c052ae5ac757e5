-- ===== src/Startup/Files.antt =====
-- The blacklist files of the environment, in the engine that `main` builds.
mod Tests
use mathlib.Core.List.{Mem}
use ocellus_network_monitor.Prelude.{
  ℕ, ◌≡◌, ◌≤◌, refl, sym, ◌∙◌, ap, subst, Option, none, some, List, [], ◌∷◌, ◌++◌, arith, min, done,
}
use ocellus_network_monitor.Packet.{v4, RawPacket, TransportMeta}
use ocellus_network_monitor.Text.{Str, lines, trim}
use ocellus_network_monitor.Ids.Score.{Signal, IdsResult}
use ocellus_network_monitor.Ids.Baseline
use ocellus_network_monitor.Ids.Blacklist
use ocellus_network_monitor.Ids.Blacklist.{check_ip, load_domain_list}
use ocellus_network_monitor.Ids.Blacklist.Check.{
  ip_list_load, domain_list_load, apply_load, apply_loads, check_ip_stays,
}
use ocellus_network_monitor.Ids.Blacklist.Files.{IsAddressLine, load_ip_list-flags}
use ocellus_network_monitor.Ids.Geo.{Maxmind}
use ocellus_network_monitor.Ids.Engine
use ocellus_network_monitor.Ids.Engine.{Clock, Externals, IdsEngine, analyze}
use ocellus_network_monitor.Ids.Engine.Run.{analyze-Reports}
use ocellus_network_monitor.Startup.{
  Environment, file_of, with_geo, with_ips, with_domains, build_geo, build_blacklist,
  build_baseline, build_engine,
}

module _ (externals : Externals) where
  open externals use {bloom, decimals, to_lowercase}

  -- An address of the IP file is in the blacklist, whatever the file of domains holds.
  build_blacklist-flags :
      (env : Environment) (content line : Str) (before after : List Str) (ip : ℕ)
      → file_of env env.ids_ip_blacklist_path ≡ some content
      → lines content ≡ before ++ (line ∷ after)
      → IsAddressLine (trim line) ip
      → (s : Signal) × (check_ip bloom to_lowercase (build_blacklist externals env) (v4 ip)
          ≡ some s)
        × (s.score ≡ 90)
  unfolding build_blacklist apply_loads apply_load
  build_blacklist-flags env content line before after ip e cut h =
      let (s, found, points) =
        load_ip_list-flags bloom to_lowercase content before after line ip cut h in
      let empty = Blacklist.new bloom to_lowercase in
      subst
        (λ o.
          (s : Signal) × (check_ip bloom to_lowercase
              (with_domains externals (with_ips externals empty o)
                (file_of env env.ids_domain_blacklist_path))
              (v4 ip)
            ≡ some s)
          × (s.score ≡ 90))
        (sym e) (by_domains (file_of env env.ids_domain_blacklist_path) s found points)
    where
      by_domains :
          (o : Option Str) (s : Signal)
          → check_ip bloom to_lowercase
              (apply_loads bloom to_lowercase
                (Blacklist.new bloom to_lowercase)
                (ip_list_load content ∷ []))
              (v4 ip)
            ≡ some s
          → s.score ≡ 90
          → (t : Signal) × (check_ip bloom to_lowercase
                (with_domains externals
                  (with_ips externals (Blacklist.new bloom to_lowercase) (some content))
                  o)
                (v4 ip)
              ≡ some t)
            × (t.score ≡ 90)
      by_domains none s found points = (s, found, points)
      by_domains (some domains) s found points =
          check_ip_stays bloom to_lowercase (ip_list_load content ∷ [])
            (domain_list_load domains ∷ []) ip s found

  -- Where the variable of the IP list names a file that can be read, and a line of it, trimmed, is no
  -- comment, has no slash and is read as an IPv4 address: the engine that `main` builds, whatever the
  -- other variables and files are, returns a result for a packet from that address, with flag 7 and a
  -- total of at least 90.
  pub started_flags :
      (maxmind : Maxmind) (from_json : Str → Option (Baseline.BaselineState decimals))
      (env : Environment) (now : ℕ) (content line : Str) (before after : List Str) (ip : ℕ)
      (clock : Clock) (pkt : RawPacket) (tm : TransportMeta)
      → file_of env env.ids_ip_blacklist_path ≡ some content
      → lines content ≡ before ++ (line ∷ after)
      → IsAddressLine (trim line) ip
      → pkt.transport ≡ some tm
      → tm.src_ip ≡ v4 ip
      → let with_lookup = with_geo maxmind externals (build_geo maxmind env) in
        (result : IdsResult) × (e' : IdsEngine with_lookup) × (analyze with_lookup clock
            (build_engine externals maxmind from_json env now)
            pkt
          ≡ done (result, e'))
        × (result.flag_reason ≡ 7)
        × (90 ≤ result.total_score)
  unfolding with_geo build_engine Engine.new
  started_flags maxmind from_json env now content line before after ip clock pkt tm e cut h t src =
      let (s, found, points) = build_blacklist-flags env content line before after ip e cut h in
      let (result, e', returned, (flag, _, total)) =
        analyze-Reports (with_geo maxmind externals (build_geo maxmind env)) clock
          (build_engine externals maxmind from_json env now) pkt tm s refl t
          (ap (check_ip bloom to_lowercase (build_blacklist externals env)) src ∙ found) in
      (result, e', returned, flag, omega (arith, points, total))
