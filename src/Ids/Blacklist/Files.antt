-- ===== src/Ids/Blacklist/Files.antt =====
-- What a line of an IP list does to the blacklist.
use ocellus_network_monitor.Prelude.{
  ℕ, ◌≡◌, sym, ◌∙◌, subst, false, ◌||◌, some, List, [], ◌∷◌, ◌++◌, any, ◌==◌, ℕ_discrete, arith,
  if◌then◌else◌,
}
use ocellus_network_monitor.Prelude.Map.{contains-add}
use ocellus_network_monitor.Packet.{v4}
use ocellus_network_monitor.Text.{Str, is_empty, starts_with, trim, lines, parse_ipv4}
use ocellus_network_monitor.Ids.Score.{Signal}
use ocellus_network_monitor.Ids.Blacklist.{
  Bloom, new, add_ip, check_ip, add_parsed_ip, add_cidr, load_ip_line, load_ip_lines, load_ip_list,
}
use ocellus_network_monitor.Ids.Blacklist.Check.{
  B, IsListed, IsListed-Kept, keep_ip_lines, listed-score, check_ip-listed_of_Agrees, loads-Agrees,
  ip_list_load, apply_load, apply_loads,
}

-- A trimmed line that is read as an address: no comment, no network.
pub record IsAddressLine (line : Str) (ip : ℕ) : Type 0 where
  pub kept : (is_empty line || starts_with b';' line || starts_with b'#' line) ≡ false
  pub single : any (λ c. c == b'/') line ≡ false
  pub parsed : parse_ipv4 line ≡ some ip

module _ (bloom : Bloom) (to_lowercase : Str → Str) where
  add_ip-IsListed :
      (b : B bloom to_lowercase) (ip : ℕ)
      → IsListed bloom to_lowercase ip (add_ip bloom to_lowercase b ip)
  unfolding add_ip
  add_ip-IsListed b ip = ground (arith, contains-add ℕ_discrete ip ip b.ip_exact)

  line-IsListed :
      (b : B bloom to_lowercase) (line : Str) (ip : ℕ)
      → IsAddressLine line ip
      → IsListed bloom to_lowercase ip (load_ip_line bloom to_lowercase b line)
  unfolding load_ip_line
  line-IsListed b line ip h =
      let cidr = add_cidr bloom to_lowercase b line in
      let parsed = add_parsed_ip bloom to_lowercase b (parse_ipv4 line) in
      subst
        (λ t.
          IsListed bloom to_lowercase ip
            (if t then b else if any (λ c. c == b'/') line then cidr else parsed))
        (sym h.kept)
        (subst (λ t. IsListed bloom to_lowercase ip (if t then cidr else parsed)) (sym h.single)
          (subst (λ o. IsListed bloom to_lowercase ip (add_parsed_ip bloom to_lowercase b o))
            (sym h.parsed) (add_ip-IsListed b ip)))

  lines-IsListed :
      (before after : List Str) (line : Str) (b : B bloom to_lowercase) (ip : ℕ)
      → IsAddressLine (trim line) ip
      → IsListed bloom to_lowercase ip
          (load_ip_lines bloom to_lowercase b (before ++ (line ∷ after)))
  unfolding load_ip_lines
  lines-IsListed [] after line b ip h =
      keep_ip_lines bloom to_lowercase (IsListed bloom to_lowercase ip)
        (IsListed-Kept bloom to_lowercase ip) (load_ip_line bloom to_lowercase b (trim line)) after
        (line-IsListed b (trim line) ip h)
  lines-IsListed (l ∷ before) after line b ip h =
      lines-IsListed before after line (load_ip_line bloom to_lowercase b (trim l)) ip h

  -- An address that a line of the list spells is flagged once the list is loaded.
  pub load_ip_list-flags :
      (content : Str) (before after : List Str) (line : Str) (ip : ℕ)
      → lines content ≡ before ++ (line ∷ after)
      → IsAddressLine (trim line) ip
      → (s : Signal) × (check_ip bloom to_lowercase
            (apply_loads bloom to_lowercase (new bloom to_lowercase) (ip_list_load content ∷ []))
            (v4 ip)
          ≡ some s)
        × (s.score ≡ 90)
  unfolding apply_loads apply_load load_ip_list
  load_ip_list-flags content before after line ip e h =
      let b = apply_loads bloom to_lowercase (new bloom to_lowercase) (ip_list_load content ∷ []) in
      let there : IsListed bloom to_lowercase ip b =
        subst
          (λ ls.
            IsListed bloom to_lowercase ip
              (load_ip_lines bloom to_lowercase (new bloom to_lowercase) ls))
          (sym e) (lines-IsListed before after line (new bloom to_lowercase) ip h) in
      let (s, found, points) = listed-score bloom to_lowercase b ip there in
      (
        s,
        check_ip-listed_of_Agrees bloom to_lowercase b ip
              (loads-Agrees bloom to_lowercase (ip_list_load content ∷ []))
            ∙ found,
        points,
      )
