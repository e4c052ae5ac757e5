-- ===== src/Ids/Blacklist/Tests.antt =====
-- Concrete blacklists.
use ocellus_network_monitor.Prelude.{
  refl, ◌-◌, ◌/◌, ◌^◌, ◌≡◌, ◌↔◌, true, some, none, List, [], ◌∷◌, arith,
}
use ocellus_network_monitor.Packet.{v4, v6}
use ocellus_network_monitor.Text.{Str, split_once, trim, parse_ipv4, parse_u32}
use ocellus_network_monitor.Ids.Samples.{exact_bloom, ascii_lowercase}
use ocellus_network_monitor.Ids.Blacklist.{
  CidrEntry, from_cidr, new, cidr_contains, mask_of, check_ip,
}
use ocellus_network_monitor.Ids.Blacklist.Cidr.{entry, cidr_contains_iff, overlong_prefix}
use ocellus_network_monitor.Ids.Blacklist.Check.{
  Load, ip_load, domain_load, apply_loads, listed, check_ip-listed,
}

cidr_contains_iff_example :
    (cidr_contains (entry 0x0A000001 8) 0x0A123456 ≡ true)
    ↔ (0x0A123456 / 2 ^ (32 - 8) ≡ 0x0A000001 / 2 ^ (32 - 8))
cidr_contains_iff_example =
    cidr_contains_iff 0x0A000001 0x0A123456 8 (omega arith) (omega arith) (omega arith)

-- "10.0.0.1/33"
abbrev overlong : Str
overlong = b'1' ∷ b'0' ∷ b'.' ∷ b'0' ∷ b'.' ∷ b'0' ∷ b'.' ∷ b'1' ∷ b'/' ∷ b'3' ∷ b'3' ∷ []

overlong_prefix_example :
    (e : CidrEntry) × (from_cidr overlong ≡ some e)
    × (e.mask ≡ mask_of 1)
    × (cidr_contains e 0x7F000001 ≡ cidr_contains (entry 0x0A000001 1) 0x7F000001)
unfolding split_once trim parse_ipv4 parse_u32
overlong_prefix_example =
    overlong_prefix overlong (b'1' ∷ b'0' ∷ b'.' ∷ b'0' ∷ b'.' ∷ b'0' ∷ b'.' ∷ b'1' ∷ [])
      (b'3' ∷ b'3' ∷ []) 0x0A000001 0x7F000001 0 refl refl refl (omega arith)

abbrev loads : List Load
loads = domain_load (b'a' ∷ []) ∷ ip_load 7 ∷ []

check_ip-listed_example :
    let b = apply_loads exact_bloom ascii_lowercase (new exact_bloom ascii_lowercase) loads in
    (check_ip exact_bloom ascii_lowercase b (v4 7) ≡ listed exact_bloom ascii_lowercase b 7)
    × (check_ip exact_bloom ascii_lowercase b (v6 (1 ∷ [])) ≡ none)
check_ip-listed_example = check_ip-listed exact_bloom ascii_lowercase loads 7 (1 ∷ [])
