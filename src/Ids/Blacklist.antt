-- ===== src/Ids/Blacklist.antt =====
-- src/ids/blacklist.rs. The Bloom filter is a parameter, the third-party `bloomfilter` crate; so is
-- the Unicode lowercase mapping. `u32` shifts and subtractions are those of the release build.
pub mod Check
pub mod Cidr
pub mod Files
mod Tests
use ocellus_network_monitor.Prelude.{
  ℕ, ◌+◌, ◌-◌, ◌*◌, ◌%◌, ◌^◌, ◌≡◌, bit_and, Bool, true, false, ◌||◌, Option, none, some, List, [],
  ◌∷◌, ◌++◌, ◌==◌, if◌then◌else◌, any, ℕ_discrete, Bool-cases,
}
use ocellus_network_monitor.Prelude.Map.{contains, add}
use ocellus_network_monitor.Packet.{IpAddr, v4, v6}
use ocellus_network_monitor.Text.{
  Str, Str-discrete, trim, trim_dots, split_once, lines, starts_with, is_empty, parse_u32,
  parse_ipv4,
}
use ocellus_network_monitor.Ids.Score.{Signal, score_blacklist_ip, score_blacklist_domain}

-- `bloomfilter::Bloom<u32>`: a filter never denies what was set.
pub record Bloom : Type 1 where
  pub Filter : Type 0
  pub new_for_fp_rate : Filter
  pub set : Filter → ℕ → Filter
  pub check : Filter → ℕ → Bool
  pub check-set_self : (f : Filter) (x : ℕ) → check (set f x) x ≡ true
  pub check-set_keep : (f : Filter) (x y : ℕ) → check f y ≡ true → check (set f x) y ≡ true

pub record CidrEntry : Type 0 where
  pub base : ℕ
  pub mask : ℕ

abbrev pub u32_mod : ℕ
u32_mod = 2 ^ 32

-- `32 - prefix_len` in `u32`
abbrev pub shift_of : ℕ → ℕ
shift_of prefix_len = (u32_mod + 32 - prefix_len) % u32_mod

-- `!0u32 << s`: the shift takes the low five bits of `s`.
abbrev pub shl_ones : ℕ → ℕ
shl_ones s = (u32_mod - 1) * 2 ^ (s % 32) % u32_mod

unfoldable pub mask_of : ℕ → ℕ
mask_of prefix_len = if prefix_len == 0 then 0 else shl_ones (shift_of prefix_len)

abbrev pub entry_of : Option ℕ → Option ℕ → Option CidrEntry
entry_of (some prefix_len) (some ip) =
    some (record { base = bit_and ip (mask_of prefix_len); mask = mask_of prefix_len })
entry_of (some prefix_len) none = none
entry_of none ip = none

-- The two parts of the text, where it has a slash.
abbrev pub of_parts : Option (Str × Str) → Option CidrEntry
of_parts none = none
of_parts (some (ip_str, prefix_len_str)) =
    entry_of (parse_u32 (trim prefix_len_str)) (parse_ipv4 (trim ip_str))

unfoldable pub from_cidr : Str → Option CidrEntry
from_cidr s = of_parts (split_once b'/' s)

unfoldable pub cidr_contains : CidrEntry → ℕ → Bool
cidr_contains e ip = bit_and ip e.mask == e.base

module _ (bloom : Bloom) (to_lowercase : Str → Str) where
  open bloom use {Filter, new_for_fp_rate, set, check}

  pub record Blacklist : Type 0 where
    pub ip_bloom : Filter
    pub ip_exact : List ℕ
    pub ip_cidrs : List CidrEntry
    pub domains : List Str

  unfoldable pub new : Blacklist
  new = record { ip_bloom = new_for_fp_rate; ip_exact = []; ip_cidrs = []; domains = [] }

  abbrev pub ip_signal : Signal
  ip_signal = record { name = "blacklisted_ip"; score = score_blacklist_ip }

  abbrev pub cidr_signal : Signal
  cidr_signal = record { name = "blacklisted_cidr"; score = score_blacklist_ip }

  abbrev pub domain_signal : Signal
  domain_signal = record { name = "blacklisted_domain"; score = score_blacklist_domain }

  unfoldable pub check_cidrs : List CidrEntry → ℕ → Option Signal
  check_cidrs [] ip = none
  check_cidrs (e ∷ es) ip =
      let rest = check_cidrs es ip in if cidr_contains e ip then some cidr_signal else rest

  unfoldable pub check_ip : Blacklist → IpAddr → Option Signal
  unfolding check_cidrs
  check_ip b (v4 ip) =
      if check b.ip_bloom ip
      then if contains ℕ_discrete ip b.ip_exact then some ip_signal else check_cidrs b.ip_cidrs ip
      else check_cidrs b.ip_cidrs ip
  check_ip b (v6 ip) = none

  abbrev pub normalize : Str → Str
  normalize domain = to_lowercase (trim_dots domain)

  unfoldable pub check_domain : Blacklist → Str → Option Signal
  check_domain b domain =
      if contains Str-discrete (normalize domain) b.domains then some domain_signal else none

  unfoldable pub add_ip : Blacklist → ℕ → Blacklist
  add_ip b ip = record b { ip_bloom = set b.ip_bloom ip; ip_exact = add ℕ_discrete ip b.ip_exact }

  unfoldable pub push_cidr : Blacklist → Option CidrEntry → Blacklist
  push_cidr b none = b
  push_cidr b (some e) = record b { ip_cidrs = b.ip_cidrs ++ (e ∷ []) }

  unfoldable pub add_cidr : Blacklist → Str → Blacklist
  unfolding push_cidr
  add_cidr b s = push_cidr b (from_cidr s)

  unfoldable pub add_domain : Blacklist → Str → Blacklist
  add_domain b domain = record b { domains = add Str-discrete (normalize domain) b.domains }

  abbrev pub add_parsed_ip : Blacklist → Option ℕ → Blacklist
  add_parsed_ip b none = b
  add_parsed_ip b (some ip) = add_ip b ip

  -- One line of an IP list, trimmed.
  unfoldable pub load_ip_line : Blacklist → Str → Blacklist
  load_ip_line b line =
      if is_empty line || starts_with b';' line || starts_with b'#' line
      then b
      else if any (λ c. c == b'/') line
      then add_cidr b line
      else add_parsed_ip b (parse_ipv4 line)

  unfoldable pub load_ip_lines : Blacklist → List Str → Blacklist
  unfolding load_ip_line
  load_ip_lines b [] = b
  load_ip_lines b (l ∷ ls) = load_ip_lines (load_ip_line b (trim l)) ls

  unfoldable pub load_ip_list : Blacklist → Str → Blacklist
  unfolding load_ip_lines
  load_ip_list b content = load_ip_lines b (lines content)

  unfoldable pub load_domain_line : Blacklist → Str → Blacklist
  load_domain_line b line = if is_empty line || starts_with b'#' line then b else add_domain b line

  unfoldable pub load_domain_lines : Blacklist → List Str → Blacklist
  unfolding load_domain_line
  load_domain_lines b [] = b
  load_domain_lines b (l ∷ ls) = load_domain_lines (load_domain_line b (trim l)) ls

  unfoldable pub load_domain_list : Blacklist → Str → Blacklist
  unfolding load_domain_lines
  load_domain_list b content = load_domain_lines b (lines content)
