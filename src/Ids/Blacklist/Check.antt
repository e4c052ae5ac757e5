-- ===== src/Ids/Blacklist/Check.antt =====
-- `check_ip` against a lookup without the Bloom filter, after any sequence of loads.
use ocellus_network_monitor.Prelude.{
  ℕ, ◌≡◌, refl, sym, ◌∙◌, Bool, true, false, ◌||◌, Option, none, some, List, [], ◌∷◌, ◌++◌,
  if◌then◌else◌, any, ℕ_discrete, arith,
}
use ocellus_network_monitor.Prelude.Map.{contains, add, contains-add}
use ocellus_network_monitor.Packet.{v4, v6}
use ocellus_network_monitor.Text.{Str, trim, lines, parse_ipv4}
use ocellus_network_monitor.Ids.Score.{Signal}
use ocellus_network_monitor.Ids.Blacklist.{
  Bloom, CidrEntry, from_cidr, cidr_contains, Blacklist, new, ip_signal, cidr_signal, check_cidrs,
  check_ip, add_ip, push_cidr, add_cidr, add_domain, add_parsed_ip, load_ip_line, load_ip_lines,
  load_ip_list, load_domain_line, load_domain_lines, load_domain_list,
}

-- A call of the loader thread.
pub data Load : Type 0 where
  ip_load : ℕ → Load
  cidr_load : Str → Load
  domain_load : Str → Load
  ip_list_load : Str → Load
  domain_list_load : Str → Load

-- An element stays in a set.
contains-add_keep :
    (k j : ℕ) (s : List ℕ)
    → contains ℕ_discrete j s ≡ true
    → contains ℕ_discrete j (add ℕ_discrete k s) ≡ true
contains-add_keep k j s h = ground (arith, contains-add ℕ_discrete k j s)

module _ (bloom : Bloom) (to_lowercase : Str → Str) where
  open bloom use {set, check, check-set_self, check-set_keep}

  abbrev pub B : Type 0
  B = Blacklist bloom to_lowercase

  unfoldable pub apply_load : B → Load → B
  apply_load b (ip_load ip) = add_ip bloom to_lowercase b ip
  apply_load b (cidr_load s) = add_cidr bloom to_lowercase b s
  apply_load b (domain_load s) = add_domain bloom to_lowercase b s
  apply_load b (ip_list_load s) = load_ip_list bloom to_lowercase b s
  apply_load b (domain_list_load s) = load_domain_list bloom to_lowercase b s

  unfoldable pub apply_loads : B → List Load → B
  apply_loads b [] = b
  apply_loads b (l ∷ ls) = apply_loads (apply_load b l) ls

  -- Every exact address is in the filter.
  abbrev pub Agrees : B → Type 0
  Agrees b = (ip : ℕ) → contains ℕ_discrete ip b.ip_exact ≡ true → check b.ip_bloom ip ≡ true

  -- A property of a blacklist that each elementary change keeps, every load keeps.
  pub record Kept (P : B → Type 0) : Type 0 where
    on_ip : (b : B) (ip : ℕ) → P b → P (add_ip bloom to_lowercase b ip)
    on_cidr : (b : B) (e : CidrEntry) → P b → P (push_cidr bloom to_lowercase b (some e))
    on_domain : (b : B) (d : Str) → P b → P (add_domain bloom to_lowercase b d)

  module _ (P : B → Type 0) (k : Kept P) where
    keep_push : (b : B) (e : Option CidrEntry) → P b → P (push_cidr bloom to_lowercase b e)
    keep_push b none h = unfold push_cidr in h
    keep_push b (some e) h = k.on_cidr b e h

    keep_cidr : (b : B) (s : Str) → P b → P (add_cidr bloom to_lowercase b s)
    keep_cidr b s h = unfold add_cidr in keep_push b (from_cidr s) h

    keep_parsed : (b : B) (o : Option ℕ) → P b → P (add_parsed_ip bloom to_lowercase b o)
    keep_parsed b none h = h
    keep_parsed b (some ip) h = k.on_ip b ip h

    keep_if : (t : Bool) (b c : B) → P b → P c → P (if t then b else c)
    keep_if true b c h h' = h
    keep_if false b c h h' = h'

    keep_ip_line : (b : B) (s : Str) → P b → P (load_ip_line bloom to_lowercase b s)
    unfolding load_ip_line
    keep_ip_line b s h =
        keep_if _ b _ h (keep_if _ _ _ (keep_cidr b s h) (keep_parsed b (parse_ipv4 s) h))

    pub keep_ip_lines : (b : B) (ls : List Str) → P b → P (load_ip_lines bloom to_lowercase b ls)
    unfolding load_ip_lines
    keep_ip_lines b [] h = h
    keep_ip_lines b (l ∷ ls) h =
        keep_ip_lines (load_ip_line bloom to_lowercase b (trim l)) ls (keep_ip_line b (trim l) h)

    keep_domain_line : (b : B) (s : Str) → P b → P (load_domain_line bloom to_lowercase b s)
    unfolding load_domain_line
    keep_domain_line b s h = keep_if _ b _ h (k.on_domain b s h)

    keep_domain_lines :
        (b : B) (ls : List Str) → P b → P (load_domain_lines bloom to_lowercase b ls)
    unfolding load_domain_lines
    keep_domain_lines b [] h = h
    keep_domain_lines b (l ∷ ls) h =
        keep_domain_lines (load_domain_line bloom to_lowercase b (trim l)) ls
          (keep_domain_line b (trim l) h)

    keep_load : (b : B) (l : Load) → P b → P (apply_load b l)
    unfolding apply_load load_ip_list load_domain_list
    keep_load b (ip_load ip) h = k.on_ip b ip h
    keep_load b (cidr_load s) h = keep_cidr b s h
    keep_load b (domain_load s) h = k.on_domain b s h
    keep_load b (ip_list_load s) h = keep_ip_lines b (lines s) h
    keep_load b (domain_list_load s) h = keep_domain_lines b (lines s) h

    keep_loads : (b : B) (ls : List Load) → P b → P (apply_loads b ls)
    unfolding apply_loads
    keep_loads b [] h = h
    keep_loads b (l ∷ ls) h = keep_loads (apply_load b l) ls (keep_load b l h)

  pub Agrees-Kept : Kept Agrees
  unfolding add_ip push_cidr add_domain
  Agrees-Kept = record {
    on_ip = λ b ip h j e. ground (
      arith,
      contains-add ℕ_discrete ip j b.ip_exact,
      h j,
      check-set_self b.ip_bloom ip,
      check-set_keep b.ip_bloom ip j,
    );
    on_cidr = λ b e h. h;
    on_domain = λ b d h. h;
  }

  -- The lookup without the filter.
  pub listed : B → ℕ → Option Signal
  listed b ip =
      if contains ℕ_discrete ip b.ip_exact
      then some (ip_signal bloom to_lowercase)
      else if any (λ e. cidr_contains e ip) b.ip_cidrs
      then some (cidr_signal bloom to_lowercase)
      else none

  check_cidrs-any :
      (es : List CidrEntry) (ip : ℕ)
      → check_cidrs bloom to_lowercase es ip
        ≡ (if any (λ e. cidr_contains e ip) es then some (cidr_signal bloom to_lowercase) else none)
  unfolding check_cidrs
  check_cidrs-any [] ip = refl
  check_cidrs-any (e ∷ es) ip = ground (arith, check_cidrs-any es ip)

  pub check_ip-listed_of_Agrees :
      (b : B) (ip : ℕ) → Agrees b → check_ip bloom to_lowercase b (v4 ip) ≡ listed b ip
  unfolding check_ip listed
  check_ip-listed_of_Agrees b ip h = ground (arith, h ip, check_cidrs-any b.ip_cidrs ip)

  pub loads-Agrees : (ls : List Load) → Agrees (apply_loads (new bloom to_lowercase) ls)
  loads-Agrees ls = keep_loads Agrees Agrees-Kept (new bloom to_lowercase) ls base
    where
      base : Agrees (new bloom to_lowercase)
      base = unfold new contains in λ ip h. cc

  -- After any sequence of loads into a new blacklist, `check_ip` answers an IPv4 address as the exact
  -- set and the CIDR list alone would, whatever the Bloom filter answers for addresses that were
  -- not set, and it answers `none` for every IPv6 address.
  pub check_ip-listed :
      (ls : List Load) (ip : ℕ) (six : List ℕ)
      → let b = apply_loads (new bloom to_lowercase) ls in
        (check_ip bloom to_lowercase b (v4 ip) ≡ listed b ip)
        × (check_ip bloom to_lowercase b (v6 six) ≡ none)
  unfolding check_ip
  check_ip-listed ls ip six = (
    check_ip-listed_of_Agrees (apply_loads (new bloom to_lowercase) ls) ip (loads-Agrees ls),
    refl,
  )

  contains-any_append :
      (p : CidrEntry → Bool) (xs ys : List CidrEntry) → any p xs ≡ true → any p (xs ++ ys) ≡ true
  contains-any_append p [] ys h = cc
  contains-any_append p (x ∷ xs) ys h = ground (arith, contains-any_append p xs ys)

  abbrev pub IsListed : ℕ → B → Type 0
  IsListed ip b =
      (contains ℕ_discrete ip b.ip_exact || any (λ e. cidr_contains e ip) b.ip_cidrs) ≡ true

  pub IsListed-Kept : (ip : ℕ) → Kept (IsListed ip)
  unfolding add_ip push_cidr add_domain
  IsListed-Kept ip = record {
    on_ip = λ b j h. ground (arith, contains-add_keep j ip b.ip_exact);
    on_cidr =
        λ b e h. ground (arith, contains-any_append (λ e. cidr_contains e ip) b.ip_cidrs (e ∷ []));
    on_domain = λ b d h. h;
  }

  pub listed-score :
      (b : B) (ip : ℕ) → IsListed ip b → (s : Signal) × (listed b ip ≡ some s) × (s.score ≡ 90)
  unfolding listed
  listed-score b ip h = (
    if contains ℕ_discrete ip b.ip_exact
        then ip_signal bloom to_lowercase
        else cidr_signal bloom to_lowercase,
    ground arith,
    ground arith,
  )

  IsListed-of_listed : (b : B) (ip : ℕ) (s : Signal) → listed b ip ≡ some s → IsListed ip b
  unfolding listed
  IsListed-of_listed b ip s h = ground arith

  -- No later load hides an address: an IPv4 address that `check_ip` flags after some loads is
  -- flagged, with a score of 90, after any further loads.
  pub check_ip_stays :
      (before after : List Load) (ip : ℕ) (s : Signal)
      → let b = apply_loads (new bloom to_lowercase) before in
        check_ip bloom to_lowercase b (v4 ip) ≡ some s
        → (t : Signal) × (check_ip bloom to_lowercase (apply_loads b after) (v4 ip) ≡ some t)
          × (t.score ≡ 90)
  check_ip_stays before after ip s h =
      let b = apply_loads (new bloom to_lowercase) before in
      let agrees = loads-Agrees before in
      let old = IsListed-of_listed b ip s (sym (check_ip-listed_of_Agrees b ip agrees) ∙ h) in
      let (t, found, points) =
        listed-score (apply_loads b after) ip
          (keep_loads (IsListed ip) (IsListed-Kept ip) b after old) in
      (
        t,
        check_ip-listed_of_Agrees (apply_loads b after) ip
              (keep_loads Agrees Agrees-Kept b after agrees)
            ∙ found,
        points,
      )
