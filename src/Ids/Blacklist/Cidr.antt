-- ===== src/Ids/Blacklist/Cidr.antt =====
-- What a CIDR entry covers.
use native.Mathlib.Nat.{div-lt_iff_lt-mul, mul-div_cancel, mod-eq_of_lt, one-le-pow}
use ocellus_network_monitor.Prelude.{
  ℕ, ◌+◌, ◌-◌, ◌*◌, ◌/◌, ◌^◌, ◌≤◌, ◌<◌, ◌≡◌, ◌↔◌, refl, sym, ap, ap₂, ◌∙◌, bit_and, true, some,
  ◌==◌, ==_iff, arith,
}
use ocellus_network_monitor.Prelude.Bits.{all_below, all_below-lt, bit_and-high}
use ocellus_network_monitor.Text.{Str, trim, split_once, parse_u32, parse_ipv4}
use ocellus_network_monitor.Ids.Blacklist.{
  CidrEntry, mask_of, entry_of, of_parts, from_cidr, cidr_contains,
}

-- The entry that `from_cidr` builds.
abbrev pub entry : ℕ → ℕ → CidrEntry
entry ip prefix_len = record { base = bit_and ip (mask_of prefix_len); mask = mask_of prefix_len }

mask_table : all_below 33 (λ p. mask_of p == (2 ^ p - 1) * 2 ^ (32 - p)) ≡ true
unfolding all_below mask_of
mask_table = refl

width_table : all_below 33 (λ p. 2 ^ p * 2 ^ (32 - p) == 2 ^ 32) ≡ true
unfolding all_below
width_table = refl

overlong_table : all_below 32 (λ q. mask_of (q + 33) == mask_of (q + 1)) ≡ true
unfolding all_below mask_of
overlong_table = refl

mask_of-high : (p : ℕ) → p ≤ 32 → mask_of p ≡ (2 ^ p - 1) * 2 ^ (32 - p)
mask_of-high p h = (==_iff _ _).0 (all_below-lt 33 _ p mask_table (omega arith))

width : (p : ℕ) → p ≤ 32 → 2 ^ p * 2 ^ (32 - p) ≡ 2 ^ 32
width p h = (==_iff _ _).0 (all_below-lt 33 _ p width_table (omega arith))

-- The mask clears the low bits of a `u32`.
masked : (p x : ℕ) → p ≤ 32 → x < 2 ^ 32 → bit_and x (mask_of p) ≡ x / 2 ^ (32 - p) * 2 ^ (32 - p)
masked p x h k =
    let pos = one-le-pow (32 - p) 2 (omega arith) in
    let small =
      (div-lt_iff_lt-mul {k = 2 ^ (32 - p)} {x = x} {y = 2 ^ p} pos).1 (omega (arith, width p h)) in
    ap (bit_and x) (mask_of-high p h)
    ∙ bit_and-high p (32 - p) x
    ∙ ap (λ t. t * 2 ^ (32 - p)) (mod-eq_of_lt small)

-- For a prefix length of at most 32, an entry covers exactly the addresses that agree with its own
-- on the leading bits.
pub cidr_contains_iff :
    (ip x p : ℕ)
    → ip < 2 ^ 32
    → x < 2 ^ 32
    → p ≤ 32
    → (cidr_contains (entry ip p) x ≡ true) ↔ (x / 2 ^ (32 - p) ≡ ip / 2 ^ (32 - p))
unfolding cidr_contains
cidr_contains_iff ip x p hi hx hp =
    let pos = one-le-pow (32 - p) 2 (omega arith) in
    let b = 2 ^ (32 - p) in
    (
      λ e.
          let same : x / b * b ≡ ip / b * b =
            sym (masked p x hp hx) ∙ (==_iff _ _).0 e ∙ masked p ip hp hi in
          sym (mul-div_cancel (x / b) pos) ∙ ap (λ t. t / b) same ∙ mul-div_cancel (ip / b) pos,
      λ e. (==_iff _ _).1 (masked p x hp hx ∙ ap (λ t. t * b) e ∙ sym (masked p ip hp hi)),
    )

-- A text `a/l`, where `a` is an IPv4 address and `l` a number from 33 to 64, is not refused: `from_cidr`
-- makes an entry of it. In the release build the shift wraps, and the entry has the mask, and so the
-- range, of the prefix length `l` less 32.
pub overlong_prefix :
    (s ip_str prefix_len_str : Str) (ip x q : ℕ)
    → split_once b'/' s ≡ some (ip_str, prefix_len_str)
    → parse_ipv4 (trim ip_str) ≡ some ip
    → parse_u32 (trim prefix_len_str) ≡ some (q + 33)
    → q < 32
    → (e : CidrEntry) × (from_cidr s ≡ some e)
      × (e.mask ≡ mask_of (q + 1))
      × (cidr_contains e x ≡ cidr_contains (entry ip (q + 1)) x)
unfolding from_cidr cidr_contains
overlong_prefix s ip_str prefix_len_str ip x q cut parsed long h =
    let e =
      (==_iff (mask_of (q + 33)) (mask_of (q + 1))).0
        (all_below-lt 32 (λ t. mask_of (t + 33) == mask_of (t + 1)) q overlong_table h) in
    (
      entry ip (q + 33),
      ap of_parts cut ∙ ap₂ entry_of long parsed,
      e,
      ap (λ m. bit_and x m == bit_and ip m) e,
    )
