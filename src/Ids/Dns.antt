-- ===== src/Ids/Dns.antt =====
-- src/ids/dns.rs. The `f64` arithmetic of the entropy and the Unicode lowercase mapping are
-- parameters; texts and their bytes are those of Text.
pub mod Query
pub mod Wire
mod Tests
use ocellus_network_monitor.Prelude.{
  ℕ, zero, suc, ◌+◌, ◌-◌, ◌*◌, ◌%◌, ◌^◌, bit_and, Bool, true, false, not, ◌&&◌, ◌||◌, Option, none,
  some, List, [], ◌∷◌, ◌++◌, length, take, get_elem?, ltb, leb, ◌==◌, if◌then◌else◌, Outcome, done,
  panic, ◌>>=◌, index, slice, be_u16, map,
}
use ocellus_network_monitor.Prelude.Map.{contains}
use ocellus_network_monitor.Text.{Str, Str-discrete, trim_dots, split, join}
use ocellus_network_monitor.Text.Utf8.{from_utf8_lossy, as_bytes}
use ocellus_network_monitor.Ids.Score.{Signal, score_dns_anomaly}

-- The `f64` operations of `shannon_entropy` and of its comparison with 3.5.
pub record Floats : Type 1 where
  pub Float : Type 0
  pub zero_float : Float
  pub from_nat : ℕ → Float
  pub divide : Float → Float → Float
  pub times : Float → Float → Float
  pub negate : Float → Float
  pub log2 : Float → Float
  pub plus : Float → Float → Float
  pub exceeds_threshold : Float → Bool

abbrev pub max_label_len : ℕ
max_label_len = 40

abbrev pub max_fqdn_len : ℕ
max_fqdn_len = 128

abbrev pub dns_tunnel_bytes : ℕ
dns_tunnel_bytes = 400

-- ASCII texts, by their codes.
abbrev pub suspicious_tlds : List Str
suspicious_tlds =
    (b'x' ∷ b'y' ∷ b'z' ∷ [])
    ∷ (b't' ∷ b'o' ∷ b'p' ∷ [])
    ∷ (b'c' ∷ b'l' ∷ b'i' ∷ b'c' ∷ b'k' ∷ [])
    ∷ (b'l' ∷ b'i' ∷ b'n' ∷ b'k' ∷ [])
    ∷ (b'w' ∷ b'o' ∷ b'r' ∷ b'k' ∷ [])
    ∷ (b'd' ∷ b'a' ∷ b't' ∷ b'e' ∷ [])
    ∷ (b'r' ∷ b'e' ∷ b'v' ∷ b'i' ∷ b'e' ∷ b'w' ∷ [])
    ∷ (b's' ∷ b't' ∷ b'r' ∷ b'e' ∷ b'a' ∷ b'm' ∷ [])
    ∷ (b'g' ∷ b'd' ∷ b'n' ∷ [])
    ∷ (b'r' ∷ b'a' ∷ b'c' ∷ b'i' ∷ b'n' ∷ b'g' ∷ [])
    ∷ (b'd' ∷ b'o' ∷ b'w' ∷ b'n' ∷ b'l' ∷ b'o' ∷ b'a' ∷ b'd' ∷ [])
    ∷ (b'w' ∷ b'i' ∷ b'n' ∷ [])
    ∷ (b'b' ∷ b'i' ∷ b'd' ∷ [])
    ∷ (b'l' ∷ b'o' ∷ b'a' ∷ b'n' ∷ [])
    ∷ (b'o' ∷ b'n' ∷ b'l' ∷ b'i' ∷ b'n' ∷ b'e' ∷ [])
    ∷ (b's' ∷ b'c' ∷ b'i' ∷ b'e' ∷ b'n' ∷ b'c' ∷ b'e' ∷ [])
    ∷ (b'p' ∷ b'a' ∷ b'r' ∷ b't' ∷ b'y' ∷ [])
    ∷ (b't' ∷ b'r' ∷ b'a' ∷ b'd' ∷ b'e' ∷ [])
    ∷ []

-- `counts[b] += 1`, in `u32`
unfoldable pub bump_count : List ℕ → ℕ → List ℕ
bump_count [] b = []
bump_count (c ∷ cs) zero = (c + 1) % 2 ^ 32 ∷ cs
bump_count (c ∷ cs) (suc b) = c ∷ bump_count cs b

unfoldable pub count_bytes : List ℕ → List ℕ → List ℕ
unfolding bump_count
count_bytes counts [] = counts
count_bytes counts (b ∷ bs) = count_bytes (bump_count counts b) bs

unfoldable pub zeros : ℕ → List ℕ
zeros zero = []
zeros (suc n) = 0 ∷ zeros n

abbrev pub when : Bool → Signal → List Signal
when b s = if b then s ∷ [] else []

abbrev pub long_fqdn_signal : Signal
long_fqdn_signal = record { name = "dns_long_fqdn"; score = score_dns_anomaly }

abbrev pub tld_signal : Signal
tld_signal = record { name = "dns_suspicious_tld"; score = 15 }

abbrev pub long_label_signal : Signal
long_label_signal = record { name = "dns_long_label"; score = score_dns_anomaly }

abbrev pub entropy_signal : Signal
entropy_signal = record { name = "dns_high_entropy"; score = score_dns_anomaly }

abbrev pub tunnel_signal : Signal
tunnel_signal = record { name = "dns_tunnel_large_response"; score = score_dns_anomaly + 5 }

-- `len()` of a `&str` counts bytes.
abbrev pub byte_len : Str → ℕ
byte_len s = length (as_bytes s)

module _ (floats : Floats) where
  open floats use {
    Float, zero_float, from_nat, divide, times, negate, log2, plus, exceeds_threshold,
  }

  -- `-p * p.log2()` for one count
  abbrev pub term : ℕ → ℕ → Float
  term len c = let p = divide (from_nat c) (from_nat len) in times (negate p) (log2 p)

  -- The sum of the terms of the counts that are not zero.
  unfoldable pub sum_terms : ℕ → Float → List ℕ → Float
  sum_terms len acc [] = acc
  sum_terms len acc (c ∷ cs) = sum_terms len (if ltb 0 c then plus acc (term len c) else acc) cs

  unfoldable pub shannon_entropy : List ℕ → Float
  unfolding sum_terms count_bytes zeros
  shannon_entropy [] = zero_float
  shannon_entropy (b ∷ bs) =
      sum_terms (length (b ∷ bs)) zero_float (count_bytes (zeros 256) (b ∷ bs))

  unfoldable pub check_label : Str → List Signal
  check_label label =
      when (ltb max_label_len (byte_len label)) long_label_signal
      ++ when (exceeds_threshold (shannon_entropy (as_bytes label))) entropy_signal

  -- Every label but the last.
  unfoldable pub check_labels : List Str → List Signal
  unfolding check_label
  check_labels [] = []
  check_labels (l ∷ []) = []
  check_labels (l ∷ m ∷ ls) = check_label l ++ check_labels (m ∷ ls)

  module _ (to_lowercase : Str → Str) where
    unfoldable pub check_tld : List Str → List Signal
    check_tld [] = []
    check_tld (l ∷ []) = when (contains Str-discrete (to_lowercase l) suspicious_tlds) tld_signal
    check_tld (l ∷ m ∷ ls) = check_tld (m ∷ ls)

    unfoldable pub inspect_name : Str → List Signal
    unfolding check_tld check_labels
    inspect_name fqdn =
        let name = trim_dots fqdn in
        let labels = split b'.' name in
        when (ltb max_fqdn_len (byte_len name)) long_fqdn_signal
        ++ (check_tld labels ++ check_labels labels)

-- The loop of `extract_dns_query_name`. To run out of fuel counts as a panic.
unfoldable pub read_labels : ℕ → List ℕ → ℕ → List Str → Outcome (Option (List Str))
read_labels zero payload pos labels = panic
read_labels (suc fuel) payload pos labels =
    let rest = λ (len : ℕ). (do
      bytes ← slice payload (pos + 1) (pos + 1 + len)
      read_labels fuel payload (pos + 1 + len) (labels ++ (from_utf8_lossy bytes ∷ []))) in
    if leb (length payload) pos then done none else do
      len ← index payload pos
      if len == 0 || bit_and len 0xC0 == 0xC0
          then done (some labels)
          else if ltb (length payload) (pos + 1 + len)
          then done none
          else rest len

-- The labels joined, unless there is none.
abbrev pub join_labels : Option (List Str) → Option Str
join_labels none = none
join_labels (some []) = none
join_labels (some (l ∷ ls)) = some (join (b'.' ∷ []) (l ∷ ls))

unfoldable pub extract_dns_query_name : List ℕ → Outcome (Option Str)
extract_dns_query_name payload = if ltb (length payload) 12 then done none else do
  q4 ← index payload 4
  q5 ← index payload 5
  if be_u16 q4 q5 == 0
      then done none
      else (do labels ← read_labels (length payload) payload 12 []; done (join_labels labels))

module _ (floats : Floats) (to_lowercase : Str → Str) where
  -- The tail of `inspect_payload`, once there is a name.
  unfoldable pub tunnel_check : List ℕ → Outcome (List Signal)
  tunnel_check payload =
      if ltb 6 (length payload)
      then (do
        b2 ← index payload 2
        b3 ← index payload 3
        b6 ← index payload 6
        b7 ← index payload 7
        done (
            when
              (not (bit_and (be_u16 b2 b3) 0x8000 == 0)
                && (ltb 0 (be_u16 b6 b7) && leb dns_tunnel_bytes (length payload)))
              tunnel_signal))
      else done []

  abbrev pub inspect_found : List ℕ → Option Str → Outcome (List Signal)
  inspect_found payload none = done []
  inspect_found payload (some query_name) = do
    tunnel ← tunnel_check payload
    done (inspect_name floats to_lowercase query_name ++ tunnel)

  unfoldable pub inspect_payload : List ℕ → Outcome (List Signal)
  inspect_payload payload = do
    query_name ← extract_dns_query_name payload
    inspect_found payload query_name
