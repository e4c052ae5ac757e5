-- ===== src/Ids/Payload.antt =====
-- src/ids/payload.rs. The Aho-Corasick automaton is a parameter, the third-party `aho_corasick`
-- crate; the table of signatures is the program's.
pub mod Scan
mod Tests
use ocellus_network_monitor.Prelude.{
  ℕ, ◌+◌, ◌-◌, ◌<◌, ◌≤◌, ◌≡◌, Bool, true, false, ◌&&◌, Option, none, some, String, List, [], ◌∷◌,
  length, drop, get_elem?, any, map, leb, ltb, ◌==◌, if◌then◌else◌, Outcome, done, panic, ◌>>=◌,
  index,
}
use text.Mathlib.Text.{◌==◌ as str_eq}
use ocellus_network_monitor.Ids.Score.{Signal, score_payload_sig}

pub record Signature : Type 0 where
  pub pattern : List ℕ
  pub name : String
  pub score : ℕ

abbrev pub sig : List ℕ → String → ℕ → Signature
sig pattern name score = record { pattern = pattern; name = name; score = score }

-- `SIGNATURES`, the patterns by their bytes.
abbrev pub signatures : List Signature
signatures =
    sig (0x90 ∷ 0x90 ∷ 0x90 ∷ 0x90 ∷ 0x90 ∷ 0x90 ∷ 0x90 ∷ 0x90 ∷ []) "nop_sled" score_payload_sig
    ∷ sig (0xeb ∷ 0xfe ∷ []) "infinite_jmp_loop" score_payload_sig
    ∷ sig (0x4d ∷ 0x53 ∷ 0x46 ∷ 0x56 ∷ []) "metasploit_payload_marker" score_payload_sig
    ∷ sig (0x24 ∷ 0x7b ∷ 0x6a ∷ 0x6e ∷ 0x64 ∷ 0x69 ∷ 0x3a ∷ []) "log4shell_jndi" score_payload_sig
    ∷ sig
        (0x65 ∷ 0x76 ∷ 0x61 ∷ 0x6c ∷ 0x28 ∷ 0x62 ∷ 0x61 ∷ 0x73 ∷ 0x65 ∷ 0x36 ∷ 0x34 ∷ 0x5f ∷ 0x64
          ∷ 0x65 ∷ 0x63 ∷ 0x6f ∷ 0x64 ∷ 0x65 ∷ [])
        "php_webshell_eval_b64" score_payload_sig
    ∷ sig (0x70 ∷ 0x61 ∷ 0x73 ∷ 0x73 ∷ 0x74 ∷ 0x68 ∷ 0x72 ∷ 0x75 ∷ 0x28 ∷ []) "php_passthru"
        score_payload_sig
    ∷ sig (0x63 ∷ 0x6d ∷ 0x64 ∷ 0x2e ∷ 0x65 ∷ 0x78 ∷ 0x65 ∷ 0x20 ∷ 0x2f ∷ 0x63 ∷ []) "cmd_exec"
        score_payload_sig
    ∷ sig (0x2f ∷ 0x62 ∷ 0x69 ∷ 0x6e ∷ 0x2f ∷ 0x73 ∷ 0x68 ∷ 0x20 ∷ 0x2d ∷ 0x69 ∷ [])
        "reverse_shell_sh" score_payload_sig
    ∷ sig
        (0x43 ∷ 0x6f ∷ 0x6e ∷ 0x74 ∷ 0x65 ∷ 0x6e ∷ 0x74 ∷ 0x2d ∷ 0x54 ∷ 0x79 ∷ 0x70 ∷ 0x65 ∷ 0x3a
          ∷ 0x20 ∷ 0x61 ∷ 0x70 ∷ 0x70 ∷ 0x6c ∷ 0x69 ∷ 0x63 ∷ 0x61 ∷ 0x74 ∷ 0x69 ∷ 0x6f ∷ 0x6e ∷ 0x2f
          ∷ 0x6f ∷ 0x63 ∷ 0x74 ∷ 0x65 ∷ 0x74 ∷ 0x2d ∷ 0x73 ∷ 0x74 ∷ 0x72 ∷ 0x65 ∷ 0x61 ∷ 0x6d ∷ 0xd
          ∷ 0xa ∷ 0xd ∷ 0xa ∷ 0x4d ∷ 0x5a ∷ [])
        "cs_beacon_mz" score_payload_sig
    ∷ sig
        (0x73 ∷ 0x65 ∷ 0x6b ∷ 0x75 ∷ 0x72 ∷ 0x6c ∷ 0x73 ∷ 0x61 ∷ 0x3a ∷ 0x3a ∷ 0x6c ∷ 0x6f ∷ 0x67
          ∷ 0x6f ∷ 0x6e ∷ 0x70 ∷ 0x61 ∷ 0x73 ∷ 0x73 ∷ 0x77 ∷ 0x6f ∷ 0x72 ∷ 0x64 ∷ 0x73 ∷ [])
        "mimikatz_sekurlsa" score_payload_sig
    ∷ sig (0x6c ∷ 0x73 ∷ 0x61 ∷ 0x64 ∷ 0x75 ∷ 0x6d ∷ 0x70 ∷ 0x3a ∷ 0x3a ∷ 0x73 ∷ 0x61 ∷ 0x6d ∷ [])
        "mimikatz_lsadump" score_payload_sig
    ∷ sig (0x27 ∷ 0x20 ∷ 0x4f ∷ 0x52 ∷ 0x20 ∷ 0x27 ∷ 0x31 ∷ 0x27 ∷ 0x3d ∷ 0x27 ∷ 0x31 ∷ [])
        "sqli_or_1eq1" 35
    ∷ sig (0x55 ∷ 0x4e ∷ 0x49 ∷ 0x4f ∷ 0x4e ∷ 0x20 ∷ 0x53 ∷ 0x45 ∷ 0x4c ∷ 0x45 ∷ 0x43 ∷ 0x54 ∷ [])
        "sqli_union_select" 35
    ∷ sig
        (0x2e ∷ 0x2e ∷ 0x2f ∷ 0x2e ∷ 0x2e ∷ 0x2f ∷ 0x65 ∷ 0x74 ∷ 0x63 ∷ 0x2f ∷ 0x70 ∷ 0x61 ∷ 0x73
          ∷ 0x73 ∷ 0x77 ∷ 0x64 ∷ [])
        "path_traversal_passwd" 40
    ∷ sig
        (0x31 ∷ 0x36 ∷ 0x39 ∷ 0x2e ∷ 0x32 ∷ 0x35 ∷ 0x34 ∷ 0x2e ∷ 0x31 ∷ 0x36 ∷ 0x39 ∷ 0x2e ∷ 0x32
          ∷ 0x35 ∷ 0x34 ∷ [])
        "ssrf_aws_metadata" 40
    ∷ []

-- ASCII lowercase of a byte
abbrev pub fold_case : ℕ → ℕ
fold_case b = if leb b'A' b && leb b b'Z' then b + 32 else b

-- The text starts with the pattern, up to ASCII case.
unfoldable pub matches_at : List ℕ → List ℕ → Bool
matches_at [] text = true
matches_at (p ∷ ps) [] = false
matches_at (p ∷ ps) (t ∷ ts) = fold_case p == fold_case t && matches_at ps ts

-- A match of the automaton: the pattern's index and where it starts.
pub record Match : Type 0 where
  pub pattern : ℕ
  pub start : ℕ

-- `AhoCorasick` with `ascii_case_insensitive(true)`. Its matches are occurrences of its patterns,
-- and where there is an occurrence, `find_iter` finds a match.
pub record AhoCorasick : Type 1 where
  pub Automaton : Type 0
  pub build : List (List ℕ) → Automaton
  pub find_iter : Automaton → List ℕ → List Match
  pub occurs :
      (ps : List (List ℕ)) (text : List ℕ) (i : ℕ) (m : Match)
      → get_elem? (find_iter (build ps) text) i ≡ some m
      → (p : List ℕ) × (get_elem? ps m.pattern ≡ some p) × (matches_at p (drop m.start text) ≡ true)
  pub found :
      (ps : List (List ℕ)) (text : List ℕ) (i at : ℕ) (p : List ℕ)
      → get_elem? ps i ≡ some p
      → matches_at p (drop at text) ≡ true
      → 0 < length (find_iter (build ps) text)

pub record PayloadRule : Type 0 where
  pub name : String
  pub score : ℕ

abbrev pub rule_signal : PayloadRule → Signal
rule_signal r = record { name = r.name; score = r.score }

-- The first match only.
abbrev pub scan_first : List PayloadRule → List Match → Outcome (Option Signal)
scan_first rules [] = done none
scan_first rules (m ∷ ms) = do rule ← index rules m.pattern; done (some (rule_signal rule))

abbrev pub is_seen : String → List String → Bool
is_seen name = any (λ n. str_eq n name)

-- The loop of `scan_all`.
unfoldable pub scan_from : List PayloadRule → List String → List Match → Outcome (List Signal)
scan_from rules seen [] = done []
scan_from rules seen (m ∷ ms) = do
  rule ← index rules m.pattern
  if is_seen rule.name seen
      then scan_from rules seen ms
      else (do rest ← scan_from rules (rule.name ∷ seen) ms; done (rule_signal rule ∷ rest))

module _ (crate : AhoCorasick) where
  open crate use {Automaton, build, find_iter}

  pub record PayloadScanner : Type 0 where
    pub ac : Automaton
    pub rules : List PayloadRule

  unfoldable pub new : PayloadScanner
  new = record {
    ac = build (map (λ s. s.pattern) signatures);
    rules = map (λ s. record { name = s.name; score = s.score }) signatures;
  }

  unfoldable pub scan : PayloadScanner → List ℕ → Outcome (Option Signal)
  scan s payload = scan_first s.rules (find_iter s.ac payload)

  unfoldable pub scan_all : PayloadScanner → List ℕ → Outcome (List Signal)
  unfolding scan_from
  scan_all s payload = scan_from s.rules [] (find_iter s.ac payload)
