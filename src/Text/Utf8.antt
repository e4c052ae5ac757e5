-- ===== src/Text/Utf8.antt =====
-- `String::from_utf8_lossy`: each maximal invalid sequence becomes one U+FFFD.
use ocellus_network_monitor.Prelude.{
  ℕ, ◌+◌, ◌*◌, ◌-◌, ◌/◌, ◌%◌, ◌&&◌, List, [], ◌∷◌, ◌++◌, ◌==◌, leb, ltb, if◌then◌else◌,
}

-- Between characters, or inside one: the continuation bytes that are missing behind the next one,
-- the range of the next one, and the bits so far.
pub data Decoder : Type 0 where
  idle : Decoder
  inside : ℕ → ℕ → ℕ → ℕ → Decoder

abbrev pub replacement : ℕ
replacement = 0xFFFD

-- A first byte: what it writes, and what must follow.
unfoldable pub lead : ℕ → List ℕ × Decoder
lead b =
    if ltb b 0x80
    then (b ∷ [], idle)
    else if leb 0xC2 b && leb b 0xDF
    then ([], inside 0 0x80 0xBF (b - 0xC0))
    else if b == 0xE0
    then ([], inside 1 0xA0 0xBF (b - 0xE0))
    else if b == 0xED
    then ([], inside 1 0x80 0x9F (b - 0xE0))
    else if leb 0xE1 b && leb b 0xEF
    then ([], inside 1 0x80 0xBF (b - 0xE0))
    else if b == 0xF0
    then ([], inside 2 0x90 0xBF (b - 0xF0))
    else if leb 0xF1 b && leb b 0xF3
    then ([], inside 2 0x80 0xBF (b - 0xF0))
    else if b == 0xF4
    then ([], inside 2 0x80 0x8F (b - 0xF0))
    else (replacement ∷ [], idle)

unfoldable pub step : Decoder → ℕ → List ℕ × Decoder
unfolding lead
step idle b = lead b
step (inside k lo hi bits) b =
    if leb lo b && leb b hi
    then if k == 0
      then ((bits * 64 + b % 64) ∷ [], idle)
      else ([], inside (k - 1) 0x80 0xBF (bits * 64 + b % 64))
    else (replacement ∷ (lead b).0, (lead b).1)

unfoldable pub decode_from : Decoder → List ℕ → List ℕ
unfolding step
decode_from idle [] = []
decode_from (inside k lo hi bits) [] = replacement ∷ []
decode_from d (b ∷ bs) = (step d b).0 ++ decode_from (step d b).1 bs

abbrev pub from_utf8_lossy : List ℕ → List ℕ
from_utf8_lossy = decode_from idle

-- The bytes of a code point.
unfoldable pub encode_char : ℕ → List ℕ
encode_char c =
    if ltb c 0x80
    then c ∷ []
    else if ltb c 0x800
    then (0xC0 + c / 64) ∷ (0x80 + c % 64) ∷ []
    else if ltb c 0x10000
    then (0xE0 + c / 4096) ∷ (0x80 + c / 64 % 64) ∷ (0x80 + c % 64) ∷ []
    else (0xF0 + c / 262144) ∷ (0x80 + c / 4096 % 64) ∷ (0x80 + c / 64 % 64) ∷ (0x80 + c % 64) ∷ []

-- `as_bytes`
unfoldable pub as_bytes : List ℕ → List ℕ
unfolding encode_char
as_bytes [] = []
as_bytes (c ∷ s) = encode_char c ++ as_bytes s
