-- ===== src/Text.antt =====
-- What the program uses of Rust's `str` and `String`: a text is its list of code points.
pub mod Utf8
use ocellus_network_monitor.Prelude.{
  ℕ, zero, suc, ◌+◌, ◌*◌, ◌-◌, ◌^◌, Bool, true, false, not, ◌&&◌, ◌||◌, Option, none, some, List,
  [], ◌∷◌, ◌++◌, length, ◌==◌, leb, ltb, if◌then◌else◌, any, ℕ_discrete,
}

abbrev pub Str : Type 0
Str = List ℕ

Str_eq : Discrete Str
Str_eq = hlevel ℕ_discrete

unfoldable pub Str-discrete : Discrete Str
unfolding Str_eq
Str-discrete = Str_eq

abbrev pub is_digit : ℕ → Bool
is_digit c = leb b'0' c && leb c b'9'

-- `char::is_whitespace`, the Unicode property White_Space
unfoldable pub is_whitespace : ℕ → Bool
is_whitespace c =
    leb 9 c && leb c 13
    || c == 0x20
    || c == 0x85
    || c == 0xA0
    || c == 0x1680
    || leb 0x2000 c && leb c 0x200A
    || c == 0x2028
    || c == 0x2029
    || c == 0x202F
    || c == 0x205F
    || c == 0x3000

unfoldable pub trim_start : (ℕ → Bool) → Str → Str
trim_start p [] = []
trim_start p (c ∷ s) = let rest = trim_start p s in if p c then rest else c ∷ s

-- The character before a trimmed rest goes too, if it passes and the rest is empty.
abbrev pub keep_before : (ℕ → Bool) → ℕ → Str → Str
keep_before p c [] = if p c then [] else c ∷ []
keep_before p c (d ∷ s) = c ∷ d ∷ s

unfoldable pub trim_end : (ℕ → Bool) → Str → Str
trim_end p [] = []
trim_end p (c ∷ s) = keep_before p c (trim_end p s)

unfoldable pub trim : Str → Str
unfolding trim_start trim_end is_whitespace
trim s = trim_end is_whitespace (trim_start is_whitespace s)

-- `trim_end_matches('.')`
abbrev pub trim_dots : Str → Str
trim_dots = trim_end (λ c. c == b'.')

-- `split(c)` of the text behind `cur`
unfoldable pub split_from : ℕ → Str → Str → List Str
split_from c cur [] = cur ∷ []
split_from c cur (d ∷ s) =
    let cut = cur ∷ split_from c [] s in
    let more = split_from c (cur ++ (d ∷ [])) s in if d == c then cut else more

abbrev pub split : ℕ → Str → List Str
split c = split_from c []

unfoldable pub split_once : ℕ → Str → Option (Str × Str)
split_once c [] = none
split_once c (d ∷ s) =
    let rest = split_once c s in
    if d == c then some ([], s) else elim rest [ none ↦ none | some (a, b) ↦ some (d ∷ a, b) ]

unfoldable pub join : Str → List Str → Str
join sep [] = []
join sep (s ∷ []) = s
join sep (s ∷ t ∷ ts) = s ++ (sep ++ join sep (t ∷ ts))

-- A carriage return before the line feed belongs to the line's end.
unfoldable pub strip_cr : Str → Str
strip_cr [] = []
strip_cr (c ∷ []) = if c == 13 then [] else c ∷ []
strip_cr (c ∷ d ∷ s) = c ∷ strip_cr (d ∷ s)

abbrev pub last_line : Str → List Str
last_line [] = []
last_line (c ∷ s) = (c ∷ s) ∷ []

-- `lines()` of the text behind `cur`
unfoldable pub lines_from : Str → Str → List Str
unfolding strip_cr
lines_from cur [] = last_line cur
lines_from cur (c ∷ s) =
    let cut = strip_cr cur ∷ lines_from [] s in
    let more = lines_from (cur ++ (c ∷ [])) s in if c == 10 then cut else more

abbrev pub lines : Str → List Str
lines = lines_from []

abbrev pub starts_with : ℕ → Str → Bool
starts_with c [] = false
starts_with c (d ∷ s) = d == c

abbrev pub is_empty : {A : Type 0} → List A → Bool
is_empty [] = true
is_empty (x ∷ xs) = false

-- `starts_with` of a text
unfoldable pub has_prefix : Str → Str → Bool
has_prefix [] s = true
has_prefix (c ∷ p) [] = false
has_prefix (c ∷ p) (d ∷ s) = let rest = has_prefix p s in if c == d then rest else false

abbrev pub filled : Str → List Str → List Str
filled [] ws = ws
filled (c ∷ w) ws = (c ∷ w) ∷ ws

-- `split_whitespace()` of the text behind `cur`
unfoldable pub words_from : Str → Str → List Str
unfolding is_whitespace
words_from cur [] = filled cur []
words_from cur (c ∷ s) =
    let cut = filled cur (words_from [] s) in
    let more = words_from (cur ++ (c ∷ [])) s in if is_whitespace c then cut else more

abbrev pub split_whitespace : Str → List Str
split_whitespace = words_from []

-- The value of decimal digits behind `acc`.
unfoldable pub digits_from : ℕ → Str → Option ℕ
digits_from acc [] = some acc
digits_from acc (c ∷ s) =
    let rest = digits_from (acc * 10 + (c - b'0')) s in if is_digit c then rest else none

abbrev pub below : ℕ → Option ℕ → Option ℕ
below bound none = none
below bound (some n) = if ltb n bound then some n else none

abbrev pub parse_digits : ℕ → Str → Option ℕ
parse_digits bound [] = none
parse_digits bound (c ∷ s) = below bound (digits_from 0 (c ∷ s))

-- `parse::<u32>()`: one `+` may lead.
unfoldable pub parse_u32 : Str → Option ℕ
unfolding digits_from
parse_u32 [] = none
parse_u32 (c ∷ s) = if c == b'+' then parse_digits (2 ^ 32) s else parse_digits (2 ^ 32) (c ∷ s)

-- A decimal octet has one to three digits and no leading zero.
unfoldable pub parse_octet : Str → Option ℕ
unfolding digits_from
parse_octet s =
    if ltb 3 (length s) || ltb 1 (length s) && starts_with b'0' s then none else parse_digits 256 s

abbrev pub octets : List Str → Option ℕ
octets (a ∷ b ∷ c ∷ d ∷ []) = elim (parse_octet a) [
  | none ↦ none
  | some a' ↦ elim (parse_octet b) [
    | none ↦ none
    | some b' ↦ elim (parse_octet c) [
      | none ↦ none
      | some c' ↦ elim (parse_octet d) [
        | none ↦ none
        | some d' ↦ some (((a' * 256 + b') * 256 + c') * 256 + d')
      ]
    ]
  ]
]
octets _ = none

-- `parse::<Ipv4Addr>()`, as the `u32` of the address
unfoldable pub parse_ipv4 : Str → Option ℕ
unfolding parse_octet split_from
parse_ipv4 s = octets (split b'.' s)
