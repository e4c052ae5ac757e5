-- ===== src/Ids/Dns/Wire.antt =====
-- A query name in wire format, and what the reader makes of it.
use ocellus_network_monitor.Prelude.{
  ℕ, zero, suc, ◌+◌, ◌≤◌, ◌<◌, ◌≡◌, ◌≢◌, refl, sym, ap, ap₂, ◌∙◌, true, false, not, ◌||◌, some,
  List, [], ◌∷◌, ◌++◌, append_assoc, append-nil, map, length, length-append, ltb, ◌==◌, done, index,
  slice, All, arith, bit_and, be_u16, le→ltb, lt→leb, index-append, slice-append,
}
use ocellus_network_monitor.Prelude.Bits.{all_below, all_below-lt}
use ocellus_network_monitor.Text.{Str, join}
use ocellus_network_monitor.Text.Utf8.{from_utf8_lossy}
use ocellus_network_monitor.Ids.Dns.{read_labels, extract_dns_query_name}

-- A label has at least one byte, and fewer than the 192 that would read as a pointer.
abbrev pub IsLabel : List ℕ → Type 0
IsLabel l = (0 < length l) × (length l < 192)

pub encode_labels : List (List ℕ) → List ℕ
encode_labels [] = []
encode_labels (l ∷ ls) = (length l ∷ l) ++ encode_labels ls

pointer_table : all_below 192 (λ n. not (bit_and n 0xC0 == 0xC0)) ≡ true
unfolding all_below
pointer_table = refl

-- A label's length is neither the end of the name nor a pointer.
label_goes_on : (n : ℕ) → 0 < n → n < 192 → (n == 0 || bit_and n 0xC0 == 0xC0) ≡ false
label_goes_on n h k =
    ground (arith, all_below-lt 192 (λ m. not (bit_and m 0xC0 == 0xC0)) n pointer_table k)

-- One round that reads a label, and the round that ends the name.
read_step :
    (fuel : ℕ) (payload : List ℕ) (pos : ℕ) (acc : List Str) (n : ℕ) (bytes : List ℕ)
    → pos < length payload
    → index payload pos ≡ done n
    → (n == 0 || bit_and n 0xC0 == 0xC0) ≡ false
    → pos + 1 + n ≤ length payload
    → slice payload (pos + 1) (pos + 1 + n) ≡ done bytes
    → read_labels (suc fuel) payload pos acc
      ≡ read_labels fuel payload (pos + 1 + n) (acc ++ (from_utf8_lossy bytes ∷ []))
unfolding read_labels
read_step fuel payload pos acc n bytes inside here more fits part =
    rw
      (
        lt→leb (length payload) pos inside,
        here,
        more,
        le→ltb (length payload) (pos + 1 + n) fits,
        part,
      )
      refl

read_end :
    (fuel : ℕ) (payload : List ℕ) (pos : ℕ) (acc : List Str)
    → pos < length payload
    → index payload pos ≡ done 0
    → read_labels (suc fuel) payload pos acc ≡ done (some acc)
unfolding read_labels
read_end fuel payload pos acc inside here = rw (lt→leb (length payload) pos inside, here) refl

-- The loop over labels that end in a zero byte, behind any bytes already read.
read_labels-encode :
    (fuel : ℕ) (pre : List ℕ) (ls : List (List ℕ)) (rest : List ℕ) (acc : List Str)
    → All IsLabel ls
    → length ls < fuel
    → read_labels fuel (pre ++ (encode_labels ls ++ (0 ∷ rest))) (length pre) acc
      ≡ done (some (acc ++ map from_utf8_lossy ls))
unfolding encode_labels
read_labels-encode zero pre ls rest acc h f = absurd (omega arith)
read_labels-encode (suc fuel) pre [] rest acc h f =
    read_end fuel (pre ++ (0 ∷ rest)) (length pre) acc (omega (arith, length-append pre (0 ∷ rest)))
      (index-append pre 0 rest)
    ∙ ap (λ a. done (some a)) (sym (append-nil acc))
read_labels-encode (suc fuel) pre (l ∷ ls) rest acc h f =
    let tail = encode_labels ls ++ (0 ∷ rest) in
    let payload = pre ++ (length l ∷ (l ++ tail)) in
    let pre' = pre ++ (length l ∷ l) in
    let regroup : payload ≡ pre' ++ tail = sym (append_assoc pre (length l ∷ l) tail) in
    let size = length-append pre (length l ∷ (l ++ tail)) in
    let size' = length-append l tail in
    let size'' = length-append pre (length l ∷ l) in
    let next : length pre + 1 + length l ≡ length pre' = omega arith in
    ap (λ t. read_labels (suc fuel) (pre ++ (length l ∷ t)) (length pre) acc)
      (append_assoc l (encode_labels ls) (0 ∷ rest))
    ∙ read_step fuel payload (length pre) acc (length l) l (omega arith)
        (index-append pre (length l) (l ++ tail)) (label_goes_on (length l) h.0.0 h.0.1)
        (omega arith)
        (ap (λ t. slice t (length pre + 1) (length pre + 1 + length l))
            (open_cons pre (length l) (l ++ tail))
          ∙ slice-append (pre ++ (length l ∷ [])) l tail (length pre + 1)
              (length pre + 1 + length l) (sym (length-append pre (length l ∷ [])))
              (omega (arith, length-append pre (length l ∷ []))))
    ∙ ap₂ (λ t n. read_labels fuel t n (acc ++ (from_utf8_lossy l ∷ []))) regroup next
    ∙ read_labels-encode fuel pre' ls rest (acc ++ (from_utf8_lossy l ∷ [])) h.1 (omega arith)
    ∙ ap (λ a. done (some a)) (append_assoc acc (from_utf8_lossy l ∷ []) (map from_utf8_lossy ls))
  where
    open_cons : (xs : List ℕ) (x : ℕ) (ys : List ℕ) → xs ++ (x ∷ ys) ≡ (xs ++ (x ∷ [])) ++ ys
    open_cons xs x ys = sym (append_assoc xs (x ∷ []) ys)

length-encode_labels : (ls : List (List ℕ)) → length ls ≤ length (encode_labels ls)
unfolding encode_labels
length-encode_labels [] = omega arith
length-encode_labels (l ∷ ls) =
    omega (arith, length-append (length l ∷ l) (encode_labels ls), length-encode_labels ls)

-- The twelve header bytes around the question count `q4 q5`.
abbrev pub header : (b0 b1 b2 b3 q4 q5 b6 b7 b8 b9 b10 b11 : ℕ) → List ℕ
header b0 b1 b2 b3 q4 q5 b6 b7 b8 b9 b10 b11 =
    b0 ∷ b1 ∷ b2 ∷ b3 ∷ q4 ∷ q5 ∷ b6 ∷ b7 ∷ b8 ∷ b9 ∷ b10 ∷ b11 ∷ []

-- Reading a name back: on a payload of a header whose question count is not zero, one or more labels
-- of 1 to 191 bytes in wire format, the end byte and anything behind it,
-- `extract_dns_query_name` returns the labels, decoded and joined by dots.
pub extract-encode :
    (b0 b1 b2 b3 q4 q5 b6 b7 b8 b9 b10 b11 : ℕ) (l : List ℕ) (ls : List (List ℕ)) (rest : List ℕ)
    → be_u16 q4 q5 ≢ 0
    → All IsLabel (l ∷ ls)
    → extract_dns_query_name
        (header b0 b1 b2 b3 q4 q5 b6 b7 b8 b9 b10 b11 ++ (encode_labels (l ∷ ls) ++ (0 ∷ rest)))
      ≡ done (some (join (b'.' ∷ []) (map from_utf8_lossy (l ∷ ls))))
unfolding extract_dns_query_name
extract-encode b0 b1 b2 b3 q4 q5 b6 b7 b8 b9 b10 b11 l ls rest asks h =
    let pre = header b0 b1 b2 b3 q4 q5 b6 b7 b8 b9 b10 b11 in
    let payload = pre ++ (encode_labels (l ∷ ls) ++ (0 ∷ rest)) in
    let size = length-append pre (encode_labels (l ∷ ls) ++ (0 ∷ rest)) in
    let size' = length-append (encode_labels (l ∷ ls)) (0 ∷ rest) in
    let more = length-encode_labels (l ∷ ls) in
    let long : ltb (length payload) 12 ≡ false = le→ltb (length payload) 12 (omega arith) in
    let ask : (be_u16 q4 q5 == 0) ≡ false = ground arith in
    rw
      (
        long,
        index-append (b0 ∷ b1 ∷ b2 ∷ b3 ∷ []) q4 _,
        index-append (b0 ∷ b1 ∷ b2 ∷ b3 ∷ q4 ∷ []) q5 _,
        ask,
        read_labels-encode (length payload) pre (l ∷ ls) rest [] h (omega arith),
      )
      refl
