-- ===== src/TestSender/Build.antt =====
-- The bytes of a frame of the test sender.
use ocellus_network_monitor.Prelude.{
  ℕ, zero, suc, ◌+◌, ◌-◌, ◌/◌, ◌%◌, ◌^◌, ◌≡◌, refl, ◌∙◌, ap, bit_and, true, false, List, [], ◌∷◌,
  ◌++◌, length, ◌==◌, ltb, arith, tests, done,
}
use ocellus_network_monitor.TestSender.{Draws, draw, zeros, frame_of}

pub length-draw : (n : ℕ) (f : ℕ → ℕ) → length (draw n f) ≡ n
length-draw zero f = refl
length-draw (suc n) f = ap (λ k. suc k) (length-draw n λ i. f (suc i))

length-zeros : (n : ℕ) → length (zeros n) ≡ n
length-zeros zero = refl
length-zeros (suc n) = ap (λ k. suc k) (length-zeros n)

-- The bytes before the ports.
abbrev pub headers : Draws → ℕ → ℕ → List ℕ
headers d proto ip_len =
    draw 12 d.macs
    ++ (0x08
        ∷ 0x00
        ∷ 0x45
        ∷ 0
        ∷ ip_len / 2 ^ 8 % 2 ^ 8
        ∷ bit_and ip_len 0xFF
        ∷ 0
        ∷ 0
        ∷ 0
        ∷ 0
        ∷ d.ttl
        ∷ proto
        ∷ 0
        ∷ 0
        ∷ d.src0
        ∷ d.src1
        ∷ d.src2
        ∷ d.src3
        ∷ d.dst0
        ∷ d.dst1
        ∷ d.dst2
        ∷ d.dst3
        ∷ [])

zeros-add : (m n : ℕ) → zeros (m + n) ≡ zeros m ++ zeros n
zeros-add zero n = let same : 0 + n ≡ n = omega arith in ap zeros same
zeros-add (suc m) n =
    let same : suc m + n ≡ suc (m + n) = omega arith in ap zeros same ∙ ap (◌∷◌ 0) (zeros-add m n)

abbrev pub ip_len_of : ℕ → ℕ
ip_len_of total = (total - 14) % 2 ^ 16

abbrev pub port_bytes : Draws → List ℕ
port_bytes d =
    d.src_port / 2 ^ 8 % 2 ^ 8
    ∷ bit_and d.src_port 0xFF
    ∷ d.dst_port / 2 ^ 8 % 2 ^ 8
    ∷ bit_and d.dst_port 0xFF
    ∷ []

pub frame_of-icmp :
    (d : Draws)
    → frame_of d 1
      ≡ done (headers d 1 (ip_len_of (34 + d.payload_len)) ++ draw d.payload_len d.payload)
unfolding frame_of
frame_of-icmp d = rw (zeros-add 34 d.payload_len, length-zeros) refl

pub frame_of-ports :
    (d : Draws) (proto : ℕ)
    → (proto == 1) ≡ false
    → frame_of d proto
      ≡ done (
          headers d proto (ip_len_of (38 + d.payload_len))
          ++ (port_bytes d ++ draw d.payload_len d.payload))
unfolding frame_of
frame_of-ports d proto h =
    let inside : ltb 37 (38 + d.payload_len) ≡ true = omega tests in
    rw (h, inside, zeros-add 38 d.payload_len, length-zeros) refl
