-- ===== src/Prelude/Bits.antt =====
-- Masks: what `bit_and` with a mask does, from its definition by binary digits.
use Prim.Native.Nat.{
  ℕ, zero, suc, ◌+◌, ◌-◌, ◌*◌, ◌/◌, ◌%◌, ◌^◌, ◌≤◌, ◌<◌, min, bit_and, digits, bit_and-bitwise,
}
use mathlib.Core.Path.{◌≡◌, refl, sym, ◌∙◌, ap}
use mathlib.Core.Bool.{Bool, true, ◌&&◌}
use native.Mathlib.Omega.{arith}
use native.Mathlib.Nat.{
  pow-suc, one-le-pow, div-add-mod, mod-lt, mod-eq_of_lt, mul-add-mod_self_right, mul-one, div-one,
  div-div-eq-div-mul,
}

-- Every number below the bound passes the test.
unfoldable pub all_below : ℕ → (ℕ → Bool) → Bool
all_below zero p = true
all_below (suc n) p = p n && all_below n p

pub all_below-lt : (n : ℕ) (p : ℕ → Bool) (x : ℕ) → all_below n p ≡ true → x < n → p x ≡ true
unfolding all_below
all_below-lt zero p x h lt = absurd (omega arith)
all_below-lt (suc n) p x h lt = ground (arith, all_below-lt n p x)

-- The digits of `bit_and`, with the fuel free.
abbrev and_fuel : ℕ → ℕ → ℕ → ℕ
and_fuel = digits (λ b. zero) min

and_fuel-le : (n a b : ℕ) → and_fuel n a b ≤ b
and_fuel-le zero zero b = omega arith
and_fuel-le zero (suc a) b = omega arith
and_fuel-le (suc n) zero b = omega arith
and_fuel-le (suc n) (suc a) b = omega (arith, and_fuel-le n (suc a / 2) (b / 2))

-- A mask bounds what it lets through.
pub bit_and-le : (a b : ℕ) → bit_and a b ≤ b
bit_and-le a b = omega (arith, bit_and-bitwise a b, and_fuel-le a a b)

-- The fuel of the digits does not matter, once it covers the first number.
and_fuel-agree : (n m a b : ℕ) → a ≤ n → a ≤ m → and_fuel n a b ≡ and_fuel m a b
and_fuel-agree zero zero zero b h k = refl
and_fuel-agree zero (suc m) zero b h k = refl
and_fuel-agree (suc n) zero zero b h k = refl
and_fuel-agree (suc n) (suc m) zero b h k = refl
and_fuel-agree (suc n) (suc m) (suc a) b h k =
    omega (arith, and_fuel-agree n m (suc a / 2) (b / 2) (omega arith) (omega arith))
and_fuel-agree n m (suc a) b h k = absurd (omega arith)

-- The lowest digit, and the rest.
pub bit_and-halves : (a b : ℕ) → bit_and a b ≡ bit_and (a / 2) (b / 2) * 2 + min (a % 2) (b % 2)
bit_and-halves zero b = omega (arith, bit_and-bitwise 0 b, bit_and-bitwise 0 (b / 2))
bit_and-halves (suc a) b = omega (
  arith,
  bit_and-bitwise (suc a) b,
  bit_and-bitwise (suc a / 2) (b / 2),
  and_fuel-agree a (suc a / 2) (suc a / 2) (b / 2) (omega arith) (omega arith),
)

half-mod : (x m : ℕ) → 0 < m → x % (m * 2) ≡ x / 2 % m * 2 + x % 2
half-mod x m h =
    let q = x / 2 / m in
    let r = x / 2 % m in
    let split : x ≡ q * (m * 2) + (r * 2 + x % 2) =
      omega (arith, ap (λ (t : ℕ). t * 2) (div-add-mod (x / 2) m)) in
    ap (λ t. t % (m * 2)) split
    ∙ mul-add-mod_self_right q (m * 2) (r * 2 + x % 2)
    ∙ mod-eq_of_lt (let b : r < m = mod-lt (x / 2) h in omega arith)

pow-pos : (n : ℕ) → 0 < 2 ^ n
pow-pos n = one-le-pow n 2 (omega arith)

-- A mask of `n` low ones takes the remainder by `2 ^ n`.
pub bit_and-ones : (n x : ℕ) → bit_and x (2 ^ n - 1) ≡ x % 2 ^ n
bit_and-ones zero x = omega (arith, bit_and-le x 0)
bit_and-ones (suc n) x =
    let p : 2 ^ suc n ≡ 2 ^ n * 2 = pow-suc 2 n in
    let pos = pow-pos n in
    rw p (
      let half : (2 ^ n * 2 - 1) / 2 ≡ 2 ^ n - 1 = omega arith in
      let odd : (2 ^ n * 2 - 1) % 2 ≡ 1 = omega arith in
      bit_and-halves x (2 ^ n * 2 - 1)
      ∙ (rw (half, odd, bit_and-ones n (x / 2)) (omega (arith, half-mod x (2 ^ n) pos))))

-- A mask of `n` ones above `k` zeros keeps those digits.
pub bit_and-high : (n k x : ℕ) → bit_and x ((2 ^ n - 1) * 2 ^ k) ≡ x / 2 ^ k % 2 ^ n * 2 ^ k
bit_and-high n zero x =
    let flat : (2 ^ n - 1) * 1 ≡ 2 ^ n - 1 = omega arith in
    rw (flat, div-one) (bit_and-ones n x ∙ sym (mul-one (x % 2 ^ n)))
bit_and-high n (suc k) x =
    let p : 2 ^ suc k ≡ 2 ^ k * 2 = pow-suc 2 k in
    let m = (2 ^ n - 1) * 2 ^ k in
    let up : (2 ^ n - 1) * (2 ^ k * 2) ≡ m * 2 = omega arith in
    let half : m * 2 / 2 ≡ m = omega arith in
    let even : m * 2 % 2 ≡ 0 = omega arith in
    let swap : 2 ^ k * 2 ≡ 2 * 2 ^ k = omega arith in
    let quot : x / (2 ^ k * 2) ≡ x / 2 / 2 ^ k =
      ap (λ t. x / t) swap ∙ sym (div-div-eq-div-mul x 2 (2 ^ k)) in
    rw (p, up)
      (bit_and-halves x (m * 2) ∙ (rw (half, even, bit_and-high n k (x / 2), quot) (omega arith)))
