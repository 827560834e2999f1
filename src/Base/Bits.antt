-- ===== src/Base/Bits.antt =====
-- `|` and `&` on numbers, bit by bit, from the digit recursion that the native operations mean.
use Prim.Native.Nat.{
  ℕ, zero, suc, ◌+◌, ◌-◌, ◌*◌, ◌/◌, ◌%◌, ◌^◌, ◌≤◌, ◌<◌, min, max, bit_and, bit_or, digits, bitwise,
  bit_and-bitwise, bit_or-bitwise,
}
use mathlib.Core.Path.{◌≡◌, refl, sym, ap, ◌∙◌}
use native.Mathlib.Omega.{arith}
use native.Mathlib.Nat.{
  pow-suc, one-le-pow, div-add-mod', mod-lt, mod-eq_of_lt, add-mul-mod_self_right,
}
use native.Mathlib.Decide.{ℕ_discrete as dec_eq}

-- A round of fuel beyond what the first number needs changes nothing, so that any fuel that is enough
-- gives what the operation means.
module _ (low : ℕ → ℕ) (both : ℕ → ℕ → ℕ) where
  spare_round : (n x y : ℕ) → x ≤ n → digits low both (suc n) x y ≡ digits low both n x y
  spare_round zero zero y enough = refl
  spare_round zero (suc x) y enough = absurd (omega arith)
  spare_round (suc n) zero y enough = refl
  spare_round (suc n) (suc x) y enough =
      let half = spare_round n (suc x / 2) (y / 2) (omega arith) in
      ap (λ d. d * 2 + both (suc x % 2) (y % 2)) half

  enough_rounds : (n x y : ℕ) → x ≤ n → digits low both n x y ≡ bitwise low both x y
  enough_rounds zero zero y enough = refl
  enough_rounds zero (suc x) y enough = absurd (omega arith)
  enough_rounds (suc n) x y enough = elim (dec_eq x (suc n)) [
    | yes all ↦ ap (λ k. digits low both k x y) (sym all)
    | no fewer ↦ spare_round n x y (omega arith) ∙ enough_rounds n x y (omega arith)
  ]

  lowest_bit :
      (x y : ℕ)
      → bitwise low both (suc x) y
        ≡ both (suc x % 2) (y % 2) + 2 * bitwise low both (suc x / 2) (y / 2)
  lowest_bit x y =
      let half = enough_rounds x (suc x / 2) (y / 2) (omega arith) in omega (arith, half)

pub bit_or_step : (x y : ℕ) → bit_or x y ≡ max (x % 2) (y % 2) + 2 * bit_or (x / 2) (y / 2)
bit_or_step (suc x) y = simp bit_or-bitwise (lowest_bit (λ b. b) max x y)
bit_or_step zero y = simp bit_or-bitwise (omega arith)

pub bit_and_step : (x y : ℕ) → bit_and x y ≡ min (x % 2) (y % 2) + 2 * bit_and (x / 2) (y / 2)
bit_and_step (suc x) y = simp bit_and-bitwise (lowest_bit (λ b. 0) min x y)
bit_and_step zero y = simp bit_and-bitwise (omega arith)

nothing_shared : (n x : ℕ) → x ≤ n → bit_and x 0 ≡ 0
nothing_shared zero x below = let none : x ≡ 0 = omega arith in rw none refl
nothing_shared (suc n) x below = elim (dec_eq x 0) [
  | yes none ↦ rw none refl
  | no some ↦ omega (arith, nothing_shared n (x / 2) (omega arith), bit_and_step x 0)
]

bit_and-zero : (x : ℕ) → bit_and x 0 ≡ 0
bit_and-zero x = nothing_shared x x (omega arith)

-- The bit of `a` at position `k`.
unfoldable pub bit : ℕ → ℕ → ℕ
bit zero a = a % 2
bit (suc k) a = bit k (a / 2)

pub bit-le : (k a : ℕ) → bit k a ≤ 1
unfolding bit
bit-le zero a = omega arith
bit-le (suc k) a = bit-le k (a / 2)

pub bit-bit_or : (k a b : ℕ) → bit k (bit_or a b) ≡ max (bit k a) (bit k b)
unfolding bit
bit-bit_or zero a b = omega (arith, bit_or_step a b)
bit-bit_or (suc k) a b =
    let half : bit_or a b / 2 ≡ bit_or (a / 2) (b / 2) = omega (arith, bit_or_step a b) in
    rw half (bit-bit_or k (a / 2) (b / 2))

pub bit-bit_and : (k a b : ℕ) → bit k (bit_and a b) ≡ min (bit k a) (bit k b)
unfolding bit
bit-bit_and zero a b = omega (arith, bit_and_step a b)
bit-bit_and (suc k) a b =
    let half : bit_and a b / 2 ≡ bit_and (a / 2) (b / 2) = omega (arith, bit_and_step a b) in
    rw half (bit-bit_and k (a / 2) (b / 2))

-- A low mask is a remainder.
mod-double : (a p : ℕ) → 0 < p → a % (p * 2) ≡ a / 2 % p * 2 + a % 2
mod-double a p h =
    let split : a ≡ (a / 2 % p * 2 + a % 2) + a / 2 / p * (p * 2) =
      omega (arith, div-add-mod' (a / 2) p) in
    let small : a / 2 % p * 2 + a % 2 < p * 2 = omega (arith, mod-lt (a / 2) h) in
    ap (λ k. k % (p * 2)) split
    ∙ add-mul-mod_self_right (a / 2 % p * 2 + a % 2) (a / 2 / p) (p * 2)
    ∙ mod-eq_of_lt small

pub bit_and_low : (n a : ℕ) → bit_and a (2 ^ n - 1) ≡ a % 2 ^ n
bit_and_low zero a = rw bit_and-zero (omega arith)
bit_and_low (suc n) a = omega (
  arith,
  pow-suc 2 n,
  one-le-pow n 2,
  bit_and_step a (2 ^ suc n - 1),
  ap (λ k. bit_and (a / 2) k)
      (let e : (2 ^ suc n - 1) / 2 ≡ 2 ^ n - 1 = omega (arith, pow-suc 2 n, one-le-pow n 2) in e),
  bit_and_low n (a / 2),
  mod-double a (2 ^ n) (omega (arith, one-le-pow n 2)),
  ap (λ k. a % k) (pow-suc 2 n),
)

-- A mask with a clear lowest bit clears that bit.
pub bit_and_even : (a m : ℕ) → bit_and a (m * 2) ≡ bit_and (a / 2) m * 2
bit_and_even a m =
    let e : m * 2 / 2 ≡ m = omega arith in
    omega (arith, bit_and_step a (m * 2), ap (λ k. bit_and (a / 2) k) e)
