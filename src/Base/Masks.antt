-- ===== src/Base/Masks.antt =====
-- Single bits of a word: the masks `1 << j` and `~(1 << j)`, and words of ones.
use another_os.Base.Bits.{bit, bit_or_step, bit_and_step, bit_and_low, bit_and_even}
use another_os.Base.Tests.{◌==◌, if◌then◌else◌}
use Prim.Native.Nat.{ℕ, zero, suc, ◌-◌, ◌*◌, ◌/◌, ◌^◌, ◌<◌, bit_and, bit_or}
use mathlib.Core.Path.{◌≡◌, refl, ap}
use native.Mathlib.Omega.{arith}
use native.Mathlib.Nat.{pow-suc, one-le-pow}

pub bit-zero : (k : ℕ) → bit k 0 ≡ 0
unfolding bit
bit-zero zero = refl
bit-zero (suc k) = bit-zero k

pub bit-pow : (k j : ℕ) → bit k (2 ^ j) ≡ (if k == j then 1 else 0)
unfolding bit
bit-pow zero zero = refl
bit-pow zero (suc j) = ground (arith, pow-suc 2 j)
bit-pow (suc k) zero = ground (arith, bit-zero k)
bit-pow (suc k) (suc j) =
    let half : 2 ^ suc j / 2 ≡ 2 ^ j = omega (arith, pow-suc 2 j) in
    rw half (ground (arith, bit-pow k j))

pub bit_complement : (n k x : ℕ) → k < n → x < 2 ^ n → bit k (2 ^ n - 1 - x) ≡ 1 - bit k x
unfolding bit
bit_complement zero k x h l = absurd (omega arith)
bit_complement (suc n) zero x h l = omega (arith, pow-suc 2 n, one-le-pow n 2)
bit_complement (suc n) (suc k) x h l =
    let half : (2 ^ suc n - 1 - x) / 2 ≡ 2 ^ n - 1 - x / 2 =
      omega (arith, pow-suc 2 n, one-le-pow n 2) in
    rw half (bit_complement n k (x / 2) (omega arith) (omega (arith, pow-suc 2 n)))

-- `x & (1 << j)`.
pub bit_and-pow : (j x : ℕ) → bit_and x (2 ^ j) ≡ bit j x * 2 ^ j
unfolding bit
bit_and-pow zero x = omega (arith, bit_and_low 1 x)
bit_and-pow (suc j) x = omega (
  arith,
  ap (λ m. bit_and x m) (pow-suc 2 j),
  bit_and_even x (2 ^ j),
  bit_and-pow j (x / 2),
  ap (λ m. bit j (x / 2) * m) (pow-suc 2 j),
)

pub bit_or-lt : (n a b : ℕ) → a < 2 ^ n → b < 2 ^ n → bit_or a b < 2 ^ n
bit_or-lt zero a b h k =
    let e : a ≡ 0 = omega arith in let f : b ≡ 0 = omega arith in rw (e, f) (omega arith)
bit_or-lt (suc n) a b h k = omega (
  arith,
  bit_or_step a b,
  pow-suc 2 n,
  bit_or-lt n (a / 2) (b / 2) (omega (arith, pow-suc 2 n)) (omega (arith, pow-suc 2 n)),
)

pub bit_and-lt : (n a b : ℕ) → b < 2 ^ n → bit_and a b < 2 ^ n
bit_and-lt zero a b k = let e : b ≡ 0 = omega arith in rw e (omega (arith, bit_and_low 0 a))
bit_and-lt (suc n) a b k = omega (
  arith,
  bit_and_step a b,
  pow-suc 2 n,
  bit_and-lt n (a / 2) (b / 2) (omega (arith, pow-suc 2 n)),
)

-- A word whose bits are all set is the largest one.
pub all_ones : (n w : ℕ) → w < 2 ^ n → ((k : ℕ) → k < n → bit k w ≡ 1) → w ≡ 2 ^ n - 1
unfolding bit
all_ones zero w h ones = omega arith
all_ones (suc n) w h ones = omega (
  arith,
  pow-suc 2 n,
  one-le-pow n 2,
  ones 0 (omega arith),
  all_ones n (w / 2) (omega (arith, pow-suc 2 n)) (λ k l. ones (suc k) (omega arith)),
)
