-- ===== src/PhysMem/Bitmap.antt =====
-- Single bits of the bitmap of src/arch/x86/mem/phymem.cpp.
use another_os.Base.{ℕ, ◌+◌, ◌-◌, ◌*◌, ◌/◌, ◌%◌, ◌^◌, ◌≤◌, ◌<◌, ◌≡◌, ap, arith, if◌then◌else◌, ◌==◌}
use native.Mathlib.Decide.{ℕ_discrete as dec_eq}
use native.Mathlib.Nat.{pow-le-pow_right}
use another_os.Base.Bits.{bit, bit-le, bit-bit_or, bit-bit_and}
use another_os.Base.Masks.{bit-pow, bit_complement, bit_or-lt, bit_and-lt}
use another_os.PhysMem.{write_word, set_bit, unset_bit}

-- Whether block `c` is marked as in use.
abbrev pub Words : Type 0
Words = ℕ → ℕ

unfoldable pub used : Words → ℕ → ℕ
used words c = bit (c % 32) (words (c / 32))

-- The words are 32 bits wide.
abbrev pub IsWords : Words → Type 0
IsWords words = (i : ℕ) → words i < 2 ^ 32

pub used-le : (words : Words) (c : ℕ) → used words c ≤ 1
unfolding used
used-le words c = bit-le (c % 32) (words (c / 32))

pow-lt : (b : ℕ) → 2 ^ (b % 32) < 2 ^ 32
pow-lt b =
    let h : 2 ^ (b % 32) ≤ 2 ^ 31 =
      pow-le-pow_right (omega arith) {i = b % 32} {j = 31} (omega arith) in
    omega arith

pub set_bit-IsWords : (b : ℕ) (words : Words) → IsWords words → IsWords (set_bit b words)
unfolding set_bit write_word
set_bit-IsWords b words w i =
    ground (arith, w i, bit_or-lt 32 (words (b / 32)) (2 ^ (b % 32)) (w (b / 32)) (pow-lt b))

pub unset_bit-IsWords : (b : ℕ) (words : Words) → IsWords words → IsWords (unset_bit b words)
unfolding unset_bit write_word
unset_bit-IsWords b words w i =
    ground (arith, w i, bit_and-lt 32 (words (b / 32)) (2 ^ 32 - 1 - 2 ^ (b % 32)) (omega arith))

module _ (b c : ℕ) (words : Words) where
  same_word : b / 32 ≡ c / 32 → words (b / 32) ≡ words (c / 32)
  same_word e = ap words e

  -- `SetBit` marks one block and no other.
  pub used-set_bit : used (set_bit b words) c ≡ (if b == c then 1 else used words c)
  unfolding used set_bit write_word
  used-set_bit = elim (dec_eq (b / 32) (c / 32)) [
    | yes e ↦ ground (
      arith,
      same_word e,
      bit-bit_or (c % 32) (words (b / 32)) (2 ^ (b % 32)),
      bit-pow (c % 32) (b % 32),
      bit-le (c % 32) (words (b / 32)),
    )
    | no d ↦ ground arith
  ]

  -- `UnsetBit` clears one block and no other.
  pub used-unset_bit : used (unset_bit b words) c ≡ (if b == c then 0 else used words c)
  unfolding used unset_bit write_word
  used-unset_bit = elim (dec_eq (b / 32) (c / 32)) [
    | yes e ↦ ground (
      arith,
      same_word e,
      bit-bit_and (c % 32) (words (b / 32)) (2 ^ 32 - 1 - 2 ^ (b % 32)),
      bit_complement 32 (c % 32) (2 ^ (b % 32)) (omega arith) (pow-lt b),
      bit-pow (c % 32) (b % 32),
      bit-le (c % 32) (words (b / 32)),
    )
    | no d ↦ ground arith
  ]

-- Block `32 i + j` is the bit `j` of the word `i`.
pub used-bit :
    (words : Words) (i j c : ℕ) → j < 32 → c ≡ i * 32 + j → used words c ≡ bit j (words i)
unfolding used
used-bit words i j c h e =
    let m : c % 32 ≡ j = omega arith in let d : c / 32 ≡ i = omega arith in rw (m, d)
