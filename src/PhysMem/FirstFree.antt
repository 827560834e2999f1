-- ===== src/PhysMem/FirstFree.antt =====
-- `FirstFree` of src/arch/x86/mem/phymem.cpp finds the lowest clear bit.
use another_os.Base.{
  ℕ, zero, suc, ◌+◌, ◌-◌, ◌*◌, ◌%◌, ◌^◌, ◌≤◌, ◌<◌, ◌≡◌, ◌⊎◌, inl, inr, refl, arith, Option, none,
  some, bit_and, ◌==◌, ==_iff, Bool-cases, add32,
}
use another_os.Base.Bits.{bit, bit-le}
use another_os.Base.Masks.{bit-zero, bit_and-pow, bit_complement}
use another_os.PhysMem.{PhysicalMem, clear_bit, first_free_from, first_free}
use another_os.PhysMem.Bitmap.{Words, used, used-bit}
use native.Mathlib.Decide.{ℕ_discrete as dec_eq, dec_lt}
use native.Mathlib.Nat.{one-le-pow}

test_bit : (j w : ℕ) → (bit_and w (2 ^ j) == 0) ≡ (bit j w == 0)
test_bit j w = elim (dec_eq (bit j w) 0) [
  | yes e ↦ rw (bit_and-pow, e) (ground arith)
  | no d ↦
      let one : bit j w ≡ 1 = omega (arith, bit-le j w) in
      rw (bit_and-pow, one) (ground (arith, one-le-pow j 2))
]

-- What the inner loop finds from bit `j` on.
abbrev Clear : ℕ → ℕ → ℕ → Option ℕ → Type 0
Clear j n w none = (k : ℕ) → j ≤ k → k < j + n → bit k w ≡ 1
Clear j n w (some k) =
    (j ≤ k) × (k < j + n) × (bit k w ≡ 0) × ((i : ℕ) → j ≤ i → i < k → bit i w ≡ 1)

clear_bit-Clear : (n j w : ℕ) → Clear j n w (clear_bit n j w)
unfolding clear_bit
clear_bit-Clear zero j w = λ k a b. absurd (omega arith)
clear_bit-Clear (suc n) j w = elim (Bool-cases (bit j w == 0)) [
  | inl zero_bit ↦
      rw (test_bit, zero_bit)
        (omega arith, omega arith, ground arith, λ i a b. absurd (omega arith))
  | inr one_bit ↦
      rw (test_bit, one_bit)
        (later (clear_bit n (j + 1) w) (clear_bit-Clear n (j + 1) w) (ground (arith, bit-le j w)))
]
  where
    later : (r : Option ℕ) → Clear (j + 1) n w r → bit j w ≡ 1 → Clear j (suc n) w r
    later none c e =
        λ k a b. elim (dec_eq k j) [ yes q ↦ rw q e | no d ↦ c k (omega arith) (omega arith) ]
    later (some k) c e = (
      omega arith,
      omega arith,
      c.2,
      λ i a b. elim (dec_eq i j) [ yes q ↦ rw q e | no d ↦ c.3 i (omega arith) b ],
    )

-- `f` is the lowest clear block from `lo` on, or all below `hi` are in use and `f` is -1.
abbrev pub IsFirst : Words → ℕ → ℕ → ℕ → Type 0
IsFirst words lo hi f =
    ((f ≡ 2 ^ 32 - 1) × ((c : ℕ) → lo ≤ c → c < hi → used words c ≡ 1))
    ⊎ ((lo ≤ f) × (f < hi) × (used words f ≡ 0) × ((c : ℕ) → lo ≤ c → c < f → used words c ≡ 1))

-- The words before the one at `i` hold no clear bit.
IsFirst-later :
    (words : Words) (lo mid hi f : ℕ)
    → ((c : ℕ) → lo ≤ c → c < mid → used words c ≡ 1)
    → lo ≤ mid
    → IsFirst words mid hi f
    → IsFirst words lo hi f
IsFirst-later words lo mid hi f low le (inl (e, all)) =
    inl (e, λ c a b. elim (dec_lt c mid) [ yes l ↦ low c a l | no l ↦ all c (omega arith) b ])
IsFirst-later words lo mid hi f low le (inr (a, b, z, all)) = inr (
  omega arith,
  b,
  z,
  λ c d e. elim (dec_lt c mid) [ yes l ↦ low c d l | no l ↦ all c (omega arith) e ],
)

-- The bits of one word, as blocks.
word_ones :
    (words : Words) (i : ℕ)
    → ((k : ℕ) → k < 32 → bit k (words i) ≡ 1)
    → (c : ℕ) → i * 32 ≤ c
    → c < (i + 1) * 32
    → used words c ≡ 1
word_ones words i ones c a b =
    rw (used-bit words i (c - i * 32) c (omega arith) (omega arith))
      (ones (c - i * 32) (omega arith))

full_word : (k w : ℕ) → w ≡ 0xffffffff → k < 32 → bit k w ≡ 1
full_word k w e l = rw e (omega (arith, bit_complement 32 k 0 l (omega arith), bit-zero k))

module _ (n i rest : ℕ) (words : Words) (h : i + suc n ≤ 2 ^ 20)
    (ih : IsFirst words ((i + 1) * 32) ((i + suc n) * 32) rest) where
  skip : ((k : ℕ) → k < 32 → bit k (words i) ≡ 1) → IsFirst words (i * 32) ((i + suc n) * 32) rest
  skip ones =
      IsFirst-later words (i * 32) ((i + 1) * 32) ((i + suc n) * 32) rest (word_ones words i ones)
        (omega arith) ih

  stop :
      (r : Option ℕ)
      → Clear 0 32 (words i) r
      → IsFirst words
          (i * 32)
          ((i + suc n) * 32)
          (elim r [ some j ↦ add32 (i * 4 * 8 % 2 ^ 32) j | none ↦ rest ])
  stop none c = skip (λ k l. c k (omega arith) (omega arith))
  stop (some j) c =
      let e : add32 (i * 4 * 8 % 2 ^ 32) j ≡ i * 32 + j = omega (arith, c.1) in
      rw e (
        inr (
          omega arith,
          omega (arith, c.1),
          (rw (used-bit words i j (i * 32 + j) (omega (arith, c.1)) refl) c.2),
          λ d a b.
              rw (used-bit words i (d - i * 32) d (omega (arith, c.1)) (omega arith))
                (c.3 (d - i * 32) (omega arith) (omega arith)),
        ))

first_free_from-IsFirst :
    (n i : ℕ) (words : Words)
    → i + n ≤ 2 ^ 20
    → IsFirst words (i * 32) ((i + n) * 32) (first_free_from n i words)
unfolding first_free_from
first_free_from-IsFirst zero i words h = inl (refl, λ c a b. absurd (omega arith))
first_free_from-IsFirst (suc n) i words h =
    let rest = first_free_from n (add32 i 1) words in
    let next : add32 i 1 ≡ i + 1 = omega arith in
    let end : i + 1 + n ≡ i + suc n = omega arith in
    let ih : IsFirst words ((i + 1) * 32) ((i + suc n) * 32) rest =
      rw (next, ← end) (first_free_from-IsFirst n (i + 1) words (omega arith)) in
    elim (Bool-cases (words i == 0xffffffff)) [
      | inl full ↦
          rw full (skip n i rest words h ih (λ k l. full_word k (words i) ((==_iff _ _).0 full) l))
      | inr some_clear ↦ rw some_clear (stop n i rest words h ih _ (clear_bit-Clear 32 0 (words i)))
    ]

-- With `maximumBlocks` at most `2 ^ 20`, `FirstFree` looks through that many words from the first one
-- on: its result is the lowest clear bit there, or -1 if there is none.
pub first_free-IsFirst :
    (s : PhysicalMem)
    → s.maximum_blocks ≤ 2 ^ 20
    → IsFirst s.words 0 (s.maximum_blocks * 32) (first_free s)
unfolding first_free
first_free-IsFirst s h =
    let e : 0 + s.maximum_blocks ≡ s.maximum_blocks = omega arith in
    rw e at (first_free_from-IsFirst s.maximum_blocks 0 s.words (omega arith))
