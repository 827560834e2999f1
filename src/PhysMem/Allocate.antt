-- ===== src/PhysMem/Allocate.antt =====
-- `AllocateBlock`, `FreeBlocks(ptr, size)` and `PageRoundUp` of src/arch/x86/mem/phymem.{h,cpp}.
use another_os.Base.{
  ℕ, ◌+◌, ◌-◌, ◌*◌, ◌/◌, ◌%◌, ◌^◌, ◌≤◌, ◌<◌, ◌≡◌, ◌≢◌, ◌⊎◌, inl, inr, refl, arith, bit_and,
  if◌then◌else◌, ◌==◌, ==_false, add32,
}
use another_os.Base.Bits.{bit_and_low, bit_and_even}
use another_os.PhysMem.{
  PhysicalMem, block_size, set_bit, free_blocks, first_free, allocate_block, release_blocks,
  page_round_up,
}
use another_os.PhysMem.Bitmap.{used, used-set_bit}
use another_os.PhysMem.Ranges.{used-unset_run}
use another_os.PhysMem.FirstFree.{IsFirst, first_free-IsFirst}

-- Block `f` was the lowest clear one among the `hi` first, and is the only one whose mark changed.
pub record Taken (s : PhysicalMem) (hi f : ℕ) (r : ℕ × PhysicalMem) : Type 0 where
  pub address : r.0 ≡ f * block_size % 2 ^ 32
  pub inside : f < hi
  pub was_clear : used s.words f ≡ 0
  pub lowest : (c : ℕ) → c < f → used s.words c ≡ 1
  pub marks : (c : ℕ) → used r.1.words c ≡ (if f == c then 1 else used s.words c)
  pub count : r.1.used_blocks ≡ add32 s.used_blocks 1
  pub maximum : r.1.maximum_blocks ≡ s.maximum_blocks

taken_with :
    (s : PhysicalMem) (f : ℕ)
    → free_blocks s ≢ 0
    → first_free s ≡ f
    → f ≢ 2 ^ 32 - 1
    → allocate_block s ≡ (
      f * block_size % 2 ^ 32,
      record s { words = set_bit f s.words; used_blocks = add32 s.used_blocks 1 },
    )
unfolding allocate_block
taken_with s f some_free e d = rw (==_false _ _ some_free, e, ==_false _ _ d)

taken_none :
    (s : PhysicalMem) → free_blocks s ≢ 0 → first_free s ≡ 2 ^ 32 - 1 → allocate_block s ≡ (0, s)
unfolding allocate_block
taken_none s some_free e = rw (==_false _ _ some_free, e)

-- With `maximumBlocks` at most `2 ^ 20`, and while the counter says that blocks are free,
-- `AllocateBlock` either takes the lowest clear block of the words that it searches, or finds all
-- of them in use, returns null and changes nothing.
pub allocate_block_lem :
    (s : PhysicalMem)
    → s.maximum_blocks ≤ 2 ^ 20
    → free_blocks s ≢ 0
    → ((f : ℕ) × Taken s (s.maximum_blocks * 32) f (allocate_block s))
      ⊎ ((allocate_block s ≡ (0, s)) × ((c : ℕ) → c < s.maximum_blocks * 32 → used s.words c ≡ 1))
allocate_block_lem s h some_free = cases (first_free-IsFirst s h)
  where
    cases :
        IsFirst s.words 0 (s.maximum_blocks * 32) (first_free s)
        → ((f : ℕ) × Taken s (s.maximum_blocks * 32) f (allocate_block s))
          ⊎ ((allocate_block s ≡ (0, s))
              × ((c : ℕ) → c < s.maximum_blocks * 32 → used s.words c ≡ 1))
    cases (inl (e, all)) = inr (taken_none s some_free e, λ c l. all c (omega arith) l)
    cases (inr (a, b, z, all)) = inl (
      first_free s,
      rw (taken_with s (first_free s) some_free refl (omega arith)) (record {
        address = refl;
        inside = b;
        was_clear = z;
        lowest = λ c l. all c (omega arith) l;
        marks = λ c. used-set_bit (first_free s) c s.words;
        count = refl;
        maximum = refl;
      }),
    )

-- `AllocateBlock` returns null and changes nothing when the counter says that no block is free.
pub allocate_block-exhausted : (s : PhysicalMem) → free_blocks s ≡ 0 → allocate_block s ≡ (0, s)
unfolding allocate_block
allocate_block-exhausted s e = rw e

-- Giving back the block that `AllocateBlock` took restores every mark and the counter.
pub release-allocate :
    (s : PhysicalMem) (hi f : ℕ)
    → Taken s hi f (allocate_block s)
    → f < 2 ^ 20
    → s.used_blocks < 2 ^ 32
    → let (ptr, s') = allocate_block s in
      ((c : ℕ) → used (release_blocks ptr 1 s').words c ≡ used s.words c)
      × ((release_blocks ptr 1 s').used_blocks ≡ s.used_blocks)
unfolding release_blocks
release-allocate s hi f t small h =
    let taken = (allocate_block s).1 in
    let frame : (allocate_block s).0 / block_size ≡ f = omega (arith, t.address) in
    (
      (λ c. rw frame (ground (arith, used-unset_run 1 f c taken.words, t.marks c, t.was_clear))),
      omega (arith, t.count),
    )

-- Two allocations in a row, the second after the first, take different blocks.
pub Taken-apart :
    (s : PhysicalMem) (hi hi' f g : ℕ)
    → Taken s hi f (allocate_block s)
    → Taken (allocate_block s).1 hi' g (allocate_block (allocate_block s).1)
    → f < 2 ^ 20
    → g < 2 ^ 20
    → (allocate_block s).0 ≢ (allocate_block (allocate_block s).1).0
Taken-apart s hi hi' f g t u small small' =
    let apart : f ≢ g = λ e. ground (arith, t.marks g, u.was_clear) in
    omega (arith, t.address, u.address, apart)

-- When every block below `maximumBlocks` is in use but the counter says otherwise, a block that
-- `AllocateBlock` returns lies beyond the memory that the bitmap describes.
pub allocate_beyond :
    (s : PhysicalMem) (hi f : ℕ)
    → ((c : ℕ) → c < s.maximum_blocks → used s.words c ≡ 1)
    → Taken s hi f (allocate_block s)
    → s.maximum_blocks ≤ f
allocate_beyond s hi f all t = ground (arith, all f, t.was_clear)

page_mask : (a : ℕ) → a < 2 ^ 32 → bit_and a 0xFFFFF000 ≡ a / 4096 * 4096
page_mask a h = omega (
  arith,
  bit_and_even a 0x7FFFF800,
  bit_and_even (a / 2) 0x3FFFFC00,
  bit_and_even (a / 2 / 2) 0x1FFFFE00,
  bit_and_even (a / 2 / 2 / 2) 0xFFFFF00,
  bit_and_even (a / 2 / 2 / 2 / 2) 0x7FFFF80,
  bit_and_even (a / 2 / 2 / 2 / 2 / 2) 0x3FFFFC0,
  bit_and_even (a / 2 / 2 / 2 / 2 / 2 / 2) 0x1FFFFE0,
  bit_and_even (a / 2 / 2 / 2 / 2 / 2 / 2 / 2) 0xFFFFF0,
  bit_and_even (a / 2 / 2 / 2 / 2 / 2 / 2 / 2 / 2) 0x7FFFF8,
  bit_and_even (a / 2 / 2 / 2 / 2 / 2 / 2 / 2 / 2 / 2) 0x3FFFFC,
  bit_and_even (a / 2 / 2 / 2 / 2 / 2 / 2 / 2 / 2 / 2 / 2) 0x1FFFFE,
  bit_and_even (a / 2 / 2 / 2 / 2 / 2 / 2 / 2 / 2 / 2 / 2 / 2) 0xFFFFF,
  bit_and_low 20 (a / 2 / 2 / 2 / 2 / 2 / 2 / 2 / 2 / 2 / 2 / 2 / 2),
)

-- `PageRoundUp` of a 32-bit address is the lowest page boundary at or above it, modulo `2 ^ 32`.
pub page_round_up_lem : (a : ℕ) → a < 2 ^ 32 → page_round_up a ≡ (a + 4095) / 4096 * 4096 % 2 ^ 32
unfolding page_round_up
page_round_up_lem a h = ground (arith, page_mask a h)
