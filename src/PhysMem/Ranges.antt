-- ===== src/PhysMem/Ranges.antt =====
-- `MarkUsed` and `MarkFree` of src/arch/x86/mem/phymem.cpp, and the range of `FreeBlocks(ptr, size)`.
use another_os.Base.{
  ℕ, zero, suc, ◌+◌, ◌/◌, ◌^◌, ◌≤◌, ◌<◌, ◌≡◌, arith, Bool, ◌&&◌, ◌||◌, if◌then◌else◌, ltb, leb,
  ◌==◌, add32, sub32,
}
use another_os.PhysMem.{
  PhysicalMem, block_size, set_bit, unset_bit, used_run, free_run, unset_run, mark_used, mark_free,
}
use another_os.PhysMem.Bitmap.{Words, used, used-set_bit, used-unset_bit}

-- Block `c` is one of the `n` from `a` on.
abbrev pub within : ℕ → ℕ → ℕ → Bool
within a n c = leb a c && ltb c (a + n)

used-used_run :
    (n a c : ℕ) (s : PhysicalMem)
    → a + n ≤ 2 ^ 32
    → used (used_run n a s).words c ≡ (if within a n c then 1 else used s.words c)
unfolding used_run
used-used_run zero a c s h = ground arith
used-used_run (suc n) a c s h = ground (
  arith,
  used-used_run n (add32 a 1) c
      (record s { words = set_bit a s.words; used_blocks = add32 s.used_blocks 1 }),
  used-set_bit a c s.words,
)

used-free_run :
    (n a c : ℕ) (s : PhysicalMem)
    → a + n ≤ 2 ^ 32
    → used (free_run n a s).words c ≡ (if within a n c then 0 else used s.words c)
unfolding free_run
used-free_run zero a c s h = ground arith
used-free_run (suc n) a c s h = ground (
  arith,
  used-free_run n (add32 a 1) c
      (record s { words = unset_bit a s.words; used_blocks = sub32 s.used_blocks 1 }),
  used-unset_bit a c s.words,
)

pub used-unset_run :
    (n a c : ℕ) (words : Words)
    → a + n ≤ 2 ^ 32
    → used (unset_run n a words) c ≡ (if within a n c then 0 else used words c)
unfolding unset_run
used-unset_run zero a c words h = ground arith
used-unset_run (suc n) a c words h =
    ground (arith, used-unset_run n (add32 a 1) c (unset_bit a words), used-unset_bit a c words)

-- The counters of the two loops.
used_blocks-used_run :
    (n a : ℕ) (s : PhysicalMem)
    → s.used_blocks < 2 ^ 32
    → ((used_run n a s).used_blocks ≡ add32 s.used_blocks n)
      × ((used_run n a s).maximum_blocks ≡ s.maximum_blocks)
unfolding used_run
used_blocks-used_run zero a s h = ground arith
used_blocks-used_run (suc n) a s h = ground (
  arith,
  used_blocks-used_run n (add32 a 1)
      (record s { words = set_bit a s.words; used_blocks = add32 s.used_blocks 1 }),
)

used_blocks-free_run :
    (n a : ℕ) (s : PhysicalMem)
    → s.used_blocks < 2 ^ 32
    → n < 2 ^ 32
    → ((free_run n a s).used_blocks ≡ sub32 s.used_blocks n)
      × ((free_run n a s).maximum_blocks ≡ s.maximum_blocks)
unfolding free_run
used_blocks-free_run zero a s h k = ground arith
used_blocks-free_run (suc n) a s h k = ground (
  arith,
  used_blocks-free_run n (add32 a 1)
      (record s { words = unset_bit a s.words; used_blocks = sub32 s.used_blocks 1 }),
)

module _ (base size : ℕ) (s : PhysicalMem) (hb : base < 2 ^ 32) (hs : size < 2 ^ 32)
    (hu : s.used_blocks < 2 ^ 32) where
  -- `MarkUsed(base, size)` of 32-bit arguments, on a 32-bit counter, marks block 0 and the `size /
  -- 4096` blocks from `base / 4096` on, and no other, and adds `size / 4096` to the count of used
  -- blocks (modulo `2 ^ 32`), however many of the blocks were marked before.
  pub mark_used_lem :
      ((c : ℕ)
        → used (mark_used base size s).words c ≡ (
            if (0 == c) || within (base / block_size) (size / block_size) c
            then 1
            else used s.words c))
      × ((mark_used base size s).used_blocks ≡ add32 s.used_blocks (size / block_size))
      × ((mark_used base size s).maximum_blocks ≡ s.maximum_blocks)
  unfolding mark_used
  mark_used_lem =
      let run = used_run (size / block_size) (base / block_size) s in
      let (count, max) = used_blocks-used_run (size / block_size) (base / block_size) s hu in
      (
        (λ c. ground (
          arith,
          used-set_bit 0 c run.words,
          used-used_run (size / block_size) (base / block_size) c s (omega arith),
        )),
        count,
        max,
      )

  -- `MarkFree(base, size)`, under the same conditions, clears those blocks and then marks block 0
  -- again, and takes `size / 4096` off the count.
  pub mark_free_lem :
      ((c : ℕ)
        → used (mark_free base size s).words c ≡ (
            if 0 == c
            then 1
            else if within (base / block_size) (size / block_size) c
            then 0
            else used s.words c))
      × ((mark_free base size s).used_blocks ≡ sub32 s.used_blocks (size / block_size))
      × ((mark_free base size s).maximum_blocks ≡ s.maximum_blocks)
  unfolding mark_free
  mark_free_lem =
      let run = free_run (size / block_size) (base / block_size) s in
      let (count, max) =
        used_blocks-free_run (size / block_size) (base / block_size) s hu (omega arith) in
      (
        (λ c. ground (
          arith,
          used-set_bit 0 c run.words,
          used-free_run (size / block_size) (base / block_size) c s (omega arith),
        )),
        count,
        max,
      )
