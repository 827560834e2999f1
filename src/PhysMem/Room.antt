-- ===== src/PhysMem/Room.antt =====
-- `AllocateBlock` of src/arch/x86/mem/phymem.cpp, called again and again where enough blocks are free.
use another_os.Base.{
  ℕ, suc, ◌+◌, ◌*◌, ◌^◌, ◌≤◌, ◌<◌, ◌≡◌, ◌≢◌, ◌⊎◌, inl, inr, arith, if◌then◌else◌, ◌==◌,
}
use another_os.PhysMem.{PhysicalMem, free_blocks, allocate_block}
use another_os.PhysMem.Bitmap.{used}
use another_os.PhysMem.Allocate.{Taken, allocate_block_lem}
use native.Mathlib.Decide.{ℕ_discrete as dec_eq}

-- The `n` blocks from `lo` on are free, the counter allows for as many, and block 0 is in use.
pub record Room (s : PhysicalMem) (lo n : ℕ) : Type 0 where
  pub small : s.maximum_blocks ≤ 2 ^ 20
  pub counted : s.used_blocks + n ≤ s.maximum_blocks
  pub inside : lo + n ≤ s.maximum_blocks
  pub first_used : used s.words 0 ≡ 1
  pub free : (c : ℕ) → lo ≤ c → c < lo + n → used s.words c ≡ 0

counter_open : (s : PhysicalMem) (lo n : ℕ) → Room s lo (suc n) → free_blocks s ≢ 0
unfolding free_blocks
counter_open s lo n r = λ e. omega (arith, r.small, r.counted, e)

-- What a call leaves: block `f` is taken, with `n` still to be had from `lo` on.
pub record Given (s : PhysicalMem) (f lo n : ℕ) : Type 0 where
  pub address : (allocate_block s).0 ≡ f * 4096
  pub block : f < 2 ^ 20
  pub not_null : f ≢ 0
  pub inside : f < s.maximum_blocks
  pub maximum : (allocate_block s).1.maximum_blocks ≡ s.maximum_blocks
  pub was_free : used s.words f ≡ 0
  pub marks : (c : ℕ) → used (allocate_block s).1.words c ≡ (if f == c then 1 else used s.words c)
  pub room : Room (allocate_block s).1 lo n

module _ (s : PhysicalMem) (lo n f : ℕ) (r : Room s lo (suc n))
    (t : Taken s (s.maximum_blocks * 32) f (allocate_block s)) where
  below : f ≤ lo
  below = let bound = r.free lo (omega arith) (omega arith) in grind (arith, t.lowest lo, bound)

  Given-from : (lo' : ℕ) → lo ≤ lo' → lo' ≤ lo + 1 → f < lo' → Given s f lo' n
  Given-from lo' a b c = record {
    address = omega (arith, t.address, r.small, r.inside, below);
    block = omega (arith, r.small, r.inside, below);
    not_null = λ e. ground (arith, r.first_used, t.was_clear, e);
    inside = omega (arith, r.inside, below);
    maximum = t.maximum;
    was_free = t.was_clear;
    marks = t.marks;
    room = record {
      small = omega (arith, r.small, t.maximum);
      counted = omega (arith, r.small, r.counted, t.maximum, t.count);
      inside = omega (arith, r.inside, t.maximum);
      first_used = ground (arith, t.marks 0, r.first_used);
      free = λ d p q. ground (arith, t.marks d, r.free d (omega arith) (omega arith));
    };
  }

-- While there is room for another block, `AllocateBlock` gives one that was free and is not block 0.
pub Room-Given :
    (s : PhysicalMem) (lo n : ℕ) → Room s lo (suc n) → (f : ℕ) × (lo' : ℕ) × Given s f lo' n
Room-Given s lo n r = cases (allocate_block_lem s r.small (counter_open s lo n r))
  where
    cases :
        ((f : ℕ) × Taken s (s.maximum_blocks * 32) f (allocate_block s))
          ⊎ ((allocate_block s ≡ (0, s))
              × ((c : ℕ) → c < s.maximum_blocks * 32 → used s.words c ≡ 1))
        → (f : ℕ) × (lo' : ℕ) × Given s f lo' n
    cases (inr (e, all)) =
        absurd
          (ground (arith, all lo (omega (arith, r.inside)), r.free lo (omega arith) (omega arith)))
    cases (inl (f, t)) = elim (dec_eq f lo) [
      | yes same ↦
          (f, lo + 1, Given-from s lo n f r t (lo + 1) (omega arith) (omega arith) (omega arith))
      | no lower ↦ (
        f,
        lo,
        Given-from s lo n f r t lo (omega arith) (omega arith) (omega (arith, below s lo n f r t)),
      )
    ]
