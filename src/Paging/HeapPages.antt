-- ===== src/Paging/HeapPages.antt =====
-- The loop of `Init` of src/arch/x86/mem/virtmem.cpp that gives the kernel's heap its memory.
use mathlib.Core.Path.{subst}
use another_os.Base.{
  ℕ, zero, suc, ◌+◌, ◌*◌, ◌/◌, ◌%◌, ◌^◌, ◌≤◌, ◌<◌, ◌≡◌, ◌≢◌, ◌⊎◌, inl, inr, refl, ap, ◌∙◌, arith,
  some,
}
use another_os.PhysMem.Bitmap.{used, used-le}
use another_os.PhysMem.Room.{Room}
use another_os.Paging.{page_size, VirtualMem, pagedir_index, map_heap}
use another_os.Paging.Mapping.{translate}
use another_os.Paging.Frames.{Owned}
use another_os.Paging.HeapRound.{Placed, IsOrdinary, heap_page, heap_page-Placed}

-- The `n` pages from `addr` on stand for frames of their own, which `m'` has taken since `m`; what
-- other addresses stand for is as in `m`.
pub record Backed (n addr : ℕ) (m m' : VirtualMem) : Type 0 where
  pub frame : ℕ → ℕ
  pub stands :
      (k a : ℕ)
      → k < n
      → a / page_size ≡ addr / page_size + k
      → translate m' a ≡ some (frame k * page_size + a % page_size)
  pub apart : (j k : ℕ) → j < k → k < n → frame j ≢ frame k
  pub were_free : (k : ℕ) → k < n → used m.phy_mem.words (frame k) ≡ 0
  pub in_use : (k : ℕ) → k < n → used m'.phy_mem.words (frame k) ≡ 1
  pub marks : (c : ℕ) → used m.phy_mem.words c ≡ 1 → used m'.phy_mem.words c ≡ 1
  pub others :
      (a : ℕ)
      → (a / page_size < addr / page_size) ⊎ (addr / page_size + n ≤ a / page_size)
      → a / 2 ^ 22 ≢ 1023
      → translate m' a ≡ translate m a

abbrev frames : ℕ → (ℕ → ℕ) → ℕ → ℕ
frames f rest zero = f
frames f rest (suc k) = rest k

module _ (n addr f lo r : ℕ) (m mid m' : VirtualMem) (outside : addr / 2 ^ 22 ≢ 1023)
    (p : Placed addr f m mid lo r) (b : Backed n (addr + page_size) mid m') where
  all_stand :
      (k a : ℕ)
      → k < suc n
      → a / page_size ≡ addr / page_size + k
      → translate m' a ≡ some (frames f b.frame k * page_size + a % page_size)
  all_stand zero a l e =
      b.others a (inl (omega (arith, e))) (λ w. outside (omega (arith, e, w)))
      ∙ p.stands a (omega (arith, e))
  all_stand (suc k) a l e = b.stands k a (omega arith) (omega (arith, e))

  all_apart : (j k : ℕ) → j < k → k < suc n → frames f b.frame j ≢ frames f b.frame k
  all_apart zero zero l h = absurd (omega arith)
  all_apart (suc j) zero l h = absurd (omega arith)
  all_apart zero (suc k) l h =
      λ e. ground (arith, p.in_use, b.were_free k (omega arith), ap (used mid.phy_mem.words) e)
  all_apart (suc j) (suc k) l h = b.apart j k (omega arith) (omega arith)

  all_were_free : (k : ℕ) → k < suc n → used m.phy_mem.words (frames f b.frame k) ≡ 0
  all_were_free zero l = p.was_free
  all_were_free (suc k) l = ground (
    arith,
    used-le m.phy_mem.words (b.frame k),
    p.kept.marks (b.frame k),
    b.were_free k (omega arith),
  )

  all_in_use : (k : ℕ) → k < suc n → used m'.phy_mem.words (frames f b.frame k) ≡ 1
  all_in_use zero l = b.marks f p.in_use
  all_in_use (suc k) l = b.in_use k (omega arith)

  elsewhere :
      (a : ℕ)
      → (a / page_size < addr / page_size) ⊎ (addr / page_size + suc n ≤ a / page_size)
      → a / 2 ^ 22 ≢ 1023
      → translate m' a ≡ translate m a
  unfolding pagedir_index
  elsewhere a (inl l) w = b.others a (inl (omega arith)) w ∙ p.others a (omega arith) w
  elsewhere a (inr l) w = b.others a (inr (omega arith)) w ∙ p.others a (omega arith) w

  Backed-suc : Backed (suc n) addr m m'
  Backed-suc = record {
    frame = frames f b.frame;
    stands = all_stand;
    apart = all_apart;
    were_free = all_were_free;
    in_use = all_in_use;
    marks = λ c h. b.marks c (p.kept.marks c h);
    others = elsewhere;
  }

-- All pages of the loop are ordinary.
abbrev pub Ordinary : VirtualMem → ℕ → ℕ → Type 0
Ordinary m n addr = (k : ℕ) → k < n → IsOrdinary m (addr + k * page_size)

Ordinary-first : (n addr : ℕ) (m : VirtualMem) → Ordinary m (suc n) addr → IsOrdinary m addr
Ordinary-first n addr m h =
    let e : addr + 0 * page_size ≡ addr = omega arith in subst (IsOrdinary m) e (h 0 (omega arith))

Ordinary-rest :
    (n addr f lo r : ℕ) (m mid : VirtualMem)
    → Placed addr f m mid lo r
    → Ordinary m (suc n) addr
    → Ordinary mid n (addr + page_size)
Ordinary-rest n addr f lo r m mid p h k l =
    let e : addr + suc k * page_size ≡ addr + page_size + k * page_size = omega arith in
    let (small, outside) = subst (IsOrdinary m) e (h (suc k) (omega arith)) in
    (p.kept.sizes _ small, outside)

-- Where the tables lie in frames of their own that are in use and in memory, no 4 MB page and no
-- part of the window through which the tables are reached is among the `n` pages from `addr` on, and
-- `2 n` blocks in a row are free, which the allocator's counter allows for: the loop of `Init` over
-- these pages gives each of them a frame of its own, which was free and is in use afterwards. What
-- the processor translates an address outside these pages and the window to does not change,
-- although page tables that were missing have been made.
pub map_heap-Backed :
    (n addr lo : ℕ) (m : VirtualMem)
    → Owned m
    → Ordinary m n addr
    → Room m.phy_mem lo (n * 2)
    → Backed n addr m (map_heap n addr m)
unfolding map_heap
map_heap-Backed zero addr lo m o h r = record {
  frame = λ k. 0;
  stands = λ k a l e. absurd (omega arith);
  apart = λ j k l h. absurd (omega arith);
  were_free = λ k l. absurd (omega arith);
  in_use = λ k l. absurd (omega arith);
  marks = λ c h. h;
  others = λ a h w. refl;
}
map_heap-Backed (suc n) addr lo m o h r =
    let more : suc n * 2 ≡ suc (suc (n * 2)) = omega arith in
    let first = Ordinary-first n addr m h in
    let (f, lo', p) = heap_page-Placed addr lo (n * 2) m o first (rw more at r) in
    let mid = heap_page addr m in
    Backed-suc n addr f lo' (n * 2) m mid _ first.1 p (
      map_heap-Backed n (addr + page_size) lo' mid p.kept.owned
        (Ordinary-rest n addr f lo' (n * 2) m mid p h) p.kept.room)

-- The loop takes no more than two blocks for each page.
pub map_heap-Room :
    (n addr lo k : ℕ) (m : VirtualMem)
    → Owned m
    → Ordinary m n addr
    → Room m.phy_mem lo (n * 2 + k)
    → (lo' : ℕ) × Room (map_heap n addr m).phy_mem lo' k
unfolding map_heap
map_heap-Room zero addr lo k m o h r = let none : 0 * 2 + k ≡ k = omega arith in (lo, rw none at r)
map_heap-Room (suc n) addr lo k m o h r =
    let more : suc n * 2 + k ≡ suc (suc (n * 2 + k)) = omega arith in
    let (f, lo', p) =
      heap_page-Placed addr lo (n * 2 + k) m o (Ordinary-first n addr m h) (rw more at r) in
    map_heap-Room n (addr + page_size) lo' k (heap_page addr m) p.kept.owned
      (Ordinary-rest n addr f lo' (n * 2 + k) m (heap_page addr m) p h) p.kept.room
