-- ===== src/Paging/HeapRound.antt =====
-- A round of the loop of `Init` of src/arch/x86/mem/virtmem.cpp over the pages of the heap.
use mathlib.Core.Path.{subst}
use another_os.Base.{
  if◌then◌else◌, ◌==◌, ℕ, suc, ◌+◌, ◌*◌, ◌/◌, ◌%◌, ◌^◌, ◌≡◌, ◌≢◌, refl, sym, ap, ◌∙◌, arith, true,
  false, ==_false, some,
}
use another_os.PhysMem.{PhysicalMem, allocate_block}
use another_os.PhysMem.Bitmap.{used, used-le}
use another_os.PhysMem.Room.{Room, Given, Room-Given}
use another_os.Paging.{
  page_size, VirtualMem, PageTableEntry, pagedir_index, set_page, get_page_for_address, entry_at,
  allocate_page,
}
use another_os.Paging.Mapping.{walk, translate, IsTable, set_page-store, translate-set_page}
use another_os.Paging.Others.{Apart-page, translate-set_page-other}
use another_os.Paging.Frames.{Owned, same_page, Kept, get_page-Fetched}

-- The page of `addr` stands for the frame `f`, which was free, and nothing else has changed.
pub record Placed (addr f : ℕ) (m m' : VirtualMem) (lo n : ℕ) : Type 0 where
  pub kept : Kept m m' lo n
  pub stands :
      (a : ℕ)
      → a / page_size ≡ addr / page_size
      → translate m' a ≡ some (f * page_size + a % page_size)
  pub others :
      (a : ℕ)
      → a / page_size ≢ addr / page_size
      → pagedir_index a ≢ 1023
      → translate m' a ≡ translate m a
  pub was_free : used m.phy_mem.words f ≡ 0
  pub in_use : used m'.phy_mem.words f ≡ 1

set_page-same :
    (a b : ℕ) (e : PageTableEntry) (m : VirtualMem)
    → a / page_size ≡ b / page_size
    → set_page a e m ≡ set_page b e m
unfolding set_page
set_page-same a b e m h = rw ((same_page a b h).0, (same_page a b h).1) refl

-- The entry that `AllocatePage` writes for a writable page of the kernel.
abbrev kernel_page : ℕ → PageTableEntry
kernel_page f = record { present = 1; read_write = 1; is_user = 0; frame = f }

allocate_page-Given :
    (addr f lo n : ℕ) (m : VirtualMem)
    → Given m.phy_mem f lo n
    → allocate_page addr true true m
      ≡ set_page addr (kernel_page f) (record m { phy_mem = (allocate_block m.phy_mem).1 })
unfolding allocate_page
allocate_page-Given addr f lo n m g =
    let e : (allocate_block m.phy_mem).0 / page_size % 2 ^ 20 ≡ f =
      omega (arith, g.address, g.block) in
    let d : (allocate_block m.phy_mem).0 ≢ 0 = λ z. omega (arith, z, g.address, g.not_null) in
    rw (==_false _ _ d, e) refl

-- The entry of the directory for the address is not one of 4 MB, and not that of the window.
abbrev pub IsOrdinary : VirtualMem → ℕ → Type 0
IsOrdinary m addr = ((m.directory (addr / 2 ^ 22)).page_size_bit ≡ 0) × (addr / 2 ^ 22 ≢ 1023)

module _ (addr f lo n : ℕ) (m : VirtualMem) (o : Owned m)
    (there : IsTable (m.directory (pagedir_index addr))) (outside : pagedir_index addr ≢ 1023)
    (g : Given m.phy_mem f lo n) where
  abbrev given : VirtualMem
  given = record m { phy_mem = (allocate_block m.phy_mem).1 }

  given_stands :
      (a : ℕ)
      → a / page_size ≡ addr / page_size
      → translate (set_page addr (kernel_page f) given) a ≡ some (f * page_size + a % page_size)
  given_stands a h =
      let index = (same_page a addr h).0 in
      rw (set_page-same addr a (kernel_page f) given (sym h)) (
        translate-set_page a 1 0 f given (rw index there)
          (rw index (o.tables (pagedir_index addr) there).1) (λ e. outside (sym index ∙ e)))

  given_others :
      (a : ℕ)
      → a / page_size ≢ addr / page_size
      → translate (set_page addr (kernel_page f) given) a ≡ translate m a
  unfolding translate walk entry_at
  given_others a h =
      translate-set_page-other addr a (kernel_page f) given there outside o.separate
        (Apart-page a addr h)

  given-Owned : Owned (set_page addr (kernel_page f) given)
  given-Owned = rw (set_page-store addr (kernel_page f) given outside) (record {
    tables = λ i p.
        let old = o.tables i p in (ground (arith, g.marks (m.directory i).frame, old.0), old.1);
    separate = o.separate;
    installed = omega (arith, g.maximum, o.installed);
  })

  given_sizes :
      (i : ℕ)
      → (m.directory i).page_size_bit ≡ 0
      → ((set_page addr (kernel_page f) given).directory i).page_size_bit ≡ 0
  given_sizes i h = rw (set_page-store addr (kernel_page f) given outside) h

  given_phy_mem : (set_page addr (kernel_page f) given).phy_mem ≡ (allocate_block m.phy_mem).1
  given_phy_mem = rw (set_page-store addr (kernel_page f) given outside) refl

  given_marks :
      (c : ℕ)
      → used (set_page addr (kernel_page f) given).phy_mem.words c
        ≡ (if f == c then 1 else used m.phy_mem.words c)
  given_marks c = ap (λ (p : PhysicalMem). used p.words c) given_phy_mem ∙ g.marks c

  given-Placed : Placed addr f m (set_page addr (kernel_page f) given) lo n
  given-Placed = record {
    kept = record {
      owned = given-Owned;
      room = subst (λ p. Room p lo n) (sym given_phy_mem) g.room;
      marks = λ c h. ground (arith, given_marks c, h);
      sizes = given_sizes;
    };
    stands = given_stands;
    others = λ a h w. given_others a h;
    was_free = g.was_free;
    in_use = ground (arith, given_marks f);
  }

allocate_page-Placed :
    (addr lo n : ℕ) (m : VirtualMem)
    → Owned m
    → IsTable (m.directory (pagedir_index addr))
    → pagedir_index addr ≢ 1023
    → Room m.phy_mem lo (suc n)
    → (f : ℕ) × (lo' : ℕ) × Placed addr f m (allocate_page addr true true m) lo' n
allocate_page-Placed addr lo n m o there outside r =
    let (f, lo', g) = Room-Given m.phy_mem lo n r in
    (
      f,
      lo',
      rw (allocate_page-Given addr f lo' n m g) (given-Placed addr f lo' n m o there outside g),
    )

-- A round of the loop.
abbrev pub heap_page : ℕ → VirtualMem → VirtualMem
heap_page addr m = allocate_page addr true true (get_page_for_address addr true true false m)

pub heap_page-Placed :
    (addr lo n : ℕ) (m : VirtualMem)
    → Owned m
    → IsOrdinary m addr
    → Room m.phy_mem lo (suc (suc n))
    → (f : ℕ) × (lo' : ℕ) × Placed addr f m (heap_page addr m) lo' n
unfolding pagedir_index
heap_page-Placed addr lo n m o ordinary r =
    let (mid, t) = get_page-Fetched addr lo (suc n) m o r in
    let fetched = get_page_for_address addr true true false m in
    let table : IsTable (fetched.directory (addr / 2 ^ 22)) =
      (t.there, t.kept.sizes (addr / 2 ^ 22) ordinary.0) in
    let (f, lo', p) =
      allocate_page-Placed addr mid n fetched t.kept.owned table ordinary.1 t.kept.room in
    (
      f,
      lo',
      record {
        kept = record {
          owned = p.kept.owned;
          room = p.kept.room;
          marks = λ c h. p.kept.marks c (t.kept.marks c h);
          sizes = λ i h. p.kept.sizes i (t.kept.sizes i h);
        };
        stands = p.stands;
        others = λ a h w. p.others a h w ∙ t.same a w;
        was_free = ground (arith, used-le m.phy_mem.words f, t.kept.marks f, p.was_free);
        in_use = p.in_use;
      },
    )
