-- ===== src/Paging/Misplaced.antt =====
-- Where `Init` of src/arch/x86/mem/virtmem.cpp puts the table of the first 4 MB.
use another_os.Base.{ℕ, suc, ◌+◌, ◌*◌, ◌%◌, ◌^◌, ◌≡◌, ◌≢◌, ◌∙◌, refl, ap, arith}
use another_os.PhysMem.{PhysicalMem, allocate_block}
use another_os.PhysMem.Bitmap.{used, used-le}
use another_os.PhysMem.Room.{Room, Room-Given}
use another_os.Paging.{VirtualMem, PageDirectoryEntry, set_directory, clear_table, map_heap, init}
use another_os.Paging.Frames.{Owned, Room-fewer}
use another_os.Paging.HeapPages.{Ordinary, map_heap-Backed, map_heap-Room}
use another_os.Paging.Low.{low_pages, low_directory, low-phy_mem, open_count, table_zero}

-- The entry of the directory for itself.
abbrev pub own_entry : ℕ → PageDirectoryEntry
own_entry boot_frame = record {
  present = 1;
  read_write = 1;
  is_user = 0;
  page_size_bit = 0;
  frame = boot_frame % 2 ^ 20;
}

-- The state in which `Init` maps the first 4 MB, after the heap's pages.
abbrev with_table : VirtualMem → VirtualMem
with_table m = clear_table 0 (
    set_directory 0
      (record {
        present = 1;
        read_write = 1;
        is_user = 1;
        page_size_bit = 0;
        frame = (allocate_block m.phy_mem).0 % 2 ^ 20;
      })
      (record m { phy_mem = (allocate_block m.phy_mem).1 }))

with_table-phy_mem : (m : VirtualMem) → (with_table m).phy_mem ≡ (allocate_block m.phy_mem).1
unfolding clear_table set_directory
with_table-phy_mem m = refl

init-low_pages :
    (boot_frame heap_start n : ℕ) (m : VirtualMem)
    → init boot_frame heap_start n m
      ≡ low_pages (with_table (map_heap n heap_start (set_directory 1023 (own_entry boot_frame) m)))
unfolding init
init-low_pages boot_frame heap_start n m = rw open_count refl

-- Where the directory, which names itself, and its tables lie in frames of their own that are in use
-- and in memory, no page of the heap is a 4 MB page or in the window, and one block more than two for
-- each of the heap's `n` pages are free in a row, which the counter allows for, `Init` takes a free
-- block other than 0 for the table of the first 4 MB. It puts the table in another frame, the one
-- whose number is the address of the block, in 20 bits.
pub init-misplaced :
    (boot_frame heap_start n lo : ℕ) (m : VirtualMem)
    → Owned (set_directory 1023 (own_entry boot_frame) m)
    → Ordinary (set_directory 1023 (own_entry boot_frame) m) n heap_start
    → Room m.phy_mem lo (n * 2 + 1)
    → let m' = init boot_frame heap_start n m in
      (f : ℕ) × (used m.phy_mem.words f ≡ 0)
      × (used m'.phy_mem.words f ≡ 1)
      × (f ≢ 0)
      × ((m'.directory 0).frame ≡ f * 4096 % 2 ^ 20)
      × ((m'.directory 0).frame ≢ f)
unfolding set_directory
init-misplaced boot_frame heap_start n lo m o h r =
    let add_one : n * 2 + 1 ≡ suc (n * 2) = omega arith in
    let m1 = set_directory 1023 (own_entry boot_frame) m in
    let m2 = map_heap n heap_start m1 in
    let (lo', room) = map_heap-Room n heap_start lo 1 m1 o h r in
    let (f, _, g) = Room-Given m2.phy_mem lo' 0 room in
    let kept =
      (map_heap-Backed n heap_start lo m1 o h
        (Room-fewer m.phy_mem lo (n * 2) (rw add_one at r))).marks in
    let table : ((init boot_frame heap_start n m).directory 0).frame ≡ f * 4096 % 2 ^ 20 =
      ap (λ (m : VirtualMem). (m.directory 0).frame) (init-low_pages boot_frame heap_start n m)
      ∙ ap (λ (d : ℕ → PageDirectoryEntry). (d 0).frame) (low_directory (with_table m2))
      ∙ ap (λ (e : PageDirectoryEntry). e.frame) (table_zero _ _)
      ∙ ap (λ k. k % 2 ^ 20) g.address in
    let now : used (init boot_frame heap_start n m).phy_mem.words f ≡ 1 =
      ap (λ (m : VirtualMem). used m.phy_mem.words f) (init-low_pages boot_frame heap_start n m)
      ∙ ap (λ (p : PhysicalMem). used p.words f)
          (low-phy_mem (with_table m2) ∙ with_table-phy_mem m2)
      ∙ ground (arith, g.marks f) in
    (
      f,
      ground (arith, used-le m.phy_mem.words f, kept f, g.was_free),
      now,
      g.not_null,
      table,
      omega (arith, table, g.not_null, g.block),
    )
