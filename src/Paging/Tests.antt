-- ===== src/Paging/Tests.antt =====
-- A run of src/arch/x86/mem/virtmem.cpp.
use another_os.Base.{
  ℕ, ◌+◌, ◌*◌, ◌/◌, ◌%◌, ◌≡◌, ◌∙◌, sym, arith, refl, some, true, false, ◌==◌, ◌||◌, ==_iff, ◌≢◌,
  ◌^◌, Bool-cases, inl, inr, if◌then◌else◌,
}
use another_os.PhysMem.{PhysicalMem}
use another_os.Paging.{
  PageDirectoryEntry, VirtualMem, empty_page, map_virtual_to_physical, map_heap, init,
  set_directory,
}
use another_os.PhysMem.Bitmap.{used}
use another_os.PhysMem.Room.{Room}
use another_os.Base.Bits.{bit}
use another_os.Base.Masks.{bit-zero}
use another_os.Paging.Frames.{Owned, Room-fewer}
use another_os.Paging.Misplaced.{own_entry, init-misplaced}
use another_os.Paging.HeapPages.{Backed, Ordinary, map_heap-Backed}
use another_os.Paging.Mapping.{translate, IsTable}
use another_os.Paging.Others.{translate-mapped}

-- The directory of boot/boot.asm: two entries of 4 MB for the first frames.
abbrev boot_entry : ℕ → PageDirectoryEntry
boot_entry i =
    if (i == 0) || (i == 768)
    then record { present = 1; read_write = 1; is_user = 0; page_size_bit = 1; frame = 0 }
    else record { present = 0; read_write = 0; is_user = 0; page_size_bit = 0; frame = 0 }

abbrev no_blocks : PhysicalMem
no_blocks = record { memory_size = 0; used_blocks = 0; maximum_blocks = 0; words = λ i. 0 }

-- Beside them, a table in frame 40 for the addresses from 0xC0800000 on.
abbrev tabled : VirtualMem
tabled = record {
  directory = λ i.
      if i == 770
      then record { present = 1; read_write = 1; is_user = 0; page_size_bit = 0; frame = 40 }
      else boot_entry i;
  tables = λ f i. empty_page;
  ram = 64;
  phy_mem = no_blocks;
}

only_table : (i : ℕ) → IsTable (tabled.directory i) → i ≡ 770
only_table i t = elim (Bool-cases (i == 770)) [
  | inl e ↦ (==_iff i 770).0 e
  | inr d ↦ elim (Bool-cases ((i == 0) || (i == 768))) [
    | inl large ↦ absurd (omega (arith, (rw (d, large) at t).1))
    | inr none ↦ absurd ((rw (d, none) at t).0 refl)
  ]
]

translate-mapped_example :
    (translate (map_virtual_to_physical 0xB8000 0xC0800123 true true tabled) 0xC0800123
      ≡ some (0xB8000 / 4096 * 4096 + 0xC0800123 % 4096))
    × ((other : ℕ)
        → other / 4096 ≢ 0xC0800123 / 4096
        → translate (map_virtual_to_physical 0xB8000 0xC0800123 true true tabled) other
          ≡ translate tabled other)
translate-mapped_example =
    translate-mapped 0xB8000 0xC0800123 true true tabled (omega arith)
      ((λ e. omega (arith, e)), refl) (omega arith) (omega arith)
      (λ i j p q d e. d (only_table i p ∙ sym (only_table j q)))

-- 64 blocks, of which the first 32 are in use.
abbrev free_blocks_left : PhysicalMem
free_blocks_left = record {
  memory_size = 0x40000;
  used_blocks = 32;
  maximum_blocks = 64;
  words = λ i. if i == 0 then 0xffffffff else 0;
}

free_blocks_left-Room : Room free_blocks_left 32 5
unfolding used bit
free_blocks_left-Room = record {
  small = omega arith;
  counted = omega arith;
  inside = omega arith;
  first_used = refl;
  free = λ c a b. let d : (c / 32 == 0) ≡ false = ground arith in rw d (bit-zero (c % 32));
}

-- At the start of `Init`.
abbrev at_boot : VirtualMem
at_boot = record {
  directory = boot_entry;
  tables = λ f i. empty_page;
  ram = 64;
  phy_mem = free_blocks_left;
}

-- And with the directory, in frame 5, as its last entry.
abbrev own_table : VirtualMem
own_table = set_directory 1023 (own_entry 5) at_boot

only_own : (i : ℕ) → IsTable (own_table.directory i) → i ≡ 1023
unfolding set_directory
only_own i t = elim (Bool-cases (1023 == i)) [
  | inl e ↦ sym ((==_iff 1023 i).0 e)
  | inr d ↦ elim (Bool-cases ((i == 0) || (i == 768))) [
    | inl large ↦ absurd (omega (arith, (rw (d, large) at t).1))
    | inr none ↦ absurd ((rw (d, none) at t).0 refl)
  ]
]

own_table-Owned : Owned own_table
unfolding set_directory used bit
own_table-Owned = record {
  tables = λ i t. rw (only_own i t) (refl, omega arith);
  separate = λ i j p q d e. d (only_own i p ∙ sym (only_own j q));
  installed = omega arith;
}

own_table-Ordinary : Ordinary own_table 2 0xC0400000
unfolding set_directory
own_table-Ordinary k l =
    let index : (0xC0400000 + k * 4096) / 2 ^ 22 ≡ 769 = omega arith in
    rw index (refl, λ e. omega (arith, e))

map_heap-Backed_example : Backed 2 0xC0400000 own_table (map_heap 2 0xC0400000 own_table)
unfolding set_directory
map_heap-Backed_example =
    map_heap-Backed 2 0xC0400000 32 own_table own_table-Owned own_table-Ordinary
      (Room-fewer free_blocks_left 32 4 free_blocks_left-Room)

init-misplaced_example :
    let m' = init 5 0xC0400000 2 at_boot in
    (f : ℕ) × (used at_boot.phy_mem.words f ≡ 0)
    × (used m'.phy_mem.words f ≡ 1)
    × (f ≢ 0)
    × ((m'.directory 0).frame ≡ f * 4096 % 2 ^ 20)
    × ((m'.directory 0).frame ≢ f)
init-misplaced_example =
    init-misplaced 5 0xC0400000 2 32 at_boot own_table-Owned own_table-Ordinary
      free_blocks_left-Room
