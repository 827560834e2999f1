-- ===== src/PhysMem/Tests.antt =====
-- The theorems about the physical page allocator at concrete bitmaps.
use another_os.Base.{
  ℕ, ◌*◌, ◌/◌, ◌%◌, ◌^◌, ◌<◌, ◌≡◌, ◌≢◌, ◌⊎◌, false, refl, arith, some, if◌then◌else◌, ltb, ◌==◌,
  add32, [], ◌∷◌,
}
use another_os.PhysMem.{
  PhysicalMem, MemoryMap, MultibootInfo, block_size, blocks_per_byte, phys2virt, allocate_block,
  free_blocks, release_blocks, first_free, first_free_from, clear_bit, set_bit, write_word, init,
}
use another_os.PhysMem.Bitmap.{used}
use another_os.PhysMem.Allocate.{Taken, allocate_block_lem}
use another_os.PhysMem.Owners.{Live, start, allocate, release, Owned, Live-Owned}
use another_os.PhysMem.Init.{IsMap, gives, init_reserved}

-- 64 blocks, of which the first 33 are in use.
abbrev some_used : PhysicalMem
some_used = record {
  memory_size = 0x40000;
  used_blocks = 33;
  maximum_blocks = 64;
  words = λ i. if i == 0 then 0xffffffff else if i == 1 then 1 else 0;
}

first_free_runs : first_free some_used ≡ 33
unfolding first_free first_free_from clear_bit
first_free_runs = refl

allocate_runs : (allocate_block some_used).0 ≡ 33 * 4096
unfolding allocate_block free_blocks first_free first_free_from clear_bit
allocate_runs = refl

counter_open : free_blocks some_used ≢ 0
unfolding free_blocks
counter_open = omega arith

allocate_block_lem_example :
    ((f : ℕ) × Taken some_used (64 * 32) f (allocate_block some_used))
    ⊎ ((allocate_block some_used ≡ (0, some_used))
        × ((c : ℕ) → c < 64 * 32 → used some_used.words c ≡ 1))
allocate_block_lem_example = allocate_block_lem some_used (omega arith) counter_open

abbrev all_counted : PhysicalMem
all_counted = record some_used { used_blocks = 64 }

counter_shut : free_blocks all_counted ≡ 0
unfolding free_blocks
counter_shut = refl

-- A map of one available entry, the second megabyte.
abbrev one_entry : ℕ → MemoryMap
one_entry a = record { size = 20; base_addr_low = 0x100000; length_low = 0x100000; type = 1 }

abbrev boot_info : MultibootInfo
boot_info = record { mem_upper = 2048; mmap_length = 24; mmap_addr = 0x9000 }

one_entry-IsMap : IsMap one_entry (add32 (phys2virt 0x9000) 24)
one_entry-IsMap = record {
  base = λ a. omega arith;
  length = λ a. omega arith;
  step = λ a h. omega arith;
}

init_reserved_example :
    (s' : PhysicalMem) × (init 30 one_entry boot_info some_used ≡ some s')
    × ((c : ℕ)
        → 0 < c
        → c / 32 < 2048 * 1024 % 2 ^ 32 / block_size / blocks_per_byte
        → ((a : ℕ) → gives (one_entry a) c ≡ false)
        → used s'.words c ≡ (if ltb (c % 32) 8 then 1 else 0))
init_reserved_example = init_reserved 30 one_entry boot_info some_used one_entry-IsMap (omega arith)

-- Two blocks are taken, and the first is given back.
abbrev one_taken : PhysicalMem
one_taken = (allocate_block some_used).1

abbrev two_taken : PhysicalMem
two_taken = (allocate_block one_taken).1

first_taken : allocate_block some_used ≡ (33 * 4096, one_taken)
unfolding allocate_block free_blocks first_free first_free_from clear_bit
first_taken = refl

second_taken : allocate_block one_taken ≡ (34 * 4096, two_taken)
unfolding allocate_block free_blocks first_free first_free_from clear_bit set_bit write_word
second_taken = refl

given_back : Live (release_blocks (33 * 4096) 1 two_taken) (34 * 4096 ∷ [])
given_back =
    release (34 * 4096 ∷ []) [] (33 * 4096)
      (allocate
        (allocate (start some_used (omega arith)) (33 * 4096) one_taken first_taken (omega arith))
        (34 * 4096) two_taken second_taken (omega arith))
      refl

Live-Owned_example : Owned (release_blocks (33 * 4096) 1 two_taken) (34 * 4096 ∷ [])
Live-Owned_example = Live-Owned given_back
