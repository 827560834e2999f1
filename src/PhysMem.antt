-- ===== src/PhysMem.antt =====
-- The physical page allocator of src/arch/x86/mem/phymem.{h,cpp}: a bitmap of 32-bit words, in which
-- a set bit is a block in use.
pub mod Bitmap
pub mod Ranges
pub mod FirstFree
pub mod Allocate
pub mod Room
pub mod Report
pub mod Owners
pub mod Init
mod Tests
use another_os.Base.{
  ℕ, zero, suc, ◌+◌, ◌-◌, ◌*◌, ◌/◌, ◌%◌, ◌^◌, bit_and, bit_or, Bool, true, false, not, ◌&&◌, Option,
  none, some, if◌then◌else◌, ltb, ◌==◌, add32, sub32,
}

abbrev pub block_size : ℕ
block_size = 4096

abbrev pub blocks_per_byte : ℕ
blocks_per_byte = 8

abbrev pub kernel_virtual_offset : ℕ
kernel_virtual_offset = 0xC0000000

-- `phys2virt(x)`, for a 32-bit operand.
abbrev pub phys2virt : ℕ → ℕ
phys2virt x = add32 x kernel_virtual_offset

-- The globals of phymem.cpp; `words i` is `memoryArray[i]`.
pub record PhysicalMem : Type 0 where
  pub memory_size : ℕ
  pub used_blocks : ℕ
  pub maximum_blocks : ℕ
  pub words : ℕ → ℕ

unfoldable pub bitmap_size : PhysicalMem → ℕ
bitmap_size s = s.memory_size / block_size / blocks_per_byte

pub write_word : (ℕ → ℕ) → ℕ → ℕ → ℕ → ℕ
write_word words i v j = if i == j then v else words j

-- `SetBit` and `UnsetBit`; the operand of `&=` is the complement in 32 bits.
pub set_bit : ℕ → (ℕ → ℕ) → ℕ → ℕ
set_bit b words = write_word words (b / 32) (bit_or (words (b / 32)) (2 ^ (b % 32)))

pub unset_bit : ℕ → (ℕ → ℕ) → ℕ → ℕ
unset_bit b words = write_word words (b / 32) (bit_and (words (b / 32)) (2 ^ 32 - 1 - 2 ^ (b % 32)))

-- The loops of `MarkFree` and `MarkUsed`, with the blocks left and the next bit.
pub free_run : ℕ → ℕ → PhysicalMem → PhysicalMem
free_run zero align s = s
free_run (suc blocks) align s =
    free_run blocks (add32 align 1)
      (record s { words = unset_bit align s.words; used_blocks = sub32 s.used_blocks 1 })

pub used_run : ℕ → ℕ → PhysicalMem → PhysicalMem
used_run zero align s = s
used_run (suc blocks) align s =
    used_run blocks (add32 align 1)
      (record s { words = set_bit align s.words; used_blocks = add32 s.used_blocks 1 })

pub mark_free : ℕ → ℕ → PhysicalMem → PhysicalMem
mark_free base size s =
    let s' = free_run (size / block_size) (base / block_size) s in
    record s' { words = set_bit 0 s'.words }

pub mark_used : ℕ → ℕ → PhysicalMem → PhysicalMem
mark_used base size s =
    let s' = used_run (size / block_size) (base / block_size) s in
    record s' { words = set_bit 0 s'.words }

-- `multiboot_memory_map` of the boot loader, with the fields that are read.
pub record MemoryMap : Type 0 where
  pub size : ℕ
  pub base_addr_low : ℕ
  pub length_low : ℕ
  pub type : ℕ

-- The part of `multiboot_info_t` that is read here.
pub record MultibootInfo : Type 0 where
  pub mem_upper : ℕ
  pub mmap_length : ℕ
  pub mmap_addr : ℕ

abbrev pub multiboot_memory_available : ℕ
multiboot_memory_available = 1

-- The first loop of `Init`: `memoryArray[i] = 0xFF` for the `n` words from `i` on.
pub fill : ℕ → ℕ → (ℕ → ℕ) → ℕ → ℕ
fill zero i words = words
fill (suc n) i words = fill n (i + 1) (write_word words i 0xFF)

-- The second loop of `Init`, over the entries of the memory map between `mmap` and `end`; `entry a`
-- is the entry at the address `a`. It is `none` when the fuel runs out.
pub parse_map : ℕ → (ℕ → MemoryMap) → ℕ → ℕ → PhysicalMem → Option PhysicalMem
parse_map zero entry mmap end s = none
parse_map (suc fuel) entry mmap end s =
    let e = entry mmap in
    let s' =
      if e.type == multiboot_memory_available
      then mark_free e.base_addr_low e.length_low s
      else s in
    let rest = parse_map fuel entry (add32 (add32 mmap e.size) 4) end s' in
    if ltb mmap end then rest else some s

-- The state of `Init` before the memory map is read.
pub init_bitmap : MultibootInfo → PhysicalMem → PhysicalMem
init_bitmap info s =
    let size = info.mem_upper * 1024 % 2 ^ 32 in
    record {
      memory_size = size;
      used_blocks = size / block_size;
      maximum_blocks = size / block_size;
      words = fill (size / block_size / blocks_per_byte) 0 s.words;
    }

pub init : ℕ → (ℕ → MemoryMap) → MultibootInfo → PhysicalMem → Option PhysicalMem
init fuel entry info s =
    parse_map fuel entry (phys2virt info.mmap_addr)
      (add32 (phys2virt info.mmap_addr) info.mmap_length) (init_bitmap info s)

-- `FreeBlocks(ptr, size)`.
pub unset_run : ℕ → ℕ → (ℕ → ℕ) → ℕ → ℕ
unset_run zero frame words = words
unset_run (suc n) frame words = unset_run n (add32 frame 1) (unset_bit frame words)

pub release_blocks : ℕ → ℕ → PhysicalMem → PhysicalMem
release_blocks ptr size s = record s {
  words = unset_run size (ptr / block_size) s.words;
  used_blocks = sub32 s.used_blocks size;
}

-- `FreeBlocks()`.
pub free_blocks : PhysicalMem → ℕ
free_blocks s = sub32 s.maximum_blocks s.used_blocks

-- The inner loop of `FirstFree`: the first clear bit of `word` from `j` on, with `n` rounds left.
pub clear_bit : ℕ → ℕ → ℕ → Option ℕ
clear_bit zero j word = none
clear_bit (suc n) j word =
    let rest = clear_bit n (j + 1) word in if bit_and word (2 ^ j) == 0 then some j else rest

-- The outer loop, from the word `i` on, with `n` rounds left; the result -1 is `2 ^ 32 - 1`.
pub first_free_from : ℕ → ℕ → (ℕ → ℕ) → ℕ
first_free_from zero i words = 2 ^ 32 - 1
first_free_from (suc n) i words =
    let rest = first_free_from n (add32 i 1) words in
    if words i == 0xffffffff
    then rest
    else elim (clear_bit 32 0 (words i)) [ some j ↦ add32 (i * 4 * 8 % 2 ^ 32) j | none ↦ rest ]

pub first_free : PhysicalMem → ℕ
first_free s = first_free_from s.maximum_blocks 0 s.words

-- `AllocateBlock`: a null pointer is 0.
pub allocate_block : PhysicalMem → ℕ × PhysicalMem
allocate_block s =
    if free_blocks s == 0
    then (0, s)
    else (let frame = first_free s in
        if frame == 2 ^ 32 - 1 then (0, s) else (
          frame * block_size % 2 ^ 32,
          record s { words = set_bit frame s.words; used_blocks = add32 s.used_blocks 1 },
        ))

-- `PageRoundUp`.
pub page_round_up : ℕ → ℕ
page_round_up address =
    if bit_and address 0xFFFFF000 == address
    then address
    else add32 (bit_and address 0xFFFFF000) 0x1000
