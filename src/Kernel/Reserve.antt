-- ===== src/Kernel/Reserve.antt =====
-- Which blocks the start of the kernel reserves (src/arch/x86/kernel/kernel.cpp).
use another_os.Base.{
  ℕ, ◌+◌, ◌-◌, ◌*◌, ◌/◌, ◌^◌, ◌<◌, ◌≤◌, ◌≡◌, ◌∙◌, ap, arith, false, ◌||◌, if◌then◌else◌, ltb, ◌==◌,
  add32, sub32,
}
use another_os.Kernel.{Image, kernel_size, mods_addr, reserve}
use another_os.KernelHeap.{Mem}
use another_os.PhysMem.{PhysicalMem, bitmap_size, block_size, mark_used, page_round_up, phys2virt}
use another_os.PhysMem.Allocate.{page_round_up_lem}
use another_os.PhysMem.Bitmap.{used}
use another_os.PhysMem.Ranges.{within, mark_used_lem}

-- Where the kernel and the bitmap are taken to end, for a kernel that tools/link.ld places: it starts
-- at 1 MB and ends `bytes` behind 3 GB + 1 MB, and the difference of the two in words is negative.
abbrev pub reserved_end : ℕ → PhysicalMem → ℕ
reserved_end bytes s = 0xF0100000 + bytes / 4 + bitmap_size s

-- The addresses of tools/link.ld, for a kernel below the heap.
pub record IsLinked (b : Image) (bytes : ℕ) : Type 0 where
  pub start : b.kernel_start ≡ 0x100000
  pub end : b.kernel_end ≡ 0xC0100000 + bytes
  pub small : bytes ≤ 0x300000

kernel_size_lem :
    (b : Image) (bytes : ℕ) → IsLinked b bytes → kernel_size b ≡ 0xF0000000 + bytes / 4
unfolding kernel_size
kernel_size_lem b bytes l =
    let all : sub32 b.kernel_end b.kernel_start ≡ 0xC0000000 + bytes =
      omega (arith, l.start, l.end, l.small) in
    let negative : ltb (0xC0000000 + bytes) (2 ^ 31) ≡ false = ground arith in
    rw (all, negative) (omega arith)

abbrev pub module_start : Mem → ℕ → ℕ
module_start mem info = mem (phys2virt (mods_addr mem info))

abbrev pub module_end : Mem → ℕ → ℕ
module_end mem info = mem (phys2virt (add32 (mods_addr mem info) 4))

-- The two calls.
two_ranges :
    (end size first last : ℕ) (s : PhysicalMem)
    → size ≡ (end + 4095) / 4096 * 4096
    → end ≤ 2 ^ 32 - 4096
    → first ≤ last
    → last < 2 ^ 32
    → s.used_blocks < 2 ^ 32
    → (c : ℕ)
    → used (mark_used first (sub32 last first) (mark_used 0 size s)).words c ≡ (
        if (0 == c)
          || ltb (c * block_size) end
          || within (first / block_size) ((last - first) / block_size) c
        then 1
        else used s.words c)
two_ranges end size first last s up fits order small count c =
    let (one, counted, _) = mark_used_lem 0 size s (omega arith) (omega (arith, up)) count in
    let length : sub32 last first ≡ last - first = omega arith in
    let (two, _, _) =
      mark_used_lem first (sub32 last first) (mark_used 0 size s) (omega arith)
        (omega (arith, length)) (omega (arith, counted)) in
    let inside : within 0 (size / block_size) c ≡ ltb (c * block_size) end = ground (arith, up) in
    ground (arith, one c, two c, length, inside)

-- For a kernel that is linked as tools/link.ld says, up to 3 MB large, a memory of 32-bit size, and a
-- module that does not end before it starts: the two calls mark every block below the reserved end,
-- which is behind 3.75 GB, and of the first module as many blocks as are full in its length; the
-- marks of all others are as before.
pub reserve_lem :
    (b : Image) (bytes : ℕ) (mem : Mem) (info : ℕ) (s : PhysicalMem)
    → IsLinked b bytes
    → s.memory_size < 2 ^ 32
    → module_start mem info ≤ module_end mem info
    → module_end mem info < 2 ^ 32
    → s.used_blocks < 2 ^ 32
    → (c : ℕ)
    → used (reserve b mem info s).words c ≡ (
        if ltb (c * block_size) (reserved_end bytes s)
          || within
              (module_start mem info / block_size)
              ((module_end mem info - module_start mem info) / block_size)
              c
        then 1
        else used s.words c)
unfolding reserve bitmap_size
reserve_lem b bytes mem info s linked fits order small count c =
    let words = kernel_size_lem b bytes linked in
    let total : add32 (add32 0x100000 (kernel_size b)) (bitmap_size s) ≡ reserved_end bytes s =
      omega (arith, words, linked.small, fits) in
    let up : page_round_up (add32 (add32 0x100000 (kernel_size b)) (bitmap_size s))
        ≡ (reserved_end bytes s + 4095) / 4096 * 4096 =
      ap page_round_up total
      ∙ page_round_up_lem (reserved_end bytes s) (omega (arith, linked.small, fits))
      ∙ omega (arith, linked.small, fits) in
    let marks =
      two_ranges (reserved_end bytes s) _ (module_start mem info) (module_end mem info) s up
        (omega (arith, linked.small, fits)) order small count c in
    ground (arith, marks)
