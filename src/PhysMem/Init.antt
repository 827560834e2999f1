-- ===== src/PhysMem/Init.antt =====
-- `PhysicalMem::Init` of src/arch/x86/mem/phymem.cpp: the bitmap before and after the memory map.
use another_os.Base.{
  ℕ, zero, suc, ◌+◌, ◌-◌, ◌*◌, ◌/◌, ◌%◌, ◌^◌, ◌≤◌, ◌<◌, ◌≡◌, refl, ◌∙◌, Bool, false, ◌&&◌, some,
  inl, inr, arith, if◌then◌else◌, ltb, leb, ◌==◌, Bool-cases, add32,
}
use another_os.Base.Bits.{bit}
use another_os.Base.Masks.{bit-zero, bit_complement}
use another_os.PhysMem.{
  PhysicalMem, MemoryMap, MultibootInfo, block_size, blocks_per_byte, multiboot_memory_available,
  phys2virt, write_word, fill, mark_free, parse_map, init_bitmap, init,
}
use another_os.PhysMem.Bitmap.{Words, used}
use another_os.PhysMem.Ranges.{within, mark_free_lem}
use native.Mathlib.Nat.{pow-suc, pow-le-pow_right}

bit_above : (k w : ℕ) → w < 2 ^ k → bit k w ≡ 0
unfolding bit
bit_above zero w h = omega arith
bit_above (suc k) w h = bit_above k (w / 2) (omega (arith, pow-suc 2 k))

bit_byte : (k : ℕ) → bit k 0xFF ≡ (if ltb k 8 then 1 else 0)
bit_byte k = elim (Bool-cases (ltb k 8)) [
  | inl low ↦ rw low (omega (arith, bit_complement 8 k 0 (ground arith) (omega arith), bit-zero k))
  | inr high ↦
      let large : 2 ^ 8 ≤ 2 ^ k = pow-le-pow_right (omega arith) {i = 8} {j = k} (ground arith) in
      rw high (bit_above k 0xFF (omega arith))
]

-- The blocks that the words from `i` on describe after the first loop.
used-fill :
    (n i c : ℕ) (words : Words)
    → used (fill n i words) c ≡ (
        if leb i (c / 32) && ltb (c / 32) (i + n)
        then (if ltb (c % 32) 8 then 1 else 0)
        else used words c)
unfolding fill used write_word
used-fill zero i c words = ground arith
used-fill (suc n) i c words =
    ground (arith, used-fill n (i + 1) c (write_word words i 0xFF), bit_byte (c % 32))

-- An entry of the memory map gives block `c` away.
abbrev pub gives : MemoryMap → ℕ → Bool
gives e c =
    (e.type == multiboot_memory_available)
    && within (e.base_addr_low / block_size) (e.length_low / block_size) c

-- The memory map that the boot loader passes: 32-bit fields, and entries that do not wrap around.
pub record IsMap (entry : ℕ → MemoryMap) (end : ℕ) : Type 0 where
  pub base : (a : ℕ) → (entry a).base_addr_low < 2 ^ 32
  pub length : (a : ℕ) → (entry a).length_low < 2 ^ 32
  pub step : (a : ℕ) → a < end → a + (entry a).size + 4 < 2 ^ 32

-- One entry.
abbrev taken_in : MemoryMap → PhysicalMem → PhysicalMem
taken_in e s =
    if e.type == multiboot_memory_available then mark_free e.base_addr_low e.length_low s else s

taken_in_lem :
    (e : MemoryMap) (s : PhysicalMem)
    → e.base_addr_low < 2 ^ 32
    → e.length_low < 2 ^ 32
    → s.used_blocks < 2 ^ 32
    → ((taken_in e s).used_blocks < 2 ^ 32)
      × ((c : ℕ) → 0 < c → gives e c ≡ false → used (taken_in e s).words c ≡ used s.words c)
taken_in_lem e s hb hl hu = elim (Bool-cases (e.type == multiboot_memory_available)) [
  | inl av ↦
      let (marks, count, max) = mark_free_lem e.base_addr_low e.length_low s hb hl hu in
      rw av (omega (arith, count), λ c p g. ground (arith, marks c))
  | inr un ↦ rw un (hu, λ c p g. refl)
]

-- The second loop ends within as many rounds as there are bytes in the map, and leaves alone every
-- block but 0 that no available entry names.
parse_map_keeps :
    (fuel : ℕ) (entry : ℕ → MemoryMap) (mmap end : ℕ) (s : PhysicalMem)
    → IsMap entry end
    → end - mmap < fuel
    → s.used_blocks < 2 ^ 32
    → (s' : PhysicalMem) × (parse_map fuel entry mmap end s ≡ some s')
      × ((c : ℕ) → 0 < c → ((a : ℕ) → gives (entry a) c ≡ false) → used s'.words c ≡ used s.words c)
unfolding parse_map
parse_map_keeps zero entry mmap end s m f u = absurd (omega arith)
parse_map_keeps (suc fuel) entry mmap end s m f u = elim (Bool-cases (ltb mmap end)) [
  | inl more ↦
      let e = entry mmap in
      let inside : mmap < end = ground arith in
      let next : add32 (add32 mmap e.size) 4 ≡ mmap + e.size + 4 =
        omega (arith, m.step mmap inside) in
      let (bound, marks) = taken_in_lem e s (m.base mmap) (m.length mmap) u in
      let (s', done, kept) =
        parse_map_keeps fuel entry (add32 (add32 mmap e.size) 4) end (taken_in e s) m
          (omega (arith, next)) bound in
      (s', rw more done, λ c p none_gives. kept c p none_gives ∙ marks c p (none_gives mmap))
  | inr end_reached ↦ (s, rw end_reached, λ c p g. refl)
]

-- On a memory map whose entries hold 32-bit numbers and whose addresses do not wrap around, `Init`
-- returns, with any fuel above the length of the map. Of a block other than 0 that lies in
-- the words of its first loop and that no available entry names, the mark is then set exactly if the
-- block is one of the first eight of its word.
pub init_reserved :
    (fuel : ℕ) (entry : ℕ → MemoryMap) (info : MultibootInfo) (s : PhysicalMem)
    → IsMap entry (add32 (phys2virt info.mmap_addr) info.mmap_length)
    → add32 (phys2virt info.mmap_addr) info.mmap_length - phys2virt info.mmap_addr < fuel
    → (s' : PhysicalMem) × (init fuel entry info s ≡ some s')
      × ((c : ℕ)
          → 0 < c
          → c / 32 < info.mem_upper * 1024 % 2 ^ 32 / block_size / blocks_per_byte
          → ((a : ℕ) → gives (entry a) c ≡ false)
          → used s'.words c ≡ (if ltb (c % 32) 8 then 1 else 0))
unfolding init init_bitmap
init_reserved fuel entry info s m f =
    let words = info.mem_upper * 1024 % 2 ^ 32 / block_size / blocks_per_byte in
    let (s', done, kept) = parse_map_keeps fuel entry _ _ (init_bitmap info s) m f (omega arith) in
    (s', done, λ c p inside g. kept c p g ∙ ground (arith, used-fill words 0 c s.words))
