-- ===== src/PhysMem/Report.antt =====
-- What `Init` of src/arch/x86/mem/phymem.cpp prints. It prints nothing that depends on the bitmap, so
-- the messages stand apart from the stores, in their order.
pub mod Printed
use another_os.Base.{
  ℕ, zero, suc, ◌*◌, ◌/◌, ◌%◌, ◌^◌, List, [], ◌∷◌, if◌then◌else◌, ltb, ◌==◌, add32, codes, Run, ok,
  out_of_fuel, ◌>>=◌,
}
use another_os.Console.{Vga}
use another_os.Console.Format.{int, print}
use another_os.PhysMem.{
  MemoryMap, MultibootInfo, block_size, blocks_per_byte, phys2virt, multiboot_memory_available,
}

abbrev pub rule : List ℕ
rule = codes "-------------------------------------------------\n"

-- The messages about one entry of the memory map.
pub report_entry : MemoryMap → Vga → Run Vga
report_entry e v =
    print (codes "|->   0x%x   %d Kb      Type: %d")
      (int e.base_addr_low ∷ int (e.length_low / 1024) ∷ int e.type ∷ []) v
    >>= λ v.
        (if e.type == multiboot_memory_available then print (codes " [Free]") [] v else ok v)
        >>= λ v. print (codes "\n") [] v

pub report_map : ℕ → (ℕ → MemoryMap) → ℕ → ℕ → Vga → Run Vga
report_map zero entry mmap end v = out_of_fuel
report_map (suc fuel) entry mmap end v =
    let rest = report_entry (entry mmap) v >>= λ v.
    report_map fuel entry (add32 (add32 mmap (entry mmap).size) 4) end v in
    if ltb mmap end then rest else ok v

-- The messages of `Init`, where the bitmap stands at the address `bitmap`.
pub report : ℕ → (ℕ → MemoryMap) → ℕ → MultibootInfo → Vga → Run Vga
report fuel entry bitmap info v =
    let size = info.mem_upper * 1024 % 2 ^ 32 in
    let bitmap_size = size / block_size / blocks_per_byte in
    let first = phys2virt info.mmap_addr in
    print (codes "Memory Size: %d Mb\n") (int (size / (1024 * 1024)) ∷ []) v >>= λ v.
    print (codes "Bitmap: 0x%x\n") (int bitmap ∷ []) v >>= λ v.
    print (codes "Bitmap size: %d Kb Bitmap end: 0x%x\n")
      (int (bitmap_size / 1024) ∷ int (add32 bitmap bitmap_size) ∷ []) v
    >>= λ v. print (codes "Parsing grub memory map\n") [] v >>= λ v.
        print (codes "Address of mmap: 0x%x\n") (int first ∷ []) v >>= λ v. print rule [] v >>= λ v.
        report_map fuel entry first (add32 first info.mmap_length) v >>= λ v. print rule [] v
