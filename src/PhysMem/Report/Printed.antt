-- ===== src/PhysMem/Report/Printed.antt =====
-- The text that `Init` of src/arch/x86/mem/phymem.cpp prints.
use another_os.Base.{
  ℕ, zero, suc, ◌+◌, ◌-◌, ◌*◌, ◌/◌, ◌%◌, ◌^◌, ◌<◌, ◌≡◌, refl, arith, List, [], ◌∷◌, ◌++◌,
  if◌then◌else◌, ltb, ◌==◌, Bool-cases, inl, inr, add32, codes, ok, ◌>>=◌,
}
use another_os.Console.{Vga}
use another_os.Console.Format.{int, print}
use another_os.Console.Phrases.{
  literal, decimal, hexadecimal, Piece, spell, print-spell, print-then,
}
use another_os.Console.Shown.{Line, text, Shown, Shown-then, Shown-nothing}
use another_os.PhysMem.{
  MemoryMap, MultibootInfo, block_size, blocks_per_byte, phys2virt, multiboot_memory_available,
}
use another_os.PhysMem.Init.{IsMap}
use another_os.PhysMem.Report.{rule, report_entry, report_map, report}

abbrev pub entry_pieces : List Piece
entry_pieces =
    literal (codes "|->   0x")
    ∷ hexadecimal
    ∷ literal (codes "   ")
    ∷ decimal
    ∷ literal (codes " Kb      Type: ")
    ∷ decimal
    ∷ []

abbrev pub entry_text : MemoryMap → List ℕ
entry_text e = spell entry_pieces (e.base_addr_low ∷ (e.length_low / 1024) ∷ e.type ∷ [])

abbrev pub entry_lines : MemoryMap → List Line
entry_lines e =
    text (entry_text e)
    ∷ ((if e.type == multiboot_memory_available then text (codes " [Free]") ∷ [] else [])
        ++ text (codes "\n") ∷ [])

-- The lines about the entries between `mmap` and `end`.
pub map_lines : ℕ → (ℕ → MemoryMap) → ℕ → ℕ → List Line
map_lines zero entry mmap end = []
map_lines (suc fuel) entry mmap end =
    let rest =
      entry_lines (entry mmap)
      ++ map_lines fuel entry (add32 (add32 mmap (entry mmap).size) 4) end in
    if ltb mmap end then rest else []

-- The numbers of the entry can be printed.
abbrev pub IsPrintable : MemoryMap → Type 0
IsPrintable e = (e.base_addr_low < 2 ^ 32) × (e.length_low < 2 ^ 32) × (e.type < 2 ^ 31)

mark-Shown :
    (e : MemoryMap) (v : Vga)
    → Shown
        (if e.type == multiboot_memory_available then text (codes " [Free]") ∷ [] else [])
        v
        (if e.type == multiboot_memory_available then print (codes " [Free]") [] v else ok v)
mark-Shown e v = elim (Bool-cases (e.type == multiboot_memory_available)) [
  | inl free ↦ rw free (print-spell (literal (codes " [Free]") ∷ []) [] v (refl, tt))
  | inr taken ↦ rw taken (Shown-nothing v)
]

report_entry-Shown :
    (e : MemoryMap) (v : Vga) → IsPrintable e → Shown (entry_lines e) v (report_entry e v)
unfolding report_entry
report_entry-Shown e v h =
    Shown-then (text (entry_text e) ∷ [])
      ((if e.type == multiboot_memory_available then text (codes " [Free]") ∷ [] else [])
        ++ text (codes "\n") ∷ [])
      v
      (print (codes "|->   0x%x   %d Kb      Type: %d")
        (int e.base_addr_low ∷ int (e.length_low / 1024) ∷ int e.type ∷ []) v)
      (λ v.
        (if e.type == multiboot_memory_available then print (codes " [Free]") [] v else ok v)
        >>= λ v. print (codes "\n") [] v)
      (print-spell entry_pieces (e.base_addr_low ∷ (e.length_low / 1024) ∷ e.type ∷ []) v
        (refl, (h.0, (refl, (omega arith, omega arith, (refl, (omega arith, omega arith, tt)))))))
      (λ w.
        Shown-then _ (text (codes "\n") ∷ []) w _ (λ v. print (codes "\n") [] v) (mark-Shown e w)
          (λ u. print-spell (literal (codes "\n") ∷ []) [] u (refl, tt)))

report_map-Shown :
    (fuel : ℕ) (entry : ℕ → MemoryMap) (mmap end : ℕ) (v : Vga)
    → IsMap entry end
    → ((a : ℕ) → (entry a).type < 2 ^ 31)
    → end - mmap < fuel
    → Shown (map_lines fuel entry mmap end) v (report_map fuel entry mmap end v)
unfolding report_map map_lines
report_map-Shown zero entry mmap end v m t enough = absurd (omega arith)
report_map-Shown (suc fuel) entry mmap end v m t enough = elim (Bool-cases (ltb mmap end)) [
  | inl more ↦
      let e = entry mmap in
      let inside : mmap < end = ground arith in
      let next : add32 (add32 mmap e.size) 4 ≡ mmap + e.size + 4 =
        omega (arith, m.step mmap inside) in
      rw more (
        Shown-then (entry_lines e) (map_lines fuel entry (add32 (add32 mmap e.size) 4) end) v
          (report_entry e v) (λ v. report_map fuel entry (add32 (add32 mmap e.size) 4) end v)
          (report_entry-Shown e v (m.base mmap, m.length mmap, t mmap))
          (λ w.
            report_map-Shown fuel entry (add32 (add32 mmap e.size) 4) end w m t
              (omega (arith, next))))
  | inr done ↦ rw done (Shown-nothing v)
]

abbrev number_pieces : List ℕ → Piece → List ℕ → List Piece
number_pieces before piece behind = literal before ∷ piece ∷ literal behind ∷ []

abbrev pub number_line : List ℕ → Piece → List ℕ → ℕ → Line
number_line before piece behind n = text (spell (number_pieces before piece behind) (n ∷ []))

abbrev size_pieces : List Piece
size_pieces =
    literal (codes "Bitmap size: ")
    ∷ decimal
    ∷ literal (codes " Kb Bitmap end: 0x")
    ∷ hexadecimal
    ∷ literal (codes "\n")
    ∷ []

abbrev pub report_lines : ℕ → (ℕ → MemoryMap) → ℕ → MultibootInfo → List Line
report_lines fuel entry bitmap info =
    let size = info.mem_upper * 1024 % 2 ^ 32 in
    let bitmap_size = size / block_size / blocks_per_byte in
    let first = phys2virt info.mmap_addr in
    number_line (codes "Memory Size: ") decimal (codes " Mb\n") (size / (1024 * 1024))
    ∷ number_line (codes "Bitmap: 0x") hexadecimal (codes "\n") bitmap
    ∷ text (spell size_pieces ((bitmap_size / 1024) ∷ add32 bitmap bitmap_size ∷ []))
    ∷ text (codes "Parsing grub memory map\n")
    ∷ number_line (codes "Address of mmap: 0x") hexadecimal (codes "\n") first
    ∷ text rule
    ∷ (map_lines fuel entry first (add32 first info.mmap_length) ++ text rule ∷ [])

-- `Init` prints these lines, where the numbers of the map can be printed.
pub report-Shown :
    (fuel : ℕ) (entry : ℕ → MemoryMap) (bitmap : ℕ) (info : MultibootInfo) (v : Vga)
    → bitmap < 2 ^ 32
    → IsMap entry (add32 (phys2virt info.mmap_addr) info.mmap_length)
    → ((a : ℕ) → (entry a).type < 2 ^ 31)
    → add32 (phys2virt info.mmap_addr) info.mmap_length - phys2virt info.mmap_addr < fuel
    → Shown (report_lines fuel entry bitmap info) v (report fuel entry bitmap info v)
unfolding report
report-Shown fuel entry bitmap info v small m t enough =
    let size = info.mem_upper * 1024 % 2 ^ 32 in
    let bitmap_size = size / block_size / blocks_per_byte in
    let first = phys2virt info.mmap_addr in
    print-then (number_pieces (codes "Memory Size: ") decimal (codes " Mb\n"))
      ((size / (1024 * 1024)) ∷ []) _ v _ (refl, (omega arith, omega arith, (refl, tt)))
      (λ v.
        print-then (number_pieces (codes "Bitmap: 0x") hexadecimal (codes "\n")) (bitmap ∷ []) _ v _
          (refl, (small, (refl, tt)))
          (λ v.
            print-then size_pieces ((bitmap_size / 1024) ∷ add32 bitmap bitmap_size ∷ []) _ v _
              (refl, (omega arith, omega arith, (refl, (omega arith, (refl, tt)))))
              (λ v.
                print-then (literal (codes "Parsing grub memory map\n") ∷ []) [] _ v _ (refl, tt)
                  (λ v.
                    print-then
                      (number_pieces (codes "Address of mmap: 0x") hexadecimal (codes "\n"))
                      (first ∷ []) _ v _ (refl, (omega arith, (refl, tt)))
                      (λ v.
                        print-then (literal rule ∷ []) [] _ v _ (refl, tt)
                          (λ v.
                            Shown-then (map_lines fuel entry first (add32 first info.mmap_length)) _
                              v _ _
                              (report_map-Shown fuel entry first (add32 first info.mmap_length) v m
                                t enough)
                              (λ v. print-spell (literal rule ∷ []) [] v (refl, tt))))))))
