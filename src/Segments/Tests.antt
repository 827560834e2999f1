-- ===== src/Segments/Tests.antt =====
-- Runs of src/arch/x86/tables/gdt.cpp.
use another_os.Base.{◌+◌, ◌*◌, ◌≡◌, arith}
use another_os.Segments.{TssEntry, Gdt, init, entry_of, tss_entry_size, gdt_entry_size}
use another_os.Segments.Fields.{Encodes, init_table}

abbrev no_tss : TssEntry
no_tss = record { esp0 = 0; ss0 = 0; cs = 0; ss = 0; ds = 0; es = 0; fs = 0; gs = 0 }

abbrev at_boot : Gdt
at_boot = record {
  gdt = λ i. entry_of 0 0 0;
  tss = no_tss;
  descriptor_size = 0;
  descriptor_offset = 0;
}

init_table_example :
    Encodes 0 0 0 ((init 0xC0200000 0xC0201000 at_boot).gdt 0)
    × Encodes 0 0xfffff 0xc09a ((init 0xC0200000 0xC0201000 at_boot).gdt 1)
    × Encodes 0 0xfffff 0xc092 ((init 0xC0200000 0xC0201000 at_boot).gdt 2)
    × Encodes 0 0xfffff 0xc0fa ((init 0xC0200000 0xC0201000 at_boot).gdt 3)
    × Encodes 0 0xfffff 0xc0f2 ((init 0xC0200000 0xC0201000 at_boot).gdt 4)
    × Encodes 0xC0201000
        (0xC0201000 + tss_entry_size)
        0x89
        ((init 0xC0200000 0xC0201000 at_boot).gdt 5)
    × ((init 0xC0200000 0xC0201000 at_boot).descriptor_size + 1 ≡ 6 * gdt_entry_size)
init_table_example = init_table 0xC0200000 0xC0201000 at_boot (omega arith)
