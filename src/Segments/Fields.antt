-- ===== src/Segments/Fields.antt =====
-- The descriptors that the processor reads back (src/arch/x86/tables/gdt.cpp).
use another_os.Base.{
  ℕ, ◌+◌, ◌*◌, ◌/◌, ◌%◌, ◌^◌, ◌<◌, ◌≡◌, ◌≢◌, refl, arith, ==_refl, ==_false, add32,
}
use another_os.Base.Bits.{bit_and_low}
use another_os.Segments.{
  GdtEntry, Gdt, entry_of, create_entry, commit_gdt, init, tss_entry_size, gdt_entry_size,
}

abbrev pub segment_base : GdtEntry → ℕ
segment_base e = e.base0 + e.base1 * 2 ^ 16 + e.base2 * 2 ^ 24

abbrev pub segment_limit : GdtEntry → ℕ
segment_limit e = e.limit0 + e.limit1 * 2 ^ 16

-- The access byte and the high nibble of flags.
abbrev pub segment_access : GdtEntry → ℕ
segment_access e = e.type + e.s * 2 ^ 4 + e.dpl * 2 ^ 5 + e.p * 2 ^ 7

abbrev pub segment_flags : GdtEntry → ℕ
segment_flags e = e.avl + e.l * 2 + e.d * 2 ^ 2 + e.g * 2 ^ 3

abbrev pub Encodes : ℕ → ℕ → ℕ → GdtEntry → Type 0
Encodes base limit flags e =
    (segment_base e ≡ base)
    × (segment_limit e ≡ limit % 2 ^ 20)
    × (segment_access e ≡ flags % 2 ^ 8)
    × (segment_flags e ≡ flags / 2 ^ 12 % 2 ^ 4)

pub entry_of-Encodes :
    (base limit flags : ℕ) → base < 2 ^ 32 → Encodes base limit flags (entry_of base limit flags)
unfolding entry_of
entry_of-Encodes base limit flags h = (
  omega (arith, bit_and_low 8 (base / 2 ^ 16), bit_and_low 8 (base / 2 ^ 24)),
  omega (arith, bit_and_low 4 (limit / 2 ^ 16)),
  omega (
    arith,
    bit_and_low 4 flags,
    bit_and_low 1 (flags / 2 ^ 4),
    bit_and_low 2 (flags / 2 ^ 5),
    bit_and_low 1 (flags / 2 ^ 7),
  ),
  omega (
    arith,
    bit_and_low 1 (flags / 2 ^ 12),
    bit_and_low 1 (flags / 2 ^ 13),
    bit_and_low 1 (flags / 2 ^ 14),
    bit_and_low 1 (flags / 2 ^ 15),
  ),
)

-- The processor reads back from an entry written for a 32-bit base that base, the low 20 bits of the
-- limit, the low byte of the flags and their bits 12 to 15. The other entries keep their value.
pub create_entry_lem :
    (idx base limit flags : ℕ) (t : Gdt)
    → base < 2 ^ 32
    → Encodes base limit flags ((create_entry idx base limit flags t).gdt idx)
      × ((i : ℕ) → idx ≢ i → (create_entry idx base limit flags t).gdt i ≡ t.gdt i)
unfolding create_entry
create_entry_lem idx base limit flags t h =
    rw (==_refl idx) (entry_of-Encodes base limit flags h, λ i ne. rw (==_false idx i ne) refl)

-- The table after `Init`, for a task state segment below 4 GB: an empty entry, flat kernel and user
-- segments of 2 ^ 20 pages, and a descriptor of the task state segment whose limit is the low 20 bits
-- of the end address of the segment, where its size less one would be due. `lgdt` is given all six.
pub init_table :
    (table tss_base : ℕ) (t : Gdt)
    → tss_base < 2 ^ 32
    → Encodes 0 0 0 ((init table tss_base t).gdt 0)
      × Encodes 0 0xfffff 0xc09a ((init table tss_base t).gdt 1)
      × Encodes 0 0xfffff 0xc092 ((init table tss_base t).gdt 2)
      × Encodes 0 0xfffff 0xc0fa ((init table tss_base t).gdt 3)
      × Encodes 0 0xfffff 0xc0f2 ((init table tss_base t).gdt 4)
      × Encodes tss_base (tss_base + tss_entry_size) 0x89 ((init table tss_base t).gdt 5)
      × ((init table tss_base t).descriptor_size + 1 ≡ 6 * gdt_entry_size)
unfolding init commit_gdt create_entry
init_table table tss_base t h =
    let (base, limit, access, flags) =
      entry_of-Encodes tss_base (add32 tss_base tss_entry_size) 0x89 h in
    (
      entry_of-Encodes 0 0 0 (omega arith),
      entry_of-Encodes 0 0xfffff 0xc09a (omega arith),
      entry_of-Encodes 0 0xfffff 0xc092 (omega arith),
      entry_of-Encodes 0 0xfffff 0xc0fa (omega arith),
      entry_of-Encodes 0 0xfffff 0xc0f2 (omega arith),
      (base, omega (arith, limit), access, flags),
      refl,
    )
