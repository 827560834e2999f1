-- ===== src/Segments.antt =====
-- The global descriptor table and the task state segment of src/arch/x86/tables/gdt.{h,cpp}.
pub mod Fields
mod Tests
use another_os.Base.{ℕ, ◌+◌, ◌-◌, ◌*◌, ◌/◌, ◌%◌, ◌^◌, bit_and, if◌then◌else◌, ◌==◌, add32}

pub record GdtEntry : Type 0 where
  pub limit0 : ℕ
  pub base0 : ℕ
  pub base1 : ℕ
  pub type : ℕ
  pub s : ℕ
  pub dpl : ℕ
  pub p : ℕ
  pub limit1 : ℕ
  pub avl : ℕ
  pub l : ℕ
  pub d : ℕ
  pub g : ℕ
  pub base2 : ℕ

-- The fields of `tss_entry` that the kernel writes.
pub record TssEntry : Type 0 where
  pub esp0 : ℕ
  pub ss0 : ℕ
  pub cs : ℕ
  pub ss : ℕ
  pub ds : ℕ
  pub es : ℕ
  pub fs : ℕ
  pub gs : ℕ

-- `gdt`, `tss`, and `descriptor` as `lgdt` loads it.
pub record Gdt : Type 0 where
  pub gdt : ℕ → GdtEntry
  pub tss : TssEntry
  pub descriptor_size : ℕ
  pub descriptor_offset : ℕ

-- The fields that `CreateEntry` computes.
pub entry_of : ℕ → ℕ → ℕ → GdtEntry
entry_of base limit flags = record {
  limit0 = limit % 2 ^ 16;
  limit1 = bit_and (limit / 2 ^ 16) 0x0F;
  base0 = base % 2 ^ 16;
  base1 = bit_and (base / 2 ^ 16) 0xFF;
  base2 = bit_and (base / 2 ^ 24) 0xFF;
  type = bit_and flags 0x0f;
  s = bit_and (flags / 2 ^ 4) 0x01;
  dpl = bit_and (flags / 2 ^ 5) 0x03;
  p = bit_and (flags / 2 ^ 7) 0x01;
  avl = bit_and (flags / 2 ^ 12) 0x01;
  l = bit_and (flags / 2 ^ 13) 0x01;
  d = bit_and (flags / 2 ^ 14) 0x01;
  g = bit_and (flags / 2 ^ 15) 0x01;
}

pub create_entry : ℕ → ℕ → ℕ → ℕ → Gdt → Gdt
create_entry idx base limit flags t = record t {
  gdt = λ i. if idx == i then entry_of base limit flags else t.gdt i;
}

abbrev pub tss_entry_size : ℕ
tss_entry_size = 104

abbrev pub gdt_entry_size : ℕ
gdt_entry_size = 8

-- `CommitGdt`, up to the loads of the segment registers; `table` is the address of `gdt`.
pub commit_gdt : ℕ → Gdt → Gdt
commit_gdt table t = record t {
  descriptor_size = gdt_entry_size * 6 - 1;
  descriptor_offset = table;
}

-- `Init`; `table` is the address of `gdt` and `tss_base` that of `tss`.
pub init : ℕ → ℕ → Gdt → Gdt
init table tss_base t =
    let t = create_entry 0 0 0 0 t in
    let t = create_entry 1 0 0xfffff 0xc09a t in
    let t = create_entry 2 0 0xfffff 0xc092 t in
    let t = create_entry 3 0 0xfffff 0xc0fa t in
    let t = create_entry 4 0 0xfffff 0xc0f2 t in
    let tss_limit = add32 tss_base tss_entry_size in
    let t = create_entry 5 tss_base tss_limit 0x89 t in
    let t = record t {
      tss = record t.tss {
        ss0 = 0x10;
        esp0 = 0;
        cs = 0x0b;
        ss = 0x13;
        ds = 0x13;
        es = 0x13;
        fs = 0x13;
        gs = 0x13;
      };
    } in
    commit_gdt table t

pub set_tss : ℕ → ℕ → Gdt → Gdt
set_tss ss0 esp0 t = record t { tss = record t.tss { ss0 = ss0; esp0 = esp0 } }
