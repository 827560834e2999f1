-- ===== src/Paging/Mapping.antt =====
-- What the processor translates an address to (src/arch/x86/mem/virtmem.cpp).
use another_os.Base.{
  ℕ, ◌+◌, ◌*◌, ◌/◌, ◌%◌, ◌^◌, ◌<◌, ◌≡◌, ◌≢◌, ◌∙◌, refl, ap, arith, true, not, if◌then◌else◌, ◌==◌,
  ltb, bit_and, ==_refl, ==_false, Option, some, none,
}
use another_os.Base.Bits.{bit_and_low}
use another_os.Paging.{
  page_size, VirtualMem, PageDirectoryEntry, PageTableEntry, pagedir_index, pagetbl_index, entry_at,
  set_page, set_entry, store_page,
}

-- The walk of the processor from entry `i` of the directory and entry `j` of the table. An entry of
-- the directory with the size bit stands for 4 MB by itself.
unfoldable pub walk : VirtualMem → ℕ → ℕ → ℕ → Option ℕ
walk m i j addr =
    if (m.directory i).present == 0
    then none
    else if not ((m.directory i).page_size_bit == 0)
    then some ((m.directory i).frame / 1024 * 2 ^ 22 + addr % 2 ^ 22)
    else if (entry_at i j m).present == 0
    then none
    else some ((entry_at i j m).frame * page_size + addr % page_size)

-- The translation of an address, by its upper 10 bits and the 10 below.
unfoldable pub translate : VirtualMem → ℕ → Option ℕ
translate m addr = walk m (addr / 2 ^ 22) (addr / 2 ^ 12 % 1024) addr

-- The indices that the code computes are those.
pub translate-walk :
    (m : VirtualMem) (addr : ℕ)
    → translate m addr ≡ walk m (pagedir_index addr) (pagetbl_index addr) addr
unfolding translate pagedir_index pagetbl_index
translate-walk m addr =
    ap (λ j. walk m (addr / 2 ^ 22) j addr)
      (let e : addr / 2 ^ 12 % 1024 ≡ bit_and (addr / 2 ^ 12) 0x3ff =
          omega (arith, bit_and_low 10 (addr / 2 ^ 12)) in
        e)

-- The entry of the directory names a table of pages.
abbrev pub IsTable : PageDirectoryEntry → Type 0
IsTable e = (e.present ≢ 0) × (e.page_size_bit ≡ 0)

pub set_page-store :
    (addr : ℕ) (e : PageTableEntry) (m : VirtualMem)
    → pagedir_index addr ≢ 1023
    → set_page addr e m
      ≡ store_page (m.directory (pagedir_index addr)).frame (pagetbl_index addr) e m
unfolding set_page set_entry
set_page-store addr e m h = rw (==_false (pagedir_index addr) 1023 h) refl

pub translate-set_page :
    (addr w u f : ℕ) (m : VirtualMem)
    → IsTable (m.directory (pagedir_index addr))
    → (m.directory (pagedir_index addr)).frame < m.ram
    → pagedir_index addr ≢ 1023
    → translate
        (set_page addr (record { present = 1; read_write = w; is_user = u; frame = f }) m)
        addr
      ≡ some (f * page_size + addr % page_size)
unfolding walk entry_at
translate-set_page addr w u f m table inside h =
    let real : ltb (m.directory (pagedir_index addr)).frame m.ram ≡ true = ground arith in
    translate-walk _ addr
    ∙ rw
        (
          set_page-store addr _ m h,
          ==_false (m.directory (pagedir_index addr)).present 0 table.0,
          table.1,
          ==_false (pagedir_index addr) 1023 h,
          real,
          ==_refl (m.directory (pagedir_index addr)).frame,
          ==_refl (pagetbl_index addr),
        )
        refl
