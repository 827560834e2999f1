-- ===== src/Paging.antt =====
-- The page tables of src/arch/x86/mem/virtmem.{h,cpp}. The directory's last entry maps the directory
-- itself, so the table that the code reaches at `GetPageTableAddress(i)` is the frame that entry `i`
-- names, and the directory where `i` is 1023: `tables f j` is the entry `j` of the table in frame `f`.
-- The memory has `ram` frames; a store to a frame behind them is lost.
pub mod Mapping
pub mod Others
pub mod Frames
pub mod Low
pub mod Misplaced
pub mod HeapRound
pub mod HeapPages
mod Tests
use another_os.Base.{
  ℕ, zero, suc, ◌+◌, ◌-◌, ◌*◌, ◌/◌, ◌%◌, ◌^◌, bit_and, Bool, true, false, ◌&&◌, if◌then◌else◌, ◌==◌,
  ltb,
}
use another_os.PhysMem.{PhysicalMem, allocate_block, page_round_up}

abbrev pub page_size : ℕ
page_size = 4096

-- The fields of `PageDirectoryEntry` and of `PageTableEntry` that the code writes.
pub record PageDirectoryEntry : Type 0 where
  pub present : ℕ
  pub read_write : ℕ
  pub is_user : ℕ
  pub page_size_bit : ℕ
  pub frame : ℕ

pub record PageTableEntry : Type 0 where
  pub present : ℕ
  pub read_write : ℕ
  pub is_user : ℕ
  pub frame : ℕ

pub record VirtualMem : Type 0 where
  pub directory : ℕ → PageDirectoryEntry
  pub tables : ℕ → ℕ → PageTableEntry
  pub ram : ℕ
  pub phy_mem : PhysicalMem

-- `PAGEDIR_INDEX` and `PAGETBL_INDEX`.
unfoldable pub pagedir_index : ℕ → ℕ
pagedir_index addr = addr / 2 ^ 22

unfoldable pub pagetbl_index : ℕ → ℕ
pagetbl_index addr = bit_and (addr / 2 ^ 12) 0x3ff

abbrev pub flag : Bool → ℕ
flag b = if b then 1 else 0

abbrev pub empty_page : PageTableEntry
empty_page = record { present = 0; read_write = 0; is_user = 0; frame = 0 }

pub set_directory : ℕ → PageDirectoryEntry → VirtualMem → VirtualMem
set_directory i e m = record m { directory = λ j. if i == j then e else m.directory j }

-- The loop that clears a table, through entry `i` of the directory.
pub clear_table : ℕ → VirtualMem → VirtualMem
clear_table i m = record m {
  tables = λ f j.
      if ltb (m.directory i).frame m.ram && ((m.directory i).frame == f)
      then empty_page
      else m.tables f j;
}

-- A page's entry stored into the directory, in which bit 7 is the size of the pages.
abbrev pub overwrite : PageTableEntry → PageDirectoryEntry → PageDirectoryEntry
overwrite e d = record d {
  present = e.present;
  read_write = e.read_write;
  is_user = e.is_user;
  frame = e.frame;
}

-- A store to the entry `j` of the table in frame `f`.
abbrev pub store_page : ℕ → ℕ → PageTableEntry → VirtualMem → VirtualMem
store_page f j e m = record m {
  tables = λ g k. if ltb f m.ram && (f == g) && (j == k) then e else m.tables g k;
}

-- A store to the entry `j` of the table that the code reaches as number `i`.
unfoldable pub set_entry : ℕ → ℕ → PageTableEntry → VirtualMem → VirtualMem
set_entry i j e m =
    if i == 1023
    then record m { directory = λ k. if j == k then overwrite e (m.directory k) else m.directory k }
    else store_page (m.directory i).frame j e m

-- What stands there.
unfoldable pub entry_at : ℕ → ℕ → VirtualMem → PageTableEntry
entry_at i j m =
    if i == 1023
    then record {
      present = (m.directory j).present;
      read_write = (m.directory j).read_write;
      is_user = (m.directory j).is_user;
      frame = (m.directory j).frame;
    }
    else m.tables (m.directory i).frame j

-- A write through the pointer that `GetPageForAddress` returns.
unfoldable pub set_page : ℕ → PageTableEntry → VirtualMem → VirtualMem
set_page addr e m = set_entry (pagedir_index addr) (pagetbl_index addr) e m

abbrev pub page_at : ℕ → VirtualMem → PageTableEntry
page_at addr m = entry_at (pagedir_index addr) (pagetbl_index addr) m

-- `GetPageForAddress`: the state after it; the entry it points to is that of `page_at`.
unfoldable pub get_page_for_address : ℕ → Bool → Bool → Bool → VirtualMem → VirtualMem
get_page_for_address addr should_create read_write user_pages m =
    let i = pagedir_index addr in
    if ((m.directory i).present == 0) && should_create
    then (let (block, phys) = allocate_block m.phy_mem in
        let m = record m { phy_mem = phys } in
        let e : PageDirectoryEntry = record {
          present = 1;
          read_write = flag read_write;
          is_user = flag user_pages;
          page_size_bit = 0;
          frame = block / page_size % 2 ^ 20;
        } in
        clear_table i (set_directory i e m))
    else m

-- `AllocatePage`, on the entry for `addr`.
pub allocate_page : ℕ → Bool → Bool → VirtualMem → VirtualMem
allocate_page addr kernel writeable m =
    let (p, phys) = allocate_block m.phy_mem in
    let m = record m { phy_mem = phys } in
    if p == 0
    then m
    else set_page addr
        (record {
          present = 1;
          read_write = flag writeable;
          is_user = if kernel then 0 else 1;
          frame = p / page_size % 2 ^ 20;
        })
        m

unfoldable pub map_virtual_to_physical : ℕ → ℕ → Bool → Bool → VirtualMem → VirtualMem
map_virtual_to_physical phys virt kernel writeable m =
    let m = get_page_for_address virt true writeable (if kernel then false else true) m in
    set_page virt
      (record {
        present = 1;
        read_write = flag writeable;
        is_user = if kernel then 0 else 1;
        frame = phys / page_size % 2 ^ 20;
      })
      m

-- `SwitchPageDirectory`; `at` is what the memory holds as directories.
pub switch_page_directory : ℕ → (ℕ → ℕ → PageDirectoryEntry) → VirtualMem → VirtualMem
switch_page_directory phys_addr at m = record m { directory = at (phys_addr / page_size) }

-- The loop of `Init` over the pages of the kernel's heap, `n` of them from `addr` on.
pub map_heap : ℕ → ℕ → VirtualMem → VirtualMem
map_heap zero addr m = m
map_heap (suc n) addr m =
    map_heap n (addr + page_size)
      (allocate_page addr true true (get_page_for_address addr true true false m))

-- The loop of `Init` that maps the first 4 MB onto themselves: entries 1 to `n`.
pub identity_pages : ℕ → VirtualMem → VirtualMem
identity_pages zero m = m
identity_pages (suc n) m =
    set_entry 0 (suc n) (record { present = 1; read_write = 1; is_user = 0; frame = suc n })
      (identity_pages n m)

-- The loop of `Init` that opens the pages 1 to `n` to user code.
pub open_pages : ℕ → VirtualMem → VirtualMem
open_pages zero m = m
open_pages (suc n) m =
    let m = open_pages n m in
    let index = pagetbl_index (suc n * page_size) in
    set_entry 0 index (record (entry_at 0 index m) { is_user = 1 }) m

-- `Init`; `boot_frame` is the frame of `boot_pt`, and the heap's extent is the kernel's.
pub init : ℕ → ℕ → ℕ → VirtualMem → VirtualMem
init boot_frame heap_start heap_pages m =
    let last : PageDirectoryEntry = record {
      present = 1;
      read_write = 1;
      is_user = 0;
      page_size_bit = 0;
      frame = boot_frame % 2 ^ 20;
    } in
    let m = set_directory 1023 last m in
    let m = map_heap heap_pages heap_start m in
    let (block, phys) = allocate_block m.phy_mem in
    let m = record m { phy_mem = phys } in
    let m =
      set_directory 0
        (record {
          present = 1;
          read_write = 1;
          is_user = 1;
          page_size_bit = 0;
          frame = block % 2 ^ 20;
        })
        m in
    let m = clear_table 0 m in
    let m = identity_pages 1023 m in
    let m = open_pages (page_round_up 0x100000 / page_size - 1) m in
    set_entry 0 0 (record { present = 0; read_write = 1; is_user = 1; frame = 0 }) m
