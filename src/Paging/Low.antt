-- ===== src/Paging/Low.antt =====
-- The first 4 MB in `Init` of src/arch/x86/mem/virtmem.cpp: what mapping them leaves alone.
use another_os.Base.{ℕ, zero, suc, ◌-◌, ◌/◌, ◌≡◌, refl, ◌∙◌, arith}
use another_os.PhysMem.{page_round_up}
use another_os.PhysMem.Allocate.{page_round_up_lem}
use another_os.Paging.{
  page_size, VirtualMem, PageTableEntry, PageDirectoryEntry, set_entry, identity_pages, open_pages,
  set_directory, clear_table,
}

set_entry-directory :
    (k : ℕ) (e : PageTableEntry) (m : VirtualMem) → (set_entry 0 k e m).directory ≡ m.directory
unfolding set_entry
set_entry-directory k e m = refl

identity-directory : (n : ℕ) (m : VirtualMem) → (identity_pages n m).directory ≡ m.directory
unfolding identity_pages
identity-directory zero m = refl
identity-directory (suc n) m =
    set_entry-directory (suc n) _ (identity_pages n m) ∙ identity-directory n m

open-directory : (n : ℕ) (m : VirtualMem) → (open_pages n m).directory ≡ m.directory
unfolding open_pages
open-directory zero m = refl
open-directory (suc n) m = set_entry-directory _ _ (open_pages n m) ∙ open-directory n m

pub open_count : page_round_up 0x100000 / page_size - 1 ≡ 255
open_count = omega (arith, page_round_up_lem 0x100000 (omega arith))

abbrev pub null_page : PageTableEntry
null_page = record { present = 0; read_write = 1; is_user = 1; frame = 0 }

-- What `Init` does behind the heap's pages, to the tables `x`.
abbrev pub low_pages : VirtualMem → VirtualMem
low_pages x = set_entry 0 0 null_page (open_pages 255 (identity_pages 1023 x))

pub low_directory : (x : VirtualMem) → (low_pages x).directory ≡ x.directory
low_directory x =
    set_entry-directory 0 null_page (open_pages 255 (identity_pages 1023 x))
    ∙ open-directory 255 (identity_pages 1023 x)
    ∙ identity-directory 1023 x

set_entry-phy_mem :
    (k : ℕ) (e : PageTableEntry) (m : VirtualMem) → (set_entry 0 k e m).phy_mem ≡ m.phy_mem
unfolding set_entry
set_entry-phy_mem k e m = refl

identity-phy_mem : (n : ℕ) (m : VirtualMem) → (identity_pages n m).phy_mem ≡ m.phy_mem
unfolding identity_pages
identity-phy_mem zero m = refl
identity-phy_mem (suc n) m = set_entry-phy_mem (suc n) _ (identity_pages n m) ∙ identity-phy_mem n m

open-phy_mem : (n : ℕ) (m : VirtualMem) → (open_pages n m).phy_mem ≡ m.phy_mem
unfolding open_pages
open-phy_mem zero m = refl
open-phy_mem (suc n) m = set_entry-phy_mem _ _ (open_pages n m) ∙ open-phy_mem n m

pub low-phy_mem : (x : VirtualMem) → (low_pages x).phy_mem ≡ x.phy_mem
low-phy_mem x =
    set_entry-phy_mem 0 null_page (open_pages 255 (identity_pages 1023 x))
    ∙ open-phy_mem 255 (identity_pages 1023 x)
    ∙ identity-phy_mem 1023 x

pub table_zero :
    (e : PageDirectoryEntry) (m : VirtualMem)
    → (clear_table 0 (set_directory 0 e m)).directory 0 ≡ e
unfolding clear_table set_directory
table_zero e m = refl
