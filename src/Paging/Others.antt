-- ===== src/Paging/Others.antt =====
-- What a mapping leaves alone (src/arch/x86/mem/virtmem.cpp).
use another_os.Base.{
  ℕ, ◌+◌, ◌*◌, ◌/◌, ◌%◌, ◌^◌, ◌<◌, ◌≡◌, ◌≢◌, ◌⊎◌, ◌∙◌, refl, sym, ap, arith, Bool, false, ◌&&◌,
  ◌==◌, ltb, ==_false, ==_iff, some, Bool-cases, inl, inr,
}
use another_os.Base.Bits.{bit_and_low}
use native.Mathlib.Decide.{ℕ_discrete as dec_eq}
use another_os.Paging.{
  page_size, VirtualMem, PageTableEntry, pagedir_index, pagetbl_index, entry_at, store_page,
  set_page, get_page_for_address, map_virtual_to_physical,
}
use another_os.Paging.Mapping.{
  walk, translate, translate-walk, IsTable, set_page-store, translate-set_page,
}

-- No two entries of the directory that name tables name the same one.
abbrev pub Separate : VirtualMem → Type 0
Separate m =
    (i j : ℕ)
    → IsTable (m.directory i)
    → IsTable (m.directory j)
    → i ≢ j
    → (m.directory i).frame ≢ (m.directory j).frame

-- The two addresses lie in different pages.
abbrev pub Apart : ℕ → ℕ → Type 0
Apart a b = (pagedir_index a ≢ pagedir_index b) ⊎ (pagetbl_index a ≢ pagetbl_index b)

-- Two addresses in different pages differ in one of the two indices.
pub Apart-page : (a b : ℕ) → a / page_size ≢ b / page_size → Apart a b
unfolding pagedir_index pagetbl_index
Apart-page a b h = elim (dec_eq (a / 2 ^ 22) (b / 2 ^ 22)) [
  | no d ↦ inl d
  | yes e ↦
      inr (λ p. h (omega (arith, e, p, bit_and_low 10 (a / 2 ^ 12), bit_and_low 10 (b / 2 ^ 12))))
]

misses :
    (virt other : ℕ) (m : VirtualMem)
    → IsTable (m.directory (pagedir_index virt))
    → IsTable (m.directory (pagedir_index other))
    → Separate m
    → Apart other virt
    → (((m.directory (pagedir_index virt)).frame == (m.directory (pagedir_index other)).frame)
        && (pagetbl_index virt == pagetbl_index other))
      ≡ false
misses virt other m there present separate (inr page) =
    let differs : (pagetbl_index virt == pagetbl_index other) ≡ false =
      ==_false (pagetbl_index virt) (pagetbl_index other) (λ e. page (sym e)) in
    ground (arith, differs)
misses virt other m there present separate (inl table) =
    let differs : ((m.directory (pagedir_index virt)).frame
          == (m.directory (pagedir_index other)).frame)
        ≡ false =
      ==_false _ _
        (separate (pagedir_index virt) (pagedir_index other) there present (λ e. table (sym e))) in
    ground (arith, differs)

-- A store to an entry that the walk does not read.
walk-store :
    (f j k l a : ℕ) (e : PageTableEntry) (m : VirtualMem)
    → (IsTable (m.directory k) → ((f == (m.directory k).frame) && (j == l)) ≡ false)
    → walk (store_page f j e m) k l a ≡ walk m k l a
unfolding walk entry_at
walk-store f j k l a e m other = elim (Bool-cases ((m.directory k).present == 0)) [
  | inl absent ↦ rw absent refl
  | inr there ↦ elim (Bool-cases ((m.directory k).page_size_bit == 0)) [
    | inr large ↦ rw (there, large) refl
    | inl small ↦ elim (Bool-cases (k == 1023)) [
      | inl window ↦ rw (there, small, window) refl
      | inr table ↦
          let missed : ((f == (m.directory k).frame) && (j == l)) ≡ false =
            other (ground (arith, there), (==_iff (m.directory k).page_size_bit 0).0 small) in
          let kept : (ltb f m.ram && (f == (m.directory k).frame) && (j == l)) ≡ false =
            ground (arith, missed) in
          rw (there, small, table, kept) refl
    ]
  ]
]

pub translate-set_page-other :
    (virt other : ℕ) (e : PageTableEntry) (m : VirtualMem)
    → IsTable (m.directory (pagedir_index virt))
    → pagedir_index virt ≢ 1023
    → Separate m
    → Apart other virt
    → translate (set_page virt e m) other ≡ translate m other
translate-set_page-other virt other e m there outside separate apart =
    translate-walk (set_page virt e m) other
    ∙ rw (set_page-store virt e m outside)
        (walk-store _ _ _ _ other e m (λ table. misses virt other m there table separate apart))
    ∙ sym (translate-walk m other)

-- Where the directory has the table of the virtual address, in memory, the address is none of the
-- window through which the tables are reached, and no two tables, the directory among them, share a
-- frame: `MapVirtualToPhysical` makes the processor translate it to the frame of the physical one, a
-- 32-bit address, at the same place in the page, and what it translates any address in another page
-- to does not change, be it in a 4 MB page or in the window.
pub translate-mapped :
    (phys virt : ℕ) (kernel writeable : Bool) (m : VirtualMem)
    → phys < 2 ^ 32
    → IsTable (m.directory (virt / 2 ^ 22))
    → (m.directory (virt / 2 ^ 22)).frame < m.ram
    → virt < 0xFFC00000
    → Separate m
    → (translate (map_virtual_to_physical phys virt kernel writeable m) virt
        ≡ some (phys / 4096 * 4096 + virt % 4096))
      × ((other : ℕ)
          → other / 4096 ≢ virt / 4096
          → translate (map_virtual_to_physical phys virt kernel writeable m) other
            ≡ translate m other)
unfolding map_virtual_to_physical get_page_for_address pagedir_index
translate-mapped phys virt kernel writeable m small there inside low separate =
    let present : ((m.directory (virt / 2 ^ 22)).present == 0) ≡ false = ==_false _ 0 there.0 in
    let outside : pagedir_index virt ≢ 1023 = λ e. omega (arith, e, low) in
    let frame : phys / page_size % 2 ^ 20 ≡ phys / page_size = omega arith in
    (
      rw present (
          translate-set_page virt _ _ _ m there inside outside
          ∙ ap (λ f. some (f * page_size + virt % page_size)) frame),
      λ other apart. rw present (
          translate-set_page-other virt other _ m there outside separate
            (Apart-page other virt apart)),
    )
