-- ===== src/KernelHeap/Physical.antt =====
-- The physical address that `Heap::malloc` returns (src/arch/x86/mem/heap.cpp,
-- src/arch/x86/mem/virtmem.cpp).
use another_os.Base.{
  ℕ, ◌+◌, ◌*◌, ◌/◌, ◌%◌, ◌^◌, ◌<◌, ◌≡◌, ◌≢◌, ◌∙◌, sym, inl, inr, refl, arith, Bool, true, false,
  some, none, if◌then◌else◌, ◌==◌, Bool-cases, bit_and, add32, length, ok,
}
use another_os.Base.Bits.{bit_and_low}
use another_os.KernelHeap.{Heap, align_up, malloc_physical}
use another_os.KernelHeap.Header.{header_size}
use another_os.KernelHeap.Blocks.{Blocks, IsHeap}
use another_os.KernelHeap.Malloc.{Served, malloc-place}
use another_os.KernelHeap.Spec.{find}
use another_os.Paging.{VirtualMem, pagedir_index, get_page_for_address, page_at}
use another_os.Paging.Mapping.{walk, translate, translate-walk}

-- Looking a page up creates nothing.
lookup_only : (addr : ℕ) (vm : VirtualMem) → get_page_for_address addr false false false vm ≡ vm
unfolding get_page_for_address pagedir_index
lookup_only addr vm = elim (Bool-cases ((vm.directory (addr / 2 ^ 22)).present == 0)) [
  | inl missing ↦ rw missing refl
  | inr there ↦ rw there refl
]

none≢some : {x : ℕ} → none ≢ some x
none≢some e = cc

read_some : (c : Bool) (x y : ℕ) → (if c then none else some x) ≡ some y → y ≡ x
read_some true x y e = absurd (none≢some e)
read_some false x y e = cc

-- The address that the page says, in 32 bits.
physical_lem :
    (addr pa : ℕ) (vm : VirtualMem)
    → translate vm addr ≡ some pa
    → (vm.directory (addr / 2 ^ 22)).page_size_bit ≡ 0
    → pa < 2 ^ 32
    → add32 ((page_at addr vm).frame * 4096 % 2 ^ 32) (bit_and addr 0xFFF) ≡ pa
unfolding walk pagedir_index
physical_lem addr pa vm e table small =
    let low : bit_and addr 0xFFF ≡ addr % 4096 = bit_and_low 12 addr in
    let walked = sym (translate-walk vm addr) ∙ e in
    let there : pa ≡ (page_at addr vm).frame * 4096 + addr % 4096 =
      elim (Bool-cases ((vm.directory (addr / 2 ^ 22)).present == 0)) [
        | inl absent ↦ absurd (none≢some (rw (absent) at walked))
        | inr present ↦
            read_some ((page_at addr vm).present == 0) _ pa (rw (present, table) at walked)
      ] in
    omega (arith, low, there, small)

-- On a valid heap in which first fit finds a block, and whose address for it the processor translates
-- through a table of pages, `malloc` returns with it the physical address that it is translated to.
pub malloc_physical-translate :
    {h : Heap} {bs : Blocks} (fuel size pa : ℕ) (vm : VirtualMem)
    → IsHeap h bs
    → length bs < fuel
    → find (align_up size 4) bs ≢ 0
    → translate vm (find (align_up size 4) bs + header_size) ≡ some pa
    → (vm.directory ((find (align_up size 4) bs + header_size) / 2 ^ 22)).page_size_bit ≡ 0
    → pa < 2 ^ 32
    → (h' : Heap) × (malloc_physical fuel size vm h
        ≡ ok (find (align_up size 4) bs + header_size, pa, h'))
      × Served h h' bs (align_up size 4) (find (align_up size 4) bs + header_size)
unfolding malloc_physical
malloc_physical-translate {bs} fuel size pa vm valid enough found e table small =
    let ptr = find (align_up size 4) bs + header_size in
    let (h', run, served) = malloc-place fuel size valid enough found in
    (h', rw (run, lookup_only ptr vm, physical_lem ptr pa vm e table small) refl, served)
