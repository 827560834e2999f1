-- ===== src/Kernel/Objects.antt =====
-- The heap and its first objects at the start of the kernel (src/arch/x86/kernel/kernel.cpp).
use mathlib.Core.Path.{subst}
use another_os.Base.{
  ℕ, ◌+◌, ◌-◌, ◌*◌, ◌^◌, ◌<◌, ◌≤◌, ◌≡◌, ◌≢◌, ◌∙◌, refl, sym, ap, arith, true, false, [], ◌∷◌, leb,
}
use another_os.Kernel.{heap_start, heap_size, info_size, copy_words, copy_info}
use another_os.Kernel.Memory.{copy_words-at, copy_words-Reach}
use another_os.KernelHeap.{Heap, ok, align_up, initialize, malloc, operator_new}
use another_os.KernelHeap.Header.{header_size}
use another_os.KernelHeap.Blocks.{block, Blocks, IsHeap}
use another_os.KernelHeap.FirstFit.{align_up_four}
use another_os.KernelHeap.Initialize.{initialize-IsHeap}
use another_os.KernelHeap.Malloc.{malloc-place}
use another_os.KernelHeap.Reach.{Reach, start, allocate, Reach-IsHeap}
use another_os.KernelHeap.Spec.{find, place, carve}

-- The blocks of the new heap, with the copy of the information, and with `n` bytes more.
abbrev empty_heap : Blocks
empty_heap = (heap_start, block false (heap_start + heap_size - heap_start - header_size)) ∷ []

abbrev with_info : Blocks
with_info = (heap_start, block true 120) ∷ (heap_start + 140, block false 16777056) ∷ []

abbrev pub with_object : ℕ → Blocks
with_object n =
    (heap_start, block true 120)
    ∷ (heap_start + 140, block true n)
    ∷ (heap_start + 160 + n, block false (16777036 - n))
    ∷ []

find_info : find (align_up info_size 4) empty_heap ≡ heap_start
unfolding find align_up
find_info = refl

place_info : place (align_up info_size 4) empty_heap ≡ with_info
unfolding place carve align_up
place_info = refl

find_object : (n : ℕ) → n ≤ 2 ^ 21 → find n with_info ≡ heap_start + 140
unfolding find
find_object n h = let room : leb n 16777056 ≡ true = ground arith in rw room refl

place_object : (n : ℕ) → n ≤ 2 ^ 21 → place n with_info ≡ with_object n
unfolding place carve
place_object n h =
    let room : leb n 16777056 ≡ true = ground arith in
    let split : leb (n + header_size + 4) 16777056 ≡ true = ground arith in
    let at : heap_start + 140 + n + header_size ≡ heap_start + 160 + n = omega arith in
    let rest : 16777056 - n - header_size ≡ 16777036 - n = omega arith in
    rw (room, split, at, rest) refl

-- The copy of the information, on the new heap.
copy_info-Reach :
    (fuel info : ℕ) (h1 : Heap)
    → Reach h1 empty_heap
    → h1.start_address ≡ heap_start
    → info + 120 ≤ heap_start
    → 1 < fuel
    → (h2 : Heap) × (copy_info fuel info h1 ≡ ok (heap_start + header_size, h2))
      × Reach h2 with_info
      × ((k : ℕ) → k < 30 → h2.mem (heap_start + header_size + 4 * k) ≡ h1.mem (info + 4 * k))
unfolding copy_info
copy_info-Reach fuel info h1 r begin apart enough =
    let mbi = heap_start + header_size in
    let valid = Reach-IsHeap r in
    let found : find (align_up info_size 4) empty_heap ≢ 0 =
      λ e. omega (arith, sym find_info ∙ e) in
    let (g, run, served) = malloc-place fuel info_size valid.0 enough found in
    let run' : malloc fuel info_size h1 ≡ ok (mbi, g) =
      run ∙ ap (λ a. ok (a + header_size, g)) find_info in
    let reached : Reach g with_info =
      subst (Reach g) place_info (allocate fuel info_size _ r enough found run) in
    (
      record g { mem = copy_words 30 mbi info g.mem },
      rw run' refl,
      copy_words-Reach 30 mbi info g [] heap_start 120
          ((heap_start + 140, block false 16777056) ∷ []) reached (omega arith) (omega arith),
      λ k l.
          copy_words-at 30 mbi info k g.mem (omega (arith, apart)) l
          ∙ served.outside (info + 4 * k) (omega (arith, begin)),
    )

-- An object of `size` bytes, on the heap with the information.
operator_new-Reach :
    (fuel size : ℕ) (h2 : Heap)
    → Reach h2 with_info
    → size ≤ 2 ^ 20
    → 2 < fuel
    → (h3 : Heap) × (operator_new fuel size h2 ≡ ok (heap_start + 160, h3))
      × Reach h3 (with_object (align_up size 4))
      × ((a : ℕ)
          → heap_start + header_size ≤ a
          → a < heap_start + header_size + 120
          → h3.mem a ≡ h2.mem a)
unfolding operator_new
operator_new-Reach fuel size h2 r small enough =
    let n = align_up size 4 in
    let fits : n ≤ 2 ^ 21 = omega (arith, align_up_four size) in
    let valid = Reach-IsHeap r in
    let found : find n with_info ≢ 0 = λ e. omega (arith, sym (find_object n fits) ∙ e) in
    let (h3, run, served) = malloc-place fuel size valid.0 enough found in
    (
      h3,
      run ∙ ap (λ a. ok (a + header_size, h3)) (find_object n fits),
      subst (Reach h3) (place_object n fits) (allocate fuel size _ r enough found run),
      λ a l u. served.kept.0 refl a l u,
    )

-- At the start of the kernel, with the boot loader's information below the heap and a scheduler of
-- at most 1 MB, `Initialize`, the allocation and copy of the information, and the allocation of the
-- scheduler all return, with any fuel above 2. The heap is then a valid one of three blocks: the
-- information, the scheduler, and free space. The copy has the 30 words of the information.
pub start_heap_lem :
    (fuel info size : ℕ) (h : Heap)
    → info + 120 ≤ heap_start
    → size ≤ 2 ^ 20
    → 2 < fuel
    → (h1 : Heap) × (h2 : Heap) × (h3 : Heap) × (initialize heap_start (heap_start + heap_size) h
        ≡ ok h1)
      × (copy_info fuel info h1 ≡ ok (heap_start + header_size, h2))
      × (operator_new fuel size h2 ≡ ok (heap_start + 160, h3))
      × IsHeap h3 (with_object (align_up size 4))
      × ((k : ℕ) → k < 30 → h3.mem (heap_start + header_size + 4 * k) ≡ h.mem (info + 4 * k))
start_heap_lem fuel info size h apart small enough =
    let (h1, made, valid, begin, end, below) =
      initialize-IsHeap heap_start (heap_start + heap_size) h (omega arith) (omega arith)
        (omega arith) (omega arith) (omega arith) in
    let r1 : Reach h1 empty_heap =
      start h heap_start (heap_start + heap_size) (omega arith) (omega arith) (omega arith)
        (omega arith) (omega arith) made in
    let (h2, copied, r2, words) = copy_info-Reach fuel info h1 r1 begin apart (omega arith) in
    let (h3, run, r3, kept) = operator_new-Reach fuel size h2 r2 small enough in
    (
      h1,
      h2,
      h3,
      made,
      copied,
      run,
      (Reach-IsHeap r3).0,
      λ k l.
          kept (heap_start + header_size + 4 * k) (omega arith) (omega (arith, l))
          ∙ words k l
          ∙ below (info + 4 * k) (omega (arith, apart)),
    )
