-- ===== src/KernelHeap/Malloc.antt =====
-- `Heap::malloc` of src/arch/x86/mem/heap.cpp: first fit on the list of blocks.
use another_os.Base.{
  ℕ, ◌+◌, ◌-◌, ◌%◌, ◌^◌, ◌≤◌, ◌<◌, ◌≡◌, ◌≢◌, inl, inr, refl, ap, ◌∷◌, ◌++◌, arith, length, All,
  add32, ==_false, Bool-cases, if◌then◌else◌, ltb, ◌*◌, ◌/◌,
}
use another_os.KernelHeap.{Heap, ok, halt, align_up, first_free, claim, allocate_aligned, malloc}
use another_os.KernelHeap.Header.{header_size}
use another_os.KernelHeap.Blocks.{Blocks, IsHeap, PayloadKept, Clear}
use another_os.KernelHeap.Spec.{find, place}
use another_os.KernelHeap.Allocate.{first_free_from-find}
use another_os.KernelHeap.FirstFit.{align_up_four, Found, find-Found}
use another_os.KernelHeap.Take.{claim-IsHeap, claim_kept, claim_outside, claim-Clear, claim_inside}

-- What a caller of `InternalAllocate` gets: `n` bytes at `ptr`, taken by first fit.
pub record Served (h h' : Heap) (bs : Blocks) (n ptr : ℕ) : Type 0 where
  pub heap : IsHeap h' (place n bs)
  pub kept : All (PayloadKept h.mem h'.mem) bs
  pub outside : (a : ℕ) → a < h.start_address → h'.mem a ≡ h.mem a
  pub start : h'.start_address ≡ h.start_address
  pub clear : All (Clear ptr n) bs
  pub above : h.start_address + header_size ≤ ptr
  pub below : ptr + n ≤ h.end_address
  pub aligned : ptr % 4 ≡ 0

Found-Served :
    {h : Heap} {bs : Blocks} (n : ℕ) (f : Found n bs)
    → IsHeap h bs
    → n % 4 ≡ 0
    → Served h (record h { mem = claim h.mem f.at n }) bs n (f.at + header_size)
Found-Served {h} {bs} n f v whole = record {
  heap = rw f.left (claim-IsHeap h f.front f.back n f.at f.taken v' f.fit whole);
  kept = rw f.split (claim_kept h f.front f.back n f.at f.taken v' f.fit whole);
  outside = claim_outside h f.front f.back n f.at f.taken v' f.fit whole;
  start = refl;
  clear = rw f.split (claim-Clear h f.front f.back n f.at f.taken v' f.fit whole);
  above = omega (arith, inside);
  below = inside.1;
  aligned = omega (arith, inside);
}
  where
    v' : IsHeap h (f.front ++ ((f.at, f.taken) ∷ f.back))
    v' = rw f.split at v

    inside : (h.start_address ≤ f.at) × (f.at + header_size + n ≤ h.end_address) × (f.at % 4 ≡ 0)
    inside = claim_inside h f.front f.back n f.at f.taken v' f.fit whole

module _ {h : Heap} {bs : Blocks} (fuel n : ℕ) (v : IsHeap h bs) (enough : length bs < fuel) where
  first_free-find : first_free fuel h n ≡ ok (find n bs)
  unfolding first_free
  first_free-find = rw v.first (
      first_free_from-find fuel n h.mem 0 h.start_address h.end_address bs (omega (arith, v.low))
        v.tiled v.chain enough)

  allocate_aligned-place :
      n % 4 ≡ 0
      → find n bs ≢ 0
      → (h' : Heap) × (allocate_aligned fuel n h ≡ ok (find n bs + header_size, h'))
        × Served h h' bs n (find n bs + header_size)
  unfolding allocate_aligned
  allocate_aligned-place whole found = elim (find-Found n bs) [
    | inl lost ↦ absurd (found lost)
    | inr f ↦
        let served = Found-Served n f v whole in
        let fits : add32 f.at header_size ≡ f.at + header_size =
          omega (arith, v.in_range, served.below, served.heap) in
        (
          record h { mem = claim h.mem f.at n },
          rw (first_free-find, ==_false _ _ found, f.address, fits),
          rw f.address served,
        )
  ]

  allocate_aligned-halt : find n bs ≡ 0 → allocate_aligned fuel n h ≡ halt
  unfolding allocate_aligned
  allocate_aligned-halt lost = rw (first_free-find, lost)

align_up_whole : (size : ℕ) → align_up size 4 % 4 ≡ 0
align_up_whole size = omega (arith, align_up_four size)

-- On a valid heap in which first fit finds a block, `Heap::malloc` returns, with any fuel above the
-- number of blocks, the address behind that block's header. The heap is valid afterwards, with the
-- block list of first fit; no word of an allocated block or below the heap has changed; the bytes
-- returned lie at a word boundary inside the heap, clear of every allocated block and its header.
pub malloc-place :
    {h : Heap} {bs : Blocks} (fuel size : ℕ)
    → IsHeap h bs
    → length bs < fuel
    → find (align_up size 4) bs ≢ 0
    → (h' : Heap) × (malloc fuel size h ≡ ok (find (align_up size 4) bs + header_size, h'))
      × Served h h' bs (align_up size 4) (find (align_up size 4) bs + header_size)
unfolding malloc
malloc-place fuel size v enough found =
    allocate_aligned-place fuel (align_up size 4) v enough (align_up_whole size) found

-- On a valid heap in which no free block is large enough, `Heap::malloc` halts.
pub malloc-halt :
    {h : Heap} {bs : Blocks} (fuel size : ℕ)
    → IsHeap h bs
    → length bs < fuel
    → find (align_up size 4) bs ≡ 0
    → malloc fuel size h ≡ halt
unfolding malloc
malloc-halt fuel size v enough lost = allocate_aligned-halt fuel (align_up size 4) v enough lost

-- `Heap::malloc` of a request in the last three numbers below `2 ^ 32` allocates no bytes; of any other
-- it allocates the next multiple of 4.
pub malloc_rounds :
    (fuel size : ℕ) (h : Heap)
    → size < 2 ^ 32
    → malloc fuel size h
      ≡ allocate_aligned fuel (if ltb (2 ^ 32 - 4) size then 0 else (size + 3) / 4 * 4) h
unfolding malloc
malloc_rounds fuel size h lt = elim (Bool-cases (ltb (2 ^ 32 - 4) size)) [
  | inl big ↦
      let past : 2 ^ 32 - 4 < size = ground (arith, big) in
      let e : align_up size 4 ≡ 0 = omega (arith, align_up_four size) in
      rw big (ap (λ n. allocate_aligned fuel n h) e)
  | inr fits ↦
      let within : size ≤ 2 ^ 32 - 4 = ground (arith, fits) in
      let e : align_up size 4 ≡ (size + 3) / 4 * 4 = omega (arith, align_up_four size) in
      rw fits (ap (λ n. allocate_aligned fuel n h) e)
]
