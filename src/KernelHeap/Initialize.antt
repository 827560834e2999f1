-- ===== src/KernelHeap/Initialize.antt =====
-- `Heap::Initialize` of src/arch/x86/mem/heap.cpp.
use another_os.Base.{
  ℕ, ◌+◌, ◌-◌, ◌%◌, ◌^◌, ◌≤◌, ◌<◌, ◌≡◌, ◌≢◌, ◌⊎◌, refl, false, [], ◌∷◌, arith, sub32,
}
use another_os.KernelHeap.{Heap, ok, halt, store, initialize, page_size}
use another_os.KernelHeap.Header
use another_os.KernelHeap.Header.{header_size, memory_header_magic}
use another_os.KernelHeap.Blocks.{block, IsHeap}

module _ (start end : ℕ) (h : Heap) where
  made : Heap
  made = record {
    start_address = start;
    end_address = end;
    first_header = start;
    mem =
        store
          (store
            (store (store (store h.mem (Header.allocated start) 0) (Header.prev start) 0)
              (Header.next start) 0)
            (Header.size start) (sub32 (sub32 end start) header_size))
          (Header.magic start) memory_header_magic;
  }

  made-IsHeap :
      start % page_size ≡ 0
      → end % page_size ≡ 0
      → page_size ≤ start
      → start + header_size ≤ end
      → end < 2 ^ 32
      → IsHeap made ((start, block false (end - start - header_size)) ∷ [])
  unfolding made store
  made-IsHeap s e low room small = record {
    low = low;
    in_range = small;
    first = refl;
    nonempty = λ f. cc;
    chain = (ground arith, tt);
    tiled = omega arith;
  }

  made_outside : (a : ℕ) → a < start → made.mem a ≡ h.mem a
  unfolding made store
  made_outside a l = ground arith

  -- Between page boundaries that leave room for a header, `Heap::Initialize` returns a valid heap of
  -- one free block, which reaches to the end; no word below the heap has changed.
  pub initialize-IsHeap :
      start % page_size ≡ 0
      → end % page_size ≡ 0
      → page_size ≤ start
      → start + header_size ≤ end
      → end < 2 ^ 32
      → (h' : Heap) × (initialize start end h ≡ ok h')
        × IsHeap h' ((start, block false (end - start - header_size)) ∷ [])
        × (h'.start_address ≡ start)
        × (h'.end_address ≡ end)
        × ((a : ℕ) → a < start → h'.mem a ≡ h.mem a)
  unfolding initialize made
  initialize-IsHeap s e low room small =
      (made, rw (s, e), made-IsHeap s e low room small, refl, refl, made_outside)

  -- At any other boundary it halts.
  pub initialize-halt :
      (start % page_size ≢ 0) ⊎ (end % page_size ≢ 0) → initialize start end h ≡ halt
  unfolding initialize
  initialize-halt bad = ground arith
