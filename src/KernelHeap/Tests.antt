-- ===== src/KernelHeap/Tests.antt =====
-- The theorems about the kernel heap at concrete heaps.
use another_os.Base.{ℕ, ◌+◌, ◌-◌, ◌^◌, ◌≡◌, ◌≢◌, refl, true, false, [], ◌∷◌, ◌++◌, arith}
use another_os.KernelHeap.{
  malloc_physical, Heap, ok, halt, ◌>>=◌, store, align_up, initialize, allocate_aligned, malloc,
  free,
}
use another_os.KernelHeap.Header.{header_size}
use another_os.KernelHeap.Blocks.{block, IsHeap}
use another_os.KernelHeap.Spec.{find, place, give_back, carve, absorb}
use another_os.KernelHeap.Coalesced.{IsCoalesced}
use another_os.KernelHeap.Malloc.{Served, malloc-place, malloc_rounds}
use another_os.KernelHeap.Free.{Freed, free-give_back, free_twice-halt}
use another_os.KernelHeap.FirstFit.{Found}
use another_os.KernelHeap.Undo.{regained, malloc-free}
use another_os.KernelHeap.Physical.{malloc_physical-translate}
use another_os.Paging.{VirtualMem, entry_at}
use another_os.Paging.Mapping.{walk, translate}
use another_os.KernelHeap.Reach.{Reach, start, allocate, Reach-IsHeap}

abbrev blank : Heap
blank = record { start_address = 0; end_address = 0; first_header = 0; mem = λ _. 0 }

-- What `Heap::Initialize` makes of `blank` between 4096 and 8192.
abbrev fresh_mem : ℕ → ℕ
fresh_mem =
    store (store (store (store (store (λ _. 0) 4108 0) 4104 0) 4100 0) 4112 4076) 4096 1234567890

abbrev fresh : Heap
fresh = record { start_address = 4096; end_address = 8192; first_header = 4096; mem = fresh_mem }

fresh_made : initialize 4096 8192 blank ≡ ok fresh
unfolding initialize
fresh_made = refl

fresh-IsHeap : IsHeap fresh ((4096, block false 4076) ∷ [])
unfolding store
fresh-IsHeap = record {
  low = omega arith;
  in_range = omega arith;
  first = refl;
  nonempty = λ e. cc;
  chain = (record { magic = refl; next = refl; prev = refl; allocated = refl; size = refl }, tt);
  tiled = omega arith;
}

fresh_found : find (align_up 10 4) ((4096, block false 4076) ∷ []) ≢ 0
unfolding find align_up
fresh_found = omega arith

malloc-place_example :
    (h' : Heap) × (malloc 2 10 fresh
      ≡ ok (find (align_up 10 4) ((4096, block false 4076) ∷ []) + header_size, h'))
    × Served fresh h'
        ((4096, block false 4076) ∷ [])
        (align_up 10 4)
        (find (align_up 10 4) ((4096, block false 4076) ∷ []) + header_size)
malloc-place_example = malloc-place 2 10 fresh-IsHeap (omega arith) fresh_found

malloc_rounds_example : malloc 2 (2 ^ 32 - 1) fresh ≡ allocate_aligned 2 0 fresh
malloc_rounds_example = malloc_rounds 2 (2 ^ 32 - 1) fresh (omega arith)

-- A request of 10 bytes allocates 12.
rounded : malloc 2 10 fresh ≡ allocate_aligned 2 12 fresh
rounded = malloc_rounds 2 10 fresh (omega arith)

-- Two blocks: 12 bytes taken at 4096, the rest free.
abbrev split_mem : ℕ → ℕ
split_mem =
    store
      (store
        (store
          (store
            (store
              (store
                (store (store (store (store (λ _. 0) 4096 1234567890) 4100 4128) 4104 0) 4108 1)
                4112 12)
              4128 1234567890)
            4132 0)
          4136 4096)
        4140 0)
      4144 4044

abbrev halved : Heap
halved = record { start_address = 4096; end_address = 8192; first_header = 4096; mem = split_mem }

halved-IsHeap : IsHeap halved ((4096, block true 12) ∷ (4128, block false 4044) ∷ [])
unfolding store
halved-IsHeap = record {
  low = omega arith;
  in_range = omega arith;
  first = refl;
  nonempty = λ e. cc;
  chain = (
    record { magic = refl; next = refl; prev = refl; allocated = refl; size = refl },
    (record { magic = refl; next = refl; prev = refl; allocated = refl; size = refl }, tt),
  );
  tiled = omega arith;
}

-- Allocating 10 bytes of the fresh heap gives the blocks of `halved`; freeing them restores it.
malloc_then_free :
    (place (align_up 10 4) ((4096, block false 4076) ∷ [])
      ≡ (4096, block true 12) ∷ (4128, block false 4044) ∷ [])
    × (give_back [] 4096 12 ((4128, block false 4044) ∷ []) ≡ (4096, block false 4076) ∷ [])
unfolding place carve align_up give_back absorb
malloc_then_free = (refl, refl)

free-give_back_example :
    (h' : Heap) × (free (4096 + header_size) halved ≡ ok h')
    × Freed halved h' [] 4096 12 ((4128, block false 4044) ∷ [])
free-give_back_example =
    free-give_back halved [] ((4128, block false 4044) ∷ []) 4096 12 halved-IsHeap

free_twice-halt_example : (free (4096 + header_size) halved >>= free (4096 + header_size)) ≡ halt
free_twice-halt_example =
    free_twice-halt halved [] ((4128, block false 4044) ∷ []) 4096 12 halved-IsHeap

fresh-Reach : Reach fresh ((4096, block false (8192 - 4096 - header_size)) ∷ [])
unfolding initialize
fresh-Reach =
    start blank 4096 8192 (omega arith) (omega arith) (omega arith) (omega arith) (omega arith) refl

-- A heap reached by an allocation.
served :
    (h' : Heap) × (malloc 2 10 fresh
      ≡ ok (find (align_up 10 4) ((4096, block false 4076) ∷ []) + header_size, h'))
    × Served fresh h'
        ((4096, block false 4076) ∷ [])
        (align_up 10 4)
        (find (align_up 10 4) ((4096, block false 4076) ∷ []) + header_size)
served = malloc-place 2 10 fresh-IsHeap (omega arith) fresh_found

Reach-IsHeap_example :
    IsHeap served.0 (place (align_up 10 4) ((4096, block false 4076) ∷ []))
    × IsCoalesced (place (align_up 10 4) ((4096, block false 4076) ∷ []))
Reach-IsHeap_example = Reach-IsHeap (allocate 2 10 _ fresh-Reach (omega arith) fresh_found served.1)

-- Every page is that of the frame 9.
abbrev one_frame : VirtualMem
one_frame = record {
  directory =
      λ i. record { present = 1; read_write = 1; is_user = 0; page_size_bit = 0; frame = 5 };
  tables = λ f i. record { present = 1; read_write = 1; is_user = 0; frame = 9 };
  ram = 64;
  phy_mem = record { memory_size = 0; used_blocks = 0; maximum_blocks = 0; words = λ i. 0 };
}

malloc_physical-translate_example :
    (h' : Heap) × (malloc_physical 2 10 one_frame fresh
      ≡ ok (find (align_up 10 4) ((4096, block false 4076) ∷ []) + header_size, 36884, h'))
    × Served fresh h'
        ((4096, block false 4076) ∷ [])
        (align_up 10 4)
        (find (align_up 10 4) ((4096, block false 4076) ∷ []) + header_size)
unfolding find align_up translate walk entry_at
malloc_physical-translate_example =
    malloc_physical-translate 2 10 36884 one_frame fresh-IsHeap (omega arith) fresh_found refl refl
      (omega arith)

malloc-free_example :
    (f : Found (align_up 10 4) ((4096, block false 4076) ∷ [])) × (h' : Heap) × ((malloc 2 10 fresh
        >>= λ r. free r.0 r.1)
      ≡ ok h')
    × IsHeap h' (f.front ++ ((f.at, block false (regained (align_up 10 4) f.taken)) ∷ f.back))
malloc-free_example = malloc-free 2 10 fresh-IsHeap ((λ e. cc), tt) (omega arith) fresh_found

-- A request that leaves less than 24 bytes makes the block smaller.
smaller : regained (align_up 4060 4) (block false 4076) ≡ 4060
unfolding align_up
smaller = refl
