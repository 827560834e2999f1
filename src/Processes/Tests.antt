-- ===== src/Processes/Tests.antt =====
-- A run of src/arch/x86/scheduler/thread.cpp.
use another_os.Base.{
  ℕ, ◌+◌, ◌%◌, ◌^◌, refl, ◌≡◌, ◌≢◌, arith, false, true, [], ◌∷◌, ◌++◌, ok, length, ◌<◌,
}
use another_os.KernelHeap.{Heap, align_up, initialize}
use another_os.KernelHeap.Header.{header_size}
use another_os.KernelHeap.Blocks.{block, Blocks, IsHeap}
use another_os.KernelHeap.FirstFit.{Found}
use another_os.KernelHeap.Initialize.{initialize-IsHeap}
use another_os.KernelHeap.Spec.{find, place, carve}
use another_os.KernelHeap.Undo.{regained}
use another_os.Processes.{
  Bytes, Registers, ProcessHelper, process_size, node_size, filename_offset, cleared,
  kernel_process, create_thread, remove_thread, create_kernel_process,
}
use another_os.Processes.Registry.{Registered, create_kernel_process-Registered}
use another_os.Processes.Threads.{OnStack, remove-create}
use another_os.Scheduler.{Thread, stopped}

abbrev unmade : Heap
unmade = record { start_address = 0; end_address = 0; first_header = 0; mem = λ a. 0 }

made :
    (h : Heap) × (initialize 4096 65536 unmade ≡ ok h)
    × IsHeap h ((4096, block false 61420) ∷ [])
    × (h.start_address ≡ 4096)
    × (h.end_address ≡ 65536)
    × ((a : ℕ) → a < 4096 → h.mem a ≡ 0)
made =
    initialize-IsHeap 4096 65536 unmade (omega arith) (omega arith) (omega arith) (omega arith)
      (omega arith)

thread_found : find (align_up 36 4) ((4096, block false 61420) ∷ []) ≢ 0
unfolding find align_up
thread_found e = omega (arith, e)

stack_found : find (align_up 4096 4) (place (align_up 36 4) ((4096, block false 61420) ∷ [])) ≢ 0
unfolding find place carve align_up
stack_found e = omega (arith, e)

few_blocks : length (place (align_up 36 4) ((4096, block false 61420) ∷ [])) < 5
unfolding place carve align_up
few_blocks = omega arith

remove-create_example :
    (f : Found (align_up 4096 4) (place (align_up 36 4) ((4096, block false 61420) ∷ [])))
    × (t : Thread) × (r : Registers) × (m' : Bytes) × (h1 : Heap) × (h2 : Heap) × (create_thread 5
          36 0xC0101000 true 0 0
          (λ a. 1)
          made.0
        ≡ ok (find (align_up 36 4) ((4096, block false 61420) ∷ []) + header_size, (t, r, m'), h1))
    × OnStack (f.at + header_size) t r
    × (remove_thread t h1 ≡ ok (record t { state = stopped }, h2))
    × IsHeap h2 (f.front ++ ((f.at, block false (regained (align_up 4096 4) f.taken)) ∷ f.back))
remove-create_example =
    remove-create 5 36 0xC0101000 true 0 0 (λ a. 1) made.2 ((λ e. cc), tt) (omega arith) few_blocks
      thread_found stack_found

-- No process yet; the name lies at 100.
abbrev no_process : ProcessHelper
no_process = record {
  current_pid = 1;
  processes = cleared.threads;
  process_at = λ a. cleared;
  bytes = λ a. a % 2 ^ 8;
  heap = made.0;
}

no_process-Registered : Registered no_process ((4096, block false 61420) ∷ []) []
no_process-Registered = record {
  heap = made.2;
  queue = record { links = tt; distinct = tt; head = refl; tail = refl; size = refl };
  owned = tt;
  next = omega arith;
  numbered = tt;
}

process_found : find (align_up process_size 4) ((4096, block false 61420) ∷ []) ≢ 0
unfolding find align_up
process_found e = omega (arith, e)

abbrev with_process : Blocks
with_process = place (align_up process_size 4) ((4096, block false 61420) ∷ [])

node_found : find (align_up node_size 4) with_process ≢ 0
unfolding find place carve align_up
node_found e = omega (arith, e)

few : length with_process < 5
unfolding place carve align_up
few = omega arith

create_kernel_process-Registered_example :
    let proc = find (align_up process_size 4) ((4096, block false 61420) ∷ []) + header_size in
    let node = find (align_up node_size 4) with_process + header_size in
    (s' : ProcessHelper) × (create_kernel_process 5 0xC0108000 100 no_process ≡ ok (proc, s'))
    × Registered s' (place (align_up node_size 4) with_process) ((node, proc) ∷ [])
    × (s'.process_at proc ≡ kernel_process 0xC0108000 1)
    × Unit {0}
    × ((k : ℕ) → k < 15 → s'.bytes (proc + filename_offset + k) ≡ (100 + k) % 2 ^ 8)
create_kernel_process-Registered_example =
    create_kernel_process-Registered 5 0xC0108000 100 no_process-Registered (omega (arith, made.3))
      (omega arith) few process_found node_found
