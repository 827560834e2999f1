-- ===== src/Processes/Threads.antt =====
-- A thread's stack, from its creation to its removal (src/arch/x86/scheduler/thread.cpp).
use mathlib.Core.Path.{subst}
use another_os.Base.{
  ℕ, ◌+◌, ◌^◌, ◌≡◌, ◌≢◌, ◌≤◌, ◌<◌, ◌∙◌, refl, sym, ap, arith, Bool, false, ◌∷◌, ◌++◌, length, ok,
  ◌>>=◌,
}
use another_os.KernelHeap.{Heap, align_up, free, operator_new}
use another_os.KernelHeap.Header.{header_size}
use another_os.KernelHeap.Blocks.{block, Blocks, IsHeap}
use another_os.KernelHeap.Coalesced.{IsCoalesced, place-IsCoalesced}
use another_os.KernelHeap.FirstFit.{align_up_four, Found}
use another_os.KernelHeap.Malloc.{malloc-place}
use another_os.KernelHeap.Spec.{find, place}
use another_os.KernelHeap.Undo.{regained, malloc-free}
use another_os.Processes.{
  Bytes, Registers, thread_stack_size, registers_size, create_from_function, create_thread,
  remove_thread,
}
use another_os.Scheduler.{Thread, stopped}

-- The saved registers lie at the end of the thread's stack, inside it, and its kernel stack pointer
-- is behind it.
pub record OnStack (stack : ℕ) (t : Thread) (r : Registers) : Type 0 where
  pub own : t.stack ≡ stack
  pub inside : (stack ≤ t.regs_ptr) × (t.regs_ptr + registers_size ≡ stack + thread_stack_size)
  pub top : r.esp ≡ stack + thread_stack_size

create_from_function-OnStack :
    (stack entry : ℕ) (kernel : Bool) (parent siblings : ℕ) (m : Bytes)
    → stack + thread_stack_size < 2 ^ 32
    → let made = create_from_function stack entry kernel parent siblings m in
      OnStack stack (made.0) (made.1)
unfolding create_from_function
create_from_function-OnStack stack entry kernel parent siblings m h = record {
  own = refl;
  inside = (omega arith, omega arith);
  top = omega arith;
}

-- On a valid heap without free neighbours, where first fit finds a block for the thread and then
-- one for its stack, `CreateFromFunction` returns a thread whose saved registers lie at the end of
-- its stack. `RemoveThread` then returns it stopped, and the heap is valid with the stack's block
-- free again.
pub remove-create :
    {h : Heap} {bs : Blocks} (fuel thread_size entry : ℕ) (kernel : Bool) (parent siblings : ℕ)
    (m : Bytes)
    → IsHeap h bs
    → IsCoalesced bs
    → length bs < fuel
    → length (place (align_up thread_size 4) bs) < fuel
    → find (align_up thread_size 4) bs ≢ 0
    → find (align_up thread_stack_size 4) (place (align_up thread_size 4) bs) ≢ 0
    → (f : Found (align_up thread_stack_size 4) (place (align_up thread_size 4) bs)) × (t : Thread)
      × (r : Registers) × (m' : Bytes) × (h1 : Heap) × (h2 : Heap) × (create_thread fuel thread_size
            entry kernel parent siblings m h
          ≡ ok (find (align_up thread_size 4) bs + header_size, (t, r, m'), h1))
      × OnStack (f.at + header_size) t r
      × (remove_thread t h1 ≡ ok (record t { state = stopped }, h2))
      × IsHeap h2 (
          f.front
          ++ ((f.at, block false (regained (align_up thread_stack_size 4) f.taken)) ∷ f.back))
unfolding create_thread remove_thread operator_new
remove-create {h} {bs} fuel thread_size entry kernel parent siblings m valid coalesced enough
      enough' found found' =
    let n = align_up thread_size 4 in
    let (g, run, served) = malloc-place fuel thread_size valid enough found in
    let (h1, run', served') = malloc-place fuel thread_stack_size served.heap enough' found' in
    let (f, h2, both, valid') =
      malloc-free fuel thread_stack_size served.heap (place-IsCoalesced n bs coalesced) enough'
        found' in
    let stack = find (align_up thread_stack_size 4) (place n bs) + header_size in
    let made = create_from_function stack entry kernel parent siblings m in
    let on : OnStack stack (made.0) (made.1) =
      create_from_function-OnStack stack entry kernel parent siblings m
        (omega (arith, served'.below, served.heap.in_range, align_up_four thread_stack_size)) in
    let freed : free (made.0).stack h1 ≡ ok h2 =
      ap (λ a. free a h1) on.own ∙ sym (ap (λ q. q >>= λ r. free r.0 r.1) run') ∙ both in
    (
      f,
      made.0,
      made.1,
      made.2,
      h1,
      h2,
      rw (run, run') refl,
      subst (λ a. OnStack (a + header_size) (made.0) (made.1)) f.address on,
      rw freed refl,
      valid',
    )
