-- ===== src/Processes/Registry.antt =====
-- The kernel's processes and their list (src/arch/x86/scheduler/process.cpp).
use mathlib.Core.Path.{subst}
use another_os.Base.{
  if◌then◌else◌, ℕ, suc, ◌+◌, ◌%◌, ◌^◌, ◌≤◌, ◌<◌, ◌≡◌, ◌≢◌, ◌∙◌, refl, sym, ap, arith, false, [],
  ◌∷◌, ◌++◌, All, All-append, length, length-append, ok, ◌==◌, ==_false, ==_refl,
}
use another_os.KernelHeap.{align_up, operator_new}
use another_os.KernelHeap.Header.{header_size}
use another_os.KernelHeap.Blocks.{Blocks, IsHeap, Clear}
use another_os.KernelHeap.FirstFit.{align_up_four}
use another_os.KernelHeap.Lives.{Lives, place-Lives, placed-Lives, Lives-weaken, Clear-apart}
use another_os.KernelHeap.Malloc.{malloc-place}
use another_os.KernelHeap.Spec.{find, place}
use another_os.Queue.{push_back}
use another_os.Queue.Chains.{Nodes, IsQueue, has}
use another_os.Queue.Insert.{push-IsQueue}
use another_os.Processes.Memory.{memset_lem, memcpy_lem}
use another_os.Processes.{
  Process, ProcessHelper, process_size, node_size, kernel_process, set_up, register_process,
  create_kernel_process, filename_offset, memset,
}

-- The processes are numbered in order from `i` on, modulo `2 ^ 32`.
abbrev pub Numbered : (ℕ → Process) → ℕ → Nodes → Type 0
Numbered at i [] = Unit
Numbered at i ((p, v) ∷ xs) = ((at v).id ≡ i % 2 ^ 32) × Numbered at (suc i) xs

-- The queue stands for the list `xs`, whose nodes and processes lie in blocks of the heap, and whose
-- processes have the numbers from 1 on.
pub record Registered (s : ProcessHelper) (bs : Blocks) (xs : Nodes) : Type 0 where
  pub heap : IsHeap s.heap bs
  pub queue : IsQueue s.processes xs
  pub owned : All (λ x. Lives 1 x.0 bs × Lives 1 x.1 bs) xs
  pub next : s.current_pid ≡ (length xs + 1) % 2 ^ 32
  pub numbered : Numbered s.process_at 1 xs

Numbered-append :
    (at : ℕ → Process) (i : ℕ) (xs ys : Nodes)
    → Numbered at i xs
    → Numbered at (i + length xs) ys
    → Numbered at i (xs ++ ys)
Numbered-append at i [] ys a b =
    let e : i + 0 ≡ i = omega arith in subst (λ j. Numbered at j ys) e b
Numbered-append at i ((p, v) ∷ xs) ys a b =
    let e : i + suc (length xs) ≡ suc i + length xs = omega arith in
    (a.0, Numbered-append at (suc i) xs ys a.1 (subst (λ j. Numbered at j ys) e b))

Numbered-frame :
    (at at' : ℕ → Process) (i : ℕ) (xs : Nodes)
    → All (λ x. at' x.1 ≡ at x.1) xs
    → Numbered at i xs
    → Numbered at' i xs
Numbered-frame at at' i [] same h = tt
Numbered-frame at at' i ((p, v) ∷ xs) same h =
    (ap (λ r. r.id) same.0 ∙ h.0, Numbered-frame at at' (suc i) xs same.1 h.1)

abbrev Own : Blocks → ℕ × ℕ → Type 0
Own bs x = Lives 1 x.0 bs × Lives 1 x.1 bs

Own-place : (n : ℕ) (bs : Blocks) (xs : Nodes) → All (Own bs) xs → All (Own (place n bs)) xs
Own-place n bs [] o = tt
Own-place n bs ((p, v) ∷ xs) o =
    ((place-Lives 1 p n bs o.0.0, place-Lives 1 v n bs o.0.1), Own-place n bs xs o.1)

-- A new block is none of those.
module _ (n ptr : ℕ) (bs : Blocks) (some : 0 < n) (clear : All (Clear ptr n) bs) where
  has-fresh : (xs : Nodes) → All (Own bs) xs → has ptr xs ≡ false
  has-fresh [] o = refl
  has-fresh ((p, v) ∷ xs) o =
      let d : p ≢ ptr = Clear-apart 1 p n ptr bs (omega arith) some o.0.0 clear in
      ground (arith, d, has-fresh xs o.1)

  kept-fresh :
      (at : ℕ → Process) (made : Process) (xs : Nodes)
      → All (Own bs) xs
      → All (λ x. (if ptr == x.1 then made else at x.1) ≡ at x.1) xs
  kept-fresh at made [] o = tt
  kept-fresh at made ((p, v) ∷ xs) o =
      let d : v ≢ ptr = Clear-apart 1 v n ptr bs (omega arith) some o.0.1 clear in
      (rw (==_false ptr v (λ e. d (sym e))) refl, kept-fresh at made xs o.1)

-- On a registry whose heap has room for a process and for a node, with the name below the heap:
-- `CreateKernelProcess` returns, with any fuel above the numbers of blocks. The process returned has
-- the next number, stands last in the list and is none of those before, which keep their fields; its
-- file name holds the 15 bytes of the name. The registry stays one whose list, heap and numbers
-- agree.
pub create_kernel_process-Registered :
    {s : ProcessHelper} {bs : Blocks} {xs : Nodes} (fuel boot_pt name : ℕ)
    → Registered s bs xs
    → name + 15 ≤ s.heap.start_address
    → length bs < fuel
    → length (place (align_up process_size 4) bs) < fuel
    → find (align_up process_size 4) bs ≢ 0
    → find (align_up node_size 4) (place (align_up process_size 4) bs) ≢ 0
    → let bs' = place (align_up process_size 4) bs in
      let proc = find (align_up process_size 4) bs + header_size in
      let node = find (align_up node_size 4) bs' + header_size in
      (s' : ProcessHelper) × (create_kernel_process fuel boot_pt name s ≡ ok (proc, s'))
      × Registered s' (place (align_up node_size 4) bs') (xs ++ (node, proc) ∷ [])
      × (s'.process_at proc ≡ kernel_process boot_pt s.current_pid)
      × All (λ x. s'.process_at x.1 ≡ s.process_at x.1) xs
      × ((k : ℕ) → k < 15 → s'.bytes (proc + filename_offset + k) ≡ s.bytes (name + k))
unfolding create_kernel_process register_process set_up operator_new
create_kernel_process-Registered {s} {bs} {xs} fuel boot_pt name r low enough enough' found found' =
    let n = align_up process_size 4 in
    let n' = align_up node_size 4 in
    let bs' = place n bs in
    let (h1, run, served) = malloc-place fuel process_size r.heap enough found in
    let (h2, run', served') = malloc-place fuel node_size served.heap enough' found' in
    let proc = find n bs + header_size in
    let node = find n' bs' + header_size in
    let made = set_up boot_pt name proc (record s { heap = h1 }) in
    let s' = record made { heap = h2; processes = push_back proc node s.processes } in
    let wide : 0 < n = omega (arith, align_up_four process_size) in
    let wide' : 0 < n' = omega (arith, align_up_four node_size) in
    let own = Own-place n bs xs r.owned in
    let kept =
      kept-fresh n proc bs wide served.clear s.process_at (kernel_process boot_pt s.current_pid) xs
        r.owned in
    let new : s'.process_at proc ≡ kernel_process boot_pt s.current_pid = rw (==_refl proc) refl in
    (
      s',
      rw (run, run') refl,
      record {
        heap = served'.heap;
        queue =
            (push-IsQueue proc node xs s.processes r.queue (omega arith)
              (has-fresh n' node bs' wide' served'.clear xs own)).0;
        owned = All-append (Own (place n' bs')) xs ((node, proc) ∷ []) (Own-place n' bs' xs own) (
          (
            Lives-weaken 1 n' node (place n' bs') wide' (placed-Lives n' bs' found'),
            place-Lives 1 proc n' bs' (Lives-weaken 1 n proc bs' wide (placed-Lives n bs found)),
          ),
          tt,
        );
        next = omega (arith, r.next, length-append xs ((node, proc) ∷ []));
        numbered =
            Numbered-append s'.process_at 1 xs ((node, proc) ∷ [])
              (Numbered-frame s.process_at s'.process_at 1 xs kept r.numbered)
              (ap (λ q. q.id) new ∙ r.next ∙ omega arith, tt);
      },
      new,
      kept,
      λ k l.
          memcpy_lem (proc + filename_offset) name 15 (memset proc 0 process_size s.bytes) k
            (omega (arith, low, served.above)) l
          ∙ memset_lem proc 0 process_size s.bytes (name + k)
          ∙ ground (arith, low, served.above, l),
    )
