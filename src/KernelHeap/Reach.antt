-- ===== src/KernelHeap/Reach.antt =====
-- The heaps that a run of the kernel can reach with src/arch/x86/mem/heap.cpp, by allocations, by
-- frees of addresses that are allocated, and by writes of words inside allocated blocks.
use another_os.Base.{
  ℕ, ◌+◌, ◌-◌, ◌%◌, ◌^◌, ◌≤◌, ◌<◌, ◌≡◌, ◌≢◌, ap, arith, true, false, [], ◌∷◌, ◌++◌, length,
}
use mathlib.Core.Path.{subst}
use another_os.KernelHeap.{Heap, Run, ok, align_up, initialize, malloc, free, page_size, store}
use another_os.KernelHeap.Header.{header_size}
use another_os.KernelHeap.Blocks.{block, Blocks, IsHeap}
use another_os.KernelHeap.Spec.{find, place, give_back}
use another_os.KernelHeap.Coalesced.{IsCoalesced, place-IsCoalesced, give_back-IsCoalesced}
use another_os.KernelHeap.Malloc.{malloc-place}
use another_os.KernelHeap.Free.{free-give_back}
use another_os.KernelHeap.Write.{store-IsHeap}
use another_os.KernelHeap.Initialize.{initialize-IsHeap}

-- `Reach h bs`: the heap is `h`, and its blocks are `bs`.
pub data Reach : Heap → Blocks → Type 0 where
  start :
      (h : Heap) {h' : Heap} (start end : ℕ)
      → page_size ≤ start
      → start + header_size ≤ end
      → end < 2 ^ 32
      → start % page_size ≡ 0
      → end % page_size ≡ 0
      → initialize start end h ≡ ok h'
      → Reach h' ((start, block false (end - start - header_size)) ∷ [])
  allocate :
      {h h' : Heap} {bs : Blocks} (fuel size ptr : ℕ)
      → Reach h bs
      → length bs < fuel
      → find (align_up size 4) bs ≢ 0
      → malloc fuel size h ≡ ok (ptr, h')
      → Reach h' (place (align_up size 4) bs)
  give :
      {h h' : Heap} (xs : Blocks) (p n : ℕ) (ys : Blocks)
      → Reach h (xs ++ ((p, block true n) ∷ ys))
      → free (p + header_size) h ≡ ok h'
      → Reach h' (give_back xs p n ys)
  write :
      {h : Heap} (xs : Blocks) (p n : ℕ) (ys : Blocks) (a v : ℕ)
      → Reach h (xs ++ ((p, block true n) ∷ ys))
      → p + header_size ≤ a
      → a + 4 ≤ p + header_size + n
      → Reach (record h { mem = store h.mem a v }) (xs ++ ((p, block true n) ∷ ys))

-- A run has one outcome.
ok_inj : {A : Type 0} {r : Run A} {a b : A} → r ≡ ok a → r ≡ ok b → a ≡ b
ok_inj e f = cc

-- Every heap that is reached, by allocations, frees and writes inside allocated blocks, is valid:
-- its headers tile the heap without overlap and are linked both ways. No two free blocks are
-- neighbours.
pub Reach-IsHeap : {h : Heap} {bs : Blocks} → Reach h bs → IsHeap h bs × IsCoalesced bs
Reach-IsHeap (start h s e low room small ws we made) =
    let (h', made', v, _, _, _) = initialize-IsHeap s e h ws we low room small in
    (
      subst (λ k. IsHeap k ((s, block false (e - s - header_size)) ∷ [])) (ok_inj made' made) v,
      ((λ f. cc), tt),
    )
Reach-IsHeap (allocate {bs} fuel size ptr r enough found e) =
    let (v, c) = Reach-IsHeap r in
    let (h', e', s) = malloc-place fuel size v enough found in
    (
      subst (λ k. IsHeap k (place (align_up size 4) bs)) (ap (λ (x : ℕ × Heap). x.1) (ok_inj e' e))
          s.heap,
      place-IsCoalesced (align_up size 4) bs c,
    )
Reach-IsHeap (give {h} xs p n ys r e) =
    let (v, c) = Reach-IsHeap r in
    let (h', e', f) = free-give_back h xs ys p n v in
    (
      subst (λ k. IsHeap k (give_back xs p n ys)) (ok_inj e' e) f.heap,
      give_back-IsCoalesced xs p n ys c,
    )
Reach-IsHeap (write {h} xs p n ys a v r l u) =
    let (valid, c) = Reach-IsHeap r in (store-IsHeap h xs p n ys a v valid l (omega arith), c)
