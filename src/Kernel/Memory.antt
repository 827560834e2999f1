-- ===== src/Kernel/Memory.antt =====
-- The copy of the boot loader's information (src/arch/x86/kernel/kernel.cpp).
use another_os.Base.{
  ℕ, zero, suc, ◌+◌, ◌*◌, ◌<◌, ◌≤◌, ◌≡◌, ◌∙◌, refl, ap, arith, true, false, ◌∷◌, ◌++◌, ◌==◌,
  ==_refl, ==_false,
}
use another_os.Kernel.{copy_words}
use another_os.KernelHeap.{Mem, Heap, store}
use another_os.KernelHeap.Header.{header_size}
use another_os.KernelHeap.Blocks.{block, Blocks}
use another_os.KernelHeap.Reach.{Reach, write}

-- What lies below the copy is as before.
pub copy_words-below : (n dst src a : ℕ) (m : Mem) → a < dst → copy_words n dst src m a ≡ m a
unfolding copy_words store
copy_words-below zero dst src a m l = refl
copy_words-below (suc n) dst src a m l =
    copy_words-below n (dst + 4) (src + 4) a (store m dst (m src)) (omega arith) ∙ ground arith

pub copy_words-at :
    (n dst src j : ℕ) (m : Mem)
    → src + 4 * n ≤ dst
    → j < n
    → copy_words n dst src m (dst + 4 * j) ≡ m (src + 4 * j)
unfolding copy_words store
copy_words-at zero dst src j m apart l = absurd (omega arith)
copy_words-at (suc n) dst src zero m apart l =
    let here : dst + 4 * 0 ≡ dst = omega arith in
    let there : src ≡ src + 4 * 0 = omega arith in
    ap (copy_words n (dst + 4) (src + 4) (store m dst (m src))) here
    ∙ copy_words-below n (dst + 4) (src + 4) dst (store m dst (m src)) (omega arith)
    ∙ rw (==_refl dst) (ap m there)
copy_words-at (suc n) dst src (suc j) m apart l =
    let here : dst + 4 * suc j ≡ dst + 4 + 4 * j = omega arith in
    let there : src + 4 + 4 * j ≡ src + 4 * suc j = omega arith in
    let other : (dst == src + 4 + 4 * j) ≡ false = ==_false dst (src + 4 + 4 * j) (omega arith) in
    ap (copy_words n (dst + 4) (src + 4) (store m dst (m src))) here
    ∙ copy_words-at n (dst + 4) (src + 4) j (store m dst (m src)) (omega arith) (omega arith)
    ∙ rw other (ap m there)

-- The copy stays inside an allocated block.
pub copy_words-Reach :
    (n dst src : ℕ) (h : Heap) (xs : Blocks) (p size : ℕ) (ys : Blocks)
    → Reach h (xs ++ ((p, block true size) ∷ ys))
    → p + header_size ≤ dst
    → dst + 4 * n ≤ p + header_size + size
    → Reach (record h { mem = copy_words n dst src h.mem }) (xs ++ ((p, block true size) ∷ ys))
unfolding copy_words
copy_words-Reach zero dst src h xs p size ys r l u = r
copy_words-Reach (suc n) dst src h xs p size ys r l u =
    copy_words-Reach n (dst + 4) (src + 4) (record h { mem = store h.mem dst (h.mem src) }) xs p
      size ys (write xs p size ys dst (h.mem src) r l (omega arith)) (omega arith) (omega arith)
