-- ===== src/KernelHeap/Write.antt =====
-- What the owner of a block may write (src/arch/x86/mem/heap.cpp).
use another_os.Base.{ℕ, ◌+◌, ◌≤◌, ◌<◌, true, [], ◌∷◌, ◌++◌, arith}
use another_os.KernelHeap.{Mem, Heap, store}
use another_os.KernelHeap.Header.{header_size}
use another_os.KernelHeap.Blocks.{
  Block, block, Blocks, Tiled, Tiled-append_right, le-finish, Chain, Chain-frame, IsHeap,
}

module _ (m : Mem) (a v p : ℕ) (b : Block) (ys : Blocks) (h : p + header_size ≤ a)
    (k : a < p + header_size + b.size) where
  -- A write between the header of `p` and the end of its block changes no header.
  Chain-store :
      (before lo : ℕ) (xs : Blocks) (after hi : ℕ)
      → Tiled lo (xs ++ ((p, b) ∷ ys)) hi
      → Chain m before (xs ++ ((p, b) ∷ ys)) after
      → Chain (store m a v) before (xs ++ ((p, b) ∷ ys)) after
  unfolding store
  Chain-store before lo [] after hi t c =
      let at = c.0 in
      (
        ground arith,
        Chain-frame m (store m a v) p (p + header_size + b.size) ys after hi t.3
            (λ x l u. ground arith) c.1,
      )
  Chain-store before lo ((q, d) ∷ xs) after hi t c =
      let at = c.0 in
      let behind = le-finish (q + header_size + d.size) xs ((p, b) ∷ ys) hi t.3 in
      let front = Tiled-append_right (q + header_size + d.size) xs ((p, b) ∷ ys) hi t.3 in
      (
        ground (arith, behind, front.0),
        Chain-store q (q + header_size + d.size) xs after hi t.3 c.1,
      )

-- A heap stays valid, with the same blocks, when a word inside an allocated block is written.
pub store-IsHeap :
    (h : Heap) (xs : Blocks) (p n : ℕ) (ys : Blocks) (a v : ℕ)
    → IsHeap h (xs ++ ((p, block true n) ∷ ys))
    → p + header_size ≤ a
    → a < p + header_size + n
    → IsHeap (record h { mem = store h.mem a v }) (xs ++ ((p, block true n) ∷ ys))
store-IsHeap h xs p n ys a v valid l u = record {
  low = valid.low;
  in_range = valid.in_range;
  first = valid.first;
  nonempty = valid.nonempty;
  chain =
      Chain-store h.mem a v p (block true n) ys l u 0 h.start_address xs 0 h.end_address valid.tiled
        valid.chain;
  tiled = valid.tiled;
}
