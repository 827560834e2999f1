-- ===== src/KernelHeap/Spec.antt =====
-- What the heap of src/arch/x86/mem/heap.cpp does to its list of blocks.
use another_os.Base.{ℕ, ◌+◌, ◌-◌, Bool, true, false, not, ◌&&◌, [], ◌∷◌, ◌++◌, if◌then◌else◌, leb}
use another_os.KernelHeap.Header.{header_size}
use another_os.KernelHeap.Blocks.{Block, block, Blocks}

abbrev pub fits : ℕ → Block → Bool
fits n b = not b.used && leb n b.size

-- First fit: the address of the header, or 0.
unfoldable pub find : ℕ → Blocks → ℕ
find n [] = 0
find n ((p, b) ∷ xs) = if fits n b then p else find n xs

-- The block at `p` gives its first `n` bytes; the rest is a block if it has a header and a word.
unfoldable pub carve : ℕ → ℕ → Block → Blocks
carve n p b =
    if leb (n + header_size + 4) b.size
    then (p, block true n) ∷ (p + n + header_size, block false (b.size - n - header_size)) ∷ []
    else (p, block true n) ∷ []

-- First fit, with the block taken.
unfoldable pub place : ℕ → Blocks → Blocks
place n [] = []
place n ((p, b) ∷ xs) = if fits n b then carve n p b ++ xs else (p, b) ∷ place n xs

-- A free block takes in the block behind it, if that is free.
unfoldable pub absorb : ℕ → ℕ → Blocks → Blocks
absorb p n [] = (p, block false n) ∷ []
absorb p n ((q, b) ∷ ys) =
    if b.used
    then (p, block false n) ∷ (q, b) ∷ ys
    else (p, block false (n + b.size + header_size)) ∷ ys

-- The block of `n` bytes at `p` becomes free between `xs` and `ys`: it is taken in by the block
-- before it, if that is free, and takes in the one behind.
unfoldable pub give_back : Blocks → ℕ → ℕ → Blocks → Blocks
give_back [] p n ys = absorb p n ys
give_back ((q, b) ∷ []) p n ys =
    if b.used then (q, b) ∷ absorb p n ys else absorb q (b.size + n + header_size) ys
give_back (x ∷ y ∷ xs) p n ys = x ∷ give_back (y ∷ xs) p n ys
