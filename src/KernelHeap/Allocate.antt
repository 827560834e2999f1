-- ===== src/KernelHeap/Allocate.antt =====
-- `Heap::InternalAllocate` of src/arch/x86/mem/heap.cpp.
use another_os.Base.{
  ℕ, zero, suc, ◌+◌, ◌-◌, ◌^◌, ◌≤◌, ◌<◌, ◌≡◌, ◌≢◌, ◌⊎◌, inl, inr, refl, true, false, [], ◌∷◌, arith,
  ◌∙◌, Bool-cases, add32, sub32, leb→le, leb_false→lt, le→leb, lt→leb, leb, length,
}
use another_os.Base.Links.{head_or, head_or-cons, head_or-ne_default}
use another_os.KernelHeap.{
  Mem, store, ok, first_free_from, minimal_split_size, page_size, set_prev, claim,
}
use another_os.KernelHeap.Header
use another_os.KernelHeap.Header.{header_size, memory_header_magic}
use another_os.KernelHeap.Blocks.{Block, block, Blocks, HeaderAt, Tiled, Tiled-le, Chain}
use another_os.KernelHeap.Spec.{find, carve}
use another_os.KernelHeap.Splice.{le-head, prev-head, head-pos, Replaced}

-- The loop of `FirstFree` finds the first block that fits.
pub first_free_from-find :
    (fuel n : ℕ) (m : Mem) (before lo hi : ℕ) (bs : Blocks)
    → 0 < lo
    → Tiled lo bs hi
    → Chain m before bs 0
    → length bs < fuel
    → first_free_from fuel m n (head_or bs 0) ≡ ok (find n bs)
unfolding first_free_from find
first_free_from-find zero n m before lo hi bs pos t c f = absurd (omega arith)
first_free_from-find (suc fuel) n m before lo hi [] pos t c f = refl
first_free_from-find (suc fuel) n m before lo hi ((p, b) ∷ xs) pos t c f =
    let at = c.0 in
    let ih =
      first_free_from-find fuel n m p (p + header_size + b.size) hi xs (omega arith) t.3 c.1
        (omega arith) in
    ground (arith, ih)

module _ (m : Mem) (p n : ℕ) (b : Block) (before e hi : ℕ) (ys : Blocks) where
  -- The block at `p` is free and large enough, and `ys` lie behind it.
  pub record Claimable : Type 0 where
    pub low : page_size ≤ p
    pub free : b.used ≡ false
    pub large : n ≤ b.size
    pub ends : e ≡ p + header_size + b.size
    pub back : Tiled e ys hi
    pub small : hi ≤ 2 ^ 32
    pub here : HeaderAt m p (head_or ys 0) before b
    pub behind : Chain m p ys 0

-- Memory after a split, with every value read spelled out; `q` is the new block.
abbrev Filled : Mem → ℕ → ℕ → ℕ → Mem
Filled m p q rest =
    store (store (store m (Header.allocated q) 0) (Header.size q) rest) (Header.prev q) p

abbrev Carved : Mem → ℕ → ℕ → ℕ → ℕ → ℕ → Mem
Carved m p q n rest after =
    let m = store (Filled m p q rest) (Header.next q) after in
    let m = store (set_prev m after q) (Header.magic q) memory_header_magic in
    store (store (store m (Header.next p) q) (Header.allocated p) 1) (Header.size p) n

module _ (m : Mem) (p q : ℕ) (room : p + header_size ≤ q) where
  size-filled : store m (Header.allocated q) 0 (Header.size p) ≡ m (Header.size p)
  unfolding store
  size-filled = ground arith

  next-Filled : (rest : ℕ) → Filled m p q rest (Header.next p) ≡ m (Header.next p)
  unfolding store
  next-Filled rest = ground arith

  next-linked :
      (rest after : ℕ)
      → store (Filled m p q rest) (Header.next q) after (Header.next p) ≡ m (Header.next p)
  unfolding store
  next-linked rest after = ground arith

module _ {m : Mem} {p n : ℕ} {b : Block} {before e hi : ℕ} {ys : Blocks}
    (c : Claimable m p n b before e hi ys) where
  claim-Carved :
      n + header_size + 4 ≤ b.size
      → claim m p n ≡ Carved m p (p + n + header_size) n (b.size - n - header_size) (head_or ys 0)
  unfolding claim
  claim-Carved large =
      let room : p + header_size + b.size ≤ 2 ^ 32 = omega (arith, Tiled-le e ys hi c.back) in
      let nb : add32 (add32 p n) header_size ≡ p + n + header_size = omega arith in
      let sz : sub32 (sub32 b.size n) header_size ≡ b.size - n - header_size = omega arith in
      let test : leb (add32 (add32 n header_size) minimal_split_size) b.size ≡ true =
        le→leb _ _ (omega arith) in
      let apart : p + header_size ≤ p + n + header_size = omega arith in
      rw (
        c.here.size,
        test,
        nb,
        size-filled m p (p + n + header_size) apart,
        c.here.size,
        sz,
        next-Filled m p (p + n + header_size) apart _,
        c.here.next,
        next-linked m p (p + n + header_size) apart _ _,
        c.here.next,
      )

  claim-whole :
      b.size < n + header_size + 4
      → claim m p n ≡ store (store m (Header.allocated p) 1) (Header.size p) n
  unfolding claim
  claim-whole small =
      let room : p + header_size + b.size ≤ 2 ^ 32 = omega (arith, Tiled-le e ys hi c.back) in
      let test : leb (add32 (add32 n header_size) minimal_split_size) b.size ≡ false =
        lt→leb _ _ (omega arith) in
      rw (c.here.size, test)

-- The block behind, if there is one, lies beyond `e`.
abbrev pub IsBeyond : ℕ → ℕ → Type 0
IsBeyond e after = (after ≡ 0) ⊎ (e ≤ after)

pub head-IsBeyond : (e : ℕ) (ys : Blocks) (hi : ℕ) → Tiled e ys hi → IsBeyond e (head_or ys 0)
head-IsBeyond e [] hi t = inl refl
head-IsBeyond e ((p, b) ∷ ys) hi t = inr t.0

module _ (m : Mem) (p q n rest e after before : ℕ) (at : q ≡ p + n + header_size)
    (ends : e ≡ q + header_size + rest) (far : IsBeyond e after) where
  Carved_first :
      m (Header.magic p) ≡ memory_header_magic
      → m (Header.prev p) ≡ before
      → HeaderAt (Carved m p q n rest after) p q before (block true n)
  unfolding store set_prev
  Carved_first h k = ground arith

  Carved_second : HeaderAt (Carved m p q n rest after) q after p (block false rest)
  unfolding store set_prev
  Carved_second = ground arith

  Carved_beside :
      (a : ℕ)
      → (a < p) ⊎ (e ≤ a)
      → (after ≢ 0 → a ≢ Header.prev after)
      → Carved m p q n rest after a ≡ m a
  unfolding store set_prev
  Carved_beside a h ne = ground arith

  Carved_behind : after ≢ 0 → Carved m p q n rest after (Header.prev after) ≡ q
  unfolding store set_prev
  Carved_behind h = ground arith

-- Writing the header of the block at `p` and nothing else.
module _ (m : Mem) (p n : ℕ) (b : Block) (before after : ℕ)
    (here : HeaderAt m p after before b) where
  Taken_here :
      HeaderAt
        (store (store m (Header.allocated p) 1) (Header.size p) n)
        p
        after
        before
        (block true n)
  unfolding store
  Taken_here = ground arith

Taken_beside :
    (m : Mem) (p n e a : ℕ)
    → p + header_size ≤ e
    → (a < p) ⊎ (e ≤ a)
    → store (store m (Header.allocated p) 1) (Header.size p) n a ≡ m a
unfolding store
Taken_beside m p n e a k h = ground arith

module _ {m : Mem} {p n : ℕ} {b : Block} {before e hi : ℕ} {ys : Blocks}
    (c : Claimable m p n b before e hi ys) where
  ends : e ≡ p + header_size + b.size
  ends = c.ends

  Carved-Replaced :
      (q rest : ℕ)
      → q ≡ p + n + header_size
      → e ≡ q + header_size + rest
      → Replaced m
          (Carved m p q n rest (head_or ys 0))
          p
          before
          e
          hi
          ((p, block true n) ∷ (q, block false rest) ∷ [])
          ys
  Carved-Replaced q rest at to = record {
    chain = (
      Carved_first m p q n rest e _ before at to far c.here.magic c.here.prev,
      (Carved_second m p q n rest e _ before at to far, tt),
    );
    beside = λ a h k ne.
        Carved_beside m p q n rest e _ before at to far a k
          (λ d. omega (arith, head_or-ne_default ys 0 hi d));
    behind = λ ne. rw (head_or-cons ys hi 0 ne) (
        Carved_behind m p q n rest e _ before at to far
          (head-pos e ys hi (omega (arith, ends)) c.back ne));
  }
    where
      far : IsBeyond e (head_or ys 0)
      far = head-IsBeyond e ys hi c.back

  Taken-Replaced :
      Replaced m
        (store (store m (Header.allocated p) 1) (Header.size p) n)
        p
        before
        e
        hi
        ((p, block true n) ∷ [])
        ys
  Taken-Replaced = record {
    chain = (Taken_here m p n b before (head_or ys 0) c.here, tt);
    beside = λ a h k ne. Taken_beside m p n e a (omega (arith, ends)) k;
    behind = λ ne.
        Taken_beside m p n e _ (omega (arith, ends)) (inr (omega (arith, le-head e ys hi c.back)))
        ∙ prev-head m p hi ys c.behind ne;
  }

  -- `InternalAllocate` leaves the blocks of `carve` in place of the block that it takes.
  pub claim-Replaced : n ≤ b.size → Replaced m (claim m p n) p before e hi (carve n p b) ys
  unfolding carve
  claim-Replaced h = elim (Bool-cases (leb (n + header_size + 4) b.size)) [
    | inl large ↦
        rw (large, claim-Carved c (leb→le _ _ large))
          (Carved-Replaced (p + n + header_size) (b.size - n - header_size) refl
            (omega (arith, leb→le _ _ large, ends)))
    | inr small ↦ rw (small, claim-whole c (leb_false→lt _ _ small)) Taken-Replaced
  ]
