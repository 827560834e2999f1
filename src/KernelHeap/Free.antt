-- ===== src/KernelHeap/Free.antt =====
-- `Heap::free` of src/arch/x86/mem/heap.cpp: the block goes back and joins its free neighbours.
use mathlib.Core.List.{append_assoc}
use mathlib.Core.Path.{subst}
use another_os.Base.{
  ℕ, ◌+◌, ◌^◌, ◌≤◌, ◌<◌, ◌≡◌, ◌⊎◌, inl, inr, refl, ◌∙◌, ap, Bool, true, false, [], ◌∷◌, ◌++◌, arith,
  All, All-append, sub32, if◌then◌else◌,
}
use another_os.Base.Links.{head_or, last_or}
use another_os.KernelHeap.{
  Mem, Heap, ok, halt, ◌>>=◌, store, join_prev, join_next, release, free, page_size,
}
use another_os.KernelHeap.Header
use another_os.KernelHeap.Header.{header_size}
use another_os.KernelHeap.Blocks.{
  Block, block, Blocks, Tiled, Tiled-append_right, IsHeap, PayloadKept,
}
use another_os.KernelHeap.Spec.{absorb, give_back}
use another_os.KernelHeap.Join.{
  Joined, join_bounds, join_read, join-IsHeap, join_kept, mark_bounds, mark_read, mark-IsHeap,
  mark_kept, behind_read,
}
use another_os.KernelHeap.Coalesce.{
  Stage, join_next-absorb, join_prev-Joined, join_prev_none, join_prev_used, Joined_same, store_eq,
}
use another_os.KernelHeap.Splice.{kept_trans}

data Snoc : Blocks → Type 0 where
  nil : Snoc []
  snoc : (xs : Blocks) (q : ℕ) (u : Bool) (k : ℕ) → Snoc (xs ++ ((q, block u k) ∷ []))

Snoc-view : (xs : Blocks) → Snoc xs
Snoc-view [] = nil
Snoc-view ((p, b) ∷ xs) = cons p b (Snoc-view xs)
  where
    cons : (p : ℕ) (b : Block) {xs : Blocks} → Snoc xs → Snoc ((p, b) ∷ xs)
    cons p b nil = snoc [] p b.used b.size
    cons p b (snoc xs q u k) = snoc ((p, b) ∷ xs) q u k

give_back-snoc :
    (xs : Blocks) (q : ℕ) (b : Block) (p n : ℕ) (ys : Blocks)
    → give_back (xs ++ ((q, b) ∷ [])) p n ys
      ≡ xs ++ (if b.used then (q, b) ∷ absorb p n ys else absorb q (b.size + n + header_size) ys)
unfolding give_back
give_back-snoc [] q b p n ys = refl
give_back-snoc (x ∷ []) q b p n ys = refl
give_back-snoc (x ∷ y ∷ xs) q b p n ys = ap (λ l. x ∷ l) (give_back-snoc (y ∷ xs) q b p n ys)

-- Both joins, after the block at `p` was marked free.
joins : Mem → ℕ → Mem
joins m p = let (m, block) = join_prev m p in join_next m block

after_block :
    (h : Heap) (xs ys : Blocks) (p : ℕ) (b : Block)
    → IsHeap h (xs ++ ((p, b) ∷ ys))
    → Tiled (p + header_size + b.size) ys h.end_address
after_block h xs ys p b v =
    (Tiled-append_right h.start_address xs ((p, b) ∷ ys) h.end_address v.tiled).3

-- The joins where the block in front is free.
join_both :
    (h : Heap) (xs ys : Blocks) (q p k n : ℕ)
    → IsHeap h (xs ++ ((q, block false k) ∷ (p, block false n) ∷ ys))
    → Stage h
        (joins h.mem p)
        (give_back (xs ++ ((q, block false k) ∷ [])) p n ys)
        (xs ++ ((q, block false k) ∷ []))
        ys
        (Header.allocated p)
unfolding joins
join_both h xs ys q p k n v =
    rw (give_back-snoc xs q (block false k) p n ys, moved)
      (record {
        heap = next.heap;
        front =
            All-append (PayloadKept h.mem _) xs ((q, block false k) ∷ [])
              (kept_trans h.mem mem _ xs kept.0 next.front) ((λ u. cc), tt);
        back = kept_trans h.mem mem _ ys kept.1 next.back;
        same =
            next.same
            ∙ Joined_same h.mem q _ (p + header_size + n) (Header.allocated p) ys h.end_address
                behind (omega arith) (omega (arith, bounds)) (omega (arith, bounds));
      })
  where
    bounds : (page_size ≤ q) × (q + header_size + k ≤ p) × (p + header_size + n < 2 ^ 32)
    bounds = join_bounds h xs ys q p k n v

    kept :
        All (PayloadKept h.mem (Joined h.mem q (k + n + header_size) (head_or ys 0))) xs
        × All (PayloadKept h.mem (Joined h.mem q (k + n + header_size) (head_or ys 0))) ys
    kept = join_kept h xs ys q p k n v

    mem : Mem
    mem = Joined h.mem q (k + n + header_size) (head_or ys 0)

    behind : Tiled (p + header_size + n) ys h.end_address
    behind =
        (Tiled-append_right h.start_address xs ((q, block false k) ∷ (p, block false n) ∷ ys)
          h.end_address v.tiled).3.3

    moved : join_prev h.mem p ≡ (mem, q)
    moved =
        let (hq, hp) = join_read h xs ys q p k n v in
        join_prev-Joined h.mem q p k n (head_or ys 0) (last_or xs 0) hq hp bounds.0 bounds.1
          bounds.2 (beyond ys behind)
      where
        beyond :
            (ys : Blocks)
            → Tiled (p + header_size + n) ys h.end_address
            → (head_or ys 0 ≡ 0) ⊎ (p + header_size ≤ head_or ys 0)
        beyond [] t = inl refl
        beyond (y ∷ ys) t = inr (omega (arith, t.0))

    next :
        Stage
          (record h { mem = mem })
          (join_next mem q)
          (xs ++ absorb q (k + n + header_size) ys)
          xs
          ys
          (Header.allocated p)
    next =
        join_next-absorb (record h { mem = mem }) xs ys q (k + n + header_size)
          (p + header_size + n) (Header.allocated p) (join-IsHeap h xs ys q p k n v) behind
          (omega arith) (omega (arith, bounds)) (omega (arith, bounds))

joins-give_back :
    (h : Heap) {xs : Blocks} (ys : Blocks) (p n : ℕ)
    → Snoc xs
    → IsHeap h (xs ++ ((p, block false n) ∷ ys))
    → Stage h (joins h.mem p) (give_back xs p n ys) xs ys (Header.allocated p)
unfolding joins give_back
joins-give_back h ys p n nil v = rw (join_prev_none h.mem p (mark_read h [] ys p n false v).prev) (
    join_next-absorb h [] ys p n (p + header_size + n) (Header.allocated p) v
      (after_block h [] ys p _ v) (omega arith) (omega arith) (omega arith))
joins-give_back h ys p n (snoc xs q true k) v =
    rw (give_back-snoc xs q (block true k) p n ys, join_prev_used h.mem p q before used)
      (rw (append_assoc xs ((q, block true k) ∷ []) (absorb p n ys)) at (
        join_next-absorb h (xs ++ ((q, block true k) ∷ [])) ys p n (p + header_size + n)
          (Header.allocated p) v
          (after_block h (xs ++ ((q, block true k) ∷ [])) ys p (block false n) v) (omega arith)
          (omega arith) (omega arith)))
  where
    v' : IsHeap h (xs ++ ((q, block true k) ∷ (p, block false n) ∷ ys))
    v' = subst (IsHeap h) (append_assoc xs ((q, block true k) ∷ []) ((p, block false n) ∷ ys)) v

    before : h.mem (Header.prev p) ≡ q
    before = (behind_read h xs ys q p (block true k) (block false n) v').prev

    used : h.mem (Header.allocated q) ≡ 1
    used = (mark_read h xs ((p, block false n) ∷ ys) q k true v').allocated
joins-give_back h ys p n (snoc xs q false k) v =
    join_both h xs ys q p k n
      (subst (IsHeap h) (append_assoc xs ((q, block false k) ∷ []) ((p, block false n) ∷ ys)) v)

-- What `Heap::free` leaves of a heap with the blocks `xs`, an allocated one of `n` bytes at `p`, and
-- `ys`.
pub record Freed (h h' : Heap) (xs : Blocks) (p n : ℕ) (ys : Blocks) : Type 0 where
  pub heap : IsHeap h' (give_back xs p n ys)
  pub front : All (PayloadKept h.mem h'.mem) xs
  pub back : All (PayloadKept h.mem h'.mem) ys
  pub gone : h'.mem (Header.allocated p) ≡ 0

module _ (h : Heap) (xs ys : Blocks) (p n : ℕ) (v : IsHeap h (xs ++ ((p, block true n) ∷ ys))) where
  release-joins : release h.mem p ≡ joins (store h.mem (Header.allocated p) 0) p
  unfolding release joins
  release-joins = refl

  release-Freed : Freed h (record h { mem = release h.mem p }) xs p n ys
  release-Freed =
      let h1 : Heap = record h { mem = store h.mem (Header.allocated p) 0 } in
      let (front, back) = mark_kept h xs ys p n true v in
      let s = joins-give_back h1 ys p n (Snoc-view xs) (mark-IsHeap h xs ys p n true v) in
      rw release-joins (record {
        heap = s.heap;
        front = kept_trans h.mem _ _ xs front s.front;
        back = kept_trans h.mem _ _ ys back s.back;
        gone = s.same ∙ store_eq h.mem (Header.allocated p) 0;
      })

  block_of : sub32 (p + header_size) header_size ≡ p
  block_of = omega (arith, mark_bounds h xs ys p n true v)

  -- On a valid heap, `Heap::free` of the address of an allocated block returns. The block list is
  -- afterwards that of `give_back`, the heap is valid, and no word of any other allocated block has
  -- changed.
  pub free-give_back : (h' : Heap) × (free (p + header_size) h ≡ ok h') × Freed h h' xs p n ys
  unfolding free
  free-give_back =
      let at = mark_read h xs ys p n true v in
      (record h { mem = release h.mem p }, rw (block_of, at.magic, at.allocated), release-Freed)

-- `Heap::free` of a block that is marked free halts.
free-halt :
    (ptr : ℕ) (h : Heap) → h.mem (Header.allocated (sub32 ptr header_size)) ≡ 0 → free ptr h ≡ halt
unfolding free
free-halt ptr h e = ground arith

-- On a valid heap, a second `Heap::free` of the address of an allocated block, right after the first,
-- halts, whichever neighbours the block has joined.
pub free_twice-halt :
    (h : Heap) (xs ys : Blocks) (p n : ℕ)
    → IsHeap h (xs ++ ((p, block true n) ∷ ys))
    → (free (p + header_size) h >>= free (p + header_size)) ≡ halt
free_twice-halt h xs ys p n v =
    let (h', e, f) = free-give_back h xs ys p n v in
    rw e (free-halt (p + header_size) h' (rw (block_of h xs ys p n v) f.gone))
