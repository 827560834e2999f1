-- ===== src/KernelHeap/Join.antt =====
-- Joining two free neighbours in `Heap::free` of src/arch/x86/mem/heap.cpp, and marking a block free.
use another_os.Base.{
  ℕ, ◌+◌, ◌^◌, ◌≤◌, ◌<◌, ◌≡◌, ◌≢◌, ◌⊎◌, inr, refl, ◌∙◌, sym, ap, Bool, false, [], ◌∷◌, ◌++◌, arith,
  All,
}
use another_os.Base.Links.{
  head_or, head_or-append, head_or-cons, head_or-ne_default, last_or, Links-append_left,
  Links-append_right,
}
use another_os.KernelHeap.{Mem, Heap, store, set_prev, page_size}
use another_os.KernelHeap.Header
use another_os.KernelHeap.Header.{header_size, memory_header_magic}
use another_os.KernelHeap.Blocks.{
  Block, block, Blocks, HeaderAt, Tiled, Tiled-append, Tiled-append_left, Tiled-append_right,
  Tiled-le, Tiled-weaken, le-finish, finish, IsHeap, Chain, PayloadKept,
}
use another_os.KernelHeap.Splice.{
  Replaced, splice, le-head, prev-head, head-pos, kept_front, kept_back,
}
use another_os.KernelHeap.Allocate.{IsBeyond, head-IsBeyond}

-- Memory after the block at `p` has taken in the one behind it.
abbrev pub Joined : Mem → ℕ → ℕ → ℕ → Mem
Joined m p n after = set_prev (store (store m (Header.size p) n) (Header.next p) after) after p

module _ (m : Mem) (p e n after before : ℕ) (fits : p + header_size ≤ e)
    (far : IsBeyond e after) where
  Joined_here :
      m (Header.magic p) ≡ memory_header_magic
      → m (Header.prev p) ≡ before
      → m (Header.allocated p) ≡ 0
      → HeaderAt (Joined m p n after) p after before (block false n)
  unfolding store set_prev
  Joined_here h k l = ground arith

  Joined_beside :
      (a : ℕ) → (a < p) ⊎ (e ≤ a) → (after ≢ 0 → a ≢ Header.prev after) → Joined m p n after a ≡ m a
  unfolding store set_prev
  Joined_beside a h ne = ground arith

  Joined_behind : after ≢ 0 → Joined m p n after (Header.prev after) ≡ p
  unfolding store set_prev
  Joined_behind h = ground arith

-- Blocks in the middle of a heap, and what replacing them needs.
module _ (h : Heap) (xs mid mid' ys : Blocks) (p e : ℕ) (m' : Mem) where
  pub replace-IsHeap :
      IsHeap h (xs ++ (mid ++ ys))
      → head_or (mid ++ ys) 0 ≡ p
      → head_or (mid' ++ ys) 0 ≡ p
      → mid' ++ ys ≢ []
      → Tiled (finish h.start_address xs) (mid' ++ ys) h.end_address
      → finish h.start_address xs ≤ p
      → p ≤ e
      → Tiled e ys h.end_address
      → Chain h.mem (last_or mid (last_or xs 0)) ys 0
      → Replaced h.mem m' p (last_or xs 0) e h.end_address mid' ys
      → IsHeap (record h { mem = m' }) (xs ++ (mid' ++ ys))
  replace-IsHeap v old new some tiled fits order back behind r = record {
    low = v.low;
    in_range = v.in_range;
    first =
        v.first
        ∙ head_or-append xs (mid ++ ys) 0
        ∙ ap (head_or xs) (old ∙ sym new)
        ∙ sym (head_or-append xs (mid' ++ ys) 0);
    nonempty = append-ne_nil xs (mid' ++ ys) some;
    chain =
        splice h.mem m' h.start_address h.end_address p e (last_or mid (last_or xs 0)) xs mid' ys
          front fits order back
          (rw (new, ← old) (Links-append_left (HeaderAt h.mem) 0 xs (mid ++ ys) 0 v.chain)) behind
          r;
    tiled = Tiled-append h.start_address xs (mid' ++ ys) h.end_address front tiled;
  }
    where
      front : Tiled h.start_address xs (finish h.start_address xs)
      front = Tiled-append_left h.start_address xs (mid ++ ys) h.end_address v.tiled

      append-ne_nil : (us ws : Blocks) → ws ≢ [] → us ++ ws ≢ []
      append-ne_nil [] ws k e = k e
      append-ne_nil (u ∷ us) ws k e = cc

-- The free blocks at `p` and `q` become one.
module _ (h : Heap) (xs ys : Blocks) (p q n k : ℕ)
    (v : IsHeap h (xs ++ ((p, block false n) ∷ (q, block false k) ∷ ys))) where
  abbrev pair : Blocks
  pair = (p, block false n) ∷ (q, block false k) ∷ []

  abbrev joined : Mem
  joined = Joined h.mem p (n + k + header_size) (head_or ys 0)

  middle : Tiled (finish h.start_address xs) (pair ++ ys) h.end_address
  middle = Tiled-append_right h.start_address xs (pair ++ ys) h.end_address v.tiled

  front : Tiled h.start_address xs (finish h.start_address xs)
  front = Tiled-append_left h.start_address xs (pair ++ ys) h.end_address v.tiled

  linked : Chain h.mem (last_or xs 0) (pair ++ ys) 0
  linked = Links-append_right (HeaderAt h.mem) 0 xs (pair ++ ys) 0 v.chain

  back : Tiled (q + header_size + k) ys h.end_address
  back = middle.3.3

  pub join_bounds : (page_size ≤ p) × (p + header_size + n ≤ q) × (q + header_size + k < 2 ^ 32)
  join_bounds = omega (
    arith,
    middle.0,
    middle.3.0,
    v.low,
    v.in_range,
    le-finish h.start_address xs (pair ++ ys) h.end_address v.tiled,
    Tiled-le (q + header_size + k) ys h.end_address back,
  )

  pub join_read :
      HeaderAt h.mem p q (last_or xs 0) (block false n)
      × HeaderAt h.mem q (head_or ys 0) p (block false k)
  join_read = (linked.0, linked.1.0)

  joined-Replaced :
      Replaced h.mem joined p
        (last_or xs 0)
        (q + header_size + k)
        h.end_address
        ((p, block false (n + k + header_size)) ∷ [])
        ys
  joined-Replaced = record {
    chain = (
      Joined_here h.mem p (q + header_size + k) _ _ _ fits far linked.0.magic linked.0.prev
          linked.0.allocated,
      tt,
    );
    beside = λ a b c ne.
        Joined_beside h.mem p (q + header_size + k) _ _ 0 fits far a c
          (λ d. omega (arith, head_or-ne_default ys 0 h.end_address d));
    behind = λ ne. rw (head_or-cons ys h.end_address 0 ne) (
        Joined_behind h.mem p (q + header_size + k) _ _ 0 fits far
          (head-pos (q + header_size + k) ys h.end_address (omega arith) back ne));
  }
    where
      fits : p + header_size ≤ q + header_size + k
      fits = omega (arith, join_bounds)

      far : IsBeyond (q + header_size + k) (head_or ys 0)
      far = head-IsBeyond (q + header_size + k) ys h.end_address back

  pub join-IsHeap :
      IsHeap (record h { mem = joined }) (xs ++ ((p, block false (n + k + header_size)) ∷ ys))
  join-IsHeap =
      replace-IsHeap h xs pair ((p, block false (n + k + header_size)) ∷ []) ys p
        (q + header_size + k) joined v refl refl (λ e. cc)
        (
          middle.0,
          middle.1,
          omega (arith, middle.2, middle.3.2),
          Tiled-weaken (q + header_size + k) _ ys h.end_address (omega (arith, join_bounds)) back,
        )
        middle.0 (omega (arith, join_bounds)) back linked.1.1 joined-Replaced

  pub join_kept : All (PayloadKept h.mem joined) xs × All (PayloadKept h.mem joined) ys
  join_kept = (
    kept_front h.mem joined h.start_address p (q + header_size + k) xs ys h.end_address front
        middle.0 (omega (arith, join_bounds)) back joined-Replaced.beside,
    kept_back h.mem joined p (q + header_size + k) ys h.end_address back joined-Replaced.beside,
  )

-- The block at `p` is marked free.
module _ (h : Heap) (xs ys : Blocks) (p n : ℕ) (u : Bool)
    (v : IsHeap h (xs ++ ((p, block u n) ∷ ys))) where
  abbrev marked : Mem
  marked = store h.mem (Header.allocated p) 0

  around : Tiled (finish h.start_address xs) ((p, block u n) ∷ ys) h.end_address
  around = Tiled-append_right h.start_address xs ((p, block u n) ∷ ys) h.end_address v.tiled

  ahead : Tiled h.start_address xs (finish h.start_address xs)
  ahead = Tiled-append_left h.start_address xs ((p, block u n) ∷ ys) h.end_address v.tiled

  chained : Chain h.mem (last_or xs 0) ((p, block u n) ∷ ys) 0
  chained = Links-append_right (HeaderAt h.mem) 0 xs ((p, block u n) ∷ ys) 0 v.chain

  pub mark_bounds : (page_size ≤ p) × (p + header_size + n < 2 ^ 32)
  mark_bounds = omega (
    arith,
    around.0,
    v.low,
    v.in_range,
    le-finish h.start_address xs ((p, block u n) ∷ ys) h.end_address v.tiled,
    Tiled-le (p + header_size + n) ys h.end_address around.3,
  )

  pub mark_read : HeaderAt h.mem p (head_or ys 0) (last_or xs 0) (block u n)
  mark_read = chained.0

  marked_here : HeaderAt marked p (head_or ys 0) (last_or xs 0) (block false n)
  unfolding store
  marked_here = let at = chained.0 in ground arith

  marked_beside : (a : ℕ) → (a < p) ⊎ (p + header_size + n ≤ a) → marked a ≡ h.mem a
  unfolding store
  marked_beside a k = ground arith

  marked-Replaced :
      Replaced h.mem marked p
        (last_or xs 0)
        (p + header_size + n)
        h.end_address
        ((p, block false n) ∷ [])
        ys
  marked-Replaced = record {
    chain = (marked_here, tt);
    beside = λ a b c ne. marked_beside a c;
    behind = λ ne.
        marked_beside _
          (inr (omega (arith, le-head (p + header_size + n) ys h.end_address around.3)))
        ∙ prev-head h.mem p h.end_address ys chained.1 ne;
  }

  pub mark-IsHeap : IsHeap (record h { mem = marked }) (xs ++ ((p, block false n) ∷ ys))
  mark-IsHeap =
      replace-IsHeap h xs ((p, block u n) ∷ []) ((p, block false n) ∷ []) ys p (p + header_size + n)
        marked v refl refl (λ e. cc) (around.0, around.1, around.2, around.3) around.0 (omega arith)
        around.3 chained.1 marked-Replaced

  pub mark_kept : All (PayloadKept h.mem marked) xs × All (PayloadKept h.mem marked) ys
  mark_kept = (
    kept_front h.mem marked h.start_address p (p + header_size + n) xs ys h.end_address ahead
        around.0 (omega arith) around.3 marked-Replaced.beside,
    kept_back h.mem marked p (p + header_size + n) ys h.end_address around.3 marked-Replaced.beside,
  )

-- The header of the second of two blocks in a row.
pub behind_read :
    (h : Heap) (xs ys : Blocks) (p q : ℕ) (b d : Block)
    → IsHeap h (xs ++ ((p, b) ∷ (q, d) ∷ ys))
    → HeaderAt h.mem q (head_or ys 0) p d
behind_read h xs ys p q b d v =
    (Links-append_right (HeaderAt h.mem) 0 xs ((p, b) ∷ (q, d) ∷ ys) 0 v.chain).1.0
