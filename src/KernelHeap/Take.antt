-- ===== src/KernelHeap/Take.antt =====
-- Taking a block out of the heap: the invariant of the whole heap after `InternalAllocate`.
use another_os.Base.{
  ℕ, ◌+◌, ◌%◌, ◌≤◌, ◌<◌, ◌≡◌, ◌≢◌, inl, inr, refl, ◌∙◌, ap, sym, true, [], ◌∷◌, ◌++◌, arith,
  Bool-cases, leb, leb→le, All, All-append,
}
use another_os.Base.Links.{head_or, last_or, head_or-append, Links-append_left, Links-append_right}
use another_os.KernelHeap.{Heap, claim}
use another_os.KernelHeap.Header.{header_size}
use another_os.KernelHeap.Blocks.{
  Block, Blocks, HeaderAt, Tiled, Tiled-append, Tiled-append_left, Tiled-append_right, Tiled-weaken,
  Tiled-le, le-finish, finish, IsHeap, Chain, PayloadKept, Clear,
}
use another_os.KernelHeap.Spec.{fits, carve}
use another_os.KernelHeap.Splice.{
  Replaced, splice, kept_front, kept_back, le-head, Clear-front, Clear-back,
}
use another_os.KernelHeap.Allocate.{Claimable, claim-Replaced}

head-carve : (n p : ℕ) (b : Block) (ys : Blocks) → head_or (carve n p b ++ ys) 0 ≡ p
unfolding carve
head-carve n p b ys = elim (Bool-cases (leb (n + header_size + 4) b.size)) [
  | inl t ↦ rw t
  | inr t ↦ rw t
]

Tiled-carve :
    (lo n p : ℕ) (b : Block) (ys : Blocks) (hi : ℕ)
    → n ≤ b.size
    → n % 4 ≡ 0
    → Tiled lo ((p, b) ∷ ys) hi
    → Tiled lo (carve n p b ++ ys) hi
unfolding carve
Tiled-carve lo n p b ys hi h k t = elim (Bool-cases (leb (n + header_size + 4) b.size)) [
  | inl large ↦ rw large (
    t.0,
    t.1,
    k,
    (
      omega arith,
      omega arith,
      omega (arith, leb→le _ _ large),
      Tiled-weaken (p + header_size + b.size) _ ys hi (omega (arith, leb→le _ _ large)) t.3,
    ),
  )
  | inr small ↦
      rw small (t.0, t.1, k, Tiled-weaken (p + header_size + b.size) _ ys hi (omega arith) t.3)
]

append-ne_nil : (xs ys : Blocks) → head_or ys 0 ≢ 0 → xs ++ ys ≢ []
append-ne_nil [] ys h e = h (ap (λ l. head_or l 0) e)
append-ne_nil (x ∷ xs) ys h e = cc

module _ (h : Heap) (xs ys : Blocks) (n p : ℕ) (b : Block) (v : IsHeap h (xs ++ ((p, b) ∷ ys)))
    (fit : fits n b ≡ true) (whole : n % 4 ≡ 0) where
  small : n ≤ b.size
  small = ground arith

  front : Tiled h.start_address xs (finish h.start_address xs)
  front = Tiled-append_left h.start_address xs ((p, b) ∷ ys) h.end_address v.tiled

  middle : Tiled (finish h.start_address xs) ((p, b) ∷ ys) h.end_address
  middle = Tiled-append_right h.start_address xs ((p, b) ∷ ys) h.end_address v.tiled

  linked : Chain h.mem (last_or xs 0) ((p, b) ∷ ys) 0
  linked = Links-append_right (HeaderAt h.mem) 0 xs ((p, b) ∷ ys) 0 v.chain

  above : h.start_address ≤ finish h.start_address xs
  above = le-finish h.start_address xs ((p, b) ∷ ys) h.end_address v.tiled

  claimable : Claimable h.mem p n b (last_or xs 0) (p + header_size + b.size) h.end_address ys
  claimable = record {
    low = omega (arith, above, v.low, middle.0);
    free = ground arith;
    large = small;
    ends = refl;
    back = middle.3;
    small = omega (arith, v.in_range);
    here = linked.0;
    behind = linked.1;
  }

  replaced :
      Replaced h.mem
        (claim h.mem p n)
        p
        (last_or xs 0)
        (p + header_size + b.size)
        h.end_address
        (carve n p b)
        ys
  replaced = claim-Replaced claimable small

  pub claim-IsHeap : IsHeap (record h { mem = claim h.mem p n }) (xs ++ (carve n p b ++ ys))
  claim-IsHeap = record {
    low = v.low;
    in_range = v.in_range;
    first =
        v.first
        ∙ head_or-append xs ((p, b) ∷ ys) 0
        ∙ ap (head_or xs) (sym (head-carve n p b ys))
        ∙ sym (head_or-append xs (carve n p b ++ ys) 0);
    nonempty =
        append-ne_nil xs (carve n p b ++ ys)
          (rw (head-carve n p b ys) (omega (arith, above, v.low, middle.0)));
    chain =
        splice h.mem (claim h.mem p n) h.start_address h.end_address p (p + header_size + b.size) p
          xs (carve n p b) ys front middle.0 (omega arith) middle.3
          (rw (head-carve n p b ys)
            (Links-append_left (HeaderAt h.mem) 0 xs ((p, b) ∷ ys) 0 v.chain))
          linked.1 replaced;
    tiled =
        Tiled-append h.start_address xs (carve n p b ++ ys) h.end_address front
          (Tiled-carve (finish h.start_address xs) n p b ys h.end_address small whole middle);
  }

  -- No word of an allocated block changes.
  pub claim_kept : All (PayloadKept h.mem (claim h.mem p n)) (xs ++ ((p, b) ∷ ys))
  claim_kept =
      All-append (PayloadKept h.mem (claim h.mem p n)) xs ((p, b) ∷ ys)
        (kept_front h.mem (claim h.mem p n) h.start_address p (p + header_size + b.size) xs ys
          h.end_address front middle.0 (omega arith) middle.3 replaced.beside)
        (
          (λ u a k l. ground arith),
          kept_back h.mem (claim h.mem p n) p (p + header_size + b.size) ys h.end_address middle.3
              replaced.beside,
        )

  -- Nor does one below the heap.
  pub claim_outside : (a : ℕ) → a < h.start_address → claim h.mem p n a ≡ h.mem a
  claim_outside a l =
      let room = Tiled-le (p + header_size + b.size) ys h.end_address middle.3 in
      let behind = le-head (p + header_size + b.size) ys h.end_address middle.3 in
      replaced.beside a (omega (arith, above, middle.0)) (inl (omega (arith, above, middle.0)))
        (omega (arith, above, middle.0))

  -- The bytes handed out belong to no allocated block.
  pub claim-Clear : All (Clear (p + header_size) n) (xs ++ ((p, b) ∷ ys))
  claim-Clear =
      All-append (Clear (p + header_size) n) xs ((p, b) ∷ ys)
        (Clear-front h.start_address (p + header_size) n xs (finish h.start_address xs) front
          (omega (arith, middle.0)))
        (
          (λ u. ground arith),
          Clear-back (p + header_size + b.size) (p + header_size) n ys h.end_address middle.3
              (omega (arith, small)),
        )

  -- They lie inside the heap, at a word boundary.
  pub claim_inside : (h.start_address ≤ p) × (p + header_size + n ≤ h.end_address) × (p % 4 ≡ 0)
  claim_inside = omega (
    arith,
    above,
    middle.0,
    middle.1,
    small,
    Tiled-le (p + header_size + b.size) ys h.end_address middle.3,
  )
