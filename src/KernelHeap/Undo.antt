-- ===== src/KernelHeap/Undo.antt =====
-- An allocation that is freed at once (src/arch/x86/mem/heap.cpp).
use mathlib.Core.Path.{subst}
use another_os.Base.{
  ℕ, ◌+◌, ◌-◌, ◌≡◌, ◌≢◌, ◌<◌, ◌∙◌, inl, inr, refl, ap, arith, Bool, true, false, [], ◌∷◌, ◌++◌,
  length, if◌then◌else◌, leb, Bool-cases,
}
use another_os.KernelHeap.{Heap, ok, ◌>>=◌, align_up, malloc, free}
use another_os.KernelHeap.Header.{header_size}
use another_os.KernelHeap.Blocks.{Block, block, Blocks, IsHeap}
use another_os.KernelHeap.Coalesced.{Spaced, IsCoalesced}
use another_os.KernelHeap.FirstFit.{Found, find-Found}
use another_os.KernelHeap.Free.{free-give_back}
use another_os.KernelHeap.Malloc.{malloc-place}
use another_os.KernelHeap.Spec.{find, place, carve, absorb, give_back}

-- How large the block is afterwards: as before if it was split, otherwise what was asked for.
abbrev pub regained : ℕ → Block → ℕ
regained n b = if leb (n + header_size + 4) b.size then b.size else n

abbrev rest_of : ℕ → ℕ → Block → Blocks
rest_of n p b =
    if leb (n + header_size + 4) b.size
    then (p + n + header_size, block false (b.size - n - header_size)) ∷ []
    else []

carve-rest : (n p : ℕ) (b : Block) → carve n p b ≡ (p, block true n) ∷ rest_of n p b
unfolding carve
carve-rest n p b = elim (Bool-cases (leb (n + header_size + 4) b.size)) [
  | inl large ↦ rw large refl
  | inr small ↦ rw small refl
]

absorb-used :
    (p n : ℕ) (back : Blocks) → Spaced false back → absorb p n back ≡ (p, block false n) ∷ back
unfolding absorb
absorb-used p n [] c = refl
absorb-used p n ((q, b) ∷ ys) c = rw (c.0 refl) refl

absorb-rest :
    (n p : ℕ) (b : Block) (back : Blocks)
    → Spaced false back
    → absorb p n (rest_of n p b ++ back) ≡ (p, block false (regained n b)) ∷ back
unfolding absorb
absorb-rest n p b back c = elim (Bool-cases (leb (n + header_size + 4) b.size)) [
  | inl large ↦
      let whole : n + (b.size - n - header_size) + header_size ≡ b.size = ground (arith, large) in
      rw (large, whole) refl
  | inr small ↦ rw small (absorb-used p n back c)
]

-- In front of a free block stands an allocated one, if any.
give_back-front :
    (u : Bool) (front : Blocks) (at n : ℕ) (taken : Block) (back ys : Blocks)
    → taken.used ≡ false
    → Spaced u (front ++ ((at, taken) ∷ back))
    → give_back front at n ys ≡ front ++ absorb at n ys
unfolding give_back
give_back-front u [] at n taken back ys free c = refl
give_back-front u ((q, b) ∷ []) at n taken back ys free c = elim (Bool-cases b.used) [
  | inl used ↦ rw used refl
  | inr unused ↦ absurd (let wrong = c.1.0 unused in cc)
]
give_back-front u (x ∷ (y, b) ∷ xs) at n taken back ys free c =
    ap (λ l. x ∷ l) (give_back-front (x.1).used ((y, b) ∷ xs) at n taken back ys free c.1)

Spaced-back :
    (u : Bool) (front : Blocks) (at : ℕ) (taken : Block) (back : Blocks)
    → taken.used ≡ false
    → Spaced u (front ++ ((at, taken) ∷ back))
    → Spaced false back
Spaced-back u [] at taken back free c = subst (λ u. Spaced u back) free c.1
Spaced-back u (x ∷ xs) at taken back free c = Spaced-back (x.1).used xs at taken back free c.1

-- On a valid heap without free neighbours in which first fit finds a block, allocating and freeing
-- the result returns, and the blocks are as before but for the size of the one that was taken: it
-- is as before if the block was split, and otherwise only what was asked for, rounded up to a
-- multiple of 4, so the bytes behind are lost.
pub malloc-free :
    {h : Heap} {bs : Blocks} (fuel size : ℕ)
    → IsHeap h bs
    → IsCoalesced bs
    → length bs < fuel
    → find (align_up size 4) bs ≢ 0
    → (f : Found (align_up size 4) bs) × (h' : Heap) × ((malloc fuel size h >>= λ r. free r.0 r.1)
        ≡ ok h')
      × IsHeap h' (f.front ++ ((f.at, block false (regained (align_up size 4) f.taken)) ∷ f.back))
malloc-free {h} {bs} fuel size valid coalesced enough found =
    elim (find-Found (align_up size 4) bs) [
      | inl lost ↦ absurd (found lost)
      | inr f ↦
          let n = align_up size 4 in
          let rest = rest_of n f.at f.taken ++ f.back in
          let (h1, run1, served) = malloc-place fuel size valid enough found in
          let list : place n bs ≡ f.front ++ ((f.at, block true n) ∷ rest) =
            f.left ∙ ap (λ l. f.front ++ (l ++ f.back)) (carve-rest n f.at f.taken) in
          let (h2, run2, freed) =
            free-give_back h1 f.front rest f.at n (subst (IsHeap h1) list served.heap) in
          let unused : f.taken.used ≡ false = ground (arith, f.fit) in
          let spaced : Spaced true (f.front ++ ((f.at, f.taken) ∷ f.back)) =
            subst (Spaced true) f.split coalesced in
          let blocks : give_back f.front f.at n rest
              ≡ f.front ++ ((f.at, block false (regained n f.taken)) ∷ f.back) =
            give_back-front true f.front f.at n f.taken f.back rest unused spaced
            ∙ ap (λ l. f.front ++ l)
                (absorb-rest n f.at f.taken f.back
                  (Spaced-back true f.front f.at f.taken f.back unused spaced)) in
          (
            f,
            h2,
            ap (λ q. q >>= λ r. free r.0 r.1) run1
                ∙ ap (λ a. free (a + header_size) h1) f.address
                ∙ run2,
            subst (IsHeap h2) blocks freed.heap,
          )
    ]
