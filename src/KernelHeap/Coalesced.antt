-- ===== src/KernelHeap/Coalesced.antt =====
-- No two free blocks of the heap of src/arch/x86/mem/heap.cpp are neighbours.
use mathlib.Core.Path.{subst}
use another_os.Base.{
  ℕ, ◌+◌, ◌≡◌, refl, Bool, true, false, [], ◌∷◌, ◌++◌, arith, Bool-cases, leb, inl, inr,
}
use another_os.KernelHeap.Header.{header_size}
use another_os.KernelHeap.Blocks.{block, Blocks}
use another_os.KernelHeap.Spec.{fits, carve, place, absorb, give_back}

-- `u` says whether the block in front is allocated.
abbrev pub Spaced : Bool → Blocks → Type 0
Spaced u [] = Unit
Spaced u ((p, b) ∷ xs) = (u ≡ false → b.used ≡ true) × Spaced b.used xs

abbrev pub IsCoalesced : Blocks → Type 0
IsCoalesced = Spaced true

Spaced-true : (u : Bool) (xs : Blocks) → Spaced u xs → Spaced true xs
Spaced-true u [] c = tt
Spaced-true u ((p, b) ∷ xs) c = ((λ e. cc), c.1)

place-Spaced : (n : ℕ) (u : Bool) (bs : Blocks) → Spaced u bs → Spaced u (place n bs)
unfolding place carve
place-Spaced n u [] c = tt
place-Spaced n u ((p, b) ∷ xs) c = elim (Bool-cases (fits n b)) [
  | inl fit ↦
      let free : b.used ≡ false = ground arith in
      let behind : Spaced false xs = subst (λ w. Spaced w xs) free c.1 in
      rw fit (elim (Bool-cases (leb (n + header_size + 4) b.size)) [
        | inl large ↦ rw large ((λ e. refl), ((λ e. cc), behind))
        | inr small ↦ rw small ((λ e. refl), Spaced-true false xs behind)
      ])
  | inr unfit ↦ rw unfit (c.0, place-Spaced n b.used xs c.1)
]

absorb-Spaced :
    (u : Bool) (p n : ℕ) (ys : Blocks) → u ≡ true → Spaced true ys → Spaced u (absorb p n ys)
unfolding absorb
absorb-Spaced u p n [] e c = ((λ f. cc), tt)
absorb-Spaced u p n ((q, b) ∷ ys) e c = elim (Bool-cases b.used) [
  | inl used ↦ rw used ((λ f. cc), ((λ f. refl), subst (λ w. Spaced w ys) used c.1))
  | inr free ↦ rw free ((λ f. cc), subst (λ w. Spaced w ys) free c.1)
]

give_back-Spaced :
    (u : Bool) (xs : Blocks) (p n : ℕ) (ys : Blocks)
    → (xs ≡ [] → u ≡ true)
    → Spaced u (xs ++ ((p, block true n) ∷ ys))
    → Spaced u (give_back xs p n ys)
unfolding give_back
give_back-Spaced u [] p n ys e c = absorb-Spaced u p n ys (e refl) c.1
give_back-Spaced u ((q, b) ∷ []) p n ys e c = elim (Bool-cases b.used) [
  | inl used ↦ rw used ((λ f. refl), absorb-Spaced true p n ys refl c.1.1)
  | inr free ↦ rw free (absorb-Spaced u q (b.size + n + header_size) ys (ground (arith, c.0)) c.1.1)
]
give_back-Spaced u ((q, b) ∷ y ∷ xs) p n ys e c =
    (c.0, give_back-Spaced b.used (y ∷ xs) p n ys (λ f. cc) c.1)

pub place-IsCoalesced : (n : ℕ) (bs : Blocks) → IsCoalesced bs → IsCoalesced (place n bs)
place-IsCoalesced n bs c = place-Spaced n true bs c

pub give_back-IsCoalesced :
    (xs : Blocks) (p n : ℕ) (ys : Blocks)
    → IsCoalesced (xs ++ ((p, block true n) ∷ ys))
    → IsCoalesced (give_back xs p n ys)
give_back-IsCoalesced xs p n ys c = give_back-Spaced true xs p n ys (λ f. refl) c
