-- ===== src/KernelHeap/Lives.antt =====
-- The allocated blocks of a heap and their addresses, as callers of `malloc` hold them
-- (src/arch/x86/mem/heap.cpp).
use another_os.Base.{
  ℕ, ◌+◌, ◌≤◌, ◌<◌, ◌≡◌, ◌≢◌, inl, inr, refl, arith, true, false, [], ◌∷◌, ◌++◌, All, leb,
  Bool-cases,
}
use another_os.KernelHeap.Header.{header_size}
use another_os.KernelHeap.Blocks.{Block, Blocks, Clear}
use another_os.KernelHeap.Spec.{fits, find, carve, place}

-- At `p` lies the payload of an allocated block of at least `k` bytes.
pub data Lives (k p : ℕ) : Blocks → Type 0 where
  here :
      (a : ℕ) (b : Block) {bs : Blocks}
      → a + header_size ≡ p
      → b.used ≡ true
      → k ≤ b.size
      → Lives k p ((a, b) ∷ bs)
  there : (x : ℕ × Block) {bs : Blocks} → Lives k p bs → Lives k p (x ∷ bs)

behind-Lives : (k p : ℕ) (xs bs : Blocks) → Lives k p bs → Lives k p (xs ++ bs)
behind-Lives k p [] bs l = l
behind-Lives k p (x ∷ xs) bs l = there x (behind-Lives k p xs bs l)

-- First fit takes no allocated block.
pub place-Lives : (k p n : ℕ) (bs : Blocks) → Lives k p bs → Lives k p (place n bs)
unfolding place
place-Lives k p n [] l = elim l [ ]
place-Lives k p n ((a, b) ∷ bs) (here _ _ e u s) =
    let not_taken : fits n b ≡ false = rw u refl in rw not_taken (here a b e u s)
place-Lives k p n ((a, b) ∷ bs) (there _ l) = elim (Bool-cases (fits n b)) [
  | inl fit ↦ rw fit (behind-Lives k p (carve n a b) bs l)
  | inr small ↦ rw small (there (a, b) (place-Lives k p n bs l))
]

carve-Lives : (n a : ℕ) (b : Block) (bs : Blocks) → Lives n (a + header_size) (carve n a b ++ bs)
unfolding carve
carve-Lives n a b bs = elim (Bool-cases (leb (n + header_size + 4) b.size)) [
  | inl split ↦ rw split (here a _ refl refl (omega arith))
  | inr whole ↦ rw whole (here a _ refl refl (omega arith))
]

-- The block that first fit takes.
pub placed-Lives :
    (n : ℕ) (bs : Blocks) → find n bs ≢ 0 → Lives n (find n bs + header_size) (place n bs)
unfolding find place
placed-Lives n [] found = absurd (found refl)
placed-Lives n ((a, b) ∷ bs) found = elim (Bool-cases (fits n b)) [
  | inl fit ↦ rw fit (carve-Lives n a b bs)
  | inr small ↦ rw small (there (a, b) (placed-Lives n bs (λ e. found (rw small e))))
]

-- What lies clear of every allocated block does not begin where one does.
pub Clear-apart :
    (k p n ptr : ℕ) (bs : Blocks) → 0 < k → 0 < n → Lives k p bs → All (Clear ptr n) bs → p ≢ ptr
Clear-apart k p n ptr [] some wide l c h = elim l [ ]
Clear-apart k p n ptr ((a, b) ∷ bs) some wide (here _ _ e u s) c h = elim (c.0 u) [
  | inl before ↦ omega (arith, e, s, h)
  | inr after ↦ omega (arith, e, h)
]
Clear-apart k p n ptr (x ∷ bs) some wide (there _ l) c h =
    Clear-apart k p n ptr bs some wide l c.1 h

pub Lives-weaken : (k n p : ℕ) (bs : Blocks) → k ≤ n → Lives n p bs → Lives k p bs
Lives-weaken k n p bs h (here a b e u s) = here a b e u (omega (arith, h, s))
Lives-weaken k n p (x ∷ bs) h (there _ l) = there x (Lives-weaken k n p bs h l)
