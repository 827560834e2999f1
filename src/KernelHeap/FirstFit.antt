-- ===== src/KernelHeap/FirstFit.antt =====
-- First fit, and the rounding of sizes, in `InternalAllocate` of src/arch/x86/mem/heap.cpp.
use another_os.Base.{
  ℕ, ◌+◌, ◌-◌, ◌*◌, ◌/◌, ◌%◌, ◌^◌, ◌≡◌, ◌⊎◌, inl, inr, refl, ap, true, false, [], ◌∷◌, ◌++◌, arith,
  Bool-cases,
}
use another_os.Base.Bits.{bit_and_low, bit_and_even}
use another_os.KernelHeap.{align_up}
use another_os.KernelHeap.Blocks.{Block, Blocks}
use another_os.KernelHeap.Spec.{fits, find, carve, place}

-- `align_up(size, 4)` is the next multiple of 4, modulo `2 ^ 32`.
pub align_up_four : (n : ℕ) → align_up n 4 ≡ (n + 3) % 2 ^ 32 / 4 * 4
unfolding align_up
align_up_four n =
    let x = (n + 3) % 2 ^ 32 in
    omega (
      arith,
      bit_and_even x (2 ^ 31 - 2),
      bit_and_even (x / 2) (2 ^ 30 - 1),
      bit_and_low 30 (x / 2 / 2),
    )

-- Where first fit finds a block, and what it leaves.
pub record Found (n : ℕ) (bs : Blocks) : Type 0 where
  pub front : Blocks
  pub at : ℕ
  pub taken : Block
  pub back : Blocks
  pub split : bs ≡ front ++ ((at, taken) ∷ back)
  pub fit : fits n taken ≡ true
  pub address : find n bs ≡ at
  pub left : place n bs ≡ front ++ (carve n at taken ++ back)

pub find-Found : (n : ℕ) (bs : Blocks) → (find n bs ≡ 0) ⊎ Found n bs
unfolding find place
find-Found n [] = inl refl
find-Found n ((p, b) ∷ xs) = elim (Bool-cases (fits n b)) [
  | inl fit ↦ inr (record {
    front = [];
    at = p;
    taken = b;
    back = xs;
    split = refl;
    fit = fit;
    address = rw fit;
    left = rw fit;
  })
  | inr small ↦ later small (find-Found n xs)
]
  where
    later :
        fits n b ≡ false
        → (find n xs ≡ 0) ⊎ Found n xs
        → (find n ((p, b) ∷ xs) ≡ 0) ⊎ Found n ((p, b) ∷ xs)
    later small (inl e) = inl (rw small e)
    later small (inr f) = inr (record {
      front = (p, b) ∷ f.front;
      at = f.at;
      taken = f.taken;
      back = f.back;
      split = ap (λ l. (p, b) ∷ l) f.split;
      fit = f.fit;
      address = rw small f.address;
      left = rw small (ap (λ l. (p, b) ∷ l) f.left);
    })
