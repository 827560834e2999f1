-- ===== src/Initrd/Bytes.antt =====
-- Reading bytes at a place, as a reader of the image does (tools/initrd_gen.c).
use mathlib.Core.List.{append_assoc}
use another_os.Base.{
  ℕ, zero, suc, ◌+◌, ◌*◌, ◌^◌, ◌<◌, ◌≡◌, ◌∙◌, refl, sym, ap, arith, List, [], ◌∷◌, ◌++◌, length,
  length-append,
}
use another_os.Initrd.{int_bytes, joined}

abbrev pub drop : List ℕ → ℕ → List ℕ
drop xs zero = xs
drop [] (suc n) = []
drop (x ∷ xs) (suc n) = drop xs n

abbrev pub take : List ℕ → ℕ → List ℕ
take xs zero = []
take [] (suc n) = []
take (x ∷ xs) (suc n) = x ∷ take xs n

-- The `n` bytes from `p` on.
abbrev pub slice : ℕ → ℕ → List ℕ → List ℕ
slice p n xs = take (drop xs p) n

-- The number that four bytes stand for, the lowest first.
abbrev pub int_of : List ℕ → ℕ
int_of [] = 0
int_of (b ∷ bs) = b + 2 ^ 8 * int_of bs

drop-append : (xs ys : List ℕ) → drop (xs ++ ys) (length xs) ≡ ys
drop-append [] ys = refl
drop-append (x ∷ xs) ys = drop-append xs ys

take-append : (xs ys : List ℕ) → take (xs ++ ys) (length xs) ≡ xs
take-append [] ys = refl
take-append (x ∷ xs) ys = ap (λ l. x ∷ l) (take-append xs ys)

-- What stands behind `xs` and before `zs`.
pub slice-append :
    (xs ys zs : List ℕ) (p n : ℕ)
    → p ≡ length xs
    → n ≡ length ys
    → slice p n (xs ++ (ys ++ zs)) ≡ ys
slice-append xs ys zs p n at size =
    let behind : drop (xs ++ (ys ++ zs)) p ≡ ys ++ zs =
      ap (drop (xs ++ (ys ++ zs))) at ∙ drop-append xs (ys ++ zs) in
    ap (λ l. take l n) behind ∙ ap (take (ys ++ zs)) size ∙ take-append ys zs

pub int_of-int_bytes : (n : ℕ) → n < 2 ^ 32 → int_of (int_bytes n) ≡ n
unfolding int_bytes
int_of-int_bytes n h = omega arith

-- Lists of one length, joined.
pub length-joined :
    (f : ℕ → List ℕ) (size n from : ℕ)
    → ((i : ℕ) → length (f i) ≡ size)
    → length (joined f n from) ≡ n * size
unfolding joined
length-joined f size zero from h = omega arith
length-joined f size (suc n) from h = omega (
  arith,
  length-append (f from) (joined f n (suc from)),
  h from,
  length-joined f size n (suc from) h,
)

-- The one at `from + i` between those before and those behind.
pub joined-split :
    (f : ℕ → List ℕ) (i n from : ℕ)
    → joined f (i + suc n) from ≡ joined f i from ++ (f (from + i) ++ joined f n (suc (from + i)))
unfolding joined
joined-split f zero n from =
    let count : 0 + suc n ≡ suc n = omega arith in
    let here : from ≡ from + 0 = omega arith in
    ap (λ k. joined f k from) count ∙ ap (λ k. f k ++ joined f n (suc k)) here
joined-split f (suc i) n from =
    let count : suc i + suc n ≡ suc (i + suc n) = omega arith in
    let here : suc from + i ≡ from + suc i = omega arith in
    ap (λ k. joined f k from) count
    ∙ ap (λ l. f from ++ l) (joined-split f i n (suc from))
    ∙ sym (
        append_assoc (f from) (joined f i (suc from))
          (f (suc from + i) ++ joined f n (suc (suc from + i))))
    ∙ ap (λ k. (f from ++ joined f i (suc from)) ++ (f k ++ joined f n (suc k))) here
