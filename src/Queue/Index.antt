-- ===== src/Queue/Index.antt =====
-- `IndexOf` finds the first equal element (libc/queue.h).
use mathlib.Core.List.{append_assoc}
use another_os.Base.{
  ℕ, suc, ◌+◌, ◌-◌, ◌^◌, ◌≡◌, ◌∙◌, inl, inr, refl, ap, arith, Bool, false, ◌||◌, [], ◌∷◌, ◌++◌,
  length, length-append, if◌then◌else◌, ◌==◌, ==_iff, Bool-cases, ok,
}
use another_os.Queue.{Queue, get_at, index_from, index_of}
use another_os.Queue.Chains.{Nodes, IsQueue}
use another_os.Queue.Walk.{remove-IsQueue}

-- The element is among those of the nodes.
abbrev pub holds : ℕ → Nodes → Bool
holds e [] = false
holds e ((p, v) ∷ xs) = (v == e) || holds e xs

-- The position of the first node from `i` on that has the element, or -1.
unfoldable pub position : ℕ → ℕ → Nodes → ℕ
position e i [] = 2 ^ 32 - 1
position e i ((p, v) ∷ xs) = if v == e then i else position e (suc i) xs

pub length-snoc : (xs : Nodes) (x : ℕ × ℕ) (i : ℕ) → i ≡ length xs → suc i ≡ length (xs ++ x ∷ [])
length-snoc xs x i h = omega (arith, length-append xs (x ∷ []))

pub get_at_lem :
    (xs ys : Nodes) (p v i : ℕ) (q : Queue)
    → IsQueue q (xs ++ (p, v) ∷ ys)
    → i ≡ length xs
    → get_at i q ≡ ok v
get_at_lem xs ys p v i q valid h = ap (λ k. get_at k q) h ∙ (remove-IsQueue p v xs ys q valid).0

-- The next node joins those before.
pub IsQueue-shift :
    (xs ys : Nodes) (x : ℕ × ℕ) (q : Queue)
    → IsQueue q (xs ++ x ∷ ys)
    → IsQueue q ((xs ++ x ∷ []) ++ ys)
IsQueue-shift xs ys x q valid = rw (append_assoc xs (x ∷ []) ys) valid

index_from-position :
    (xs ys : Nodes) (e i : ℕ) (q : Queue)
    → IsQueue q (xs ++ ys)
    → i ≡ length xs
    → index_from (length ys) i e q ≡ ok (position e i ys)
unfolding index_from position
index_from-position xs [] e i q valid h = refl
index_from-position xs ((p, v) ∷ ys) e i q valid h =
    rw (get_at_lem xs ys p v i q valid h) (elim (Bool-cases (v == e)) [
      | inl same ↦ rw same refl
      | inr other ↦ rw other (
          index_from-position (xs ++ (p, v) ∷ []) ys e (suc i) q
            (IsQueue-shift xs ys (p, v) q valid) (length-snoc xs (p, v) i h))
    ])

pub index_of-position :
    (xs : Nodes) (e : ℕ) (q : Queue) → IsQueue q xs → index_of e q ≡ ok (position e 0 xs)
unfolding index_of
index_of-position xs e q valid =
    ap (λ n. index_from n 0 e q) valid.size ∙ index_from-position [] xs e 0 q valid refl

-- `r` is the place of the first equal element, counted from `i`, or -1 if there is none.
pub data First (e i : ℕ) (xs : Nodes) (r : ℕ) : Type 0 where
  found :
      (ys zs : Nodes) (p : ℕ)
      → xs ≡ ys ++ (p, e) ∷ zs
      → holds e ys ≡ false
      → r ≡ i + length ys
      → First e i xs r
  missing : holds e xs ≡ false → r ≡ 2 ^ 32 - 1 → First e i xs r

First-next :
    (e i p v r : ℕ) (xs : Nodes)
    → (v == e) ≡ false
    → First e (suc i) xs r
    → First e i ((p, v) ∷ xs) r
First-next e i p v r xs other (found ys zs a split none h) =
    found ((p, v) ∷ ys) zs a (ap (λ l. (p, v) ∷ l) split) (ground (arith, other, none))
      (omega (arith, h))
First-next e i p v r xs other (missing none h) = missing (ground (arith, other, none)) h

position-First : (xs : Nodes) (e i : ℕ) → First e i xs (position e i xs)
unfolding position
position-First [] e i = missing refl refl
position-First ((p, v) ∷ xs) e i = elim (Bool-cases (v == e)) [
  | inl same ↦
      let it : v ≡ e = (==_iff v e).0 same in
      rw same (found [] xs p (rw it refl) refl (omega arith))
  | inr other ↦ rw other (First-next e i p v _ xs other (position-First xs e (suc i)))
]

-- `IndexOf` returns, with the index of the first node that holds an equal element, or with -1 if none
-- does.
pub index_of-First :
    (xs : Nodes) (e : ℕ) (q : Queue)
    → IsQueue q xs
    → (r : ℕ) × (index_of e q ≡ ok r) × First e 0 xs r
index_of-First xs e q valid =
    (position e 0 xs, index_of-position xs e q valid, position-First xs e 0)
