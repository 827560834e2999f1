-- ===== src/Queue/Sweep.antt =====
-- What `Remove(e)` does to the list (libc/queue.h).
use mathlib.Core.List.{append_assoc}
use mathlib.Core.Path.{subst}
use another_os.Base.{
  ℕ, zero, suc, ◌≡◌, ◌∙◌, ◌<◌, refl, ap, arith, ◌≤◌, Bool, true, false, [], ◌∷◌, ◌++◌, length,
  length-append, if◌then◌else◌, ltb, ◌==◌, Bool-cases, ==_refl, inl, inr, ok,
}
use another_os.Queue.{Queue, remove, remove_from, remove_value}
use another_os.Queue.Chains.{Nodes, IsQueue}
use another_os.Queue.Walk.{remove-IsQueue}
use another_os.Queue.Index.{get_at_lem, length-snoc, IsQueue-shift, holds}

-- Equal elements go, but the one behind each that goes is passed over (`passed` is whether the next
-- one is).
unfoldable pub sweep : Bool → ℕ → Nodes → Nodes
sweep passed e [] = []
sweep true e (x ∷ xs) = x ∷ sweep false e xs
sweep false e ((p, v) ∷ xs) =
    let without = sweep true e xs in
    let kept = (p, v) ∷ sweep false e xs in if v == e then without else kept

abbrev Ends : Nodes → Queue → ℕ → ℕ → ℕ → Type 0
Ends xs q fuel e i = (q' : Queue) × (remove_from fuel i e q ≡ ok q') × IsQueue q' xs

-- One round at a node that is there, and the end of the loop.
module _ (fuel e i : ℕ) (xs ys : Nodes) (p v : ℕ) (q : Queue)
    (valid : IsQueue q (xs ++ (p, v) ∷ ys)) (h : i ≡ length xs) where
  inside : ltb i q.size ≡ true
  inside = ground (arith, valid.size, length-append xs ((p, v) ∷ ys))

  round_other : (v == e) ≡ false → remove_from (suc fuel) i e q ≡ remove_from fuel (suc i) e q
  unfolding remove_from
  round_other other = rw (inside, get_at_lem xs ys p v i q valid h, other) refl

  round_same :
      (v == e) ≡ true
      → (q' : Queue) × (remove_from (suc fuel) i e q ≡ remove_from fuel (suc i) e q')
        × IsQueue q' (xs ++ ys)
  unfolding remove_from
  round_same same =
      let (got, q', run, valid', gone) = remove-IsQueue p v xs ys q valid in
      let run' : remove i q ≡ ok q' = ap (λ k. remove k q) h ∙ run in
      (q', rw (inside, get_at_lem xs ys p v i q valid h, same, run') refl, valid')

remove_from-end :
    (fuel e i : ℕ) (xs : Nodes) (q : Queue)
    → IsQueue q xs
    → length xs ≤ i
    → 0 < fuel
    → remove_from fuel i e q ≡ ok q
unfolding remove_from
remove_from-end zero e i xs q valid h enough = absurd (omega arith)
remove_from-end (suc fuel) e i xs q valid h enough =
    let outside : ltb i q.size ≡ false = ground (arith, valid.size) in rw outside refl

Ends-shift :
    (xs ys : Nodes) (x : ℕ × ℕ) (q q' : Queue) (fuel e i j : ℕ)
    → remove_from (suc fuel) i e q ≡ remove_from fuel j e q'
    → Ends ((xs ++ x ∷ []) ++ ys) q' fuel e j
    → Ends (xs ++ x ∷ ys) q (suc fuel) e i
Ends-shift xs ys x q q' fuel e i j step (q2, run, valid) =
    (q2, step ∙ run, subst (λ l. IsQueue q2 l) (append_assoc xs (x ∷ []) ys) valid)

remove_from-sweep :
    (fuel e i : ℕ) (xs ys : Nodes) (q : Queue)
    → IsQueue q (xs ++ ys)
    → i ≡ length xs
    → length ys < fuel
    → Ends (xs ++ sweep false e ys) q fuel e i
unfolding sweep
remove_from-sweep zero e i xs ys q valid h enough = absurd (omega arith)
remove_from-sweep (suc fuel) e i xs [] q valid h enough = (
  q,
  remove_from-end (suc fuel) e i (xs ++ []) q valid (omega (arith, length-append xs []))
      (omega arith),
  valid,
)
remove_from-sweep (suc fuel) e i xs ((p, v) ∷ []) q valid h enough = elim (Bool-cases (v == e)) [
  | inl same ↦
      let (q', step, valid') = round_same fuel e i xs [] p v q valid h same in
      let end =
        remove_from-end fuel e (suc i) (xs ++ []) q' valid' (omega (arith, length-append xs []))
          (omega arith) in
      rw same (q', step ∙ end, valid')
  | inr other ↦ rw other (
      Ends-shift xs [] (p, v) q q fuel e i (suc i) (round_other fuel e i xs [] p v q valid h other)
        (remove_from-sweep fuel e (suc i) (xs ++ (p, v) ∷ []) [] q
          (IsQueue-shift xs [] (p, v) q valid) (length-snoc xs (p, v) i h) (omega arith)))
]
remove_from-sweep (suc fuel) e i xs ((p, v) ∷ y ∷ ys) q valid h enough =
    elim (Bool-cases (v == e)) [
      | inl same ↦
          let (q', step, valid') = round_same fuel e i xs (y ∷ ys) p v q valid h same in
          rw same (
            Ends-shift xs (sweep false e ys) y q q' fuel e i (suc i) step (
              remove_from-sweep fuel e (suc i) (xs ++ y ∷ []) ys q'
                (IsQueue-shift xs ys y q' valid') (length-snoc xs y i h) (omega arith)))
      | inr other ↦ rw other (
          Ends-shift xs (sweep false e (y ∷ ys)) (p, v) q q fuel e i (suc i)
            (round_other fuel e i xs (y ∷ ys) p v q valid h other)
            (remove_from-sweep fuel e (suc i) (xs ++ (p, v) ∷ []) (y ∷ ys) q
              (IsQueue-shift xs (y ∷ ys) (p, v) q valid) (length-snoc xs (p, v) i h) (omega arith)))
    ]

-- `Remove(e)` of a valid queue returns. Going from front to back, it takes out each element that is
-- equal to `e`, but passes over the element behind one that it takes out; the others stay in order.
pub remove_value-sweep :
    (e : ℕ) (xs : Nodes) (q : Queue)
    → IsQueue q xs
    → (q' : Queue) × (remove_value e q ≡ ok q') × IsQueue q' (sweep false e xs)
unfolding remove_value
remove_value-sweep e xs q valid =
    remove_from-sweep (suc (q.size)) e 0 [] xs q valid refl (omega (arith, valid.size))

sweep-without : (e : ℕ) (xs : Nodes) → holds e xs ≡ false → sweep false e xs ≡ xs
unfolding sweep
sweep-without e [] h = refl
sweep-without e ((p, v) ∷ xs) h =
    let other : (v == e) ≡ false = ground arith in
    rw other (ap (λ l. (p, v) ∷ l) (sweep-without e xs (ground (arith, h))))

-- An element that occurs once is the only one to go.
pub sweep-once :
    (e p : ℕ) (xs ys : Nodes)
    → holds e xs ≡ false
    → holds e ys ≡ false
    → sweep false e (xs ++ (p, e) ∷ ys) ≡ xs ++ ys
unfolding sweep
sweep-once e p [] [] h k = rw (==_refl e) refl
sweep-once e p [] (y ∷ ys) h k =
    rw (==_refl e) (ap (λ l. y ∷ l) (sweep-without e ys (ground (arith, k))))
sweep-once e p ((a, v) ∷ xs) ys h k =
    let other : (v == e) ≡ false = ground arith in
    rw other (ap (λ l. (a, v) ∷ l) (sweep-once e p xs ys (ground (arith, h)) k))
