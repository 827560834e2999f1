-- ===== src/Scheduler/Rotation.antt =====
-- The order in which the scheduler goes round the list of threads
-- (`GetNextReadyThread` of src/arch/x86/scheduler/scheduler.cpp).
use mathlib.Core.List.{append_assoc, head-eq_of_cons-eq, tail-eq_of_cons-eq}
use another_os.Base.{
  ℕ, suc, ◌+◌, ◌-◌, ◌≡◌, ◌∙◌, ◌<◌, ◌^◌, refl, sym, ap, arith, [], ◌∷◌, ◌++◌, length, length-append,
  append-nil, leb, add32, true, false,
}
use another_os.Queue.Chains.{Nodes, IsQueue}
use another_os.Scheduler.{Scheduler, next_index}

-- The node `x` stands at the index `i`, and `order` are the others, from the one behind `x` on and
-- round to the one before it.
pub record At (i : ℕ) (xs : Nodes) (x : ℕ × ℕ) (order : Nodes) : Type 0 where
  pub front : Nodes
  pub behind : Nodes
  pub split : xs ≡ front ++ x ∷ behind
  pub index : i ≡ length front
  pub around : order ≡ behind ++ front

pub next_index-last :
    (i : ℕ) (s : Scheduler) → s.threads_list.size ≡ suc i → i < 2 ^ 31 → next_index i s ≡ 0
next_index-last i s e small =
    let last : leb s.threads_list.size (add32 i 1) ≡ true = ground arith in rw last refl

-- The index -1 of a thread that is not in the list leads to the first.
pub next_index-wraps : (s : Scheduler) → 0 < s.threads_list.size → next_index (2 ^ 32 - 1) s ≡ 0
next_index-wraps s some =
    let zero : add32 (2 ^ 32 - 1) 1 ≡ 0 = refl in
    let inner : leb s.threads_list.size 0 ≡ false = ground arith in rw (zero, inner) refl

next_index-inner :
    (i : ℕ) (s : Scheduler) → suc i < s.threads_list.size → i < 2 ^ 31 → next_index i s ≡ suc i
next_index-inner i s h small =
    let inner : leb s.threads_list.size (add32 i 1) ≡ false = ground arith in rw inner (omega arith)

-- One step round the list: the first of the others is next, and `x` becomes the last.
pub At-next :
    (i : ℕ) (xs : Nodes) (x y : ℕ × ℕ) (order : Nodes) (s : Scheduler)
    → IsQueue s.threads_list xs
    → length xs < 2 ^ 31
    → At i xs x (y ∷ order)
    → At (next_index i s) xs y (order ++ x ∷ [])
At-next i xs x y order s valid small at = go at.front at.behind at.split at.index at.around
  where
    go :
        (front behind : Nodes)
        → xs ≡ front ++ x ∷ behind
        → i ≡ length front
        → y ∷ order ≡ behind ++ front
        → At (next_index i s) xs y (order ++ x ∷ [])
    go front [] split index around =
        let long : length xs ≡ length front + 1 = ap length split ∙ length-append front (x ∷ []) in
        record {
          front = [];
          behind = order ++ x ∷ [];
          split = split ∙ ap (λ l. l ++ x ∷ []) (sym around);
          index =
              next_index-last i s (omega (arith, valid.size, long, index))
                (omega (arith, index, long));
          around = sym (append-nil (order ++ x ∷ []));
        }
    go front (z ∷ behind) split index around =
        let long : length xs ≡ length front + suc (suc (length behind)) =
          ap length split ∙ length-append front (x ∷ z ∷ behind) in
        let same : y ≡ z = head-eq_of_cons-eq around in
        record {
          front = front ++ x ∷ [];
          behind = behind;
          split =
              split
              ∙ sym (append_assoc front (x ∷ []) (z ∷ behind))
              ∙ ap (λ a. (front ++ x ∷ []) ++ a ∷ behind) (sym same);
          index =
              next_index-inner i s (omega (arith, valid.size, long, index))
                (omega (arith, index, long))
              ∙ omega (arith, index, length-append front (x ∷ []));
          around =
              ap (λ l. l ++ x ∷ []) (tail-eq_of_cons-eq around)
              ∙ append_assoc behind front (x ∷ []);
        }

-- A thread that is alone is its own successor.
pub At-alone :
    (i : ℕ) (xs : Nodes) (x : ℕ × ℕ) (s : Scheduler)
    → IsQueue s.threads_list xs
    → length xs < 2 ^ 31
    → At i xs x []
    → At (next_index i s) xs x []
At-alone i xs x s valid small at =
    let alone : 0 ≡ length at.behind + length at.front =
      ap length at.around ∙ length-append at.behind at.front in
    let long : length xs ≡ length at.front + suc (length at.behind) =
      ap length at.split ∙ length-append at.front (x ∷ at.behind) in
    record {
      front = at.front;
      behind = at.behind;
      split = at.split;
      index =
          next_index-last i s (omega (arith, valid.size, long, alone, at.index))
            (omega (arith, at.index, alone))
          ∙ omega (arith, alone);
      around = at.around;
    }
