-- ===== src/Scheduler/NextReady.antt =====
-- Which thread `GetNextReadyThread` chooses (src/arch/x86/scheduler/scheduler.cpp).
use mathlib.Core.List.{append_assoc, head-eq_of_cons-eq, tail-eq_of_cons-eq}
use mathlib.Core.Path.{subst}
use another_os.Base.{
  ℕ, zero, suc, ◌+◌, ◌≡◌, ◌≢◌, ◌∙◌, ◌<◌, ◌^◌, refl, sym, ap, arith, Bool, true, false, [], ◌∷◌,
  ◌++◌, length, length-append, ◌==◌, ==_iff, ◌-◌, All, All-append, append-nil, ==_false, ok,
  out_of_fuel,
}
use another_os.Queue.{Queue, get_at}
use another_os.Queue.Chains.{Nodes, IsQueue}
use another_os.Queue.Index.{get_at_lem, holds, position, index_of-position}
use another_os.Scheduler.{Scheduler, is_blocked, next_index, ready_from, get_next_ready_thread}
use another_os.Scheduler.Rotation.{At, next_index-last, next_index-wraps, At-next, At-alone}

-- The thread of a node cannot run now.
abbrev pub waits : Scheduler → ℕ × ℕ → Bool
waits s x = is_blocked (s.threads (x.1)).state

get_at-At :
    (i : ℕ) (xs : Nodes) (x : ℕ × ℕ) (order : Nodes) (q : Queue)
    → IsQueue q xs
    → At i xs x order
    → get_at i q ≡ ok (x.1)
get_at-At i xs x order q valid at =
    get_at_lem at.front at.behind (x.0) (x.1) i q (subst (λ l. IsQueue q l) at.split valid) at.index

module _ (xs : Nodes) (s : Scheduler) (valid : IsQueue s.threads_list xs)
    (small : length xs < 2 ^ 31) where
  -- The first of the threads in `order`, if it can run, or else the search goes on behind it.
  ready_from-ready :
      (fuel i : ℕ) (x : ℕ × ℕ) (order : Nodes)
      → At i xs x order
      → waits s x ≡ false
      → ready_from (suc fuel) i s ≡ ok (x.1)
  unfolding ready_from
  ready_from-ready fuel i x order at ready =
      rw (get_at-At i xs x order s.threads_list valid at, ready) refl

  ready_from-waits :
      (fuel i : ℕ) (x : ℕ × ℕ) (order : Nodes)
      → At i xs x order
      → waits s x ≡ true
      → ready_from (suc fuel) i s ≡ ready_from fuel (next_index i s) s
  unfolding ready_from
  ready_from-waits fuel i x order at wait =
      rw (get_at-At i xs x order s.threads_list valid at, wait) refl

  ready_from-first :
      (skipped later : Nodes) (fuel i : ℕ) (x y : ℕ × ℕ) (order : Nodes)
      → At i xs x order
      → x ∷ order ≡ skipped ++ y ∷ later
      → All (λ z. waits s z ≡ true) skipped
      → waits s y ≡ false
      → length skipped < fuel
      → ready_from fuel i s ≡ ok (y.1)
  ready_from-first [] later zero i x y order at split wait ready enough = absurd (omega arith)
  ready_from-first [] later (suc fuel) i x y order at split wait ready enough =
      let same : x ≡ y = head-eq_of_cons-eq split in
      ready_from-ready fuel i x order at (ap (waits s) same ∙ ready) ∙ ap (λ a. ok (a.1)) same
  ready_from-first (z ∷ skipped) later zero i x y order at split wait ready enough =
      absurd (omega arith)
  ready_from-first (z ∷ skipped) later (suc fuel) i x y [] at split wait ready enough =
      let none : 1 ≡ suc (length (skipped ++ y ∷ later)) = ap length split in
      absurd (omega (arith, none, length-append skipped (y ∷ later)))
  ready_from-first (z ∷ skipped) later (suc fuel) i x y (w ∷ order) at split wait ready enough =
      let same : x ≡ z = head-eq_of_cons-eq split in
      let rest : w ∷ order ≡ skipped ++ y ∷ later = tail-eq_of_cons-eq split in
      ready_from-waits fuel i x (w ∷ order) at (ap (waits s) same ∙ wait.0)
      ∙ ready_from-first skipped (later ++ x ∷ []) fuel (next_index i s) w y (order ++ x ∷ [])
          (At-next i xs x w order s valid small at)
          (ap (λ l. l ++ x ∷ []) rest ∙ append_assoc skipped (y ∷ later) (x ∷ [])) wait.1 ready
          (omega arith)

  -- While every thread waits, the search goes on for as long as it is let.
  ready_from-none :
      (fuel i : ℕ) (x : ℕ × ℕ) (order : Nodes)
      → At i xs x order
      → All (λ z. waits s z ≡ true) (order ++ x ∷ [])
      → ready_from fuel (next_index i s) s ≡ out_of_fuel
  unfolding ready_from
  ready_from-none zero i x order at wait = refl
  ready_from-none (suc fuel) i x [] at wait =
      let again = At-alone i xs x s valid small at in
      ready_from-waits fuel (next_index i s) x [] again wait.0
      ∙ ready_from-none fuel (next_index i s) x [] again wait
  ready_from-none (suc fuel) i x (w ∷ order) at wait =
      let next = At-next i xs x w order s valid small at in
      ready_from-waits fuel (next_index i s) w (order ++ x ∷ []) next wait.0
      ∙ ready_from-none fuel (next_index i s) w (order ++ x ∷ []) next
          (All-append _ (order ++ x ∷ []) (w ∷ []) wait.1 (wait.0, tt))

  ready_after :
      (fuel i : ℕ) (x y : ℕ × ℕ) (order skipped later : Nodes)
      → At i xs x order
      → order ++ x ∷ [] ≡ skipped ++ y ∷ later
      → All (λ z. waits s z ≡ true) skipped
      → waits s y ≡ false
      → length skipped < fuel
      → ready_from fuel (next_index i s) s ≡ ok (y.1)
  ready_after fuel i x y [] skipped later at split wait ready enough =
      ready_from-first skipped later fuel (next_index i s) x y [] (At-alone i xs x s valid small at)
        split wait ready enough
  ready_after fuel i x y (w ∷ order) skipped later at split wait ready enough =
      ready_from-first skipped later fuel (next_index i s) w y (order ++ x ∷ [])
        (At-next i xs x w order s valid small at) split wait ready enough

-- The thread `x` had the last turn, and `order` are the others as they follow it: the current
-- thread; where there is none, the first one; and where it is not in the list, the last one.
pub data Turn (s : Scheduler) (xs : Nodes) (x : ℕ × ℕ) (order : Nodes) : Type 0 where
  idle : s.current_thread ≡ 0 → xs ≡ x ∷ order → Turn s xs x order
  running :
      (front behind : Nodes)
      → s.current_thread ≢ 0
      → s.current_thread ≡ x.1
      → xs ≡ front ++ x ∷ behind
      → holds (x.1) front ≡ false
      → order ≡ behind ++ front
      → Turn s xs x order
  unlisted :
      s.current_thread ≢ 0
      → holds s.current_thread xs ≡ false
      → xs ≡ order ++ x ∷ []
      → Turn s xs x order

position-found :
    (front behind : Nodes) (p e i : ℕ)
    → holds e front ≡ false
    → position e i (front ++ (p, e) ∷ behind) ≡ i + length front
unfolding position
position-found [] behind p e i fresh =
    let same : (e == e) ≡ true = (==_iff e e).1 refl in rw same (omega arith)
position-found ((q, v) ∷ front) behind p e i fresh =
    let other : (v == e) ≡ false = ground (arith, fresh) in
    let rest : holds e front ≡ false = ground (arith, fresh) in
    rw (other, position-found front behind p e (suc i) rest) (omega arith)

position-missing : (xs : Nodes) (e i : ℕ) → holds e xs ≡ false → position e i xs ≡ 2 ^ 32 - 1
unfolding position
position-missing [] e i none = refl
position-missing ((q, v) ∷ xs) e i none =
    let other : (v == e) ≡ false = ground (arith, none) in
    let rest : holds e xs ≡ false = ground (arith, none) in
    rw other (position-missing xs e (suc i) rest)

search_from :
    (xs : Nodes) (s : Scheduler) (fuel : ℕ)
    → IsQueue s.threads_list xs
    → s.current_thread ≢ 0
    → get_next_ready_thread fuel s
      ≡ ready_from fuel (next_index (position s.current_thread 0 xs) s) s
unfolding get_next_ready_thread
search_from xs s fuel valid set =
    let set : (s.current_thread == 0) ≡ false = ==_false s.current_thread 0 set in
    rw (set, index_of-position xs s.current_thread s.threads_list valid) refl

-- Where the search starts.
start :
    (xs : Nodes) (s : Scheduler) (x : ℕ × ℕ) (order : Nodes) (fuel : ℕ)
    → IsQueue s.threads_list xs
    → length xs < 2 ^ 31
    → Turn s xs x order
    → (i : ℕ) × At i xs x order
      × (get_next_ready_thread fuel s ≡ ready_from fuel (next_index i s) s)
unfolding get_next_ready_thread
start xs s x order fuel valid small (idle null split) = (
  0,
  record {
    front = [];
    behind = order;
    split = split;
    index = refl;
    around = sym (append-nil order);
  },
  rw null refl,
)
start xs s x order fuel valid small (running front behind set same split fresh around) =
    let here : position s.current_thread 0 xs ≡ length front =
      ap (λ a. position s.current_thread 0 a) split
      ∙ ap (λ a. position a 0 (front ++ x ∷ behind)) same
      ∙ position-found front behind (x.0) (x.1) 0 fresh
      ∙ omega arith in
    (
      length front,
      record { front = front; behind = behind; split = split; index = refl; around = around },
      search_from xs s fuel valid set ∙ ap (λ i. ready_from fuel (next_index i s) s) here,
    )
start xs s x order fuel valid small (unlisted set none split) =
    let long : length xs ≡ length order + 1 = ap length split ∙ length-append order (x ∷ []) in
    let size : s.threads_list.size ≡ suc (length order) = omega (arith, valid.size, long) in
    let last : next_index (length order) s ≡ 0 =
      next_index-last (length order) s size (omega arith) in
    (
      length order,
      record { front = order; behind = []; split = split; index = refl; around = refl },
      search_from xs s fuel valid set
          ∙ ap (λ i. ready_from fuel (next_index i s) s)
              (position-missing xs s.current_thread 0 none)
          ∙ ap (λ i. ready_from fuel i s) (next_index-wraps s (omega (arith, size)) ∙ sym last),
    )

-- Where some thread can run, `GetNextReadyThread` ends, and its result is the first such thread in
-- the order round the list that starts behind the one that had the last turn, which is the last to
-- be looked at. The list has less than 2 ^ 31 nodes.
pub next_ready :
    (xs : Nodes) (s : Scheduler) (x y : ℕ × ℕ) (order skipped later : Nodes) (fuel : ℕ)
    → IsQueue s.threads_list xs
    → length xs < 2 ^ 31
    → Turn s xs x order
    → order ++ x ∷ [] ≡ skipped ++ y ∷ later
    → All (λ z. waits s z ≡ true) skipped
    → waits s y ≡ false
    → length skipped < fuel
    → get_next_ready_thread fuel s ≡ ok (y.1)
next_ready xs s x y order skipped later fuel valid small turn split wait ready enough =
    let found = start xs s x order fuel valid small turn in
    found.2
    ∙ ready_after xs s valid small fuel (found.0) x y order skipped later (found.1) split wait ready
        enough

-- While every thread of the list is blocked, `GetNextReadyThread` does not end, whatever the fuel.
-- The list has less than 2 ^ 31 nodes.
pub none_ready :
    (xs : Nodes) (s : Scheduler) (x : ℕ × ℕ) (order : Nodes) (fuel : ℕ)
    → IsQueue s.threads_list xs
    → length xs < 2 ^ 31
    → Turn s xs x order
    → All (λ z. waits s z ≡ true) (order ++ x ∷ [])
    → get_next_ready_thread fuel s ≡ out_of_fuel
none_ready xs s x order fuel valid small turn wait =
    let found = start xs s x order fuel valid small turn in
    found.2 ∙ ready_from-none xs s valid small fuel (found.0) x order (found.1) wait
