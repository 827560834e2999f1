-- ===== src/Scheduler/Sleepers.antt =====
-- `ProcessSleepingThreads` (src/arch/x86/scheduler/scheduler.cpp) over the whole list of threads.
use mathlib.Core.Path.{subst}
use another_os.Base.{
  ℕ, zero, suc, ◌-◌, ◌≡◌, ◌∙◌, inl, inr, refl, sym, ap, false, ◌&&◌, ltb, [], ◌∷◌, ◌++◌, length,
  if◌then◌else◌, ◌==◌, ==_iff, ==_refl, Bool-cases, ok,
}
use another_os.Queue.Chains.{Nodes, IsQueue}
use another_os.Queue.Index.{get_at_lem, length-snoc, IsQueue-shift}
use another_os.Scheduler.{
  Scheduler, Thread, ready, is_blocked, is_sleeping, set_thread, unblock, wake,
  process_sleeping_from, process_sleeping_threads,
}

-- One tick of the clock for a thread: a sleeping one counts down, and is ready when its time is up.
abbrev pub tick : Thread → Thread
tick t =
    if is_blocked t.state && is_sleeping t.blocked_state && ltb 0 t.time_delta
    then (if t.time_delta - 1 == 0
        then record t { state = ready; time_delta = t.time_delta - 1 }
        else record t { time_delta = t.time_delta - 1 })
    else t

abbrev pub ticks : ℕ → Thread → Thread
ticks zero t = t
ticks (suc n) t = ticks n (tick t)

-- How many nodes hold the thread.
abbrev pub occurrences : ℕ → Nodes → ℕ
occurrences a [] = 0
occurrences a ((p, v) ∷ xs) = if v == a then suc (occurrences a xs) else occurrences a xs

abbrev pub with_threads : (ℕ → Thread) → Scheduler → Scheduler
with_threads threads s = record s { threads = threads }

-- What one round leaves: the thread has ticked, the others and the rest are as before.
record Woken (p : ℕ) (s r : Scheduler) : Type 0 where
  self : r.threads p ≡ tick (s.threads p)
  others : (a : ℕ) → (p == a) ≡ false → r.threads a ≡ s.threads a
  rest : with_threads s.threads r ≡ s

wake-Woken : (p : ℕ) (s : Scheduler) → Woken p s (wake p s)
unfolding wake set_thread unblock
wake-Woken p s =
    elim (Bool-cases (
      is_blocked (s.threads p).state
      && is_sleeping (s.threads p).blocked_state
      && ltb 0 (s.threads p).time_delta)) [
        | inl due ↦ elim (Bool-cases ((s.threads p).time_delta - 1 == 0)) [
          | inl last ↦ record {
            self = rw (due, last, ==_refl p) refl;
            others = λ a other. rw (due, last, other) refl;
            rest = rw (due, last) refl;
          }
          | inr more ↦ record {
            self = rw (due, more, ==_refl p) refl;
            others = λ a other. rw (due, more, other) refl;
            rest = rw (due, more) refl;
          }
        ]
        | inr idle ↦ record {
          self = rw idle refl;
          others = λ a other. rw idle refl;
          rest = rw idle refl;
        }
      ]

-- What the whole loop leaves.
pub record Ticked (xs : Nodes) (s r : Scheduler) : Type 0 where
  pub threads : (a : ℕ) → r.threads a ≡ ticks (occurrences a xs) (s.threads a)
  pub rest : with_threads s.threads r ≡ s

Ticked-next :
    (p v : ℕ) (xs : Nodes) (s m r : Scheduler)
    → Woken v s m
    → Ticked xs m r
    → Ticked ((p, v) ∷ xs) s r
Ticked-next p v xs s m r woken rest = record {
  threads = λ a. elim (Bool-cases (v == a)) [
    | inl same ↦
        let here : m.threads a ≡ tick (s.threads a) =
          subst (λ b. m.threads b ≡ tick (s.threads b)) ((==_iff v a).0 same) woken.self in
        rw same (rest.threads a ∙ ap (ticks (occurrences a xs)) here)
    | inr other ↦ rw other (rest.threads a ∙ ap (ticks (occurrences a xs)) (woken.others a other))
  ];
  rest = ap (with_threads s.threads) rest.rest ∙ woken.rest;
}

process_sleeping_from-Ticked :
    (xs ys : Nodes) (i : ℕ) (s : Scheduler)
    → IsQueue s.threads_list (xs ++ ys)
    → i ≡ length xs
    → (r : Scheduler) × (process_sleeping_from (length ys) i s ≡ ok r) × Ticked ys s r
unfolding process_sleeping_from
process_sleeping_from-Ticked xs [] i s valid h =
    (s, refl, record { threads = λ a. refl; rest = refl })
process_sleeping_from-Ticked xs ((p, v) ∷ ys) i s valid h =
    let woken = wake-Woken v s in
    let valid' : IsQueue (wake v s).threads_list ((xs ++ (p, v) ∷ []) ++ ys) =
      subst (λ q. IsQueue q ((xs ++ (p, v) ∷ []) ++ ys)) (sym (ap (λ r. r.threads_list) woken.rest))
        (IsQueue-shift xs ys (p, v) s.threads_list valid) in
    let rest =
      process_sleeping_from-Ticked (xs ++ (p, v) ∷ []) ys (suc i) (wake v s) valid'
        (length-snoc xs (p, v) i h) in
    (
      rest.0,
      rw (get_at_lem xs ys p v i s.threads_list valid h) rest.1,
      Ticked-next p v ys s (wake v s) rest.0 woken rest.2,
    )

-- `ProcessSleepingThreads` ends, and every thread has ticked once for each of its nodes in the list; a
-- thread that is not in the list, and all else of the scheduler, is as before.
pub process_sleeping_threads-Ticked :
    (xs : Nodes) (s : Scheduler)
    → IsQueue s.threads_list xs
    → (r : Scheduler) × (process_sleeping_threads s ≡ ok r) × Ticked xs s r
unfolding process_sleeping_threads
process_sleeping_threads-Ticked xs s valid =
    let run = process_sleeping_from-Ticked [] xs 0 s valid refl in
    (run.0, ap (λ n. process_sleeping_from n 0 s) valid.size ∙ run.1, run.2)
