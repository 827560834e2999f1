-- ===== src/Scheduler/Cycle.antt =====
-- The timer interrupts from one switch to the next
-- (`HandleInterrupt` of src/arch/x86/scheduler/scheduler.cpp).
use mathlib.Core.Path.{subst}
use another_os.Base.{
  ℕ, zero, suc, ◌+◌, ◌*◌, ◌<◌, ◌≡◌, ◌∙◌, refl, sym, ap, arith, true, false, List, [], ◌∷◌, ◌++◌,
  map, length, Run, ok, halt, undefined, out_of_fuel, ◌>>=◌,
}
use another_os.Queue.Chains.{Nodes, IsQueue}
use another_os.Scheduler.{Scheduler, World, Exit, resume, Thread, handle_interrupt, switch}
use another_os.Scheduler.Quiet.{at_tick, handle_interrupt-quiet, handle_interrupt-due}
use another_os.Scheduler.Sleepers.{Ticked, tick, ticks, occurrences, with_threads}

-- Interrupts one after the other, which come with these stack pointers: how each ends.
pub interrupts : World → ℕ → List ℕ → Scheduler → Run (List Exit × Scheduler)
interrupts w fuel [] s = ok ([], s)
interrupts w fuel (esp ∷ esps) s =
    handle_interrupt w fuel esp s >>= λ r. interrupts w fuel esps r.1 >>= λ q. ok (r.0 ∷ q.0, q.1)

-- Every listed thread has ticked `n` times for each of its nodes, the counter stands at `count`, and
-- the rest is as before.
pub record Passed (n count : ℕ) (xs : Nodes) (s r : Scheduler) : Type 0 where
  pub threads : (a : ℕ) → r.threads a ≡ ticks (n * occurrences a xs) (s.threads a)
  pub rest : with_threads s.threads r ≡ at_tick count s

ticks-add : (m n : ℕ) (t : Thread) → ticks (m + n) t ≡ ticks n (ticks m t)
ticks-add zero n t = let e : 0 + n ≡ n = omega arith in ap (λ k. ticks k t) e
ticks-add (suc m) n t =
    let e : suc m + n ≡ suc (m + n) = omega arith in ap (λ k. ticks k t) e ∙ ticks-add m n (tick t)

Passed-then :
    (n count : ℕ) (xs : Nodes) (s m r : Scheduler)
    → Ticked xs (at_tick (s.tick_count + 1) s) m
    → Passed n count xs m r
    → Passed (suc n) count xs s r
Passed-then n count xs s m r one more = record {
  threads = λ a.
      more.threads a
      ∙ ap (ticks (n * occurrences a xs)) (one.threads a)
      ∙ sym (ticks-add (occurrences a xs) (n * occurrences a xs) (s.threads a))
      ∙ ap (λ k. ticks k (s.threads a))
          (let e : occurrences a xs + n * occurrences a xs ≡ suc n * occurrences a xs =
              grind arith in
            e);
  rest = ap (with_threads s.threads) more.rest ∙ ap (at_tick count) one.rest;
}

Passed-valid :
    (count : ℕ) (xs : Nodes) (s m : Scheduler)
    → Ticked xs (at_tick count s) m
    → IsQueue s.threads_list xs
    → IsQueue m.threads_list xs
Passed-valid count xs s m one valid =
    subst (λ q. IsQueue q xs) (sym (ap (λ q. q.threads_list) one.rest)) valid

-- The exits of a run, with those before it.
abbrev pub behind : List Exit → Exit × Scheduler → Run (List Exit × Scheduler)
behind es q = ok (es ++ q.0 ∷ [], q.1)

abbrev after : Exit → List Exit × Scheduler → Run (List Exit × Scheduler)
after e q = ok (e ∷ q.0, q.1)

behind-after :
    (e : Exit) (es : List Exit) (run : Run (Exit × Scheduler))
    → ((run >>= behind es) >>= after e) ≡ (run >>= behind (e ∷ es))
behind-after e es (ok q) = refl
behind-after e es halt = refl
behind-after e es undefined = refl
behind-after e es out_of_fuel = refl

-- The interrupts up to the 30th tick, where no switch is forced, switching is enabled and there is a
-- thread: each of them but the last returns to where it came from, and the last is a switch, with
-- the counter at 0. Until then every listed thread has ticked once for each interrupt and each of
-- its nodes, and nothing else has changed.
pub cycle :
    (w : World) (fuel esp : ℕ) (esps : List ℕ) (xs : Nodes) (s : Scheduler)
    → IsQueue s.threads_list xs
    → s.switch_forced ≡ false
    → s.enabled ≡ true
    → 0 < length xs
    → s.tick_count + length esps ≡ 29
    → (r : Scheduler) × (interrupts w fuel (esps ++ esp ∷ []) s
        ≡ (switch w fuel esp (at_tick 0 r) >>= behind (map resume esps)))
      × Passed (suc (length esps)) 30 xs s r
unfolding interrupts
cycle w fuel esp [] xs s valid free on some count =
    let (r, run, one) =
      handle_interrupt-due w fuel esp xs s valid free (omega (arith, count)) on some in
    (
      r,
      ap (λ q. q >>= behind []) run,
      record {
        threads = λ a.
            one.threads a
            ∙ ap (λ k. ticks k (s.threads a))
                (let e : occurrences a xs ≡ 1 * occurrences a xs = omega arith in e);
        rest = one.rest;
      },
    )
cycle w fuel esp (e ∷ esps) xs s valid free on some count =
    let (m, run, one) = handle_interrupt-quiet w fuel e xs s valid free (omega (arith, count)) in
    let ticked : m.tick_count ≡ s.tick_count + 1 = ap (λ q. q.tick_count) one.rest in
    let (r, later, more) =
      cycle w fuel esp esps xs m (Passed-valid (s.tick_count + 1) xs s m one valid)
        (ap (λ q. q.switch_forced) one.rest ∙ free) (ap (λ q. q.enabled) one.rest ∙ on) some
        (omega (arith, count, ticked)) in
    (
      r,
      rw run (
          ap (λ q. q >>= after (resume e)) later
          ∙ behind-after (resume e) (map resume esps) (switch w fuel esp (at_tick 0 r))),
      Passed-then (suc (length esps)) 30 xs s m r one more,
    )
