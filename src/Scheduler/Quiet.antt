-- ===== src/Scheduler/Quiet.antt =====
-- The interrupts between two switches, and the one that switches
-- (`HandleInterrupt` of src/arch/x86/scheduler/scheduler.cpp).
use another_os.Base.{
  ℕ, ◌+◌, ◌<◌, ◌≡◌, ◌∙◌, refl, ap, arith, true, false, ◌&&◌, ltb, if◌then◌else◌, ◌==◌, ==_iff,
  length, add32, Run, ok, ◌>>=◌, inl, inr, Bool-cases,
}
use another_os.Queue.Chains.{Nodes, IsQueue}
use another_os.Scheduler.{
  Scheduler, World, Exit, resume, handle_interrupt, process_sleeping_threads, switch,
}
use another_os.Scheduler.Sleepers.{Ticked, process_sleeping_threads-Ticked}

-- The scheduler with its counter of ticks at `n`.
abbrev pub at_tick : ℕ → Scheduler → Scheduler
at_tick n s = record s { tick_count = n }

-- What follows the countdown.
abbrev finish : World → ℕ → ℕ → Scheduler → Run (Exit × Scheduler)
finish w fuel esp s =
    if s.tick_count == 30
    then (if ltb 0 s.threads_list.size && s.enabled
        then switch w fuel esp (at_tick 0 s)
        else ok (resume esp, at_tick 0 s))
    else ok (resume esp, s)

-- Without a forced switch.
handle_interrupt-free :
    (w : World) (fuel esp n : ℕ) (xs : Nodes) (s : Scheduler)
    → IsQueue s.threads_list xs
    → s.switch_forced ≡ false
    → add32 s.tick_count 1 ≡ n
    → (r : Scheduler) × (handle_interrupt w fuel esp s ≡ finish w fuel esp r)
      × Ticked xs (at_tick n s) r
unfolding handle_interrupt
handle_interrupt-free w fuel esp n xs s valid free count =
    let valid' : IsQueue (at_tick n s).threads_list xs = record {
      links = valid.links;
      distinct = valid.distinct;
      head = valid.head;
      tail = valid.tail;
      size = valid.size;
    } in
    let (r, run, ticked) = process_sleeping_threads-Ticked xs (at_tick n s) valid' in
    (
      r,
      ap
            (λ b.
              (if b
                then ok (record s { tick_count = add32 s.tick_count 1; switch_forced = false })
                else process_sleeping_threads (at_tick (add32 s.tick_count 1) s))
              >>= λ r. finish w fuel esp r)
            free
          ∙ ap (λ k. process_sleeping_threads (at_tick k s) >>= λ r. finish w fuel esp r) count
          ∙ ap (λ q. q >>= λ r. finish w fuel esp r) run,
      ticked,
    )

-- An interrupt that no switch was forced for, before the 30th tick, returns to where it came from. The
-- counter goes on by one, every listed thread ticks, and the rest of the scheduler is as before.
pub handle_interrupt-quiet :
    (w : World) (fuel esp : ℕ) (xs : Nodes) (s : Scheduler)
    → IsQueue s.threads_list xs
    → s.switch_forced ≡ false
    → s.tick_count < 29
    → (r : Scheduler) × (handle_interrupt w fuel esp s ≡ ok (resume esp, r))
      × Ticked xs (at_tick (s.tick_count + 1) s) r
handle_interrupt-quiet w fuel esp xs s valid free early =
    let (r, run, ticked) =
      handle_interrupt-free w fuel esp (s.tick_count + 1) xs s valid free (omega arith) in
    let kept : r.tick_count ≡ s.tick_count + 1 = ap (λ q. q.tick_count) ticked.rest in
    let quiet : (r.tick_count == 30) ≡ false = ground (arith, kept) in
    (r, run ∙ rw quiet refl, ticked)

-- The 30th tick, where switching is enabled and there is a thread: after the listed threads have
-- ticked, the interrupt is a switch with the counter at 0.
pub handle_interrupt-due :
    (w : World) (fuel esp : ℕ) (xs : Nodes) (s : Scheduler)
    → IsQueue s.threads_list xs
    → s.switch_forced ≡ false
    → s.tick_count ≡ 29
    → s.enabled ≡ true
    → 0 < length xs
    → (r : Scheduler) × (handle_interrupt w fuel esp s ≡ switch w fuel esp (at_tick 0 r))
      × Ticked xs (at_tick 30 s) r
handle_interrupt-due w fuel esp xs s valid free late on some =
    let (r, run, ticked) = handle_interrupt-free w fuel esp 30 xs s valid free (omega arith) in
    let kept : (r.tick_count == 30) ≡ true =
      (==_iff r.tick_count 30).1 (ap (λ q. q.tick_count) ticked.rest) in
    let enabled : r.enabled ≡ true = ap (λ q. q.enabled) ticked.rest ∙ on in
    let size : r.threads_list.size ≡ length xs =
      ap (λ q. q.threads_list.size) ticked.rest ∙ valid.size in
    let due : (ltb 0 r.threads_list.size && r.enabled) ≡ true = ground (arith, size, enabled) in
    (r, run ∙ rw (kept, due) refl, ticked)

-- The counter behind `n`, which starts again at the 30th tick.
abbrev pub next_tick : ℕ → ℕ
next_tick n = if n == 29 then 0 else n + 1

-- An interrupt while switching is off and no switch was forced returns to where it came from: the
-- counter goes on, every listed thread ticks, and the rest of the scheduler is as before.
pub handle_interrupt-off :
    (w : World) (fuel esp : ℕ) (xs : Nodes) (s : Scheduler)
    → IsQueue s.threads_list xs
    → s.switch_forced ≡ false
    → s.enabled ≡ false
    → s.tick_count < 30
    → (r : Scheduler) × (handle_interrupt w fuel esp s ≡ ok (resume esp, r))
      × Ticked xs (at_tick (next_tick s.tick_count) s) r
handle_interrupt-off w fuel esp xs s valid free off small =
    let (r, run, ticked) =
      handle_interrupt-free w fuel esp (s.tick_count + 1) xs s valid free (omega (arith, small)) in
    let kept : r.tick_count ≡ s.tick_count + 1 = ap (λ q. q.tick_count) ticked.rest in
    let shut : (ltb 0 r.threads_list.size && r.enabled) ≡ false =
      ground (arith, ap (λ q. q.enabled) ticked.rest, off) in
    elim (Bool-cases (s.tick_count == 29)) [
      | inl last ↦
          let due : (r.tick_count == 30) ≡ true = ground (arith, kept, last) in
          (
            at_tick 0 r,
            run ∙ rw (due, shut) refl,
            record { threads = ticked.threads; rest = rw last (ap (at_tick 0) ticked.rest) },
          )
      | inr early ↦
          let quiet : (r.tick_count == 30) ≡ false = ground (arith, kept, early) in
          (r, run ∙ rw quiet refl, record { threads = ticked.threads; rest = rw early ticked.rest })
    ]
