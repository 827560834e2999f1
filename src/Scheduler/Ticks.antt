-- ===== src/Scheduler/Ticks.antt =====
-- What timer interrupts do to sleeping threads and to a forced switch
-- (src/arch/x86/scheduler/scheduler.cpp).
use another_os.Base.{
  ℕ, zero, suc, ◌-◌, ◌<◌, ◌≡◌, ◌∙◌, refl, arith, true, false, ◌&&◌, ltb, ◌==◌, ==_refl,
}
use another_os.Scheduler.{
  Scheduler, World, blocked, ready, sleep_ms, wake, unblock, set_thread, force_switch,
  handle_interrupt, switch, is_blocked, is_sleeping,
}

-- The thread sleeps for `d` more ticks.
pub record Sleeps (s : Scheduler) (p d : ℕ) : Type 0 where
  pub blocked_now : (s.threads p).state ≡ blocked
  pub sleeping : (s.threads p).blocked_state ≡ sleep_ms
  pub left : (s.threads p).time_delta ≡ d

-- `n` rounds of `ProcessSleepingThreads` on one thread.
abbrev pub wakes : ℕ → ℕ → Scheduler → Scheduler
wakes zero p s = s
wakes (suc n) p s = wakes n p (wake p s)

asleep :
    (d p : ℕ) (s : Scheduler)
    → Sleeps s p (suc d)
    → (is_blocked (s.threads p).state
        && is_sleeping (s.threads p).blocked_state
        && ltb 0 (s.threads p).time_delta)
      ≡ true
asleep d p s h = rw (h.blocked_now, h.sleeping) (ground (arith, h.left))

wake-Sleeps : (d p : ℕ) (s : Scheduler) → Sleeps s p (suc (suc d)) → Sleeps (wake p s) p (suc d)
unfolding wake set_thread
wake-Sleeps d p s h =
    let more : ((s.threads p).time_delta - 1 == 0) ≡ false = ground (arith, h.left) in
    rw (asleep (suc d) p s h, more)
      (record {
        blocked_now = rw (==_refl p) h.blocked_now;
        sleeping = rw (==_refl p) h.sleeping;
        left = rw (==_refl p) (omega (arith, h.left));
      })

wake-last : (p : ℕ) (s : Scheduler) → Sleeps s p 1 → ((wake p s).threads p).state ≡ ready
unfolding wake set_thread unblock
wake-last p s h =
    let no_more : ((s.threads p).time_delta - 1 == 0) ≡ true = ground (arith, h.left) in
    rw (asleep 0 p s h, no_more, ==_refl p) refl

Sleeps-at : (s : Scheduler) (p : ℕ) {a b : ℕ} → a ≡ b → Sleeps s p a → Sleeps s p b
Sleeps-at s p e h = record { blocked_now = h.blocked_now; sleeping = h.sleeping; left = h.left ∙ e }

wakes-Sleeps : (k d p : ℕ) (s : Scheduler) → Sleeps s p d → k < d → Sleeps (wakes k p s) p (d - k)
wakes-Sleeps zero d p s h l = Sleeps-at s p (omega arith) h
wakes-Sleeps (suc k) zero p s h l = absurd (omega arith)
wakes-Sleeps (suc k) (suc zero) p s h l = absurd (omega arith)
wakes-Sleeps (suc k) (suc (suc d)) p s h l =
    Sleeps-at _ p (omega arith)
      (wakes-Sleeps k (suc d) p (wake p s) (wake-Sleeps d p s h) (omega arith))

wakes-last :
    (d p : ℕ) (s : Scheduler) → Sleeps s p (suc d) → ((wakes (suc d) p s).threads p).state ≡ ready
wakes-last zero p s h = wake-last p s h
wakes-last (suc d) p s h = wakes-last d p (wake p s) (wake-Sleeps d p s h)

-- A thread that sleeps for `d` ticks, at least one, sleeps on through the first `d - 1` of them, and is
-- ready after the last.
pub wakes-ready :
    (d p : ℕ) (s : Scheduler)
    → Sleeps s p (suc d)
    → ((k : ℕ) → k < suc d → Sleeps (wakes k p s) p (suc d - k))
      × (((wakes (suc d) p s).threads p).state ≡ ready)
wakes-ready d p s h = (λ k l. wakes-Sleeps k (suc d) p s h l, wakes-last d p s h)

-- After `ForceSwitch` the next interrupt switches threads, if there are any, without counting down
-- those that sleep.
pub handle_interrupt-force_switch :
    (w : World) (fuel esp : ℕ) (s : Scheduler)
    → 0 < s.threads_list.size
    → handle_interrupt w fuel esp (force_switch s)
      ≡ switch w fuel esp (record s { tick_count = 0; switch_forced = false; enabled = true })
unfolding handle_interrupt force_switch
handle_interrupt-force_switch w fuel esp s h =
    let some_thread : ltb 0 s.threads_list.size ≡ true = ground arith in rw some_thread refl
