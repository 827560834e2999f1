-- ===== src/Timer/Interrupt.antt =====
-- A timer interrupt as a whole (src/arch/x86/drivers/pit.cpp, src/arch/x86/scheduler/scheduler.cpp).
use another_os.Base.{ℕ, ◌+◌, ◌<◌, ◌≡◌, ◌∙◌, ap, true, false, if◌then◌else◌, ok, ◌>>=◌}
use another_os.Console.Screen.{OnScreen}
use another_os.Queue.Chains.{Nodes, IsQueue}
use another_os.Scheduler.{Scheduler, World, Exit, resume, handle_interrupt}
use another_os.Scheduler.Quiet.{at_tick, handle_interrupt-quiet}
use another_os.Scheduler.Sleepers.{Ticked}
use another_os.Timer.{Pit, show_tick, pit_handler}
use another_os.Timer.Ticker.{Turned, show_tick-Turned}

abbrev pub with_scheduler : Scheduler → Pit → Pit
with_scheduler s t = record t { scheduler = s }

-- With the ticker shown, the scheduler decides.
pub pit_handler-scheduler :
    (w : World) (fuel esp : ℕ) (t m : Pit) (exit : Exit) (r : Scheduler)
    → show_tick t ≡ ok m
    → m.scheduler_set ≡ true
    → handle_interrupt w fuel esp m.scheduler ≡ ok (exit, r)
    → pit_handler w fuel esp t ≡ ok (exit, with_scheduler r m)
unfolding pit_handler
pit_handler-scheduler w fuel esp t m exit r shown set run =
    ap
      (λ q. q >>= λ t.
        if t.scheduler_set
        then (handle_interrupt w fuel esp t.scheduler >>= λ r. ok (r.0, with_scheduler r.1 t))
        else ok (resume esp, t))
      shown
    ∙ ap
        (λ b.
          if b
          then (handle_interrupt w fuel esp m.scheduler >>= λ r. ok (r.0, with_scheduler r.1 m))
          else ok (resume esp, m))
        set
    ∙ ap (λ q. q >>= λ r. ok (r.0, with_scheduler r.1 m)) run

-- A timer interrupt with a scheduler that is not at its 30th tick and has no forced switch, the
-- console's cursor on the screen and one of the four pictures next: it returns to where it came
-- from, having turned the ticker and let every listed thread tick.
pub pit_handler-quiet :
    (w : World) (fuel esp : ℕ) (xs : Nodes) (t : Pit)
    → OnScreen t.console
    → t.index < 4
    → t.scheduler_set ≡ true
    → IsQueue t.scheduler.threads_list xs
    → t.scheduler.switch_forced ≡ false
    → t.scheduler.tick_count < 29
    → (m : Pit) × (r : Scheduler) × (pit_handler w fuel esp t ≡ ok (resume esp, with_scheduler r m))
      × Turned t m
      × Ticked xs (at_tick (t.scheduler.tick_count + 1) t.scheduler) r
pit_handler-quiet w fuel esp xs t o h set valid free early =
    let (m, shown, turn) = show_tick-Turned t o h in
    let (r, run, ticked) = handle_interrupt-quiet w fuel esp xs t.scheduler valid free early in
    (
      m,
      r,
      pit_handler-scheduler w fuel esp t m (resume esp) r shown (turn.set ∙ set)
          (ap (handle_interrupt w fuel esp) turn.scheduler ∙ run),
      turn,
      ticked,
    )
