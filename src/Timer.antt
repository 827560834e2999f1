-- ===== src/Timer.antt =====
-- The interval timer of src/arch/x86/drivers/pit.cpp, whose interrupts turn the ticker in the corner of
-- the screen and run the scheduler.
pub mod Ticker
pub mod Interrupt
pub mod Rate
mod Tests
use another_os.Base.{
  ℕ, zero, suc, ◌+◌, ◌/◌, ◌%◌, ◌^◌, bit_and, Bool, true, List, [], ◌∷◌, if◌then◌else◌, ltb, add32,
  Run, ok, undefined, ◌>>=◌,
}
use another_os.Console.{Vga, go_to_xy}
use another_os.Console.Format.{Arg, int, vprintf}
use another_os.Interrupts.{Idt, outb, install_handler}
use another_os.Scheduler.{Scheduler, World, Exit, resume, handle_interrupt}

-- The static variables of pit.cpp; the pointer to the scheduler is whether it is set, and the
-- scheduler.
pub record Pit : Type 0 where
  pub ticks : ℕ
  pub index : ℕ
  pub scheduler_set : Bool
  pub scheduler : Scheduler
  pub console : Vga

unfoldable pub ticker : ℕ → Run ℕ
ticker zero = ok 47
ticker (suc zero) = ok 45
ticker (suc (suc zero)) = ok 92
ticker (suc (suc (suc zero))) = ok 124
ticker (suc (suc (suc (suc n)))) = undefined

-- `pit_handler` up to the call of the scheduler.
unfoldable pub show_tick : Pit → Run Pit
show_tick t =
    let t = record t { ticks = add32 t.ticks 1 } in
    let x = t.console.x in
    let y = t.console.y in
    let t = record t { console = go_to_xy 79 0 t.console } in
    ticker t.index >>= λ c. vprintf (37 ∷ 99 ∷ []) (int c ∷ []) t.console >>= λ console.
    let t = record t { console = console; index = t.index + 1 } in
    let t = if ltb 3 t.index then record t { index = 0 } else t in
    ok (record t { console = go_to_xy x y t.console })

unfoldable pub pit_handler : World → ℕ → ℕ → Pit → Run (Exit × Pit)
pit_handler w fuel esp t = show_tick t >>= λ t.
    if t.scheduler_set
    then (handle_interrupt w fuel esp t.scheduler >>= λ r. ok (r.0, record t { scheduler = r.1 }))
    else ok (resume esp, t)

abbrev pub divisor : ℕ
divisor = 1193180 / 100

-- `PIT::Init`; `handler` is the address of `pit_handler`.
unfoldable pub init : (List (ℕ × ℕ) → ℕ → ℕ) → ℕ → Idt → Idt
init inb handler s =
    let s = install_handler inb 32 handler true s in
    let s = outb 0x43 0x36 s in
    let l = bit_and divisor 0xFF % 2 ^ 8 in
    let h = bit_and (divisor / 2 ^ 8 % 2 ^ 8) 0xFF in let s = outb 0x40 l s in outb 0x40 h s

unfoldable pub set_sched : Scheduler → Pit → Pit
set_sched s t = record t { scheduler_set = true; scheduler = s }
