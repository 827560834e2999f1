-- ===== src/Kernel/Dispatch.antt =====
-- Hardware interrupts and system calls in the running kernel: `irq_handler` of
-- src/arch/x86/tables/idt.cpp with the handlers that the kernel installs.
use another_os.Base.{
  ℕ, ◌+◌, ◌*◌, ◌%◌, ◌<◌, ◌≡◌, ◌≢◌, refl, arith, true, false, List, [], ◌∷◌, length, if◌then◌else◌,
  ◌==◌, ==_refl, ==_false, Run, ok, undefined, ◌>>=◌,
}
use another_os.Console.Screen.{OnScreen}
use another_os.Interrupts.{Idt, ack_int, irq_handler}
use another_os.Interrupts.Lines.{irq_handler-calls}
use another_os.Kernel.{Image, Kernel, with_console}
use another_os.Queue.Chains.{Nodes, IsQueue}
use another_os.Scheduler.{World, Exit, resume}
use another_os.Console.Numbers.{Bytes}
use another_os.Console.Shown.{text, leave_tmp, show}
use another_os.Syscalls.{unhandled, syscall_handler, syscall_handler-returns}
use another_os.Timer.{pit_handler}

-- `handlers[regs->int_no](esp)`: the function at the address. Only these two are installed.
unfoldable pub call_handler : World → ℕ → Image → Kernel → ℕ → ℕ → Idt → Run ((Exit × Kernel) × Idt)
call_handler w fuel b k handler esp idt =
    if handler == b.pit_handler
    then (pit_handler w fuel esp k.pit >>= λ r. ok ((r.0, record k { pit = r.1 }), idt))
    else if handler == b.syscall_handler
    then (syscall_handler esp k.pit.console >>= λ r. ok ((resume r.0, with_console k r.1), idt))
    else undefined

-- An interrupt of the kernel `k`; the saved registers stand in `mem` at `esp`.
unfoldable pub interrupt : World → ℕ → Image → (ℕ → ℕ) → ℕ → Kernel → Run (Exit × Kernel)
interrupt w fuel b mem esp k = irq_handler (call_handler w fuel b k) mem esp k.idt >>= λ r.
    ok ((r.0).0, record (r.0).1 { idt = r.1 })

-- The kernel in its idle loop: the timer's handler is installed, the cursor is on the screen, and
-- the scheduler does not switch.
pub record Waiting (b : Image) (xs : Nodes) (k : Kernel) : Type 0 where
  pub handler : k.idt.handlers 32 ≡ b.pit_handler
  pub on_screen : OnScreen k.pit.console
  pub picture : k.pit.index < 4
  pub set : k.pit.scheduler_set ≡ true
  pub queue : IsQueue k.pit.scheduler.threads_list xs
  pub free : k.pit.scheduler.switch_forced ≡ false
  pub off : k.pit.scheduler.enabled ≡ false
  pub tick : k.pit.scheduler.tick_count < 30

-- What one timer interrupt changes.
record Stepped (k k' : Kernel) : Type 0 where
  picture : k'.pit.index ≡ (k.pit.index + 1) % 4
  acknowledged : k'.idt.out ≡ (0x20, 0x20) ∷ (0xA0, 0x20) ∷ k.idt.out
  heap : k'.heap ≡ k.heap
  virt_mem : k'.virt_mem ≡ k.virt_mem
  x : k'.pit.console.x ≡ k.pit.console.x
  y : k'.pit.console.y ≡ k.pit.console.y
  cells : (i : ℕ) → i ≢ 79 → k'.pit.console.fb i ≡ k.pit.console.fb i

-- Interrupts one after the other, each with the memory that it finds and its stack pointer: how each
-- ends.
unfoldable pub interrupts :
    World → ℕ → Image → List ((ℕ → ℕ) × ℕ) → Kernel → Run (List Exit × Kernel)
interrupts w fuel b [] k = ok ([], k)
interrupts w fuel b ((mem, esp) ∷ frames) k = interrupt w fuel b mem esp k >>= λ r.
    interrupts w fuel b frames r.1 >>= λ q. ok (r.0 ∷ q.0, q.1)

-- What any number `n` of timer interrupts leaves.
pub record Idled (n : ℕ) (k k' : Kernel) : Type 0 where
  pub picture : k'.pit.index ≡ (k.pit.index + n) % 4
  pub acknowledged : length k'.idt.out ≡ 2 * n + length k.idt.out
  pub heap : k'.heap ≡ k.heap
  pub virt_mem : k'.virt_mem ≡ k.virt_mem
  pub x : k'.pit.console.x ≡ k.pit.console.x
  pub y : k'.pit.console.y ≡ k.pit.console.y
  pub cells : (i : ℕ) → i ≢ 79 → k'.pit.console.fb i ≡ k.pit.console.fb i

-- A system call whose vector reaches `irq_handler`, and whose handler is the one of the kernel: it is
-- reported as unhandled, and returns to where it came from.
pub interrupt-syscall :
    (w : World) (fuel : ℕ) (b : Image) (mem : ℕ → ℕ) (esp : ℕ) (k : Kernel)
    → mem (esp + 36) ≡ 128
    → k.idt.handlers 128 ≡ b.syscall_handler
    → b.syscall_handler ≢ 0
    → b.syscall_handler ≢ b.pit_handler
    → (t : Bytes) × (interrupt w fuel b mem esp k
        ≡ ok (
          resume esp,
          record (with_console k (leave_tmp t (show (text unhandled ∷ []) k.pit.console))) {
            idt = ack_int 128 k.idt;
          },
        ))
unfolding interrupt call_handler
interrupt-syscall w fuel b mem esp k number handler there other =
    let (t, run) = syscall_handler-returns esp k.pit.console in
    let called =
      irq_handler-calls (call_handler w fuel b k) mem esp 128 b.syscall_handler k.idt number
        (omega arith) handler there in
    (
      t,
      rw (called, ==_false b.syscall_handler b.pit_handler other, ==_refl b.syscall_handler, run)
          refl,
    )
