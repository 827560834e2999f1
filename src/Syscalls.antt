-- ===== src/Syscalls.antt =====
-- The kernel's side of a system call: src/arch/x86/syscalls/syscalls.{h,cpp}.
use another_os.Base.{ℕ, ◌≡◌, refl, ap, List, [], ◌∷◌, codes, Run, ok, ◌>>=◌}
use another_os.Console.{Vga}
use another_os.Console.Format.{print}
use another_os.Console.Phrases.{print-plain}
use another_os.Console.Shown.{text, leave_tmp, show}
use another_os.Console.Numbers.{Bytes}

abbrev pub unhandled : List ℕ
unhandled = codes "Unhandled system call\n"

-- `syscall_handler`, with the address of the saved registers.
pub syscall_handler : ℕ → Vga → Run (ℕ × Vga)
syscall_handler regs v = print unhandled [] v >>= λ v. ok (regs, v)

-- Every system call is reported as unhandled, and goes back to the registers that it came with.
pub syscall_handler-returns :
    (regs : ℕ) (v : Vga)
    → (b : Bytes) × (syscall_handler regs v ≡ ok (regs, leave_tmp b (show (text unhandled ∷ []) v)))
unfolding syscall_handler
syscall_handler-returns regs v =
    let (b, run) = print-plain unhandled v refl in (b, ap (λ q. q >>= λ v. ok (regs, v)) run)
