-- ===== src/UserLib.antt =====
-- The library of user programs: libc/string.c, libc/syscall.h and libc/stdio.h. What a program asks
-- of the kernel is the list of its system calls, the oldest first; a `char*` is the bytes from it
-- on.
pub mod Numbers
pub mod Numerals
pub mod Strings
pub mod Text
pub mod Programs
pub mod Driver
mod Tests
use another_os.Base.{
  ℕ, zero, suc, ◌-◌, ◌%◌, ◌^◌, true, false, List, [], ◌∷◌, ◌++◌, length, if◌then◌else◌, ◌==◌, Run,
  ok, undefined, out_of_fuel, ◌>>=◌,
}
use another_os.Console.Format.{
  Arg, int, str, Directive, character, string, percent, newline, signed, unsigned, plain,
}
use another_os.Console.Numbers.{Bytes}
use another_os.UserLib.Numbers.{int_to_string, uint_to_str}

-- The loop of `strlen`, at `s`.
unfoldable pub strlen_from : ℕ → Bytes → ℕ → ℕ → Run ℕ
strlen_from zero b start s = out_of_fuel
strlen_from (suc fuel) b start s =
    let rest = strlen_from fuel b start (suc s) in if b s == 0 then ok (s - start) else rest

pub strlen : ℕ → Bytes → ℕ → Run ℕ
strlen fuel b start = strlen_from fuel b start start

-- An argument of a system call: a number, or the bytes that a pointer leads to.
pub data Argument : Type 0 where
  value : ℕ → Argument
  bytes : List ℕ → Argument

-- `__syscall0`, `__syscall1` and `__syscall3`, with the number of the call and its arguments.
pub data Call : Type 0 where
  syscall0 : ℕ → Call
  syscall1 : ℕ → ℕ → Call
  syscall3 : ℕ → ℕ → Argument → ℕ → Call

-- The calls, and the static buffer `tmp` of `vprintf`.
pub record Program : Type 0 where
  pub calls : List Call
  pub tmp : Bytes

abbrev pub syscall_write : ℕ
syscall_write = 2

-- `write`, whose result is left undefined and not read.
unfoldable pub write : ℕ → List ℕ → ℕ → Program → Program
write fd buffer count u = record u {
  calls = u.calls ++ syscall3 syscall_write fd (bytes buffer) count ∷ [];
}

unfoldable pub putc : ℕ → Program → Program
putc c u = write 1 (c ∷ []) 1 u

-- The `n` bytes from `s` on.
unfoldable pub bytes_at : ℕ → ℕ → Bytes → List ℕ
bytes_at zero s b = []
bytes_at (suc n) s b = b s ∷ bytes_at n (suc s) b

unfoldable pub puts : ℕ → Bytes → Program → Run Program
puts fuel b u = strlen fuel b 0 >>= λ n. ok (write 1 (bytes_at n 0 b) n u)

-- A string in memory: its bytes and NULs behind them.
unfoldable pub memory_of : List ℕ → Bytes
memory_of [] i = 0
memory_of (c ∷ cs) zero = c
memory_of (c ∷ cs) (suc i) = memory_of cs i

-- The cases of the `switch`.
unfoldable pub directive_of : ℕ → Directive
directive_of ch =
    if ch == b'c'
    then character
    else if ch == b's'
    then string
    else if ch == b'%'
    then percent
    else if ch == b'n'
    then newline
    else if ch == b'd'
    then signed
    else if ch == b'x'
    then unsigned
    else plain

-- `puts` of what stands in `tmp`, after a conversion has written it.
unfoldable pub put_number : Run Bytes → Program → Run Program
put_number number u = number >>= λ b. puts 36 b (record u { tmp = b })

-- One conversion, of the character `ch`: the arguments left and the program.
unfoldable pub convert : Directive → ℕ → List Arg → Program → Run (List Arg × Program)
convert character ch (int n ∷ args) u = ok (args, putc (n % 2 ^ 8) u)
convert character ch (str s ∷ args) u = undefined
convert character ch [] u = undefined
convert string ch (str s ∷ args) u = puts (suc (length s)) (memory_of s) u >>= λ u. ok (args, u)
convert string ch (int n ∷ args) u = undefined
convert string ch [] u = undefined
convert percent ch args u = ok (args, putc 37 u)
convert newline ch args u = ok (args, putc 10 u)
convert signed ch (int n ∷ args) u = put_number (int_to_string u.tmp n 10) u >>= λ u. ok (args, u)
convert signed ch (str s ∷ args) u = undefined
convert signed ch [] u = undefined
convert unsigned ch (int n ∷ args) u = put_number (uint_to_str u.tmp n 16) u >>= λ u. ok (args, u)
convert unsigned ch (str s ∷ args) u = undefined
convert unsigned ch [] u = undefined
convert plain ch args u = ok (args, putc ch u)

-- A `%` at the end takes the NUL for a conversion, after which the loop reads on behind the format.
unfoldable pub vprintf : List ℕ → List Arg → Program → Run Program
vprintf [] args u = ok u
vprintf (ch ∷ []) args u = if ch == 37 then undefined else ok (putc ch u)
vprintf (ch ∷ c ∷ fmt) args u = elim (ch == 37) [
  | true ↦ convert (directive_of c) c args u >>= λ r. vprintf fmt r.0 r.1
  | false ↦ vprintf (c ∷ fmt) args (putc ch u)
]

-- The arguments behind `fmt` are those that `va_start` gives.
unfoldable pub printf : List ℕ → List Arg → Program → Run Program
printf fmt args u = vprintf fmt args u
