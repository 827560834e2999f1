-- ===== src/UserLib/Programs.antt =====
-- The driver program of userland/initrd.cpp, with the calls of libc/unistd.h, libc/io.h and
-- libc/stdlib.h that it makes. `kernel` is what a system call returns, from all calls so far; `exit`
-- returns where `stays` says so.
use another_os.Base.{
  ℕ, ◌-◌, ◌%◌, ◌^◌, Bool, List, [], ◌∷◌, ◌++◌, codes, if◌then◌else◌, ◌==◌, Run, ok, ◌>>=◌,
}
use another_os.UserLib.{value, Call, syscall0, syscall1, syscall3, Program, printf}

abbrev pub Answers : Type 0
Answers = List Call → ℕ

-- A system call, with its result.
unfoldable pub call : Answers → Call → Program → ℕ × Program
call kernel c u =
    let calls = u.calls ++ c ∷ [] in (kernel calls % 2 ^ 32, record u { calls = calls })

unfoldable pub getpid : Answers → Program → ℕ × Program
getpid kernel u = call kernel (syscall0 0) u

-- The port is passed as a `uint16_t`, the size as a `uint8_t`.
unfoldable pub ioperm : Answers → ℕ → ℕ → ℕ → Program → ℕ × Program
ioperm kernel pid p s u = call kernel (syscall3 1 pid (value (p % 2 ^ 16)) (s % 2 ^ 8)) u

unfoldable pub exit : Answers → ℕ → Program → Program
exit kernel errcode u = (call kernel (syscall1 3 errcode) u).1

abbrev pub failed : List ℕ
failed = codes "Failed to acquire I/O priveleges, halting\n"

abbrev pub acquired : List ℕ
acquired = codes "Acquired IO permissions for PCI bus\n"

unfoldable pub main : Answers → Bool → Program → Run Program
main kernel stays u =
    let (pid, u) = getpid kernel u in
    let (res, u) = ioperm kernel pid 0xCF8 4 u in
    if res == 2 ^ 32 - 1
    then (printf failed [] u >>= λ u.
        let u = exit kernel 1 u in if stays then printf acquired [] u else ok u)
    else printf acquired [] u
