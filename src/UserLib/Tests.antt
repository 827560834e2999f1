-- ===== src/UserLib/Tests.antt =====
-- Runs of libc/stdio.h.
use another_os.Base.{ℕ, ◌≡◌, arith, refl, List, [], ◌∷◌, ◌-◌, ◌^◌, true, ok}
use another_os.Console.Format.{int, str}
use another_os.Console.Numerals.{numeral}
use another_os.Console.Text.{text_of, meaning, expand}
use another_os.UserLib.{Program, printf, value, syscall0, syscall3}
use another_os.UserLib.Programs.{Answers, main}
use another_os.UserLib.Driver.{Outcome, main-Outcome}
use another_os.UserLib.Text.{Wrote, printf-Wrote}

abbrev fresh : Program
fresh = record { calls = []; tmp = λ i. 0 }

-- "%s=%d\n" of "x" and 7.
abbrev assignment : List ℕ
assignment = 37 ∷ 115 ∷ 61 ∷ 37 ∷ 100 ∷ 10 ∷ []

assigned : expand assignment (str (120 ∷ []) ∷ int 7 ∷ []) ≡ ok (120 ∷ 61 ∷ 55 ∷ 10 ∷ [])
unfolding expand text_of meaning numeral
assigned = refl

printf-Wrote_example :
    (u' : Program) × (printf assignment (str (120 ∷ []) ∷ int 7 ∷ []) fresh ≡ ok u')
    × Wrote (120 ∷ 61 ∷ 55 ∷ 10 ∷ []) fresh u'
printf-Wrote_example =
    printf-Wrote assignment (str (120 ∷ []) ∷ int 7 ∷ []) fresh (120 ∷ 61 ∷ 55 ∷ 10 ∷ [])
      (((λ e. omega (arith, e)), tt), (omega arith, tt)) assigned

-- The kernel refuses every call.
abbrev refusing : Answers
refusing calls = 2 ^ 32 - 1

main-Outcome_example :
    (u' : Program) × (main refusing true fresh ≡ ok u')
    × Outcome (2 ^ 32 - 1) true (syscall0 0 ∷ syscall3 1 (2 ^ 32 - 1) (value 0xCF8) 4 ∷ []) u'.calls
main-Outcome_example = main-Outcome refusing true fresh
