-- ===== src/UserLib/Text.antt =====
-- The `printf` of user programs writes the text that its format and arguments stand for (libc/stdio.h).
use mathlib.Core.List.{append_assoc}
use mathlib.Core.Path.{subst}
use another_os.Base.{
  ℕ, suc, ◌%◌, ◌^◌, ◌<◌, ◌≡◌, ◌≢◌, ◌∙◌, inl, inr, refl, sym, ap, arith, List, [], ◌∷◌, ◌++◌, length,
  All, All-append, append-nil, ◌==◌, Bool-cases, Run, ok, halt, undefined, out_of_fuel, ◌>>=◌,
}
use another_os.Console.Format.{
  Arg, int, str, Directive, character, string, percent, newline, signed, unsigned, plain, c_string,
}
use another_os.Console.Numbers.{Bytes}
use another_os.Console.Numerals.{unsigned_text, signed_text, uint_to_str-text, int_to_string-text}
use another_os.Console.Text.{text_of, conversions, meaning, expand}
use another_os.Console.Numbers as Console
use another_os.UserLib.{
  value, bytes, syscall0, syscall1, syscall3, Call, Program, syscall_write, write, putc, memory_of,
  directive_of, put_number, convert, vprintf, printf,
}
use another_os.UserLib.Numerals.{same_int_to_string, same_uint_to_str}
use another_os.UserLib.Strings.{c_string-Holds, puts-Holds, memory_of-Holds}

-- The bytes that a call passes.
abbrev pub buffer : Call → List ℕ
buffer (syscall0 n) = []
buffer (syscall1 n a) = []
buffer (syscall3 n a (value b) c) = []
buffer (syscall3 n a (bytes b) c) = b

-- A call that asks to write the whole buffer to the standard output.
abbrev pub IsWrite : Call → Type 0
IsWrite c = c ≡ syscall3 syscall_write 1 (bytes (buffer c)) (length (buffer c))

abbrev pub joined : List Call → List ℕ
joined [] = []
joined (c ∷ calls) = buffer c ++ joined calls

-- The program has made further calls, which write `cs`.
pub record Wrote (cs : List ℕ) (u u' : Program) : Type 0 where
  pub made : List Call
  pub calls : u'.calls ≡ u.calls ++ made
  pub text : joined made ≡ cs
  pub proper : All IsWrite made

-- No string among the arguments holds a NUL, and the numbers are of 32 bits.
abbrev pub Passed : List Arg → Type 0
Passed [] = Unit
Passed (int n ∷ args) = (n < 2 ^ 32) × Passed args
Passed (str s ∷ args) = All (λ c. c ≢ 0) s × Passed args

joined-append : (xs ys : List Call) → joined (xs ++ ys) ≡ joined xs ++ joined ys
joined-append [] ys = refl
joined-append (x ∷ xs) ys =
    ap (λ l. buffer x ++ l) (joined-append xs ys)
    ∙ sym (append_assoc (buffer x) (joined xs) (joined ys))

Wrote-none : (u : Program) → Wrote [] u u
Wrote-none u = record { made = []; calls = sym (append-nil u.calls); text = refl; proper = tt }

Wrote-then : (cs ds : List ℕ) (u v w : Program) → Wrote cs u v → Wrote ds v w → Wrote (cs ++ ds) u w
Wrote-then cs ds u v w one two = record {
  made = one.made ++ two.made;
  calls = two.calls ∙ ap (λ l. l ++ two.made) one.calls ∙ append_assoc u.calls one.made two.made;
  text = joined-append one.made two.made ∙ rw (one.text, two.text) refl;
  proper = All-append IsWrite one.made two.made one.proper two.proper;
}

Wrote-write : (cs : List ℕ) (u : Program) → Wrote cs u (write 1 cs (length cs) u)
unfolding write
Wrote-write cs u = record {
  made = syscall3 syscall_write 1 (bytes cs) (length cs) ∷ [];
  calls = refl;
  text = append-nil cs;
  proper = (refl, tt);
}

Wrote-putc : (c : ℕ) (u : Program) → Wrote (c ∷ []) u (putc c u)
unfolding putc
Wrote-putc c u = Wrote-write (c ∷ []) u

-- Where there is a text, the run has written it.
abbrev Writes : Run (List ℕ) → Program → Run Program → Type 0
Writes (ok cs) u run = (u' : Program) × (run ≡ ok u') × Wrote cs u u'
Writes halt u run = Unit
Writes undefined u run = Unit
Writes out_of_fuel u run = Unit

abbrev Converts : Run (List ℕ × List Arg) → Program → Run (List Arg × Program) → Type 0
Converts (ok r) u run = (u' : Program) × (run ≡ ok (r.1, u')) × Wrote r.0 u u' × Passed r.1
Converts halt u run = Unit
Converts undefined u run = Unit
Converts out_of_fuel u run = Unit

put_number-Converts :
    (number : Run Bytes) (text : List ℕ) (args : List Arg) (u : Program)
    → (b : Bytes) × (number ≡ ok b) × (c_string 36 b 0 ≡ ok text)
    → Passed args
    → Converts (ok (text, args)) u (put_number number u >>= λ u. ok (args, u))
unfolding put_number
put_number-Converts number text args u (b, run, spelled) passed =
    let (there, enough) = c_string-Holds text 36 0 b spelled in
    let wrote = Wrote-write text (record u { tmp = b }) in
    (
      write 1 text (length text) (record u { tmp = b }),
      rw (run, puts-Holds text 36 b (record u { tmp = b }) there enough) refl,
      record { made = wrote.made; calls = wrote.calls; text = wrote.text; proper = wrote.proper },
      passed,
    )

convert-Converts :
    (d : Directive) (ch : ℕ) (args : List Arg) (u : Program)
    → Passed args
    → Converts (text_of d ch args) u (convert d ch args u)
unfolding convert text_of
convert-Converts character ch [] u passed = tt
convert-Converts character ch (int n ∷ args) u passed =
    (_, refl, Wrote-putc (n % 2 ^ 8) u, passed.1)
convert-Converts character ch (str s ∷ args) u passed = tt
convert-Converts string ch [] u passed = tt
convert-Converts string ch (int n ∷ args) u passed = tt
convert-Converts string ch (str s ∷ args) u passed = (
  write 1 s (length s) u,
  rw (puts-Holds s (suc (length s)) (memory_of s) u (memory_of-Holds s passed.0) (omega arith))
      refl,
  Wrote-write s u,
  passed.1,
)
convert-Converts percent ch args u passed = (_, refl, Wrote-putc 37 u, passed)
convert-Converts newline ch args u passed = (_, refl, Wrote-putc 10 u, passed)
convert-Converts signed ch [] u passed = tt
convert-Converts signed ch (int n ∷ args) u passed = elim (Bool-cases (n == 2 ^ 31)) [
  | inl least ↦ rw least tt
  | inr other ↦
      let proper : n ≢ 2 ^ 31 = ground (arith, other) in
      rw other (
        rw (same_int_to_string u.tmp n 10) (
          put_number-Converts (Console.int_to_string u.tmp n 10) (signed_text 10 n) args u
            (int_to_string-text u.tmp n 10 passed.0 proper (omega arith) (omega arith)) passed.1))
]
convert-Converts signed ch (str s ∷ args) u passed = tt
convert-Converts unsigned ch [] u passed = tt
convert-Converts unsigned ch (int n ∷ args) u passed = rw (same_uint_to_str u.tmp n 16) (
    put_number-Converts (Console.uint_to_str u.tmp n 16) (unsigned_text 16 n) args u
      (uint_to_str-text u.tmp n 16 passed.0 (omega arith) (omega arith)) passed.1)
convert-Converts unsigned ch (str s ∷ args) u passed = tt
convert-Converts plain ch args u passed = (_, refl, Wrote-putc ch u, passed)

-- Text behind text that has been written.
Writes-behind :
    (e : Run (List ℕ)) (cs : List ℕ) (u v : Program) (run : Run Program)
    → Wrote cs u v
    → Writes e v run
    → Writes (e >>= λ ds. ok (cs ++ ds)) u run
Writes-behind (ok ds) cs u v run wrote (w, h, more) = (w, h, Wrote-then cs ds u v w wrote more)
Writes-behind halt cs u v run wrote h = tt
Writes-behind undefined cs u v run wrote h = tt
Writes-behind out_of_fuel cs u v run wrote h = tt

Writes-after :
    (t : Run (List ℕ × List Arg)) (fmt : List ℕ) (u : Program) (run : Run (List Arg × Program))
    → Converts t u run
    → ((args : List Arg) (w : Program)
        → Passed args
        → Writes (expand fmt args) w (vprintf fmt args w))
    → Writes
        (t >>= λ r. expand fmt r.1 >>= λ cs. ok (r.0 ++ cs))
        u
        (run >>= λ r. vprintf fmt r.0 r.1)
Writes-after (ok r) fmt u run (v, h, wrote, passed) rest =
    rw h (Writes-behind (expand fmt r.1) r.0 u v (vprintf fmt r.1 v) wrote (rest r.1 v passed))
Writes-after halt fmt u run h rest = tt
Writes-after undefined fmt u run h rest = tt
Writes-after out_of_fuel fmt u run h rest = tt

-- The `switch` knows the same letters.
directive_of-meaning : (c : ℕ) → directive_of c ≡ meaning conversions c
unfolding directive_of meaning
directive_of-meaning c = ground arith

vprintf-Writes :
    (fmt : List ℕ) (args : List Arg) (u : Program)
    → Passed args
    → Writes (expand fmt args) u (vprintf fmt args u)
unfolding expand vprintf
vprintf-Writes [] args u passed = (u, refl, Wrote-none u)
vprintf-Writes (ch ∷ []) args u passed = elim (Bool-cases (ch == 37)) [
  | inl start ↦ rw start tt
  | inr other ↦ rw other (putc ch u, refl, Wrote-putc ch u)
]
vprintf-Writes (ch ∷ c ∷ fmt) args u passed = elim (Bool-cases (ch == 37)) [
  | inl start ↦
      rw (start, Writes, expand, vprintf)
        (Writes-after (text_of (meaning conversions c) c args) fmt u
          (convert (directive_of c) c args u)
          (subst (λ d. Converts (text_of d c args) u (convert (directive_of c) c args u))
            (directive_of-meaning c) (convert-Converts (directive_of c) c args u passed))
          (λ args w passed. vprintf-Writes fmt args w passed))
  | inr other ↦
      rw (other, Writes, expand, vprintf)
        (Writes-behind (expand (c ∷ fmt) args) (ch ∷ []) u (putc ch u)
          (vprintf (c ∷ fmt) args (putc ch u)) (Wrote-putc ch u)
          (vprintf-Writes (c ∷ fmt) args (putc ch u) passed))
]

-- Where a format and its arguments, the numbers among them of 32 bits and the strings without NUL,
-- stand for a text, which is the one that the kernel's `vprintf` puts, `printf` of a user program
-- ends. It makes system calls that each write a whole buffer to the standard output, and the
-- buffers joined are exactly the text.
pub printf-Wrote :
    (fmt : List ℕ) (args : List Arg) (u : Program) (cs : List ℕ)
    → Passed args
    → expand fmt args ≡ ok cs
    → (u' : Program) × (printf fmt args u ≡ ok u') × Wrote cs u u'
unfolding printf
printf-Wrote fmt args u cs passed text =
    subst (λ e. Writes e u (vprintf fmt args u)) text (vprintf-Writes fmt args u passed)
