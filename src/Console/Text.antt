-- ===== src/Console/Text.antt =====
-- `vprintf` prints the text that its format and arguments stand for (src/arch/x86/drivers/vga.cpp).
use mathlib.Core.Path.{subst}
use another_os.Base.{
  ℕ, ◌+◌, ◌%◌, ◌^◌, ◌<◌, ◌≡◌, ◌≢◌, ◌∙◌, inl, inr, refl, sym, ap, arith, true, false, List, [], ◌∷◌,
  ◌++◌, if◌then◌else◌, leb, ◌==◌, Bool-cases, Run, ok, halt, undefined, out_of_fuel, ◌>>=◌,
}
use another_os.Console.{Vga, put, put_cell, put_str, update_cursor}
use another_os.Console.Format.{
  Arg, int, str, Directive, character, string, percent, newline, signed, unsigned, plain,
  directive_of, c_string, put_number, convert, vprintf,
}
use another_os.Console.Numbers.{Bytes, int_to_string, uint_to_str}
use another_os.Console.Numerals.{unsigned_text, signed_text, uint_to_str-text, int_to_string-text}

-- The text of one conversion, and the arguments left. `%d` of the least `int` is undefined.
unfoldable pub text_of : Directive → ℕ → List Arg → Run (List ℕ × List Arg)
text_of character ch (int n ∷ args) = ok (n % 2 ^ 8 ∷ [], args)
text_of character ch (str s ∷ args) = undefined
text_of character ch [] = undefined
text_of string ch (str s ∷ args) = ok (s, args)
text_of string ch (int n ∷ args) = undefined
text_of string ch [] = undefined
text_of percent ch args = ok (37 ∷ [], args)
text_of newline ch args = ok (10 ∷ [], args)
text_of signed ch (int n ∷ args) = if n == 2 ^ 31 then undefined else ok (signed_text 10 n, args)
text_of signed ch (str s ∷ args) = undefined
text_of signed ch [] = undefined
text_of unsigned ch (int n ∷ args) = ok (unsigned_text 16 n, args)
text_of unsigned ch (str s ∷ args) = undefined
text_of unsigned ch [] = undefined
text_of plain ch args = ok (ch ∷ [], args)

-- The letters behind a `%`, each with its conversion.
abbrev pub conversions : List (ℕ × Directive)
conversions =
    (b'd', signed)
    ∷ (b'x', unsigned)
    ∷ (b's', string)
    ∷ (b'c', character)
    ∷ (b'n', newline)
    ∷ (b'%', percent)
    ∷ []

-- What a letter means, by a list of letters; any other stands for itself.
unfoldable pub meaning : List (ℕ × Directive) → ℕ → Directive
meaning [] c = plain
meaning ((a, d) ∷ rest) c = if a == c then d else meaning rest c

pub directive_of-meaning : (c : ℕ) → directive_of c ≡ meaning conversions c
unfolding meaning directive_of
directive_of-meaning c = ground arith

-- The text that a format and its arguments stand for.
unfoldable pub expand : List ℕ → List Arg → Run (List ℕ)
expand [] args = ok []
expand (ch ∷ []) args = if ch == 37 then undefined else ok (ch ∷ [])
expand (ch ∷ c ∷ fmt) args = elim (ch == 37) [
  | true ↦ text_of (meaning conversions c) c args >>= λ r. expand fmt r.1 >>= λ cs. ok (r.0 ++ cs)
  | false ↦ expand (c ∷ fmt) args >>= λ cs. ok (ch ∷ cs)
]

-- Every number among the arguments is a 32-bit one.
abbrev pub Words : List Arg → Type 0
Words [] = Unit
Words (int n ∷ args) = (n < 2 ^ 32) × Words args
Words (str s ∷ args) = Words args

-- Printing neither reads nor writes `tmp`.
put-tmp :
    (c : ℕ) (v : Vga) (b : Bytes) → put c (record v { tmp = b }) ≡ record (put c v) { tmp = b }
unfolding put put_cell update_cursor
put-tmp c v b = elim (Bool-cases (c == 10)) [
  | inl line ↦ rw line refl
  | inr other ↦ elim (Bool-cases (c == 13)) [
    | inl back ↦ rw (other, back) refl
    | inr other2 ↦ elim (Bool-cases (c == 9)) [
      | inl tab ↦ rw (other, other2, tab) refl
      | inr other3 ↦ elim (Bool-cases (leb v.width ((v.x + 1) % 2 ^ 8))) [
        | inl wrap ↦ elim (Bool-cases (leb v.height ((v.y + 1) % 2 ^ 8))) [
          | inl top ↦ rw (other, other2, other3, wrap, top) refl
          | inr below ↦ rw (other, other2, other3, wrap, below) refl
        ]
        | inr inside ↦ elim (Bool-cases (leb v.height v.y)) [
          | inl top ↦ rw (other, other2, other3, inside, top) refl
          | inr below ↦ rw (other, other2, other3, inside, below) refl
        ]
      ]
    ]
  ]
]

pub put_str-tmp :
    (cs : List ℕ) (v : Vga) (b : Bytes)
    → put_str cs (record v { tmp = b }) ≡ record (put_str cs v) { tmp = b }
unfolding put_str
put_str-tmp [] v b = refl
put_str-tmp (c ∷ cs) v b = ap (put_str cs) (put-tmp c v b) ∙ put_str-tmp cs (put c v) b

pub put_str-append : (cs ds : List ℕ) (v : Vga) → put_str (cs ++ ds) v ≡ put_str ds (put_str cs v)
unfolding put_str
put_str-append [] ds v = refl
put_str-append (c ∷ cs) ds v = put_str-append cs ds (put c v)

-- Where there is a text, the run has put it, and has left some bytes in `tmp`.
abbrev Puts : Run (List ℕ) → Vga → Run Vga → Type 0
Puts (ok cs) v run = (b : Bytes) × (run ≡ ok (record (put_str cs v) { tmp = b }))
Puts halt v run = Unit
Puts undefined v run = Unit
Puts out_of_fuel v run = Unit

abbrev Converts : Run (List ℕ × List Arg) → Vga → Run (List Arg × Vga) → Type 0
Converts (ok r) v run =
    (b : Bytes) × (run ≡ ok (r.1, record (put_str (r.0) v) { tmp = b })) × Words (r.1)
Converts halt v run = Unit
Converts undefined v run = Unit
Converts out_of_fuel v run = Unit

put_number-Converts :
    (number : Run Bytes) (text : List ℕ) (args : List Arg) (v : Vga)
    → (b : Bytes) × (number ≡ ok b) × (c_string 36 b 0 ≡ ok text)
    → Words args
    → Converts (ok (text, args)) v (put_number number v >>= λ v. ok (args, v))
unfolding put_number
put_number-Converts number text args v (b, run, bytes) words =
    (b, rw (run, bytes) (ap (λ v. ok (args, v)) (put_str-tmp text v b)), words)

convert-Converts :
    (d : Directive) (ch : ℕ) (args : List Arg) (v : Vga)
    → Words args
    → Converts (text_of d ch args) v (convert d ch args v)
unfolding convert text_of put_str
convert-Converts character ch [] v words = tt
convert-Converts character ch (int n ∷ args) v words = ((put (n % 2 ^ 8) v).tmp, refl, words.1)
convert-Converts character ch (str s ∷ args) v words = tt
convert-Converts string ch [] v words = tt
convert-Converts string ch (int n ∷ args) v words = tt
convert-Converts string ch (str s ∷ args) v words = ((put_str s v).tmp, refl, words)
convert-Converts percent ch args v words = ((put 37 v).tmp, refl, words)
convert-Converts newline ch args v words = ((put 10 v).tmp, refl, words)
convert-Converts signed ch [] v words = tt
convert-Converts signed ch (int n ∷ args) v words = elim (Bool-cases (n == 2 ^ 31)) [
  | inl least ↦ rw least tt
  | inr other ↦
      let proper : n ≢ 2 ^ 31 = ground (arith, other) in
      rw other (
        put_number-Converts (int_to_string v.tmp n 10) (signed_text 10 n) args v
          (int_to_string-text v.tmp n 10 words.0 proper (omega arith) (omega arith)) words.1)
]
convert-Converts signed ch (str s ∷ args) v words = tt
convert-Converts unsigned ch [] v words = tt
convert-Converts unsigned ch (int n ∷ args) v words =
    put_number-Converts (uint_to_str v.tmp n 16) (unsigned_text 16 n) args v
      (uint_to_str-text v.tmp n 16 words.0 (omega arith) (omega arith)) words.1
convert-Converts unsigned ch (str s ∷ args) v words = tt
convert-Converts plain ch args v words = ((put ch v).tmp, refl, words)

abbrev leave_tmp : Bytes → Vga → Vga
leave_tmp b w = record w { tmp = b }

abbrev leave : Bytes → Vga → Run Vga
leave b w = ok (leave_tmp b w)

-- Text behind text that has been put.
Puts-behind :
    (e : Run (List ℕ)) (cs : List ℕ) (v : Vga) (b : Bytes) (run : Run Vga)
    → Puts e (record (put_str cs v) { tmp = b }) run
    → Puts (e >>= λ ds. ok (cs ++ ds)) v run
Puts-behind (ok ds) cs v b run (b', h) = (
  b',
  h
      ∙ ap (leave b') (
          put_str-tmp ds (put_str cs v) b ∙ ap (λ w. leave_tmp b w) (sym (put_str-append cs ds v))),
)
Puts-behind halt cs v b run h = tt
Puts-behind undefined cs v b run h = tt
Puts-behind out_of_fuel cs v b run h = tt

Puts-after :
    (t : Run (List ℕ × List Arg)) (fmt : List ℕ) (v : Vga) (run : Run (List Arg × Vga))
    → Converts t v run
    → ((args : List Arg) (w : Vga) → Words args → Puts (expand fmt args) w (vprintf fmt args w))
    → Puts (t >>= λ r. expand fmt r.1 >>= λ cs. ok (r.0 ++ cs)) v (run >>= λ r. vprintf fmt r.0 r.1)
Puts-after (ok r) fmt v run (b, h, words) rest = rw h (
    Puts-behind (expand fmt r.1) (r.0) v b _
      (rest r.1 (record (put_str (r.0) v) { tmp = b }) words))
Puts-after halt fmt v run h rest = tt
Puts-after undefined fmt v run h rest = tt
Puts-after out_of_fuel fmt v run h rest = tt

vprintf-Puts :
    (fmt : List ℕ) (args : List Arg) (v : Vga)
    → Words args
    → Puts (expand fmt args) v (vprintf fmt args v)
unfolding expand vprintf put_str
vprintf-Puts [] args v words = (v.tmp, refl)
vprintf-Puts (ch ∷ []) args v words = elim (Bool-cases (ch == 37)) [
  | inl start ↦ rw start tt
  | inr other ↦ rw other ((put ch v).tmp, refl)
]
vprintf-Puts (ch ∷ c ∷ fmt) args v words = elim (Bool-cases (ch == 37)) [
  | inl start ↦
      rw (start, Puts, expand, vprintf)
        (Puts-after (text_of (meaning conversions c) c args) fmt v
          (convert (directive_of c) c args v)
          (subst (λ d. Converts (text_of d c args) v (convert (directive_of c) c args v))
            (directive_of-meaning c) (convert-Converts (directive_of c) c args v words))
          (λ args w words. vprintf-Puts fmt args w words))
  | inr other ↦
      rw (other, Puts, expand, vprintf)
        (Puts-behind (expand (c ∷ fmt) args) (ch ∷ []) v (put ch v).tmp
          (vprintf (c ∷ fmt) args (put ch v)) (vprintf-Puts (c ∷ fmt) args (put ch v) words))
]

-- Where a format and its arguments, the numbers among them of 32 bits, stand for a text, `vprintf`
-- ends, and has put exactly this text; of the rest of the console only `tmp` may differ.
pub vprintf-expand :
    (fmt : List ℕ) (args : List Arg) (v : Vga) (cs : List ℕ)
    → Words args
    → expand fmt args ≡ ok cs
    → (b : Bytes) × (vprintf fmt args v ≡ ok (record (put_str cs v) { tmp = b }))
vprintf-expand fmt args v cs words text =
    subst (λ e. Puts e v (vprintf fmt args v)) text (vprintf-Puts fmt args v words)
