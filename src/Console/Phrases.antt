-- ===== src/Console/Phrases.antt =====
-- The text of a format, piece by piece (`vprintf` of src/arch/x86/drivers/vga.cpp).
use mathlib.Core.Path.{subst}
use another_os.Base.{
  ℕ, ◌^◌, ◌≡◌, ◌≢◌, refl, ap, arith, Bool, true, false, not, ◌&&◌, List, [], ◌∷◌, ◌++◌, map, ◌<◌,
  append-nil, ◌==◌, ==_false, Run, ok, ◌>>=◌,
}
use another_os.Console.Format.{Arg, int, print}
use another_os.Console.Numerals.{signed_text, unsigned_text}
use another_os.Console.Text.{text_of, meaning, Words, expand}
use another_os.Console.{Vga}
use another_os.Console.Shown.{Line, text, Shown, Shown-then, print-Shown}

-- The text has no `%`.
abbrev pub plain_text : List ℕ → Bool
plain_text [] = true
plain_text (c ∷ cs) = not (c == 37) && plain_text cs

expand-cons :
    (c : ℕ) (fmt : List ℕ) (args : List Arg) (ds : List ℕ)
    → (c == 37) ≡ false
    → expand fmt args ≡ ok ds
    → expand (c ∷ fmt) args ≡ ok (c ∷ ds)
unfolding expand
expand-cons c [] args ds h e = rw h (cc (e))
expand-cons c (d ∷ fmt) args ds h e = rw (h, expand) (ap (λ q. q >>= λ cs. ok (c ∷ cs)) e)

expand-literal :
    (cs fmt : List ℕ) (args : List Arg) (ds : List ℕ)
    → plain_text cs ≡ true
    → expand fmt args ≡ ok ds
    → expand (cs ++ fmt) args ≡ ok (cs ++ ds)
expand-literal [] fmt args ds h e = e
expand-literal (c ∷ cs) fmt args ds h e =
    expand-cons c (cs ++ fmt) args (cs ++ ds) (ground (arith, h))
      (expand-literal cs fmt args ds (ground (arith, h)) e)

-- `%d` and `%x`.
expand-signed :
    (n : ℕ) (fmt : List ℕ) (args : List Arg) (ds : List ℕ)
    → n ≢ 2 ^ 31
    → expand fmt args ≡ ok ds
    → expand (b'%' ∷ b'd' ∷ fmt) (int n ∷ args) ≡ ok (signed_text 10 n ++ ds)
unfolding expand text_of meaning
expand-signed n fmt args ds h e =
    rw (==_false n (2 ^ 31) h) (ap (λ q. q >>= λ cs. ok (signed_text 10 n ++ cs)) e)

expand-unsigned :
    (n : ℕ) (fmt : List ℕ) (args : List Arg) (ds : List ℕ)
    → expand fmt args ≡ ok ds
    → expand (b'%' ∷ b'x' ∷ fmt) (int n ∷ args) ≡ ok (unsigned_text 16 n ++ ds)
unfolding expand text_of meaning
expand-unsigned n fmt args ds e = ap (λ q. q >>= λ cs. ok (unsigned_text 16 n ++ cs)) e

-- A format taken apart: literal text, `%d` and `%x`.
pub data Piece : Type 0 where
  literal : List ℕ → Piece
  decimal : Piece
  hexadecimal : Piece

abbrev pub format : List Piece → List ℕ
format [] = []
format (literal cs ∷ ps) = cs ++ format ps
format (decimal ∷ ps) = b'%' ∷ b'd' ∷ format ps
format (hexadecimal ∷ ps) = b'%' ∷ b'x' ∷ format ps

-- The text that the numbers make of it.
abbrev pub spell : List Piece → List ℕ → List ℕ
spell [] ns = []
spell (literal cs ∷ ps) ns = cs ++ spell ps ns
spell (decimal ∷ ps) [] = []
spell (decimal ∷ ps) (n ∷ ns) = signed_text 10 n ++ spell ps ns
spell (hexadecimal ∷ ps) [] = []
spell (hexadecimal ∷ ps) (n ∷ ns) = unsigned_text 16 n ++ spell ps ns

-- There is a number of 32 bits for each conversion, not the least `int` for `%d`.
abbrev pub Fits : List Piece → List ℕ → Type 0
Fits [] [] = Unit
Fits [] (n ∷ ns) = ⊥
Fits (literal cs ∷ ps) ns = (plain_text cs ≡ true) × Fits ps ns
Fits (decimal ∷ ps) [] = ⊥
Fits (decimal ∷ ps) (n ∷ ns) = (n < 2 ^ 32) × (n ≢ 2 ^ 31) × Fits ps ns
Fits (hexadecimal ∷ ps) [] = ⊥
Fits (hexadecimal ∷ ps) (n ∷ ns) = (n < 2 ^ 32) × Fits ps ns

expand-format :
    (ps : List Piece) (ns : List ℕ)
    → Fits ps ns
    → expand (format ps) (map int ns) ≡ ok (spell ps ns)
unfolding expand
expand-format [] [] h = refl
expand-format [] (n ∷ ns) h = absurd h
expand-format (literal cs ∷ ps) ns h =
    expand-literal cs (format ps) (map int ns) (spell ps ns) (h.0) (expand-format ps ns h.1)
expand-format (decimal ∷ ps) [] h = absurd h
expand-format (decimal ∷ ps) (n ∷ ns) h =
    expand-signed n (format ps) (map int ns) (spell ps ns) (h.1) (expand-format ps ns h.2)
expand-format (hexadecimal ∷ ps) [] h = absurd h
expand-format (hexadecimal ∷ ps) (n ∷ ns) h =
    expand-unsigned n (format ps) (map int ns) (spell ps ns) (expand-format ps ns h.1)

Fits-Words : (ps : List Piece) (ns : List ℕ) → Fits ps ns → Words (map int ns)
Fits-Words [] [] h = tt
Fits-Words [] (n ∷ ns) h = absurd h
Fits-Words (literal cs ∷ ps) ns h = Fits-Words ps ns h.1
Fits-Words (decimal ∷ ps) [] h = absurd h
Fits-Words (decimal ∷ ps) (n ∷ ns) h = (h.0, Fits-Words ps ns h.2)
Fits-Words (hexadecimal ∷ ps) [] h = absurd h
Fits-Words (hexadecimal ∷ ps) (n ∷ ns) h = (h.0, Fits-Words ps ns h.1)

-- `printf` of such a format shows the text.
pub print-spell :
    (ps : List Piece) (ns : List ℕ) (v : Vga)
    → Fits ps ns
    → Shown (text (spell ps ns) ∷ []) v (print (format ps) (map int ns) v)
print-spell ps ns v h =
    print-Shown (format ps) (map int ns) (spell ps ns) v (Fits-Words ps ns h)
      (expand-format ps ns h)

pub print-then :
    (ps : List Piece) (ns : List ℕ) (ms : List Line) (v : Vga) (f : Vga → Run Vga)
    → Fits ps ns
    → ((w : Vga) → Shown ms w (f w))
    → Shown (text (spell ps ns) ∷ ms) v (print (format ps) (map int ns) v >>= f)
print-then ps ns ms v f h rest =
    Shown-then (text (spell ps ns) ∷ []) ms v (print (format ps) (map int ns) v) f
      (print-spell ps ns v h) rest

-- A text without `%` is its own format.
pub expand-plain : (cs : List ℕ) → plain_text cs ≡ true → expand cs [] ≡ ok cs
expand-plain cs h =
    subst (λ l. expand l [] ≡ ok l) (append-nil cs) (expand-format (literal cs ∷ []) [] (h, tt))

-- So does that of a text without `%`.
pub print-plain :
    (cs : List ℕ) (v : Vga) → plain_text cs ≡ true → Shown (text cs ∷ []) v (print cs [] v)
print-plain cs v h =
    subst (λ l. Shown (text l ∷ []) v (print l [] v)) (append-nil cs)
      (print-spell (literal cs ∷ []) [] v (h, tt))
