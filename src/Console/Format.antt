-- ===== src/Console/Format.antt =====
-- `vprintf` of src/arch/x86/drivers/vga.cpp. The format is its bytes before the NUL; the arguments are
-- those that `va_arg` gives, in order.
use another_os.Base.{
  ℕ, zero, suc, ◌%◌, ◌^◌, true, false, List, [], ◌∷◌, if◌then◌else◌, ◌==◌, Run, ok, undefined,
  out_of_fuel, ◌>>=◌,
}
use another_os.Console.{Vga, put, put_str}
use another_os.Console.Numbers.{Bytes, int_to_string, uint_to_str}

pub data Arg : Type 0 where
  int : ℕ → Arg
  str : List ℕ → Arg

-- The bytes from `pos` up to the NUL.
unfoldable pub c_string : ℕ → Bytes → ℕ → Run (List ℕ)
c_string zero b pos = out_of_fuel
c_string (suc fuel) b pos =
    let rest = c_string fuel b (suc pos) in
    if b pos == 0 then ok [] else rest >>= λ cs. ok (b pos ∷ cs)

-- `puts` of what stands in `tmp`, after a conversion has written it.
unfoldable pub put_number : Run Bytes → Vga → Run Vga
put_number number v =
    number >>= λ b. c_string 36 b 0 >>= λ cs. ok (put_str cs (record v { tmp = b }))

-- The cases of the `switch`.
pub data Directive : Type 0 where
  character : Directive
  string : Directive
  percent : Directive
  newline : Directive
  signed : Directive
  unsigned : Directive
  plain : Directive

unfoldable pub directive_of : ℕ → Directive
directive_of ch =
    if ch == 99
    then character
    else if ch == 115
    then string
    else if ch == 37
    then percent
    else if ch == 110
    then newline
    else if ch == 100
    then signed
    else if ch == 120
    then unsigned
    else plain

-- One conversion, of the character `ch`: the arguments left and the console. An argument that is
-- missing or of the wrong type is undefined.
unfoldable pub convert : Directive → ℕ → List Arg → Vga → Run (List Arg × Vga)
convert character ch (int n ∷ args) v = ok (args, put (n % 2 ^ 8) v)
convert character ch (str s ∷ args) v = undefined
convert character ch [] v = undefined
convert string ch (str s ∷ args) v = ok (args, put_str s v)
convert string ch (int n ∷ args) v = undefined
convert string ch [] v = undefined
convert percent ch args v = ok (args, put 37 v)
convert newline ch args v = ok (args, put 10 v)
convert signed ch (int n ∷ args) v = put_number (int_to_string v.tmp n 10) v >>= λ v. ok (args, v)
convert signed ch (str s ∷ args) v = undefined
convert signed ch [] v = undefined
convert unsigned ch (int n ∷ args) v = put_number (uint_to_str v.tmp n 16) v >>= λ v. ok (args, v)
convert unsigned ch (str s ∷ args) v = undefined
convert unsigned ch [] v = undefined
convert plain ch args v = ok (args, put ch v)

-- A `%` at the end takes the NUL for a conversion, after which the loop reads on behind the format.
unfoldable pub vprintf : List ℕ → List Arg → Vga → Run Vga
vprintf [] args v = ok v
vprintf (ch ∷ []) args v = if ch == 37 then undefined else ok (put ch v)
vprintf (ch ∷ c ∷ fmt) args v = elim (ch == 37) [
  | true ↦ convert (directive_of c) c args v >>= λ r. vprintf fmt r.0 r.1
  | false ↦ vprintf (c ∷ fmt) args (put ch v)
]

-- `VGA::_print`, which the kernel calls as `printf`.
unfoldable pub print : List ℕ → List Arg → Vga → Run Vga
print fmt args v = vprintf fmt args v
