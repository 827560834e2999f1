-- ===== src/Console/Numbers.antt =====
-- `swap`, `reverseStr`, `intToString` and `uintToStr` of src/arch/x86/drivers/vga.cpp. A `char*` is the
-- bytes from it on.
use another_os.Base.{
  ℕ, zero, suc, ◌+◌, ◌-◌, ◌/◌, ◌%◌, ◌^◌, ◌||◌, if◌then◌else◌, ltb, ◌==◌, Run, ok, undefined,
  out_of_fuel, ◌>>=◌,
}

abbrev pub Bytes : Type 0
Bytes = ℕ → ℕ

unfoldable pub put_byte : Bytes → ℕ → ℕ → Bytes
put_byte str i c j = if i == j then c else str j

unfoldable pub swap : ℕ → ℕ → Bytes → Bytes
swap a b str = let tmp = str a in let str = put_byte str a (str b) in put_byte str b tmp

-- `n` rounds of the loop of `reverseStr`, from `pos` on.
unfoldable pub reverse_from : ℕ → ℕ → ℕ → Bytes → Bytes
reverse_from zero pos length str = str
reverse_from (suc n) pos length str =
    reverse_from n (suc pos) length (swap pos (length - pos - 1) str)

unfoldable pub reverse_str : Bytes → ℕ → Bytes
reverse_str str length = reverse_from (length / 2) 0 length str

-- `chars[d]`.
abbrev pub digit_char : ℕ → ℕ
digit_char d = if ltb d 10 then 48 + d else 55 + d

-- `while (value != 0)`: the last position and the bytes.
unfoldable pub write_digits : ℕ → ℕ → ℕ → ℕ → Bytes → Run (ℕ × Bytes)
write_digits zero value base pos str = out_of_fuel
write_digits (suc fuel) value base pos str =
    let rest =
      write_digits fuel (value / base) base (suc pos)
        (put_byte str pos (digit_char (value % base))) in
    if value == 0 then ok (pos, str) else rest

abbrev pub write_zero : Bytes → Bytes
write_zero str = put_byte (put_byte str 0 48) 1 0

-- 32 rounds are enough for a 32-bit value.
abbrev pub digit_fuel : ℕ
digit_fuel = 33

unfoldable pub uint_to_str : Bytes → ℕ → ℕ → Run Bytes
uint_to_str str value base =
    if value == 0
    then ok (write_zero str)
    else if ltb base 2 || ltb 16 base
    then ok (write_zero str)
    else (write_digits digit_fuel value base 0 str >>= λ r.
        ok (reverse_str (put_byte r.1 r.0 0) r.0))

-- `value` is the two's complement of the `int`. The negation of the least `int` is undefined.
unfoldable pub int_to_string : Bytes → ℕ → ℕ → Run Bytes
int_to_string str value base =
    if value == 0
    then ok (write_zero str)
    else if ltb base 2 || ltb 16 base
    then ok (write_zero str)
    else if value == 2 ^ 31
    then undefined
    else (let negate = ltb (2 ^ 31) value in
        write_digits digit_fuel (if negate then 2 ^ 32 - value else value) base 0 str >>= λ r.
        let (pos, str) = if negate then (suc (r.0), put_byte r.1 r.0 45) else r in
        ok (reverse_str (put_byte str pos 0) pos))
