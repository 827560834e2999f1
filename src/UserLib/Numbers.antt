-- ===== src/UserLib/Numbers.antt =====
-- `swap`, `reverseStr`, `intToString` and `uintToStr` of libc/stdio.h.
use another_os.Base.{
  ℕ, zero, suc, ◌+◌, ◌-◌, ◌/◌, ◌%◌, ◌^◌, ◌||◌, if◌then◌else◌, ltb, ◌==◌, Run, ok, undefined,
  out_of_fuel, ◌>>=◌,
}
use another_os.Console.Numbers.{Bytes}

unfoldable pub store_byte : Bytes → ℕ → ℕ → Bytes
store_byte str i c j = if i == j then c else str j

unfoldable pub swap : ℕ → ℕ → Bytes → Bytes
swap a b str = let tmp = str a in let str = store_byte str a (str b) in store_byte str b tmp

-- `n` rounds of the loop of `reverseStr`, from `pos` on.
unfoldable pub reverse_rest : ℕ → ℕ → ℕ → Bytes → Bytes
reverse_rest zero pos length str = str
reverse_rest (suc n) pos length str =
    reverse_rest n (suc pos) length (swap pos (length - pos - 1) str)

unfoldable pub reverse_str : Bytes → ℕ → Bytes
reverse_str str length = reverse_rest (length / 2) 0 length str

-- `chars[d]`.
abbrev pub char_of : ℕ → ℕ
char_of d = if ltb d 10 then 48 + d else 55 + d

-- `while (value != 0)`: the last position and the bytes.
unfoldable pub put_digits : ℕ → ℕ → ℕ → ℕ → Bytes → Run (ℕ × Bytes)
put_digits zero value base pos str = out_of_fuel
put_digits (suc fuel) value base pos str =
    let rest =
      put_digits fuel (value / base) base (suc pos) (store_byte str pos (char_of (value % base))) in
    if value == 0 then ok (pos, str) else rest

abbrev pub put_zero : Bytes → Bytes
put_zero str = store_byte (store_byte str 0 48) 1 0

-- 32 rounds are enough for a 32-bit value.
abbrev pub rounds : ℕ
rounds = 33

unfoldable pub uint_to_str : Bytes → ℕ → ℕ → Run Bytes
uint_to_str str value base =
    if value == 0
    then ok (put_zero str)
    else if ltb base 2 || ltb 16 base
    then ok (put_zero str)
    else (put_digits rounds value base 0 str >>= λ r. ok (reverse_str (store_byte r.1 r.0 0) r.0))

-- `value` is the two's complement of the `int`. The negation of the least `int` is undefined.
unfoldable pub int_to_string : Bytes → ℕ → ℕ → Run Bytes
int_to_string str value base =
    if value == 0
    then ok (put_zero str)
    else if ltb base 2 || ltb 16 base
    then ok (put_zero str)
    else if value == 2 ^ 31
    then undefined
    else (let negate = ltb (2 ^ 31) value in
        put_digits rounds (if negate then 2 ^ 32 - value else value) base 0 str >>= λ r.
        let (pos, str) = if negate then (suc (r.0), store_byte r.1 r.0 45) else r in
        ok (reverse_str (store_byte str pos 0) pos))
