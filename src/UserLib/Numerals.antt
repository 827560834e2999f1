-- ===== src/UserLib/Numerals.antt =====
-- The number conversions of libc/stdio.h give the numerals that those of the console give.
use mathlib.Core.Path.{fun_ext}
use another_os.Base.{
  ℕ, zero, suc, ◌-◌, ◌/◌, ◌%◌, ◌^◌, ◌≡◌, ◌∙◌, refl, ap, if◌then◌else◌, ltb, ◌==◌, ok,
}
use another_os.Console.Numbers as Console
use another_os.Console.Numbers.{Bytes}
use another_os.UserLib.Numbers.{
  swap, store_byte, reverse_rest, reverse_str, put_digits, int_to_string, uint_to_str,
}

same_swap : (a b : ℕ) (str : Bytes) → swap a b str ≡ Console.swap a b str
unfolding swap store_byte Console.swap Console.put_byte
same_swap a b str = refl

same_reverse_rest :
    (n pos length : ℕ) (str : Bytes)
    → reverse_rest n pos length str ≡ Console.reverse_from n pos length str
unfolding reverse_rest Console.reverse_from
same_reverse_rest zero pos length str = refl
same_reverse_rest (suc n) pos length str =
    ap (reverse_rest n (suc pos) length) (same_swap pos (length - pos - 1) str)
    ∙ same_reverse_rest n (suc pos) length (Console.swap pos (length - pos - 1) str)

same_reverse_str :
    (str : Bytes) (length : ℕ) → reverse_str str length ≡ Console.reverse_str str length
unfolding reverse_str Console.reverse_str
same_reverse_str str length = same_reverse_rest (length / 2) 0 length str

same_reverse : reverse_str ≡ Console.reverse_str
same_reverse = fun_ext (λ str. fun_ext (λ length. same_reverse_str str length))

same_digits :
    (fuel value base pos : ℕ) (str : Bytes)
    → put_digits fuel value base pos str ≡ Console.write_digits fuel value base pos str
unfolding put_digits store_byte Console.write_digits Console.put_byte
same_digits zero value base pos str = refl
same_digits (suc fuel) value base pos str =
    ap (λ rest. if value == 0 then ok (pos, str) else rest)
      (same_digits fuel (value / base) base (suc pos)
        (Console.put_byte str pos (Console.digit_char (value % base))))

pub same_uint_to_str :
    (str : Bytes) (value base : ℕ) → uint_to_str str value base ≡ Console.uint_to_str str value base
unfolding uint_to_str store_byte Console.uint_to_str Console.put_byte
same_uint_to_str str value base = rw (same_digits 33 value base 0 str) (rw same_reverse refl)

pub same_int_to_string :
    (str : Bytes) (value base : ℕ)
    → int_to_string str value base ≡ Console.int_to_string str value base
unfolding int_to_string store_byte Console.int_to_string Console.put_byte
same_int_to_string str value base =
    rw (same_digits 33 (if ltb (2 ^ 31) value then 2 ^ 32 - value else value) base 0 str)
      (rw same_reverse refl)
