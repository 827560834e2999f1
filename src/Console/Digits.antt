-- ===== src/Console/Digits.antt =====
-- What `intToString` and `uintToStr` write, read back as a number (src/arch/x86/drivers/vga.cpp).
use another_os.Base.{
  ℕ, suc, ◌+◌, ◌-◌, ◌^◌, ◌<◌, ◌≤◌, ◌≡◌, ◌≢◌, ◌∙◌, ◌||◌, refl, ap, arith, true, false, ltb, ◌==◌,
  ==_false, Bool-cases, inl, inr, ok,
}
use another_os.Console.Numbers.{
  Bytes, put_byte, write_zero, reverse_str, uint_to_str, int_to_string,
}
use another_os.Console.Reverse.{reverse_str_lem}
use another_os.Console.Written.{
  digit_value, is_digit, number, number-reversed, put_byte-same, put_byte-other, Written,
  write_digits-Written,
}

-- What stands in the buffer after a conversion: `n` digits of `base` from `from` on that write the
-- value, the highest first, and a NUL.
pub record Reads (value base from n : ℕ) (str : Bytes) : Type 0 where
  pub nul : str (from + n) ≡ 0
  pub digits : (i : ℕ) → i < n → is_digit base (str (from + i)) ≡ true
  pub writes : number base n (λ i. str (from + i)) ≡ value

module _ (value base : ℕ) (str : Bytes) where
  -- Bytes that hold the digits of the loop in the opposite order, from `from` on, and a NUL behind
  -- them.
  Reads-reversed :
      (from n : ℕ) (r : ℕ × Bytes) (b : Bytes)
      → Written value base 0 str r n
      → ((i : ℕ) → i < n → b (from + i) ≡ r.1 (n - 1 - i))
      → b (from + n) ≡ 0
      → Reads value base from n b
  Reads-reversed from n r b w same nul = record {
    nul = nul;
    digits = λ i l.
        ap (is_digit base) (same i l ∙ ap r.1 (omega arith)) ∙ w.digits (n - 1 - i) (omega arith);
    writes =
        number-reversed n 0 base (λ i. b (from + i)) r.1 (λ i l. same i l ∙ ap r.1 (omega arith))
        ∙ w.writes;
  }

  Reads-unsigned :
      (n : ℕ) (r : ℕ × Bytes)
      → Written value base 0 str r n
      → Reads value base 0 n (reverse_str (put_byte r.1 r.0 0) r.0)
  Reads-unsigned n r w =
      let ends : r.0 ≡ n = omega (arith, w.ends) in
      rw ends (
        Reads-reversed 0 n r (reverse_str (put_byte r.1 n 0) n) w
          (λ i l.
            reverse_str_lem (put_byte r.1 n 0) n (0 + i)
            ∙ ground (arith, put_byte-other r.1 n (n - 1 - i) 0 (omega arith)))
          (reverse_str_lem (put_byte r.1 n 0) n (0 + n) ∙ ground (arith, put_byte-same r.1 n 0)))

  Reads-negative :
      (n : ℕ) (r : ℕ × Bytes)
      → Written value base 0 str r n
      → (reverse_str (put_byte (put_byte r.1 r.0 45) (suc (r.0)) 0) (suc (r.0)) 0 ≡ 45)
        × Reads value base 1 n
            (reverse_str (put_byte (put_byte r.1 r.0 45) (suc (r.0)) 0) (suc (r.0)))
  Reads-negative n r w =
      let ends : r.0 ≡ n = omega (arith, w.ends) in
      let b = put_byte (put_byte r.1 n 45) (suc n) 0 in
      rw ends (
        reverse_str_lem b (suc n) 0
            ∙ ground (
              arith,
              put_byte-other (put_byte r.1 n 45) (suc n) n 0 (omega arith),
              put_byte-same r.1 n 45,
            ),
        Reads-reversed 1 n r (reverse_str b (suc n)) w
            (λ i l.
              reverse_str_lem b (suc n) (1 + i)
              ∙ ground (
                arith,
                put_byte-other (put_byte r.1 n 45) (suc n) (n - 1 - i) 0 (omega arith),
                put_byte-other r.1 n (n - 1 - i) 45 (omega arith),
              ))
            (reverse_str_lem b (suc n) (1 + n)
              ∙ ground (arith, put_byte-same (put_byte r.1 n 45) (suc n) 0)),
      )

Reads-zero : (base : ℕ) (str : Bytes) → 2 ≤ base → Reads 0 base 0 1 (write_zero str)
unfolding number put_byte is_digit digit_value
Reads-zero base str lo = record {
  nul = ground arith;
  digits = λ i l. ground arith;
  writes = ground arith;
}

-- `uintToStr` returns for every 32-bit value and every base from 2 to 16. The bytes are then at least
-- one and at most 32 digits, which read back as the value, and a NUL.
pub uint_to_str-Reads :
    (str : Bytes) (value base : ℕ)
    → value < 2 ^ 32
    → 2 ≤ base
    → base ≤ 16
    → (n : ℕ) × (str' : Bytes) × (0 < n)
      × (n ≤ 32)
      × (uint_to_str str value base ≡ ok str')
      × Reads value base 0 n str'
unfolding uint_to_str
uint_to_str-Reads str value base h lo hi = elim (Bool-cases (value == 0)) [
  | inl nothing ↦
      let gone : value ≡ 0 = ground (arith, nothing) in
      rw gone (1, write_zero str, omega arith, omega arith, refl, Reads-zero base str lo)
  | inr some_value ↦
      let in_range : (ltb base 2 || ltb 16 base) ≡ false = ground arith in
      let (n, r, bound, run, w) = write_digits-Written 32 value base 0 str lo hi h in
      rw (some_value, in_range, run)
        (
          n,
          _,
          w.nonempty (ground (arith, some_value)),
          bound,
          refl,
          Reads-unsigned value base str n r w,
        )
]

-- `intToString` returns for every `int` but the least one (the value is its two's complement) and
-- every base from 2 to 16. The bytes are then, for a negative value, a minus sign and the digits of
-- its negation, otherwise the digits of the value, at most 32 of them, and a NUL.
pub int_to_string-Reads :
    (str : Bytes) (value base : ℕ)
    → value < 2 ^ 32
    → value ≢ 2 ^ 31
    → 2 ≤ base
    → base ≤ 16
    → (n : ℕ) × (str' : Bytes) × (0 < n)
      × (n ≤ 32)
      × (int_to_string str value base ≡ ok str')
      × (value < 2 ^ 31 → Reads value base 0 n str')
      × (2 ^ 31 < value → (str' 0 ≡ 45) × Reads (2 ^ 32 - value) base 1 n str')
unfolding int_to_string
int_to_string-Reads str value base h least lo hi = elim (Bool-cases (value == 0)) [
  | inl nothing ↦
      let gone : value ≡ 0 = ground (arith, nothing) in
      rw gone (
        1,
        write_zero str,
        omega arith,
        omega arith,
        refl,
        λ l. Reads-zero base str lo,
        λ l. absurd (omega (arith, l)),
      )
  | inr some_value ↦
      let in_range : (ltb base 2 || ltb 16 base) ≡ false = ground arith in
      let proper : (value == 2 ^ 31) ≡ false = ==_false value (2 ^ 31) least in
      elim (Bool-cases (ltb (2 ^ 31) value)) [
        | inl negative ↦
            let (n, r, bound, run, w) =
              write_digits-Written 32 (2 ^ 32 - value) base 0 str lo hi
                (ground (arith, negative)) in
            rw (some_value, in_range, proper, negative, run)
              (
                n,
                _,
                w.nonempty (omega arith),
                bound,
                refl,
                λ l. absurd (ground (arith, negative)),
                λ l. Reads-negative (2 ^ 32 - value) base str n r w,
              )
        | inr positive ↦
            let (n, r, bound, run, w) = write_digits-Written 32 value base 0 str lo hi h in
            rw (some_value, in_range, proper, positive, run)
              (
                n,
                _,
                w.nonempty (ground (arith, some_value)),
                bound,
                refl,
                λ l. Reads-unsigned value base str n r w,
                λ l. absurd (ground (arith, positive)),
              )
      ]
]
