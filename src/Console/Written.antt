-- ===== src/Console/Written.antt =====
-- What the loop of `intToString` and `uintToStr` writes (src/arch/x86/drivers/vga.cpp).
use another_os.Base.{
  ℕ, zero, suc, ◌+◌, ◌-◌, ◌*◌, ◌/◌, ◌%◌, ◌^◌, ◌<◌, ◌≤◌, ◌≡◌, ◌≢◌, ◌∙◌, ◌||◌, ◌&&◌, refl, ap, arith,
  Bool, true, if◌then◌else◌, ltb, leb, ◌==◌, Bool-cases, inl, inr, ok,
}
use native.Mathlib.Nat.{pow-suc, mod-lt, mod-add-div', div-lt_iff_lt-mul, mul-le-mul_left}
use another_os.Console.Numbers.{Bytes, put_byte, digit_char, write_digits}

-- The value of a digit; letters are upper case.
unfoldable pub digit_value : ℕ → ℕ
digit_value c = if ltb c 58 then c - 48 else c - 55

unfoldable pub is_digit : ℕ → ℕ → Bool
is_digit base c =
    (leb 48 c) && (ltb c 58) && (ltb (c - 48) base) || (leb 65 c) && (ltb (c - 55) base)

-- The number that the first `n` bytes write in `base`, the first digit being the highest.
unfoldable pub number : ℕ → ℕ → Bytes → ℕ
number base zero str = 0
number base (suc n) str = number base n str * base + digit_value (str n)

-- The same, of `n` bytes from `p` on, the first digit being the lowest.
unfoldable pub number_up : ℕ → ℕ → ℕ → Bytes → ℕ
number_up base zero p str = 0
number_up base (suc n) p str = digit_value (str p) + number_up base n (suc p) str * base

digit_char_value : (d : ℕ) → d < 16 → digit_value (digit_char d) ≡ d
unfolding digit_value
digit_char_value d h = ground arith

is_digit-char : (base d : ℕ) → base ≤ 16 → d < base → is_digit base (digit_char d) ≡ true
unfolding is_digit
is_digit-char base d h k = ground arith

pub number-reversed :
    (n p base : ℕ) (a b : Bytes)
    → ((i : ℕ) → i < n → a i ≡ b (p + (n - 1 - i)))
    → number base n a ≡ number_up base n p b
unfolding number number_up
number-reversed zero p base a b h = refl
number-reversed (suc n) p base a b h =
    let lowest : a n ≡ b p = h n (omega arith) ∙ ap b (omega arith) in
    let rest = number-reversed n (suc p) base a b (λ i l. h i (omega arith) ∙ ap b (omega arith)) in
    rw (lowest, rest) (omega arith)

pub put_byte-same : (str : Bytes) (i c : ℕ) → put_byte str i c i ≡ c
unfolding put_byte
put_byte-same str i c = ground arith

pub put_byte-other : (str : Bytes) (i j c : ℕ) → j ≢ i → put_byte str i c j ≡ str j
unfolding put_byte
put_byte-other str i j c h = ground arith

-- What the loop of the conversions leaves: `n` digits from `pos` on that write the value, the lowest
-- first, and the bytes before `pos` as they were.
pub record Written (value base pos : ℕ) (str : Bytes) (r : ℕ × Bytes) (n : ℕ) : Type 0 where
  pub ends : r.0 ≡ pos + n
  pub writes : number_up base n pos r.1 ≡ value
  pub digits : (i : ℕ) → i < n → is_digit base (r.1 (pos + i)) ≡ true
  pub kept : (i : ℕ) → i < pos → r.1 i ≡ str i
  pub nonempty : value ≢ 0 → 0 < n

Written-none : (base pos : ℕ) (str : Bytes) → Written 0 base pos str (pos, str) 0
unfolding number_up
Written-none base pos str = record {
  ends = omega arith;
  writes = refl;
  digits = λ i l. absurd (omega arith);
  kept = λ i l. refl;
  nonempty = λ e. absurd (e refl);
}

Written-more :
    (value base pos n : ℕ) (str : Bytes) (r : ℕ × Bytes)
    → 2 ≤ base
    → base ≤ 16
    → Written (value / base) base (suc pos) (put_byte str pos (digit_char (value % base))) r n
    → Written value base pos str r (suc n)
unfolding number_up
Written-more value base pos n str r lo hi w =
    let small : value % base < base = mod-lt value (omega arith) in
    let here : r.1 pos ≡ digit_char (value % base) =
      w.kept pos (omega arith) ∙ put_byte-same str pos _ in
    let digit : digit_value (r.1 pos) ≡ value % base =
      ap digit_value here ∙ digit_char_value (value % base) (omega arith) in
    record {
      ends = omega (arith, w.ends);
      writes = rw (digit, w.writes) (mod-add-div' value base);
      digits = λ i l. elim (Bool-cases (i == 0)) [
        | inl first ↦
            let at : r.1 (pos + i) ≡ digit_char (value % base) =
              ap r.1 (ground (arith, first)) ∙ here in
            rw at (is_digit-char base (value % base) hi small)
        | inr later ↦
            let at : r.1 (pos + i) ≡ r.1 (suc pos + (i - 1)) = ap r.1 (ground (arith, later)) in
            rw at (w.digits (i - 1) (ground (arith, later)))
      ];
      kept = λ i l. w.kept i (omega arith) ∙ put_byte-other str pos i _ (omega arith);
      nonempty = λ e. omega arith;
    }

pub write_digits-Written :
    (fuel value base pos : ℕ) (str : Bytes)
    → 2 ≤ base
    → base ≤ 16
    → value < 2 ^ fuel
    → (n : ℕ) × (r : ℕ × Bytes) × (n ≤ fuel)
      × (write_digits (suc fuel) value base pos str ≡ ok r)
      × Written value base pos str r n
unfolding write_digits
write_digits-Written zero value base pos str lo hi h =
    let nothing : value ≡ 0 = omega arith in
    rw nothing (0, (pos, str), omega arith, refl, Written-none base pos str)
write_digits-Written (suc fuel) value base pos str lo hi h = elim (Bool-cases (value == 0)) [
  | inl nothing ↦
      let gone : value ≡ 0 = ground (arith, nothing) in
      rw gone (0, (pos, str), omega arith, refl, Written-none base pos str)
  | inr some_left ↦
      let wide : 2 ^ fuel * 2 ≤ 2 ^ fuel * base = mul-le-mul_left (2 ^ fuel) lo in
      let fewer : value / base < 2 ^ fuel =
        (div-lt_iff_lt-mul (omega arith)).1 (omega (arith, wide, pow-suc 2 fuel)) in
      let (n, r, bound, run, w) =
        write_digits-Written fuel (value / base) base (suc pos)
          (put_byte str pos (digit_char (value % base))) lo hi fewer in
      rw some_left (suc n, r, omega arith, run, Written-more value base pos n str r lo hi w)
]
