-- ===== src/Console/Numerals.antt =====
-- The text that the number conversions leave in their buffer (src/arch/x86/drivers/vga.cpp).
use another_os.Base.{
  ℕ, zero, suc, ◌+◌, ◌-◌, ◌*◌, ◌/◌, ◌%◌, ◌^◌, ◌<◌, ◌≤◌, ◌≡◌, ◌≢◌, ◌∙◌, ◌||◌, inl, inr, refl, sym,
  ap, arith, false, List, [], ◌∷◌, ◌++◌, if◌then◌else◌, ltb, ◌==◌, ==_false, Bool-cases, ok,
}
use native.Mathlib.Nat.{pow-suc, div-lt_iff_lt-mul, mul-le-mul_left}
use another_os.Console.Written.{put_byte-same, put_byte-other}
use another_os.Console.Format.{c_string}
use another_os.Console.Numbers.{
  Bytes, put_byte, digit_char, write_digits, write_zero, reverse_str, uint_to_str, int_to_string,
}
use another_os.Console.Reverse.{reverse_str_lem}

-- The digits of a value below `2 ^ fuel`, the highest first, and none for zero.
unfoldable pub numeral : ℕ → ℕ → ℕ → List ℕ
numeral zero base value = []
numeral (suc fuel) base value =
    let all = numeral fuel base (value / base) ++ digit_char (value % base) ∷ [] in
    if value == 0 then [] else all

-- A 32-bit value as text.
abbrev pub unsigned_text : ℕ → ℕ → List ℕ
unsigned_text base value = if value == 0 then 48 ∷ [] else numeral 32 base value

-- The `int` of a two's complement as text.
abbrev pub signed_text : ℕ → ℕ → List ℕ
signed_text base value =
    if ltb (2 ^ 31) value
    then 45 ∷ unsigned_text base (2 ^ 32 - value)
    else unsigned_text base value

-- The `n` bytes from `p` on, the last first.
read_down : ℕ → ℕ → Bytes → List ℕ
read_down zero p b = []
read_down (suc n) p b = read_down n (suc p) b ++ b p ∷ []

read_down-high : (n p : ℕ) (b : Bytes) → read_down (suc n) p b ≡ b (p + n) ∷ read_down n p b
unfolding read_down
read_down-high zero p b = ap (λ i. b i ∷ []) (omega arith)
read_down-high (suc n) p b =
    ap (λ l. l ++ b p ∷ []) (read_down-high n (suc p) b)
    ∙ ap (λ i. b i ∷ (read_down n (suc p) b ++ b p ∷ [])) (omega arith)

read_down-same :
    (n p : ℕ) (a b : Bytes)
    → ((i : ℕ) → i < n → a (p + i) ≡ b (p + i))
    → read_down n p a ≡ read_down n p b
unfolding read_down
read_down-same zero p a b h = refl
read_down-same (suc n) p a b h =
    let here : a p ≡ b p = ap a (omega arith) ∙ h 0 (omega arith) ∙ ap b (omega arith) in
    let rest =
      read_down-same n (suc p) a b
        (λ i l. ap a (omega arith) ∙ h (suc i) (omega arith) ∙ ap b (omega arith)) in
    rw (here, rest) refl

-- A string that holds those bytes in the opposite order.
c_string-read_down :
    (n fuel pos : ℕ) (a b : Bytes)
    → n < fuel
    → ((i : ℕ) → i < n → a (pos + i) ≡ b (n - 1 - i))
    → ((i : ℕ) → i < n → b i ≢ 0)
    → a (pos + n) ≡ 0
    → c_string fuel a pos ≡ ok (read_down n 0 b)
unfolding c_string read_down
c_string-read_down n zero pos a b enough same set nul = absurd (omega arith)
c_string-read_down zero (suc fuel) pos a b enough same set nul =
    let end : a pos ≡ 0 = ap a (omega arith) ∙ nul in rw end refl
c_string-read_down (suc n) (suc fuel) pos a b enough same set nul =
    let here : a pos ≡ b (0 + n) = ap a (omega arith) ∙ same 0 (omega arith) ∙ ap b (omega arith) in
    let some_byte : (b (0 + n) == 0) ≡ false =
      ==_false (b (0 + n)) 0 (λ e. set n (omega arith) (ap b (omega arith) ∙ e)) in
    let rest =
      c_string-read_down n fuel (suc pos) a b (omega arith)
        (λ i l. ap a (omega arith) ∙ same (suc i) (omega arith) ∙ ap b (omega arith))
        (λ i l. set i (omega arith)) (ap a (omega arith) ∙ nul) in
    rw (here, some_byte, rest) (ap (λ l. ok l) (sym (read_down-high n 0 b)))

-- What the loop of the conversions leaves: from `pos` on the bytes of `cs` in the opposite order,
-- none of them NUL, and the bytes before `pos` as they were.
record Spelled (cs : List ℕ) (pos : ℕ) (str : Bytes) (r : ℕ × Bytes) (n : ℕ) : Type 0 where
  ends : r.0 ≡ pos + n
  text : read_down n pos r.1 ≡ cs
  set : (i : ℕ) → i < n → r.1 (pos + i) ≢ 0
  kept : (i : ℕ) → i < pos → r.1 i ≡ str i

Spelled-none : (pos : ℕ) (str : Bytes) → Spelled [] pos str (pos, str) 0
unfolding read_down
Spelled-none pos str = record {
  ends = omega arith;
  text = refl;
  set = λ i l. absurd (omega arith);
  kept = λ i l. refl;
}

digit_char-set : (d : ℕ) → digit_char d ≢ 0
digit_char-set d e = ground (arith, e)

Spelled-more :
    (cs : List ℕ) (d pos n : ℕ) (str : Bytes) (r : ℕ × Bytes)
    → Spelled cs (suc pos) (put_byte str pos (digit_char d)) r n
    → Spelled (cs ++ digit_char d ∷ []) pos str r (suc n)
unfolding read_down
Spelled-more cs d pos n str r w =
    let here : r.1 pos ≡ digit_char d =
      w.kept pos (omega arith) ∙ put_byte-same str pos (digit_char d) in
    record {
      ends = omega (arith, w.ends);
      text = rw (here, w.text) refl;
      set = λ i l. elim (Bool-cases (i == 0)) [
        | inl first ↦ λ e. digit_char-set d (sym here ∙ ap r.1 (ground (arith, first)) ∙ e)
        | inr later ↦
            λ e. w.set (i - 1) (ground (arith, later)) (ap r.1 (ground (arith, later)) ∙ e)
      ];
      kept = λ i l. w.kept i (omega arith) ∙ put_byte-other str pos i _ (omega arith);
    }

write_digits-Spelled :
    (fuel value base pos : ℕ) (str : Bytes)
    → 2 ≤ base
    → value < 2 ^ fuel
    → (n : ℕ) × (r : ℕ × Bytes) × (n ≤ fuel)
      × (write_digits (suc fuel) value base pos str ≡ ok r)
      × Spelled (numeral fuel base value) pos str r n
unfolding write_digits numeral
write_digits-Spelled zero value base pos str lo h =
    let nothing : value ≡ 0 = omega arith in
    rw nothing (0, (pos, str), omega arith, refl, Spelled-none pos str)
write_digits-Spelled (suc fuel) value base pos str lo h = elim (Bool-cases (value == 0)) [
  | inl nothing ↦ rw nothing (0, (pos, str), omega arith, refl, Spelled-none pos str)
  | inr left ↦
      let wide : 2 ^ fuel * 2 ≤ 2 ^ fuel * base = mul-le-mul_left (2 ^ fuel) lo in
      let fewer : value / base < 2 ^ fuel =
        (div-lt_iff_lt-mul (omega arith)).1 (omega (arith, wide, pow-suc 2 fuel)) in
      let (n, r, bound, run, w) =
        write_digits-Spelled fuel (value / base) base (suc pos)
          (put_byte str pos (digit_char (value % base))) lo fewer in
      rw left (suc n, r, omega arith, run, Spelled-more _ (value % base) pos n str r w)
]

-- Bytes of the loop, turned round, as a string of `tmp`.
c_string-reversed :
    (n : ℕ) (r : Bytes)
    → n < 36
    → ((i : ℕ) → i < n → r i ≢ 0)
    → c_string 36 (reverse_str (put_byte r n 0) n) 0 ≡ ok (read_down n 0 r)
c_string-reversed n r small set =
    let b = put_byte r n 0 in
    c_string-read_down n 36 0 (reverse_str b n) r small
      (λ i l.
        reverse_str_lem b n (0 + i)
        ∙ ground (arith, put_byte-other r n (n - 1 - i) 0 (omega arith)))
      set (reverse_str_lem b n (0 + n) ∙ ground (arith, put_byte-same r n 0))

c_string-unsigned :
    (cs : List ℕ) (str : Bytes) (r : ℕ × Bytes) (n : ℕ)
    → n ≤ 32
    → Spelled cs 0 str r n
    → c_string 36 (reverse_str (put_byte r.1 r.0 0) r.0) 0 ≡ ok cs
c_string-unsigned cs str r n bound w =
    let ends : r.0 ≡ n = omega (arith, w.ends) in
    rw (ends, c_string-reversed n r.1 (omega arith) (λ i l e. w.set i l (ap r.1 (omega arith) ∙ e)))
      (ap (λ l. ok l) w.text)

c_string-negative :
    (cs : List ℕ) (str : Bytes) (r : ℕ × Bytes) (n : ℕ)
    → n ≤ 32
    → Spelled cs 0 str r n
    → c_string 36 (reverse_str (put_byte (put_byte r.1 r.0 45) (suc (r.0)) 0) (suc (r.0))) 0
      ≡ ok (45 ∷ cs)
c_string-negative cs str r n bound w =
    let ends : r.0 ≡ n = omega (arith, w.ends) in
    let signed = put_byte r.1 n 45 in
    let top : signed (0 + n) ≡ 45 = ap signed (omega arith) ∙ put_byte-same r.1 n 45 in
    let below : read_down n 0 signed ≡ cs =
      read_down-same n 0 signed r.1 (λ i l. put_byte-other r.1 n (0 + i) 45 (omega arith))
      ∙ w.text in
    rw
      (
        ends,
        c_string-reversed (suc n) signed (omega arith) (signed-set n r.1 (λ i l. w.set i l)),
        read_down-high n 0 signed,
        top,
        below,
      )
      refl
  where
    signed-set :
        (n : ℕ) (b : Bytes)
        → ((i : ℕ) → i < n → b (0 + i) ≢ 0)
        → (i : ℕ) → i < suc n
        → put_byte b n 45 i ≢ 0
    signed-set n b set i l = elim (Bool-cases (i == n)) [
      | inl last ↦ λ e.
          ground
            (arith, sym (put_byte-same b n 45) ∙ ap (put_byte b n 45) (ground (arith, last)) ∙ e)
      | inr other ↦ λ e.
          set i (ground (arith, other))
            (ap b (omega arith) ∙ sym (put_byte-other b n i 45 (ground (arith, other))) ∙ e)
    ]

c_string-zero : (str : Bytes) → c_string 36 (write_zero str) 0 ≡ ok (48 ∷ [])
unfolding c_string put_byte
c_string-zero str = refl

-- The value fits in 32 bits: `uintToStr` returns, and its string is the text of the value.
pub uint_to_str-text :
    (str : Bytes) (value base : ℕ)
    → value < 2 ^ 32
    → 2 ≤ base
    → base ≤ 16
    → (b : Bytes) × (uint_to_str str value base ≡ ok b)
      × (c_string 36 b 0 ≡ ok (unsigned_text base value))
unfolding uint_to_str
uint_to_str-text str value base h lo hi = elim (Bool-cases (value == 0)) [
  | inl nothing ↦ rw nothing (write_zero str, refl, c_string-zero str)
  | inr left ↦
      let in_range : (ltb base 2 || ltb 16 base) ≡ false = ground arith in
      let (n, r, bound, run, w) = write_digits-Spelled 32 value base 0 str lo h in
      rw (left, in_range, run) (_, refl, c_string-unsigned (numeral 32 base value) str r n bound w)
]

-- `intToString` returns for every `int` but the least, and its string is the text of the value.
pub int_to_string-text :
    (str : Bytes) (value base : ℕ)
    → value < 2 ^ 32
    → value ≢ 2 ^ 31
    → 2 ≤ base
    → base ≤ 16
    → (b : Bytes) × (int_to_string str value base ≡ ok b)
      × (c_string 36 b 0 ≡ ok (signed_text base value))
unfolding int_to_string
int_to_string-text str value base h least lo hi = elim (Bool-cases (value == 0)) [
  | inl nothing ↦
      let gone : value ≡ 0 = ground (arith, nothing) in
      rw gone (write_zero str, refl, c_string-zero str)
  | inr left ↦
      let in_range : (ltb base 2 || ltb 16 base) ≡ false = ground arith in
      let proper : (value == 2 ^ 31) ≡ false = ==_false value (2 ^ 31) least in
      elim (Bool-cases (ltb (2 ^ 31) value)) [
        | inl negative ↦
            let magnitude : (2 ^ 32 - value == 0) ≡ false = ground arith in
            let (n, r, bound, run, w) =
              write_digits-Spelled 32 (2 ^ 32 - value) base 0 str lo (ground (arith, negative)) in
            rw (left, in_range, proper, negative, run, magnitude)
              (_, refl, c_string-negative (numeral 32 base (2 ^ 32 - value)) str r n bound w)
        | inr positive ↦
            let (n, r, bound, run, w) = write_digits-Spelled 32 value base 0 str lo h in
            rw (left, in_range, proper, positive, run)
              (_, refl, c_string-unsigned (numeral 32 base value) str r n bound w)
      ]
]
