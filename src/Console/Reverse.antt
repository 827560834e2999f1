-- ===== src/Console/Reverse.antt =====
-- `reverseStr` reverses (src/arch/x86/drivers/vga.cpp).
use another_os.Base.{
  ℕ, zero, suc, ◌+◌, ◌-◌, ◌/◌, ◌<◌, ◌≤◌, ◌≡◌, ◌∙◌, refl, ap, arith, ◌⊎◌, if◌then◌else◌, ltb, ◌==◌,
  Bool-cases, inl, inr,
}
use another_os.Console.Numbers.{Bytes, put_byte, swap, reverse_from, reverse_str}

swap-at :
    (a b : ℕ) (str : Bytes) (i : ℕ)
    → swap a b str i ≡ (if b == i then str a else if a == i then str b else str i)
unfolding swap put_byte
swap-at a b str i = ground arith

-- The rounds of the loop leave alone what lies before `pos` or behind its mirror image.
reverse_from-outside :
    (n pos length : ℕ) (str : Bytes) (i : ℕ)
    → n + pos ≡ length / 2
    → (i < pos) ⊎ (length ≤ i + pos)
    → reverse_from n pos length str i ≡ str i
unfolding reverse_from
reverse_from-outside zero pos length str i h o = refl
reverse_from-outside (suc n) pos length str i h o =
    let kept : swap pos (length - pos - 1) str i ≡ str i = elim o [
      | inl before ↦ ground (arith, swap-at pos (length - pos - 1) str i)
      | inr behind ↦ ground (arith, swap-at pos (length - pos - 1) str i)
    ] in
    reverse_from-outside n (suc pos) length _ i (omega arith)
      (elim o [ inl before ↦ inl (omega arith) | inr behind ↦ inr (omega arith) ])
    ∙ kept

-- They exchange the bytes between.
reverse_from-inside :
    (n pos length : ℕ) (str : Bytes) (i : ℕ)
    → n + pos ≡ length / 2
    → pos ≤ i
    → i + pos < length
    → reverse_from n pos length str i ≡ str (length - 1 - i)
unfolding reverse_from
reverse_from-inside zero pos length str i h l u = ap str (omega arith)
reverse_from-inside (suc n) pos length str i h l u =
    let mirror = length - pos - 1 in
    elim (Bool-cases (pos == i)) [
      | inl first ↦
          let other : length - 1 - i ≡ mirror = ground (arith, first) in
          reverse_from-outside n (suc pos) length _ i (omega arith) (inl (ground (arith, first)))
          ∙ rw other (ground (arith, swap-at pos mirror str i, first))
      | inr not_first ↦ elim (Bool-cases (mirror == i)) [
        | inl last ↦
            let other : length - 1 - i ≡ pos = ground (arith, last) in
            reverse_from-outside n (suc pos) length _ i (omega arith) (inr (ground (arith, last)))
            ∙ rw other (ground (arith, swap-at pos mirror str i, last))
        | inr not_last ↦
            reverse_from-inside n (suc pos) length _ i (omega arith) (ground (arith, not_first))
              (ground (arith, not_last))
            ∙ ground (arith, not_first, not_last, swap-at pos mirror str (length - 1 - i))
      ]
    ]

-- `reverseStr` puts the first `length` bytes into the opposite order and keeps the others.
pub reverse_str_lem :
    (str : Bytes) (length i : ℕ)
    → reverse_str str length i ≡ (if ltb i length then str (length - 1 - i) else str i)
unfolding reverse_str
reverse_str_lem str length i = elim (Bool-cases (ltb i length)) [
  | inl inside ↦ rw inside (
      reverse_from-inside (length / 2) 0 length str i (omega arith) (omega arith)
        (ground (arith, inside)))
  | inr outside ↦ rw outside (
      reverse_from-outside (length / 2) 0 length str i (omega arith)
        (inr (ground (arith, outside))))
]
