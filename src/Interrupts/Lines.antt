-- ===== src/Interrupts/Lines.antt =====
-- The lines of the two controllers: acknowledgement, masks and dispatch
-- (src/arch/x86/tables/idt.cpp).
use another_os.Base.{
  ℕ, ◌+◌, ◌-◌, ◌%◌, ◌^◌, ◌<◌, ◌≤◌, ◌≡◌, ◌∙◌, refl, sym, ap, arith, bit_and, true, false, List, ◌∷◌,
  if◌then◌else◌, ltb, ◌==◌, sub32, Bool-cases, inl, inr, ◌≢◌, leb, ==_false, ==_refl, Run,
}
use native.Mathlib.Nat.{pow-le-pow_right}
use another_os.Base.Bits.{bit, bit-bit_and, bit_and_low, bit-le}
use another_os.Base.Masks.{bit_complement, bit-pow, bit-zero}
use another_os.Interrupts.{Idt, set_at, ack_int, install_handler, unmask, below_eight, irq_handler}

-- Every hardware interrupt acknowledges both controllers, also a line 0 to 7 that the second one did
-- not raise, because the vector of such a line is 32 or more.
pub ack_int_both :
    (i : ℕ) (s : Idt)
    → 32 ≤ i
    → i < 2 ^ 31
    → (ack_int i s).out ≡ (0x20, 0x20) ∷ (0xA0, 0x20) ∷ s.out
unfolding ack_int
ack_int_both i s h k = let e : below_eight i ≡ false = ground arith in rw e refl

-- The port of the controller that has a line, and the bit of the line there.
abbrev pub port_of : ℕ → ℕ
port_of line = if ltb line 8 then 0x21 else 0xA1

unmask_mask :
    (m j k : ℕ)
    → j < 8
    → k < 8
    → bit k (bit_and m (2 ^ 32 - 1 - 2 ^ (j % 32)) % 2 ^ 8) ≡ (if k == j then 0 else bit k m)
unmask_mask m j k hj hk =
    let shift : j % 32 ≡ j = omega arith in
    let bound : 2 ^ j ≤ 2 ^ 7 = pow-le-pow_right (omega arith) {i = j} {j = 7} (omega arith) in
    ap (bit k) (sym (bit_and_low 8 (bit_and m (2 ^ 32 - 1 - 2 ^ (j % 32)))))
    ∙ bit-bit_and k (bit_and m (2 ^ 32 - 1 - 2 ^ (j % 32))) 255
    ∙ rw shift (
        ground (
          arith,
          bit-bit_and k m (2 ^ 32 - 1 - 2 ^ j),
          bit_complement 32 k (2 ^ j) (omega arith) (omega (arith, bound)),
          bit_complement 8 k 0 hk (omega arith),
          bit-zero k,
          bit-pow k j,
          bit-le k m,
        ))

-- Installing a handler for one of the 16 lines sets the handler of that vector alone, and writes to
-- the controller of the line the mask read there with the line's own bit cleared.
pub install_handler_line :
    (inb : List (ℕ × ℕ) → ℕ → ℕ) (line handler : ℕ) (s : Idt)
    → line < 16
    → (mask : ℕ) × ((install_handler inb (line + 32) handler true s).out
        ≡ (port_of line, mask) ∷ s.out)
      × ((k : ℕ)
          → k < 8
          → bit k mask ≡ (if k == line % 8 then 0 else bit k (inb s.out (port_of line))))
      × ((v : ℕ)
          → (install_handler inb (line + 32) handler true s).handlers v
            ≡ (if line + 32 == v then handler else s.handlers v))
unfolding install_handler unmask set_at
install_handler_line inb line handler s h =
    let back : sub32 (line + 32) 32 ≡ line = omega arith in
    elim (Bool-cases (ltb line 8)) [
      | inl low ↦
          let first : below_eight line ≡ true = ground (arith, low) in
          let same : line % 8 ≡ line = ground (arith, low) in
          rw (back, first, low, same)
            (_, refl, λ k. unmask_mask (inb s.out 0x21) line k (omega (arith, same)), λ v. refl)
      | inr high ↦
          let second : below_eight line ≡ false = ground (arith, high) in
          let moved : sub32 line 8 ≡ line % 8 = ground (arith, high) in
          rw (back, second, high, moved)
            (_, refl, λ k. unmask_mask (inb s.out 0xA1) (line % 8) k (omega arith), λ v. refl)
    ]

ack_int-handlers : (i : ℕ) (s : Idt) → (ack_int i s).handlers ≡ s.handlers
unfolding ack_int
ack_int-handlers i s = elim (Bool-cases (below_eight i)) [
  | inl low ↦ rw low refl
  | inr high ↦ rw high refl
]

pub ack_int-handler : (i v : ℕ) (s : Idt) → (ack_int i s).handlers v ≡ s.handlers v
ack_int-handler i v s = ap (λ f. f v) (ack_int-handlers i s)

-- An interrupt whose vector has a handler calls it, once the interrupt is acknowledged.
pub irq_handler-calls :
    {A : Type 0} (call : ℕ → ℕ → Idt → Run (A × Idt)) (mem : ℕ → ℕ) (esp n a : ℕ) (s : Idt)
    → mem (esp + 36) ≡ n
    → n < 256
    → s.handlers n ≡ a
    → a ≢ 0
    → irq_handler call mem esp s ≡ call a esp (ack_int n s)
unfolding irq_handler
irq_handler-calls call mem esp n a s number inside handler there =
    let low : leb 256 n ≡ false = ground arith in
    rw (number, low, ack_int-handler n n s, handler, ==_false a 0 there) refl

-- The next interrupt of one of the 16 hardware lines after a handler was installed for it, at an
-- address that is not null: whatever the handler does, `irq_handler` calls it, with one more line
-- open in the masks. Before that both controllers are told that the interrupt was served, also for
-- the lines 0 to 7, which the second one does not have.
pub irq_handler-install_handler :
    {A : Type 0} (call : ℕ → ℕ → Idt → Run (A × Idt)) (inb : List (ℕ × ℕ) → ℕ → ℕ) (mem : ℕ → ℕ)
    (esp line handler : ℕ) (s : Idt)
    → line < 16
    → handler ≢ 0
    → mem (esp + 36) ≡ line + 32
    → (mask : ℕ) × (s' : Idt) × (irq_handler call mem esp
          (install_handler inb (line + 32) handler true s)
        ≡ call handler esp s')
      × (s'.out ≡ (0x20, 0x20) ∷ (0xA0, 0x20) ∷ (port_of line, mask) ∷ s.out)
      × ((k : ℕ)
          → k < 8
          → bit k mask ≡ (if k == line % 8 then 0 else bit k (inb s.out (port_of line))))
      × ((v : ℕ) → s'.handlers v ≡ (if line + 32 == v then handler else s.handlers v))
irq_handler-install_handler call inb mem esp line handler s small there number =
    let installed = install_handler inb (line + 32) handler true s in
    let (mask, out, bits, handlers) = install_handler_line inb line handler s small in
    let found : installed.handlers (line + 32) ≡ handler =
      handlers (line + 32) ∙ rw (==_refl (line + 32)) refl in
    (
      mask,
      ack_int (line + 32) installed,
      irq_handler-calls call mem esp (line + 32) handler installed number (omega arith) found there,
      ack_int_both (line + 32) installed (omega arith) (omega arith)
          ∙ ap (λ o. (0x20, 0x20) ∷ (0xA0, 0x20) ∷ o) out,
      bits,
      λ v. ack_int-handler (line + 32) v installed ∙ handlers v,
    )
