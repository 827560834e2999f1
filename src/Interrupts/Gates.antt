-- ===== src/Interrupts/Gates.antt =====
-- The gates of the table: what the processor reads back, and the table that `Init` leaves
-- (src/arch/x86/tables/idt.cpp).
use another_os.Base.{
  ℕ, zero, suc, ◌+◌, ◌-◌, ◌*◌, ◌/◌, ◌%◌, ◌^◌, ◌<◌, ◌≡◌, refl, ◌∙◌, ap, arith, ◌&&◌, Bool, true,
  false, List, if◌then◌else◌, ltb, leb, ◌==◌, Bool-cases, sub32, inl, inr,
}
use another_os.Base.Bits.{bit_and_low}
use another_os.Interrupts.{
  Gate, Idt, set_at, idt_create_entry, install_handler, unmask, create_isrs, create_irqs, init,
  remap_irqs, below_eight,
}

-- The address that the processor jumps to through a gate.
abbrev pub gate_offset : Gate → ℕ
gate_offset g = g.offset1 * 2 ^ 16 + g.offset0

-- The gate for the code at `base`.
unfoldable pub gate_of : ℕ → ℕ → ℕ → Gate
gate_of base sel flags = record {
  offset0 = base % 2 ^ 16;
  selector = sel;
  zero_byte = 0;
  type_attr = flags;
  offset1 = base / 2 ^ 16 % 2 ^ 16;
}

pub gate_of_offset :
    (base sel flags : ℕ) → base < 2 ^ 32 → gate_offset (gate_of base sel flags) ≡ base
unfolding gate_of
gate_of_offset base sel flags h = omega arith

pub gates-create :
    (idx base sel flags v : ℕ) (s : Idt)
    → (idt_create_entry idx base sel flags s).gates v
      ≡ (if idx == v then gate_of base sel flags else s.gates v)
unfolding idt_create_entry set_at gate_of
gates-create idx base sel flags v s = rw (bit_and_low 16 base, bit_and_low 16 (base / 2 ^ 16)) refl

gates-isrs :
    (n v : ℕ) (isr : ℕ → ℕ) (s : Idt)
    → (create_isrs n isr s).gates v ≡ (if ltb v n then gate_of (isr v) 0x08 0x8E else s.gates v)
unfolding create_isrs
gates-isrs zero v isr s = ground arith
gates-isrs (suc n) v isr s =
    gates-create n (isr n) 0x08 0x8E v (create_isrs n isr s) ∙ ground (arith, gates-isrs n v isr s)

gates-irqs :
    (n v : ℕ) (irq : ℕ → ℕ) (s : Idt)
    → (create_irqs n irq s).gates v
      ≡ (if leb 32 v && ltb v (32 + n) then gate_of (irq (v - 32)) 0x08 0x8E else s.gates v)
unfolding create_irqs
gates-irqs zero v irq s = ground arith
gates-irqs (suc n) v irq s =
    gates-create (32 + n) (irq n) 0x08 0x8E v (create_irqs n irq s)
    ∙ elim (Bool-cases (32 + n == v)) [
      | inl e ↦ let line : v - 32 ≡ n = ground (arith, e) in rw line (ground (arith, e))
      | inr e ↦ ground (arith, e, gates-irqs n v irq s)
    ]

gates-install :
    (inb : List (ℕ × ℕ) → ℕ → ℕ) (i handler : ℕ) (is_hw : Bool) (s : Idt)
    → (install_handler inb i handler is_hw s).gates ≡ s.gates
unfolding install_handler unmask
gates-install inb i handler false s = refl
gates-install inb i handler true s = elim (Bool-cases (below_eight (sub32 i 32))) [
  | inl e ↦ rw e refl
  | inr e ↦ rw e refl
]

-- The table after `Init`, at each vector: a kernel interrupt gate for each of the 32 exceptions and
-- the 16 hardware lines, a gate that user code may call at 128, and what stood there before
-- elsewhere. (`isr` and `irq` are the addresses of the stubs.)
pub gates-init :
    (inb : List (ℕ × ℕ) → ℕ → ℕ) (isr irq : ℕ → ℕ) (table syscall_handler v : ℕ) (s : Idt)
    → (init inb isr irq table syscall_handler s).gates v ≡ (
        if ltb v 32
        then gate_of (isr v) 0x08 0x8E
        else if ltb v 48
        then gate_of (irq (v - 32)) 0x08 0x8E
        else if v == 128
        then gate_of (irq 128) 0x08 0xEE
        else s.gates v)
unfolding init remap_irqs
gates-init inb isr irq table syscall_handler v s =
    ap (λ g. g v) (gates-install inb 0x80 syscall_handler true _)
    ∙ gates-create 128 (irq 128) 0x08 0xEE v _
    ∙ ground (arith, gates-irqs 16 v irq (remap_irqs (create_isrs 32 isr s)), gates-isrs 32 v isr s)
