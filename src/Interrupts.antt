-- ===== src/Interrupts.antt =====
-- The interrupt descriptor table and the two interrupt controllers of
-- src/arch/x86/tables/idt.{h,cpp}. Port writes are logged, the newest first; what a port reads is
-- a parameter `inb` of the operation that reads, given the writes before it.
pub mod Gates
pub mod Lines
mod Tests
use another_os.Base.{
  ℕ, zero, suc, ◌+◌, ◌-◌, ◌*◌, ◌/◌, ◌%◌, ◌^◌, bit_and, Bool, true, false, List, [], ◌∷◌, ◌&&◌, ◌||◌,
  if◌then◌else◌, ltb, leb, ◌==◌, sub32, Run, ok, halt, undefined, out_of_fuel,
}

-- `idt_entry`; `zero_byte` is the source's `zero`.
pub record Gate : Type 0 where
  pub offset0 : ℕ
  pub selector : ℕ
  pub zero_byte : ℕ
  pub type_attr : ℕ
  pub offset1 : ℕ

-- `idt`, `handlers` (0 is the null pointer), `idt_ptr`, what `sti` sets, and the port writes.
pub record Idt : Type 0 where
  pub gates : ℕ → Gate
  pub handlers : ℕ → ℕ
  pub idt_base : ℕ
  pub idt_limit : ℕ
  pub interrupts_on : Bool
  pub out : List (ℕ × ℕ)

-- `outb` of ports.h.
abbrev pub outb : ℕ → ℕ → Idt → Idt
outb port val s = record s { out = (port, val) ∷ s.out }

unfoldable pub set_at : {A : Type 0} → (ℕ → A) → ℕ → A → ℕ → A
set_at f i a j = if i == j then a else f j

pub idt_create_entry : ℕ → ℕ → ℕ → ℕ → Idt → Idt
idt_create_entry idx base sel flags s = record s {
  gates = set_at s.gates idx (record {
    offset0 = bit_and base 0xFFFF;
    selector = sel;
    zero_byte = 0;
    type_attr = flags;
    offset1 = bit_and (base / 2 ^ 16) 0xFFFF;
  });
}

pub remap_irqs : Idt → Idt
remap_irqs s =
    let s = outb 0x20 0x11 s in
    let s = outb 0xA0 0x11 s in
    let s = outb 0x21 0x20 s in
    let s = outb 0xA1 0x28 s in
    let s = outb 0x21 0x04 s in
    let s = outb 0xA1 0x02 s in
    let s = outb 0x21 0x01 s in
    let s = outb 0xA1 0x01 s in
    let s = outb 0x21 0x0 s in
    let s = outb 0xA1 0x0 s in let s = outb 0x21 0xff s in outb 0xA1 0xff s

-- `i < 8` and `i >= 8` on the `int` whose two's complement is `i`.
abbrev pub below_eight : ℕ → Bool
below_eight i = ltb i 8 || leb (2 ^ 31) i

pub ack_int : ℕ → Idt → Idt
ack_int i s = let s = if below_eight i then s else outb 0xA0 0x20 s in outb 0x20 0x20 s

-- `value = inb(port) & ~(1 << i); outb(port, value)`. A shift by 32 and more, as in the call for vector
-- 0x80, C leaves undefined; the instruction that the compiler takes for it counts modulo 32.
unfoldable pub unmask : (List (ℕ × ℕ) → ℕ → ℕ) → ℕ → ℕ → Idt → Idt
unmask inb port i s = outb port (bit_and (inb s.out port) (2 ^ 32 - 1 - 2 ^ (i % 32)) % 2 ^ 8) s

pub install_handler : (List (ℕ × ℕ) → ℕ → ℕ) → ℕ → ℕ → Bool → Idt → Idt
install_handler inb i handler is_hw s =
    let s = record s { handlers = set_at s.handlers i handler } in
    let line = sub32 i 32 in
    if is_hw
    then if below_eight line then unmask inb 0x21 line s else unmask inb 0xA1 (sub32 line 8) s
    else s

-- The first `n` of the calls for `isr0` to `isr31`, and of those for `irq0` to `irq15`.
pub create_isrs : ℕ → (ℕ → ℕ) → Idt → Idt
create_isrs zero isr s = s
create_isrs (suc n) isr s = idt_create_entry n (isr n) 0x08 0x8E (create_isrs n isr s)

pub create_irqs : ℕ → (ℕ → ℕ) → Idt → Idt
create_irqs zero irq s = s
create_irqs (suc n) irq s = idt_create_entry (32 + n) (irq n) 0x08 0x8E (create_irqs n irq s)

-- `IDT::Init`; `isr` and `irq` are the addresses of the assembly stubs, `table` that of `idt`.
pub init : (List (ℕ × ℕ) → ℕ → ℕ) → (ℕ → ℕ) → (ℕ → ℕ) → ℕ → ℕ → Idt → Idt
init inb isr irq table syscall_handler s =
    let s = create_isrs 32 isr s in
    let s = remap_irqs s in
    let s = create_irqs 16 irq s in
    let s = idt_create_entry 128 (irq 128) 0x08 0xEE s in
    let s = record s { idt_base = table; idt_limit = 8 * 256 - 1; interrupts_on = true } in
    install_handler inb 0x80 syscall_handler true s

-- `int_handler`: an exception is printed, and the kernel halts.
pub int_handler : Run ℕ
int_handler = halt

-- `irq_handler`: the saved registers stand at `esp`, `int_no` being the tenth. `call` runs the
-- handler at an address, which may change more than the table. There are 256 handlers.
pub irq_handler : {A : Type 0} → (ℕ → ℕ → Idt → Run (A × Idt)) → (ℕ → ℕ) → ℕ → Idt → Run (A × Idt)
irq_handler call mem esp s =
    let int_no = mem (esp + 36) in
    let s = ack_int int_no s in
    if leb 256 int_no
    then undefined
    else if s.handlers int_no == 0
    then halt
    else call (s.handlers int_no) esp s
