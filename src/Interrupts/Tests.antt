-- ===== src/Interrupts/Tests.antt =====
-- Runs of src/arch/x86/tables/idt.cpp.
use another_os.Base.{
  ℕ, ◌+◌, ◌%◌, ◌<◌, ◌≡◌, refl, arith, true, false, List, [], ◌∷◌, if◌then◌else◌, ◌==◌, Run, ok,
}
use another_os.Base.Bits.{bit}
use another_os.Interrupts.{Gate, Idt, install_handler, irq_handler}
use another_os.Interrupts.Lines.{port_of, irq_handler-install_handler}

abbrev no_gate : Gate
no_gate = record { offset0 = 0; selector = 0; zero_byte = 0; type_attr = 0; offset1 = 0 }

abbrev at_boot : Idt
at_boot = record {
  gates = λ v. no_gate;
  handlers = λ v. 0;
  idt_base = 0;
  idt_limit = 0;
  interrupts_on = false;
  out = [];
}

abbrev all_masked : List (ℕ × ℕ) → ℕ → ℕ
all_masked out port = 0xff

abbrev stub : ℕ → ℕ
stub n = 0xC0100000 + n

abbrev call_back : ℕ → ℕ → Idt → Run (ℕ × Idt)
call_back handler esp s = ok (esp, s)

-- The interrupt of the keyboard.
abbrev saved : ℕ → ℕ
saved a = 33

irq_handler-install_handler_example :
    (mask : ℕ) × (s' : Idt) × (irq_handler call_back saved 0x1000
        (install_handler all_masked (1 + 32) 0xC0300000 true at_boot)
      ≡ ok (0x1000, s'))
    × (s'.out ≡ (0x20, 0x20) ∷ (0xA0, 0x20) ∷ (port_of 1, mask) ∷ [])
    × ((k : ℕ) → k < 8 → bit k mask ≡ (if k == 1 % 8 then 0 else bit k 0xff))
    × ((v : ℕ) → s'.handlers v ≡ (if 1 + 32 == v then 0xC0300000 else 0))
irq_handler-install_handler_example =
    irq_handler-install_handler call_back all_masked saved 0x1000 1 0xC0300000 at_boot (omega arith)
      (omega arith) refl
