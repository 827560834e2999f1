-- ===== src/Timer/Rate.antt =====
-- The rate that `PIT::Init` sets (src/arch/x86/drivers/pit.cpp).
use another_os.Base.{ℕ, ◌+◌, ◌*◌, ◌<◌, ◌≡◌, refl, ap, arith, List, ◌∷◌, if◌then◌else◌, ◌==◌}
use another_os.Base.Bits.{bit}
use another_os.Interrupts.{Idt}
use another_os.Interrupts.Lines.{install_handler_line}
use another_os.Timer.{init}

-- `Init` makes `handler` the handler of vector 32 alone, unmasks line 0 of the first controller
-- alone, and then programs the counter: the command byte, and a divisor in two bytes, the low one
-- first, with which 1193180 ticks of the counter are 100 interrupts up to a remainder of 80 ticks.
pub init_rate :
    (inb : List (ℕ × ℕ) → ℕ → ℕ) (handler : ℕ) (s : Idt)
    → (mask : ℕ) × (l : ℕ) × (h : ℕ) × ((init inb handler s).out
        ≡ (0x40, h) ∷ (0x40, l) ∷ (0x43, 0x36) ∷ (0x21, mask) ∷ s.out)
      × (100 * (256 * h + l) + 80 ≡ 1193180)
      × (l < 256)
      × ((k : ℕ) → k < 8 → bit k mask ≡ (if k == 0 then 0 else bit k (inb s.out 0x21)))
      × ((v : ℕ) → (init inb handler s).handlers v ≡ (if 32 == v then handler else s.handlers v))
unfolding init
init_rate inb handler s =
    let (mask, out, bits, handlers) = install_handler_line inb 0 handler s (omega arith) in
    (
      mask,
      155,
      46,
      ap (λ o. (0x40, 46) ∷ (0x40, 155) ∷ (0x43, 0x36) ∷ o) out,
      refl,
      omega arith,
      bits,
      handlers,
    )
