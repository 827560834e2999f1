-- ===== src/Kernel/Installed.antt =====
-- What the start of the kernel installs for the timer (src/arch/x86/kernel/kernel.cpp): the handler,
-- and the page tables that it sets up.
use mathlib.Core.Path.{subst}
use another_os.Base.{
  ◌/◌, ℕ, ◌≡◌, ◌∙◌, refl, sym, ap, Option, none, some, List, [], codes, ok, out_of_fuel, ◌>>=◌,
  >>=-ok, ok-injective, out_of_fuel≢ok,
}
use another_os.Console as Console
use another_os.Console.{Vga}
use another_os.Console.Format.{print}
use another_os.Interrupts.{Idt}
use another_os.Kernel.{
  Image, Kernel, with_console, announce, recolor, print_ok, boot_info, reserve, heap_start,
  heap_size, start_console, start_gdt, start_idt, start_pit, read_memory_map, start_virt_mem,
}
use another_os.PhysMem as PhysMem
use another_os.Paging as Paging
use another_os.Paging.{VirtualMem}
use another_os.KernelHeap.{Heap}
use another_os.PhysMem.{MemoryMap, PhysicalMem}
use another_os.PhysMem.Report.{report}
use another_os.Timer.Rate.{init_rate}

-- A step that leaves the interrupt table, the picture, the page tables and the heap's memory alone.
abbrev pub Untouched : Kernel → Kernel → Type 0
Untouched k k' =
    (k'.idt ≡ k.idt)
    × (k'.pit.index ≡ k.pit.index)
    × (k'.virt_mem ≡ k.virt_mem)
    × (k'.heap ≡ k.heap)

Untouched-then : (k m k' : Kernel) → Untouched k m → Untouched m k' → Untouched k k'
Untouched-then k m k' a b = (b.0 ∙ a.0, b.1 ∙ a.1, b.2 ∙ a.2, b.3 ∙ a.3)

announce-Untouched : (msg : List ℕ) (k k' : Kernel) → announce msg k ≡ ok k' → Untouched k k'
unfolding announce
announce-Untouched msg k k' e =
    let (v, _, made) = >>=-ok (print msg [] k.pit.console) (λ v. ok (with_console k v)) k' e in
    subst (Untouched k) (ok-injective made) (refl, refl, refl, refl)

print_ok-Untouched : (k k' : Kernel) → print_ok k ≡ ok k' → Untouched k k'
unfolding print_ok
print_ok-Untouched k k' e =
    let (m, told, made) =
      >>=-ok (announce (codes "[OK]\n") (recolor 2 k)) (λ k. ok (recolor 15 k)) k' e in
    Untouched-then k m k' (announce-Untouched (codes "[OK]\n") (recolor 2 k) m told)
      (subst (Untouched m) (ok-injective made) (refl, refl, refl, refl))

-- A step that does `f` between its message and `[OK]`.
step-Untouched :
    (msg : List ℕ) (k k' : Kernel) (f : Kernel → Kernel)
    → (announce msg k >>= λ k. print_ok (f k)) ≡ ok k'
    → (m : Kernel) × Untouched k m × Untouched (f m) k'
step-Untouched msg k k' f e =
    let (m, told, printed) = >>=-ok (announce msg k) (λ k. print_ok (f k)) k' e in
    (m, announce-Untouched msg k m told, print_ok-Untouched (f m) k' printed)

-- One that leaves them alone in between, too.
step_over :
    (msg : List ℕ) (k k' : Kernel) (f : Kernel → Kernel)
    → ((m : Kernel) → Untouched m (f m))
    → (announce msg k >>= λ k. print_ok (f k)) ≡ ok k'
    → Untouched k k'
step_over msg k k' f same e =
    let (m, before, after) = step-Untouched msg k k' f e in
    Untouched-then k (f m) k' (Untouched-then k m (f m) before (same m)) after

module _ (b : Image) (k k' : Kernel) where
  start_console-Untouched : start_console k ≡ ok k' → Untouched k k'
  unfolding start_console
  start_console-Untouched e =
      step_over (codes "Console initialized...\t\t") (with_console k (Console.init k.pit.console))
        k' (λ m. m) (λ m. (refl, refl, refl, refl)) e

  start_gdt-Untouched : start_gdt b k ≡ ok k' → Untouched k k'
  unfolding start_gdt
  start_gdt-Untouched e = step_over _ k k' _ (λ m. (refl, refl, refl, refl)) e

  start_virt_mem-maps :
      start_virt_mem b k ≡ ok k'
      → (k'.idt ≡ k.idt)
        × (k'.pit.index ≡ k.pit.index)
        × (k'.virt_mem ≡ Paging.init b.boot_frame heap_start (heap_size / 4096) k.virt_mem)
  unfolding start_virt_mem
  start_virt_mem-maps e =
      let (m, before, after) = step-Untouched _ k k' _ e in
      (
        after.0 ∙ before.0,
        after.1 ∙ before.1,
        after.2 ∙ ap (Paging.init b.boot_frame heap_start (heap_size / 4096)) before.2,
      )

  start_idt-rest :
      start_idt b k ≡ ok k'
      → (k'.pit.index ≡ k.pit.index) × (k'.virt_mem ≡ k.virt_mem) × (k'.heap ≡ k.heap)
  unfolding start_idt
  start_idt-rest e =
      let (m, before, after) = step-Untouched _ k k' _ e in
      (after.1 ∙ before.1, after.2 ∙ before.2, after.3 ∙ before.3)

  -- `PIT::Init` installs the timer's handler.
  start_pit-handler :
      start_pit b k ≡ ok k'
      → (k'.idt.handlers 32 ≡ b.pit_handler)
        × (k'.pit.index ≡ k.pit.index)
        × (k'.virt_mem ≡ k.virt_mem)
        × (k'.heap ≡ k.heap)
  unfolding start_pit
  start_pit-handler e =
      let (m, before, after) = step-Untouched _ k k' _ e in
      let (mask, l, h, out, rate, low, bits, handlers) = init_rate b.inb b.pit_handler m.idt in
      (
        ap (λ (i : Idt). i.handlers 32) after.0 ∙ handlers 32,
        after.1 ∙ before.1,
        after.2 ∙ before.2,
        after.3 ∙ before.3,
      )

  -- The memory map, and what the kernel reserves.
  abbrev pub Reserved : ℕ → ℕ → (ℕ → MemoryMap) → Option PhysicalMem → Type 0
  Reserved fuel info entry found =
      (s : PhysicalMem) × (found ≡ some s)
      × (k'.virt_mem ≡ record k.virt_mem { phy_mem = reserve b k.heap.mem info s })
      × (k'.idt ≡ k.idt)
      × (k'.pit.index ≡ k.pit.index)

  -- What follows the report of the memory map.
  mapped-Reserved :
      (fuel info : ℕ) (entry : ℕ → MemoryMap) (v : Vga) (found : Option PhysicalMem)
      → (elim found [
        | none ↦ out_of_fuel
        | some s ↦ ok (record (with_console k v) {
          virt_mem = record k.virt_mem { phy_mem = reserve b k.heap.mem info s };
        })
      ])
        ≡ ok k'
      → Reserved fuel info entry found
  mapped-Reserved fuel info entry v none e = absurd (out_of_fuel≢ok k' e)
  mapped-Reserved fuel info entry v (some s) e =
      let same = sym (ok-injective e) in
      (s, refl, ap (λ k. k.virt_mem) same, ap (λ k. k.idt) same, ap (λ k. k.pit.index) same)

  read_memory_map-Reserved :
      (fuel info : ℕ) (entry : ℕ → MemoryMap)
      → read_memory_map fuel b entry info k ≡ ok k'
      → Reserved fuel info entry
          (PhysMem.init fuel entry (boot_info k.heap.mem info) k.virt_mem.phy_mem)
  unfolding read_memory_map
  read_memory_map-Reserved fuel info entry e =
      let (v, told, rest) =
        >>=-ok (report fuel entry b.kernel_end (boot_info k.heap.mem info) k.pit.console) _ k' e in
      mapped-Reserved fuel info entry v
        (PhysMem.init fuel entry (boot_info k.heap.mem info) k.virt_mem.phy_mem) rest

-- What the first steps of the start leave behind: the timer's handler, and the page tables that
-- `VirtualMem::Init` makes with the blocks that the reservations leave.
pub record Installed (fuel : ℕ) (b : Image) (entry : ℕ → MemoryMap) (info : ℕ) (k k' : Kernel)
    : Type 0 where
  pub handler : k'.idt.handlers 32 ≡ b.pit_handler
  pub picture : k'.pit.index ≡ k.pit.index
  pub blocks : PhysicalMem
  pub found : PhysMem.init fuel entry (boot_info k.heap.mem info) k.virt_mem.phy_mem ≡ some blocks
  pub tables :
      k'.virt_mem
      ≡ Paging.init b.boot_frame heap_start
          (heap_size / 4096)
          (record k.virt_mem { phy_mem = reserve b k.heap.mem info blocks })

-- The steps, one after the other.
module _ (fuel : ℕ) (b : Image) (entry : ℕ → MemoryMap) (info : ℕ) (k k1 k2 k3 k4 k5 k6 : Kernel)
    (s1 : start_console k ≡ ok k1) (s2 : start_gdt b k1 ≡ ok k2) (s3 : start_idt b k2 ≡ ok k3)
    (s4 : start_pit b k3 ≡ ok k4) (s5 : read_memory_map fuel b entry info k4 ≡ ok k5)
    (s6 : start_virt_mem b k5 ≡ ok k6) where
  early : Untouched k k2
  early =
      Untouched-then k k1 k2 (start_console-Untouched b k k1 s1) (start_gdt-Untouched b k1 k2 s2)

  to_pit : (k4.pit.index ≡ k.pit.index) × (k4.virt_mem ≡ k.virt_mem) × (k4.heap ≡ k.heap)
  to_pit =
      let (index, tables, heap) = start_idt-rest b k2 k3 s3 in
      let (_, index', tables', heap') = start_pit-handler b k3 k4 s4 in
      (index' ∙ index ∙ early.1, tables' ∙ tables ∙ early.2, heap' ∙ heap ∙ early.3)

  pub steps-Installed : Installed fuel b entry info k k6
  steps-Installed =
      let (idt, index, tables) = start_virt_mem-maps b k5 k6 s6 in
      let (s, found, reserved, idt', index') =
        read_memory_map-Reserved b k4 k5 fuel info entry s5 in
      record {
        handler = ap (λ (i : Idt). i.handlers 32) (idt ∙ idt') ∙ (start_pit-handler b k3 k4 s4).0;
        picture = index ∙ index' ∙ to_pit.0;
        blocks = s;
        found =
            sym (
              ap (λ (h : Heap). PhysMem.init fuel entry (boot_info h.mem info) k4.virt_mem.phy_mem)
                to_pit.2
              ∙ ap
                  (λ (m : VirtualMem).
                    PhysMem.init fuel entry (boot_info k.heap.mem info) m.phy_mem)
                  to_pit.1)
            ∙ found;
        tables =
            tables
            ∙ ap (Paging.init b.boot_frame heap_start (heap_size / 4096)) (
                reserved
                ∙ ap (λ (m : VirtualMem). record m { phy_mem = reserve b k4.heap.mem info s })
                    to_pit.1
                ∙ ap (λ (h : Heap). record k.virt_mem { phy_mem = reserve b h.mem info s })
                    to_pit.2);
      }
