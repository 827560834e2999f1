-- ===== src/Kernel/Start.antt =====
-- The start of the kernel up to its page tables, and what it shows (src/arch/x86/kernel/kernel.cpp).
use mathlib.Core.Path.{subst}
use another_os.Base.{
  ℕ, ◌+◌, ◌-◌, ◌^◌, ◌<◌, ◌≤◌, ◌≡◌, ◌∙◌, refl, sym, ap, arith, true, leb, List, ◌++◌, Run, ok, ◌>>=◌,
}
use another_os.Console as Console
use another_os.Console.Numbers.{Bytes}
use another_os.Console.Shown.{Line, leave_tmp, show}
use another_os.Kernel.{
  Image, Kernel, boot_info, mods_addr, is_before, read_memory_map, start_phys_mem, boot,
}
use another_os.Kernel.Installed.{Installed, steps-Installed}
use another_os.Kernel.Screen.{Goes, Goes-then, step_lines}
use another_os.Kernel.Steps.{
  IsBootMap, map_start, map_end, cleared, console_message, gdt_message, idt_message, pit_message,
  virt_mem_message, start_console-Keeps, start_gdt-Keeps, start_idt-Keeps, start_pit-Keeps,
  read_memory_map-Keeps, start_virt_mem-Keeps,
}
use another_os.KernelHeap.{Mem, Heap}
use another_os.PhysMem.{MemoryMap, MultibootInfo, phys2virt}
use another_os.PhysMem.Report.Printed.{report_lines}

bind_ok : {A B : Type 0} {r : Run A} {a : A} (f : A → Run B) → r ≡ ok a → (r >>= f) ≡ f a
bind_ok f e = ap (λ q. q >>= f) e

module _ (b : Image) (info : ℕ) where
  is_before_lem :
      (mem : Mem)
      → info + 120 ≤ b.kernel_end
      → map_end mem info ≤ b.kernel_end
      → phys2virt (mods_addr mem info) + 8 ≤ b.kernel_end
      → is_before b info mem ≡ true
  unfolding is_before
  is_before_lem mem below map_below mods_below =
      let one : leb (info + 120) b.kernel_end ≡ true = ground (arith, below) in
      let two : leb (map_end mem info) b.kernel_end ≡ true = ground (arith, map_below) in
      let three : leb (phys2virt (mods_addr mem info) + 8) b.kernel_end ≡ true =
        ground (arith, mods_below) in
      rw (one, two, three) refl

  start_phys_mem-reads :
      (fuel : ℕ) (entry : ℕ → MemoryMap) (k : Kernel)
      → is_before b info k.heap.mem ≡ true
      → start_phys_mem fuel b entry info k ≡ read_memory_map fuel b entry info k
  unfolding start_phys_mem
  start_phys_mem-reads fuel entry k before = rw before refl

-- All messages of these steps, in their colors.
pub boot_lines : ℕ → Image → (ℕ → MemoryMap) → MultibootInfo → List Line
boot_lines fuel b entry info =
    step_lines console_message
    ++ (step_lines gdt_message
        ++ (step_lines idt_message
            ++ (step_lines pit_message
                ++ (report_lines fuel entry b.kernel_end info ++ step_lines virt_mem_message))))

-- With a memory map whose entries hold 32-bit numbers and types of 31 bits and whose addresses do not
-- wrap around, the boot loader's information, its map and the entry of its first module below the end
-- of the kernel, where the bitmap begins, and that end a 32-bit address: `ArchKernel::Init` gets to the end of
-- `VirtualMem::Init` with any fuel above the length of the map in bytes. The console is then that of
-- `VGA::Init` with all messages so far put, in their colors, but for `tmp`. The timer's handler is
-- installed; the physical memory manager has read the map, and the page tables are those that
-- `VirtualMem::Init` makes with the blocks that are left by what the kernel reserves.
pub boot-Installed :
    (fuel : ℕ) (b : Image) (entry : ℕ → MemoryMap) (info : ℕ) (k : Kernel)
    → IsBootMap entry (map_end k.heap.mem info)
    → info + 120 ≤ b.kernel_end
    → map_end k.heap.mem info ≤ b.kernel_end
    → phys2virt (mods_addr k.heap.mem info) + 8 ≤ b.kernel_end
    → b.kernel_end < 2 ^ 32
    → map_end k.heap.mem info - map_start k.heap.mem info < fuel
    → (k' : Kernel) × (boot fuel b entry info k ≡ ok k')
      × ((tmp : Bytes) × (k'.pit.console
            ≡ leave_tmp tmp (
                show
                  (boot_lines fuel b entry (boot_info k.heap.mem info))
                  (Console.init k.pit.console))))
      × Installed fuel b entry info k k'
unfolding boot boot_lines
boot-Installed fuel b entry info k is_map below map_below mods_below small_end enough =
    let (k1, s1, e1, g1) = start_console-Keeps k in
    let (k2, s2, e2, g2) = start_gdt-Keeps b k1 in
    let (k3, s3, e3, g3) = start_idt-Keeps b k2 in
    let (k4, s4, e4, g4) = start_pit-Keeps b k3 in
    let kept : k4.heap ≡ k.heap = e4 ∙ e3 ∙ e2 ∙ e1 in
    let is_map' : IsBootMap entry (map_end k4.heap.mem info) =
      subst (λ h. IsBootMap entry (map_end h.mem info)) (sym kept) is_map in
    let enough' : map_end k4.heap.mem info - map_start k4.heap.mem info < fuel =
      subst (λ (h : Heap). map_end h.mem info - map_start h.mem info < fuel) (sym kept) enough in
    let (k5, s5, e5, g5) = read_memory_map-Keeps fuel b entry info k4 is_map' small_end enough' in
    let before = is_before_lem b info k.heap.mem below map_below mods_below in
    let reads : start_phys_mem fuel b entry info k4 ≡ read_memory_map fuel b entry info k4 =
      start_phys_mem-reads b info fuel entry k4
        (ap (λ (h : Heap). is_before b info h.mem) kept ∙ before) in
    let (k6, s6, e6, g6) = start_virt_mem-Keeps b k5 in
    let g5' : Goes (report_lines fuel entry b.kernel_end (boot_info k.heap.mem info)) k4 k5 =
      subst (λ (h : Heap). Goes (report_lines fuel entry b.kernel_end (boot_info h.mem info)) k4 k5)
        kept g5 in
    let shown = Goes-then _ _ (cleared k) k1 k6 g1 (
      Goes-then _ _ k1 k2 k6 g2
        (Goes-then _ _ k2 k3 k6 g3 (Goes-then _ _ k3 k4 k6 g4 (Goes-then _ _ k4 k5 k6 g5' g6)))) in
    (
      k6,
      bind_ok _ s1 ∙ bind_ok _ s2 ∙ bind_ok _ s3 ∙ bind_ok _ s4 ∙ bind_ok _ (reads ∙ s5) ∙ s6,
      (shown.tmp, shown.screen),
      steps-Installed fuel b entry info k k1 k2 k3 k4 k5 k6 s1 s2 s3 s4 s5 s6,
    )
