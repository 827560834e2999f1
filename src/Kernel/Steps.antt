-- ===== src/Kernel/Steps.antt =====
-- The steps of the start of the kernel, each with what it shows (src/arch/x86/kernel/kernel.cpp).
use another_os.Base.{ℕ, ◌-◌, ◌/◌, ◌^◌, ◌<◌, refl, codes, List, add32}
use another_os.Console as Console
use another_os.Console.{Vga, set_cur_color}
use another_os.Console.Shown.{leave_tmp, show}
use another_os.Interrupts as Interrupts
use another_os.Kernel.{
  Image, Kernel, with_console, heap_start, heap_size, boot_info, reserve, read_memory_map,
  start_console, start_gdt, start_idt, start_pit, start_virt_mem,
}
use another_os.Kernel.Screen.{Keeps, step_lines, step-Keeps}
use another_os.KernelHeap.{Mem}
use another_os.Paging as Paging
use another_os.PhysMem.{MemoryMap, phys2virt}
use another_os.PhysMem.Init.{IsMap, init_reserved}
use another_os.PhysMem.Report.Printed.{report_lines, report-Shown}
use another_os.Segments as Segments
use another_os.Timer as Timer
use another_os.Timer.{set_sched}

-- Where the memory map that the information names ends.
abbrev pub map_start : Mem → ℕ → ℕ
map_start mem info = phys2virt (boot_info mem info).mmap_addr

abbrev pub map_end : Mem → ℕ → ℕ
map_end mem info = add32 (map_start mem info) (boot_info mem info).mmap_length

-- The boot loader's memory map holds numbers of 32 bits, and of 31 for the types, and its addresses
-- do not wrap around.
pub record IsBootMap (entry : ℕ → MemoryMap) (end : ℕ) : Type 0 where
  pub is_map : IsMap entry end
  pub types : (a : ℕ) → (entry a).type < 2 ^ 31

abbrev pub console_message : List ℕ
console_message = codes "Console initialized...\t\t"

abbrev pub gdt_message : List ℕ
gdt_message = codes "Installing GDT...\t\t\t"

abbrev pub idt_message : List ℕ
idt_message = codes "Installing IDT...\t\t\t"

abbrev pub pit_message : List ℕ
pit_message = codes "Setting up PIT...\t\t\t"

abbrev pub virt_mem_message : List ℕ
virt_mem_message = codes "Initializing virtual memory...\t"

-- The kernel with a console that is set up.
abbrev pub cleared : Kernel → Kernel
cleared k = with_console k (Console.init k.pit.console)

pub start_console-Keeps :
    (k : Kernel) → Keeps (step_lines console_message) (cleared k) (start_console k)
unfolding start_console
start_console-Keeps k = step-Keeps console_message (cleared k) (λ k. k) refl (λ k. refl) (λ k. refl)

pub start_gdt-Keeps : (b : Image) (k : Kernel) → Keeps (step_lines gdt_message) k (start_gdt b k)
unfolding start_gdt
start_gdt-Keeps b k =
    step-Keeps gdt_message k (λ k. record k { gdt = Segments.init b.gdt_table b.tss k.gdt }) refl
      (λ k. refl) (λ k. refl)

pub start_idt-Keeps : (b : Image) (k : Kernel) → Keeps (step_lines idt_message) k (start_idt b k)
unfolding start_idt
start_idt-Keeps b k =
    step-Keeps idt_message k
      (λ k. record k {
        idt = Interrupts.init b.inb b.isr b.irq b.idt_table b.syscall_handler k.idt;
      })
      refl (λ k. refl) (λ k. refl)

pub start_pit-Keeps : (b : Image) (k : Kernel) → Keeps (step_lines pit_message) k (start_pit b k)
unfolding start_pit
start_pit-Keeps b k =
    step-Keeps pit_message k (λ k. record k { idt = Timer.init b.inb b.pit_handler k.idt }) refl
      (λ k. refl) (λ k. refl)

pub start_virt_mem-Keeps :
    (b : Image) (k : Kernel) → Keeps (step_lines virt_mem_message) k (start_virt_mem b k)
unfolding start_virt_mem
start_virt_mem-Keeps b k =
    step-Keeps virt_mem_message k
      (λ k. record k {
        virt_mem = Paging.init b.boot_frame heap_start (heap_size / 4096) k.virt_mem;
      })
      refl (λ k. refl) (λ k. refl)

pub read_memory_map-Keeps :
    (fuel : ℕ) (b : Image) (entry : ℕ → MemoryMap) (info : ℕ) (k : Kernel)
    → IsBootMap entry (map_end k.heap.mem info)
    → b.kernel_end < 2 ^ 32
    → map_end k.heap.mem info - map_start k.heap.mem info < fuel
    → Keeps
        (report_lines fuel entry b.kernel_end (boot_info k.heap.mem info))
        k
        (read_memory_map fuel b entry info k)
unfolding read_memory_map
read_memory_map-Keeps fuel b entry info k m small enough =
    let (s, run, _) =
      init_reserved fuel entry (boot_info k.heap.mem info) k.virt_mem.phy_mem m.is_map enough in
    let (t, shown) =
      report-Shown fuel entry b.kernel_end (boot_info k.heap.mem info) k.pit.console small m.is_map
        m.types enough in
    let v =
      leave_tmp t
        (show (report_lines fuel entry b.kernel_end (boot_info k.heap.mem info)) k.pit.console) in
    (
      record (with_console k v) {
        virt_mem = record k.virt_mem { phy_mem = reserve b k.heap.mem info s };
      },
      rw (shown, run, read_memory_map) refl,
      refl,
      record { tmp = t; screen = refl },
    )
