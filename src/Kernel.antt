-- ===== src/Kernel.antt =====
-- The start of the kernel: src/arch/x86/kernel/kernel.cpp, as if no interrupt came in between.
pub mod Reserve
pub mod Memory
pub mod Objects
pub mod Screen
pub mod Steps
pub mod Installed
pub mod Start
pub mod Dispatch
mod Tests
use another_os.Base.{
  ℕ, zero, suc, ◌+◌, ◌-◌, ◌*◌, ◌/◌, Bool, true, false, Option, none, some, List, [], ◌∷◌,
  if◌then◌else◌, leb, ltb, ◌==◌, ◌^◌, add32, sub32, codes, not, ◌&&◌, ◌||◌, Run, ok, undefined,
  out_of_fuel, ◌>>=◌,
}
use another_os.Console as Console
use another_os.Console.{Vga, set_cur_color}
use another_os.Console.Format.{print}
use another_os.Interrupts as Interrupts
use another_os.Interrupts.{Idt}
use another_os.KernelHeap.{Mem, Heap, initialize, malloc, operator_new, store}
use another_os.Paging as Paging
use another_os.Paging.{VirtualMem}
use another_os.Paging.Mapping.{translate}
use another_os.PhysMem as PhysMem
use another_os.PhysMem.Report.{report}
use another_os.PhysMem.{
  PhysicalMem, MemoryMap, MultibootInfo, bitmap_size, mark_used, page_round_up, phys2virt,
}
use another_os.Scheduler.{construct}
use another_os.Segments as Segments
use another_os.Segments.{Gdt}
use another_os.Timer as Timer
use another_os.Timer.{Pit, set_sched}

-- The addresses that the linker chooses, the sizes that the compiler does, and what ports read.
pub record Image : Type 0 where
  pub kernel_start : ℕ
  pub kernel_end : ℕ
  pub gdt_table : ℕ
  pub tss : ℕ
  pub isr : ℕ → ℕ
  pub irq : ℕ → ℕ
  pub idt_table : ℕ
  pub syscall_handler : ℕ
  pub pit_handler : ℕ
  pub boot_frame : ℕ
  pub scheduler_size : ℕ
  pub inb : List (ℕ × ℕ) → ℕ → ℕ

-- The members of `class ArchKernel`, the console and the heap. The timer has the console, the page
-- tables have the physical memory manager.
pub record Kernel : Type 0 where
  pub gdt : Gdt
  pub idt : Idt
  pub pit : Pit
  pub virt_mem : VirtualMem
  pub heap : Heap

abbrev pub with_console : Kernel → Vga → Kernel
with_console k v = record k { pit = record k.pit { console = v } }

-- A message without arguments.
pub announce : List ℕ → Kernel → Run Kernel
announce msg k = print msg [] k.pit.console >>= λ v. ok (with_console k v)

-- `console.set_cur_color(fg, VGA_COLOR_BLACK)`.
abbrev pub recolor : ℕ → Kernel → Kernel
recolor fg k = with_console k (set_cur_color fg 0 k.pit.console)

-- `PrintOK`, in `VGA_COLOR_GREEN`, and `VGA_COLOR_WHITE` from then on.
pub print_ok : Kernel → Run Kernel
print_ok k = announce (codes "[OK]\n") (recolor 2 k) >>= λ k. ok (recolor 15 k)

-- `&_kernel_end - &_kernel_start`, of pointers to 32-bit words: the difference of the addresses as a
-- signed number, divided by 4 by an arithmetic shift.
unfoldable pub kernel_size : Image → ℕ
kernel_size b =
    let bytes = sub32 b.kernel_end b.kernel_start in
    if ltb bytes (2 ^ 31) then bytes / 4 else bytes / 4 + (2 ^ 32 - 2 ^ 30)

abbrev pub heap_start : ℕ
heap_start = 0xC0400000

abbrev pub heap_size : ℕ
heap_size = 16 * 1024 * 1024

-- `sizeof(multiboot_info_t)`.
abbrev pub info_size : ℕ
info_size = 120

-- The fields of the information at `info`.
abbrev pub mods_count : Mem → ℕ → ℕ
mods_count mem info = mem (info + 20)

abbrev pub mods_addr : Mem → ℕ → ℕ
mods_addr mem info = mem (info + 24)

unfoldable pub boot_info : Mem → ℕ → MultibootInfo
boot_info mem info = record {
  mem_upper = mem (info + 8);
  mmap_length = mem (info + 44);
  mmap_addr = mem (info + 48);
}

-- The calls of `MarkUsed`: the kernel, and the first module.
unfoldable pub reserve : Image → Mem → ℕ → PhysicalMem → PhysicalMem
reserve b mem info s =
    let s =
      mark_used 0 (page_round_up (add32 (add32 0x100000 (kernel_size b)) (bitmap_size s))) s in
    let first = mem (phys2virt (mods_addr mem info)) in
    let last = mem (phys2virt (add32 (mods_addr mem info) 4)) in
    mark_used first (sub32 last first) s

-- `memcpy` of `n` words.
unfoldable pub copy_words : ℕ → ℕ → ℕ → Mem → Mem
copy_words zero dst src m = m
copy_words (suc n) dst src m = copy_words n (dst + 4) (src + 4) (store m dst (m src))

-- The copy of the information: its address and the heap.
unfoldable pub copy_info : ℕ → ℕ → Heap → Run (ℕ × Heap)
copy_info fuel info h = malloc fuel info_size h >>= λ r.
    ok (r.0, record r.1 { mem = copy_words (info_size / 4) r.0 info (r.1).mem })

-- The messages and the steps of `Init`, as they follow each other.
pub start_console : Kernel → Run Kernel
start_console k =
    announce (codes "Console initialized...\t\t") (with_console k (Console.init k.pit.console))
    >>= print_ok

pub start_gdt : Image → Kernel → Run Kernel
start_gdt b k = announce (codes "Installing GDT...\t\t\t") k >>= λ k.
    print_ok (record k { gdt = Segments.init b.gdt_table b.tss k.gdt })

pub start_idt : Image → Kernel → Run Kernel
start_idt b k = announce (codes "Installing IDT...\t\t\t") k >>= λ k.
    print_ok
      (record k { idt = Interrupts.init b.inb b.isr b.irq b.idt_table b.syscall_handler k.idt })

pub start_pit : Image → Kernel → Run Kernel
start_pit b k = announce (codes "Setting up PIT...\t\t\t") k >>= λ k.
    print_ok (record k { idt = Timer.init b.inb b.pit_handler k.idt })

-- What the boot loader left lies before the end of the kernel, where the bitmap begins: the
-- information, its memory map, and the entry of the first module.
pub is_before : Image → ℕ → Mem → Bool
is_before b info mem =
    let boot_info = boot_info mem info in
    leb (info + info_size) b.kernel_end
    && leb (add32 (phys2virt boot_info.mmap_addr) boot_info.mmap_length) b.kernel_end
    && leb (phys2virt (mods_addr mem info) + 8) b.kernel_end

-- The memory map is read within `fuel` rounds.
pub read_memory_map : ℕ → Image → (ℕ → MemoryMap) → ℕ → Kernel → Run Kernel
read_memory_map fuel b entry info k =
    report fuel entry b.kernel_end (boot_info k.heap.mem info) k.pit.console >>= λ v.
    elim (PhysMem.init fuel entry (boot_info k.heap.mem info) k.virt_mem.phy_mem) [
      | none ↦ out_of_fuel
      | some s ↦ ok (record (with_console k v) {
        virt_mem = record k.virt_mem { phy_mem = reserve b k.heap.mem info s };
      })
    ]

-- The bitmap is a state of its own, so it may not be stored over what is read from memory.
pub start_phys_mem : ℕ → Image → (ℕ → MemoryMap) → ℕ → Kernel → Run Kernel
start_phys_mem fuel b entry info k =
    if is_before b info k.heap.mem then read_memory_map fuel b entry info k else undefined

pub start_virt_mem : Image → Kernel → Run Kernel
start_virt_mem b k = announce (codes "Initializing virtual memory...\t") k >>= λ k.
    print_ok
      (record k { virt_mem = Paging.init b.boot_frame heap_start (heap_size / 4096) k.virt_mem })

any_same : ℕ → List ℕ → Bool
any_same f [] = false
any_same f (g ∷ gs) = (f == g) || any_same f gs

-- The frame in memory that a page stands for.
abbrev page_frame : VirtualMem → ℕ → Option ℕ
page_frame m addr = elim (translate m addr) [
  | none ↦ none
  | some p ↦ if ltb (p / 4096) m.ram then some (p / 4096) else none
]

-- Whether the `n` pages from `addr` on stand for frames in memory, each for another and for none of
-- `taken`.
pub is_backed : ℕ → ℕ → List ℕ → VirtualMem → Bool
is_backed zero addr taken m = true
is_backed (suc n) addr taken m = elim (page_frame m addr) [
  | none ↦ false
  | some f ↦ not (any_same f taken) && is_backed n (addr + 4096) (f ∷ taken) m
]

-- An access to a page that stands for nothing is a fault; pages without memory of their own do not
-- hold what is stored.
pub start_heap : Kernel → Run Kernel
start_heap k = announce (codes "Initializing kernel heap...\t\t") k >>= λ k.
    if is_backed (heap_size / 4096) heap_start [] k.virt_mem
    then (initialize heap_start (heap_start + heap_size) k.heap >>= λ heap.
        print_ok (record k { heap = heap }))
    else undefined

-- The copy of the information, with its address, and the scheduler. `VGA_COLOR_MAGENTA` is 5.
pub start_objects : ℕ → Image → ℕ → Kernel → Run (ℕ × Kernel)
start_objects fuel b info k = copy_info fuel info k.heap >>= λ r.
    announce (codes "\t- KERNEL CORE INITIALIZED -\n") (recolor 5 k) >>= λ k.
    let k = recolor 15 k in
    operator_new fuel b.scheduler_size r.1 >>= λ o.
    ok (r.0, record k { heap = o.1; pit = set_sched (construct k.pit.scheduler) k.pit })

-- How `Init` ends, in one of its two endless loops.
pub data Ending : Type 0 where
  no_initrd : Ending
  idle : Ending

-- The choice of the endless loop, with the address of the copy. `VGA_COLOR_RED` is 4; `cli` shuts
-- interrupts off.
pub finish : ℕ → Kernel → Run (Ending × Kernel)
finish mbi k =
    if mods_count k.heap.mem mbi == 0
    then (announce (codes "ERROR: couldn't load initrd, cannot continue\n") (recolor 4 k) >>= λ k.
        ok (no_initrd, record k { idt = record k.idt { interrupts_on = false } }))
    else ok (idle, k)

-- `ArchKernel::Init` up to the page tables, with the address `info` of the boot loader's information.
pub boot : ℕ → Image → (ℕ → MemoryMap) → ℕ → Kernel → Run Kernel
boot fuel b entry info k = start_console k >>= λ k. start_gdt b k >>= λ k. start_idt b k >>= λ k.
    start_pit b k >>= λ k. start_phys_mem fuel b entry info k >>= λ k. start_virt_mem b k

-- `ArchKernel::Init`.
pub init : ℕ → Image → (ℕ → MemoryMap) → ℕ → Kernel → Run (Ending × Kernel)
init fuel b entry info k = boot fuel b entry info k >>= λ k.
    start_heap k >>= λ k. start_objects fuel b info k >>= λ r. finish r.0 r.1
