-- ===== src/Kernel/Tests.antt =====
-- Runs of src/arch/x86/kernel/kernel.cpp.
use another_os.Base.{
  ℕ, ◌+◌, ◌-◌, ◌*◌, ◌/◌, ◌≡◌, ◌||◌, refl, arith, true, false, List, [], ◌∷◌, if◌then◌else◌, ltb,
  ◌==◌, ok,
}
use another_os.Kernel.{Image, Kernel, boot_info, reserve, boot}
use another_os.Kernel.Reserve.{IsLinked, reserved_end, reserve_lem}
use another_os.Console as Console
use another_os.Console.Numbers.{Bytes}
use another_os.Console.Shown.{leave_tmp, show}
use another_os.Kernel.Steps.{IsBootMap}
use another_os.Kernel.Start.{boot_lines, boot-Installed}
use another_os.Kernel.Installed.{Installed}
use another_os.KernelHeap.{Mem}
use another_os.Paging.{empty_page}
use another_os.PhysMem.{PhysicalMem, MemoryMap, block_size}
use another_os.PhysMem.Bitmap.{used}
use another_os.PhysMem.Init.{IsMap}
use another_os.PhysMem.Ranges.{within}
use another_os.Scheduler.{World, Thread, ready, unknown}
use another_os.Segments.{entry_of}

abbrev linked : Image
linked = record {
  kernel_start = 0x100000;
  kernel_end = 0xC010FD64;
  gdt_table = 0xC010A000;
  tss = 0xC010A100;
  isr = λ i. 0xC0101000 + 16 * i;
  irq = λ i. 0xC0102000 + 16 * i;
  idt_table = 0xC010B000;
  syscall_handler = 0xC0103000;
  pit_handler = 0xC0104000;
  boot_frame = 0x10C;
  scheduler_size = 28;
  inb = λ log port. 0xFF;
}

-- One module, from 2 MB on, and a memory map of one entry.
abbrev loaded : Mem
loaded a =
    if a == 0xC0009014
    then 1
    else if a == 0xC0009018
    then 0x8000
    else if a == 0xC0008000
    then 0x200000
    else if a == 0xC0008004
    then 0x203000
    else if a == 0xC000902C
    then 24
    else 0

-- 32 MB.
abbrev memory : PhysicalMem
memory = record { memory_size = 0x2000000; used_blocks = 0; maximum_blocks = 8192; words = λ i. 0 }

-- The kernel is 64868 bytes long.
linked-IsLinked : IsLinked linked 0xFD64
linked-IsLinked = record { start = refl; end = refl; small = omega arith }

reserve_lem_example : used (reserve linked loaded 0xC0009000 memory).words 0x1FFF ≡ (
    if ltb (0x1FFF * block_size) (reserved_end 0xFD64 memory)
      || within (0x200000 / block_size) ((0x203000 - 0x200000) / block_size) 0x1FFF
    then 1
    else used memory.words 0x1FFF)
reserve_lem_example =
    reserve_lem linked 0xFD64 loaded 0xC0009000 memory linked-IsLinked (omega arith) (omega arith)
      (omega arith) (omega arith) 0x1FFF

abbrev idle_thread : Thread
idle_thread = record {
  parent = 0;
  stack = 0;
  user_stack = 0;
  user_stack_size = 0;
  state = ready;
  blocked_state = unknown;
  regs_ptr = 0;
  time_delta = 0;
}

abbrev unstarted : Kernel
unstarted = record {
  gdt = record {
    gdt = λ i. entry_of 0 0 0;
    tss = record { esp0 = 0; ss0 = 0; cs = 0; ss = 0; ds = 0; es = 0; fs = 0; gs = 0 };
    descriptor_size = 0;
    descriptor_offset = 0;
  };
  idt = record {
    gates = λ i. record { offset0 = 0; selector = 0; zero_byte = 0; type_attr = 0; offset1 = 0 };
    handlers = λ i. 0;
    idt_base = 0;
    idt_limit = 0;
    interrupts_on = false;
    out = [];
  };
  pit = record {
    ticks = 0;
    index = 0;
    scheduler_set = false;
    scheduler = record {
      threads = λ p. idle_thread;
      threads_list = record {
        head = 0;
        tail = 0;
        size = 0;
        data_of = λ p. 0;
        next = λ p. 0;
        prev = λ p. 0;
        deleted = [];
      };
      current_thread = 0;
      tick_count = 0;
      switch_forced = false;
      enabled = true;
      page_directory = 0;
      tss_ss0 = 0;
      tss_esp0 = 0;
    };
    console = record {
      fb = λ i. 0;
      x = 0;
      y = 0;
      cur_color = 0;
      width = 0;
      height = 0;
      out = [];
      tmp = λ i. 0;
    };
  };
  virt_mem = record {
    directory =
        λ i. record { present = 0; read_write = 0; is_user = 0; page_size_bit = 0; frame = 0 };
    tables = λ f i. empty_page;
    ram = 8448;
    phy_mem = memory;
  };
  heap = record { start_address = 0; end_address = 0; first_header = 0; mem = loaded };
}

abbrev all_free : ℕ → MemoryMap
all_free a = record { size = 20; base_addr_low = 0; length_low = 0x2000000; type = 1 }

all_free-IsMap : IsMap all_free 0xC0000018
all_free-IsMap = record {
  base = λ a. omega arith;
  length = λ a. omega arith;
  step = λ a h. omega arith;
}

all_free-IsBootMap : IsBootMap all_free 0xC0000018
all_free-IsBootMap = record { is_map = all_free-IsMap; types = λ a. omega arith }

boot-Installed_example :
    (k' : Kernel) × (boot 30 linked all_free 0xC0009000 unstarted ≡ ok k')
    × ((tmp : Bytes) × (k'.pit.console
          ≡ leave_tmp tmp (
              show
                (boot_lines 30 linked all_free (boot_info loaded 0xC0009000))
                (Console.init unstarted.pit.console))))
    × Installed 30 linked all_free 0xC0009000 unstarted k'
unfolding boot_info
boot-Installed_example =
    boot-Installed 30 linked all_free 0xC0009000 unstarted all_free-IsBootMap (omega arith)
      (omega arith) (omega arith) (omega arith) (omega arith)

-- In the idle loop, one tick before the 30th.
abbrev idling : Kernel
idling = record unstarted {
  idt = record unstarted.idt { handlers = λ v. if v == 32 then 0xC0104000 else 0 };
  pit = record unstarted.pit {
    scheduler_set = true;
    scheduler = record unstarted.pit.scheduler { enabled = false; tick_count = 28 };
    console = record unstarted.pit.console { width = 80; height = 25; y = 12 };
  };
}

abbrev no_processes : World
no_processes = record {
  is_userspace = λ p. false;
  page_dir_phys = λ p. 0;
  saved_eip = λ p. 0;
  saved_eflags = λ p. 0;
}

-- Three interrupts of the timer, the last one nested deeper on the stack.
abbrev frames : List ((ℕ → ℕ) × ℕ)
frames = (λ a. 32, 0xC0180000) ∷ (λ a. 32, 0xC0180000) ∷ (λ a. 32, 0xC017FF00) ∷ []
