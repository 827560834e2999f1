-- ===== src/Lib.antt =====
-- Verification of Another-OS, a 32-bit x86 hobby kernel: its memory management, console, descriptor
-- tables, interrupt dispatch, timer, scheduler and the queue they share, the library of user programs, and
-- the tool that makes its initial ramdisk.
--
-- How the parts interact. `ArchKernel::Init` (src/arch/x86/kernel/kernel.cpp) sets up the console, the
-- segment and interrupt tables and the timer, hands the boot loader's memory map to the physical
-- memory manager, maps the kernel's heap through the page tables, and starts the heap. The timer's
-- interrupt calls the scheduler, which keeps its threads in a queue whose nodes come from the heap.
--
-- Files:
-- - Base: words, lists, bits, doubly linked chains and the results of a run (`Run`).
-- - KernelHeap: src/arch/x86/mem/heap.{h,cpp}. The memory is a function from byte addresses to 32-bit
--   words; `initialize`, `first_free`, `claim` (the rest of `InternalAllocate`), `malloc` and `free`
--   return the new memory. Spec has the abstract block list: first fit and coalescing.
-- - PhysMem: src/arch/x86/mem/phymem.{h,cpp}, the bitmap of 4 KB blocks. Report has what `Init` prints.
-- - Paging: src/arch/x86/mem/virtmem.{h,cpp}, directory and tables by frame. A store through
--   entry 1023 reaches the directory, and one to a frame behind the memory (`ram`) is lost. Mapping has
--   `translate`, what the processor makes of an address, pages of 4 MB included.
-- - Console: src/arch/x86/drivers/vga.{hpp,cpp}: `put` is `_put`, Numbers has `intToString` and
--   `uintToStr`, Format has `vprintf`. Text has `expand`, the text that a format stands for, and Shown
--   what a sequence of messages leaves on the screen.
-- - Timer: src/arch/x86/drivers/pit.cpp, with the console it writes to and the scheduler it runs.
-- - Kernel: src/arch/x86/kernel/kernel.cpp, the steps of `ArchKernel::Init` over the parts above;
--   `boot` is `Init` up to the page tables. Dispatch has the interrupts of the running kernel: the
--   handlers that it installs, by address.
-- - UserLib: libc/stdio.h, libc/string.c and libc/syscall.h, as a list of system calls. Numbers
--   has the number conversions of libc/stdio.h. Programs has libc/unistd.h, libc/io.h,
--   libc/stdlib.h and the driver program of userland/initrd.cpp.
-- - Syscalls: src/arch/x86/syscalls/syscalls.cpp, the handler that every system call reaches.
-- - Initrd: tools/initrd_gen.c. Bytes and Entries read an image as the kernel would.
-- - Interrupts: src/arch/x86/tables/idt.{h,cpp}, with the port writes as a log.
-- - Segments: src/arch/x86/tables/gdt.{h,cpp}.
-- - Queue: libc/queue.h, over node addresses; `IsQueue` relates a queue to its list. Iterator has what
--   a loop from begin() to end() reads.
-- - Scheduler: src/arch/x86/scheduler/scheduler.{h,cpp} and thread.h.
-- - Processes: src/arch/x86/scheduler/thread.cpp and process.{h,cpp}, with the heap they allocate from.
--   Of a process its file name is in the bytes of memory, its other members are a record.
--
-- Conventions. A 32-bit operation is reduced modulo 2 ^ 32 (`add32`, `sub32`); a signed value is
-- its two's complement. `for (;;);` is `halt`, a null dereference or another operation that C
-- leaves undefined is `undefined`, but for the shift by 88 in the call of `InstallHandler` for
-- vector 0x80, whose count is taken modulo 32 as the instruction does. A loop without a structural
-- bound runs on fuel. The fuel of the heap's search is any number above the number of blocks, that
-- of the memory map any number above its length in bytes, that of a number conversion 33 rounds
-- for 32 bits, that of `Remove(e)` one more than the size, and that of a tab four rounds. The fuel
-- of the search for a ready thread, of `Clear` and of `strlen` is an argument; the search needs
-- one round more than there are blocked threads in front, the others one more than the length.
--
-- Left outside: assembly (entry code, interrupt stubs, the jump to user code), interrupts during
-- the start of the kernel, and printing on error paths and when a thread is removed. The
-- scheduler's state has no heap that `delete` of a stopped thread could give memory back to. The
-- bitmap of blocks is a state of its own: where the boot loader left its information, its map or
-- the entry of the first module behind the end of the kernel, which the bitmap may be stored over,
-- `Init` is `undefined`. `Init` goes on behind `boot` only where each page of the heap has memory
-- of its own (else it is `undefined`), and no theorem is about that part. What `inb` reads, the
-- addresses of stubs, the boot loader's memory map, the addresses that `new` returns for the nodes
-- of the scheduler's list, and what a program's system calls return are arguments.
pub mod Base
pub mod KernelHeap
pub mod PhysMem
pub mod Interrupts
pub mod Segments
pub mod UserLib
pub mod Kernel
pub mod Syscalls
pub mod Initrd
pub mod Timer
pub mod Console
pub mod Queue
pub mod Scheduler
pub mod Paging
pub mod Processes
