-- ===== src/KernelHeap/Header.antt =====
-- `struct MemoryHeader` of src/arch/x86/mem/heap.h, packed: five words, at these byte addresses.
use another_os.Base.{ℕ, ◌+◌}

abbrev pub header_size : ℕ
header_size = 20

abbrev pub memory_header_magic : ℕ
memory_header_magic = 1234567890

abbrev pub magic : ℕ → ℕ
magic p = p

abbrev pub next : ℕ → ℕ
next p = p + 4

abbrev pub prev : ℕ → ℕ
prev p = p + 8

abbrev pub allocated : ℕ → ℕ
allocated p = p + 12

abbrev pub size : ℕ → ℕ
size p = p + 16
