-- ===== src/Processes.antt =====
-- Threads and processes as they are created (src/arch/x86/scheduler/thread.{h,cpp} and
-- process.{h,cpp}), and the byte loops `memcpy` and `memset`, over byte-addressed memory.
pub mod Memory
pub mod Threads
pub mod Registry
mod Tests
use another_os.Base.{
  ℕ, zero, suc, ◌+◌, ◌-◌, ◌*◌, ◌%◌, ◌^◌, Bool, true, false, List, [], if◌then◌else◌, ◌==◌, add32,
  sub32, Run, ok, halt, ◌>>=◌,
}
use another_os.KernelHeap.{Heap, malloc, free, operator_new}
use another_os.Queue.{Queue, push_back}
use another_os.Scheduler.{Thread, ready, stopped, unknown}

abbrev pub Bytes : Type 0
Bytes = ℕ → ℕ

-- The loops of `memcpy` and `memset`, from `i` on, with `n` rounds to go.
pub copy_from : ℕ → ℕ → ℕ → ℕ → Bytes → Bytes
copy_from zero i dst src m = m
copy_from (suc n) i dst src m =
    copy_from n (suc i) dst src (λ a. if dst + i == a then m (src + i) else m a)

pub memcpy : ℕ → ℕ → ℕ → Bytes → Bytes
memcpy dst src size m = copy_from size 0 dst src m

pub fill_from : ℕ → ℕ → ℕ → ℕ → Bytes → Bytes
fill_from zero i buffer value m = m
fill_from (suc n) i buffer value m =
    fill_from n (suc i) buffer value (λ a. if buffer + i == a then value % 2 ^ 8 else m a)

pub memset : ℕ → ℕ → ℕ → Bytes → Bytes
memset buffer value size m = fill_from size 0 buffer value m

-- The saved registers that `CreateFromFunction` writes.
pub record Registers : Type 0 where
  pub esp : ℕ
  pub eip : ℕ
  pub cs : ℕ
  pub ds : ℕ
  pub ss : ℕ

abbrev pub thread_stack_size : ℕ
thread_stack_size = 4096

abbrev pub user_stack_size : ℕ
user_stack_size = 32 * 1024

abbrev pub user_stack : ℕ
user_stack = 0xC0000000 - user_stack_size

-- The size of `registers_t`.
abbrev pub registers_size : ℕ
registers_size = 64

-- `CreateFromFunction`, given the stack that `malloc` returned and the number of threads of the
-- parent: the thread, the registers at its `regsPtr`, and the memory with the stack cleared.
-- `blockedState` and `timeDelta` are those that value-initialization leaves.
unfoldable pub create_from_function : ℕ → ℕ → Bool → ℕ → ℕ → Bytes → Thread × Registers × Bytes
create_from_function stack entry_point is_kernel parent siblings m = (
  record {
    parent = parent;
    stack = stack;
    user_stack =
        if parent == 0 then user_stack else sub32 user_stack (user_stack_size * siblings % 2 ^ 32);
    user_stack_size = user_stack_size;
    state = ready;
    blocked_state = unknown;
    regs_ptr = sub32 (add32 stack thread_stack_size) registers_size;
    time_delta = 0;
  },
  record {
    esp = add32 stack thread_stack_size;
    eip = entry_point;
    cs = if is_kernel then 0x08 else 0x1B;
    ds = if is_kernel then 0x10 else 0x23;
    ss = if is_kernel then 0x10 else 0x23;
  },
  memset stack 0 thread_stack_size m,
)

-- `ProcessState`.
pub data ProcessState : Type 0 where
  active : ProcessState

-- `Process`, but for `filename`, which is read from memory.
pub record Process : Type 0 where
  pub id : ℕ
  pub syscall_id : ℕ
  pub is_userspace : Bool
  pub args : ℕ
  pub state : ProcessState
  pub threads : Queue
  pub page_dir_phys : ℕ
  pub mem_base : ℕ
  pub mem_size : ℕ
  pub heap_start : ℕ
  pub heap_end : ℕ

-- `sizeof(Process)` and `sizeof(queue_node<Process*>)`, and where `filename` lies.
abbrev pub process_size : ℕ
process_size = 84

abbrev pub node_size : ℕ
node_size = 12

abbrev pub filename_offset : ℕ
filename_offset = 52

-- A process whose bytes are all 0; `Active` is 0.
abbrev pub cleared : Process
cleared = record {
  id = 0;
  syscall_id = 0;
  is_userspace = false;
  args = 0;
  state = active;
  threads = record {
    head = 0;
    tail = 0;
    size = 0;
    data_of = λ p. 0;
    next = λ p. 0;
    prev = λ p. 0;
    deleted = [];
  };
  page_dir_phys = 0;
  mem_base = 0;
  mem_size = 0;
  heap_start = 0;
  heap_end = 0;
}

-- The assignments of `CreateKernelProcess`. `boot_pt` is the address of the page directory.
abbrev pub kernel_process : ℕ → ℕ → Process
kernel_process boot_pt current_pid = record cleared {
  id = current_pid;
  page_dir_phys = sub32 boot_pt 0xC0000000;
  state = active;
  syscall_id = 1;
  heap_start = 0xC0400000;
  heap_end = 16 * 1024 * 1024;
}

-- `currentPID`, `processes`, the processes by address, the bytes of memory, and the heap.
pub record ProcessHelper : Type 0 where
  pub current_pid : ℕ
  pub processes : Queue
  pub process_at : ℕ → Process
  pub bytes : Bytes
  pub heap : Heap

-- The rest of `CreateKernelProcess`, behind `new Process()`; `name` is the address of the text
-- "Kernel Process".
unfoldable pub set_up : ℕ → ℕ → ℕ → ProcessHelper → ProcessHelper
set_up boot_pt name proc s = record s {
  current_pid = add32 s.current_pid 1;
  process_at = λ a. if proc == a then kernel_process boot_pt s.current_pid else s.process_at a;
  bytes = memcpy (proc + filename_offset) name 15 (memset proc 0 process_size s.bytes);
}

-- `processes.push_back(proc)`.
unfoldable pub register_process : ℕ → ℕ → ProcessHelper → Run ProcessHelper
register_process fuel proc s = operator_new fuel node_size s.heap >>= λ r.
    ok (record s { heap = r.1; processes = push_back proc r.0 s.processes })

-- `CreateKernelProcess`: the address of the process.
unfoldable pub create_kernel_process : ℕ → ℕ → ℕ → ProcessHelper → Run (ℕ × ProcessHelper)
create_kernel_process fuel boot_pt name s = operator_new fuel process_size s.heap >>= λ r.
    register_process fuel r.0 (set_up boot_pt name r.0 (record s { heap = r.1 })) >>= λ s.
    ok (r.0, s)

-- `CreateFromFunction` with its allocations: the address of the thread, what is stored there, and
-- the heap.
unfoldable pub create_thread :
    ℕ → ℕ → ℕ → Bool → ℕ → ℕ → Bytes → Heap → Run (ℕ × (Thread × Registers × Bytes) × Heap)
create_thread fuel thread_size entry_point is_kernel parent siblings m h =
    operator_new fuel thread_size h >>= λ t. malloc fuel thread_stack_size t.1 >>= λ r.
    ok (t.0, create_from_function r.0 entry_point is_kernel parent siblings m, r.1)

-- `RemoveThread`.
unfoldable pub remove_thread : Thread → Heap → Run (Thread × Heap)
remove_thread t h = free t.stack h >>= λ h. ok (record t { state = stopped }, h)

-- `Create` only prints, and halts.
pub create : Run Process
create = halt
