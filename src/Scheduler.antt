-- ===== src/Scheduler.antt =====
-- The scheduler of src/arch/x86/scheduler/scheduler.{h,cpp}. Threads and processes are addresses,
-- and 0 is the null pointer; the list of threads is the queue of libc/queue.h.
pub mod Ticks
pub mod Rotation
pub mod NextReady
pub mod Sleepers
pub mod Switches
pub mod Quiet
pub mod Rounds
pub mod Fair
pub mod Cycle
mod Tests
use another_os.Base.{
  ℕ, zero, suc, ◌+◌, ◌-◌, ◌%◌, ◌^◌, Bool, true, false, not, ◌&&◌, ◌||◌, if◌then◌else◌, ltb, leb,
  ◌==◌, add32, sub32, Run, ok, halt, undefined, out_of_fuel, ◌>>=◌,
}
use another_os.Queue.{Queue, push_back, get_at, index_of, remove_value}

pub data ThreadState : Type 0 where
  blocked : ThreadState
  ready : ThreadState
  stopped : ThreadState
  started : ThreadState

pub data BlockedState : Type 0 where
  unknown : BlockedState
  sleep_ms : BlockedState
  receive_ipc : BlockedState

abbrev pub is_blocked : ThreadState → Bool
is_blocked blocked = true
is_blocked ready = false
is_blocked stopped = false
is_blocked started = false

abbrev pub is_stopped : ThreadState → Bool
is_stopped blocked = false
is_stopped ready = false
is_stopped stopped = true
is_stopped started = false

abbrev pub is_started : ThreadState → Bool
is_started blocked = false
is_started ready = false
is_started stopped = false
is_started started = true

abbrev pub is_sleeping : BlockedState → Bool
is_sleeping unknown = false
is_sleeping sleep_ms = true
is_sleeping receive_ipc = false

pub record Thread : Type 0 where
  pub parent : ℕ
  pub stack : ℕ
  pub user_stack : ℕ
  pub user_stack_size : ℕ
  pub state : ThreadState
  pub blocked_state : BlockedState
  pub regs_ptr : ℕ
  pub time_delta : ℕ

-- The members of `class Scheduler`, the threads, and the registers that the scheduler sets: `cr3`, and
-- `ss0` and `esp0` of the task state segment.
pub record Scheduler : Type 0 where
  pub threads : ℕ → Thread
  pub threads_list : Queue
  pub current_thread : ℕ
  pub tick_count : ℕ
  pub switch_forced : Bool
  pub enabled : Bool
  pub page_directory : ℕ
  pub tss_ss0 : ℕ
  pub tss_esp0 : ℕ

-- How an interrupt ends: it returns to what stands at `esp`, or enters user code for the first time.
pub data Exit : Type 0 where
  resume : ℕ → Exit
  enter_usermode : ℕ → ℕ → ℕ → Exit

-- What the scheduler reads of a process, and of the registers that a thread saved.
pub record World : Type 0 where
  pub is_userspace : ℕ → Bool
  pub page_dir_phys : ℕ → ℕ
  pub saved_eip : ℕ → ℕ
  pub saved_eflags : ℕ → ℕ

abbrev pub thread_stack_size : ℕ
thread_stack_size = 4096

abbrev pub kernel_heap_start : ℕ
kernel_heap_start = 0xC0400000

-- The constructor: `Clear` of an empty list of threads.
unfoldable pub construct : Scheduler → Scheduler
construct s =
    let list = record s.threads_list { head = 0; tail = 0; size = 0 } in
    record s {
      threads_list = list;
      current_thread = 0;
      tick_count = 0;
      switch_forced = false;
      enabled = false;
    }

pub set_thread : ℕ → Thread → Scheduler → Scheduler
set_thread p t s = record s { threads = λ a. if p == a then t else s.threads a }

pub set_tss : ℕ → ℕ → Scheduler → Scheduler
set_tss ss0 esp0 s = record s { tss_ss0 = ss0; tss_esp0 = esp0 }

pub force_switch : Scheduler → Scheduler
force_switch s = record s { switch_forced = true; enabled = true; tick_count = 29 }

-- `Unblock`, up to the software interrupt that a forced switch ends with.
pub unblock : ℕ → Bool → Scheduler → Scheduler
unblock p force s =
    let s = set_thread p (record (s.threads p) { state = ready }) s in
    if force then force_switch s else s

-- One round of `ProcessSleepingThreads`.
pub wake : ℕ → Scheduler → Scheduler
wake p s =
    let t = s.threads p in
    if is_blocked t.state && is_sleeping t.blocked_state && ltb 0 t.time_delta
    then (let s = set_thread p (record t { time_delta = t.time_delta - 1 }) s in
        if t.time_delta - 1 == 0 then unblock p false s else s)
    else s

-- The loop, from `i` on, with `left` rounds to go.
pub process_sleeping_from : ℕ → ℕ → Scheduler → Run Scheduler
process_sleeping_from zero i s = ok s
process_sleeping_from (suc left) i s =
    get_at i s.threads_list >>= λ p. process_sleeping_from left (suc i) (wake p s)

pub process_sleeping_threads : Scheduler → Run Scheduler
process_sleeping_threads s = process_sleeping_from s.threads_list.size 0 s

abbrev pub next_index : ℕ → Scheduler → ℕ
next_index i s = let i = add32 i 1 in if leb s.threads_list.size i then 0 else i

-- The loop of `GetNextReadyThread`. It has no end while every thread is blocked.
pub ready_from : ℕ → ℕ → Scheduler → Run ℕ
ready_from zero i s = out_of_fuel
ready_from (suc fuel) i s = get_at i s.threads_list >>= λ p.
    let rest = ready_from fuel (next_index i s) s in
    if is_blocked (s.threads p).state then rest else ok p

pub get_next_ready_thread : ℕ → Scheduler → Run ℕ
get_next_ready_thread fuel s =
    (if s.current_thread == 0 then ok 0 else index_of s.current_thread s.threads_list) >>= λ i.
    ready_from fuel (next_index i s) s

-- `threadsList.Remove(thread); delete thread;`. The heap is not part of this state: `delete` gives back
-- memory that the scheduler does not look at again.
pub remove_thread : ℕ → Scheduler → Run Scheduler
remove_thread p s = remove_value p s.threads_list >>= λ q. ok (record s { threads_list = q })

-- The loop that removes stopped threads, from `next` on: the thread to run.
pub drop_stopped : ℕ → ℕ → ℕ → Scheduler → Run (ℕ × Scheduler)
drop_stopped zero fuel next s = out_of_fuel
drop_stopped (suc rounds) fuel next s =
    let again = remove_thread next s >>= λ s.
    get_next_ready_thread fuel s >>= λ next. drop_stopped rounds fuel next s in
    if is_stopped (s.threads next).state then again else ok (next, s)

-- `InitialThreadUserJump`; the second component is what `enter_usermode` is called with.
pub initial_thread_user_jump : World → ℕ → Scheduler → Scheduler × Exit
initial_thread_user_jump w p s =
    let t = s.threads p in
    let s = set_tss 0x10 (add32 t.stack thread_stack_size) s in
    let s = record s {
      page_directory = w.page_dir_phys t.parent;
      current_thread = p;
      enabled = true;
    } in
    (
      s,
      enter_usermode (w.saved_eip t.regs_ptr) (add32 t.user_stack t.user_stack_size)
          (w.saved_eflags t.regs_ptr),
    )

-- What becomes of the thread that ran: it is removed if it has stopped, otherwise its registers are
-- kept if they were saved on a stack of the kernel's heap. A null `currentThread` is dereferenced
-- there.
pub leave_current : ℕ → Scheduler → Run Scheduler
leave_current esp s =
    let c = s.current_thread in
    if not (c == 0) && is_stopped (s.threads c).state
    then remove_thread c s
    else if leb kernel_heap_start esp
    then if c == 0 then undefined else ok (set_thread c (record (s.threads c) { regs_ptr = esp }) s)
    else ok s

-- The switch to `next`.
pub enter_next : World → ℕ → Scheduler → Run (Exit × Scheduler)
enter_next w next s =
    let s = record s { current_thread = next } in
    let t = s.threads next in
    if is_started t.state && (t.parent == 0)
    then undefined
    else if is_started t.state && w.is_userspace t.parent
    then (let s = set_thread next (record t { state = ready }) s in
        let (s, exit) = initial_thread_user_jump w next s in ok (exit, s))
    else (let s =
          if not (t.parent == 0) && not (w.page_dir_phys t.parent == 0)
          then record s { page_directory = w.page_dir_phys t.parent }
          else s in
        ok (resume t.regs_ptr, set_tss 0x10 (add32 t.stack thread_stack_size) s))

pub switch : World → ℕ → ℕ → Scheduler → Run (Exit × Scheduler)
switch w fuel esp s = get_next_ready_thread fuel s >>= λ next.
    drop_stopped (suc (s.threads_list.size)) fuel next s >>= λ r.
    leave_current esp r.1 >>= λ s. enter_next w r.0 s

unfoldable pub handle_interrupt : World → ℕ → ℕ → Scheduler → Run (Exit × Scheduler)
handle_interrupt w fuel esp s =
    let s = record s { tick_count = add32 s.tick_count 1 } in
    (if s.switch_forced
      then ok (record s { switch_forced = false })
      else process_sleeping_threads s)
    >>= λ s.
        if s.tick_count == 30
        then (let s = record s { tick_count = 0 } in
            if ltb 0 s.threads_list.size && s.enabled
            then switch w fuel esp s
            else ok (resume esp, s))
        else ok (resume esp, s)

-- `AddThread`, up to the software interrupt of a forced switch: an exit where the thread enters
-- user code at once. `node` is the address of the new node of the list.
pub add_thread : World → ℕ → ℕ → Bool → Scheduler → Scheduler × Exit
add_thread w node p force s =
    let s = record s { threads_list = push_back p node s.threads_list } in
    let t = s.threads p in
    if force
    then if not (t.parent == 0) && w.is_userspace t.parent
      then initial_thread_user_jump w p s
      else (force_switch s, resume 0)
    else (s, resume 0)
