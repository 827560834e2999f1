-- ===== src/Scheduler/Tests.antt =====
-- Runs of src/arch/x86/scheduler/scheduler.cpp.
use another_os.Base.{
  ◌≡◌, arith, refl, true, false, if◌then◌else◌, ◌==◌, [], ◌∷◌, ok, out_of_fuel, ◌>>=◌,
}
use another_os.Queue.{Queue, push_back}
use another_os.Queue.Chains.{Nodes, IsQueue}
use another_os.Queue.Insert.{push-IsQueue}
use another_os.Scheduler.{
  Scheduler, Thread, World, blocked, ready, sleep_ms, switch, Exit, resume, get_next_ready_thread,
}
use another_os.Scheduler.NextReady.{Turn, running, unlisted, next_ready, none_ready}
use another_os.Scheduler.Cycle.{interrupts, behind, Passed, cycle}
use another_os.Scheduler.Fair.{Served, fair}
use another_os.Scheduler.Quiet.{at_tick}
use another_os.Scheduler.Switches.{Switched, switch-Switched}

abbrev sleeper : Thread
sleeper = record {
  parent = 0;
  stack = 0xC0400100;
  user_stack = 0;
  user_stack_size = 0;
  state = blocked;
  blocked_state = sleep_ms;
  regs_ptr = 0;
  time_delta = 3;
}

abbrev one_thread : Queue
one_thread = record {
  head = 100;
  tail = 100;
  size = 1;
  data_of = λ p. 7;
  next = λ p. 0;
  prev = λ p. 0;
  deleted = [];
}

abbrev one_running : Scheduler
one_running = record {
  threads = λ p. sleeper;
  threads_list = one_thread;
  current_thread = 7;
  tick_count = 0;
  switch_forced = false;
  enabled = true;
  page_directory = 0;
  tss_ss0 = 0;
  tss_esp0 = 0;
}

abbrev kernel_only : World
kernel_only = record {
  is_userspace = λ p. false;
  page_dir_phys = λ p. 0;
  saved_eip = λ r. 0;
  saved_eflags = λ r. 0;
}

abbrev no_threads : Queue
no_threads = record {
  head = 0;
  tail = 0;
  size = 0;
  data_of = λ p. 0;
  next = λ p. 0;
  prev = λ p. 0;
  deleted = [];
}

abbrev nodes : Nodes
nodes = (100, 7) ∷ (200, 8) ∷ []

abbrev first_thread : Queue
first_thread = push_back 7 100 no_threads

abbrev two_threads : Queue
two_threads = push_back 8 200 first_thread

first_thread-IsQueue : IsQueue first_thread ((100, 7) ∷ [])
first_thread-IsQueue =
    (push-IsQueue 7 100 [] no_threads
      (record { links = tt; distinct = tt; head = refl; tail = refl; size = refl }) (omega arith)
      refl).0

two_threads-IsQueue : IsQueue two_threads nodes
two_threads-IsQueue =
    (push-IsQueue 8 200 ((100, 7) ∷ []) first_thread first_thread-IsQueue (omega arith) refl).0

-- The thread 7 runs, and sleeps from now on; the thread 8 is ready.
abbrev two_running : Scheduler
two_running = record one_running {
  threads =
      λ p. if p == 8 then record sleeper { state = ready; regs_ptr = 0xC0400800 } else sleeper;
  threads_list = two_threads;
}

two_running-Turn : Turn two_running nodes (100, 7) ((200, 8) ∷ [])
two_running-Turn = running [] ((200, 8) ∷ []) (λ e. omega (arith, e)) refl refl refl refl

next_ready_example : get_next_ready_thread 3 two_running ≡ ok 8
next_ready_example =
    next_ready nodes two_running (100, 7) (200, 8) ((200, 8) ∷ []) [] ((100, 7) ∷ []) 3
      two_threads-IsQueue (omega arith) two_running-Turn refl tt refl (omega arith)

-- Both threads sleep.
abbrev all_asleep : Scheduler
all_asleep = record one_running { threads_list = two_threads; current_thread = 9 }

none_ready_example : get_next_ready_thread 1000 all_asleep ≡ out_of_fuel
none_ready_example =
    none_ready nodes all_asleep (200, 8) ((100, 7) ∷ []) 1000 two_threads-IsQueue (omega arith)
      (unlisted (λ e. omega (arith, e)) refl refl) (refl, (refl, tt))

switch-Switched_example :
    (exit : Exit) × (r : Scheduler) × (switch kernel_only 3 0xC0400500 two_running ≡ ok (exit, r))
    × Switched 0xC0400500 8 two_running exit r
switch-Switched_example =
    switch-Switched kernel_only nodes two_running (100, 7) (200, 8) ((200, 8) ∷ []) []
      ((100, 7) ∷ []) 3 0xC0400500 two_threads-IsQueue (omega arith) two_running-Turn refl tt refl
      (omega arith) (λ e. omega (arith, e)) refl (omega arith)

-- The thread 8 runs before its 30th tick, and the thread 7 sleeps.
abbrev late : Scheduler
late = record two_running { current_thread = 8; tick_count = 29 }

-- Both threads are ready, and the thread 7 runs.
abbrev both_ready : Scheduler
both_ready = record two_running { threads = λ p. record sleeper { state = ready } }

fair_example : Served nodes 8 1 both_ready
fair_example =
    fair nodes both_ready 0 (100, 7) (200, 8) ((200, 8) ∷ []) [] ((100, 7) ∷ [])
      (record {
        not_null = (λ e. omega (arith, e), (λ e. omega (arith, e), tt));
        fresh = (refl, (refl, tt));
      })
      two_threads-IsQueue (omega arith) refl
      (record { front = []; behind = (200, 8) ∷ []; split = refl; index = refl; around = refl })
      refl

cycle_example :
    (r : Scheduler) × (interrupts kernel_only 3
        (0xC0400500 ∷ 0xC0400600 ∷ [])
        (record late { tick_count = 28 })
      ≡ (switch kernel_only 3 0xC0400600 (at_tick 0 r) >>= behind (resume 0xC0400500 ∷ [])))
    × Passed 2 30 nodes (record late { tick_count = 28 }) r
cycle_example =
    cycle kernel_only 3 0xC0400600 (0xC0400500 ∷ []) nodes (record late { tick_count = 28 })
      two_threads-IsQueue refl refl (omega arith) refl
