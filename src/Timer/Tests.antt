-- ===== src/Timer/Tests.antt =====
-- Runs of src/arch/x86/drivers/pit.cpp.
use another_os.Base.{◌≡◌, arith, refl, true, false, [], ◌∷◌, ok}
use another_os.Console.Screen.{OnScreen}
use another_os.Interrupts.{Idt}
use another_os.Queue.{Queue, push_back}
use another_os.Queue.Chains.{IsQueue}
use another_os.Queue.Insert.{push-IsQueue}
use another_os.Scheduler.{Scheduler, Thread, World, blocked, sleep_ms, resume}
use another_os.Scheduler.Quiet.{at_tick}
use another_os.Scheduler.Sleepers.{Ticked}
use another_os.Timer.{Pit, pit_handler}
use another_os.Timer.Interrupt.{with_scheduler, pit_handler-quiet}
use another_os.Timer.Ticker.{Turned}

abbrev no_threads : Queue
no_threads = record {
  head = 0;
  tail = 0;
  size = 0;
  data_of = λ p. 0;
  next = λ p. 0;
  prev = λ p. 0;
  deleted = [];
}

abbrev one_thread : Queue
one_thread = push_back 7 100 no_threads

one_thread-IsQueue : IsQueue one_thread ((100, 7) ∷ [])
one_thread-IsQueue =
    (push-IsQueue 7 100 [] no_threads
      (record { links = tt; distinct = tt; head = refl; tail = refl; size = refl }) (omega arith)
      refl).0

abbrev sleeper : Thread
sleeper = record {
  parent = 0;
  stack = 0xC0400100;
  user_stack = 0;
  user_stack_size = 0;
  state = blocked;
  blocked_state = sleep_ms;
  regs_ptr = 0;
  time_delta = 3;
}

abbrev running : Pit
running = record {
  ticks = 0;
  index = 3;
  scheduler_set = true;
  scheduler = record {
    threads = λ p. sleeper;
    threads_list = one_thread;
    current_thread = 7;
    tick_count = 4;
    switch_forced = false;
    enabled = true;
    page_directory = 0;
    tss_ss0 = 0;
    tss_esp0 = 0;
  };
  console = record {
    fb = λ i. 0;
    x = 5;
    y = 7;
    cur_color = 15;
    width = 80;
    height = 25;
    out = [];
    tmp = λ i. 0;
  };
}

abbrev kernel_only : World
kernel_only = record {
  is_userspace = λ p. false;
  page_dir_phys = λ p. 0;
  saved_eip = λ r. 0;
  saved_eflags = λ r. 0;
}

running-OnScreen : OnScreen running.console
running-OnScreen = record {
  width_80 = refl;
  height_25 = refl;
  column = omega arith;
  row = omega arith;
}

pit_handler-quiet_example :
    (m : Pit) × (r : Scheduler) × (pit_handler kernel_only 5 0xC0400500 running
      ≡ ok (resume 0xC0400500, with_scheduler r m))
    × Turned running m
    × Ticked ((100, 7) ∷ []) (at_tick 5 running.scheduler) r
pit_handler-quiet_example =
    pit_handler-quiet kernel_only 5 0xC0400500 ((100, 7) ∷ []) running running-OnScreen
      (omega arith) refl one_thread-IsQueue refl (omega arith)

abbrev booted : Idt
booted = record {
  gates = λ i. record { offset0 = 0; selector = 0; zero_byte = 0; type_attr = 0; offset1 = 0 };
  handlers = λ i. 0;
  idt_base = 0;
  idt_limit = 0;
  interrupts_on = true;
  out = [];
}
