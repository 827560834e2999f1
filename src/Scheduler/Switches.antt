-- ===== src/Scheduler/Switches.antt =====
-- A switch from one thread to the next (`HandleInterrupt` of src/arch/x86/scheduler/scheduler.cpp).
use another_os.Base.{
  ℕ, suc, ◌^◌, ◌<◌, ◌≤◌, ◌≡◌, ◌≢◌, ◌∙◌, inl, inr, refl, sym, ap, arith, true, false, not, ◌&&◌, leb,
  ◌∷◌, ◌++◌, [], length, All, ◌==◌, ==_refl, ==_iff, ==_false, Bool-cases, add32, ok,
}
use another_os.Queue.Chains.{Nodes, IsQueue}
use another_os.Scheduler.{
  Scheduler, World, Exit, resume, ready, is_blocked, is_stopped, is_started, kernel_heap_start,
  thread_stack_size, set_thread, set_tss, drop_stopped, leave_current, enter_next, switch,
}
use another_os.Scheduler.NextReady.{Turn, waits, next_ready}

-- The thread `y` runs from where it was left, on its own kernel stack, and the one that ran before
-- is left at `esp`.
pub record Switched (esp y : ℕ) (s : Scheduler) (exit : Exit) (r : Scheduler) : Type 0 where
  pub resumed : exit ≡ resume (r.threads y).regs_ptr
  pub current : r.current_thread ≡ y
  pub left : r.threads s.current_thread ≡ record (s.threads s.current_thread) { regs_ptr = esp }
  pub others : (a : ℕ) → (s.current_thread == a) ≡ false → r.threads a ≡ s.threads a
  pub stack : r.tss_esp0 ≡ add32 (r.threads y).stack thread_stack_size
  pub list : r.threads_list ≡ s.threads_list

-- `s` with the registers of the current thread saved.
abbrev save : ℕ → Scheduler → Scheduler
save esp s = set_thread s.current_thread (record (s.threads s.current_thread) { regs_ptr = esp }) s

leave_current-save :
    (esp : ℕ) (s : Scheduler)
    → s.current_thread ≢ 0
    → is_stopped (s.threads s.current_thread).state ≡ false
    → kernel_heap_start ≤ esp
    → leave_current esp s ≡ ok (save esp s)
unfolding leave_current
leave_current-save esp s set runs high =
    let set : (s.current_thread == 0) ≡ false = ==_false s.current_thread 0 set in
    let high : leb kernel_heap_start esp ≡ true = ground (arith, high) in rw (set, runs, high) refl

record Entered (y : ℕ) (s r : Scheduler) : Type 0 where
  threads : r.threads ≡ s.threads
  current : r.current_thread ≡ y
  stack : r.tss_esp0 ≡ add32 (s.threads y).stack thread_stack_size
  list : r.threads_list ≡ s.threads_list

enter_next-Entered :
    (w : World) (y : ℕ) (s : Scheduler)
    → is_started (s.threads y).state ≡ false
    → (r : Scheduler) × (enter_next w y s ≡ ok (resume (s.threads y).regs_ptr, r)) × Entered y s r
unfolding enter_next set_tss
enter_next-Entered w y s old =
    elim (Bool-cases
      (not ((s.threads y).parent == 0) && not (w.page_dir_phys (s.threads y).parent == 0))) [
        | inl own ↦ (
          set_tss 0x10 (add32 (s.threads y).stack thread_stack_size) (record s {
            current_thread = y;
            page_directory = w.page_dir_phys (s.threads y).parent;
          }),
          rw (old, own) refl,
          record { threads = refl; current = refl; stack = refl; list = refl },
        )
        | inr shared ↦ (
          set_tss 0x10 (add32 (s.threads y).stack thread_stack_size)
              (record s { current_thread = y }),
          rw (old, shared) refl,
          record { threads = refl; current = refl; stack = refl; list = refl },
        )
      ]

Entered-Switched :
    (esp y : ℕ) (s r : Scheduler)
    → Entered y (save esp s) r
    → Switched esp y s (resume ((save esp s).threads y).regs_ptr) r
unfolding set_thread
Entered-Switched esp y s r h = record {
  resumed = ap (λ t. resume (t y).regs_ptr) (sym h.threads);
  current = h.current;
  left = ap (λ t. t s.current_thread) h.threads ∙ rw (==_refl s.current_thread) refl;
  others = λ a other. ap (λ t. t a) h.threads ∙ rw other refl;
  stack = h.stack ∙ ap (λ t. add32 (t y).stack thread_stack_size) (sym h.threads);
  list = h.list;
}

-- Saving the registers leaves the states.
save-state : (esp y : ℕ) (s : Scheduler) → ((save esp s).threads y).state ≡ (s.threads y).state
unfolding set_thread
save-state esp y s = elim (Bool-cases (s.current_thread == y)) [
  | inl same ↦ rw same (ap (λ a. (s.threads a).state) ((==_iff s.current_thread y).0 same))
  | inr other ↦ rw other refl
]

drop_stopped-running :
    (rounds fuel next : ℕ) (s : Scheduler)
    → is_stopped (s.threads next).state ≡ false
    → drop_stopped (suc rounds) fuel next s ≡ ok (next, s)
unfolding drop_stopped
drop_stopped-running rounds fuel next s runs = rw runs refl

-- The switch of a timer interrupt, from a thread that has not stopped, interrupted with the stack
-- pointer `esp` on a stack of the heap, to the first thread behind it in the list that is not
-- blocked, which is ready: this one resumes at the registers it was left with, the other keeps
-- `esp` for its next turn, and no other thread changes. The list has less than 2 ^ 31 nodes.
pub switch-Switched :
    (w : World) (xs : Nodes) (s : Scheduler) (x y : ℕ × ℕ) (order skipped later : Nodes)
    (fuel esp : ℕ)
    → IsQueue s.threads_list xs
    → length xs < 2 ^ 31
    → Turn s xs x order
    → order ++ x ∷ [] ≡ skipped ++ y ∷ later
    → All (λ z. waits s z ≡ true) skipped
    → (s.threads (y.1)).state ≡ ready
    → length skipped < fuel
    → s.current_thread ≢ 0
    → is_stopped (s.threads s.current_thread).state ≡ false
    → kernel_heap_start ≤ esp
    → (exit : Exit) × (r : Scheduler) × (switch w fuel esp s ≡ ok (exit, r))
      × Switched esp (y.1) s exit r
unfolding switch
switch-Switched w xs s x y order skipped later fuel esp valid small turn split wait able enough set
      runs high =
    let runs' : is_stopped (s.threads (y.1)).state ≡ false = ap is_stopped able in
    let old : is_started ((save esp s).threads (y.1)).state ≡ false =
      ap is_started (save-state esp (y.1) s ∙ able) in
    let entered = enter_next-Entered w (y.1) (save esp s) old in
    (
      _,
      entered.0,
      rw
          (
            next_ready xs s x y order skipped later fuel valid small turn split wait
                (ap is_blocked able) enough,
            drop_stopped-running s.threads_list.size fuel (y.1) s runs',
            leave_current-save esp s set runs high,
          )
          entered.1,
      Entered-Switched esp (y.1) s entered.0 entered.2,
    )
