-- ===== src/Scheduler/Fair.antt =====
-- Every thread that can run gets its turn (`HandleInterrupt` of src/arch/x86/scheduler/scheduler.cpp).
use mathlib.Core.List.{append_assoc}
use mathlib.Core.Path.{subst}
use another_os.Base.{
  ℕ, zero, suc, ◌≡◌, ◌≢◌, ◌∙◌, ◌<◌, ◌≤◌, ◌^◌, ◌⊎◌, inl, inr, refl, sym, ap, arith, true, false, [],
  ◌∷◌, ◌++◌, length, length-append, All, Bool-cases, ok,
}
use another_os.Queue.Chains.{Nodes, IsQueue}
use another_os.Scheduler.{
  Scheduler, World, Exit, ThreadState, blocked, ready, stopped, started, is_blocked, is_stopped,
  is_started, kernel_heap_start, switch,
}
use another_os.Scheduler.NextReady.{Turn, running, waits}
use another_os.Scheduler.Rotation.{At}
use another_os.Scheduler.Rounds.{Proper, once_of, At-walk, All-at, At-length}
use another_os.Scheduler.Switches.{Switched, switch-Switched}

-- A thread that is ready or blocked.
abbrev pub Calm : Scheduler → ℕ × ℕ → Type 0
Calm s z =
    (is_stopped (s.threads (z.1)).state ≡ false) × (is_started (s.threads (z.1)).state ≡ false)

-- What may happen between two switches: threads sleep, wake and wait, but none starts or stops, and
-- `y` can run in the end.
pub record Between (xs : Nodes) (y : ℕ) (s s' : Scheduler) : Type 0 where
  pub list : s'.threads_list ≡ s.threads_list
  pub current : s'.current_thread ≡ s.current_thread
  pub calm : All (Calm s') xs
  pub able : (s'.threads y).state ≡ ready

-- Within `n` switches, each of which returns, `y` is the current thread, whatever happens in between.
abbrev pub Served : Nodes → ℕ → ℕ → Scheduler → Type 0
Served xs y zero s = s.current_thread ≡ y
Served xs y (suc n) s =
    (s.current_thread ≡ y)
    ⊎ ((s' : Scheduler) (w : World) (fuel esp : ℕ)
        → Between xs y s s'
        → length xs < fuel
        → kernel_heap_start ≤ esp
        → (exit : Exit) × (r : Scheduler) × (switch w fuel esp s' ≡ ok (exit, r)) × Served xs y n r)

-- The first of a list that can run: `y`, or one before it.
data Choice (s : Scheduler) (skipped later : Nodes) (y : ℕ × ℕ) : Type 0 where
  itself : All (λ z. waits s z ≡ true) skipped → Choice s skipped later y
  before :
      (front rest : Nodes) (z : ℕ × ℕ)
      → skipped ≡ front ++ z ∷ rest
      → All (λ a. waits s a ≡ true) front
      → waits s z ≡ false
      → Choice s skipped later y

choice : (s : Scheduler) (skipped later : Nodes) (y : ℕ × ℕ) → Choice s skipped later y
choice s [] later y = itself tt
choice s (a ∷ skipped) later y = behind (Bool-cases (waits s a)) (choice s skipped later y)
  where
    behind :
        (waits s a ≡ true) ⊎ (waits s a ≡ false)
        → Choice s skipped later y
        → Choice s (a ∷ skipped) later y
    behind (inr able) c = before [] skipped a refl tt able
    behind (inl wait) (itself all) = itself (wait, all)
    behind (inl wait) (before front rest z split all able) =
        before (a ∷ front) rest z (ap (λ l. a ∷ l) split) (wait, all) able

able_state :
    (t : ThreadState)
    → is_blocked t ≡ false
    → is_stopped t ≡ false
    → is_started t ≡ false
    → t ≡ ready
able_state blocked b p a = cc
able_state ready b p a = refl
able_state stopped b p a = cc
able_state started b p a = cc

-- `y` stands at most `n` places behind the next thread of the round.
record Place (xs : Nodes) (y : ℕ × ℕ) (n : ℕ) (s : Scheduler) : Type 0 where
  x : ℕ × ℕ
  order : Nodes
  skipped : Nodes
  later : Nodes
  index : ℕ
  valid : IsQueue s.threads_list xs
  current : s.current_thread ≡ x.1
  at : At index xs x order
  split : order ++ x ∷ [] ≡ skipped ++ y ∷ later
  near : length skipped ≤ n

turn_of :
    (i : ℕ) (xs order : Nodes) (x : ℕ × ℕ) (s : Scheduler)
    → Proper xs
    → At i xs x order
    → s.current_thread ≡ x.1
    → (s.current_thread ≢ 0) × Turn s xs x order
turn_of i xs order x s proper at same =
    let not_null : s.current_thread ≢ 0 =
      λ e. All-at (λ z. z.1 ≢ 0) proper.not_null at (sym same ∙ e) in
    (
      not_null,
      running at.front at.behind not_null same at.split
          (once_of xs at.front at.behind x proper.fresh at.split) at.around,
    )

suc_of : (n : ℕ) → n ≢ 0 → (m : ℕ) × (n ≡ suc m)
suc_of zero h = absurd (h refl)
suc_of (suc n) h = (n, refl)

Served-now : (xs : Nodes) (y n : ℕ) (s : Scheduler) → s.current_thread ≡ y → Served xs y n s
Served-now xs y zero s e = e
Served-now xs y (suc n) s e = inl e

module _ (xs : Nodes) (y : ℕ × ℕ) (proper : Proper xs) (small : length xs < 2 ^ 31) where
  -- A switch to `z`, the first thread behind the current one that can run.
  module _ (n : ℕ) (s s' : Scheduler) (w : World) (fuel esp : ℕ) (p : Place xs y n s)
      (b : Between xs (y.1) s s') (enough : length xs < fuel) (high : kernel_heap_start ≤ esp) where
    still_valid : IsQueue s'.threads_list xs
    still_valid = subst (λ q. IsQueue q xs) (sym b.list) p.valid

    switch_to :
        (z : ℕ × ℕ) (front rest : Nodes)
        → p.order ++ p.x ∷ [] ≡ front ++ z ∷ rest
        → All (λ a. waits s' a ≡ true) front
        → (s'.threads (z.1)).state ≡ ready
        → (exit : Exit) × (r : Scheduler) × (switch w fuel esp s' ≡ ok (exit, r))
          × Switched esp (z.1) s' exit r
    switch_to z front rest split wait able =
        let same : s'.current_thread ≡ p.x.1 = b.current ∙ p.current in
        let (not_null, turn) = turn_of p.index xs p.order p.x s' proper p.at same in
        let short : length front < fuel = omega (
          arith,
          ap length split,
          length-append p.order (p.x ∷ []),
          length-append front (z ∷ rest),
          At-length p.index xs p.order p.x p.at,
        ) in
        switch-Switched w xs s' p.x z p.order front rest fuel esp still_valid small turn split wait
          able short not_null
          (ap (λ a. is_stopped (s'.threads a).state) same ∙ (All-at (Calm s') b.calm p.at).0) high

    -- It was not `y`, which is nearer now.
    nearer :
        (front behind : Nodes) (z : ℕ × ℕ) (exit : Exit) (r : Scheduler)
        → p.skipped ≡ front ++ z ∷ behind
        → Switched esp (z.1) s' exit r
        → (m : ℕ) → n ≡ suc m
        → Place xs y m r
    nearer front behind z exit r passed switched m e =
        let rest = behind ++ y ∷ p.later in
        let split : p.order ++ p.x ∷ [] ≡ front ++ z ∷ rest =
          p.split
          ∙ ap (λ l. l ++ y ∷ p.later) passed
          ∙ append_assoc front (z ∷ behind) (y ∷ p.later) in
        let (j, there) =
          At-walk front rest p.index xs p.order p.x z s' still_valid small p.at split in
        record {
          x = z;
          order = rest ++ front;
          skipped = behind;
          later = p.later ++ (front ++ z ∷ []);
          index = j;
          valid = subst (λ q. IsQueue q xs) (sym switched.list) still_valid;
          current = switched.current;
          at = there;
          split =
              append_assoc rest front (z ∷ [])
              ∙ append_assoc behind (y ∷ p.later) (front ++ z ∷ []);
          near = omega (arith, p.near, ap length passed, length-append front (z ∷ behind), e);
        }

    short_of : (front behind : Nodes) (z : ℕ × ℕ) → p.skipped ≡ front ++ z ∷ behind → n ≢ 0
    short_of front behind z passed =
        λ e. omega (arith, p.near, ap length passed, length-append front (z ∷ behind), e)

    -- One switch, after which `y` runs or is nearer.
    one_switch :
        Choice s' p.skipped p.later y
        → ((m : ℕ) (r : Scheduler) → n ≡ suc m → Place xs y m r → Served xs (y.1) n r)
        → (exit : Exit) × (r : Scheduler) × (switch w fuel esp s' ≡ ok (exit, r))
          × Served xs (y.1) n r
    one_switch (itself wait) rest =
        let (exit, r, run, switched) = switch_to y p.skipped p.later p.split wait b.able in
        (exit, r, run, Served-now xs (y.1) n r switched.current)
    one_switch (before front behind z passed wait able) rest =
        let split : p.order ++ p.x ∷ [] ≡ front ++ z ∷ (behind ++ y ∷ p.later) =
          p.split
          ∙ ap (λ l. l ++ y ∷ p.later) passed
          ∙ append_assoc front (z ∷ behind) (y ∷ p.later) in
        let (j, there) =
          At-walk front (behind ++ y ∷ p.later) p.index xs p.order p.x z s' still_valid small p.at
            split in
        let calm = All-at (Calm s') b.calm there in
        let (exit, r, run, switched) =
          switch_to z front (behind ++ y ∷ p.later) split wait
            (able_state (s'.threads (z.1)).state able (calm.0) (calm.1)) in
        (
          exit,
          r,
          run,
          (let (m, e) = suc_of n (short_of front behind z passed) in
              rest m r e (nearer front behind z exit r passed switched m e)),
        )

  serve : (n : ℕ) (s : Scheduler) → Place xs y n s → Served xs (y.1) (suc n) s
  serve zero s p = inr (λ s' w fuel esp b enough high.
      one_switch 0 s s' w fuel esp p b enough high (choice s' p.skipped p.later y)
        (λ m r e. absurd (omega (arith, e))))
  serve (suc n) s p = inr (λ s' w fuel esp b enough high.
      one_switch (suc n) s s' w fuel esp p b enough high (choice s' p.skipped p.later y)
        (λ m r e q. serve n r (subst (λ k. Place xs y k r) (omega (arith, e)) q)))

-- Among threads that are ready or blocked when the timer switches, with a current thread `x`, each
-- thread that can run at every switch is current after at most as many switches as its place in the
-- round behind `x`, whatever the threads do in between; and each of these switches returns. The list
-- is a valid one of less than 2 ^ 31 nodes, and interrupts find the stack pointer in the heap.
pub fair :
    (xs : Nodes) (s : Scheduler) (i : ℕ) (x y : ℕ × ℕ) (order skipped later : Nodes)
    → Proper xs
    → IsQueue s.threads_list xs
    → length xs < 2 ^ 31
    → s.current_thread ≡ x.1
    → At i xs x order
    → order ++ x ∷ [] ≡ skipped ++ y ∷ later
    → Served xs (y.1) (suc (length skipped)) s
fair xs s i x y order skipped later proper valid small same at split =
    serve xs y proper small (length skipped) s (record {
      x = x;
      order = order;
      skipped = skipped;
      later = later;
      index = i;
      valid = valid;
      current = same;
      at = at;
      split = split;
      near = omega arith;
    })
