-- ===== src/Queue/Tests.antt =====
-- Runs of libc/queue.h.
use another_os.Base.{◌≡◌, arith, refl, false, [], ◌∷◌, ◌++◌, ok}
use another_os.Queue.{Queue, push_back, push_front, get_at, remove, remove_value}
use another_os.Queue.Chains.{IsQueue}
use another_os.Queue.Sweep.{sweep, remove_value-sweep}
use another_os.Queue.Insert.{push-IsQueue}
use another_os.Queue.Walk.{remove-IsQueue}

abbrev nothing : Queue
nothing = record {
  head = 0;
  tail = 0;
  size = 0;
  data_of = λ p. 0;
  next = λ p. 0;
  prev = λ p. 0;
  deleted = [];
}

nothing-IsQueue : IsQueue nothing []
nothing-IsQueue = record { links = tt; distinct = tt; head = refl; tail = refl; size = refl }

abbrev one : Queue
one = push_back 7 100 nothing

one-IsQueue : IsQueue one ((100, 7) ∷ [])
one-IsQueue = (push-IsQueue 7 100 [] nothing nothing-IsQueue (omega arith) refl).0

push-IsQueue_example :
    IsQueue (push_back 8 200 one) (((100, 7) ∷ []) ++ (200, 8) ∷ [])
    × IsQueue (push_front 8 200 one) ((200, 8) ∷ (100, 7) ∷ [])
push-IsQueue_example = push-IsQueue 8 200 ((100, 7) ∷ []) one one-IsQueue (omega arith) refl

abbrev two : Queue
two = push_back 8 200 one

two-IsQueue : IsQueue two ((100, 7) ∷ (200, 8) ∷ [])
two-IsQueue = (push-IsQueue 8 200 ((100, 7) ∷ []) one one-IsQueue (omega arith) refl).0

remove-IsQueue_example :
    (get_at 1 two ≡ ok 8)
    × (q' : Queue) × (remove 1 two ≡ ok q')
    × IsQueue q' (((100, 7) ∷ []) ++ [])
    × (q'.deleted ≡ 200 ∷ two.deleted)
remove-IsQueue_example = remove-IsQueue 200 8 ((100, 7) ∷ []) [] two two-IsQueue

remove_value-sweep_example :
    (q' : Queue) × (remove_value 7 two ≡ ok q')
    × IsQueue q' (sweep false 7 ((100, 7) ∷ (200, 8) ∷ []))
remove_value-sweep_example = remove_value-sweep 7 ((100, 7) ∷ (200, 8) ∷ []) two two-IsQueue

-- Of two equal elements side by side the second stays.
swept : sweep false 7 ((100, 7) ∷ (200, 7) ∷ (300, 7) ∷ []) ≡ (200, 7) ∷ []
unfolding sweep
swept = refl
