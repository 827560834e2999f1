-- ===== src/Queue/Clear.antt =====
-- `Clear` deletes every node (libc/queue.h).
use another_os.Base.{
  ℕ, zero, suc, ◌≡◌, ◌∙◌, ◌<◌, refl, ap, arith, List, [], ◌∷◌, length, ==_false, ok,
}
use another_os.Base.Links.{head_or, Links}
use another_os.Queue.{Queue, clear_from, clear}
use another_os.Queue.Chains.{Nodes, NodeAt, Distinct, IsQueue}

-- The nodes in the order of the list, put one by one before those that went earlier.
abbrev pub deleted_after : Nodes → List ℕ → List ℕ
deleted_after [] gone = gone
deleted_after ((p, v) ∷ xs) gone = deleted_after xs (p ∷ gone)

clear_from_lem :
    (fuel before : ℕ) (xs : Nodes) (q : Queue)
    → Links (NodeAt q) before xs 0
    → Distinct xs
    → length xs < fuel
    → clear_from fuel (head_or xs 0) q ≡ ok (record q { deleted = deleted_after xs q.deleted })
unfolding clear_from
clear_from_lem zero before xs q l d enough = absurd (omega arith)
clear_from_lem (suc fuel) before [] q l d enough = refl
clear_from_lem (suc fuel) before ((p, v) ∷ xs) q l d enough =
    rw (==_false p 0 d.0, l.0.0)
      (clear_from_lem fuel p xs (record q { deleted = p ∷ q.deleted }) l.1 d.2 (omega arith))

-- `Clear` of a valid queue returns, with any fuel above the number of nodes. The queue is then empty,
-- and exactly its nodes have been deleted, each once and from the first to the last.
pub clear-IsQueue :
    (fuel : ℕ) (xs : Nodes) (q : Queue)
    → IsQueue q xs
    → length xs < fuel
    → (q' : Queue) × (clear fuel q ≡ ok q')
      × IsQueue q' []
      × (q'.deleted ≡ deleted_after xs q.deleted)
unfolding clear
clear-IsQueue fuel xs q valid enough =
    let run : clear_from fuel q.head q ≡ ok (record q { deleted = deleted_after xs q.deleted }) =
      ap (λ a. clear_from fuel a q) valid.head
      ∙ clear_from_lem fuel 0 xs q valid.links valid.distinct enough in
    rw run
      (_, refl, record { links = tt; distinct = tt; head = refl; tail = refl; size = refl }, refl)
