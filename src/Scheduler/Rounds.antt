-- ===== src/Scheduler/Rounds.antt =====
-- Going round the list of threads (`GetNextReadyThread` of src/arch/x86/scheduler/scheduler.cpp).
use mathlib.Core.List.{append_assoc, head-eq_of_cons-eq, tail-eq_of_cons-eq}
use mathlib.Core.Path.{subst}
use another_os.Base.{
  ℕ, suc, ◌+◌, ◌≡◌, ◌≢◌, ◌∙◌, ◌<◌, ◌^◌, refl, sym, ap, arith, false, [], ◌∷◌, ◌++◌, length,
  length-append, All, All-append_right, append-nil, ◌==◌,
}
use another_os.Queue.Chains.{Nodes, IsQueue}
use another_os.Queue.Index.{holds}
use another_os.Scheduler.{Scheduler, next_index}
use another_os.Scheduler.Rotation.{At, At-next}

-- No thread of the list is listed again behind its node.
abbrev pub Fresh : Nodes → Type 0
Fresh [] = Unit
Fresh ((p, v) ∷ xs) = (holds v xs ≡ false) × Fresh xs

-- The threads of the list have addresses, and no thread is listed twice.
pub record Proper (xs : Nodes) : Type 0 where
  pub not_null : All (λ (z : ℕ × ℕ). z.1 ≢ 0) xs
  pub fresh : Fresh xs

holds-behind :
    (e : ℕ) (front behind : Nodes) (z : ℕ × ℕ)
    → holds e (front ++ z ∷ behind) ≡ false
    → (e == (z.1)) ≡ false
holds-behind e [] behind (p, v) h = ground (arith, h)
holds-behind e ((q, w) ∷ front) behind z h = holds-behind e front behind z (ground (arith, h))

pub once_of :
    (xs front behind : Nodes) (z : ℕ × ℕ)
    → Fresh xs
    → xs ≡ front ++ z ∷ behind
    → holds (z.1) front ≡ false
once_of xs [] behind z fresh split = refl
once_of [] (a ∷ front) behind z fresh split =
    absurd
      (let long : 0 ≡ suc (length (front ++ z ∷ behind)) = ap length split in omega (arith, long))
once_of ((q, w) ∷ xs) ((p, v) ∷ front) behind z fresh split =
    let same : w ≡ v = ap (λ (a : ℕ × ℕ). a.1) (head-eq_of_cons-eq split) in
    let rest : xs ≡ front ++ z ∷ behind = tail-eq_of_cons-eq split in
    let apart : (w == (z.1)) ≡ false =
      holds-behind w front behind z (ap (holds w) (sym rest) ∙ fresh.0) in
    let first : (v == (z.1)) ≡ false = ap (λ (k : ℕ). k == (z.1)) (sym same) ∙ apart in
    rw first (once_of xs front behind z fresh.1 rest)

-- Further round the list: `z` becomes the last, and those that were passed come behind the others.
pub At-walk :
    (skipped later : Nodes) (i : ℕ) (xs order : Nodes) (x z : ℕ × ℕ) (s : Scheduler)
    → IsQueue s.threads_list xs
    → length xs < 2 ^ 31
    → At i xs x order
    → order ++ x ∷ [] ≡ skipped ++ z ∷ later
    → (j : ℕ) × At j xs z (later ++ skipped)
At-walk [] later i xs [] x z s valid small at split =
    let same : x ≡ z = head-eq_of_cons-eq split in
    let none : [] ≡ later = tail-eq_of_cons-eq split in
    (
      i,
      subst (λ l. At i xs z l) (none ∙ sym (append-nil later)) (subst (λ a. At i xs a []) same at),
    )
At-walk (v ∷ skipped) later i xs [] x z s valid small at split =
    let long : 1 ≡ suc (length (skipped ++ z ∷ later)) = ap length split in
    absurd (omega (arith, long, length-append skipped (z ∷ later)))
At-walk [] later i xs (w ∷ order) x z s valid small at split =
    let same : w ≡ z = head-eq_of_cons-eq split in
    let rest : order ++ x ∷ [] ≡ later = tail-eq_of_cons-eq split in
    (
      next_index i s,
      subst (λ l. At (next_index i s) xs z l) (rest ∙ sym (append-nil later))
          (subst (λ a. At (next_index i s) xs a (order ++ x ∷ [])) same
            (At-next i xs x w order s valid small at)),
    )
At-walk (v ∷ skipped) later i xs (w ∷ order) x z s valid small at split =
    let same : w ≡ v = head-eq_of_cons-eq split in
    let rest : order ++ x ∷ [] ≡ skipped ++ z ∷ later = tail-eq_of_cons-eq split in
    let (j, there) =
      At-walk skipped (later ++ w ∷ []) (next_index i s) xs (order ++ x ∷ []) w z s valid small
        (At-next i xs x w order s valid small at)
        (ap (λ l. l ++ w ∷ []) rest ∙ append_assoc skipped (z ∷ later) (w ∷ [])) in
    (
      j,
      subst (λ l. At j xs z l)
          (append_assoc later (w ∷ []) skipped ∙ ap (λ a. later ++ a ∷ skipped) same) there,
    )

-- What holds of every node holds of the one that is at an index.
pub All-at :
    (P : ℕ × ℕ → Type 0) {xs order : Nodes} {i : ℕ} {x : ℕ × ℕ} → All P xs → At i xs x order → P x
All-at P {xs} {order} {i} {x} all at =
    (All-append_right P at.front (x ∷ at.behind) (subst (All P) at.split all)).0

pub At-length :
    (i : ℕ) (xs order : Nodes) (x : ℕ × ℕ) → At i xs x order → length xs ≡ length order + 1
At-length i xs order x at = omega (
  arith,
  ap length at.split,
  ap length at.around,
  length-append at.front (x ∷ at.behind),
  length-append at.behind at.front,
)
