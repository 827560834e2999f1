-- ===== src/UserLib/Driver.antt =====
-- What the driver program of userland/initrd.cpp asks of the kernel.
use another_os.Base.{
  ℕ, ◌-◌, ◌%◌, ◌^◌, ◌≡◌, ◌≢◌, ◌∙◌, refl, sym, ap, arith, inl, inr, Bool, List, [], ◌∷◌, ◌++◌, All,
  append-nil, if◌then◌else◌, ◌==◌, ==_iff, Bool-cases, ok,
}
use another_os.Console.Phrases.{expand-plain}
use another_os.UserLib.{value, Call, syscall0, syscall1, syscall3, Program}
use another_os.UserLib.Programs.{Answers, call, getpid, ioperm, exit, failed, acquired, main}
use another_os.UserLib.Text.{joined, IsWrite, printf-Wrote}

-- The calls behind those in `asked`, the last of which `res` is the result of: the text for a program
-- that has the permission, or else the other text, `exit`, and, where that returns, the first text
-- too. All writes are of whole buffers to the standard output.
pub data Outcome (res : ℕ) (stays : Bool) (asked calls : List Call) : Type 0 where
  granted :
      (w : List Call)
      → res ≢ 2 ^ 32 - 1
      → calls ≡ asked ++ w
      → All IsWrite w
      → joined w ≡ acquired
      → Outcome res stays asked calls
  refused :
      (w w' : List Call)
      → res ≡ 2 ^ 32 - 1
      → calls ≡ ((asked ++ w) ++ syscall1 3 1 ∷ []) ++ w'
      → All IsWrite w
      → joined w ≡ failed
      → All IsWrite w'
      → joined w' ≡ (if stays then acquired else [])
      → Outcome res stays asked calls

-- The driver asks for its number and, with it, for four ports from 0xCF8 on. Only on the answer -1 it
-- writes that it failed, and exits; where `exit` returns it then also writes that it has the
-- permission, as it does on every other answer. In each case it ends.
pub main-Outcome :
    (kernel : Answers) (stays : Bool) (u : Program)
    → let first = u.calls ++ syscall0 0 ∷ [] in
      let asked = first ++ syscall3 1 (kernel first % 2 ^ 32) (value 0xCF8) 4 ∷ [] in
      (u' : Program) × (main kernel stays u ≡ ok u')
      × Outcome (kernel asked % 2 ^ 32) stays asked u'.calls
unfolding main getpid ioperm call exit
main-Outcome kernel stays u =
    let first = u.calls ++ syscall0 0 ∷ [] in
    let asked = first ++ syscall3 1 (kernel first % 2 ^ 32) (value 0xCF8) 4 ∷ [] in
    let begun : Program = record u { calls = asked } in
    elim (Bool-cases (kernel asked % 2 ^ 32 == 2 ^ 32 - 1)) [
      | inl no_access ↦
          let (v, run, wrote) = printf-Wrote failed [] begun failed tt (expand-plain failed refl) in
          let left : Program = record v { calls = v.calls ++ syscall1 3 1 ∷ [] } in
          elim (Bool-cases stays) [
            | inl back ↦
                let (z, run2, more) =
                  printf-Wrote acquired [] left acquired tt (expand-plain acquired refl) in
                (
                  z,
                  rw (no_access, run, back) run2,
                  refused wrote.made more.made ((==_iff _ _).0 no_access)
                      (more.calls ∙ ap (λ l. (l ++ syscall1 3 1 ∷ []) ++ more.made) wrote.calls)
                      wrote.proper wrote.text more.proper (rw back more.text),
                )
            | inr gone ↦ (
              left,
              rw (no_access, run, gone) refl,
              refused wrote.made [] ((==_iff _ _).0 no_access)
                  (ap (λ l. l ++ syscall1 3 1 ∷ []) wrote.calls ∙ sym (append-nil _)) wrote.proper
                  wrote.text tt (rw gone refl),
            )
          ]
      | inr access ↦
          let (v, run, wrote) =
            printf-Wrote acquired [] begun acquired tt (expand-plain acquired refl) in
          (
            v,
            rw access run,
            granted wrote.made (ground (arith, access)) wrote.calls wrote.proper wrote.text,
          )
    ]
