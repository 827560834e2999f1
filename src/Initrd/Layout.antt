-- ===== src/Initrd/Layout.antt =====
-- Where the headers say that the files stand (tools/initrd_gen.c).
use mathlib.Core.Path.{subst}
use another_os.Base.{
  ℕ, zero, suc, ◌+◌, ◌*◌, ◌%◌, ◌^◌, ◌<◌, ◌≤◌, ◌≡◌, ◌∙◌, refl, sym, ap, arith, false, Option, some,
  List, [], ◌∷◌, ◌++◌, length, length-append, if◌then◌else◌, leb, ◌==◌, ==_refl, ==_false, add32,
  ok,
}
use another_os.Initrd.{Header, make_headers, read_bytes, copy_files, joined}

-- What the tool is given for `n` files from the place `i` on: each is there, with the contents that
-- `contents` says, and its name fits.
pub record Given (argv : ℕ → List ℕ) (file : List ℕ → Option (List ℕ)) (contents : ℕ → List ℕ)
    (i n : ℕ) : Type 0 where
  pub found : (d : ℕ) → d < n → file (argv ((i + d) * 2 + 1)) ≡ some (contents (i + d))
  pub fits : (d : ℕ) → d < n → length (argv ((i + d) * 2 + 2)) < 64

-- The header of the file at the place `i`, whose contents start at `off`.
abbrev pub header_of : (ℕ → List ℕ) → (ℕ → List ℕ) → ℕ → ℕ → Header
header_of argv contents off i = record {
  magic = 0xBF;
  name = argv (i * 2 + 2);
  offset = off;
  length = length (contents i);
}

-- The headers of `n` files from `i` on, of which the first starts at `off`; the others are as before.
pub record Laid (argv contents : ℕ → List ℕ) (n i off : ℕ) (before after : ℕ → Header)
    : Type 0 where
  pub written :
      (d : ℕ)
      → d < n
      → after (i + d) ≡ header_of argv contents (off + length (joined contents d i)) (i + d)
  pub lower : (j : ℕ) → j < i → after j ≡ before j
  pub upper : (j : ℕ) → i + n ≤ j → after j ≡ before j

module _ (argv : ℕ → List ℕ) (file : List ℕ → Option (List ℕ)) (contents : ℕ → List ℕ) where
  Given-next : (i n : ℕ) → Given argv file contents i (suc n) → Given argv file contents (suc i) n
  Given-next i n g = record {
    found = λ d l.
        ap (λ k. file (argv (k * 2 + 1))) (shift d)
        ∙ g.found (suc d) (omega arith)
        ∙ ap (λ k. some (contents k)) (sym (shift d));
    fits = λ d l.
        subst (λ k. length (argv (k * 2 + 2)) < 64) (sym (shift d)) (g.fits (suc d) (omega arith));
  }
    where
      shift : (d : ℕ) → suc i + d ≡ i + suc d
      shift d = omega arith

  set_header : ℕ → ℕ → (ℕ → Header) → ℕ → Header
  set_header off i headers j = if i == j then header_of argv contents off i else headers j

  make_headers-step :
      (n i off : ℕ) (headers : ℕ → Header)
      → Given argv file contents i (suc n)
      → off + length (contents i) < 2 ^ 32
      → make_headers argv file (suc n) i off headers
        ≡ make_headers argv file n (suc i) (off + length (contents i)) (set_header off i headers)
  unfolding make_headers set_header
  make_headers-step n i off headers g small =
      let here : i + 0 ≡ i = omega arith in
      let found : file (argv (i * 2 + 1)) ≡ some (contents i) =
        ap (λ k. file (argv (k * 2 + 1))) (sym here)
        ∙ g.found 0 (omega arith)
        ∙ ap (λ k. some (contents k)) here in
      let short : length (argv (i * 2 + 2)) < 64 =
        subst (λ k. length (argv (k * 2 + 2)) < 64) here (g.fits 0 (omega arith)) in
      let fits : leb 64 (length (argv (i * 2 + 2))) ≡ false = ground arith in
      let size : length (contents i) % 2 ^ 32 ≡ length (contents i) = omega arith in
      let sum : add32 off (length (contents i)) ≡ off + length (contents i) = omega arith in
      rw (found, make_headers, fits, size, sum) refl

  Laid-written :
      (n i off : ℕ) (headers after : ℕ → Header)
      → Laid argv contents n (suc i) (off + length (contents i)) (set_header off i headers) after
      → (d : ℕ) → d < suc n
      → after (i + d) ≡ header_of argv contents (off + length (joined contents d i)) (i + d)
  unfolding joined set_header
  Laid-written n i off headers after laid zero l =
      let here : i + 0 ≡ i = omega arith in
      let start : off ≡ off + 0 = omega arith in
      ap after here
      ∙ laid.lower i (omega arith)
      ∙ rw (==_refl i) refl
      ∙ ap (λ k. header_of argv contents k i) start
      ∙ ap (λ k. header_of argv contents (off + 0) k) (sym here)
  Laid-written n i off headers after laid (suc d) l =
      let shift : i + suc d ≡ suc i + d = omega arith in
      let start : off + length (contents i) + length (joined contents d (suc i))
          ≡ off + length (contents i ++ joined contents d (suc i)) =
        omega (arith, length-append (contents i) (joined contents d (suc i))) in
      ap after shift
      ∙ laid.written d (omega arith)
      ∙ ap (λ k. header_of argv contents k (suc i + d)) start
      ∙ ap (λ k. header_of argv contents (off + length (joined contents (suc d) i)) k) (sym shift)

  Laid-next :
      (n i off : ℕ) (headers after : ℕ → Header)
      → Laid argv contents n (suc i) (off + length (contents i)) (set_header off i headers) after
      → Laid argv contents (suc n) i off headers after
  unfolding joined set_header
  Laid-next n i off headers after laid = record {
    written = Laid-written n i off headers after laid;
    lower = λ j l. laid.lower j (omega arith) ∙ rw (==_false i j (omega arith)) refl;
    upper = λ j l. laid.upper j (omega arith) ∙ rw (==_false i j (omega arith)) refl;
  }

  pub make_headers-Laid :
      (n i off : ℕ) (headers : ℕ → Header)
      → Given argv file contents i n
      → off + length (joined contents n i) < 2 ^ 32
      → (after : ℕ → Header) × (make_headers argv file n i off headers
          ≡ ok (some (off + length (joined contents n i), after)))
        × Laid argv contents n i off headers after
  unfolding make_headers joined
  make_headers-Laid zero i off headers g small = (
    headers,
    ap (λ k. ok (some (k, headers))) (omega arith),
    record { written = λ d l. absurd (omega arith); lower = λ j l. refl; upper = λ j l. refl },
  )
  make_headers-Laid (suc n) i off headers g small =
      let longer = length-append (contents i) (joined contents n (suc i)) in
      let (after, run, laid) =
        make_headers-Laid n (suc i) (off + length (contents i)) (set_header off i headers)
          (Given-next i n g) (omega (arith, longer)) in
      (
        after,
        make_headers-step n i off headers g (omega (arith, longer))
            ∙ run
            ∙ ap (λ k. ok (some (k, after))) (omega (arith, longer)),
        Laid-next n i off headers after laid,
      )

read_bytes-all : (xs : List ℕ) → read_bytes (length xs) xs ≡ ok xs
unfolding read_bytes
read_bytes-all [] = refl
read_bytes-all (x ∷ xs) = rw (read_bytes-all xs) refl

-- The second loop writes the contents one after the other.
pub copy_files-joined :
    (argv : ℕ → List ℕ) (file : List ℕ → Option (List ℕ)) (contents : ℕ → List ℕ)
    (headers : ℕ → Header) (n i : ℕ)
    → Given argv file contents i n
    → ((d : ℕ) → d < n → (headers (i + d)).length ≡ length (contents (i + d)))
    → copy_files argv file headers n i ≡ ok (joined contents n i)
unfolding copy_files joined
copy_files-joined argv file contents headers zero i g sizes = refl
copy_files-joined argv file contents headers (suc n) i g sizes =
    let here : i + 0 ≡ i = omega arith in
    let found : file (argv (i * 2 + 1)) ≡ some (contents i) =
      ap (λ k. file (argv (k * 2 + 1))) (sym here)
      ∙ g.found 0 (omega arith)
      ∙ ap (λ k. some (contents k)) here in
    let size : (headers i).length ≡ length (contents i) =
      ap (λ k. (headers k).length) (sym here)
      ∙ sizes 0 (omega arith)
      ∙ ap (λ k. length (contents k)) here in
    let rest =
      copy_files-joined argv file contents headers n (suc i) (Given-next argv file contents i n g)
        (λ d l.
          ap (λ k. (headers k).length) (omega arith)
          ∙ sizes (suc d) (omega arith)
          ∙ ap (λ k. length (contents k)) (omega arith)) in
    rw (found, copy_files, size, read_bytes-all (contents i), rest) refl
