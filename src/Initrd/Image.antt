-- ===== src/Initrd/Image.antt =====
-- The image holds the files, at the places that its headers name (tools/initrd_gen.c).
use mathlib.Core.List.{append_assoc}
use another_os.Base.{
  ℕ, suc, ◌+◌, ◌-◌, ◌*◌, ◌^◌, ◌<◌, ◌≤◌, ◌≡◌, ◌∙◌, refl, sym, ap, arith, Option, none, some, List,
  [], ◌++◌, length, length-append, Run, ok, ◌>>=◌,
}
use another_os.Initrd.{
  Header, no_header, int_bytes, header_bytes, nheaders_of, rounds_of, make_headers, copy_files,
  joined, main,
}
use another_os.Initrd.Bytes.{
  slice, int_of, slice-append, int_of-int_bytes, length-joined, joined-split,
}
use another_os.Initrd.Entries.{
  int_at, read_file, length-int_bytes, name_field, length-header_bytes, int_at-offset,
  int_at-length, slice-name, names_fit,
}
use another_os.Initrd.Layout.{Given, Laid, header_of, make_headers-Laid, copy_files-joined}

module _ (padding : List ℕ) (three : length padding ≡ 3) (argv : ℕ → List ℕ)
    (file : List ℕ → Option (List ℕ)) (contents : ℕ → List ℕ) (n : ℕ)
    (g : Given argv file contents 0 n) (small : 4868 + length (joined contents n 0) < 2 ^ 32)
    (after : ℕ → Header) (laid : Laid argv contents n 0 4868 (λ j. no_header) after) where
  entries : ℕ → List ℕ
  entries j = header_bytes padding (after j)

  image : List ℕ
  image = int_bytes n ++ (joined entries 64 0 ++ joined contents n 0)

  length-entries : (i : ℕ) → length (joined entries i 0) ≡ i * 76
  unfolding entries
  length-entries i = length-joined entries 76 i 0 (λ j.
      length-header_bytes padding three (after j)
        (names_fit argv contents file n 4868 after g laid j))

  split_at :
      (f : ℕ → List ℕ) (i m : ℕ)
      → i < m
      → joined f m 0 ≡ joined f i 0 ++ (f i ++ joined f (m - suc i) (suc i))
  split_at f i m l =
      let count : m ≡ i + suc (m - suc i) = omega arith in
      let here : 0 + i ≡ i = omega arith in
      ap (λ k. joined f k 0) count
      ∙ joined-split f i (m - suc i) 0
      ∙ ap (λ k. joined f i 0 ++ (f k ++ joined f (m - suc i) (suc k))) here

  module _ (i : ℕ) (inside : i < n) (few : n < 64) where
    entry_split :
        image
        ≡ (int_bytes n ++ joined entries i 0)
          ++ (entries i ++ (joined entries (64 - suc i) (suc i) ++ joined contents n 0))
    unfolding image
    entry_split =
        ap (λ l. int_bytes n ++ (l ++ joined contents n 0)) (split_at entries i 64 (omega arith))
        ∙ simp append_assoc refl

    contents_split :
        image
        ≡ (int_bytes n ++ (joined entries 64 0 ++ joined contents i 0))
          ++ (contents i ++ joined contents (n - suc i) (suc i))
    unfolding image
    contents_split =
        ap (λ l. int_bytes n ++ (joined entries 64 0 ++ l)) (split_at contents i n inside)
        ∙ simp append_assoc refl

    fits : length (after i).name ≤ 64
    fits = names_fit argv contents file n 4868 after g laid i

    at_entry : 4 + 76 * i ≡ length (int_bytes n ++ joined entries i 0)
    at_entry = omega (
      arith,
      length-append (int_bytes n) (joined entries i 0),
      length-int_bytes n,
      length-entries i,
    )

    header : after i ≡ header_of argv contents (4868 + length (joined contents i 0)) i
    header =
        let here : 0 + i ≡ i = omega arith in
        ap after (sym here)
        ∙ laid.written i inside
        ∙ ap (λ k. header_of argv contents (4868 + length (joined contents i 0)) k) here

    room : length (joined contents i 0) + length (contents i) ≤ length (joined contents n 0)
    room = omega (
      arith,
      ap length (split_at contents i n inside),
      length-append (joined contents i 0) (contents i ++ joined contents (n - suc i) (suc i)),
      length-append (contents i) (joined contents (n - suc i) (suc i)),
    )

    offset : (after i).offset ≡ 4868 + length (joined contents i 0)
    offset = ap (λ h. h.offset) header

    size : (after i).length ≡ length (contents i)
    size = ap (λ h. h.length) header

    behind : List ℕ
    behind = joined entries (64 - suc i) (suc i) ++ joined contents n 0

    read_offset : int_at (4 + 76 * i + 68) image ≡ 4868 + length (joined contents i 0)
    unfolding entries behind
    read_offset =
        ap (int_at (4 + 76 * i + 68)) entry_split
        ∙ int_at-offset padding three (int_bytes n ++ joined entries i 0) behind (after i) fits
            (4 + 76 * i) at_entry (omega (arith, offset, room, small))
        ∙ offset

    read_length : int_at (4 + 76 * i + 72) image ≡ length (contents i)
    unfolding entries behind
    read_length =
        ap (int_at (4 + 76 * i + 72)) entry_split
        ∙ int_at-length padding three (int_bytes n ++ joined entries i 0) behind (after i) fits
            (4 + 76 * i) at_entry (omega (arith, size, room, small))
        ∙ size

    read_name : slice (4 + 76 * i + 1) 64 image ≡ name_field (argv (i * 2 + 2))
    unfolding entries behind
    read_name =
        ap (slice (4 + 76 * i + 1) 64) entry_split
        ∙ slice-name padding three (int_bytes n ++ joined entries i 0) behind (after i) fits
            (4 + 76 * i) at_entry
        ∙ ap (λ h. name_field h.name) header

    read_contents : read_file i image ≡ contents i
    read_contents =
        let at : 4868 + length (joined contents i 0)
            ≡ length (int_bytes n ++ (joined entries 64 0 ++ joined contents i 0)) =
          omega (
            arith,
            length-append (int_bytes n) (joined entries 64 0 ++ joined contents i 0),
            length-append (joined entries 64 0) (joined contents i 0),
            length-int_bytes n,
            length-entries 64,
          ) in
        ap (λ a. slice a (int_at (4 + 76 * i + 72) image) image) read_offset
        ∙ ap (λ b. slice (4868 + length (joined contents i 0)) b image) read_length
        ∙ ap (slice (4868 + length (joined contents i 0)) (length (contents i))) contents_split
        ∙ slice-append (int_bytes n ++ (joined entries 64 0 ++ joined contents i 0)) (contents i)
            (joined contents (n - suc i) (suc i)) (4868 + length (joined contents i 0))
            (length (contents i)) at refl

-- What follows the first loop, with the number of files `k` and `m` rounds.
abbrev finish :
    List ℕ
    → (ℕ → List ℕ)
    → (List ℕ → Option (List ℕ))
    → ℕ
    → ℕ
    → Option (ℕ × (ℕ → Header))
    → Run (Option (List ℕ))
finish padding argv file k m none = ok none
finish padding argv file k m (some made) = copy_files argv file made.1 m 0 >>= λ written.
    ok (some (int_bytes k ++ (joined (λ j. header_bytes padding (made.1 j)) 64 0 ++ written)))

main-finish :
    (padding : List ℕ) (argv : ℕ → List ℕ) (file : List ℕ → Option (List ℕ)) (k m argc off : ℕ)
    (after : ℕ → Header) (written : List ℕ)
    → nheaders_of argc ≡ k
    → rounds_of k ≡ m
    → make_headers argv file m 0 4868 (λ j. no_header) ≡ ok (some (off, after))
    → copy_files argv file after m 0 ≡ ok written
    → main padding argv file argc
      ≡ ok (some (int_bytes k ++ (joined (λ j. header_bytes padding (after j)) 64 0 ++ written)))
unfolding main
main-finish padding argv file k m argc off after written count rounds made copied =
    ap
      (λ k. make_headers argv file (rounds_of k) 0 4868 (λ j. no_header) >>= λ r.
        finish padding argv file k (rounds_of k) r)
      count
    ∙ ap
        (λ m.
          make_headers argv file m 0 4868 (λ j. no_header) >>= λ r. finish padding argv file k m r)
        rounds
    ∙ ap (λ q. q >>= λ r. finish padding argv file k m r) made
    ∙ ap
        (λ q. q >>= λ written.
          ok (some (int_bytes k ++ (joined (λ j. header_bytes padding (after j)) 64 0 ++ written))))
        copied

-- Given the paths of at most 63 files that are there, in each case followed by a name of less than
-- 64 bytes, with less than 4 GB in all, the tool returns an image that starts with the number of
-- files. For each file, its header holds the name, padded by NULs, and the bytes from the header's
-- offset on, as many as its length says, are the file's contents. The padding of a header is any
-- three bytes.
pub main-read_file :
    (padding : List ℕ) (argv : ℕ → List ℕ) (file : List ℕ → Option (List ℕ)) (contents : ℕ → List ℕ)
    (n argc : ℕ)
    → length padding ≡ 3
    → argc ≡ 2 * n + 1
    → n < 64
    → Given argv file contents 0 n
    → 4868 + length (joined contents n 0) < 2 ^ 32
    → (image : List ℕ) × (main padding argv file argc ≡ ok (some image))
      × (int_at 0 image ≡ n)
      × ((i : ℕ)
          → i < n
          → (slice (4 + 76 * i + 1) 64 image ≡ name_field (argv (i * 2 + 2)))
            × (read_file i image ≡ contents i))
unfolding image entries
main-read_file padding argv file contents n argc three args few g small =
    let (after, made, laid) =
      make_headers-Laid argv file contents n 0 4868 (λ j. no_header) g small in
    let count : nheaders_of argc ≡ n = ground arith in
    let rounds : rounds_of n ≡ n = ground arith in
    let sizes : (d : ℕ) → d < n → (after (0 + d)).length ≡ length (contents (0 + d)) =
      λ d l. ap (λ h. h.length) (laid.written d l) in
    let copied = copy_files-joined argv file contents after n 0 g sizes in
    let rest = joined (λ j. header_bytes padding (after j)) 64 0 ++ joined contents n 0 in
    (
      image padding three argv file contents n g small after laid,
      main-finish padding argv file n n argc (4868 + length (joined contents n 0)) after
          (joined contents n 0) count rounds made copied,
      ap int_of (slice-append [] (int_bytes n) rest 0 4 refl (sym (length-int_bytes n)))
          ∙ int_of-int_bytes n (omega arith),
      λ i l. (
        read_name padding three argv file contents n g small after laid i l few,
        read_contents padding three argv file contents n g small after laid i l few,
      ),
    )

-- Given 64 to 127 files, the tool still succeeds: the number that starts the image is negative, all
-- headers are empty, and no file is in it.
pub main-too_many :
    (padding : List ℕ) (argv : ℕ → List ℕ) (file : List ℕ → Option (List ℕ)) (n argc : ℕ)
    → argc ≡ 2 * n + 1
    → 64 ≤ n
    → n < 128
    → main padding argv file argc
      ≡ ok (
          some (
            int_bytes (2 ^ 32 - (128 - n))
            ++ (joined (λ j. header_bytes padding no_header) 64 0 ++ [])))
unfolding make_headers copy_files
main-too_many padding argv file n argc args many few =
    main-finish padding argv file (2 ^ 32 - (128 - n)) 0 argc 4868 (λ j. no_header) []
      (ground arith) (ground arith) refl refl
