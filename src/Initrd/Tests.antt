-- ===== src/Initrd/Tests.antt =====
-- Runs of tools/initrd_gen.c.
use another_os.Base.{
  ℕ, ◌+◌, ◌-◌, ◌*◌, ◌^◌, ◌<◌, ◌≡◌, arith, refl, Option, none, some, List, [], ◌∷◌, ◌++◌, ok,
}
use another_os.Initrd.{no_header, int_bytes, header_bytes, joined, main}
use another_os.Initrd.Bytes.{slice}
use another_os.Initrd.Entries.{int_at, read_file, name_field}
use another_os.Initrd.Image.{main-read_file, main-too_many}
use another_os.Initrd.Layout.{Given}

-- Arguments of one letter each, "b", "c" and so on.
abbrev letters : ℕ → List ℕ
letters i = (97 + i) ∷ []

-- A file at each such path, which holds its letter twice.
abbrev twice : List ℕ → Option (List ℕ)
twice [] = none
twice (c ∷ []) = some (c ∷ c ∷ [])
twice (c ∷ d ∷ cs) = none

abbrev doubled : ℕ → List ℕ
doubled i = (97 + (i * 2 + 1)) ∷ (97 + (i * 2 + 1)) ∷ []

letters-Given : Given letters twice doubled 0 2
letters-Given = record { found = λ d l. refl; fits = λ d l. omega arith }

main-read_file_example :
    (image : List ℕ) × (main (0 ∷ 0 ∷ 0 ∷ []) letters twice 5 ≡ ok (some image))
    × (int_at 0 image ≡ 2)
    × ((i : ℕ)
        → i < 2
        → (slice (4 + 76 * i + 1) 64 image ≡ name_field (letters (i * 2 + 2)))
          × (read_file i image ≡ doubled i))
unfolding joined
main-read_file_example =
    main-read_file (0 ∷ 0 ∷ 0 ∷ []) letters twice doubled 2 5 refl refl (omega arith) letters-Given
      (omega arith)

main-too_many_example :
    main (0 ∷ 0 ∷ 0 ∷ []) letters twice 201
    ≡ ok (
        some (
          int_bytes (2 ^ 32 - 28)
          ++ (joined (λ j. header_bytes (0 ∷ 0 ∷ 0 ∷ []) no_header) 64 0 ++ [])))
main-too_many_example =
    main-too_many (0 ∷ 0 ∷ 0 ∷ []) letters twice 100 201 refl (omega arith) (omega arith)
