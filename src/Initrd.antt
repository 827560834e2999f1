-- ===== src/Initrd.antt =====
-- The tool of tools/initrd_gen.c that puts files into an initial ramdisk. The files are a
-- parameter: the contents at each path, where there is a file. What the tool prints is left out.
pub mod Bytes
pub mod Layout
pub mod Entries
pub mod Image
mod Tests
use another_os.Base.{
  ℕ, zero, suc, ◌+◌, ◌-◌, ◌*◌, ◌/◌, ◌%◌, ◌^◌, Bool, true, false, Option, none, some, List, [], ◌∷◌,
  ◌++◌, length, if◌then◌else◌, ltb, leb, ◌==◌, add32, Run, ok, undefined, ◌>>=◌,
}

-- `struct initrd_header`; the name is the bytes before the first NUL.
pub record Header : Type 0 where
  pub magic : ℕ
  pub name : List ℕ
  pub offset : ℕ
  pub length : ℕ

abbrev pub no_header : Header
no_header = record { magic = 0; name = []; offset = 0; length = 0 }

-- The bytes of an `int`.
unfoldable pub int_bytes : ℕ → List ℕ
int_bytes n = n % 2 ^ 8 ∷ n / 2 ^ 8 % 2 ^ 8 ∷ n / 2 ^ 16 % 2 ^ 8 ∷ n / 2 ^ 24 % 2 ^ 8 ∷ []

abbrev pub zeros : ℕ → List ℕ
zeros zero = []
zeros (suc n) = 0 ∷ zeros n

-- A header in memory: the fields, and the bytes of padding behind the name.
unfoldable pub header_bytes : List ℕ → Header → List ℕ
header_bytes padding h =
    h.magic
    ∷ ((h.name ++ zeros (64 - length h.name))
        ++ (padding ++ (int_bytes h.offset ++ int_bytes h.length)))

-- `nheaders`, in two's complement, of the `char` that the number of arguments is narrowed to; the
-- division rounds towards 0.
abbrev pub nheaders_of : ℕ → ℕ
nheaders_of argc =
    let argc = argc % 2 ^ 8 in if ltb argc 128 then (argc - 1) / 2 else 2 ^ 32 - (257 - argc) / 2

-- The rounds of a loop from 0 up to an `int`: none for a negative one.
abbrev pub rounds_of : ℕ → ℕ
rounds_of n = if ltb n (2 ^ 31) then n else 0

-- The first loop, with `n` rounds to go from `i` on: `off` and the headers at its end, or nothing
-- where a file is not found. A name that does not fit is written past its field.
unfoldable pub make_headers :
    (ℕ → List ℕ)
    → (List ℕ → Option (List ℕ))
    → ℕ
    → ℕ
    → ℕ
    → (ℕ → Header)
    → Run (Option (ℕ × (ℕ → Header)))
make_headers argv file zero i off headers = ok (some (off, headers))
make_headers argv file (suc n) i off headers =
    let name = argv (i * 2 + 2) in
    elim (file (argv (i * 2 + 1))) [
      | none ↦ if leb 64 (length name) then undefined else ok none
      | some contents ↦
          let size = length contents % 2 ^ 32 in
          let h : Header = record { magic = 0xBF; name = name; offset = off; length = size } in
          let rest =
            make_headers argv file n (suc i) (add32 off size)
              (λ j. if i == j then h else headers j) in
          if leb 64 (length name) then undefined else rest
    ]

-- `fread` of `n` bytes from the start of a file; there must be as many.
unfoldable pub read_bytes : ℕ → List ℕ → Run (List ℕ)
read_bytes zero contents = ok []
read_bytes (suc n) [] = undefined
read_bytes (suc n) (c ∷ contents) = read_bytes n contents >>= λ cs. ok (c ∷ cs)

-- The second loop: what is written.
unfoldable pub copy_files :
    (ℕ → List ℕ) → (List ℕ → Option (List ℕ)) → (ℕ → Header) → ℕ → ℕ → Run (List ℕ)
copy_files argv file headers zero i = ok []
copy_files argv file headers (suc n) i = elim (file (argv (i * 2 + 1))) [
  | none ↦ undefined
  | some contents ↦ read_bytes (headers i).length contents >>= λ buf.
      copy_files argv file headers n (suc i) >>= λ rest. ok (buf ++ rest)
]

-- What stands at `from` and the `n - 1` places behind it, one after the other.
unfoldable pub joined : (ℕ → List ℕ) → ℕ → ℕ → List ℕ
joined f zero from = []
joined f (suc n) from = f from ++ joined f n (suc from)

-- `main`: the image, or nothing where it fails.
unfoldable pub main : List ℕ → (ℕ → List ℕ) → (List ℕ → Option (List ℕ)) → ℕ → Run (Option (List ℕ))
main padding argv file argc =
    let nheaders = nheaders_of argc in
    make_headers argv file (rounds_of nheaders) 0 (76 * 64 + 4) (λ j. no_header) >>= λ r. elim r [
      | none ↦ ok none
      | some made ↦ copy_files argv file made.1 (rounds_of nheaders) 0 >>= λ written. ok (
          some
            (int_bytes nheaders ++ (joined (λ j. header_bytes padding (made.1 j)) 64 0 ++ written)))
    ]
