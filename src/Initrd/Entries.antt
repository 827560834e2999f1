-- ===== src/Initrd/Entries.antt =====
-- The headers of the image, and what a reader finds in them (tools/initrd_gen.c).
use mathlib.Core.List.{append_assoc}
use mathlib.Core.Path.{subst}
use another_os.Base.{
  ℕ, zero, suc, ◌+◌, ◌-◌, ◌*◌, ◌^◌, ◌<◌, ◌≤◌, ◌≡◌, ◌∙◌, inl, inr, refl, sym, ap, arith, Option,
  List, [], ◌∷◌, ◌++◌, length, length-append, ltb, Bool-cases,
}
use another_os.Initrd.{Header, no_header, int_bytes, zeros, header_bytes}
use another_os.Initrd.Bytes.{slice, int_of, slice-append, int_of-int_bytes}
use another_os.Initrd.Layout.{Given, Laid}

-- The `int` at `p`.
abbrev pub int_at : ℕ → List ℕ → ℕ
int_at p image = int_of (slice p 4 image)

-- The file at the place `i`, found by its header.
abbrev pub read_file : ℕ → List ℕ → List ℕ
read_file i image = slice (int_at (4 + 76 * i + 68) image) (int_at (4 + 76 * i + 72) image) image

length-zeros : (n : ℕ) → length (zeros n) ≡ n
length-zeros zero = refl
length-zeros (suc n) = ap suc (length-zeros n)

pub length-int_bytes : (n : ℕ) → length (int_bytes n) ≡ 4
unfolding int_bytes
length-int_bytes n = refl

-- The 64 bytes of a name.
abbrev pub name_field : List ℕ → List ℕ
name_field name = name ++ zeros (64 - length name)

length-name_field : (name : List ℕ) → length name ≤ 64 → length (name_field name) ≡ 64
length-name_field name h =
    omega (arith, length-append name (zeros (64 - length name)), length-zeros (64 - length name))

module _ (padding : List ℕ) (three : length padding ≡ 3) where
  pub length-header_bytes : (h : Header) → length h.name ≤ 64 → length (header_bytes padding h) ≡ 76
  unfolding header_bytes
  length-header_bytes h fits =
      let rest = int_bytes h.offset ++ int_bytes h.length in
      omega (
        arith,
        length-append (name_field h.name) (padding ++ rest),
        length-append padding rest,
        length-append (int_bytes h.offset) (int_bytes h.length),
        length-name_field h.name fits,
        length-int_bytes h.offset,
        length-int_bytes h.length,
        three,
      )

  -- A header behind `front` and before `behind`: its offset and its length.
  module _ (front behind : List ℕ) (h : Header) (fits : length h.name ≤ 64) where
    lead : List ℕ
    lead = h.magic ∷ (name_field h.name ++ padding)

    lead_size : length (front ++ lead) ≡ length front + 68
    unfolding lead
    lead_size = omega (
      arith,
      length-append front lead,
      length-append (name_field h.name) padding,
      length-name_field h.name fits,
      three,
    )

    offset_split :
        front ++ (header_bytes padding h ++ behind)
        ≡ (front ++ lead) ++ (int_bytes h.offset ++ (int_bytes h.length ++ behind))
    unfolding lead header_bytes
    offset_split = simp append_assoc refl

    pub int_at-offset :
        (p : ℕ)
        → p ≡ length front
        → h.offset < 2 ^ 32
        → int_at (p + 68) (front ++ (header_bytes padding h ++ behind)) ≡ h.offset
    int_at-offset p at small =
        ap (int_at (p + 68)) offset_split
        ∙ ap int_of (
            slice-append (front ++ lead) (int_bytes h.offset) (int_bytes h.length ++ behind)
              (p + 68) 4 (omega (arith, lead_size, at)) (sym (length-int_bytes h.offset)))
        ∙ int_of-int_bytes h.offset small

    length_split :
        front ++ (header_bytes padding h ++ behind)
        ≡ (front ++ (lead ++ int_bytes h.offset)) ++ (int_bytes h.length ++ behind)
    unfolding lead header_bytes
    length_split = simp append_assoc refl

    pub int_at-length :
        (p : ℕ)
        → p ≡ length front
        → h.length < 2 ^ 32
        → int_at (p + 72) (front ++ (header_bytes padding h ++ behind)) ≡ h.length
    int_at-length p at small =
        let size : p + 72 ≡ length (front ++ (lead ++ int_bytes h.offset)) = omega (
          arith,
          at,
          length-append front (lead ++ int_bytes h.offset),
          length-append lead (int_bytes h.offset),
          length-append front lead,
          lead_size,
          length-int_bytes h.offset,
        ) in
        ap (int_at (p + 72)) length_split
        ∙ ap int_of (
            slice-append (front ++ (lead ++ int_bytes h.offset)) (int_bytes h.length) behind
              (p + 72) 4 size (sym (length-int_bytes h.length)))
        ∙ int_of-int_bytes h.length small

    name_split :
        front ++ (header_bytes padding h ++ behind)
        ≡ (front ++ h.magic ∷ [])
          ++ (name_field h.name
              ++ (padding ++ (int_bytes h.offset ++ (int_bytes h.length ++ behind))))
    unfolding header_bytes
    name_split = simp append_assoc refl

    pub slice-name :
        (p : ℕ)
        → p ≡ length front
        → slice (p + 1) 64 (front ++ (header_bytes padding h ++ behind)) ≡ name_field h.name
    slice-name p at =
        ap (slice (p + 1) 64) name_split
        ∙ slice-append (front ++ h.magic ∷ []) (name_field h.name)
            (padding ++ (int_bytes h.offset ++ (int_bytes h.length ++ behind))) (p + 1) 64
            (omega (arith, length-append front (h.magic ∷ []), at))
            (sym (length-name_field h.name fits))

-- The headers of a tool that was given `n` files.
pub names_fit :
    (argv contents : ℕ → List ℕ) (file : List ℕ → Option (List ℕ)) (n off : ℕ) (after : ℕ → Header)
    → Given argv file contents 0 n
    → Laid argv contents n 0 off (λ j. no_header) after
    → (j : ℕ) → length (after j).name ≤ 64
names_fit argv contents file n off after g laid j = elim (Bool-cases (ltb j n)) [
  | inl inside ↦
      let below : j < n = ground (arith, inside) in
      let here : 0 + j ≡ j = omega arith in
      let it : length (after j).name ≡ length (argv (j * 2 + 2)) =
        ap (λ k. length (after k).name) (sym here)
        ∙ ap (λ h. length h.name) (laid.written j below)
        ∙ ap (λ k. length (argv (k * 2 + 2))) here in
      let short : length (argv (j * 2 + 2)) < 64 =
        subst (λ k. length (argv (k * 2 + 2)) < 64) here (g.fits j below) in
      omega (arith, it, short)
  | inr outside ↦
      let it : length (after j).name ≡ 0 =
        ap (λ h. length h.name) (laid.upper j (ground (arith, outside))) in
      omega (arith, it)
]
