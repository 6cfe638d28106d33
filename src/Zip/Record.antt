-- ===== src/Zip/Record.antt =====
-- The end of central directory records of an archive, as src/zip.rs reads them.
use blazesym.Common.{
  ℕ, zero, suc, ◌+◌, ◌-◌, ◌≤◌, ◌≡◌, ◌⊎◌, refl, sym, ap, ◌∙◌, not, ◌||◌, Option, none, some, List,
  [], ◌∷◌, ltb, ◌==◌, if◌then◌else◌, length, take, drop, length-drop, arith, Bool-cases, inl, inr,
}
use blazesym.Common.Outcome.{Outcome, ok, err, invalid_data}
use blazesym.Util.Slice.{Slice, from_le_bytes, field, read_slice, ensure}
use blazesym.Zip.{try_parse_end_of_cd, try_at}
use blazesym.Zip.Format.{end_of_cd_record}

-- The integers of two and of four bytes at an offset.
abbrev pub u16_at : Slice → (offset : ℕ) → ℕ
u16_at input offset = from_le_bytes (take 2 (drop offset input.bytes))

abbrev pub u32_at : Slice → (offset : ℕ) → ℕ
u32_at input offset = from_le_bytes (take 4 (drop offset input.bytes))

-- There is an end of central directory record at the offset: its 22 bytes start with the magic
-- number, and they and the comment that they announce are inside the data.
abbrev pub IsRecord : Slice → (offset : ℕ) → Type 0
IsRecord input offset =
    (u32_at input offset ≡ 0x06054b50)
    × (offset + 22 + u16_at input (offset + 20) ≤ length input.bytes)

-- The archive has one disk: the two numbers of disks are zero, and the numbers of records are equal.
abbrev pub IsSupported : Slice → (offset : ℕ) → Type 0
IsSupported input offset =
    (u16_at input (offset + 4) ≡ 0)
    × (u16_at input (offset + 6) ≡ 0)
    × (u16_at input (offset + 10) ≡ u16_at input (offset + 8))

-- where the central directory starts, and how many records it has
abbrev pub cd_offset_at : Slice → (offset : ℕ) → ℕ
cd_offset_at input offset = u32_at input (offset + 16)

abbrev pub cd_records_at : Slice → (offset : ℕ) → ℕ
cd_records_at input offset = u16_at input (offset + 8)

module _ {A : Type 0} where
  take-take : (n m : ℕ) (xs : List A) → n ≤ m → take n (take m xs) ≡ take n xs
  take-take zero m xs h = refl
  take-take (suc n) zero xs h = absurd (omega arith)
  take-take (suc n) (suc m) [] h = refl
  take-take (suc n) (suc m) (x ∷ xs) h = ap (λ (l : List A). x ∷ l) (take-take n m xs (omega arith))

  take-drop-take :
      (n i m : ℕ) (xs : List A) → i + n ≤ m → take n (drop i (take m xs)) ≡ take n (drop i xs)
  take-drop-take n zero m xs h = take-take n m xs (omega arith)
  take-drop-take n (suc i) zero xs h = absurd (omega arith)
  take-drop-take n (suc i) (suc m) [] h = refl
  take-drop-take n (suc i) (suc m) (x ∷ xs) h = take-drop-take n i m xs (omega arith)

  drop-nil : (n : ℕ) → let nil : List A = [] in drop n nil ≡ nil
  drop-nil zero = refl
  drop-nil (suc n) = refl

  drop-drop : (i k : ℕ) (xs : List A) → drop i (drop k xs) ≡ drop (k + i) xs
  drop-drop i zero xs = let e : i ≡ 0 + i = omega arith in ap (λ (n : ℕ). drop n xs) e
  drop-drop i (suc k) [] = drop-nil i ∙ sym (drop-nil (suc k + i))
  drop-drop i (suc k) (x ∷ xs) =
      let e : suc (k + i) ≡ suc k + i = omega arith in
      drop-drop i k xs ∙ ap (λ (n : ℕ). drop n (x ∷ xs)) e

-- a field of the struct at `offset` is the integer at its place of the data
field_at :
    (i n offset : ℕ) (bytes : List ℕ)
    → i + n ≤ 22
    → field i n (take 22 (drop offset bytes)) ≡ from_le_bytes (take n (drop (offset + i) bytes))
unfolding field
field_at i n offset bytes h =
    ap from_le_bytes
      (take-drop-take n i 22 (drop offset bytes) h ∙ ap (take n) (drop-drop i offset bytes))

module _ (magic this_disk cd_disk cd_records total cd_offset comment : ℕ) where
  -- What `size` bytes parse to that start with these fields.
  abbrev parsed : (size : ℕ) → Option (Outcome (ℕ × ℕ))
  parsed size =
      if ltb size 22
      then none
      else if not (magic == 0x06054b50)
      then none
      else if ltb (size - 22) comment
      then none
      else if not (this_disk == 0) || not (cd_disk == 0) || not (total == cd_records)
      then some (err invalid_data)
      else some (ok (cd_offset, cd_records))

  abbrev AreSupported : Type 0
  AreSupported = (this_disk ≡ 0) × (cd_disk ≡ 0) × (total ≡ cd_records)

  abbrev AreRecord : (size : ℕ) → Type 0
  AreRecord size = (magic ≡ 0x06054b50) × (22 + comment ≤ size)

  parsed-cases :
      (size : ℕ)
      → (AreRecord size × AreSupported × (parsed size ≡ some (ok (cd_offset, cd_records))))
        ⊎ (AreRecord size × (¬ AreSupported) × (parsed size ≡ some (err invalid_data)))
        ⊎ ((¬ AreRecord size) × (parsed size ≡ none))
  parsed-cases size = ground arith

-- the same on the struct that is read
try_at-fields :
    (offset : ℕ) (input : Slice)
    → let bytes = drop offset input.bytes in
      let eocd = take 22 bytes in
      try_at offset input
      ≡ parsed
          (field 0 4 eocd)
          (field 4 2 eocd)
          (field 6 2 eocd)
          (field 8 2 eocd)
          (field 10 2 eocd)
          (field 16 4 eocd)
          (field 20 2 eocd)
          (length bytes)
unfolding try_at try_parse_end_of_cd read_slice ensure end_of_cd_record
try_at-fields offset input =
    let bytes = drop offset input.bytes in
    let eocd = take 22 bytes in
    let size : ltb (length (drop 22 bytes)) (field 20 2 eocd)
        ≡ ltb (length bytes - 22) (field 20 2 eocd) =
      ap (λ (n : ℕ). ltb n (field 20 2 eocd)) (length-drop 22 bytes) in
    elim (Bool-cases (ltb (length bytes) 22)) [
      | inl t ↦ rw (t, try_parse_end_of_cd, read_slice, ensure) refl
      | inr t ↦ elim (Bool-cases (field 0 4 eocd == 0x06054b50)) [
        | inr m ↦ rw (t, m, try_parse_end_of_cd, read_slice, ensure) refl
        | inl m ↦ elim (Bool-cases (ltb (length bytes - 22) (field 20 2 eocd))) [
          | inl c ↦ rw (t, m, c, size ∙ c, try_parse_end_of_cd, read_slice, ensure) refl
          | inr c ↦
              elim (Bool-cases (
                not (field 4 2 eocd == 0)
                || not (field 6 2 eocd == 0)
                || not (field 10 2 eocd == field 8 2 eocd))) [
                  | inl u ↦ rw (t, m, c, size ∙ c, u, try_parse_end_of_cd, read_slice, ensure) refl
                  | inr u ↦ rw (t, m, c, size ∙ c, u, try_parse_end_of_cd, read_slice, ensure) refl
                ]
        ]
      ]
    ]

try_at-parsed :
    (offset : ℕ) (input : Slice)
    → try_at offset input
      ≡ parsed
          (u32_at input offset)
          (u16_at input (offset + 4))
          (u16_at input (offset + 6))
          (u16_at input (offset + 8))
          (u16_at input (offset + 10))
          (u32_at input (offset + 16))
          (u16_at input (offset + 20))
          (length (drop offset input.bytes))
try_at-parsed offset input =
    try_at-fields offset input
    ∙ rw
        (
          field_at 0 4 offset input.bytes (omega arith)
              ∙ ap (u32_at input) (let e : offset + 0 ≡ offset = omega arith in e),
          field_at 4 2 offset input.bytes (omega arith),
          field_at 6 2 offset input.bytes (omega arith),
          field_at 8 2 offset input.bytes (omega arith),
          field_at 10 2 offset input.bytes (omega arith),
          field_at 16 4 offset input.bytes (omega arith),
          field_at 20 2 offset input.bytes (omega arith),
        )
        refl

-- The three outcomes of parsing at an offset.
abbrev pub IsParsed : (offset : ℕ) → Slice → Type 0
IsParsed offset input =
    (IsRecord input offset
      × IsSupported input offset
      × (try_at offset input ≡ some (ok (cd_offset_at input offset, cd_records_at input offset))))
    ⊎ (IsRecord input offset
        × (¬ IsSupported input offset)
        × (try_at offset input ≡ some (err invalid_data)))
    ⊎ ((¬ IsRecord input offset) × (try_at offset input ≡ none))

pub try_at-IsParsed : (offset : ℕ) (input : Slice) → IsParsed offset input
try_at-IsParsed offset input =
    let size = length-drop offset input.bytes in
    let e = try_at-parsed offset input in
    elim (parsed-cases (u32_at input offset) (u16_at input (offset + 4)) (u16_at input (offset + 6))
      (u16_at input (offset + 8)) (u16_at input (offset + 10)) (u32_at input (offset + 16))
      (u16_at input (offset + 20)) (length (drop offset input.bytes))) [
        | inl ((m, fits), supported, p) ↦ inl ((m, omega (arith, size)), supported, e ∙ p)
        | inr (inl ((m, fits), unsupported, p)) ↦
            inr (inl ((m, omega (arith, size)), unsupported, e ∙ p))
        | inr (inr (missing, p)) ↦
            inr (inr ((λ (m, fits). missing (m, omega (arith, size))), e ∙ p))
      ]
