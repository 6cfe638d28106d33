-- ===== src/Normalize/BuildId/Panics.antt =====
-- When `read_build_id` of src/normalize/buildid.rs panics.
use blazesym.Common.{
  ℕ, suc, ◌+◌, ◌≡◌, ◌≢◌, refl, sym, ap, ◌∙◌, Bool, true, false, Option, none, some, List, [], ◌∷◌,
  arith, ◌==◌, ==_iff, if◌then◌else◌, length, get_elem?,
}
use blazesym.Common.Outcome.{Outcome, ok, err, stuck, ◌>>=◌}
use blazesym.Util.Slice.{Slice}
use blazesym.Elf.Types.{iter}
use blazesym.Elf.Types.Shdr
use blazesym.Elf.Types.Shdr.{ElfNShdr, ElfNShdrs}
use blazesym.Elf.Headers.{parse_shdrs}
use blazesym.Elf.Sections.{section_data}
use blazesym.Normalize.BuildId.{unwrapped, scan_notes, scan_sections, read_build_id, sht_note}
use blazesym.Normalize.BuildId.Notes.{scan_notes-ne-stuck}

module _ (decompress_zlib decompress_zstd : List ℕ → Outcome Slice) (mmap : Slice) where
  -- some header among these, the first of which has the index `idx`, is that of a note section whose
  -- data is not read
  abbrev pub HasUnreadable : (idx : ℕ) → List ElfNShdr → Type 0
  HasUnreadable idx shdrs =
      (j : ℕ) × (shdr : ElfNShdr) × (get_elem? shdrs j ≡ some shdr)
      × (Shdr.type_of shdr ≡ sht_note)
      × ((bytes : Slice) → section_data decompress_zlib decompress_zstd mmap (idx + j) ≢ ok bytes)

  later :
      (idx : ℕ) (shdr : ElfNShdr) (shdrs : List ElfNShdr)
      → HasUnreadable (idx + 1) shdrs
      → HasUnreadable idx (shdr ∷ shdrs)
  later idx shdr shdrs (j, other, at, kind, bad) = (
    suc j,
    other,
    at,
    kind,
    λ bytes e. bad bytes (
        ap (λ (k : ℕ). section_data decompress_zlib decompress_zstd mmap k)
          (let q : idx + 1 + j ≡ idx + suc j = omega arith in q)
        ∙ e),
  )

  here :
      (idx : ℕ) (shdr : ElfNShdr) (shdrs : List ElfNShdr)
      → (Shdr.type_of shdr == sht_note) ≡ true
      → ((bytes : Slice) → section_data decompress_zlib decompress_zstd mmap idx ≢ ok bytes)
      → HasUnreadable idx (shdr ∷ shdrs)
  here idx shdr shdrs kind bad = (
    0,
    shdr,
    refl,
    (==_iff (Shdr.type_of shdr) sht_note).0 kind,
    λ bytes e. bad bytes (
        ap (λ (k : ℕ). section_data decompress_zlib decompress_zstd mmap k)
          (let q : idx ≡ idx + 0 = omega arith in q)
        ∙ e),
  )

  -- the notes of a section do not panic, but what follows them may
  behind_notes :
      (rest m : Outcome (Option (List ℕ)))
      → m ≢ stuck
      → (m >>= λ found. elim found [ none ↦ rest | some id ↦ ok (some id) ]) ≡ stuck
      → rest ≡ stuck
  behind_notes rest (ok none) ne h = h
  behind_notes rest (ok (some id)) ne h = absurd (let q : ok (some id) ≡ stuck = h in cc)
  behind_notes rest (err e) ne h =
      absurd (let q : Path (Outcome (Option (List ℕ))) (err e) stuck = h in cc)
  behind_notes rest stuck ne h = absurd (ne refl)

  -- the round of a section, on its outcome
  round-HasUnreadable :
      (idx : ℕ) (shdr : ElfNShdr) (shdrs : List ElfNShdr) (rest : Outcome (Option (List ℕ)))
      → (rest ≡ stuck → HasUnreadable (idx + 1) shdrs)
      → (is_note : Bool) → (Shdr.type_of shdr == sht_note) ≡ is_note
      → (m : Outcome Slice) → section_data decompress_zlib decompress_zstd mmap idx ≡ m
      → (if is_note
          then unwrapped m (λ bytes. scan_notes (length bytes.bytes) bytes >>= λ found. elim found [
            | none ↦ rest
            | some id ↦ ok (some id)
          ])
          else rest)
        ≡ stuck
      → HasUnreadable idx (shdr ∷ shdrs)
  round-HasUnreadable idx shdr shdrs rest next false kind m e h = later idx shdr shdrs (next h)
  round-HasUnreadable idx shdr shdrs rest next true kind (ok bytes) e h = later idx shdr shdrs (
      next (
        behind_notes rest (scan_notes (length bytes.bytes) bytes)
          (scan_notes-ne-stuck (length bytes.bytes) bytes (omega arith)) h))
  round-HasUnreadable idx shdr shdrs rest next true kind (err k) e h =
      here idx shdr shdrs kind (λ bytes e'. let q = sym e ∙ e' in cc)
  round-HasUnreadable idx shdr shdrs rest next true kind stuck e h =
      here idx shdr shdrs kind (λ bytes e'. let q = sym e ∙ e' in cc)

  scan_sections-HasUnreadable :
      (idx : ℕ) (shdrs : List ElfNShdr)
      → scan_sections decompress_zlib decompress_zstd mmap idx shdrs ≡ stuck
      → HasUnreadable idx shdrs
  unfolding scan_sections
  scan_sections-HasUnreadable idx [] h = absurd (let q : ok none ≡ stuck = h in cc)
  scan_sections-HasUnreadable idx (shdr ∷ shdrs) h =
      round-HasUnreadable idx shdr shdrs
        (scan_sections decompress_zlib decompress_zstd mmap (idx + 1) shdrs)
        (scan_sections-HasUnreadable (idx + 1) shdrs) (Shdr.type_of shdr == sht_note) refl
        (section_data decompress_zlib decompress_zstd mmap idx) refl h

  -- Where the section headers of a file are read, `read_build_id` panics only if the data of some
  -- note section is not read: the notes themselves never make it panic, and its loop over them
  -- ends.
  pub read_build_id-HasUnreadable :
      (shdrs : ElfNShdrs)
      → parse_shdrs mmap ≡ ok shdrs
      → read_build_id decompress_zlib decompress_zstd mmap ≡ stuck
      → HasUnreadable 0 (iter shdrs 0)
  unfolding read_build_id
  read_build_id-HasUnreadable shdrs e h =
      scan_sections-HasUnreadable 0 (iter shdrs 0) (rw (e, read_build_id) at h)
