-- ===== src/Normalize/BuildId.antt =====
-- The GNU build ID in the notes of an ELF file: `read_build_id` of src/normalize/buildid.rs.
pub mod Notes
pub mod Panics
use blazesym.Common.{
  ℕ, zero, suc, ◌+◌, Option, none, some, List, [], ◌∷◌, ltb, ◌==◌, if◌then◌else◌, length,
}
use blazesym.Common.Outcome.{Outcome, ok, err, stuck, ◌>>=◌, invalid_data}
use blazesym.Util.Slice.{Slice, read_pod_ref, read_slice, advance, field}
use blazesym.Elf.Types.{iter}
use blazesym.Elf.Types.Shdr
use blazesym.Elf.Types.Shdr.{ElfNShdr}
use blazesym.Elf.Headers.{parse_shdrs}
use blazesym.Elf.Sections.{section_data}
use blazesym.Kernel.{align_up_u32}

abbrev pub sht_note : ℕ
sht_note = 7

abbrev pub nt_gnu_build_id : ℕ
nt_gnu_build_id = 3

-- What a round of the loop over the notes does: it returns a build ID, or leaves the bytes behind.
pub data Step : Type 0 where
  build_id : List ℕ → Step
  left : Slice → Step

-- A method on `&mut &[u8]` with `ok_or_invalid_data`, and what follows it on the bytes that it leaves.
abbrev pub or_invalid_data : {A B : Type 0} → Option A × Slice → (A → Slice → Outcome B) → Outcome B
or_invalid_data (none, s) rest = err invalid_data
or_invalid_data (some a, s) rest = rest a s

unfoldable pub read_note : Slice → Outcome Step
unfolding read_pod_ref read_slice advance field align_up_u32
read_note bytes = or_invalid_data (read_pod_ref 12 4 bytes) (λ nhdr s.
    let namesz = field 0 4 nhdr.bytes in
    let descsz = field 4 4 nhdr.bytes in
    or_invalid_data (advance (align_up_u32 namesz 4) s) (λ _ s'.
      if field 8 4 nhdr.bytes == nt_gnu_build_id
      then or_invalid_data (read_slice descsz s') (λ id _. ok (build_id id.bytes))
      else or_invalid_data (advance (align_up_u32 descsz 4) s') (λ _ s''. ok (left s''))))

-- The loop over the notes of a section. The fuel bounds its rounds.
unfoldable pub scan_notes : (fuel : ℕ) → Slice → Outcome (Option (List ℕ))
unfolding read_note
scan_notes zero bytes = if ltb (length bytes.bytes) 12 then ok none else stuck
scan_notes (suc fuel) bytes =
    if ltb (length bytes.bytes) 12
    then ok none
    else (read_note bytes >>= λ step. elim step [
      | build_id id ↦ ok (some id)
      | left s ↦ scan_notes fuel s
    ])

-- `unwrap` on the data of a section.
abbrev pub unwrapped : {A B : Type 0} → Outcome A → (A → Outcome B) → Outcome B
unwrapped (ok a) rest = rest a
unwrapped (err e) rest = stuck
unwrapped stuck rest = stuck

module _ (decompress_zlib decompress_zstd : List ℕ → Outcome Slice) where
  -- The loop over the sections. Every note takes twelve bytes at least.
  pub scan_sections : Slice → (idx : ℕ) → List ElfNShdr → Outcome (Option (List ℕ))
  unfolding scan_notes section_data
  scan_sections mmap idx [] = ok none
  scan_sections mmap idx (shdr ∷ shdrs) =
      let rest = scan_sections mmap (idx + 1) shdrs in
      if Shdr.type_of shdr == sht_note
      then unwrapped (section_data decompress_zlib decompress_zstd mmap idx) (λ bytes.
        scan_notes (length bytes.bytes) bytes >>= λ found. elim found [
          | none ↦ rest
          | some id ↦ ok (some id)
        ])
      else rest

  unfoldable pub read_build_id : Slice → Outcome (Option (List ℕ))
  unfolding scan_sections parse_shdrs
  read_build_id mmap = parse_shdrs mmap >>= λ shdrs. scan_sections mmap 0 (iter shdrs 0)
