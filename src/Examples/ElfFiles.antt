-- ===== src/Examples/ElfFiles.antt =====
-- Files of src/elf/parser.rs at concrete inputs: one with two sections, and one with a segment.
use blazesym.Common.{
  ℕ, zero, suc, ◌≡◌, ◌≢◌, ◌⊎◌, refl, sym, ◌∙◌, none, some, List, [], ◌∷◌, ◌++◌, get_elem?, arith,
}
use mathlib.Core.Path.{subst}
use blazesym.Common.Outcome.{Outcome, ok, err, stuck, unsupported}
use blazesym.Util.Slice.{
  Slice, slice, get_from, read_pod_slice_ref, read_pod_ref, chunks, field, from_le_bytes,
  read_slice, ensure,
}
use blazesym.Elf.Types.{b64, slice64, iter, to_64bit, sht_nobits}
use blazesym.Elf.Types.Phdr.{ElfNPhdr, ElfNPhdrs}
use blazesym.Elf.Types.Shdr
use blazesym.Elf.Types.Shdr.{ElfNShdr, ElfNShdrs, elf64_shdr}
use blazesym.Elf.Types.Phdr.{elf64_phdr, from_elf32}
use blazesym.Elf.Types.Ehdr.{elf64_ehdr}
use blazesym.Elf.Headers.{EhdrExt, parse_ehdr, parse_phdrs, parse_shdrs}
use blazesym.Elf.Sections.{section_hdr, section_data_raw}
use blazesym.Elf.Sections.Bounds.{IsRead, section_data_raw-IsRead}
use blazesym.Elf.Parser.{ElfParser}
use blazesym.Elf.Translate.{find_file_offset, file_offset_to_virt_offset}
use blazesym.Elf.Translate.Roundtrip.{
  IsBacked, Segments, file_offset_to_virt_offset-find_file_offset,
}
use blazesym.Normalize.BuildId.{read_build_id}
use blazesym.Normalize.BuildId.Panics.{HasUnreadable, read_build_id-HasUnreadable}

-- a number of eight bytes that fits in one
abbrev wide : ℕ → List ℕ
wide n = n ∷ 0 ∷ 0 ∷ 0 ∷ 0 ∷ 0 ∷ 0 ∷ 0 ∷ []

-- the header of a 64-bit file: where its program and section headers start, and how many there are
abbrev header : (phoff shoff phnum shnum : ℕ) → List ℕ
header phoff shoff phnum shnum =
    (0x7f ∷ b'E' ∷ b'L' ∷ b'F' ∷ 2 ∷ 1 ∷ 1 ∷ 0 ∷ [])
    ++ (wide 0
        ++ (wide 0
            ++ (wide 0
                ++ (wide phoff
                    ++ (wide shoff ++ (wide 0 ++ (phnum ∷ 0 ∷ 0 ∷ 0 ∷ shnum ∷ 0 ∷ 0 ∷ 0 ∷ [])))))))

-- a section header with the name at zero
abbrev section : (sh_type offset size : ℕ) → List ℕ
section sh_type offset size =
    (0 ∷ 0 ∷ 0 ∷ 0 ∷ sh_type ∷ 0 ∷ 0 ∷ 0 ∷ [])
    ++ (wide 0 ++ (wide 0 ++ (wide offset ++ (wide size ++ (wide 0 ++ (wide 0 ++ wide 0))))))

-- the string table is the section at index zero
abbrev sectioned : Slice
sectioned =
    slice 0 (header 0 64 0 2 ++ (section 3 192 3 ++ (section 1 193 2 ++ (b'.' ∷ b'a' ∷ 0 ∷ []))))

abbrev sectioned_ehdr : EhdrExt
sectioned_ehdr = record { ehdr = b64 (elf64_ehdr (header 0 64 0 2)); shnum = 2; phnum = 0 }

abbrev part : ElfNShdr
part = b64 (elf64_shdr (section 1 193 2))

sectioned_header : parse_ehdr sectioned ≡ ok sectioned_ehdr
unfolding parse_ehdr get_from read_pod_slice_ref read_pod_ref field from_le_bytes read_slice ensure
    elf64_ehdr
sectioned_header = refl

part_header : section_hdr sectioned 1 ≡ ok part
unfolding section_hdr get_from read_pod_slice_ref read_pod_ref chunks field from_le_bytes read_slice
    ensure elf64_shdr
part_header = refl

section_data_raw-IsRead_example :
    ((Shdr.type_of part ≡ sht_nobits) × (section_data_raw sectioned 1 ≡ ok (slice 0 [])))
    ⊎ ((Shdr.type_of part ≢ sht_nobits)
        × IsRead sectioned (Shdr.offset part) (Shdr.size part) (section_data_raw sectioned 1))
section_data_raw-IsRead_example = section_data_raw-IsRead sectioned 1 part (omega arith) part_header

-- the file is loaded at 128
abbrev segment : List ℕ
segment =
    (1 ∷ 0 ∷ 0 ∷ 0 ∷ 0 ∷ 0 ∷ 0 ∷ 0 ∷ [])
    ++ (wide 0 ++ (wide 128 ++ (wide 0 ++ (wide 120 ++ (wide 120 ++ wide 0)))))

abbrev loaded : ElfParser
loaded = record { path = none; mmap = slice 0 (header 64 0 1 1 ++ segment) }

abbrev loaded_phdr : ElfNPhdr
loaded_phdr = b64 (elf64_phdr segment)

abbrev loaded_phdrs : ElfNPhdrs
loaded_phdrs = slice64 (elf64_phdr segment ∷ [])

loaded_header : parse_phdrs loaded.mmap ≡ ok loaded_phdrs
unfolding parse_phdrs get_from read_pod_slice_ref read_pod_ref chunks field from_le_bytes read_slice
    ensure elf64_phdr
loaded_header = refl

translated : find_file_offset loaded 144 ≡ ok (some 16)
unfolding find_file_offset parse_phdrs get_from read_pod_slice_ref read_pod_ref chunks field
    from_le_bytes read_slice ensure elf64_phdr
translated = refl

-- the only one
only_header : (i : ℕ) (p : ElfNPhdr) → get_elem? (loaded_phdr ∷ []) i ≡ some p → loaded_phdr ≡ p
only_header zero p at = cc
only_header (suc i) p at = cc

loaded-IsBacked : IsBacked 144 (to_64bit from_elf32 loaded_phdr)
unfolding elf64_phdr field from_le_bytes
loaded-IsBacked = (omega arith, omega arith, omega arith)

loaded-Segments : Segments 144 16 (loaded_phdr ∷ [])
loaded-Segments = (
  λ i p at x e.
      subst (λ (q : ElfNPhdr). IsBacked 144 (to_64bit from_elf32 q)) (only_header i p at)
        loaded-IsBacked,
  λ i j p q at at' e e'. sym (only_header i p at) ∙ only_header j q at',
)

file_offset_to_virt_offset-find_file_offset_example :
    file_offset_to_virt_offset loaded 16 ≡ ok (some 144)
file_offset_to_virt_offset-find_file_offset_example =
    file_offset_to_virt_offset-find_file_offset loaded loaded_phdrs 144 16 loaded_header
      loaded-Segments translated

-- the note section at index one is behind the end of the file
abbrev cut : Slice
cut = slice 0 (header 0 64 0 2 ++ (section 3 192 0 ++ section 7 200 2))

abbrev cut_shdrs : ElfNShdrs
cut_shdrs = slice64 (elf64_shdr (section 3 192 0) ∷ elf64_shdr (section 7 200 2) ∷ [])

abbrev no_decompression : List ℕ → Outcome Slice
no_decompression bytes = err unsupported

cut_headers : parse_shdrs cut ≡ ok cut_shdrs
unfolding parse_shdrs get_from read_pod_slice_ref read_pod_ref chunks field from_le_bytes read_slice
    ensure elf64_shdr
cut_headers = refl

panicked : read_build_id no_decompression no_decompression cut ≡ stuck
unfolding read_build_id parse_shdrs get_from read_pod_slice_ref read_pod_ref chunks field
    from_le_bytes read_slice ensure elf64_shdr
panicked = refl

read_build_id-HasUnreadable_example :
    HasUnreadable no_decompression no_decompression cut 0 (iter cut_shdrs 0)
read_build_id-HasUnreadable_example =
    read_build_id-HasUnreadable no_decompression no_decompression cut cut_shdrs cut_headers panicked
