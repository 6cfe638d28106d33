-- ===== src/Elf/Translate.antt =====
-- The translation between addresses and file offsets by the program headers: `find_file_offset` and
-- `file_offset_to_virt_offset` of src/elf/parser.rs.
pub mod Roundtrip
use blazesym.Common.{
  ℕ, ◌+◌, ◌-◌, ◌%◌, ◌^◌, ◌&&◌, Option, none, some, List, [], ◌∷◌, ltb, leb, ◌==◌, if◌then◌else◌,
}
use blazesym.Common.Outcome.{Outcome, ok, ◌>>=◌}
use blazesym.Elf.Types.{iter, to_64bit, pt_load}
use blazesym.Elf.Types.Phdr.{Elf64Phdr, ElfNPhdr, from_elf32}
use blazesym.Elf.Headers.{parse_phdrs}
use blazesym.Elf.Parser.{ElfParser}

-- `find_map` of the two translations.
pub first_some : (Elf64Phdr → Option ℕ) → List ElfNPhdr → Option ℕ
first_some f [] = none
first_some f (phdr ∷ phdrs) =
    let rest = first_some f phdrs in
    elim (f (to_64bit from_elf32 phdr)) [ none ↦ rest | some result ↦ some result ]

-- Where a segment is loaded; its end wraps.
abbrev pub offset_of : (addr : ℕ) → Elf64Phdr → Option ℕ
offset_of addr phdr =
    if phdr.p_type == pt_load
      && (leb phdr.p_vaddr addr && ltb addr ((phdr.p_vaddr + phdr.p_memsz) % 2 ^ 64))
    then some ((addr - phdr.p_vaddr + phdr.p_offset) % 2 ^ 64)
    else none

abbrev pub addr_of : (offset : ℕ) → Elf64Phdr → Option ℕ
addr_of offset phdr =
    if phdr.p_type == pt_load
      && (leb phdr.p_offset offset && ltb offset ((phdr.p_offset + phdr.p_filesz) % 2 ^ 64))
    then some ((offset - phdr.p_offset + phdr.p_vaddr) % 2 ^ 64)
    else none

unfoldable pub find_file_offset : ElfParser → (addr : ℕ) → Outcome (Option ℕ)
unfolding first_some
find_file_offset parser addr =
    parse_phdrs parser.mmap >>= λ phdrs. ok (first_some (offset_of addr) (iter phdrs 0))

pub file_offset_to_virt_offset : ElfParser → (offset : ℕ) → Outcome (Option ℕ)
unfolding first_some
file_offset_to_virt_offset parser offset =
    parse_phdrs parser.mmap >>= λ phdrs. ok (first_some (addr_of offset) (iter phdrs 0))
