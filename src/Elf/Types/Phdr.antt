-- ===== src/Elf/Types/Phdr.antt =====
-- The program headers of src/elf/types.rs.
use blazesym.Common.{ℕ, List}
use blazesym.Util.Slice.{field}
use blazesym.Elf.Types.{ElfN, ElfNSlice, b32, b64}

pub record Elf32Phdr : Type 0 where
  pub p_type : ℕ
  pub p_offset : ℕ
  pub p_vaddr : ℕ
  pub p_paddr : ℕ
  pub p_filesz : ℕ
  pub p_memsz : ℕ
  pub p_flags : ℕ
  pub p_align : ℕ

pub record Elf64Phdr : Type 0 where
  pub p_type : ℕ
  pub p_flags : ℕ
  pub p_offset : ℕ
  pub p_vaddr : ℕ
  pub p_paddr : ℕ
  pub p_filesz : ℕ
  pub p_memsz : ℕ
  pub p_align : ℕ

unfoldable pub elf32_phdr : List ℕ → Elf32Phdr
unfolding field
elf32_phdr bytes = record {
  p_type = field 0 4 bytes;
  p_offset = field 4 4 bytes;
  p_vaddr = field 8 4 bytes;
  p_paddr = field 12 4 bytes;
  p_filesz = field 16 4 bytes;
  p_memsz = field 20 4 bytes;
  p_flags = field 24 4 bytes;
  p_align = field 28 4 bytes;
}

unfoldable pub elf64_phdr : List ℕ → Elf64Phdr
unfolding field
elf64_phdr bytes = record {
  p_type = field 0 4 bytes;
  p_flags = field 4 4 bytes;
  p_offset = field 8 8 bytes;
  p_vaddr = field 16 8 bytes;
  p_paddr = field 24 8 bytes;
  p_filesz = field 32 8 bytes;
  p_memsz = field 40 8 bytes;
  p_align = field 48 8 bytes;
}

-- `From<&Elf32Phdr> for Elf64Phdr`: every integer is widened.
unfoldable pub from_elf32 : Elf32Phdr → Elf64Phdr
from_elf32 other = record {
  p_type = other.p_type;
  p_flags = other.p_flags;
  p_offset = other.p_offset;
  p_vaddr = other.p_vaddr;
  p_paddr = other.p_paddr;
  p_filesz = other.p_filesz;
  p_memsz = other.p_memsz;
  p_align = other.p_align;
}

abbrev pub ElfNPhdr : Type 0
ElfNPhdr = ElfN Elf32Phdr Elf64Phdr

abbrev pub offset : ElfNPhdr → ℕ
offset (b32 r) = r.p_offset
offset (b64 r) = r.p_offset

abbrev pub file_size : ElfNPhdr → ℕ
file_size (b32 r) = r.p_filesz
file_size (b64 r) = r.p_filesz

abbrev pub ElfNPhdrs : Type 0
ElfNPhdrs = ElfNSlice Elf32Phdr Elf64Phdr

abbrev pub type_of : ElfNPhdr → ℕ
type_of (b32 r) = r.p_type
type_of (b64 r) = r.p_type
