-- ===== src/Elf/Types/Ehdr.antt =====
-- The ELF header of src/elf/types.rs. The first sixteen bytes, `e_ident`, are read apart.
use blazesym.Common.{ℕ, List}
use blazesym.Util.Slice.{field}
use blazesym.Elf.Types.{ElfN, b32, b64}

pub record Elf32Ehdr : Type 0 where
  pub e_type : ℕ
  pub e_machine : ℕ
  pub e_version : ℕ
  pub e_entry : ℕ
  pub e_phoff : ℕ
  pub e_shoff : ℕ
  pub e_flags : ℕ
  pub e_ehsize : ℕ
  pub e_phentsize : ℕ
  pub e_phnum : ℕ
  pub e_shentsize : ℕ
  pub e_shnum : ℕ
  pub e_shstrndx : ℕ

pub record Elf64Ehdr : Type 0 where
  pub e_type : ℕ
  pub e_machine : ℕ
  pub e_version : ℕ
  pub e_entry : ℕ
  pub e_phoff : ℕ
  pub e_shoff : ℕ
  pub e_flags : ℕ
  pub e_ehsize : ℕ
  pub e_phentsize : ℕ
  pub e_phnum : ℕ
  pub e_shentsize : ℕ
  pub e_shnum : ℕ
  pub e_shstrndx : ℕ

unfoldable pub elf32_ehdr : List ℕ → Elf32Ehdr
unfolding field
elf32_ehdr bytes = record {
  e_type = field 16 2 bytes;
  e_machine = field 18 2 bytes;
  e_version = field 20 4 bytes;
  e_entry = field 24 4 bytes;
  e_phoff = field 28 4 bytes;
  e_shoff = field 32 4 bytes;
  e_flags = field 36 4 bytes;
  e_ehsize = field 40 2 bytes;
  e_phentsize = field 42 2 bytes;
  e_phnum = field 44 2 bytes;
  e_shentsize = field 46 2 bytes;
  e_shnum = field 48 2 bytes;
  e_shstrndx = field 50 2 bytes;
}

unfoldable pub elf64_ehdr : List ℕ → Elf64Ehdr
unfolding field
elf64_ehdr bytes = record {
  e_type = field 16 2 bytes;
  e_machine = field 18 2 bytes;
  e_version = field 20 4 bytes;
  e_entry = field 24 8 bytes;
  e_phoff = field 32 8 bytes;
  e_shoff = field 40 8 bytes;
  e_flags = field 48 4 bytes;
  e_ehsize = field 52 2 bytes;
  e_phentsize = field 54 2 bytes;
  e_phnum = field 56 2 bytes;
  e_shentsize = field 58 2 bytes;
  e_shnum = field 60 2 bytes;
  e_shstrndx = field 62 2 bytes;
}

abbrev pub ElfNEhdr : Type 0
ElfNEhdr = ElfN Elf32Ehdr Elf64Ehdr

abbrev pub shnum : ElfNEhdr → ℕ
shnum (b32 r) = r.e_shnum
shnum (b64 r) = r.e_shnum

abbrev pub phnum : ElfNEhdr → ℕ
phnum (b32 r) = r.e_phnum
phnum (b64 r) = r.e_phnum

abbrev pub shoff : ElfNEhdr → ℕ
shoff (b32 r) = r.e_shoff
shoff (b64 r) = r.e_shoff

abbrev pub phoff : ElfNEhdr → ℕ
phoff (b32 r) = r.e_phoff
phoff (b64 r) = r.e_phoff

abbrev pub shstrndx : ElfNEhdr → ℕ
shstrndx (b32 r) = r.e_shstrndx
shstrndx (b64 r) = r.e_shstrndx
