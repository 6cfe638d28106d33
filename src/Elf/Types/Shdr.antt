-- ===== src/Elf/Types/Shdr.antt =====
-- The section headers of src/elf/types.rs.
use blazesym.Common.{ℕ, List}
use blazesym.Util.Slice.{field}
use blazesym.Elf.Types.{ElfN, ElfNSlice, b32, b64}

pub record Elf32Shdr : Type 0 where
  pub sh_name : ℕ
  pub sh_type : ℕ
  pub sh_flags : ℕ
  pub sh_addr : ℕ
  pub sh_offset : ℕ
  pub sh_size : ℕ
  pub sh_link : ℕ
  pub sh_info : ℕ
  pub sh_addralign : ℕ
  pub sh_entsize : ℕ

pub record Elf64Shdr : Type 0 where
  pub sh_name : ℕ
  pub sh_type : ℕ
  pub sh_flags : ℕ
  pub sh_addr : ℕ
  pub sh_offset : ℕ
  pub sh_size : ℕ
  pub sh_link : ℕ
  pub sh_info : ℕ
  pub sh_addralign : ℕ
  pub sh_entsize : ℕ

unfoldable pub elf32_shdr : List ℕ → Elf32Shdr
unfolding field
elf32_shdr bytes = record {
  sh_name = field 0 4 bytes;
  sh_type = field 4 4 bytes;
  sh_flags = field 8 4 bytes;
  sh_addr = field 12 4 bytes;
  sh_offset = field 16 4 bytes;
  sh_size = field 20 4 bytes;
  sh_link = field 24 4 bytes;
  sh_info = field 28 4 bytes;
  sh_addralign = field 32 4 bytes;
  sh_entsize = field 36 4 bytes;
}

unfoldable pub elf64_shdr : List ℕ → Elf64Shdr
unfolding field
elf64_shdr bytes = record {
  sh_name = field 0 4 bytes;
  sh_type = field 4 4 bytes;
  sh_flags = field 8 8 bytes;
  sh_addr = field 16 8 bytes;
  sh_offset = field 24 8 bytes;
  sh_size = field 32 8 bytes;
  sh_link = field 40 4 bytes;
  sh_info = field 44 4 bytes;
  sh_addralign = field 48 8 bytes;
  sh_entsize = field 56 8 bytes;
}

-- `From<&Elf32Shdr> for Elf64Shdr`: every integer is widened.
unfoldable pub from_elf32 : Elf32Shdr → Elf64Shdr
from_elf32 other = record {
  sh_name = other.sh_name;
  sh_type = other.sh_type;
  sh_flags = other.sh_flags;
  sh_addr = other.sh_addr;
  sh_offset = other.sh_offset;
  sh_size = other.sh_size;
  sh_link = other.sh_link;
  sh_info = other.sh_info;
  sh_addralign = other.sh_addralign;
  sh_entsize = other.sh_entsize;
}

abbrev pub ElfNShdr : Type 0
ElfNShdr = ElfN Elf32Shdr Elf64Shdr

abbrev pub name : ElfNShdr → ℕ
name (b32 r) = r.sh_name
name (b64 r) = r.sh_name

abbrev pub type_of : ElfNShdr → ℕ
type_of (b32 r) = r.sh_type
type_of (b64 r) = r.sh_type

abbrev pub flags : ElfNShdr → ℕ
flags (b32 r) = r.sh_flags
flags (b64 r) = r.sh_flags

abbrev pub addr : ElfNShdr → ℕ
addr (b32 r) = r.sh_addr
addr (b64 r) = r.sh_addr

abbrev pub offset : ElfNShdr → ℕ
offset (b32 r) = r.sh_offset
offset (b64 r) = r.sh_offset

abbrev pub size : ElfNShdr → ℕ
size (b32 r) = r.sh_size
size (b64 r) = r.sh_size

abbrev pub link : ElfNShdr → ℕ
link (b32 r) = r.sh_link
link (b64 r) = r.sh_link

abbrev pub ElfNShdrs : Type 0
ElfNShdrs = ElfNSlice Elf32Shdr Elf64Shdr
