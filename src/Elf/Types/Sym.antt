-- ===== src/Elf/Types/Sym.antt =====
-- The symbols of src/elf/types.rs, and what their type byte says.
use blazesym.Common.{ℕ, ◌%◌, Bool, ◌||◌, Option, none, some, List, ◌==◌, if◌then◌else◌}
use blazesym.Util.Slice.{field}
use blazesym.Elf.Types.{ElfN, ElfNSlice, b32, b64, stt_func, stt_gnu_ifunc, stt_object}
use blazesym.Inspect.{SymType, undefined, function, variable}

pub record Elf32Sym : Type 0 where
  pub st_name : ℕ
  pub st_value : ℕ
  pub st_size : ℕ
  pub st_info : ℕ
  pub st_other : ℕ
  pub st_shndx : ℕ

pub record Elf64Sym : Type 0 where
  pub st_name : ℕ
  pub st_info : ℕ
  pub st_other : ℕ
  pub st_shndx : ℕ
  pub st_value : ℕ
  pub st_size : ℕ

unfoldable pub elf32_sym : List ℕ → Elf32Sym
unfolding field
elf32_sym bytes = record {
  st_name = field 0 4 bytes;
  st_value = field 4 4 bytes;
  st_size = field 8 4 bytes;
  st_info = field 12 1 bytes;
  st_other = field 13 1 bytes;
  st_shndx = field 14 2 bytes;
}

unfoldable pub elf64_sym : List ℕ → Elf64Sym
unfolding field
elf64_sym bytes = record {
  st_name = field 0 4 bytes;
  st_info = field 4 1 bytes;
  st_other = field 5 1 bytes;
  st_shndx = field 6 2 bytes;
  st_value = field 8 8 bytes;
  st_size = field 16 8 bytes;
}

-- `From<&Elf32Sym> for Elf64Sym`: every integer is widened.
unfoldable pub from_elf32 : Elf32Sym → Elf64Sym
from_elf32 other = record {
  st_name = other.st_name;
  st_info = other.st_info;
  st_other = other.st_other;
  st_shndx = other.st_shndx;
  st_value = other.st_value;
  st_size = other.st_size;
}

abbrev pub ElfNSym : Type 0
ElfNSym = ElfN Elf32Sym Elf64Sym

abbrev pub name : ElfNSym → ℕ
name (b32 r) = r.st_name
name (b64 r) = r.st_name

abbrev pub value : ElfNSym → ℕ
value (b32 r) = r.st_value
value (b64 r) = r.st_value

abbrev pub size : ElfNSym → ℕ
size (b32 r) = r.st_size
size (b64 r) = r.st_size

abbrev pub shndx : ElfNSym → ℕ
shndx (b32 r) = r.st_shndx
shndx (b64 r) = r.st_shndx

abbrev pub ElfNSyms : Type 0
ElfNSyms = ElfNSlice Elf32Sym Elf64Sym

-- `st_info & 0xf`
abbrev pub type_of : ElfNSym → ℕ
type_of (b32 r) = r.st_info % 16
type_of (b64 r) = r.st_info % 16

abbrev pub elf_type_matches : (elf_ty : ℕ) → SymType → Bool
elf_type_matches elf_ty undefined =
    (elf_ty == stt_func || elf_ty == stt_gnu_ifunc) || elf_ty == stt_object
elf_type_matches elf_ty function = elf_ty == stt_func || elf_ty == stt_gnu_ifunc
elf_type_matches elf_ty variable = elf_ty == stt_object

abbrev pub matches : ElfNSym → SymType → Bool
matches sym type_ = elf_type_matches (type_of sym) type_

-- `Elf64_Sym::type_` and `Elf64_Sym::matches`
abbrev pub type_of64 : Elf64Sym → ℕ
type_of64 sym = sym.st_info % 16

abbrev pub matches64 : Elf64Sym → SymType → Bool
matches64 sym type_ = elf_type_matches (type_of64 sym) type_

abbrev pub try_from_elf_type : (elf_type : ℕ) → Option SymType
try_from_elf_type elf_type =
    if elf_type == stt_func || elf_type == stt_gnu_ifunc
    then some function
    else if elf_type == stt_object
    then some variable
    else none
