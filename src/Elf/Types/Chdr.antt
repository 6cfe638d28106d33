-- ===== src/Elf/Types/Chdr.antt =====
-- The compression headers of src/elf/types.rs.
use blazesym.Common.{ℕ, List}
use blazesym.Util.Slice.{field}

pub record Elf32Chdr : Type 0 where
  pub ch_type : ℕ
  pub ch_size : ℕ
  pub ch_addralign : ℕ

pub record Elf64Chdr : Type 0 where
  pub ch_type : ℕ
  pub ch_reserved : ℕ
  pub ch_size : ℕ
  pub ch_addralign : ℕ

unfoldable pub elf32_chdr : List ℕ → Elf32Chdr
unfolding field
elf32_chdr bytes = record {
  ch_type = field 0 4 bytes;
  ch_size = field 4 4 bytes;
  ch_addralign = field 8 4 bytes;
}

unfoldable pub elf64_chdr : List ℕ → Elf64Chdr
unfolding field
elf64_chdr bytes = record {
  ch_type = field 0 4 bytes;
  ch_reserved = field 4 4 bytes;
  ch_size = field 8 8 bytes;
  ch_addralign = field 16 8 bytes;
}
