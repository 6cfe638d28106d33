-- ===== src/Gsym/Types.antt =====
-- src/gsym/types.rs.
use blazesym.Common.{ℕ, List}
use blazesym.Util.Slice.{Slice}

abbrev pub gsym_magic : ℕ
gsym_magic = 0x4753594d

abbrev pub gsym_version : ℕ
gsym_version = 1

pub record Header : Type 0 where
  pub magic : ℕ
  pub version : ℕ
  pub addr_off_size : ℕ
  pub uuid_size : ℕ
  pub base_address : ℕ
  pub num_addrs : ℕ
  pub strtab_offset : ℕ
  pub strtab_size : ℕ
  pub uuid : List ℕ

pub record FileInfo : Type 0 where
  pub directory : ℕ
  pub filename : ℕ

pub record AddrInfo : Type 0 where
  pub size : ℕ
  pub name : ℕ
  pub content : Slice

pub record AddrData : Type 0 where
  pub typ : ℕ
  pub content : Slice

abbrev pub info_type_end_of_list : ℕ
info_type_end_of_list = 0

abbrev pub info_type_line_table_info : ℕ
info_type_line_table_info = 1

abbrev pub info_type_inline_info : ℕ
info_type_inline_info = 2
