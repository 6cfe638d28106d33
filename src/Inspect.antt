-- ===== src/Inspect.antt =====
-- The types of inspection requests and answers (src/inspect/mod.rs, src/lib.rs).
use blazesym.Common.{ℕ, Bool, Option, List}

pub data SymType : Type 0 where
  undefined function variable : SymType

pub record SymInfo : Type 0 where
  pub name : List ℕ
  pub addr : ℕ
  pub size : Option ℕ
  pub sym_type : SymType
  pub file_offset : Option ℕ
  pub obj_file_name : Option (List ℕ)

pub record FindAddrOpts : Type 0 where
  pub offset_in_file : Bool
  pub sym_type : SymType
