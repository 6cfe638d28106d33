-- ===== src/Symbolize.antt =====
-- The types that symbolization requests and answers share (src/symbolize/mod.rs). Texts and paths
-- are lists of bytes.
use blazesym.Common.{ℕ, Bool, true, false, Option, List}

pub data FindSymOpts : Type 0 where
  basic code_info code_info_and_inlined : FindSymOpts

abbrev pub wants_code_info : FindSymOpts → Bool
wants_code_info basic = false
wants_code_info code_info = true
wants_code_info code_info_and_inlined = true

abbrev pub wants_inlined_fns : FindSymOpts → Bool
wants_inlined_fns basic = false
wants_inlined_fns code_info = false
wants_inlined_fns code_info_and_inlined = true

pub record CodeInfo : Type 0 where
  pub dir : Option (List ℕ)
  pub file : List ℕ
  pub line : Option ℕ
  pub column : Option ℕ

pub record InlinedFn : Type 0 where
  pub name : List ℕ
  pub code_info : Option CodeInfo

pub data SrcLang : Type 0 where
  unknown cpp rust : SrcLang

pub record ResolvedSym : Type 0 where
  pub name : List ℕ
  pub addr : ℕ
  pub size : Option ℕ
  pub lang : SrcLang
  pub code_info : Option CodeInfo
  pub inlined : List InlinedFn

pub data Reason : Type 0 where
  unmapped invalid_file_offset missing_component missing_syms unsupported unknown_addr : Reason

-- `Result<ResolvedSym, Reason>`.
pub data Found : Type 0 where
  found : ResolvedSym → Found
  not_found : Reason → Found
