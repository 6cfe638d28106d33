-- ===== src/Elf/Parser.antt =====
-- `ElfParser` of src/elf/parser.rs over a memory map: the lookups by address and by name, the visitor,
-- and the translation of offsets.
pub mod Names
pub mod Lookup
pub mod Info
pub mod ByName
use blazesym.Common.{
  ℕ, ◌+◌, ◌-◌, ◌%◌, ◌^◌, Bool, true, false, ◌&&◌, not, Option, none, some, List, [], ◌∷◌, drop, ltb,
  leb, ◌==◌, if◌then◌else◌,
}
use blazesym.Common.Outcome.{Outcome, ok, err, stuck, ◌>>=◌, ok_or_invalid_input, unwrap}
use blazesym.Util.Order.{bytes_ord, bytes_eq}
use blazesym.Util.Search.{find_match_or_lower_bound_by_key}
use blazesym.Util.Slice.{Slice}
use blazesym.Symbolize.{
  FindSymOpts, ResolvedSym, Found, found, not_found, missing_syms, unknown_addr,
}
use blazesym.Inspect.{SymType, undefined, SymInfo, FindAddrOpts}
use blazesym.Elf.Types.{get, iter, is_empty, to_64bit, shn_undef, shn_loreserve, pt_load}
use blazesym.Elf.Types.Phdr
use blazesym.Elf.Types.Phdr.{Elf64Phdr, ElfNPhdr, ElfNPhdrs}
use blazesym.Elf.Types.Shdr
use blazesym.Elf.Types.Shdr.{ElfNShdrs}
use blazesym.Elf.Types.Sym
use blazesym.Elf.Types.Sym.{
  Elf64Sym, ElfNSym, ElfNSyms, type_of, type_of64, matches64, try_from_elf_type,
}
use blazesym.Elf.Headers.{parse_shdrs, parse_phdrs}
use blazesym.Elf.Sections.{parse_syms, parse_strs}
use blazesym.Elf.SymTab
use blazesym.Elf.SymTab.{
  SymName, name_bytes, name_text, name_key, create_by_addr_idx, create_str2sym,
}

pub record ElfParser : Type 0 where
  pub path : Option (List ℕ)
  pub mmap : Slice

-- `SymbolTableCache`, without the cells of its indices.
pub record SymbolTable : Type 0 where
  pub syms : ElfNSyms
  pub strs : Slice

pub symtab : Slice → Outcome SymbolTable
unfolding parse_syms parse_strs
symtab mmap = do
  syms ← parse_syms mmap (b'.' ∷ b's' ∷ b'y' ∷ b'm' ∷ b't' ∷ b'a' ∷ b'b' ∷ [])
  strs ← parse_strs mmap (b'.' ∷ b's' ∷ b't' ∷ b'r' ∷ b't' ∷ b'a' ∷ b'b' ∷ [])
  ok (record { syms = syms; strs = strs })

pub dynsym : Slice → Outcome SymbolTable
unfolding parse_syms parse_strs
dynsym mmap = do
  syms ← parse_syms mmap (b'.' ∷ b'd' ∷ b'y' ∷ b'n' ∷ b's' ∷ b'y' ∷ b'm' ∷ [])
  strs ← parse_strs mmap (b'.' ∷ b'd' ∷ b'y' ∷ b'n' ∷ b's' ∷ b't' ∷ b'r' ∷ [])
  ok (record { syms = syms; strs = strs })

abbrev pub table_sym : SymbolTable → (addr : ℕ) → SymType → Outcome (Option ResolvedSym)
table_sym table addr type_ =
    SymTab.find_sym table.syms (create_by_addr_idx table.syms) table.strs addr type_

unfoldable pub find_sym : ElfParser → (addr : ℕ) → FindSymOpts → Outcome Found
unfolding symtab dynsym
find_sym parser addr opts = do
  table ← symtab parser.mmap
  sym? ← table_sym table addr undefined
  elim sym? [
    | some sym ↦ ok (found sym)
    | none ↦ do
      dynamic ← dynsym parser.mmap
      dynsym? ← table_sym dynamic addr undefined
      elim dynsym? [
        | some sym ↦ ok (found sym)
        | none ↦ ok (not_found (if is_empty table.syms then missing_syms else unknown_addr))
      ]
  ]

abbrev pub no_filter : ElfNSym → Bool
no_filter sym = true

abbrev pub is_found : Outcome (Option ResolvedSym) → Bool
is_found (ok (some sym)) = true
is_found (ok none) = false
is_found (err e) = false
is_found stuck = false

-- A dynamic symbol is kept unless the symbol table answers for its address. Its type is supported, so
-- that the conversion does not fail.
abbrev pub is_new : SymbolTable → ElfNSym → Bool
is_new table sym = elim (try_from_elf_type (type_of sym)) [
  | none ↦ true
  | some type_ ↦ not (is_found (table_sym table (Sym.value sym) type_))
]

pub str2symtab : SymbolTable → Outcome (List (SymName × ℕ))
unfolding create_str2sym
str2symtab table = create_str2sym table.syms table.strs no_filter

pub str2dynsym : (table dynamic : SymbolTable) → Outcome (List (SymName × ℕ))
unfolding create_str2sym
str2dynsym table dynamic = create_str2sym dynamic.syms dynamic.strs (is_new table)

-- The sums and differences wrap.
unfoldable pub file_offset : ElfNShdrs → Elf64Sym → Outcome (Option ℕ)
file_offset shdrs sym =
    if leb shn_loreserve sym.st_shndx
    then ok none
    else (ok_or_invalid_input (get shdrs sym.st_shndx) >>= λ shdr.
        ok (some ((sym.st_value + (2 ^ 64 - Shdr.addr shdr) + Shdr.offset shdr) % 2 ^ 64)))

unfoldable pub sym_info :
    FindAddrOpts
    → (obj_file_name : Option (List ℕ)) → ElfNShdrs
    → (strs : Slice) → SymName
    → Elf64Sym
    → Outcome SymInfo
unfolding file_offset
sym_info opts obj_file_name shdrs strs name sym = do
  text ← name_text name strs
  type_ ← unwrap (try_from_elf_type (type_of64 sym))
  offset ← (if opts.offset_in_file then file_offset shdrs sym else ok none)
  ok (record {
    name = text;
    addr = sym.st_value;
    size = some sym.st_size;
    sym_type = type_;
    file_offset = offset;
    obj_file_name = obj_file_name;
  })

module _ (opts : FindAddrOpts) (shdrs : ElfNShdrs) (syms : ElfNSyms) (strs : Slice) where
  -- The loop over the name index from its first match on.
  pub matches_from :
      (obj_file_name : Option (List ℕ)) (name : List ℕ)
      → List (SymName × ℕ)
      → Outcome (List SymInfo)
  unfolding sym_info
  matches_from obj_file_name name [] = ok []
  matches_from obj_file_name name ((visit, idx) ∷ str2sym) =
      let rest = matches_from obj_file_name name str2sym in
      if not (bytes_eq (name_bytes visit strs) name)
      then ok []
      else (ok_or_invalid_input (get syms idx) >>= λ sym_ref.
          let sym = to_64bit Sym.from_elf32 sym_ref in
          if sym.st_shndx == shn_undef
          then rest
          else (sym_info opts obj_file_name shdrs strs visit sym >>= λ info.
              rest >>= λ infos. ok (info ∷ infos)))

  unfoldable pub find_addr_impl :
      (obj_file_name : Option (List ℕ)) (name : List ℕ)
      → List (SymName × ℕ)
      → Outcome (List SymInfo)
  unfolding matches_from
  find_addr_impl obj_file_name name str2sym =
      elim (find_match_or_lower_bound_by_key (name_key strs) str2sym name) [
        | none ↦ ok []
        | some idx ↦ matches_from obj_file_name name (drop idx str2sym)
      ]

  -- The callback answers whether to go on, and changes a state of its own, which also an error leaves.
  pub for_each_sym_impl :
      {S : Type 0} → List (SymName × ℕ) → (SymInfo → S → Bool × S) → S → Outcome (Unit {0}) × S
  unfolding sym_info
  for_each_sym_impl [] f s = (ok tt, s)
  for_each_sym_impl ((name, idx) ∷ str2sym) f s = elim (ok_or_invalid_input (get syms idx)) [
    | err e ↦ (err e, s)
    | stuck ↦ (stuck, s)
    | ok sym_ref ↦
        let sym = to_64bit Sym.from_elf32 sym_ref in
        if matches64 sym opts.sym_type && not (sym.st_shndx == shn_undef)
        then elim (sym_info opts none shdrs strs name sym) [
          | err e ↦ (err e, s)
          | stuck ↦ (stuck, s)
          | ok info ↦
              let (go_on, s') = f info s in
              elim go_on [ false ↦ (ok tt, s') | true ↦ for_each_sym_impl str2sym f s' ]
        ]
        else for_each_sym_impl str2sym f s
  ]

abbrev pub is_nil : List SymInfo → Bool
is_nil [] = true
is_nil (info ∷ infos) = false

unfoldable pub find_addr : ElfParser → (name : List ℕ) → FindAddrOpts → Outcome (List SymInfo)
unfolding symtab dynsym str2symtab str2dynsym find_addr_impl
find_addr parser name opts = do
  shdrs ← parse_shdrs parser.mmap
  table ← symtab parser.mmap
  names ← str2symtab table
  infos ← find_addr_impl opts shdrs table.syms table.strs parser.path name names
  elim (is_nil infos) [
    | false ↦ ok infos
    | true ↦ do
      dynamic ← dynsym parser.mmap
      dynamic_names ← str2dynsym table dynamic
      find_addr_impl opts shdrs dynamic.syms dynamic.strs parser.path name dynamic_names
  ]

-- A step of `for_each` that may fail, in front of the visits that it is for.
abbrev pub or_leave :
    {A S : Type 0} → Outcome A → S → (A → Outcome (Unit {0}) × S) → Outcome (Unit {0}) × S
or_leave (ok a) s next = next a
or_leave (err e) s next = (err e, s)
or_leave stuck s next = (stuck, s)

abbrev pub and_then :
    {S : Type 0} → Outcome (Unit {0}) × S → (S → Outcome (Unit {0}) × S) → Outcome (Unit {0}) × S
and_then (ok done, s) next = next s
and_then (err e, s) next = (err e, s)
and_then (stuck, s) next = (stuck, s)

-- The dynamic symbols are visited also where the callback ended the visit of the others.
unfoldable pub for_each :
    {S : Type 0} → ElfParser → FindAddrOpts → (SymInfo → S → Bool × S) → S → Outcome (Unit {0}) × S
unfolding symtab dynsym str2symtab str2dynsym for_each_sym_impl
for_each parser opts f s = or_leave (symtab parser.mmap) s (λ table.
    or_leave (str2symtab table) s (λ names. or_leave (parse_shdrs parser.mmap) s (λ shdrs.
      and_then (for_each_sym_impl opts shdrs table.syms table.strs names f s) (λ s'.
        or_leave (dynsym parser.mmap) s' (λ dynamic.
          or_leave (str2dynsym table dynamic) s' (λ dynamic_names.
            for_each_sym_impl opts shdrs dynamic.syms dynamic.strs dynamic_names f s'))))))
