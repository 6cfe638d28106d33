-- ===== src/Elf/SymTab.antt =====
-- A symbol table of src/elf/parser.rs: `SymbolTableCache` with its two indices, and the lookup of an
-- address. The cells that keep an index are left out: an index is what its `create_*` computes.
pub mod Index
pub mod Find
pub mod Complete
use blazesym.Common.{
  ℕ, ◌+◌, ◌%◌, ◌^◌, Bool, true, false, ◌&&◌, ◌||◌, not, Option, none, some, List, [], ◌∷◌, length,
  take, drop, ltb, ◌==◌, if◌then◌else◌,
}
use blazesym.Common.Outcome.{Outcome, ok, err, ◌>>=◌, ok_or_invalid_input}
use blazesym.Util.Order.{Ord, nat_ord, bytes_ord, pair_ord, reverse_ord}
use blazesym.Util.Search.{find_match_or_lower_bound_by_key}
use blazesym.Util.Slice.{Slice, get_from, read_cstr}
use blazesym.Util.Sort.{sort_by_key}
use blazesym.Util.Utf8.{from_utf8}
use blazesym.Symbolize.{ResolvedSym, unknown}
use blazesym.Inspect.{SymType, undefined}
use blazesym.Elf.Types.{ElfNSlice, b64, get, iter, to_64bit, shn_undef}
use blazesym.Elf.Types.Sym
use blazesym.Elf.Types.Sym.{Elf64Sym, ElfNSym, ElfNSyms, from_elf32, matches, matches64}

-- The text that starts at an index of a string table.
unfoldable pub cstr_at : (strtab : Slice) (idx : ℕ) → Outcome (List ℕ)
unfolding get_from read_cstr
cstr_at strtab idx = do
  rest ← ok_or_invalid_input (get_from idx strtab)
  ok_or_invalid_input ((read_cstr rest).0)

pub symbol_name : (strtab : Slice) → Elf64Sym → Outcome (List ℕ)
unfolding cstr_at
symbol_name strtab sym = cstr_at strtab sym.st_name >>= λ name. from_utf8 name

-- `syms.get(idx).unwrap()`. The indices that are used lie inside; the default stands for the panic.
abbrev pub no_sym : ElfNSym
no_sym =
    b64 (record { st_name = 0; st_info = 0; st_other = 0; st_shndx = 0; st_value = 0; st_size = 0 })

abbrev pub sym_at : ElfNSyms → (idx : ℕ) → ElfNSym
sym_at syms idx = elim (get syms idx) [ none ↦ no_sym | some sym ↦ sym ]

abbrev pub sym64_at : ElfNSyms → (idx : ℕ) → Elf64Sym
sym64_at syms idx = to_64bit from_elf32 (sym_at syms idx)

-- The end of a symbol wraps, as overflow checks are off in the release profile.
abbrev pub is_match : Elf64Sym → (addr : ℕ) → SymType → Bool
is_match sym addr type_ =
    (matches64 sym type_ && not (sym.st_shndx == shn_undef))
    && (sym.st_size == 0 || ltb addr ((sym.st_value + sym.st_size) % 2 ^ 64))

abbrev pub symbol_size : Elf64Sym → Option ℕ
symbol_size sym = if sym.st_size == 0 then none else some sym.st_size

pub resolved : (strtab : Slice) → Elf64Sym → Outcome (Option ResolvedSym)
unfolding symbol_name
resolved strtab sym = do
  name ← symbol_name strtab sym
  ok (
      some (record {
        name = name;
        addr = sym.st_value;
        size = symbol_size sym;
        lang = unknown;
        code_info = none;
        inlined = [];
      }))

-- The loop over the rest of the index.
pub scan :
    ElfNSyms
    → (by_addr_idx : List ℕ) → (strtab : Slice) (addr : ℕ) → SymType
    → Outcome (Option ResolvedSym)
unfolding resolved
scan syms [] strtab addr type_ = ok none
scan syms (idx ∷ by_addr_idx) strtab addr type_ =
    let sym = sym64_at syms idx in
    let rest = scan syms by_addr_idx strtab addr type_ in
    if ltb addr sym.st_value
    then ok none
    else if is_match sym addr type_
    then resolved strtab sym
    else rest

abbrev pub value_at : ElfNSyms → (idx : ℕ) → ℕ
value_at syms idx = Sym.value (sym_at syms idx)

unfoldable pub find_sym :
    ElfNSyms
    → (by_addr_idx : List ℕ) → (strtab : Slice) (addr : ℕ) → SymType
    → Outcome (Option ResolvedSym)
unfolding scan
find_sym syms by_addr_idx strtab addr type_ =
    elim (find_match_or_lower_bound_by_key (value_at syms) by_addr_idx addr) [
      | none ↦ ok none
      | some idx ↦ scan syms (drop idx by_addr_idx) strtab addr type_
    ]

pub record SymName : Type 0 where
  pub idx : ℕ
  pub len : ℕ

-- A name was made by `create_str2sym`, so that its bytes lie inside the table.
abbrev pub name_bytes : SymName → (strs : Slice) → List ℕ
name_bytes name strs = take name.len (drop name.idx strs.bytes)

-- `SymName::name`.
abbrev pub name_text : SymName → (strs : Slice) → Outcome (List ℕ)
name_text name strs = from_utf8 (name_bytes name strs)

-- The indices of the symbols of a type that is supported.
pub supported : (start : ℕ) → List ElfNSym → List ℕ
supported start [] = []
supported start (sym ∷ syms) =
    let rest = supported (start + 1) syms in if matches sym undefined then start ∷ rest else rest

-- By address, and by size from the greatest where addresses are equal.
abbrev pub addr_key : ElfNSyms → (idx : ℕ) → ℕ × ℕ
addr_key syms idx = (Sym.value (sym_at syms idx), Sym.size (sym_at syms idx))

abbrev pub addr_ord : Ord (ℕ × ℕ)
addr_ord = pair_ord ⦃p = reverse_ord nat_ord⦄

unfoldable pub create_by_addr_idx : ElfNSyms → List ℕ
unfolding supported sort_by_key
create_by_addr_idx syms = sort_by_key ⦃o = addr_ord⦄ (addr_key syms) (supported 0 (iter syms 0))

unfoldable pub sym_name : (strs : Slice) → ElfNSym → Outcome SymName
unfolding cstr_at
sym_name strs sym = do
  cname ← cstr_at strs (Sym.name sym)
  ok (record { idx = Sym.name sym; len = length cname })

-- The names of the symbols that the filter keeps, up to the first error.
unfoldable pub named :
    ElfNSyms → (strs : Slice) → (filter : ElfNSym → Bool) → List ℕ → Outcome (List (SymName × ℕ))
unfolding sym_name
named syms strs filter [] = ok []
named syms strs filter (idx ∷ idxs) =
    let rest = named syms strs filter idxs in
    if filter (sym_at syms idx)
    then (sym_name strs (sym_at syms idx) >>= λ name. rest >>= λ names. ok ((name, idx) ∷ names))
    else rest

abbrev pub name_key : (strs : Slice) → SymName × ℕ → List ℕ
name_key strs (name, idx) = name_bytes name strs

unfoldable pub create_str2sym :
    ElfNSyms → (strs : Slice) → (filter : ElfNSym → Bool) → Outcome (List (SymName × ℕ))
unfolding named create_by_addr_idx
create_str2sym syms strs filter = do
  str2sym ← named syms strs filter (create_by_addr_idx syms)
  ok (sort_by_key (name_key strs) str2sym)
