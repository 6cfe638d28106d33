-- ===== src/Examples/Elfs.antt =====
-- src/elf at concrete inputs: a symbol table, and a file with one section or one segment.
use blazesym.Common.{ℕ, ◌≡◌, ◌≢◌, refl, false, none, some, List, [], ◌∷◌, get_elem?, arith, inl}
use blazesym.Common.Outcome.{ok}
use blazesym.Util.Order.{bytes_lt, bytes_eq, pair_lt}
use blazesym.Util.Search.{find_match_or_lower_bound_by_key}
use blazesym.Util.Slice.{Slice, slice, get_from, read_cstr}
use blazesym.Util.Sort.{sort_by_key}
use blazesym.Util.Utf8.{is_utf8}
use blazesym.Symbolize.{ResolvedSym, unknown}
use blazesym.Inspect.{FindAddrOpts, SymInfo, function, undefined}
use blazesym.Elf.Types.{b64, slice64, to_64bit, shn_undef}
use blazesym.Elf.Types.Sym
use blazesym.Elf.Types.Sym.{ElfNSym, ElfNSyms}
use blazesym.Elf.Types.Shdr.{ElfNShdrs}
use blazesym.Elf.SymTab.{SymName, find_sym, create_by_addr_idx, create_str2sym}
use blazesym.Elf.SymTab.Find.{IsFound, find_sym-IsClosest}
use blazesym.Elf.SymTab.Complete.{Resolves, find_sym_complete}
use blazesym.Elf.Parser.{find_addr_impl, no_filter, file_offset}
use blazesym.Elf.Parser.ByName.{HasName, IsAnswer, find_addr_impl-IsAnswer}

-- a function of 32 bytes, and one without a size
abbrev f : ElfNSym
f =
    b64
      (record { st_name = 1; st_info = 2; st_other = 0; st_shndx = 1; st_value = 16; st_size = 32 })

abbrev g : ElfNSym
g =
    b64
      (record { st_name = 3; st_info = 2; st_other = 0; st_shndx = 1; st_value = 16; st_size = 0 })

abbrev syms : ElfNSyms
syms = slice64 (
    (record { st_name = 3; st_info = 2; st_other = 0; st_shndx = 1; st_value = 16; st_size = 0 })
    ∷ (record { st_name = 1; st_info = 2; st_other = 0; st_shndx = 1; st_value = 16; st_size = 32 })
    ∷ [])

abbrev strs : Slice
strs = slice 0 (0 ∷ b'f' ∷ 0 ∷ b'g' ∷ 0 ∷ [])

abbrev found_f : ResolvedSym
found_f = record {
  name = b'f' ∷ [];
  addr = 16;
  size = some 32;
  lang = unknown;
  code_info = none;
  inlined = [];
}

find_sym-IsClosest_example : IsFound syms strs 16 undefined found_f
unfolding find_sym create_by_addr_idx sort_by_key find_match_or_lower_bound_by_key get_from
    read_cstr is_utf8 pair_lt
find_sym-IsClosest_example = find_sym-IsClosest syms strs 16 undefined found_f refl

find_sym_complete_example :
    Resolves syms 16 strs undefined g (find_sym syms (create_by_addr_idx syms) strs 16 undefined)
find_sym_complete_example =
    find_sym_complete syms 16 strs undefined 0 g refl refl (omega arith) (λ j t at kind le. le)
      (inl refl)

abbrev opts : FindAddrOpts
opts = record { offset_in_file = false; sym_type = undefined }

abbrev no_shdrs : ElfNShdrs
no_shdrs = slice64 []

abbrev names : List (SymName × ℕ)
names = (record { idx = 1; len = 1 }, 1) ∷ (record { idx = 3; len = 1 }, 0) ∷ []

abbrev info_f : SymInfo
info_f = record {
  name = b'f' ∷ [];
  addr = 16;
  size = some 32;
  sym_type = function;
  file_offset = none;
  obj_file_name = none;
}

names_made : create_str2sym syms strs no_filter ≡ ok names
unfolding create_str2sym create_by_addr_idx sort_by_key get_from read_cstr bytes_lt pair_lt
names_made = refl

answered : find_addr_impl opts no_shdrs syms strs none (b'f' ∷ []) names ≡ ok (info_f ∷ [])
unfolding find_addr_impl find_match_or_lower_bound_by_key is_utf8 bytes_lt bytes_eq file_offset
answered = refl

find_addr_impl-IsAnswer_example :
    ((q : ℕ) (info : SymInfo)
      → get_elem? (info_f ∷ []) q ≡ some info
      → (idx : ℕ) × (s : ElfNSym) × IsAnswer syms strs no_filter opts no_shdrs none
          (b'f' ∷ [])
          names
          (info_f ∷ [])
          names_made
          answered
          idx
          s
          info)
    × ((idx : ℕ) (s : ElfNSym)
        → HasName syms strs no_filter (b'f' ∷ []) idx s
        → (to_64bit Sym.from_elf32 s).st_shndx ≢ shn_undef
        → (q : ℕ) × (info : SymInfo) × (get_elem? (info_f ∷ []) q ≡ some info)
          × IsAnswer syms strs no_filter opts no_shdrs none
              (b'f' ∷ [])
              names
              (info_f ∷ [])
              names_made
              answered
              idx
              s
              info)
find_addr_impl-IsAnswer_example =
    find_addr_impl-IsAnswer syms strs no_filter opts no_shdrs none (b'f' ∷ []) names (info_f ∷ [])
      names_made answered
