-- ===== src/Breakpad.antt =====
-- src/breakpad: the symbol file (types.rs, and what parser.rs does without `nom`) and the resolver
-- (resolver.rs). The grammar of the lines rests on the crate `nom` and is left out.
pub mod Inlinees
pub mod Symbols
pub mod Resolver
use blazesym.Common.{
  ℕ, zero, suc, ◌+◌, ◌*◌, ◌%◌, ◌^◌, Bool, true, false, not, Option, none, some, List, [], ◌∷◌, map,
  ltb, leb, ◌==◌, if◌then◌else◌, length, get_elem?, drop,
}
use blazesym.Common.Outcome.{Outcome, ok, err, ◌>>=◌, ok_or_invalid_input, unsupported}
use blazesym.Util.Cover.{find_covering}
use blazesym.Util.Order.{nat_ord, bytes_ord, bytes_eq, pair_ord, pair_lt, pair_eq}
use blazesym.Util.Search.{partition_point, find_lowest_match_by_key}
use blazesym.Util.Sort.{sort_by_key}
use blazesym.Symbolize.{
  FindSymOpts, wants_code_info, wants_inlined_fns, CodeInfo, ResolvedSym, Found, found, not_found,
  unknown, missing_syms, unknown_addr,
}
use blazesym.Inspect.{SymType, variable, function, undefined, SymInfo, FindAddrOpts}
use blazesym.Ksym.{range}
use blazesym.Gsym.Resolver.{Frames, push_frame}

pub record SourceLine : Type 0 where
  pub addr : ℕ
  pub size : ℕ
  pub file : ℕ
  pub line : ℕ

pub record Inlinee : Type 0 where
  pub depth : ℕ
  pub addr : ℕ
  pub size : ℕ
  pub call_file : ℕ
  pub call_line : ℕ
  pub origin_id : ℕ

pub record Function : Type 0 where
  pub addr : ℕ
  pub size : ℕ
  pub parameter_size : ℕ
  pub name : List ℕ
  pub lines : List SourceLine
  pub inlinees : List Inlinee

-- The hash maps as their lookups; the cell of the name index is left out.
pub record SymbolFile : Type 0 where
  pub files : ℕ → Option (List ℕ)
  pub functions : List Function
  pub inline_origins : ℕ → Option (List ℕ)

abbrev pub line_start : SourceLine → ℕ
line_start l = l.addr

abbrev pub line_size : SourceLine → ℕ
line_size l = l.size

unfoldable pub find_line : Function → (addr : ℕ) → Option SourceLine
unfolding find_covering
find_line func addr = find_covering line_start line_size func.lines addr

abbrev pub start_of : Function → ℕ
start_of f = f.addr

abbrev pub size_of : Function → ℕ
size_of f = f.size

unfoldable pub find_function : SymbolFile → (addr : ℕ) → Option Function
unfolding find_covering
find_function file addr = find_covering start_of size_of file.functions addr

-- `slice::binary_search_by_key`: the index of a match, or where to insert. Of several matches it is
-- the last, which the documentation leaves open.
pub data Search : Type 0 where
  at_index insert_at : ℕ → Search

abbrev pub inlinee_key : Inlinee → ℕ × ℕ
inlinee_key i = (i.depth, i.addr)

abbrev pub matched : List Inlinee → (key : ℕ × ℕ) → (idx : ℕ) → Search
matched inlinees key zero = insert_at 0
matched inlinees key (suc idx) = elim (get_elem? inlinees idx) [
  | none ↦ insert_at (suc idx)
  | some i ↦ if pair_eq (inlinee_key i) key then at_index idx else insert_at (suc idx)
]

-- whether an inlinee is not behind the key
abbrev pub up_to : (key : ℕ × ℕ) → Inlinee → Bool
up_to key i = not (pair_lt key (inlinee_key i))

pub binary_search_by_key : List Inlinee → (key : ℕ × ℕ) → Search
unfolding partition_point
binary_search_by_key inlinees key = matched inlinees key (partition_point (up_to key) inlinees)

-- The checks of the candidate.
abbrev pub checked : (depth addr : ℕ) → Option Inlinee → Option Inlinee
checked depth addr none = none
checked depth addr (some inlinee) =
    if not (inlinee.depth == depth)
    then none
    else if leb (2 ^ 64) (inlinee.addr + inlinee.size)
    then none
    else if ltb addr (inlinee.addr + inlinee.size)
    then some inlinee
    else none

abbrev pub candidate : List Inlinee → Search → Option Inlinee
candidate inlinees (at_index idx) = get_elem? inlinees idx
candidate inlinees (insert_at zero) = none
candidate inlinees (insert_at (suc idx)) = get_elem? inlinees idx

unfoldable pub find_inlinee_at_depth : Function → (depth addr : ℕ) → Option Inlinee
unfolding binary_search_by_key
find_inlinee_at_depth func depth addr =
    checked depth addr (candidate func.inlinees (binary_search_by_key func.inlinees (depth, addr)))

-- The loop, from a depth on; the fuel bounds its rounds.
pub inlinees_from : (fuel : ℕ) → Function → (depth addr : ℕ) → List Inlinee
inlinees_from zero func depth addr = []
inlinees_from (suc fuel) func depth addr =
    let rest = inlinees_from fuel func (depth + 1) addr in
    elim (find_inlinee_at_depth func depth addr) [ none ↦ [] | some inlinee ↦ inlinee ∷ rest ]

-- One round for each depth that some inlinee can have, and one that ends the loop.
pub enough_rounds : List Inlinee → ℕ
enough_rounds [] = 1
enough_rounds (i ∷ inlinees) =
    let rest = enough_rounds inlinees in if ltb rest (i.depth + 2) then i.depth + 2 else rest

pub find_inlinees : Function → (addr : ℕ) → List Inlinee
unfolding inlinees_from enough_rounds
find_inlinees func addr = inlinees_from (enough_rounds func.inlinees) func 0 addr

abbrev pub line_key : SourceLine → ℕ × ℕ
line_key l = (l.addr, l.size)

abbrev pub no_function : Function
no_function = record {
  addr = 0;
  size = 0;
  parameter_size = 0;
  name = [];
  lines = [];
  inlinees = [];
}

-- `&funcs[idx]`, for the indices of the list.
abbrev pub function_at : List Function → (idx : ℕ) → Function
function_at funcs idx = elim (get_elem? funcs idx) [ none ↦ no_function | some f ↦ f ]

abbrev pub name_key : List Function → (idx : ℕ) → List ℕ × ℕ
name_key funcs idx = ((function_at funcs idx).name, (function_at funcs idx).addr)

unfoldable pub create_by_name_idx : List Function → List ℕ
unfolding range
create_by_name_idx funcs = sort_by_key (name_key funcs) (range 0 (length funcs))

-- `map_while`
pub take_named : List Function → (name : List ℕ) → List ℕ → List Function
take_named funcs name [] = []
take_named funcs name (idx ∷ idxs) =
    let rest = take_named funcs name idxs in
    let sym = function_at funcs idx in if bytes_eq sym.name name then sym ∷ rest else []

pub functions_named : SymbolFile → (name : List ℕ) → List Function
unfolding create_by_name_idx take_named find_lowest_match_by_key
functions_named file name =
    let by_name_idx = create_by_name_idx file.functions in
    elim (find_lowest_match_by_key by_name_idx name
      (λ idx. (function_at file.functions idx).name)) [
        | none ↦ []
        | some idx ↦ take_named file.functions name (drop idx by_name_idx)
      ]

-- `SymbolParser::finish_item` for a function, and `SymbolParser::finish`.
finish_function : Function → Function
finish_function cur = record cur {
  lines = sort_by_key line_key cur.lines;
  inlinees = sort_by_key inlinee_key cur.inlinees;
}

abbrev pub sort_key : Function → ℕ × ℕ
sort_key f = (f.addr, f.size)

unfoldable pub finish : (files inline_origins : ℕ → Option (List ℕ)) → List Function → SymbolFile
finish files inline_origins functions = record {
  files = files;
  functions = sort_by_key sort_key functions;
  inline_origins = inline_origins;
}

-- `SymInfo::from`
abbrev pub sym_info : Function → SymInfo
sym_info func = record {
  name = func.name;
  addr = func.addr;
  size = some func.size;
  sym_type = function;
  file_offset = none;
  obj_file_name = none;
}

unfoldable pub find_addr : SymbolFile → (name : List ℕ) → FindAddrOpts → Outcome (List SymInfo)
unfolding functions_named
find_addr file name opts =
    let syms = ok (map sym_info (functions_named file name)) in
    elim (opts.sym_type) [ variable ↦ err unsupported | undefined ↦ syms | function ↦ syms ]
