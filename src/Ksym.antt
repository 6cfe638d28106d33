-- ===== src/Ksym.antt =====
-- src/kernel/ksym.rs: the resolver over /proc/kallsyms, in the build without the `bpf` feature.
pub mod Find
pub mod Name
use blazesym.Common.{
  ℕ, zero, suc, ◌+◌, Bool, true, false, Option, none, some, List, [], ◌∷◌, map, ltb, ◌==◌,
  if◌then◌else◌, length, get_elem?, drop,
}
use blazesym.Common.Outcome.{Outcome, ok, err, ◌>>=◌, invalid_data}
use blazesym.Util.Text.{lines, split_ascii_whitespace, from_str_radix_16}
use blazesym.Util.Utf8.{is_utf8}
use blazesym.Util.Order.{nat_ord, bytes_ord, pair_ord}
use blazesym.Util.Search.{find_match_or_lower_bound_by_key}
use blazesym.Util.Sort.{sort_by_key}
use blazesym.Symbolize.{
  FindSymOpts, ResolvedSym, Found, found, not_found, unknown, Reason, missing_syms, unknown_addr,
}
use blazesym.Inspect.{SymType, variable, function, undefined, SymInfo, FindAddrOpts}

-- A `Kfunc`, which is the only kind of `Ksym` without the feature.
pub record Ksym : Type 0 where
  pub addr : ℕ
  pub name : List ℕ

-- What a line adds: its first token is the address and its third the name. A line with fewer tokens,
-- an address that is no number, and the address 0 are passed over.
line_sym : List (List ℕ) → Option Ksym
line_sym (addr ∷ typ ∷ name ∷ rest) = elim (from_str_radix_16 addr) [
  | none ↦ none
  | some a ↦ if a == 0 then none else some (record { addr = a; name = name })
]
line_sym _ = none

abbrev pub push_sym : Option Ksym → List Ksym → List Ksym
push_sym none syms = syms
push_sym (some sym) syms = sym ∷ syms

-- The loop over the lines: `read_line` fails on a line that is no UTF-8.
pub load_lines : List (List ℕ) → Outcome (List Ksym)
unfolding line_sym
load_lines [] = ok []
load_lines (line ∷ rest) =
    let syms = load_lines rest in
    if is_utf8 line
    then (syms >>= λ more. ok (push_sym (line_sym (split_ascii_whitespace line)) more))
    else err invalid_data

unfoldable pub load_from_reader : List ℕ → Outcome (List Ksym)
unfolding load_lines
load_from_reader text = load_lines (lines text) >>= λ syms. ok (sort_by_key (λ a. a.addr) syms)

-- `Result<&Ksym, Reason>`.
pub data Lookup : Type 0 where
  hit : Ksym → Lookup
  miss : Reason → Lookup

abbrev pub is_empty : List Ksym → Bool
is_empty [] = true
is_empty (s ∷ ss) = false

unfoldable pub find_ksym : List Ksym → (addr : ℕ) → Lookup
find_ksym syms addr =
    let missed = if is_empty syms then miss missing_syms else miss unknown_addr in
    elim (find_match_or_lower_bound_by_key (λ s. s.addr) syms addr) [
      | none ↦ missed
      | some idx ↦ elim (get_elem? syms idx) [ none ↦ missed | some sym ↦ hit sym ]
    ]

-- `Kfunc::resolve`.
resolve : Ksym → ResolvedSym
resolve sym = record {
  name = sym.name;
  addr = sym.addr;
  size = none;
  lang = unknown;
  code_info = none;
  inlined = [];
}

unfoldable pub find_sym : List Ksym → (addr : ℕ) → FindSymOpts → Outcome Found
unfolding find_ksym resolve
find_sym syms addr opts = elim (find_ksym syms addr) [
  | hit sym ↦ ok (found (resolve sym))
  | miss reason ↦ ok (not_found reason)
]

-- `self.syms[idx]`. The indices that are used lie inside; the default stands for the panic.
abbrev pub no_sym : Ksym
no_sym = record { addr = 0; name = [] }

abbrev pub sym_at : List Ksym → (idx : ℕ) → Ksym
sym_at syms idx = elim (get_elem? syms idx) [ none ↦ no_sym | some sym ↦ sym ]

-- The order of the indices: by name, then by address.
abbrev pub name_key : List Ksym → (idx : ℕ) → List ℕ × ℕ
name_key syms idx = ((sym_at syms idx).name, (sym_at syms idx).addr)

-- `start..start + count`.
unfoldable pub range : (start count : ℕ) → List ℕ
range start zero = []
range start (suc count) = start ∷ range (start + 1) count

pub create_by_name_idx : List Ksym → List ℕ
unfolding range
create_by_name_idx syms = sort_by_key (name_key syms) (range 0 (length syms))

-- `SymInfo::try_from`, which does not fail.
pub sym_info : Ksym → SymInfo
sym_info sym = record {
  name = sym.name;
  addr = sym.addr;
  size = none;
  sym_type = function;
  file_offset = none;
  obj_file_name = none;
}

unfoldable pub find_addr : List Ksym → (name : List ℕ) → FindAddrOpts → List SymInfo
unfolding create_by_name_idx sym_info
find_addr syms name opts =
    let by_name_idx = create_by_name_idx syms in
    let answer : List SymInfo =
      elim (find_match_or_lower_bound_by_key (λ idx. (sym_at syms idx).name) by_name_idx name) [
        | none ↦ []
        | some idx ↦ map (λ i. sym_info (sym_at syms i)) (drop idx by_name_idx)
      ] in
    elim (opts.sym_type) [ variable ↦ [] | undefined ↦ answer | function ↦ answer ]

-- The loop of `for_each`: the callback answers whether to go on, and changes a state of its own.
pub visit {ℓ} : {S : Type ℓ} → List Ksym → (SymInfo → S → Bool × S) → S → S
unfolding sym_info
visit [] f s = s
visit (sym ∷ syms) f s =
    let (go_on, s') = f (sym_info sym) s in let rest = visit syms f s' in if go_on then rest else s'

unfoldable pub for_each {ℓ} :
    {S : Type ℓ} → List Ksym → FindAddrOpts → (SymInfo → S → Bool × S) → S → S
unfolding visit
for_each syms opts f s =
    let visited = visit syms f s in
    elim (opts.sym_type) [ variable ↦ s | undefined ↦ visited | function ↦ visited ]
