-- ===== src/Gsym/Resolver.antt =====
-- src/gsym/resolver.rs: the answer to a symbolization request from the tables of a Gsym file.
pub mod Closest
pub mod Covers
pub mod Inlined
pub mod Lines
use blazesym.Common.{
  ℕ, zero, suc, ◌+◌, ◌*◌, ◌%◌, ◌^◌, Bool, true, false, ◌&&◌, Option, none, some, List, [], ◌∷◌,
  ◌++◌, ltb, leb, ◌==◌, if◌then◌else◌, length,
}
use blazesym.Common.Outcome.{Outcome, ok, err, ◌>>=◌, ok_or_invalid_data, invalid_data}
use blazesym.Util.Slice.{Slice}
use blazesym.Util.Utf8.{is_utf8}
use blazesym.Symbolize.{
  FindSymOpts, wants_code_info, wants_inlined_fns, CodeInfo, InlinedFn, ResolvedSym, Found, found,
  not_found, unknown, unknown_addr,
}
use blazesym.Gsym.Types.{
  FileInfo, AddrInfo, AddrData, info_type_line_table_info, info_type_inline_info,
}
use blazesym.Gsym.LineTab.{
  RunResult, LineTableHeader, LineTableRow, new_row, end, parse, from_header, run_op,
}
use blazesym.Gsym.Inline.{InlineInfo, inline_info, parse_all, inline_stack}
use blazesym.Gsym.Parser.{
  GsymContext, find_addr, addr_at, addr_info, get_str, file_info, parse_address_data, parse_header,
}

-- `get_str(..).and_then(|s| s.to_str())`, with its error.
pub utf8_str : GsymContext → (offset : ℕ) → Outcome (List ℕ)
utf8_str ctx offset = elim (get_str ctx offset) [
  | none ↦ err invalid_data
  | some s ↦ if is_utf8 s then ok s else err invalid_data
]

pub query_frame_code_info : GsymContext → (file_idx : ℕ) → (line : Option ℕ) → Outcome CodeInfo
query_frame_code_info ctx file_idx line = do
  finfo ← ok_or_invalid_data (file_info ctx file_idx)
  dir ← ok_or_invalid_data (get_str ctx finfo.directory)
  file ← ok_or_invalid_data (get_str ctx finfo.filename)
  ok (record { dir = some dir; file = file; line = line; column = none })

abbrev pub finish : (row_cnt : ℕ) → LineTableRow → Option LineTableRow
finish row_cnt row = if row_cnt == 0 then none else some row

-- Whether the loop goes on, and with which last row and how many rows.
pub data LineStep : Type 0 where
  halt : Option LineTableRow → LineStep
  go_on : (last_row : LineTableRow) → (row_cnt : ℕ) → LineStep

-- `match run_op(..)`.
pub line_step :
    (addr : ℕ) → Option RunResult → (row last_row : LineTableRow) → (row_cnt : ℕ) → LineStep
line_step addr none row last_row row_cnt = halt (finish row_cnt row)
line_step addr (some RunResult.ok) row last_row row_cnt = go_on last_row row_cnt
line_step addr (some end) row last_row row_cnt = halt (finish row_cnt row)
line_step addr (some new_row) row last_row row_cnt =
    if ltb addr row.addr
    then halt (if row_cnt == 0 then none else some last_row)
    else go_on row (row_cnt + 1)

-- `while !data.is_empty()`. An operator takes a byte at least, so the length of the data is enough
-- fuel: at zero the data are empty.
pub line_loop :
    (fuel addr : ℕ)
    → LineTableHeader
    → (row last_row : LineTableRow) → (row_cnt : ℕ) → Slice
    → Option LineTableRow
unfolding line_step
line_loop zero addr header row last_row row_cnt input = finish row_cnt row
line_loop (suc fuel) addr header row last_row row_cnt input =
    let step = run_op row header input in
    if length input.bytes == 0
    then finish row_cnt row
    else elim (line_step addr (step.0) (step.1) last_row row_cnt) [
      | halt result ↦ result
      | go_on last_row' row_cnt' ↦ line_loop fuel addr header (step.1) last_row' row_cnt' (step.2)
    ]

unfoldable pub parse_line_tab_info :
    (input : Slice) → (symaddr addr : ℕ) → Outcome (Option LineTableRow)
unfolding line_loop
parse_line_tab_info input symaddr addr =
    let (header?, rest) = parse input in
    ok_or_invalid_data header? >>= λ header.
    let row = from_header header symaddr in
    ok (line_loop (length rest.bytes) addr header row row 0 rest)

-- What the loop over the address data collects: the first line table row and the first inline tree.
pub record Gathered : Type 0 where
  pub line_tab_info : Option LineTableRow
  pub inline_tree : Option InlineInfo

gather_one : FindSymOpts → (sym_addr addr : ℕ) → AddrData → Gathered → Outcome Gathered
unfolding parse_line_tab_info
gather_one opts sym_addr addr ent g =
    if ent.typ == info_type_line_table_info
    then elim (g.line_tab_info) [
      | some row ↦ ok g
      | none ↦ parse_line_tab_info ent.content sym_addr addr >>= λ row.
          ok (record g { line_tab_info = row })
    ]
    else if ent.typ == info_type_inline_info && wants_inlined_fns opts
    then elim (g.inline_tree) [
      | some info ↦ ok g
      | none ↦ (parse_all sym_addr (some addr) ent.content).0 >>= λ info.
          ok (record g { inline_tree = info })
    ]
    else ok g

pub gather : FindSymOpts → (sym_addr addr : ℕ) → List AddrData → Gathered → Outcome Gathered
unfolding gather_one
gather opts sym_addr addr [] g = ok g
gather opts sym_addr addr (ent ∷ ents) g =
    gather_one opts sym_addr addr ent g >>= gather opts sym_addr addr ents

-- The call site of a frame, if it has a file.
pub frame_code_info : GsymContext → (call_file call_line : Option ℕ) → Outcome (Option CodeInfo)
unfolding query_frame_code_info
frame_code_info ctx none call_line = ok none
frame_code_info ctx (some file) call_line =
    query_frame_code_info ctx file call_line >>= λ c. ok (some c)

-- The code information of all frames, and of the symbol itself.
pub record Frames : Type 0 where
  pub inlined : List InlinedFn
  pub line_info : CodeInfo

-- Swap the code information with that of the last frame, and push the frame.
pub push_behind : List InlinedFn → (name : List ℕ) → Option CodeInfo → List InlinedFn
push_behind [] name info = record { name = name; code_info = info } ∷ []
push_behind (last ∷ []) name info =
    record last { code_info = info } ∷ record { name = name; code_info = last.code_info } ∷ []
push_behind (first ∷ next ∷ rest) name info = first ∷ push_behind (next ∷ rest) name info

pub push_frame : (name : List ℕ) → Option CodeInfo → Frames → Frames
unfolding push_behind
push_frame name info frames = elim (frames.inlined) [
  | [] ↦ elim info [
    | none ↦ record frames { inlined = record { name = name; code_info = none } ∷ [] }
    | some c ↦ record {
      inlined = record { name = name; code_info = some frames.line_info } ∷ [];
      line_info = c;
    }
  ]
  | first ∷ rest ↦ record frames { inlined = push_behind (first ∷ rest) name info }
]

pub push_frames : GsymContext → List InlineInfo → Frames → Outcome Frames
unfolding push_frame frame_code_info utf8_str
push_frames ctx [] frames = ok frames
push_frames ctx (inline_info name call_file call_line ranges children ∷ rest) frames = do
  text ← utf8_str ctx name
  info ← frame_code_info ctx call_file call_line
  push_frames ctx rest (push_frame text info frames)

abbrev pub info_name : InlineInfo → ℕ
info_name (inline_info name f l r c) = name

-- The first entry of the stack only renames the symbol.
pub fill_inlined : GsymContext → List InlineInfo → ResolvedSym → CodeInfo → Outcome ResolvedSym
unfolding push_frames utf8_str
fill_inlined ctx [] sym line_info = ok (record sym { code_info = some line_info; inlined = [] })
fill_inlined ctx (first ∷ rest) sym line_info = do
  name ← utf8_str ctx (info_name first)
  frames ← push_frames ctx rest (record { inlined = []; line_info = line_info })
  ok (record sym { name = name; code_info = some frames.line_info; inlined = frames.inlined })

abbrev pub stack_of : Option InlineInfo → (addr : ℕ) → List InlineInfo
stack_of none addr = []
stack_of (some info) addr = inline_stack info addr

pub fill_code_info :
    GsymContext
    → ResolvedSym
    → (addr : ℕ) → FindSymOpts
    → (sym_addr : ℕ) → AddrInfo
    → Outcome ResolvedSym
unfolding gather fill_inlined query_frame_code_info
fill_code_info ctx sym addr opts sym_addr info =
    let entries = parse_address_data info.content in
    let filled : Outcome ResolvedSym = do
      g ← gather opts sym_addr addr entries (record { line_tab_info = none; inline_tree = none })
      elim (g.line_tab_info) [
        | none ↦ ok sym
        | some row ↦ query_frame_code_info ctx row.file_idx (some row.file_line) >>= λ line_info.
            fill_inlined ctx (stack_of g.inline_tree addr) sym line_info
      ]
    in if wants_code_info opts then filled else ok sym

-- `addr >= sym_addr + size`, for a symbol with a size.
abbrev pub is_past : (addr sym_addr size : ℕ) → Bool
is_past addr sym_addr size = ltb 0 size && leb ((sym_addr + size) % 2 ^ 64) addr

-- What `find_sym` does with the entry `idx` of the address table.
pub resolve_entry :
    GsymContext → (addr : ℕ) → FindSymOpts → (sym_addr : ℕ) → AddrInfo → Outcome Found
unfolding fill_code_info utf8_str
resolve_entry ctx addr opts sym_addr info = do
  name ← utf8_str ctx info.name
  let sym : ResolvedSym = record {
    name = name;
    addr = sym_addr;
    size = some info.size;
    lang = unknown;
    code_info = none;
    inlined = [];
  }
  sym' ← fill_code_info ctx sym addr opts sym_addr info
  ok (found sym')

unfoldable pub find_sym : GsymContext → (addr : ℕ) → FindSymOpts → Outcome Found
unfolding resolve_entry
find_sym ctx addr opts = elim (find_addr ctx addr) [
  | none ↦ ok (not_found unknown_addr)
  | some idx ↦ ok_or_invalid_data (addr_at ctx idx) >>= λ sym_addr.
      if ltb addr sym_addr
      then ok (not_found unknown_addr)
      else ok_or_invalid_data (addr_info ctx idx) >>= λ info.
          if is_past addr sym_addr info.size
          then ok (not_found unknown_addr)
          else resolve_entry ctx addr opts sym_addr info
]

-- `GsymResolver::with_data` and `from_mmap` keep the context of the parsed file.
unfoldable pub with_data : Slice → Outcome GsymContext
with_data input = parse_header input
