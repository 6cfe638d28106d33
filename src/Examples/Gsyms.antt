-- ===== src/Examples/Gsyms.antt =====
-- The Gsym resolver of src/gsym at concrete inputs.
use blazesym.Common.{ℕ, ◌≤◌, ◌≡◌, ◌≢◌, refl, none, some, List, [], ◌∷◌, ◌++◌, arith, All}
use blazesym.Common.Outcome.{ok, stuck, ◌>>=◌}
use blazesym.Symbolize.{code_info_and_inlined, CodeInfo, ResolvedSym, unknown, found}
use blazesym.Util.Search.{find_match_or_lower_bound_by_key}
use blazesym.Util.Utf8.{is_utf8}
use blazesym.Util.Leb128.{read_i64_leb128, read_u64_leb128}
use blazesym.Util.Slice.{
  Slice, slice, chunks, from_le_bytes, get_from, read_cstr, read_pod, read_pod_slice_ref, read_u8,
  read_u32,
}
use blazesym.Gsym.LineTab.{
  LineTableHeader, LineTableRow, new_row, run_special, run_op, parse, from_header,
}
use blazesym.Gsym.LineTab.Special.{run_special_lem}
use blazesym.Gsym.Inline.{InlineInfo, inline_info, none_left, child, Range, parse_all, inline_stack}
use blazesym.Gsym.Inline.Fuel.{parse_all-ne-stuck}
use blazesym.Gsym.Inline.Stack.{IsFrame, inline_stack-frames}
use blazesym.Gsym.Parser.{
  GsymContext, find_addr, addr_at, addr_info, get_str, file_info, parse_address_data,
}
use blazesym.Gsym.Resolver.{find_sym, push_frames, parse_line_tab_info}
use blazesym.Gsym.Parser.AddressData.{Item, encode, placed, parse_address_data-encode}
use blazesym.Gsym.Parser.Table.{table}
use blazesym.Gsym.Resolver.Closest.{NoneBetween, find_sym-NoneBetween}
use blazesym.Util.Search.LowerBound.{IsSortedBy}
use blazesym.Util.Sort.{IsAscending→IsSortedBy}
use blazesym.Util.Order.{nat_ord}
use blazesym.Gsym.Resolver.Covers.{IsEntryAround, find_sym-IsEntryAround}
use blazesym.Gsym.Resolver.Inlined.{read_frames, moved_up, push_frames-moved_up}
use blazesym.Gsym.Resolver.Lines.{parse_line_tab_info-le}

-- "f" at 1, "g" at 3, "d" at 5
abbrev strings : Slice
strings = slice 500 (0 ∷ b'f' ∷ 0 ∷ b'g' ∷ 0 ∷ b'd' ∷ 0 ∷ [])

-- a line table that starts at line 10 and makes a row at the start and one two bytes on
abbrev line_table : List ℕ
line_table = 0x7f ∷ 1 ∷ 10 ∷ 0x05 ∷ 0x02 ∷ 2 ∷ 0 ∷ []

-- "f" of 16 bytes with that line table, and the end of the list
abbrev raw : Slice
raw = slice 100 (
    (16 ∷ 0 ∷ 0 ∷ 0 ∷ 1 ∷ 0 ∷ 0 ∷ 0 ∷ 1 ∷ 0 ∷ 0 ∷ 0 ∷ 7 ∷ 0 ∷ 0 ∷ 0 ∷ [])
    ++ (line_table ++ (0 ∷ 0 ∷ 0 ∷ 0 ∷ [])))

abbrev ctx : GsymContext
ctx = record {
  header = record {
    magic = 0x4753594d;
    version = 1;
    addr_off_size = 1;
    uuid_size = 0;
    base_address = 0x1000;
    num_addrs = 2;
    strtab_offset = 0;
    strtab_size = 7;
    uuid = [];
  };
  addr_tab = slice 90 (0x20 ∷ 0x80 ∷ []);
  addr_data_off_tab = 0 ∷ 0 ∷ [];
  file_tab = record { directory = 0; filename = 0 } ∷ record { directory = 5; filename = 3 } ∷ [];
  str_tab = strings;
  raw_data = raw;
}

abbrev code_at : ℕ → CodeInfo
code_at line = record { dir = some (b'd' ∷ []); file = b'g' ∷ []; line = some line; column = none }

abbrev f_sym : ResolvedSym
f_sym = record {
  name = b'f' ∷ [];
  addr = 0x1020;
  size = some 16;
  lang = unknown;
  code_info = some (code_at 10);
  inlined = [];
}

find_sym_f : find_sym ctx 0x1021 code_info_and_inlined ≡ ok (found f_sym)
unfolding find_sym find_addr read_pod_slice_ref find_match_or_lower_bound_by_key addr_at get_from
    read_pod addr_info read_u32 get_str read_cstr is_utf8 parse_address_data file_info parse
    read_i64_leb128 read_u64_leb128 run_op read_u8 from_header
find_sym_f = refl

find_sym-IsEntryAround_example : IsEntryAround ctx 0x1021 f_sym
find_sym-IsEntryAround_example =
    find_sym-IsEntryAround ctx 0x1021 code_info_and_inlined f_sym find_sym_f

abbrev two_items : List Item
two_items = (1, 7 ∷ 8 ∷ []) ∷ (2, []) ∷ []

parse_address_data-encode_example :
    parse_address_data (slice 0 (encode two_items (9 ∷ []))) ≡ placed 0 two_items
parse_address_data-encode_example =
    parse_address_data-encode two_items (9 ∷ []) 0
      ((omega arith, omega arith, omega arith), ((omega arith, omega arith, omega arith), tt))

abbrev self : ℕ → ℕ
self n = n

table-IsSortedBy : IsSortedBy self (table ctx)
unfolding chunks from_le_bytes
table-IsSortedBy = IsAscending→IsSortedBy self (0x20 ∷ 0x80 ∷ []) ((refl, tt), (tt, tt))

find_addr_f : find_addr ctx 0x1021 ≡ some 0
unfolding find_addr read_pod_slice_ref find_match_or_lower_bound_by_key
find_addr_f = refl

find_sym-NoneBetween_example : NoneBetween ctx 0x1021 f_sym
find_sym-NoneBetween_example =
    find_sym-NoneBetween ctx 0x1021 code_info_and_inlined f_sym table-IsSortedBy (omega arith)
      find_sym_f

abbrev around : List Range
around = record { start = 0x1020; end = 0x1030 } ∷ []

-- "g", which is called in line 11 of the first file
abbrev inner : InlineInfo
inner = inline_info 3 (some 1) (some 11) around none_left

abbrev outer : InlineInfo
outer = inline_info 1 none none around (child inner none_left)

push_frames-moved_up_example :
    push_frames ctx (inner ∷ []) (record { inlined = []; line_info = code_at 10 })
    ≡ (read_frames ctx (inner ∷ []) >>= λ reads. ok (moved_up reads (code_at 10)))
push_frames-moved_up_example = push_frames-moved_up ctx (inner ∷ []) (code_at 10)

inline_stack-frames_example : All (IsFrame 0x1021) (outer ∷ inner ∷ [])
unfolding inline_stack
inline_stack-frames_example = inline_stack-frames outer 0x1021

parse_all-ne-stuck_example :
    (parse_all 0x1020 (some 0x1021) (slice 0 (1 ∷ 0 ∷ 16 ∷ 0 ∷ 1 ∷ 0 ∷ 0 ∷ 0 ∷ []))).0 ≢ stuck
parse_all-ne-stuck_example =
    parse_all-ne-stuck 0x1020 (some 0x1021) (slice 0 (1 ∷ 0 ∷ 16 ∷ 0 ∷ 1 ∷ 0 ∷ 0 ∷ 0 ∷ []))

abbrev row_at : ℕ → ℕ → LineTableRow
row_at addr line = record { addr = addr; file_idx = 1; file_line = line }

line_found : parse_line_tab_info (slice 0 line_table) 0x1020 0x1021 ≡ ok (some (row_at 0x1020 10))
unfolding parse_line_tab_info parse read_i64_leb128 read_u64_leb128 run_op read_u8 from_header
line_found = refl

parse_line_tab_info-le_example : 0x1020 ≤ 0x1021
parse_line_tab_info-le_example =
    parse_line_tab_info-le (slice 0 line_table) 0x1020 0x1021 (row_at 0x1020 10) line_found

-- the steps from -1 to 1
abbrev steps : LineTableHeader
steps = record { min_delta = 0xffffffffffffffff; max_delta = 1; first_line = 10 }

run_special_lem_example : run_special 12 (row_at 0x1020 10) steps ≡ (some new_row, row_at 0x1022 11)
unfolding run_special
run_special_lem_example =
    run_special_lem 3 2 2 (row_at 0x1020 10) steps (omega arith) (omega arith) refl (omega arith)
      (omega arith) (omega arith)
