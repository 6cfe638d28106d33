-- ===== src/Gsym/LineTab.antt =====
-- src/gsym/linetab.rs: the machine that runs the opcodes of a line table. An `i64` is its bit
-- pattern, and all sums wrap.
pub mod Special
pub mod Consume
use blazesym.Common.{
  ℕ, ◌+◌, ◌-◌, ◌/◌, ◌%◌, ◌^◌, Bool, true, false, Option, none, some, ltb, ◌==◌, if◌then◌else◌,
}
use blazesym.Util.Slice.{Slice, Read, ◌>>=◌, pure, read_u8}
use blazesym.Util.Leb128.{read_u64_leb128, read_i64_leb128}

abbrev pub end_sequence : ℕ
end_sequence = 0x00

abbrev pub set_file : ℕ
set_file = 0x01

abbrev pub advance_pc : ℕ
advance_pc = 0x02

abbrev pub advance_line : ℕ
advance_line = 0x03

abbrev pub first_special : ℕ
first_special = 0x04

-- `Ok`, `NewRow` and `End`.
pub data RunResult : Type 0 where
  ok new_row end : RunResult

pub record LineTableHeader : Type 0 where
  pub min_delta : ℕ
  pub max_delta : ℕ
  pub first_line : ℕ

pub record LineTableRow : Type 0 where
  pub addr : ℕ
  pub file_idx : ℕ
  pub file_line : ℕ

-- `LineTableHeader::parse`.
unfoldable pub parse : Read LineTableHeader
parse = do
  min_delta ← read_i64_leb128
  max_delta ← read_i64_leb128
  first_line ← read_u64_leb128
  pure (record { min_delta = min_delta; max_delta = max_delta; first_line = first_line % 2 ^ 32 })

unfoldable pub from_header : LineTableHeader → (symaddr : ℕ) → LineTableRow
from_header header symaddr = record { addr = symaddr; file_idx = 1; file_line = header.first_line }

abbrev pub add64 : ℕ → ℕ → ℕ
add64 a b = (a + b) % 2 ^ 64

abbrev pub sub64 : ℕ → ℕ → ℕ
sub64 a b = (a + 2 ^ 64 - b) % 2 ^ 64

-- `%` and `/` of an `i64` that is not negative by an `i64` that is not zero: they round to zero.
abbrev pub rem64 : ℕ → ℕ → ℕ
rem64 a b = if ltb b (2 ^ 63) then a % b else a % (2 ^ 64 - b)

abbrev pub div64 : ℕ → ℕ → ℕ
div64 a b = if ltb b (2 ^ 63) then a / b else sub64 0 (a / (2 ^ 64 - b))

-- The special operators, which move line and address at once: the steps are the remainder and the
-- quotient of the adjusted opcode by the range of line steps.
unfoldable pub move_row :
    (adjusted range : ℕ) → LineTableRow → LineTableHeader → Option RunResult × LineTableRow
move_row adjusted range row header =
    let line_delta = add64 header.min_delta (rem64 adjusted range) in
    let addr_delta = div64 adjusted range in
    if range == 0 then (none, row) else (
      some new_row,
      record row {
        addr = add64 row.addr addr_delta;
        file_line = (row.file_line % 2 ^ 32 + line_delta % 2 ^ 32) % 2 ^ 32;
      },
    )

unfoldable pub run_special :
    (op : ℕ) → LineTableRow → LineTableHeader → Option RunResult × LineTableRow
unfolding move_row
run_special op row header =
    move_row (op - first_special) (add64 (sub64 header.max_delta header.min_delta) 1) row header

-- Run `f` on what was read. On a failure the row stays as it is.
abbrev pub on_read :
    {A : Type 0}
    → LineTableRow
    → Option A × Slice
    → (A → Option RunResult × LineTableRow)
    → Option RunResult × LineTableRow × Slice
on_read row (none, ops) f = (none, row, ops)
on_read row (some a, ops) f = let (result, row') = f a in (result, row', ops)

-- The arms of `match op`.
unfoldable pub run_opcode :
    (op : ℕ) → LineTableRow → LineTableHeader → Slice → Option RunResult × LineTableRow × Slice
unfolding run_special
run_opcode op row header ops =
    if op == end_sequence
    then (some end, row, ops)
    else if op == set_file
    then on_read row (read_u64_leb128 ops) (λ f. (some ok, record row { file_idx = f % 2 ^ 32 }))
    else if op == advance_pc
    then on_read row (read_u64_leb128 ops)
        (λ adv. (some new_row, record row { addr = add64 row.addr adv }))
    else if op == advance_line
    then on_read row (read_i64_leb128 ops)
        (λ adv. (some ok, record row { file_line = add64 row.file_line adv % 2 ^ 32 }))
    else on_read row (some tt, ops) (λ _. run_special op row header)

pub run_read :
    Option ℕ × Slice → LineTableRow → LineTableHeader → Option RunResult × LineTableRow × Slice
unfolding run_opcode
run_read (none, ops) row header = (none, row, ops)
run_read (some op, ops) row header = run_opcode op row header ops

unfoldable pub run_op :
    LineTableRow → LineTableHeader → Slice → Option RunResult × LineTableRow × Slice
unfolding run_read
run_op row header ops = run_read (read_u8 ops) row header
