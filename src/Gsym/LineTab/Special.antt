-- ===== src/Gsym/LineTab/Special.antt =====
-- A special operator undoes the encoder's packing of a line step and an address step in one byte.
use blazesym.Common.{ℕ, ◌+◌, ◌-◌, ◌*◌, ◌/◌, ◌%◌, ◌^◌, ◌<◌, ◌≡◌, some, arith}
use blazesym.Gsym.LineTab.{
  LineTableHeader, LineTableRow, new_row, move_row, run_special, add64, sub64, first_special,
}

-- The opcode for a line step `lines` above the least one, and an address step.
abbrev pub special_op : (range lines step : ℕ) → ℕ
special_op range lines step = first_special + (lines + range * step)

unpack :
    (range lines step : ℕ)
    → lines < range
    → ((lines + range * step) % range ≡ lines) × ((lines + range * step) / range ≡ step)
unpack range lines step h = (grind arith, grind arith)

width :
    (range lo hi : ℕ)
    → 0 < range
    → range < 2 ^ 63
    → hi ≡ add64 lo (range - 1)
    → lo < 2 ^ 64
    → add64 (sub64 hi lo) 1 ≡ range
width range lo hi h0 hr e h = omega arith

move_row_lem :
    (range lines step : ℕ) (row : LineTableRow) (header : LineTableHeader)
    → 0 < range
    → range < 2 ^ 63
    → header.min_delta < 2 ^ 64
    → lines < range
    → move_row (lines + range * step) range row header ≡ (
      some new_row,
      record row {
        addr = add64 row.addr step;
        file_line = (row.file_line + (header.min_delta + lines)) % 2 ^ 32;
      },
    )
unfolding move_row
move_row_lem range lines step row header h0 hr hmin hl = ground (arith, unpack range lines step hl)

-- A special operator undoes the packing of a line step and an address step in one byte: where the
-- header's range of line steps has between 1 and 2^63 - 1 members, counted with wrap-around, the
-- operator for the step `lines` above the least one and the address step `step` adds both to the
-- row, wrapped to their widths, and makes a new row.
pub run_special_lem :
    (range lines step : ℕ) (row : LineTableRow) (header : LineTableHeader)
    → 0 < range
    → range < 2 ^ 63
    → header.max_delta ≡ add64 header.min_delta (range - 1)
    → header.min_delta < 2 ^ 64
    → lines < range
    → special_op range lines step < 256
    → run_special (special_op range lines step) row header ≡ (
      some new_row,
      record row {
        addr = add64 row.addr step;
        file_line = (row.file_line + (header.min_delta + lines)) % 2 ^ 32;
      },
    )
unfolding run_special
run_special_lem range lines step row header h0 hr hmax hmin hl hop =
    let adjusted : special_op range lines step - first_special ≡ lines + range * step =
      omega arith in
    rw (adjusted, width range header.min_delta header.max_delta h0 hr hmax hmin, run_special)
      (move_row_lem range lines step row header h0 hr hmin hl)
