-- ===== src/Gsym/LineTab/Consume.antt =====
-- Each operator takes at least its opcode, and keeps to the slice of operators.
use blazesym.Common.{
  ℕ, suc, ◌+◌, ◌<◌, ◌≡◌, refl, Option, none, some, List, [], ◌∷◌, arith, length, ◌==◌, Bool-cases,
  inl, inr, le→ltb,
}
use blazesym.Util.Slice.{Slice, slice, read_u8}
use blazesym.Util.Rest.{
  IsRest, IsRest-refl, IsRest-length, read_u64_leb128-Keeps, read_i64_leb128-Keeps,
}
use blazesym.Util.Leb128.{read_u64_leb128, read_i64_leb128}
use blazesym.Gsym.LineTab.{
  RunResult, LineTableHeader, LineTableRow, run_op, run_opcode, on_read, end_sequence, set_file,
  advance_pc, advance_line,
}

on_read-IsRest :
    {A : Type 0} (s : Slice) (row : LineTableRow) (r : Option A × Slice)
    (f : A → Option RunResult × LineTableRow)
    → IsRest s r.1
    → IsRest s (on_read row r f).2
on_read-IsRest s row (none, t) f h = h
on_read-IsRest s row (some a, t) f h = h

run_opcode-IsRest :
    (op : ℕ) (row : LineTableRow) (header : LineTableHeader) (ops : Slice)
    → IsRest ops (run_opcode op row header ops).2
unfolding run_opcode
run_opcode-IsRest op row header ops = elim (Bool-cases (op == end_sequence)) [
  | inl a ↦ rw a (IsRest-refl ops)
  | inr a ↦ elim (Bool-cases (op == set_file)) [
    | inl b ↦ rw (a, b) (on_read-IsRest ops row (read_u64_leb128 ops) _ (read_u64_leb128-Keeps ops))
    | inr b ↦ elim (Bool-cases (op == advance_pc)) [
      | inl c ↦
          rw (a, b, c) (on_read-IsRest ops row (read_u64_leb128 ops) _ (read_u64_leb128-Keeps ops))
      | inr c ↦ elim (Bool-cases (op == advance_line)) [
        | inl d ↦
            rw (a, b, c, d)
              (on_read-IsRest ops row (read_i64_leb128 ops) _ (read_i64_leb128-Keeps ops))
        | inr d ↦ rw (a, b, c, d) (IsRest-refl ops)
      ]
    ]
  ]
]

read_u8-cons :
    (addr b : ℕ) (bs : List ℕ) → read_u8 (slice addr (b ∷ bs)) ≡ (some b, slice (addr + 1) bs)
unfolding read_u8
read_u8-cons addr b bs = rw (le→ltb (suc (length bs)) 1 (omega arith)) (ground arith)

read_u8-nil : (addr : ℕ) → read_u8 (slice addr []) ≡ (none, slice addr [])
unfolding read_u8
read_u8-nil addr = refl

-- With a byte left, `run_op` takes that byte, and what it leaves is a rest of the slice behind it,
-- at the right address, whatever the outcome.
run_op-IsRest :
    (row : LineTableRow) (header : LineTableHeader) (addr b : ℕ) (bs : List ℕ)
    → IsRest (slice (addr + 1) bs) (run_op row header (slice addr (b ∷ bs))).2
unfolding run_op
run_op-IsRest row header addr b bs =
    rw (read_u8-cons addr b bs, run_op) (run_opcode-IsRest b row header (slice (addr + 1) bs))

length-run_op :
    (row : LineTableRow) (header : LineTableHeader) (addr b : ℕ) (bs : List ℕ)
    → length ((run_op row header (slice addr (b ∷ bs))).2).bytes < length (b ∷ bs)
length-run_op row header addr b bs =
    omega (arith, IsRest-length (slice (addr + 1) bs) _ (run_op-IsRest row header addr b bs))
