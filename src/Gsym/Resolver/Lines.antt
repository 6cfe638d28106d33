-- ===== src/Gsym/Resolver/Lines.antt =====
-- A line table row that is reported starts at the address that was asked for, or in front of it.
use blazesym.Common.{
  ℕ, zero, suc, ◌≤◌, ◌≡◌, refl, ◌⊎◌, inl, inr, Option, none, some, arith, ltb, ◌==◌, length,
  Bool-cases, ltb→le,
}
use blazesym.Common.Outcome.{ok, ok_or_invalid_data, >>=-eq-ok}
use blazesym.Util.Slice.{Slice, read_u8}
use blazesym.Util.Leb128.{read_u64_leb128, read_i64_leb128}
use blazesym.Gsym.LineTab.{
  RunResult, LineTableHeader, LineTableRow, new_row, end, parse, from_header, run_op, run_read,
  run_opcode, on_read, end_sequence, set_file, advance_pc, advance_line, move_row,
}
use blazesym.Gsym.Resolver.{
  LineStep, halt, go_on, line_step, line_loop, finish, parse_line_tab_info,
}

-- Only an operator that makes a row moves the address.
abbrev KeepsAddr : LineTableRow → Option RunResult × LineTableRow × Slice → Type 0
KeepsAddr row r = (r.0 ≡ some new_row) ⊎ (r.1.addr ≡ row.addr)

on_read-KeepsAddr :
    {A : Type 0} (row : LineTableRow) (r : Option A × Slice)
    (f : A → Option RunResult × LineTableRow)
    → ((a : A) → ((f a).0 ≡ some new_row) ⊎ ((f a).1.addr ≡ row.addr))
    → KeepsAddr row (on_read row r f)
on_read-KeepsAddr row (none, t) f h = inr refl
on_read-KeepsAddr row (some a, t) f h = h a

move_row-KeepsAddr :
    (adjusted range : ℕ) (row : LineTableRow) (header : LineTableHeader)
    → ((move_row adjusted range row header).0 ≡ some new_row)
      ⊎ ((move_row adjusted range row header).1.addr ≡ row.addr)
unfolding move_row
move_row-KeepsAddr adjusted range row header = elim (Bool-cases (range == 0)) [
  | inl t ↦ inr (rw (t, move_row) refl)
  | inr t ↦ inl (rw (t, move_row) refl)
]

run_opcode-KeepsAddr :
    (op : ℕ) (row : LineTableRow) (header : LineTableHeader) (ops : Slice)
    → KeepsAddr row (run_opcode op row header ops)
unfolding run_opcode
run_opcode-KeepsAddr op row header ops = elim (Bool-cases (op == end_sequence)) [
  | inl a ↦ rw a (inr refl)
  | inr a ↦ elim (Bool-cases (op == set_file)) [
    | inl b ↦ rw (a, b) (on_read-KeepsAddr row (read_u64_leb128 ops) _ (λ f. inr refl))
    | inr b ↦ elim (Bool-cases (op == advance_pc)) [
      | inl c ↦ rw (a, b, c) (on_read-KeepsAddr row (read_u64_leb128 ops) _ (λ f. inl refl))
      | inr c ↦ elim (Bool-cases (op == advance_line)) [
        | inl d ↦ rw (a, b, c, d) (on_read-KeepsAddr row (read_i64_leb128 ops) _ (λ f. inr refl))
        | inr d ↦ rw (a, b, c, d) (move_row-KeepsAddr _ _ row header)
      ]
    ]
  ]
]

run_op-KeepsAddr :
    (row : LineTableRow) (header : LineTableHeader) (ops : Slice)
    → KeepsAddr row (run_op row header ops)
unfolding run_op
run_op-KeepsAddr row header ops = read (read_u8 ops)
  where
    read : (r : Option ℕ × Slice) → KeepsAddr row (run_read r row header)
    read (none, t) = inr refl
    read (some op, t) = run_opcode-KeepsAddr op row header t

-- before a round: no row so far, or the registers and the last row are not past the address
abbrev IsReady : (addr : ℕ) → (row last_row : LineTableRow) → (row_cnt : ℕ) → Type 0
IsReady addr row last_row row_cnt = (row_cnt ≡ 0) ⊎ ((row.addr ≤ addr) × (last_row.addr ≤ addr))

finish-le :
    (addr : ℕ) (row last_row : LineTableRow) (cnt : ℕ) (r : LineTableRow)
    → IsReady addr row last_row cnt
    → finish cnt row ≡ some r
    → r.addr ≤ addr
finish-le addr row last_row cnt r ready h = ground (arith, h)

-- a step halts with a row that is not past the address, or leaves the loop ready
abbrev StepIsGood : (addr : ℕ) → LineTableRow → LineStep → Type 0
StepIsGood addr row (halt result) = (r : LineTableRow) → result ≡ some r → r.addr ≤ addr
StepIsGood addr row (go_on last_row cnt) = IsReady addr row last_row cnt

line_step-good :
    (addr : ℕ) (result : Option RunResult) (row row' last_row : LineTableRow) (cnt : ℕ)
    → IsReady addr row last_row cnt
    → (result ≡ some new_row) ⊎ (row'.addr ≡ row.addr)
    → StepIsGood addr row' (line_step addr result row' last_row cnt)
unfolding line_step
line_step-good addr none row row' last_row cnt ready keeps = λ r h. ground (arith, h)
line_step-good addr (some RunResult.ok) row row' last_row cnt ready keeps = ground arith
line_step-good addr (some end) row row' last_row cnt ready keeps = λ r h. ground (arith, h)
line_step-good addr (some new_row) row row' last_row cnt ready keeps =
    elim (Bool-cases (ltb addr row'.addr)) [
      | inr t ↦ rw (t, line_step) (inr (ltb→le addr row'.addr t, ltb→le addr row'.addr t))
      | inl t ↦ rw (t, line_step) (λ r h. ground (arith, h))
    ]

line_loop-le :
    (fuel addr : ℕ) (header : LineTableHeader) (row last_row : LineTableRow) (cnt : ℕ) (s : Slice)
    → IsReady addr row last_row cnt
    → (r : LineTableRow) → line_loop fuel addr header row last_row cnt s ≡ some r
    → r.addr ≤ addr
unfolding line_loop
line_loop-le zero addr header row last_row cnt s ready r h =
    finish-le addr row last_row cnt r ready h
line_loop-le (suc fuel) addr header row last_row cnt s ready r h =
    elim (Bool-cases (length s.bytes == 0)) [
      | inl e ↦ finish-le addr row last_row cnt r ready (rw (e, line_loop) at h)
      | inr e ↦
          let st : Option RunResult × LineTableRow × Slice = run_op row header s in
          step (line_step addr st.0 st.1 last_row cnt)
            (line_step-good addr st.0 row st.1 last_row cnt ready (run_op-KeepsAddr row header s))
            (λ last' cnt' ready'. line_loop-le fuel addr header st.1 last' cnt' st.2 ready' r)
            (rw (e, line_loop) at h)
    ]
  where
    step :
        (t : LineStep)
        → StepIsGood addr (run_op row header s).1 t
        → ((last' : LineTableRow) (cnt' : ℕ)
            → IsReady addr (run_op row header s).1 last' cnt'
            → line_loop fuel addr header (run_op row header s).1 last' cnt' (run_op row header s).2
              ≡ some r
            → r.addr ≤ addr)
        → (elim t as (λ (u : LineStep). Option LineTableRow) [
          | halt result ↦ result
          | go_on last' cnt' ↦
              line_loop fuel addr header (run_op row header s).1 last' cnt' (run_op row header s).2
        ])
          ≡ some r
        → r.addr ≤ addr
    step (halt result) good rec q = good r q
    step (go_on last' cnt') good rec q = rec last' cnt' good q

ok-injective : {A : Type 0} {a b : A} → ok a ≡ ok b → a ≡ b
ok-injective h = cc

-- A row that `parse_line_tab_info` reports for an address does not start behind the address.
pub parse_line_tab_info-le :
    (s : Slice) (symaddr addr : ℕ) (r : LineTableRow)
    → parse_line_tab_info s symaddr addr ≡ ok (some r)
    → r.addr ≤ addr
unfolding parse_line_tab_info
parse_line_tab_info-le s symaddr addr r h =
    let (header, hh, h') = >>=-eq-ok (ok_or_invalid_data (parse s).0) _ h in
    let row : LineTableRow = from_header header symaddr in
    line_loop-le (length (parse s).1.bytes) addr header row row 0 (parse s).1 (inl refl) r
      (ok-injective h')
