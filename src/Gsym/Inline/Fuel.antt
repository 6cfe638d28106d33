-- ===== src/Gsym/Inline/Fuel.antt =====
-- The parser of inline information ends on every input: its fuel suffices.
use blazesym.Common.{
  ℕ, zero, suc, ◌+◌, ◌-◌, ◌*◌, ◌≤◌, ◌<◌, ◌≢◌, Bool, true, false, Option, none, some, List, [], ◌∷◌,
  ◌++◌, arith, length, leb, ◌==◌, if◌then◌else◌, Bool-cases, inl, inr,
}
use blazesym.Common.Outcome.{ErrorKind, Outcome, ok, err, stuck}
use blazesym.Util.Slice.{Slice, Read, read_u8, read_u32}
use blazesym.Util.Leb128.{read_u64_leb128}
use blazesym.Util.Rest.{
  Takes, Keeps, IsRest-length, read_u8-Keeps, read_u32-Keeps, read_u64_leb128-Keeps,
  read_u64_leb128-Takes,
}
use blazesym.Gsym.Inline.{
  Parse, pass_on, ◌>>=◌, pure, fail, reading, or_invalid_data, checked_add, parse_range,
  parse_ranges, skip_ranges, parse_range_block, parse_call, parse_head, parse, parse_children,
  parse_all, enough_fuel, Range, is_empty, u32_max, contains,
}

-- The parse does not run out of fuel, and leaves fewer than `n` bytes where it succeeds.
abbrev Leaves : {A : Type 0} → ℕ → Outcome A × Slice → Type 0
Leaves n (stuck, t) = ⊥
Leaves n (err e, t) = Unit {0}
Leaves n (ok a, t) = length t.bytes < n

-- A parser that leaves no more than it was given.
abbrev Shrinks : {A : Type 0} → Parse A → Type 0
Shrinks m = (n : ℕ) (s : Slice) → length s.bytes < n → Leaves n (m s)

pass_on-Leaves :
    {A B : Type 0} (n k : ℕ) (r : Outcome A × Slice) (f : A → Parse B)
    → Leaves n r
    → ((a : A) (t : Slice) → length t.bytes < n → Leaves k (f a t))
    → Leaves k (pass_on r f)
pass_on-Leaves n k (stuck, t) f h g = h
pass_on-Leaves n k (err e, t) f h g = tt
pass_on-Leaves n k (ok a, t) f h g = g a t h

>>=-Shrinks :
    {A B : Type 0} (m : Parse A) (f : A → Parse B)
    → Shrinks m
    → ((a : A) → Shrinks (f a))
    → Shrinks (m >>= f)
>>=-Shrinks m f h g n s b = pass_on-Leaves n n (m s) f (h n s b) (λ a t. g a n t)

reading-Leaves :
    {A : Type 0} (n : ℕ) (r : Option A × Slice)
    → length r.1.bytes < n
    → Leaves n (or_invalid_data r)
reading-Leaves n (none, t) h = tt
reading-Leaves n (some a, t) h = h

reading-Shrinks : {A : Type 0} (m : Read A) → Keeps m → Shrinks (reading m)
reading-Shrinks m k n s b = reading-Leaves n (m s) (omega (arith, IsRest-length s (m s).1 (k s)))

reading-Leaves_less :
    {A : Type 0} (k n : ℕ) (r : Option A × Slice) → k ≤ n → Takes k r → Leaves n (or_invalid_data r)
reading-Leaves_less k n (none, t) b h = tt
reading-Leaves_less k n (some a, t) b h = omega arith

pure-Shrinks : {A : Type 0} (a : A) → Shrinks (pure a)
pure-Shrinks a n s b = b

leb128-Shrinks : Shrinks (reading read_u64_leb128)
leb128-Shrinks = reading-Shrinks read_u64_leb128 read_u64_leb128-Keeps

or_fail-Shrinks :
    {A : Type 0} (c : Bool) (a : A) (e : ErrorKind) → Shrinks (if c then pure a else fail e)
or_fail-Shrinks true a e n s b = b
or_fail-Shrinks false a e n s b = tt

parse_range-Shrinks : (base_addr : ℕ) → Shrinks (parse_range base_addr)
unfolding parse_range
parse_range-Shrinks base_addr = >>=-Shrinks (reading read_u64_leb128) _ leb128-Shrinks λ offset.
    >>=-Shrinks (reading read_u64_leb128) _ leb128-Shrinks λ size.
      >>=-Shrinks (checked_add base_addr offset) _ (or_fail-Shrinks _ _ _)
        λ start. >>=-Shrinks (checked_add start size) _ (or_fail-Shrinks _ _ _) λ end. λ n s b. b

parse_ranges-Shrinks :
    (rounds i base lookup child_base : ℕ) (found : List Range)
    → Shrinks (parse_ranges rounds i base lookup child_base found)
unfolding parse_ranges
parse_ranges-Shrinks zero i base lookup child_base found = λ n s b. b
parse_ranges-Shrinks (suc r) i base lookup child_base found =
    >>=-Shrinks (parse_range base) _ (parse_range-Shrinks base) λ range.
      parse_ranges-Shrinks r (i + 1) base lookup (if i == 0 then range.start else child_base)
        (if contains range lookup then found ++ (range ∷ []) else found)

skip_ranges-Shrinks : (rounds : ℕ) → Shrinks (skip_ranges rounds)
unfolding skip_ranges
skip_ranges-Shrinks zero = pure-Shrinks tt
skip_ranges-Shrinks (suc r) =
    >>=-Shrinks (reading read_u64_leb128) _ leb128-Shrinks
      λ a. >>=-Shrinks (reading read_u64_leb128) _ leb128-Shrinks λ b. skip_ranges-Shrinks r

parse_range_block-Shrinks :
    (rounds base : ℕ) (lookup : Option ℕ) → Shrinks (parse_range_block rounds base lookup)
unfolding parse_range_block
parse_range_block-Shrinks rounds base none =
    >>=-Shrinks (skip_ranges rounds) _ (skip_ranges-Shrinks rounds) λ a n s b. b
parse_range_block-Shrinks rounds base (some a) = parse_ranges-Shrinks rounds 0 base a 0 []

parse_call-Shrinks : (lookup : Option ℕ) → Shrinks (parse_call lookup)
unfolding parse_call
parse_call-Shrinks none =
    >>=-Shrinks (reading read_u64_leb128) _ leb128-Shrinks
      λ a. >>=-Shrinks (reading read_u64_leb128) _ leb128-Shrinks λ b n s h. h
parse_call-Shrinks (some x) = >>=-Shrinks (reading read_u64_leb128) _ leb128-Shrinks λ a.
    >>=-Shrinks (if leb a u32_max then pure a else fail _) _ (or_fail-Shrinks _ _ _)
      λ a'. >>=-Shrinks (reading read_u64_leb128) _ leb128-Shrinks λ b n s h. h

parse_head-Shrinks : (cnt base : ℕ) (lookup : Option ℕ) → Shrinks (parse_head cnt base lookup)
unfolding parse_head
parse_head-Shrinks cnt base lookup =
    >>=-Shrinks (parse_range_block cnt base lookup) _ (parse_range_block-Shrinks cnt base lookup)
      λ p. >>=-Shrinks (reading read_u8) _ (reading-Shrinks read_u8 read_u8-Keeps) λ c.
        >>=-Shrinks (reading read_u32) _ (reading-Shrinks read_u32 read_u32-Keeps)
          λ m. >>=-Shrinks (parse_call lookup) _ (parse_call-Shrinks lookup) λ q n s h. h

mutual
  unfolding parse parse_children

  -- `parse` takes a byte at least where it succeeds.
  parse-Leaves :
      (fuel base : ℕ) (lookup : Option ℕ) (n : ℕ) (s : Slice)
      → length s.bytes ≤ n
      → 2 * n + 1 ≤ fuel
      → Leaves n (parse fuel base lookup s)
  parse-Leaves zero base lookup n s b f = absurd (omega arith)
  parse-Leaves (suc fuel) base lookup n s b f =
      pass_on-Leaves n n (reading read_u64_leb128 s) _
        (reading-Leaves_less (length s.bytes) n (read_u64_leb128 s) b (read_u64_leb128-Takes s))
        λ cnt t ht. elim (Bool-cases (cnt == 0)) [
          | inl z ↦ rw z ht
          | inr z ↦ rw z (
              pass_on-Leaves n n (parse_head cnt base lookup t) _
                (parse_head-Shrinks cnt base lookup n t ht)
                λ head u hu. elim (Bool-cases (head.child_cnt == 0)) [
                  | inl c ↦ rw c hu
                  | inr c ↦ elim (Bool-cases (is_empty head.found)) [
                    | inl e ↦
                        rw (c, e)
                          (pass_on-Leaves n n (parse_children fuel head.child_base_addr none u) _
                            (parse_children-Leaves fuel head.child_base_addr none n u hu
                              (omega arith))
                            (λ kids v hv. hv))
                    | inr e ↦
                        rw (c, e)
                          (pass_on-Leaves n n (parse_children fuel head.child_base_addr lookup u) _
                            (parse_children-Leaves fuel head.child_base_addr lookup n u hu
                              (omega arith))
                            (λ kids v hv. hv))
                  ]
                ])
        ]

  parse_children-Leaves :
      (fuel base : ℕ) (lookup : Option ℕ) (n : ℕ) (s : Slice)
      → length s.bytes < n
      → 2 * n ≤ fuel
      → Leaves n (parse_children fuel base lookup s)
  parse_children-Leaves zero base lookup n s b f = absurd (omega arith)
  parse_children-Leaves (suc fuel) base lookup n s b f =
      pass_on-Leaves (n - 1) n (parse fuel base lookup s) _
        (parse-Leaves fuel base lookup (n - 1) s (omega arith) (omega arith))
        (elim [
          | none ↦ λ t ht. omega arith
          | some info ↦ λ t ht.
              pass_on-Leaves (n - 1) n (parse_children fuel base lookup t) _
                (parse_children-Leaves fuel base lookup (n - 1) t ht (omega arith))
                (λ kids v hv. omega arith)
        ])

Leaves→ne-stuck : {A : Type 0} (n : ℕ) (r : Outcome A × Slice) → Leaves n r → r.0 ≢ stuck
Leaves→ne-stuck n (stuck, t) h e = h
Leaves→ne-stuck n (err x, t) h e = cc
Leaves→ne-stuck n (ok a, t) h e = cc

-- Parsing an inline tree ends on every input, with a result or with an error of the source: the
-- fuel that the length of the slice gives is enough.
pub parse_all-ne-stuck :
    (base : ℕ) (lookup : Option ℕ) (s : Slice) → (parse_all base lookup s).0 ≢ stuck
unfolding parse_all
parse_all-ne-stuck base lookup s =
    Leaves→ne-stuck (length s.bytes) (parse (enough_fuel s) base lookup s)
      (parse-Leaves (enough_fuel s) base lookup (length s.bytes) s (omega arith) (omega arith))
