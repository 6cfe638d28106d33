-- ===== src/Zip/Scan.antt =====
-- The loop of `find_cd` of src/zip.rs over the offsets of the end of central directory record.
use blazesym.Common.{
  ℕ, zero, suc, ◌+◌, ◌-◌, ◌*◌, ◌^◌, ◌≤◌, ◌<◌, ◌≡◌, refl, ◌∙◌, Option, none, some, leb, leb→le,
  le→leb, length, ap, arith, Bool-cases, inl, inr, ◌⊎◌,
}
use blazesym.Common.Outcome.{Outcome, ok, err, stuck, invalid_data}
use blazesym.Util.Slice.{Slice}
use blazesym.Zip.{try_at, round, check_range, find_cd_loop, find_cd, scan_start, scan_end}
use blazesym.Zip.Format.{end_of_cd_record_size, cd_file_header_size}

-- No record at the offsets behind `offset` up to `last`.
abbrev pub NoneBehind : Slice → (offset last : ℕ) → Type 0
NoneBehind input offset last = (k : ℕ) → offset < k → k ≤ last → try_at k input ≡ none

-- `offset` is the last that holds a record, `r` is what parsing it gives.
abbrev pub IsLastRecord : Slice → (first last offset : ℕ) → Outcome (ℕ × ℕ) → Type 0
IsLastRecord input first last offset r =
    (first ≤ offset)
    × (offset ≤ last)
    × (try_at offset input ≡ some r)
    × NoneBehind input offset last

-- The headers of `cd_records` files at `cd_offset` are inside the data.
abbrev pub IsInBounds : Slice → ℕ × ℕ → Type 0
IsInBounds input cd = cd.0 + cd.1 * cd_file_header_size ≤ length input.bytes

first : Outcome (ℕ × ℕ) → ℕ
first (ok cd) = cd.0
first (err e) = 0
first stuck = 0

second : Outcome (ℕ × ℕ) → ℕ
second (ok cd) = cd.1
second (err e) = 0
second stuck = 0

moved :
    (o n o2 n2 size : ℕ)
    → o ≡ o2
    → n ≡ n2
    → o + n * cd_file_header_size ≤ size
    → o2 + n2 * cd_file_header_size ≤ size
moved o n o2 n2 size p q h = omega arith

round-ok :
    (input : Slice) (rest : Outcome (ℕ × ℕ)) (r : Option (Outcome (ℕ × ℕ))) (cd : ℕ × ℕ)
    → round input rest r ≡ ok cd
    → ((r ≡ none) × (rest ≡ ok cd)) ⊎ ((r ≡ some (ok cd)) × IsInBounds input cd)
unfolding round check_range first second
round-ok input rest none cd h = inl (refl, h)
round-ok input rest (some (ok (o, n))) (o2, n2) h =
    elim (Bool-cases (leb (o + n * cd_file_header_size) (length input.bytes))) [
      | inl t ↦
          (let e = rw t at h in
            inr (
              ap (λ (x : Outcome (ℕ × ℕ)). some x) e,
              moved o n o2 n2 (length input.bytes) (ap first e) (ap second e)
                  (leb→le (o + n * cd_file_header_size) (length input.bytes) t),
            ))
      | inr t ↦ absurd (let e = rw t at h in cc)
    ]
round-ok input rest (some (err e)) cd h = cc
round-ok input rest (some stuck) cd h = cc

NoneBehind-next :
    (input : Slice) (offset last next : ℕ)
    → next ≡ suc last
    → try_at next input ≡ none
    → NoneBehind input offset last
    → NoneBehind input offset next
NoneBehind-next input offset last next e n behind k p q = elim (Bool-cases (leb k last)) [
  | inl t ↦ behind k p (leb→le k last t)
  | inr t ↦ (let at_next : k ≡ next = ground arith in rw at_next n)
]

find_cd_loop-ok :
    (input : Slice) (start n : ℕ) (cd : ℕ × ℕ)
    → find_cd_loop input start n ≡ ok cd
    → ((offset : ℕ) × IsLastRecord input start (start + n) offset (ok cd)) × IsInBounds input cd
unfolding find_cd_loop
find_cd_loop-ok input start zero cd h =
    elim (round-ok input (err invalid_data) (try_at start input) cd h) [
      | inl (n, e) ↦ cc
      | inr (s, b) ↦ ((start, (omega arith, omega arith, s, λ k p q. absurd (omega arith))), b)
    ]
find_cd_loop-ok input start (suc n) cd h =
    elim (round-ok input (find_cd_loop input start n) (try_at (start + suc n) input) cd h) [
      | inl (none_here, e) ↦
          let ((offset, (lo, hi, found, behind)), b) = find_cd_loop-ok input start n cd e in
          (
            (
              offset,
              (
                lo,
                omega arith,
                found,
                NoneBehind-next input offset (start + n) (start + suc n) (omega arith) none_here
                    behind,
              ),
            ),
            b,
          )
      | inr (s, b) ↦
          ((start + suc n, (omega arith, omega arith, s, λ k p q. absurd (omega arith))), b)
    ]

round-some :
    (input : Slice) (rest other : Outcome (ℕ × ℕ)) (r : Outcome (ℕ × ℕ))
    → round input rest (some r) ≡ round input other (some r)
unfolding round
round-some input rest other (ok cd) = refl
round-some input rest other (err e) = refl
round-some input rest other stuck = refl

round_here :
    (input : Slice) (rest : Outcome (ℕ × ℕ)) (k offset : ℕ) (r : Outcome (ℕ × ℕ))
    → k ≡ offset
    → try_at offset input ≡ some r
    → round input rest (try_at k input) ≡ round input (err invalid_data) (some r)
round_here input rest k offset r e found =
    ap (λ (j : ℕ). round input rest (try_at j input)) e
    ∙ ap (round input rest) found
    ∙ round-some input rest (err invalid_data) r

find_cd_loop_lem :
    (input : Slice) (start n offset : ℕ) (r : Outcome (ℕ × ℕ))
    → IsLastRecord input start (start + n) offset r
    → find_cd_loop input start n ≡ round input (err invalid_data) (some r)
unfolding find_cd_loop
find_cd_loop_lem input start zero offset r (lo, hi, found, behind) =
    round_here input (err invalid_data) start offset r (omega arith) found
find_cd_loop_lem input start (suc n) offset r (lo, hi, found, behind) =
    elim (Bool-cases (leb offset (start + n))) [
      | inl t ↦
          ap (round input (find_cd_loop input start n))
            (behind (start + suc n) (ground arith) (omega arith))
          ∙ find_cd_loop_lem input start n offset r
              (lo, leb→le offset (start + n) t, found, λ k p q. behind k p (omega arith))
      | inr t ↦
          round_here input (find_cd_loop input start n) (start + suc n) offset r (ground arith)
            found
    ]

find_cd_loop-none :
    (input : Slice) (start n : ℕ)
    → ((k : ℕ) → start ≤ k → k ≤ start + n → try_at k input ≡ none)
    → find_cd_loop input start n ≡ err invalid_data
unfolding find_cd_loop round
find_cd_loop-none input start zero h = rw (h start (omega arith) (omega arith)) refl
find_cd_loop-none input start (suc n) h =
    rw (h (start + suc n) (omega arith) (omega arith))
      (find_cd_loop-none input start n (λ k p q. h k p (omega arith)))

span : (last : ℕ) → (last - 2 ^ 16) + (last - (last - 2 ^ 16)) ≡ last
span last = omega arith

-- Where `find_cd` succeeds, its pair is what the last offset of the scanned range parses to at
-- which there is an end of central directory record, and the headers that it counts are inside the
-- data.
pub find_cd-ok :
    (input : Slice) (cd : ℕ × ℕ)
    → find_cd input ≡ ok cd
    → ((offset : ℕ) × IsLastRecord input (scan_start input) (scan_end input) offset (ok cd))
      × IsInBounds input cd
unfolding find_cd
find_cd-ok input cd h = elim (Bool-cases (leb end_of_cd_record_size (length input.bytes))) [
  | inl t ↦
      rw (span (scan_end input)) at (
        find_cd_loop-ok input (scan_start input) (scan_end input - scan_start input) cd (rw t at h))
  | inr t ↦ absurd (let e = rw t at h in cc)
]

big_enough :
    (input : Slice)
    → end_of_cd_record_size ≤ length input.bytes
    → find_cd input ≡ find_cd_loop input (scan_start input) (scan_end input - scan_start input)
unfolding find_cd
big_enough input big = rw (le→leb end_of_cd_record_size (length input.bytes) big, find_cd) refl

-- Where `offset` is the last that parses, `find_cd` answers as the bounds check does on the result.
pub find_cd-last :
    (input : Slice) (offset : ℕ) (r : Outcome (ℕ × ℕ))
    → end_of_cd_record_size ≤ length input.bytes
    → IsLastRecord input (scan_start input) (scan_end input) offset r
    → find_cd input ≡ round input (err invalid_data) (some r)
find_cd-last input offset r big (lo, hi, found, behind) =
    big_enough input big
    ∙ find_cd_loop_lem input (scan_start input) (scan_end input - scan_start input) offset r (
      lo,
      omega (arith, span (scan_end input)),
      found,
      λ k p q. behind k p (omega (arith, span (scan_end input))),
    )

pub find_cd-none :
    (input : Slice)
    → end_of_cd_record_size ≤ length input.bytes
    → ((k : ℕ) → scan_start input ≤ k → k ≤ scan_end input → try_at k input ≡ none)
    → find_cd input ≡ err invalid_data
find_cd-none input big h =
    big_enough input big
    ∙ find_cd_loop-none input (scan_start input) (scan_end input - scan_start input)
        (λ k p q. h k p (omega (arith, span (scan_end input))))
