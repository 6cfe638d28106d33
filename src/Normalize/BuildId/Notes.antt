-- ===== src/Normalize/BuildId/Notes.antt =====
-- The loop over the notes of a section in `read_build_id` of src/normalize/buildid.rs ends.
use blazesym.Common.{
  Bool, lt→ltb, ℕ, zero, suc, ◌+◌, ◌≤◌, ◌≡◌, ◌≢◌, refl, ap, true, false, Option, none, some, arith,
  ltb, ltb→le, ◌==◌, if◌then◌else◌, length, length-drop, Bool-cases, inl, inr,
}
use blazesym.Common.Outcome.{Outcome, ok, err, stuck, ◌>>=◌}
use blazesym.Util.Slice.{Slice, read_pod_ref, read_slice, advance, field}
use blazesym.Util.Rest.{IsRest-length, advance-Keeps}
use blazesym.Kernel.{align_up_u32}
use blazesym.Normalize.BuildId.{
  Step, build_id, left, or_invalid_data, read_note, scan_notes, nt_gnu_build_id,
}

-- the outcome is no panic, and what it leaves has twelve bytes less than the bound
abbrev Shrinks : (bound : ℕ) → Outcome Step → Type 0
Shrinks bound (ok (build_id id)) = Unit
Shrinks bound (ok (left s)) = length s.bytes + 12 ≤ bound
Shrinks bound (err e) = Unit
Shrinks bound stuck = ⊥

or_invalid_data-Shrinks :
    {A : Type 0} (bound : ℕ) (m : Option A × Slice) (rest : A → Slice → Outcome Step)
    → ((a : A) (s : Slice) → m ≡ (some a, s) → Shrinks bound (rest a s))
    → Shrinks bound (or_invalid_data m rest)
or_invalid_data-Shrinks bound (none, s) rest h = tt
or_invalid_data-Shrinks bound (some a, s) rest h = h a s refl

read_pod_ref-takes :
    (size align_of : ℕ) (s t : Slice) (a : Slice)
    → read_pod_ref size align_of s ≡ (some a, t)
    → length t.bytes + size ≤ length s.bytes
unfolding read_pod_ref read_slice
read_pod_ref-takes size align_of s t a h = elim (Bool-cases (ltb (length s.bytes) size)) [
  | inl short ↦ absurd (let q = rw short at h in cc)
  | inr long ↦
      let q = rw long at h in
      let size_t = ap (λ (r : Option Slice × Slice). length r.1.bytes) q in
      omega (arith, size_t, length-drop {0} size s.bytes, ltb→le (length s.bytes) size long)
]

advance-le :
    (cnt : ℕ) (s t : Slice) → advance cnt s ≡ (some tt, t) → length t.bytes ≤ length s.bytes
advance-le cnt s t h =
    let size_t = ap (λ (r : Option (Unit {0}) × Slice). length r.1.bytes) h in
    omega (arith, size_t, IsRest-length s (advance cnt s).1 (advance-Keeps cnt s))

-- what follows the name of a note
described-Shrinks :
    (is_id : Bool) (bound descsz : ℕ) (s : Slice)
    → length s.bytes + 12 ≤ bound
    → Shrinks bound (
        if is_id
        then or_invalid_data (read_slice descsz s) (λ id _. ok (build_id id.bytes))
        else or_invalid_data (advance (align_up_u32 descsz 4) s) (λ _ s'. ok (left s')))
described-Shrinks true bound descsz s h =
    or_invalid_data-Shrinks bound (read_slice descsz s) (λ id _. ok (build_id id.bytes))
      (λ id t e. tt)
described-Shrinks false bound descsz s h =
    or_invalid_data-Shrinks bound (advance (align_up_u32 descsz 4) s) (λ _ s'. ok (left s'))
      (λ u t e. omega (arith, h, advance-le (align_up_u32 descsz 4) s t e))

read_note-Shrinks : (bytes : Slice) → Shrinks (length bytes.bytes) (read_note bytes)
unfolding read_note
read_note-Shrinks bytes =
    or_invalid_data-Shrinks (length bytes.bytes) (read_pod_ref 12 4 bytes) _ (λ nhdr s e.
      let size = align_up_u32 (field 0 4 nhdr.bytes) 4 in
      or_invalid_data-Shrinks (length bytes.bytes) (advance size s) _ (λ u t e'.
        described-Shrinks (field 8 4 nhdr.bytes == nt_gnu_build_id) (length bytes.bytes)
          (field 4 4 nhdr.bytes) t
          (omega (arith, read_pod_ref-takes 12 4 bytes s nhdr e, advance-le size s t e'))))

-- With a round for each byte at least, the loop over the notes of a section ends, with a result or an
-- error.
pub scan_notes-ne-stuck :
    (fuel : ℕ) (bytes : Slice) → length bytes.bytes ≤ fuel → scan_notes fuel bytes ≢ stuck
unfolding scan_notes
scan_notes-ne-stuck zero bytes h e =
    let short : ltb (length bytes.bytes) 12 ≡ true =
      lt→ltb (length bytes.bytes) 12 (omega (arith, h)) in
    let q : ok none ≡ stuck = rw (short, scan_notes) at e in cc
scan_notes-ne-stuck (suc fuel) bytes h stopped =
    of (λ s le. scan_notes-ne-stuck fuel s le) (ltb (length bytes.bytes) 12) (read_note bytes)
      (read_note-Shrinks bytes) stopped
  where
    of :
        ((s : Slice) → length s.bytes ≤ fuel → scan_notes fuel s ≢ stuck)
        → (short : Bool) (m : Outcome Step) → Shrinks (length bytes.bytes) m
        → (if short
            then ok none
            else (m >>= λ step. elim step [
              | build_id id ↦ ok (some id)
              | left s ↦ scan_notes fuel s
            ]))
          ≢ stuck
    of next true m le e = cc
    of next false (ok (build_id id)) le e = cc
    of next false (ok (left s)) le e = next s (omega (arith, le, h)) e
    of next false (err k) le e = cc
    of next false stuck le e = le
