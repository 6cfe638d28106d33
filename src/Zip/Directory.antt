-- ===== src/Zip/Directory.antt =====
-- Where `find_cd` of src/zip.rs finds the end of central directory record, and where the iterator over
-- the entries starts.
use blazesym.Common.{
  ℕ, ◌+◌, ◌*◌, ◌^◌, ◌≤◌, ◌<◌, ◌≡◌, ◌⊎◌, refl, ap, ◌∙◌, Option, none, some, leb, leb→le, length,
  arith, drop, length-drop, Bool-cases, inl, inr,
}
use blazesym.Common.Outcome.{Outcome, ok, err, stuck, invalid_data, unexpected_eof}
use blazesym.Util.Slice.{Slice, slice, get_from}
use blazesym.Zip.{
  try_at, round, check_range, find_cd, scan_end, Archive, EntryIter, archive_of, with_mmap, entries,
}
use blazesym.Zip.Format.{cd_file_header_size}
use blazesym.Zip.Record.{IsRecord, IsSupported, cd_offset_at, cd_records_at, try_at-IsParsed}
use blazesym.Zip.Scan.{NoneBehind, IsInBounds, find_cd-ok, find_cd-last, find_cd-none}

archive_or : Archive → Outcome Archive → Archive
archive_or default (ok archive) = archive
archive_or default (err e) = default
archive_or default stuck = default

entries_of :
    (archive : Archive)
    → IsInBounds archive.mmap (archive.cd_offset, archive.cd_records)
    → (iter : EntryIter) × (entries archive ≡ some iter)
      × (iter.remaining_records * cd_file_header_size ≤ length iter.cd_record_data.bytes)
unfolding entries get_from
entries_of archive b = elim (Bool-cases (leb archive.cd_offset (length archive.mmap.bytes))) [
  | inl t ↦ (
    record {
      archive_data = archive.mmap;
      cd_record_data =
          slice (archive.mmap.addr + archive.cd_offset) (drop archive.cd_offset archive.mmap.bytes);
      remaining_records = archive.cd_records;
    },
    rw (t, entries) refl,
    omega (arith, length-drop {0} archive.cd_offset archive.mmap.bytes),
  )
  | inr t ↦ absurd (ground arith)
]

-- For an archive that `with_mmap` made, `entries` does not panic, and the central directory that
-- the iterator starts at has the bytes for the headers of all the records that it counts.
pub with_mmap-entries :
    (mmap : Slice) (archive : Archive)
    → with_mmap mmap ≡ ok archive
    → (iter : EntryIter) × (entries archive ≡ some iter)
      × (iter.remaining_records * cd_file_header_size ≤ length iter.cd_record_data.bytes)
unfolding with_mmap archive_or
with_mmap-entries mmap archive h = of (find_cd mmap) refl h
  where
    of :
        (r : Outcome (ℕ × ℕ))
        → find_cd mmap ≡ r
        → archive_of mmap r ≡ ok archive
        → (iter : EntryIter) × (entries archive ≡ some iter)
          × (iter.remaining_records * cd_file_header_size ≤ length iter.cd_record_data.bytes)
    of (ok (o, n)) e p = rw (ap (archive_or archive) p) at (
        entries_of (record { mmap = mmap; cd_offset = o; cd_records = n })
          (find_cd-ok mmap (o, n) e).1)
    of (err e) q p = cc
    of stuck q p = cc

-- The last offset at which there is a record, of those that are not too far from the end: a comment
-- has less than 2^16 bytes.
abbrev pub IsLast : Slice → Option ℕ → Type 0
IsLast input (some offset) =
    IsRecord input offset
    × (length input.bytes ≤ offset + 22 + 2 ^ 16)
    × ((k : ℕ) → offset < k → ¬ IsRecord input k)
IsLast input none = (k : ℕ) → length input.bytes ≤ k + 22 + 2 ^ 16 → ¬ IsRecord input k

-- The headers of 46 bytes that the record at the offset counts are inside the data.
abbrev pub AreInside : Slice → (offset : ℕ) → Type 0
AreInside input offset =
    cd_offset_at input offset + cd_records_at input offset * 46 ≤ length input.bytes

-- the outcome for the last record
abbrev pub IsFound : Slice → Option ℕ → Outcome (ℕ × ℕ) → Type 0
IsFound input (some offset) r =
    (IsSupported input offset
      × AreInside input offset
      × (r ≡ ok (cd_offset_at input offset, cd_records_at input offset)))
    ⊎ (IsSupported input offset × (¬ AreInside input offset) × (r ≡ err unexpected_eof))
    ⊎ ((¬ IsSupported input offset) × (r ≡ err invalid_data))
IsFound input none r = r ≡ err invalid_data

try_at-none : (offset : ℕ) (input : Slice) → ¬ IsRecord input offset → try_at offset input ≡ none
try_at-none offset input missing = elim (try_at-IsParsed offset input) [
  | inl (is, h, e) ↦ absurd (missing is)
  | inr (inl (is, h, e)) ↦ absurd (missing is)
  | inr (inr (h, e)) ↦ e
]

check_range-cases :
    (input : Slice) (o n : ℕ)
    → ((o + n * 46 ≤ length input.bytes) × (check_range input (o, n) ≡ ok (o, n)))
      ⊎ ((¬ (o + n * 46 ≤ length input.bytes)) × (check_range input (o, n) ≡ err unexpected_eof))
unfolding check_range
check_range-cases input o n = elim (Bool-cases (leb (o + n * 46) (length input.bytes))) [
  | inl t ↦ inl (leb→le (o + n * 46) (length input.bytes) t, rw t refl)
  | inr f ↦ inr ((λ le. ground arith), rw f refl)
]

last-IsFound :
    (input : Slice) (offset : ℕ)
    → 22 ≤ length input.bytes
    → IsLast input (some offset)
    → IsFound input (some offset) (find_cd input)
unfolding round
last-IsFound input offset big (is, far, behind) =
    let none_behind : NoneBehind input offset (scan_end input) =
      λ k p q. try_at-none k input (behind k p) in
    elim (try_at-IsParsed offset input) [
      | inr (inr (missing, e)) ↦ absurd (missing is)
      | inr (inl (r, missing, e)) ↦ inr (
          inr (
            missing,
            find_cd-last input offset (err invalid_data) big
                (omega arith, omega arith, e, none_behind),
          ))
      | inl (r, supported, e) ↦
          let found =
            find_cd-last input offset (ok (cd_offset_at input offset, cd_records_at input offset))
              big (omega arith, omega arith, e, none_behind) in
          elim (check_range-cases input (cd_offset_at input offset) (cd_records_at input offset)) [
            | inl (inside, c) ↦ inl (supported, inside, found ∙ c)
            | inr (outside, c) ↦ inr (inl (supported, outside, found ∙ c))
          ]
    ]

-- For data of at least 22 bytes: of the last offset at which there is an end of central directory
-- record, if it is not too far from the end of the data for a comment of less than 2^16 bytes,
-- `find_cd` returns the offset and the number of records that it has if the archive has one disk
-- and the headers of 46 bytes are inside the data, fails with `unexpected_eof` if they are not, and
-- with `invalid_data` if the archive has more disks. Where no offset that is not too far from the
-- end has a record, `find_cd` fails with `invalid_data`.
pub find_cd_lem :
    (input : Slice) (last : Option ℕ)
    → 22 ≤ length input.bytes
    → IsLast input last
    → IsFound input last (find_cd input)
find_cd_lem input (some offset) big last = last-IsFound input offset big last
find_cd_lem input none big none_at =
    find_cd-none input big (λ k p q. try_at-none k input (none_at k (omega arith)))
