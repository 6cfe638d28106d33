-- ===== src/Zip/Entries.antt =====
-- The entries that the iterator of src/zip.rs yields: where their data stands, and how many there are.
use mathlib.Core.List.{append_assoc}
use blazesym.Common.{
  ℕ, zero, suc, ◌+◌, ◌≤◌, ◌≡◌, refl, sym, ap, ◌∙◌, Option, none, some, List, [], ◌∷◌, ◌++◌, leb,
  ltb, ◌==◌, length, take, drop, arith, Bool-cases, inl, inr, take-append-drop, length-take, leb→le,
  length-append, bit_and, not, ◌||◌,
}
use blazesym.Common.Outcome.{Outcome, ok, err, stuck, invalid_data}
use blazesym.Util.Slice.{Slice, slice, Read, pass_on, ◌>>=◌, read_slice, get_from}
use blazesym.Util.Rest.{IsRest, IsRest-trans, Keeps, read_slice-Keeps, >>=-Keeps, pure-Keeps}
use blazesym.Zip.{
  Entry, EntryIter, read_struct, entry_data, entry_behind, entry_impl, parse_entry_at_offset,
  or_invalid_data, next_entry_impl, parse_next_entry, next,
}
use blazesym.Zip.Format.{
  cd_file_header, cd_file_header_size, cd_file_header_magic, LocalFileHeader, local_file_header,
  local_file_header_size, local_file_header_magic, flag_encrypted, flag_has_data_descriptor,
}

-- The data of an entry is the part of the archive that starts at `data_offset`, behind the local
-- header at `offset`.
abbrev pub IsPart : Slice → (offset : ℕ) → Entry → Type 0
IsPart archive offset e =
    (front : List ℕ) × (rest : List ℕ) × (archive.bytes ≡ front ++ (e.content.bytes ++ rest))
    × (length front ≡ e.data_offset)
    × (e.content.addr ≡ archive.addr + e.data_offset)
    × (offset ≤ e.data_offset)

Good : Slice → (offset : ℕ) → Option (Outcome Entry) × Slice → Type 0
Good archive offset (none, t) = Unit {0}
Good archive offset (some (ok e), t) = IsPart archive offset e
Good archive offset (some (err k), t) = Unit {0}
Good archive offset (some stuck, t) = Unit {0}

-- A step that keeps to the archive, in front of one that yields no wrong entry.
pass_on-Good :
    {A : Type 0} (archive s : Slice) (offset : ℕ) (r : Option A × Slice)
    (f : A → Read (Outcome Entry))
    → IsRest s r.1
    → ((a : A) (t : Slice) → IsRest s t → Good archive offset (f a t))
    → Good archive offset (pass_on r f)
unfolding Good
pass_on-Good archive s offset (none, t) f h g = tt
pass_on-Good archive s offset (some a, t) f h g = g a t h

bind-Good :
    {A : Type 0} (archive s : Slice) (offset : ℕ) (m : Read A) (f : A → Read (Outcome Entry))
    → Keeps m
    → ((a : A) (t : Slice) → IsRest s t → Good archive offset (f a t))
    → Good archive offset ((m >>= f) s)
bind-Good archive s offset m f h g = pass_on-Good archive s offset (m s) f (h s) g

entry_or : Entry → Outcome Entry → Entry
entry_or default (ok e) = e
entry_or default (err k) = default
entry_or default stuck = default

or_invalid_data-Good :
    (archive : Slice) (offset : ℕ) (r : Option (Outcome Entry) × Slice) (default e : Entry)
    → Good archive offset r
    → or_invalid_data r.0 ≡ ok e
    → IsPart archive offset e
unfolding Good entry_or
or_invalid_data-Good archive offset (none, t) default e g h = cc
or_invalid_data-Good archive offset (some (ok e1), t) default e g h =
    rw (ap (entry_or default) h) at g
or_invalid_data-Good archive offset (some (err k), t) default e g h = cc
or_invalid_data-Good archive offset (some stuck, t) default e g h = cc

entry_data-Good :
    (archive s : Slice) (offset start : ℕ) (lfh : LocalFileHeader) (name : Slice) (front : List ℕ)
    → archive.bytes ≡ front ++ s.bytes
    → s.addr ≡ archive.addr + length front
    → start ≡ archive.addr + offset
    → offset ≤ length front
    → Good archive offset (entry_data offset start lfh name s)
unfolding Good entry_data read_slice
entry_data-Good archive s offset start lfh name front e a b c =
    elim (Bool-cases (ltb (length s.bytes) lfh.compressed_size)) [
      | inl t ↦ rw (t, entry_data, read_slice) tt
      | inr t ↦
          rw (t, entry_data, read_slice)
            (
              front,
              drop lfh.compressed_size s.bytes,
              e
                  ∙ ap (λ (l : List ℕ). front ++ l)
                      (sym (take-append-drop lfh.compressed_size s.bytes)),
              omega arith,
              omega arith,
              omega arith,
            )
    ]

-- The local header is read from `start`, which is at `offset`.
entry_behind-Good :
    (archive start s : Slice) (offset : ℕ) (lfh : LocalFileHeader) (front : List ℕ)
    → archive.bytes ≡ front ++ start.bytes
    → start.addr ≡ archive.addr + offset
    → length front ≡ offset
    → IsRest start s
    → Good archive offset (entry_behind offset start.addr lfh s)
unfolding entry_behind Good
entry_behind-Good archive start s offset lfh front e a b h =
    elim (Bool-cases (lfh.magic == local_file_header_magic)) [
      | inr f ↦ rw (f, entry_behind) tt
      | inl t ↦
          elim (Bool-cases (
            not (bit_and lfh.flags flag_encrypted == 0)
            || not (bit_and lfh.flags flag_has_data_descriptor == 0))) [
              | inl u ↦ rw (t, u, entry_behind) tt
              | inr u ↦
                  rw (t, u, entry_behind)
                    (bind-Good archive s offset (read_slice lfh.file_name_length)
                      (λ name. read_slice lfh.extra_field_length >>= λ extra.
                        entry_data offset start.addr lfh name)
                      (read_slice-Keeps lfh.file_name_length)
                      (λ name s1 h1.
                        bind-Good archive s1 offset (read_slice lfh.extra_field_length)
                          (λ extra. entry_data offset start.addr lfh name)
                          (read_slice-Keeps lfh.extra_field_length)
                          (λ extra s2 h2.
                            at_rest name s2
                              (IsRest-trans start s s2 h (IsRest-trans s s1 s2 h1 h2)))))
            ]
    ]
  where
    at_rest :
        (name s2 : Slice)
        → IsRest start s2
        → Good archive offset (entry_data offset start.addr lfh name s2)
    at_rest name s2 (read, p, q) =
        entry_data-Good archive s2 offset start.addr lfh name (front ++ read)
          (e ∙ ap (λ (l : List ℕ). front ++ l) p ∙ sym (append_assoc front read s2.bytes))
          (omega (arith, length-append {0} front read)) a
          (omega (arith, length-append {0} front read))

-- Where `parse_entry_at_offset` succeeds, the data of the entry is the part of the archive that
-- starts at `data_offset`, by its content as by its address, and it does not start in front of the
-- offset of the header.
pub parse_entry_at_offset-ok :
    (archive : Slice) (offset : ℕ) (e : Entry)
    → parse_entry_at_offset archive offset ≡ ok e
    → IsPart archive offset e
unfolding parse_entry_at_offset entry_impl get_from
parse_entry_at_offset-ok archive offset e h =
    elim (Bool-cases (leb offset (length archive.bytes))) [
      | inl t ↦
          let s = slice (archive.addr + offset) (drop offset archive.bytes) in
          or_invalid_data-Good archive offset
            ((read_struct local_file_header_size local_file_header >>= entry_behind offset s.addr)
              s)
            e e
            (bind-Good archive s offset (read_struct local_file_header_size local_file_header)
              (entry_behind offset s.addr)
              (>>=-Keeps (read_slice local_file_header_size) _
                (read_slice-Keeps local_file_header_size)
                (λ part. pure-Keeps (local_file_header part.bytes)))
              (λ lfh t2 h2.
                entry_behind-Good archive s t2 offset lfh (take offset archive.bytes)
                  (sym (take-append-drop offset archive.bytes)) refl
                  (omega (
                    arith,
                    length-take {0} offset archive.bytes,
                    leb→le offset (length archive.bytes) t,
                  ))
                  h2))
            (rw (t, parse_entry_at_offset, entry_impl, get_from) at h)
      | inr t ↦ absurd (let h2 = rw (t, parse_entry_at_offset, entry_impl, get_from) at h in cc)
    ]

-- What a loop over the iterator sees within `fuel` rounds.
pub items : (fuel : ℕ) → EntryIter → List (Outcome Entry)
unfolding next
items zero iter = []
items (suc fuel) iter = elim (next iter).0 [
  | none ↦ []
  | some item ↦ item ∷ items fuel (next iter).1
]

-- An item that is an entry is a part of the archive.
abbrev pub IsItem : Slice → Outcome Entry → Type 0
IsItem archive item = (e : Entry) → item ≡ ok e → (offset : ℕ) × IsPart archive offset e

abbrev pub AllItems : Slice → List (Outcome Entry) → Type 0
AllItems archive [] = Unit {0}
AllItems archive (item ∷ rest) = IsItem archive item × AllItems archive rest

pass_on-either :
    {A B : Type 0} (P : Option B → Type 0) (r : Option A × Slice) (f : A → Read B)
    → P none
    → ((a : A) (t : Slice) → P (f a t).0)
    → P (pass_on r f).0
pass_on-either P (none, t) f n g = n
pass_on-either P (some a, t) f n g = g a t

next_entry_impl-IsItem :
    (archive s : Slice) → IsItem archive (or_invalid_data (next_entry_impl archive s).0)
unfolding next_entry_impl
next_entry_impl-IsItem archive s =
    pass_on-either P (read_struct cd_file_header_size cd_file_header s) _ no_item (λ cdfh t.
      elim (Bool-cases (cdfh.magic == cd_file_header_magic)) [
        | inr f ↦ rw f no_item
        | inl m ↦ rw m (
            pass_on-either P (read_slice cdfh.file_name_length t) _ no_item (λ name t1.
              pass_on-either P (read_slice cdfh.extra_field_length t1) _ no_item (λ extra t2.
                pass_on-either P (read_slice cdfh.file_comment_length t2) _ no_item
                  (λ comment t3 e h.
                    (cdfh.offset, parse_entry_at_offset-ok archive cdfh.offset e h)))))
      ])
  where
    P : Option (Outcome Entry) → Type 0
    P o = IsItem archive (or_invalid_data o)

    no_item : IsItem archive (err invalid_data)
    no_item e h = cc

next-none : (iter : EntryIter) → iter.remaining_records ≡ 0 → (next iter).0 ≡ none
unfolding next
next-none iter h = rw (h, next) refl

next-some :
    (iter : EntryIter) (n : ℕ)
    → iter.remaining_records ≡ suc n
    → (item : Outcome Entry) × ((next iter).0 ≡ some item)
      × ((next iter).1.remaining_records ≡ n)
      × ((next iter).1.archive_data ≡ iter.archive_data)
      × IsItem iter.archive_data item
unfolding next parse_next_entry
next-some iter n h = (
  (parse_next_entry (record iter { remaining_records = n })).0,
  rw (h, next) refl,
  rw (h, next) refl,
  rw (h, next) refl,
  next_entry_impl-IsItem iter.archive_data iter.cd_record_data,
)

-- A loop over the iterator of an archive that is given at least as many rounds as there are
-- remaining records sees exactly one item for each of them, and the data of each item that is an
-- entry is the part of the archive at its `data_offset`.
pub items_lem :
    (fuel : ℕ) (iter : EntryIter)
    → iter.remaining_records ≤ fuel
    → (length (items fuel iter) ≡ iter.remaining_records)
      × AllItems iter.archive_data (items fuel iter)
unfolding items
items_lem zero iter h = (omega arith, tt)
items_lem (suc fuel) iter h = of iter.remaining_records refl h (items_lem fuel)
  where
    of :
        (n : ℕ)
        → iter.remaining_records ≡ n
        → n ≤ suc fuel
        → ((rest : EntryIter)
            → rest.remaining_records ≤ fuel
            → (length (items fuel rest) ≡ rest.remaining_records)
              × AllItems rest.archive_data (items fuel rest))
        → (length (items (suc fuel) iter) ≡ iter.remaining_records)
          × AllItems iter.archive_data (items (suc fuel) iter)
    of zero e h rec = rw (next-none iter e, items) (sym e, tt)
    of (suc n) e h rec =
        let (item, step, left, same, good) = next-some iter n e in
        let (count, all) = rec (next iter).1 (omega arith) in
        rw (step, items) (omega arith, (good, rw same at all))
