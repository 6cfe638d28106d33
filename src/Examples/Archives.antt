-- ===== src/Examples/Archives.antt =====
-- The archives of src/zip.rs at concrete inputs.
use blazesym.Common.{ℕ, ◌≡◌, refl, ◌≤◌, ◌*◌, some, List, [], ◌∷◌, ◌++◌, arith, length}
use blazesym.Common.Outcome.{ok}
use blazesym.Util.Slice.{Slice, slice, read_slice, ensure, from_le_bytes, get_from}
use blazesym.Zip.{Entry, EntryIter, Archive, find_cd, with_mmap, entries, parse_entry_at_offset}
use blazesym.Zip.Format.{cd_file_header_size, end_of_cd_record, local_file_header}
use blazesym.Zip.Directory.{IsLast, IsFound, find_cd_lem, with_mmap-entries}
use blazesym.Zip.Entries.{IsPart, AllItems, items, parse_entry_at_offset-ok, items_lem}

abbrev zeros4 : List ℕ
zeros4 = 0 ∷ 0 ∷ 0 ∷ 0 ∷ []

-- the end of a central directory without records, which starts at 0
abbrev empty_bytes : List ℕ
empty_bytes =
    (0x50 ∷ 0x4b ∷ 5 ∷ 6 ∷ []) ++ (zeros4 ++ (zeros4 ++ (zeros4 ++ (zeros4 ++ (0 ∷ 0 ∷ [])))))

abbrev empty : Slice
empty = slice 64 empty_bytes

empty-IsLast : IsLast empty (some 0)
unfolding from_le_bytes
empty-IsLast = ((refl, omega arith), omega arith, λ k p (m, fits). omega arith)

find_cd_lem_example : IsFound empty (some 0) (find_cd empty)
find_cd_lem_example = find_cd_lem empty (some 0) (omega arith) empty-IsLast

abbrev opened : Archive
opened = record { mmap = empty; cd_offset = 0; cd_records = 0 }

opened-with_mmap : with_mmap empty ≡ ok opened
unfolding with_mmap ensure read_slice end_of_cd_record
opened-with_mmap = refl

with_mmap-entries_example :
    (iter : EntryIter) × (entries opened ≡ some iter)
    × (iter.remaining_records * cd_file_header_size ≤ length iter.cd_record_data.bytes)
with_mmap-entries_example = with_mmap-entries empty opened opened-with_mmap

-- a local file header of the file "a" with the two bytes "hi", at offset 2
abbrev local : Slice
local = slice 64 (
    (9 ∷ 9 ∷ 0x50 ∷ 0x4b ∷ 3 ∷ 4 ∷ [])
    ++ (zeros4
        ++ (zeros4
            ++ (zeros4
                ++ (0 ∷ 0 ∷ 2 ∷ 0 ∷ 0 ∷ 0 ∷ 2 ∷ 0 ∷ 0 ∷ 0 ∷ 1 ∷ 0 ∷ 0 ∷ 0 ∷ b'a' ∷ b'h' ∷ b'i'
                    ∷ [])))))

abbrev hi : Entry
hi = record {
  compression = 0;
  path = b'a' ∷ [];
  data_offset = 33;
  content = slice 97 (b'h' ∷ b'i' ∷ []);
}

parsed : parse_entry_at_offset local 2 ≡ ok hi
unfolding parse_entry_at_offset get_from read_slice local_file_header
parsed = refl

parse_entry_at_offset-ok_example : IsPart local 2 hi
parse_entry_at_offset-ok_example = parse_entry_at_offset-ok local 2 hi parsed

abbrev two_left : EntryIter
two_left = record { archive_data = local; cd_record_data = empty; remaining_records = 2 }

items_lem_example : (length (items 3 two_left) ≡ 2) × AllItems local (items 3 two_left)
items_lem_example = items_lem 3 two_left (omega arith)
