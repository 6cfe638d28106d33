-- ===== src/Zip.antt =====
-- src/zip.rs: finding the central directory of an archive and walking over its entries. The memory
-- map is a `Slice`, and `content` is the field `data` of an entry. On Unix a path is its bytes, so
-- that `bytes_to_path` cannot fail.
pub mod Format
pub mod Record
pub mod Scan
pub mod Directory
pub mod Entries
use blazesym.Common.{
  ℕ, zero, suc, ◌+◌, ◌-◌, ◌*◌, ◌^◌, Bool, true, false, Option, none, some, List, [], ◌∷◌, ◌==◌, leb,
  ◌&&◌, ◌||◌, not, if◌then◌else◌, length, take, drop, bit_and,
}
use blazesym.Common.Outcome.{
  Outcome, ok, err, stuck, ErrorKind, invalid_data, unexpected_eof, ok_or_error, ok_or_invalid_data,
}
use blazesym.Util.Slice.{
  Slice, slice, Read, ◌>>=◌, ◌>>◌, pure, lift, read_slice, ensure, from_le_bytes, get_from,
}
use blazesym.Zip.Format.{
  cd_file_header_magic, end_of_cd_record_magic, local_file_header_magic, flag_encrypted,
  flag_has_data_descriptor, end_of_cd_record_size, cd_file_header_size, local_file_header_size,
  EndOfCdRecord, end_of_cd_record, CdFileHeader, cd_file_header, LocalFileHeader, local_file_header,
}

pub record Entry : Type 0 where
  pub compression : ℕ
  pub path : List ℕ
  pub data_offset : ℕ
  pub content : Slice

pub record EntryIter : Type 0 where
  pub archive_data : Slice
  pub cd_record_data : Slice
  pub remaining_records : ℕ

pub record Archive : Type 0 where
  pub mmap : Slice
  pub cd_offset : ℕ
  pub cd_records : ℕ

-- `read_pod` of a packed struct of `size` bytes.
abbrev pub read_struct : {A : Type 0} → (size : ℕ) → (List ℕ → A) → Read A
read_struct size decode = do part ← read_slice size; pure (decode part.bytes)

-- The data is read from where `s` is, which started at `start`.
pub entry_data : (offset start : ℕ) (lfh : LocalFileHeader) (name : Slice) → Read (Outcome Entry)
unfolding read_slice
entry_data offset start lfh name s =
    ◌>>=◌ (read_slice lfh.compressed_size)
      (λ content. pure (
        ok (record {
          compression = lfh.compression;
          path = name.bytes;
          data_offset = offset + (s.addr - start);
          content = content;
        })))
      s

-- `entry_impl` of `parse_entry_at_offset` behind its header.
pub entry_behind : (offset start : ℕ) (lfh : LocalFileHeader) → Read (Outcome Entry)
unfolding read_slice entry_data
entry_behind offset start lfh =
    if not (lfh.magic == local_file_header_magic)
    then pure (err invalid_data)
    else if not (bit_and lfh.flags flag_encrypted == 0)
        || not (bit_and lfh.flags flag_has_data_descriptor == 0)
    then pure (err invalid_data)
    else (do
      name ← read_slice lfh.file_name_length
      extra ← read_slice lfh.extra_field_length
      entry_data offset start lfh name)

pub entry_impl : (offset : ℕ) → Slice → Option (Outcome Entry)
unfolding get_from local_file_header entry_behind
entry_impl offset input = elim (get_from offset input) [
  | none ↦ none
  | some s ↦
      (◌>>=◌ (read_struct local_file_header_size local_file_header) (entry_behind offset s.addr)
        s).0
]

-- `unwrap_or_else` of an error for `None`.
abbrev pub or_invalid_data : {A : Type 0} → Option (Outcome A) → Outcome A
or_invalid_data none = err invalid_data
or_invalid_data (some r) = r

unfoldable pub parse_entry_at_offset : (input : Slice) (offset : ℕ) → Outcome Entry
unfolding entry_impl
parse_entry_at_offset input offset = or_invalid_data (entry_impl offset input)

-- `entry_impl` of `parse_next_entry`, which reads from `cd_record_data`.
pub next_entry_impl : (archive_data : Slice) → Read (Outcome Entry)
unfolding cd_file_header parse_entry_at_offset read_slice
next_entry_impl archive_data = do
  cdfh ← read_struct cd_file_header_size cd_file_header
  if not (cdfh.magic == cd_file_header_magic) then pure (err invalid_data) else (do
    name ← read_slice cdfh.file_name_length
    extra ← read_slice cdfh.extra_field_length
    comment ← read_slice cdfh.file_comment_length
    pure (parse_entry_at_offset archive_data cdfh.offset))

pub parse_next_entry : EntryIter → Outcome Entry × EntryIter
unfolding next_entry_impl
parse_next_entry iter =
    let r = next_entry_impl iter.archive_data iter.cd_record_data in
    (or_invalid_data r.0, record iter { cd_record_data = r.1 })

-- `Iterator::next`.
pub next : EntryIter → Option (Outcome Entry) × EntryIter
unfolding parse_next_entry
next iter = elim iter.remaining_records [
  | zero ↦ (none, iter)
  | suc n ↦ (let r = parse_next_entry (record iter { remaining_records = n }) in (some r.0, r.1))
]

try_parse_end_of_cd : Slice → Option (Outcome (ℕ × ℕ))
unfolding end_of_cd_record ensure
try_parse_end_of_cd input =
    (◌>>=◌ (read_struct end_of_cd_record_size end_of_cd_record)
      (λ eocd. if not (eocd.magic == end_of_cd_record_magic) then lift none else (do
        ensure eocd.comment_length
        if not (eocd.this_disk == 0)
              || not (eocd.cd_disk == 0)
              || not (eocd.cd_records_total == eocd.cd_records)
            then pure (err invalid_data)
            else pure (ok (eocd.cd_offset, eocd.cd_records))))
      input).0

-- `data.get(cd_range)` of the headers of `cd_records` files at `cd_offset`.
pub check_range : (input : Slice) → ℕ × ℕ → Outcome (ℕ × ℕ)
check_range input (cd_offset, cd_records) =
    if leb (cd_offset + cd_records * cd_file_header_size) (length input.bytes)
    then ok (cd_offset, cd_records)
    else err unexpected_eof

-- `try_parse_end_of_cd(data.get(offset..).unwrap())`, for an offset that is not behind the data.
unfoldable pub try_at : (offset : ℕ) → Slice → Option (Outcome (ℕ × ℕ))
unfolding try_parse_end_of_cd
try_at offset input = try_parse_end_of_cd (slice (input.addr + offset) (drop offset input.bytes))

-- A round of the loop of `find_cd`: `rest` is what the remaining rounds do.
pub round : (input : Slice) (rest : Outcome (ℕ × ℕ)) → Option (Outcome (ℕ × ℕ)) → Outcome (ℕ × ℕ)
unfolding check_range
round input rest none = rest
round input rest (some (ok cd)) = check_range input cd
round input rest (some (err e)) = err e
round input rest (some stuck) = stuck

-- The loop of `find_cd` over `start + n`, ..., `start + 1`, `start`. The offsets that it tries are
-- inside the data, so that its `unwrap` cannot panic.
pub find_cd_loop : (input : Slice) (start n : ℕ) → Outcome (ℕ × ℕ)
unfolding try_at round
find_cd_loop input start zero = round input (err invalid_data) (try_at start input)
find_cd_loop input start (suc n) =
    round input (find_cd_loop input start n) (try_at (start + suc n) input)

-- The last offset that can hold the record, and the first that the loop tries: `saturating_sub` is
-- the subtraction of ℕ.
abbrev pub scan_end : Slice → ℕ
scan_end input = length input.bytes - end_of_cd_record_size

abbrev pub scan_start : Slice → ℕ
scan_start input = scan_end input - 2 ^ 16

unfoldable pub find_cd : Slice → Outcome (ℕ × ℕ)
unfolding find_cd_loop
find_cd input =
    if leb end_of_cd_record_size (length input.bytes)
    then find_cd_loop input (scan_start input) (scan_end input - scan_start input)
    else err invalid_data

-- `?` on the result of `find_cd`, and the archive that is made of it.
abbrev pub archive_of : Slice → Outcome (ℕ × ℕ) → Outcome Archive
archive_of mmap (ok (cd_offset, cd_records)) =
    ok (record { mmap = mmap; cd_offset = cd_offset; cd_records = cd_records })
archive_of mmap (err e) = err e
archive_of mmap stuck = stuck

unfoldable pub with_mmap : Slice → Outcome Archive
unfolding find_cd
with_mmap mmap = archive_of mmap (find_cd mmap)

-- `None` is the panic of the `unwrap`.
pub entries : Archive → Option EntryIter
unfolding get_from
entries archive = elim (get_from archive.cd_offset archive.mmap) [
  | none ↦ none
  | some cd_record_data ↦ some (record {
    archive_data = archive.mmap;
    cd_record_data = cd_record_data;
    remaining_records = archive.cd_records;
  })
]
