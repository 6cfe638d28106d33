-- ===== src/Zip/Format.antt =====
-- The records of the zip format (src/zip.rs): constants, packed structs, and how they are read.
use blazesym.Common.{ℕ, ◌^◌, List}
use blazesym.Util.Slice.{field}

abbrev pub cd_file_header_magic : ℕ
cd_file_header_magic = 0x02014b50

abbrev pub end_of_cd_record_magic : ℕ
end_of_cd_record_magic = 0x06054b50

abbrev pub local_file_header_magic : ℕ
local_file_header_magic = 0x04034b50

abbrev pub flag_encrypted : ℕ
flag_encrypted = 1

abbrev pub flag_has_data_descriptor : ℕ
flag_has_data_descriptor = 2 ^ 3

-- `size_of` the three packed structs
abbrev pub end_of_cd_record_size : ℕ
end_of_cd_record_size = 22

abbrev pub cd_file_header_size : ℕ
cd_file_header_size = 46

abbrev pub local_file_header_size : ℕ
local_file_header_size = 30

pub record EndOfCdRecord : Type 0 where
  pub magic : ℕ
  pub this_disk : ℕ
  pub cd_disk : ℕ
  pub cd_records : ℕ
  pub cd_records_total : ℕ
  pub cd_size : ℕ
  pub cd_offset : ℕ
  pub comment_length : ℕ

unfoldable pub end_of_cd_record : List ℕ → EndOfCdRecord
unfolding field
end_of_cd_record bytes = record {
  magic = field 0 4 bytes;
  this_disk = field 4 2 bytes;
  cd_disk = field 6 2 bytes;
  cd_records = field 8 2 bytes;
  cd_records_total = field 10 2 bytes;
  cd_size = field 12 4 bytes;
  cd_offset = field 16 4 bytes;
  comment_length = field 20 2 bytes;
}

pub record CdFileHeader : Type 0 where
  pub magic : ℕ
  pub version : ℕ
  pub min_version : ℕ
  pub flags : ℕ
  pub compression : ℕ
  pub last_modified_time : ℕ
  pub last_modified_date : ℕ
  pub crc : ℕ
  pub compressed_size : ℕ
  pub uncompressed_size : ℕ
  pub file_name_length : ℕ
  pub extra_field_length : ℕ
  pub file_comment_length : ℕ
  pub disk : ℕ
  pub internal_attributes : ℕ
  pub external_attributes : ℕ
  pub offset : ℕ

unfoldable pub cd_file_header : List ℕ → CdFileHeader
unfolding field
cd_file_header bytes = record {
  magic = field 0 4 bytes;
  version = field 4 2 bytes;
  min_version = field 6 2 bytes;
  flags = field 8 2 bytes;
  compression = field 10 2 bytes;
  last_modified_time = field 12 2 bytes;
  last_modified_date = field 14 2 bytes;
  crc = field 16 4 bytes;
  compressed_size = field 20 4 bytes;
  uncompressed_size = field 24 4 bytes;
  file_name_length = field 28 2 bytes;
  extra_field_length = field 30 2 bytes;
  file_comment_length = field 32 2 bytes;
  disk = field 34 2 bytes;
  internal_attributes = field 36 2 bytes;
  external_attributes = field 38 4 bytes;
  offset = field 42 4 bytes;
}

pub record LocalFileHeader : Type 0 where
  pub magic : ℕ
  pub min_version : ℕ
  pub flags : ℕ
  pub compression : ℕ
  pub last_modified_time : ℕ
  pub last_modified_date : ℕ
  pub crc : ℕ
  pub compressed_size : ℕ
  pub uncompressed_size : ℕ
  pub file_name_length : ℕ
  pub extra_field_length : ℕ

unfoldable pub local_file_header : List ℕ → LocalFileHeader
unfolding field
local_file_header bytes = record {
  magic = field 0 4 bytes;
  min_version = field 4 2 bytes;
  flags = field 6 2 bytes;
  compression = field 8 2 bytes;
  last_modified_time = field 10 2 bytes;
  last_modified_date = field 12 2 bytes;
  crc = field 14 4 bytes;
  compressed_size = field 18 4 bytes;
  uncompressed_size = field 22 4 bytes;
  file_name_length = field 26 2 bytes;
  extra_field_length = field 28 2 bytes;
}
