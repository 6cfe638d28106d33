-- ===== src/Elf/Types.antt =====
-- src/elf/types.rs: the structs of an ELF file, in their 32-bit and their 64-bit form.
pub mod Ehdr
pub mod Phdr
pub mod Shdr
pub mod Sym
pub mod Chdr
use blazesym.Common.{
  ℕ, ◌^◌, Bool, true, false, Option, none, some, List, [], length, get_elem?, drop, map, ◌==◌,
}

-- One of the two forms: the second type argument is the 64-bit one.
pub data ElfN (T32 T64 : Type 0) : Type 0 where
  b32 : T32 → ElfN T32 T64
  b64 : T64 → ElfN T32 T64

pub data ElfNSlice (T32 T64 : Type 0) : Type 0 where
  slice32 : List T32 → ElfNSlice T32 T64
  slice64 : List T64 → ElfNSlice T32 T64

module _ {T32 T64 : Type 0} where
  abbrev pub is_32bit : ElfN T32 T64 → Bool
  is_32bit (b32 r) = true
  is_32bit (b64 r) = false

  -- over the conversion of the type
  abbrev pub to_64bit : (T32 → T64) → ElfN T32 T64 → T64
  to_64bit convert (b32 r) = convert r
  to_64bit convert (b64 r) = r

  abbrev pub empty : (tybit32 : Bool) → ElfNSlice T32 T64
  empty true = slice32 []
  empty false = slice64 []

  abbrev pub len : ElfNSlice T32 T64 → ℕ
  len (slice32 rs) = length rs
  len (slice64 rs) = length rs

  abbrev pub is_empty : ElfNSlice T32 T64 → Bool
  is_empty rs = len rs == 0

  abbrev pub wrap32 : Option T32 → Option (ElfN T32 T64)
  wrap32 none = none
  wrap32 (some r) = some (b32 r)

  abbrev pub wrap64 : Option T64 → Option (ElfN T32 T64)
  wrap64 none = none
  wrap64 (some r) = some (b64 r)

  abbrev pub get : ElfNSlice T32 T64 → (idx : ℕ) → Option (ElfN T32 T64)
  get (slice32 rs) idx = wrap32 (get_elem? rs idx)
  get (slice64 rs) idx = wrap64 (get_elem? rs idx)

  -- The iterators all start inside the slice.
  abbrev pub iter : ElfNSlice T32 T64 → (start_idx : ℕ) → List (ElfN T32 T64)
  iter (slice32 rs) start_idx = map b32 (drop start_idx rs)
  iter (slice64 rs) start_idx = map b64 (drop start_idx rs)

abbrev pub ei_nident : ℕ
ei_nident = 16

abbrev pub elfclass32 : ℕ
elfclass32 = 1

abbrev pub elfclass64 : ℕ
elfclass64 = 2

abbrev pub pt_load : ℕ
pt_load = 1

abbrev pub pn_xnum : ℕ
pn_xnum = 0xffff

abbrev pub shf_compressed : ℕ
shf_compressed = 2 ^ 11

abbrev pub shn_undef : ℕ
shn_undef = 0

abbrev pub shn_loreserve : ℕ
shn_loreserve = 0xff00

abbrev pub shn_xindex : ℕ
shn_xindex = 0xffff

abbrev pub sht_nobits : ℕ
sht_nobits = 8

abbrev pub stt_object : ℕ
stt_object = 1

abbrev pub stt_func : ℕ
stt_func = 2

abbrev pub stt_gnu_ifunc : ℕ
stt_gnu_ifunc = 10

abbrev pub elfcompress_zlib : ℕ
elfcompress_zlib = 1

abbrev pub elfcompress_zstd : ℕ
elfcompress_zstd = 2
