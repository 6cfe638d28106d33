-- ===== src/Elf/Sections.antt =====
-- `Cache` of src/elf/parser.rs: the sections of an ELF file and its symbol tables. The cells that
-- keep what was parsed are left out.
pub mod Find
pub mod Bounds
use blazesym.Common.{
  ℕ, zero, suc, ◌+◌, ◌-◌, ◌/◌, ◌%◌, Bool, true, false, ◌&&◌, ◌||◌, not, Option, none, some, List,
  [], ◌∷◌, map, get_elem?, ◌==◌, if◌then◌else◌, bit_and,
}
use blazesym.Common.Outcome.{
  Outcome, ok, err, ◌>>=◌, ok_or_invalid_data, ok_or_invalid_input, invalid_data, unsupported,
}
use blazesym.Util.Order.{bytes_eq}
use blazesym.Util.Slice.{Slice, slice, chunks, read_pod_ref}
use blazesym.Util.Utf8.{from_utf8}
use blazesym.Elf.Types.{
  ElfN, b32, b64, slice32, slice64, is_32bit, to_64bit, empty, len, get, ei_nident, elfclass32,
  elfclass64, pn_xnum, shf_compressed, shn_xindex, sht_nobits, elfcompress_zlib, elfcompress_zstd,
}
use blazesym.Elf.Types.Ehdr
use blazesym.Elf.Types.Ehdr.{ElfNEhdr, elf32_ehdr, elf64_ehdr}
use blazesym.Elf.Types.Phdr.{ElfNPhdrs, elf32_phdr, elf64_phdr}
use blazesym.Elf.Types.Shdr
use blazesym.Elf.Types.Shdr.{ElfNShdr, ElfNShdrs, elf32_shdr, elf64_shdr}
use blazesym.Elf.Types.Sym.{ElfNSyms, elf32_sym, elf64_sym}
use blazesym.Elf.Types.Chdr.{elf32_chdr, elf64_chdr}
use blazesym.Elf.Backend.{read_pod_obj, read_pod_slice}
use blazesym.Elf.SymTab.{cstr_at}
use blazesym.Elf.Headers.{parse_ehdr, parse_shdrs, read_first_shdr}

unfoldable pub section_hdr : Slice → (idx : ℕ) → Outcome ElfNShdr
unfolding parse_shdrs
section_hdr mmap idx = parse_shdrs mmap >>= λ shdrs. ok_or_invalid_input (get shdrs idx)

-- The data of a section, by its header.
pub header_data : Slice → ElfNShdr → Outcome Slice
unfolding read_pod_slice
header_data mmap shdr = read_pod_slice 1 1 (Shdr.offset shdr) (Shdr.size shdr) mmap

pub section_data_raw : Slice → (idx : ℕ) → Outcome Slice
unfolding section_hdr header_data
section_data_raw mmap idx = section_hdr mmap idx >>= λ shdr.
    if Shdr.type_of shdr == sht_nobits then ok (slice 0 []) else header_data mmap shdr

-- The decompressors are those of the crates `miniz_oxide` and `zstd`; they choose where their result
-- lies.
module _ (decompress_zlib decompress_zstd : List ℕ → Outcome Slice) where
  pub decompress : (ch_type : ℕ) → List ℕ → Outcome Slice
  decompress ch_type contents =
      if ch_type == elfcompress_zlib
      then decompress_zlib contents
      else if ch_type == elfcompress_zstd
      then decompress_zstd contents
      else err unsupported

  -- The contents of a section that is not compressed, or is compressed behind a header of its own.
  pub section_contents : ElfNShdr → Slice → Outcome Slice
  unfolding decompress read_pod_ref elf32_chdr elf64_chdr
  section_contents shdr contents =
      let (chdr32, rest32) = read_pod_ref 12 4 contents in
      let (chdr64, rest64) = read_pod_ref 24 8 contents in
      if bit_and (Shdr.flags shdr) shf_compressed == 0
      then ok contents
      else if is_32bit shdr
      then (ok_or_invalid_data chdr32 >>= λ chdr.
          decompress (elf32_chdr chdr.bytes).ch_type rest32.bytes)
      else (ok_or_invalid_data chdr64 >>= λ chdr.
          decompress (elf64_chdr chdr.bytes).ch_type rest64.bytes)

  unfoldable pub section_data : Slice → (idx : ℕ) → Outcome Slice
  unfolding section_contents section_hdr header_data
  section_data mmap idx = section_hdr mmap idx >>= λ shdr.
      if Shdr.type_of shdr == sht_nobits
      then ok (slice 0 [])
      else (header_data mmap shdr >>= λ contents. section_contents shdr contents)

pub shstrndx : Slice → ElfNEhdr → Outcome ℕ
unfolding read_first_shdr
shstrndx mmap ehdr =
    if Ehdr.shstrndx ehdr == shn_xindex
    then (read_first_shdr mmap ehdr >>= λ shdr. ok (Shdr.link shdr))
    else ok (Ehdr.shstrndx ehdr)

pub parse_shstrtab : Slice → Outcome Slice
unfolding parse_ehdr shstrndx section_data_raw
parse_shstrtab mmap = do
  ehdr ← parse_ehdr mmap
  idx ← shstrndx mmap ehdr.ehdr
  section_data_raw mmap idx

unfoldable pub section_name : Slice → (idx : ℕ) → Outcome (List ℕ)
unfolding section_hdr parse_shstrtab cstr_at
section_name mmap idx = do
  shdr ← section_hdr mmap idx
  shstrtab ← parse_shstrtab mmap
  name ← cstr_at shstrtab (Shdr.name shdr)
  from_utf8 name

-- The loop over the `count` sections from `i` on.
unfoldable pub find_section_from : Slice → (name : List ℕ) → (count i : ℕ) → Outcome (Option ℕ)
find_section_from mmap name zero i = ok none
find_section_from mmap name (suc count) i =
    let rest = find_section_from mmap name count (i + 1) in
    section_name mmap i >>= λ found. if bytes_eq found name then ok (some i) else rest

unfoldable pub find_section : Slice → (name : List ℕ) → Outcome (Option ℕ)
find_section mmap name = parse_ehdr mmap >>= λ ehdr. find_section_from mmap name (ehdr.shnum - 1) 1

-- The symbols of a section that has some, in the form of the header.
read_syms : Slice → (bit32 : Bool) → ElfNShdr → Outcome ElfNSyms
unfolding read_pod_slice chunks elf32_sym elf64_sym
read_syms mmap bit32 shdr =
    let sym_size = if bit32 then 16 else 24 in
    let count = Shdr.size shdr / sym_size in
    if not (Shdr.size shdr % sym_size == 0)
    then err invalid_data
    else if count == 0
    then ok (empty bit32)
    else if bit32
    then (read_pod_slice 16 4 (Shdr.offset shdr) count mmap >>= λ part.
        ok (slice32 (map elf32_sym (chunks 16 count part.bytes))))
    else (read_pod_slice 24 8 (Shdr.offset shdr) count mmap >>= λ part.
        ok (slice64 (map elf64_sym (chunks 24 count part.bytes))))

-- Without a symbol table there are no symbols.
unfoldable pub parse_syms : Slice → (section : List ℕ) → Outcome ElfNSyms
unfolding parse_ehdr find_section section_hdr read_syms
parse_syms mmap section = do
  ehdr ← parse_ehdr mmap
  let bit32 = is_32bit ehdr.ehdr
  idx? ← find_section mmap section
  elim idx? [
    | none ↦ ok (empty bit32)
    | some idx ↦
        (section_hdr mmap idx >>= λ shdr.
        if Shdr.type_of shdr == sht_nobits then ok (empty bit32) else read_syms mmap bit32 shdr)
  ]

unfoldable pub parse_strs : Slice → (section : List ℕ) → Outcome Slice
unfolding find_section section_data_raw
parse_strs mmap section = do
  idx? ← find_section mmap section
  elim idx? [ none ↦ ok (slice 0 []) | some idx ↦ section_data_raw mmap idx ]
