-- ===== src/Lib.antt =====
-- The symbolization core of blazesym. A resolver answers for an address with the symbol around it,
-- from the file format that it was made for. The modelled resolvers read ELF symbol tables, Gsym and
-- Breakpad files, the text of /proc/kallsyms and the perf maps of just-in-time compilers; the kernel's
-- resolver combines two of them. All of them search sorted tables with the binary search of src/util.rs
-- and read binary data with the reader of the same file. The entries of /proc/<pid>/maps say which file
-- is mapped where: normalization turns the addresses of a process into offsets of such files. A file
-- may be part of a zip archive.
--
-- Common: names of the libraries, tests on numbers, lists, bits, and the outcome of fallible code.
--   `Outcome` (Common/Outcome) is `crate::Result` with an error for its kind (src/error.rs); `stuck`
--   is what the model returns where the code panics, or where its fuel runs out.
-- Util: src/util.rs. Util/Search has the searches (`find_match_or_lower_bound_by_key`,
--   `find_lowest_match_by_key`), with Partition, LowerBound, Runs, LowestMatch and Exact for their
--   answers; Util/Reorder `reorder` and `with_ordered_elems`, with proofs in Swap, Settle and
--   Ordered; Util/Cover the search for what covers an address, which perf maps and Breakpad files
--   share; Util/Bytes the byte strings (`split_bytes`, `split_once`, `trim_ascii`,
--   `from_radix_16`); Util/Slice and Util/Leb128 the trait `ReadRaw`, and Util/Rest what each
--   reader leaves. Util/Order is `Ord`, Util/Sort the stable sort (with Distinct), and Util/Text
--   and Util/Utf8 what the parsers of text use of the standard library.
-- Symbolize and Inspect: the types of src/symbolize/mod.rs, src/inspect/mod.rs and src/lib.rs.
-- Gsym: src/gsym. Types are the structs, Parser is `GsymContext` with `parse_address_data`, LineTab
--   the machine of the line tables (`run_op`), Inline the tree of inlined functions
--   (`InlineInfo::parse`, `inline_stack`), and Resolver is `GsymResolver` (`find_sym`,
--   `fill_code_info`, `parse_line_tab_info`). The modules below them hold proofs: Parser/Table on the
--   address table, Parser/AddressData on the address data, LineTab/Special and LineTab/Consume on the
--   operators, Inline/Fuel and Inline/Stack on the tree, and Resolver/Covers, Resolver/Closest,
--   Resolver/Lines and Resolver/Inlined on the answer.
-- Ksym: src/kernel/ksym.rs in the build without the feature `bpf`. PerfMap: src/perf_map.rs. Maps:
--   src/maps.rs. Zip: src/zip.rs, with its packed structs in Zip/Format. InsertMap:
--   src/insert_map.rs. Their proofs are in Ksym/Find and Ksym/Name, PerfMap/Find and
--   PerfMap/Complete, Maps/Path and Maps/Line, and Zip/Scan, Zip/Directory and Zip/Entries. Maps/Shown
--   has the lines as the kernel prints them, and Zip/Record the end of central directory record.
-- Elf: src/elf/parser.rs and src/elf/types.rs. Types has the structs of both classes, Backend the reads
--   of memory mapped data (`BackendImpl` for a slice), Headers and Sections the class `Cache` with the
--   tables that it parses (`parse_ehdr`, `section_data`, `find_section`, `parse_syms`), SymTab
--   `SymbolTableCache` and `find_sym`, Parser the methods of `ElfParser` (`find_sym`, `find_addr`,
--   `for_each`), and Translate `find_file_offset` and `file_offset_to_virt_offset`. Proofs are in
--   SymTab/Index, SymTab/Find, SymTab/Complete, Parser/Names, Parser/Lookup, Parser/Info, Parser/ByName,
--   Sections/Find, Sections/Bounds and Translate/Roundtrip.
-- Breakpad: src/breakpad. The symbol file of types.rs with what `SymbolParser::finish` does to it, and
--   in Resolver the methods of `BreakpadResolver`; proofs are in Inlinees, Symbols and Resolver.
-- Normalize: src/normalize. `normalize_sorted_user_addrs_with_entries` over an interface `Handler` (a
--   record of the trait's methods), `NormalizationHandler`, and in BuildId `read_build_id`; proofs are
--   in Walk, View, Outputs, Refinement, Unsorted, BuildId/Notes and BuildId/Panics.
-- Kernel: src/kernel/resolver.rs and src/kernel/kaslr.rs, with proofs in Combined, Returns and Vmcoreinfo.
-- Examples: the theorems at concrete inputs.
--
-- A slice `&[u8]` is the record `Slice` of its address and its bytes, and a method on `&mut &[u8]`
-- returns the slice that it leaves. Numbers are natural numbers with the wrap-around of the release
-- profile written out; an `i64` is its bit pattern. Texts and paths are lists of bytes. Hosts are
-- 64-bit, little-endian and Unix.
--
-- Fuel: the loop of `parse_line_tab_info` gets the length of its data, as each operator takes a
-- byte at least; `parse_address_data` gets the length of its data, as each item takes eight bytes;
-- the parser of the inline tree gets twice the length and one, as each call takes a byte at least;
-- a binary search gets the length of its slice. At zero these loops have nothing left to do, but
-- for the parser of the inline tree, whose fuel is shown to be enough. Printing a number in
-- hexadecimal takes sixteen rounds. The inner loop of `reorder` gets the number of indices and
-- one, as each swap puts an index in its place. The loop of `find_inlinees` gets a round for each
-- depth that an inlinee has and one more. The loop over the notes of a segment gets the size of
-- the segment and one, the one over the notes of a section the length of its data, as each note
-- takes twelve bytes.
--
-- Parameters: the decompressors of `miniz_oxide` and `zstd`, `Path::extension` and `Path::components`
-- of the standard library, the build ID reader that a path is given to, and the offset that the system
-- reports for the kernel.
--
-- Not modelled: DWARF, which rests on the crate gimli; the grammar of Breakpad lines, which rests
-- on nom; the queries of maps entries by ioctl and of BPF programs; the symbolizer and inspector
-- with their caches. Opening and mapping files, the cells that keep what was computed, the texts
-- of errors and `Debug` are left out everywhere.

pub mod Common
pub mod Util
pub mod Symbolize
pub mod Inspect
pub mod Gsym
pub mod PerfMap
pub mod Ksym
pub mod Maps
pub mod Zip
pub mod InsertMap
pub mod Elf
pub mod Breakpad
pub mod Normalize
pub mod Kernel
mod Examples
