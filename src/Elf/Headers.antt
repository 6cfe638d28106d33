-- ===== src/Elf/Headers.antt =====
-- `Cache` of src/elf/parser.rs: the header of an ELF file and its tables of section and program
-- headers, over memory mapped data. The cells that keep what was parsed are left out: an `ensure_*`
-- is the `parse_*` that it calls, which answers the same each time.
use blazesym.Common.{
  ℕ, Bool, ◌&&◌, ◌||◌, not, none, some, List, map, get_elem?, ◌==◌, if◌then◌else◌,
}
use blazesym.Common.Outcome.{Outcome, ok, err, ◌>>=◌, invalid_data, unsupported}
use blazesym.Util.Slice.{Slice, chunks}
use blazesym.Elf.Types.{
  b32, b64, slice32, slice64, is_32bit, to_64bit, ei_nident, elfclass32, elfclass64, pn_xnum,
}
use blazesym.Elf.Types.Ehdr
use blazesym.Elf.Types.Ehdr.{ElfNEhdr, elf32_ehdr, elf64_ehdr}
use blazesym.Elf.Types.Phdr.{ElfNPhdrs, elf32_phdr, elf64_phdr}
use blazesym.Elf.Types.Shdr
use blazesym.Elf.Types.Shdr.{ElfNShdr, ElfNShdrs, elf32_shdr, elf64_shdr}
use blazesym.Elf.Backend.{read_pod_obj, read_pod_slice}

pub record EhdrExt : Type 0 where
  pub ehdr : ElfNEhdr
  pub shnum : ℕ
  pub phnum : ℕ

-- `e_ident[i]`, of sixteen bytes
abbrev pub byte_at : List ℕ → (i : ℕ) → ℕ
byte_at bytes i = elim (get_elem? bytes i) [ none ↦ 0 | some b ↦ b ]

abbrev pub is_magic : List ℕ → Bool
is_magic e_ident =
    ((byte_at e_ident 0 == 0x7f && byte_at e_ident 1 == b'E') && byte_at e_ident 2 == b'L')
    && byte_at e_ident 3 == b'F'

unfoldable pub read_first_shdr : Slice → ElfNEhdr → Outcome ElfNShdr
unfolding read_pod_obj elf32_shdr elf64_shdr
read_first_shdr mmap ehdr =
    if is_32bit ehdr
    then (read_pod_obj 40 4 (Ehdr.shoff ehdr) mmap >>= λ bytes. ok (b32 (elf32_shdr bytes)))
    else (read_pod_obj 64 8 (Ehdr.shoff ehdr) mmap >>= λ bytes. ok (b64 (elf64_shdr bytes)))

read_ehdr : Slice → (bit32 : Bool) → Outcome ElfNEhdr
unfolding read_pod_obj elf32_ehdr elf64_ehdr
read_ehdr mmap bit32 =
    if bit32
    then (read_pod_obj 52 4 0 mmap >>= λ bytes. ok (b32 (elf32_ehdr bytes)))
    else (read_pod_obj 64 8 0 mmap >>= λ bytes. ok (b64 (elf64_ehdr bytes)))

-- The number of sections: where there are too many for the header, it is in the first section header.
-- A `usize` has the 64 bits of every number that is converted.
read_shnum : Slice → ElfNEhdr → Outcome ℕ
unfolding read_first_shdr
read_shnum mmap ehdr =
    if Ehdr.shnum ehdr == 0
    then (read_first_shdr mmap ehdr >>= λ shdr. ok (to_64bit Shdr.from_elf32 shdr).sh_size)
    else ok (Ehdr.shnum ehdr)

read_phnum : Slice → ElfNEhdr → Outcome ℕ
unfolding read_first_shdr
read_phnum mmap ehdr =
    if Ehdr.phnum ehdr == pn_xnum
    then (read_first_shdr mmap ehdr >>= λ shdr. ok (to_64bit Shdr.from_elf32 shdr).sh_info)
    else ok (Ehdr.phnum ehdr)

read_ehdr_ext : Slice → (bit32 : Bool) → Outcome EhdrExt
unfolding read_ehdr read_shnum read_phnum
read_ehdr_ext mmap bit32 = do
  ehdr ← read_ehdr mmap bit32
  shnum ← read_shnum mmap ehdr
  phnum ← read_phnum mmap ehdr
  ok (record { ehdr = ehdr; shnum = shnum; phnum = phnum })

unfoldable pub parse_ehdr : Slice → Outcome EhdrExt
unfolding read_pod_slice read_ehdr_ext
parse_ehdr mmap = read_pod_slice 1 1 0 ei_nident mmap >>= λ e_ident.
    let class = byte_at e_ident.bytes 4 in
    if not (is_magic e_ident.bytes)
    then err invalid_data
    else if class == elfclass32 || class == elfclass64
    then read_ehdr_ext mmap (class == elfclass32)
    else err unsupported

unfoldable pub parse_shdrs : Slice → Outcome ElfNShdrs
unfolding parse_ehdr read_pod_slice chunks elf32_shdr elf64_shdr
parse_shdrs mmap = parse_ehdr mmap >>= λ ehdr.
    let e_shoff = Ehdr.shoff ehdr.ehdr in
    if is_32bit ehdr.ehdr
    then (read_pod_slice 40 4 e_shoff ehdr.shnum mmap >>= λ part.
        ok (slice32 (map elf32_shdr (chunks 40 ehdr.shnum part.bytes))))
    else (read_pod_slice 64 8 e_shoff ehdr.shnum mmap >>= λ part.
        ok (slice64 (map elf64_shdr (chunks 64 ehdr.shnum part.bytes))))

unfoldable pub parse_phdrs : Slice → Outcome ElfNPhdrs
unfolding parse_ehdr read_pod_slice chunks elf32_phdr elf64_phdr
parse_phdrs mmap = parse_ehdr mmap >>= λ ehdr.
    let e_phoff = Ehdr.phoff ehdr.ehdr in
    if is_32bit ehdr.ehdr
    then (read_pod_slice 32 4 e_phoff ehdr.phnum mmap >>= λ part.
        ok (slice32 (map elf32_phdr (chunks 32 ehdr.phnum part.bytes))))
    else (read_pod_slice 56 8 e_phoff ehdr.phnum mmap >>= λ part.
        ok (slice64 (map elf64_phdr (chunks 56 ehdr.phnum part.bytes))))
