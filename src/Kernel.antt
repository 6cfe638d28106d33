-- ===== src/Kernel.antt =====
-- src/kernel: the resolver that combines vmlinux and kallsyms (resolver.rs), and the offset of the
-- kernel in the notes of /proc/kcore (kaslr.rs). The bytes of that file are a `Slice`.
pub mod Returns
pub mod Combined
pub mod Vmcoreinfo
use blazesym.Common.{
  ℕ, zero, suc, ◌+◌, ◌-◌, ◌*◌, ◌/◌, ◌%◌, ◌^◌, Bool, true, false, ◌&&◌, not, Option, none, some,
  List, [], ◌∷◌, ◌++◌, ltb, leb, ◌==◌, if◌then◌else◌, length, take, drop,
}
use blazesym.Common.Outcome.{
  Outcome, ok, err, stuck, ◌>>=◌, ok_or_invalid_data, ok_or_invalid_input, invalid_data, not_found,
  unexpected_eof,
}
use blazesym.Symbolize.{FindSymOpts, Found}
use blazesym.Symbolize
use blazesym.Util.Bytes.{split_bytes, from_radix_16}
use blazesym.Util.Order.{bytes_eq}
use blazesym.Util.Slice.{Slice, field}
use blazesym.Util.Text.{split}
use blazesym.Elf.Types.{iter}
use blazesym.Elf.Types.Phdr
use blazesym.Elf.Types.Phdr.{ElfNPhdr, ElfNPhdrs}

-- `Symbolize::find_sym` of a resolver.
abbrev pub FindSym : Type 0
FindSym = (addr : ℕ) → FindSymOpts → Outcome Found

pub record KernelResolver : Type 0 where
  pub ksym_resolver : Option FindSym
  pub elf_resolver : Option FindSym
  pub kaslr_offset : ℕ

abbrev pub is_none : Option FindSym → Bool
is_none none = true
is_none (some resolver) = false

-- The offset of the system is asked for where none is given; without one it is zero.
abbrev pub offset_or :
    (kaslr_offset : Option ℕ) → (find_kalsr_offset : Outcome (Option ℕ)) → Outcome ℕ
offset_or (some offset) find_kalsr_offset = ok offset
offset_or none find_kalsr_offset =
    find_kalsr_offset >>= λ offset?. ok (elim offset? [ none ↦ 0 | some offset ↦ offset ])

unfoldable pub new :
    (ksym_resolver elf_resolver : Option FindSym)
    → (kaslr_offset : Option ℕ) → (find_kalsr_offset : Outcome (Option ℕ)) → Outcome KernelResolver
new ksym_resolver elf_resolver kaslr_offset find_kalsr_offset =
    if is_none ksym_resolver && is_none elf_resolver
    then err not_found
    else (offset_or kaslr_offset find_kalsr_offset >>= λ offset. ok (record {
      ksym_resolver = ksym_resolver;
      elf_resolver = elf_resolver;
      kaslr_offset = offset;
    }))

-- `addr.checked_sub(self.kaslr_offset)`.
abbrev pub checked_sub : (a b : ℕ) → Option ℕ
checked_sub a b = if ltb a b then none else some (a - b)

abbrev pub elf_addr : KernelResolver → (addr : ℕ) → Outcome ℕ
elf_addr resolver addr = ok_or_invalid_input (checked_sub addr resolver.kaslr_offset)

abbrev pub or_else : Found → Outcome Found → Outcome Found
or_else (Symbolize.found sym) other = ok (Symbolize.found sym)
or_else (Symbolize.not_found reason) other = other

-- Without both it panics, which `new` rules out.
unfoldable pub find_sym : KernelResolver → (addr : ℕ) → FindSymOpts → Outcome Found
find_sym resolver addr opts = elim (resolver.elf_resolver) [
  | some elf ↦ elim (resolver.ksym_resolver) [
    | none ↦ (elf_addr resolver addr >>= λ a. elf a opts)
    | some ksym ↦ do
      a ← elf_addr resolver addr
      result ← elf a opts
      or_else result (ksym addr opts)
  ]
  | none ↦ elim (resolver.ksym_resolver) [ none ↦ stuck | some ksym ↦ ksym addr opts ]
]

-- `align_up_u32`: up to a multiple of a power of two, which wraps.
unfoldable pub align_up_u32 : (value align_to : ℕ) → ℕ
align_up_u32 value align_to = (value + (align_to - 1)) % 2 ^ 32 / align_to * align_to

-- `BackendImpl` for a file: what is read lies in front of the end.
pub read_exact : (offset size : ℕ) → Slice → Outcome (List ℕ)
read_exact offset size file =
    if leb (offset + size) (length file.bytes)
    then ok (take size (drop offset file.bytes))
    else err unexpected_eof

-- The pairs of the lines that have a '='.
pub split_pairs : List (List ℕ) → List (List ℕ × List ℕ)
unfolding split_bytes
split_pairs [] = []
split_pairs (line ∷ lines) =
    let rest = split_pairs lines in
    elim (split_bytes line (λ b. b == b'=')) [ none ↦ rest | some pair ↦ pair ∷ rest ]

pub parse_vmcoreinfo_desc : List ℕ → List (List ℕ × List ℕ)
unfolding split_pairs split
parse_vmcoreinfo_desc desc = split_pairs (split (λ b. b == 10) desc)

-- "KERNELOFFSET"
abbrev pub kernel_offset_key : List ℕ
kernel_offset_key =
    b'K' ∷ b'E' ∷ b'R' ∷ b'N' ∷ b'E' ∷ b'L' ∷ b'O' ∷ b'F' ∷ b'F' ∷ b'S' ∷ b'E' ∷ b'T' ∷ []

-- `.find(..).map(..).transpose()`.
pub kernel_offset : List (List ℕ × List ℕ) → Outcome (Option ℕ)
unfolding from_radix_16
kernel_offset [] = ok none
kernel_offset ((key, value) ∷ pairs) =
    let rest = kernel_offset pairs in
    if bytes_eq key kernel_offset_key
    then (ok_or_invalid_data (from_radix_16 value) >>= λ offset. ok (some offset))
    else rest

abbrev pub vmcoreinfo_name : List ℕ
vmcoreinfo_name = b'V' ∷ b'M' ∷ b'C' ∷ b'O' ∷ b'R' ∷ b'E' ∷ b'I' ∷ b'N' ∷ b'F' ∷ b'O' ∷ 0 ∷ []

-- The name of a note, or none where it has no size.
abbrev pub note_name : (offset namesz : ℕ) → Slice → Outcome (List ℕ)
note_name offset namesz file = if namesz == 0 then ok [] else read_exact offset namesz file

-- What a round of the loop does: it returns, or goes on at an offset.
pub data Step : Type 0 where
  finished : Option ℕ → Step
  go_on : (offset : ℕ) → Step

-- The note at an offset. Behind a read that is in front of the end of the file no sum wraps.
unfoldable pub read_note : (offset : ℕ) → Slice → Outcome Step
unfolding read_exact align_up_u32 parse_vmcoreinfo_desc kernel_offset field
read_note offset file = read_exact offset 12 file >>= λ nhdr.
    let namesz = field 0 4 nhdr in
    let descsz = field 4 4 nhdr in
    let desc_offset = offset + 12 + align_up_u32 namesz 4 in
    note_name (offset + 12) namesz file >>= λ name.
    if bytes_eq name vmcoreinfo_name && not (descsz == 0)
    then (read_exact desc_offset descsz file >>= λ desc.
        kernel_offset (parse_vmcoreinfo_desc desc) >>= λ found. ok (finished found))
    else ok (go_on (desc_offset + align_up_u32 descsz 4))

-- The loop over the notes of a segment, which compares an offset with a size as the source does. The
-- fuel bounds its rounds.
unfoldable pub scan_notes : (fuel offset file_size : ℕ) → Slice → Outcome (Option ℕ)
unfolding read_note
scan_notes zero offset file_size file =
    if leb ((offset + 12) % 2 ^ 64) file_size then stuck else ok none
scan_notes (suc fuel) offset file_size file =
    if leb ((offset + 12) % 2 ^ 64) file_size
    then (read_note offset file >>= λ step. elim step [
      | finished found ↦ ok found
      | go_on next ↦ scan_notes fuel next file_size file
    ])
    else ok none

abbrev pub pt_note : ℕ
pt_note = 4

-- Every note takes twelve bytes at least.
pub scan_segments : List ElfNPhdr → Slice → Outcome (Option ℕ)
unfolding scan_notes
scan_segments [] file = ok none
scan_segments (phdr ∷ phdrs) file =
    let rest = scan_segments phdrs file in
    if not (Phdr.type_of phdr == pt_note)
    then rest
    else (scan_notes (suc (Phdr.file_size phdr)) (Phdr.offset phdr) (Phdr.file_size phdr) file
        >>= λ found. elim found [ none ↦ rest | some offset ↦ ok (some offset) ])

pub read_kcore_kaslr_offset : ElfNPhdrs → Slice → Outcome (Option ℕ)
unfolding scan_segments
read_kcore_kaslr_offset phdrs file = scan_segments (iter phdrs 0) file
