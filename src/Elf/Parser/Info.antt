-- ===== src/Elf/Parser/Info.antt =====
-- What `ElfParser::find_addr_impl` of src/elf/parser.rs says of a symbol.
use blazesym.Common.{
  ℕ, ◌≡◌, sym, ap, ◌∙◌, Option, none, some, List, if◌then◌else◌, Bool-cases, inl, inr,
}
use blazesym.Common.Outcome.{ok, ok-injective, unwrap, >>=-eq-ok}
use blazesym.Util.Order.{bytes_ord}
use blazesym.Util.Slice.{Slice}
use blazesym.Util.Utf8.{is_utf8, from_utf8}
use blazesym.Inspect.{SymInfo, FindAddrOpts}
use blazesym.Elf.Types.Shdr.{ElfNShdrs}
use blazesym.Elf.Types.Sym.{Elf64Sym, type_of64, try_from_elf_type}
use blazesym.Elf.SymTab.{SymName, name_bytes, name_text}
use blazesym.Elf.Parser.{file_offset, sym_info}

-- what the information has of the name and the symbol
abbrev pub IsInfo : (name : List ℕ) → Elf64Sym → SymInfo → Type 0
IsInfo name sym info =
    (info.name ≡ name) × (info.addr ≡ sym.st_value) × (info.size ≡ some sym.st_size)

from_utf8-ok : (text text' : List ℕ) → from_utf8 text ≡ ok text' → text' ≡ text
from_utf8-ok text text' h = elim (Bool-cases (is_utf8 text)) [
  | inl t ↦ sym (ok-injective (rw t at h))
  | inr f ↦ absurd (let e = rw f at h in cc)
]

pub sym_info-IsInfo :
    (opts : FindAddrOpts) (path : Option (List ℕ)) (shdrs : ElfNShdrs) (strs : Slice) (n : SymName)
    (s : Elf64Sym) (info : SymInfo)
    → sym_info opts path shdrs strs n s ≡ ok info
    → IsInfo (name_bytes n strs) s info
unfolding sym_info
sym_info-IsInfo opts path shdrs strs n s info h =
    let (text, e, h1) = >>=-eq-ok (name_text n strs) _ h in
    let (type_, e1, h2) = >>=-eq-ok (unwrap (try_from_elf_type (type_of64 s))) _ h1 in
    let (offset, e2, h3) =
      >>=-eq-ok (if opts.offset_in_file then file_offset shdrs s else ok none) _ h2 in
    let made = ok-injective h3 in
    (
      ap (λ (i : SymInfo). i.name) (sym made) ∙ from_utf8-ok (name_bytes n strs) text e,
      ap (λ (i : SymInfo). i.addr) (sym made),
      ap (λ (i : SymInfo). i.size) (sym made),
    )
