-- ===== src/Elf/Translate/Roundtrip.antt =====
-- That the two translations of src/elf/parser.rs undo each other.
use blazesym.Common.{
  ℕ, zero, suc, ◌+◌, ◌%◌, ◌^◌, ◌<◌, ◌≡◌, refl, sym, ap, ◌∙◌, Bool, true, ◌&&◌, Option, some, List,
  [], ◌∷◌, arith, ltb, leb, ◌==◌, get_elem?, Option-cases, inl, inr,
}
use blazesym.Common.Outcome.{ok, ok-injective}
use blazesym.Elf.Types.{iter, to_64bit, pt_load}
use blazesym.Elf.Types.Phdr.{Elf64Phdr, ElfNPhdr, ElfNPhdrs, from_elf32}
use blazesym.Elf.Headers.{parse_phdrs}
use blazesym.Elf.Parser.{ElfParser}
use blazesym.Elf.Translate.{
  first_some, offset_of, addr_of, find_file_offset, file_offset_to_virt_offset,
}

abbrev wide : ElfNPhdr → Elf64Phdr
wide phdr = to_64bit from_elf32 phdr

first_some-get :
    (f : Elf64Phdr → Option ℕ) (phdrs : List ElfNPhdr) (x : ℕ)
    → first_some f phdrs ≡ some x
    → (i : ℕ) × (p : ElfNPhdr) × (get_elem? phdrs i ≡ some p) × (f (wide p) ≡ some x)
unfolding first_some
first_some-get f [] x h = cc
first_some-get f (p ∷ phdrs) x h = elim (Option-cases (f (wide p))) [
  | inl n ↦
      let (i, q, at, e) = first_some-get f phdrs x (rw (n, first_some) at h) in (suc i, q, at, e)
  | inr (y, e) ↦ (0, p, refl, e ∙ rw (e, first_some) at h)
]

first_some-eq :
    (f : Elf64Phdr → Option ℕ) (phdrs : List ElfNPhdr) (x : ℕ) (i : ℕ) (p : ElfNPhdr)
    → get_elem? phdrs i ≡ some p
    → f (wide p) ≡ some x
    → ((j : ℕ) (q : ElfNPhdr) (y : ℕ) → get_elem? phdrs j ≡ some q → f (wide q) ≡ some y → y ≡ x)
    → first_some f phdrs ≡ some x
unfolding first_some
first_some-eq f [] x i p at e only = cc
first_some-eq f (q ∷ phdrs) x zero p at e only =
    let s : q ≡ p = cc in
    let e' : f (wide q) ≡ some x = ap (λ (k : ElfNPhdr). f (wide k)) s ∙ e in
    rw (e', first_some) refl
first_some-eq f (q ∷ phdrs) x (suc i) p at e only = elim (Option-cases (f (wide q))) [
  | inl n ↦
      rw (n, first_some)
        (first_some-eq f phdrs x i p at e (λ j r y at_j e_j. only (suc j) r y at_j e_j))
  | inr (y, e_y) ↦ rw (e_y, first_some) (ap some (only 0 q y refl e_y))
]

-- the segment has the offset in its part of the file
abbrev pub in_file : (offset : ℕ) → Elf64Phdr → Bool
in_file offset p =
    p.p_type == pt_load
    && (leb p.p_offset offset && ltb offset ((p.p_offset + p.p_filesz) % 2 ^ 64))

-- the segment does not reach the end of the numbers, and what is mapped for the address is in the file
abbrev pub IsBacked : (addr : ℕ) → Elf64Phdr → Type 0
IsBacked addr p =
    (p.p_vaddr + p.p_memsz < 2 ^ 64)
    × (p.p_offset + p.p_filesz < 2 ^ 64)
    × (addr < p.p_vaddr + p.p_filesz)

abbrev pub Segments : (addr offset : ℕ) → List ElfNPhdr → Type 0
Segments addr offset phdrs =
    ((i : ℕ) (p : ElfNPhdr)
      → get_elem? phdrs i ≡ some p
      → (x : ℕ) → offset_of addr (to_64bit from_elf32 p) ≡ some x
      → IsBacked addr (to_64bit from_elf32 p))
    × ((i j : ℕ) (p q : ElfNPhdr)
        → get_elem? phdrs i ≡ some p
        → get_elem? phdrs j ≡ some q
        → in_file offset (to_64bit from_elf32 p) ≡ true
        → in_file offset (to_64bit from_elf32 q) ≡ true
        → p ≡ q)

addr_of-offset_of :
    (addr offset : ℕ) (p : Elf64Phdr)
    → IsBacked addr p
    → offset_of addr p ≡ some offset
    → addr_of offset p ≡ some addr
addr_of-offset_of addr offset p (memory, file, backed) h = ground (arith, h)

addr_of-in_file :
    (offset x : ℕ) (p : Elf64Phdr) → addr_of offset p ≡ some x → in_file offset p ≡ true
addr_of-in_file offset x p h = ground (arith, h)

-- Where `find_file_offset` translates an address to an offset of the file,
-- `file_offset_to_virt_offset` translates the offset to the address, if a loaded segment around the
-- address has it in its part of the file and ends in front of 2^64 in the memory and in the file,
-- and only one loaded segment has the offset in its part of the file.
pub file_offset_to_virt_offset-find_file_offset :
    (parser : ElfParser) (phdrs : ElfNPhdrs) (addr offset : ℕ)
    → parse_phdrs parser.mmap ≡ ok phdrs
    → Segments addr offset (iter phdrs 0)
    → find_file_offset parser addr ≡ ok (some offset)
    → file_offset_to_virt_offset parser offset ≡ ok (some addr)
unfolding find_file_offset file_offset_to_virt_offset
file_offset_to_virt_offset-find_file_offset parser phdrs addr offset parsed (backed, single) h =
    let (i, p, at, e) =
      first_some-get (offset_of addr) (iter phdrs 0) offset
        (ok-injective (rw (parsed, find_file_offset) at h)) in
    let back = addr_of-offset_of addr offset (wide p) (backed i p at offset e) e in
    rw (parsed, file_offset_to_virt_offset)
      (ap ok (
        first_some-eq (addr_of offset) (iter phdrs 0) addr i p at back (λ j q y at_q e_q.
          let same : q ≡ p =
            single j i q p at_q at (addr_of-in_file offset y (wide q) e_q)
              (addr_of-in_file offset addr (wide p) back) in
          some-injective (sym e_q ∙ (ap (λ (k : ElfNPhdr). addr_of offset (wide k)) same ∙ back)))))
  where
    some-injective : {a b : ℕ} → Path (Option ℕ) (some a) (some b) → a ≡ b
    some-injective e = cc
