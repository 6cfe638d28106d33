-- ===== src/Elf/SymTab/Find.antt =====
-- What the free function `find_sym` of src/elf/parser.rs finds in a symbol table for an address.
use blazesym.Common.{
  ℕ, zero, suc, ◌+◌, ◌≤◌, ◌<◌, ◌≡◌, ◌≢◌, ◌⊎◌, ◌%◌, ◌^◌, refl, sym, ap, ◌∙◌, Bool, true, false, ◌&&◌,
  ◌||◌, not, ◌==◌, Option, none, some, List, [], ◌∷◌, arith, ltb, ltb→le, le→ltb, get_elem?,
  get_elem?-drop, drop, Bool-cases, inl, inr,
}
use blazesym.Common.Outcome.{ok, ok-injective, >>=-eq-ok}
use blazesym.Util.Order.{nat_ord}
use blazesym.Util.Search.{find_match_or_lower_bound_by_key}
use blazesym.Util.Search.LowerBound.{IsLowerBound, find_match_or_lower_bound_by_key_lem}
use blazesym.Util.Slice.{Slice}
use blazesym.Symbolize.{ResolvedSym, unknown}
use blazesym.Inspect.{SymType, undefined}
use blazesym.Elf.Types.{get, to_64bit, shn_undef}
use blazesym.Elf.Types.Sym
use blazesym.Elf.Types.Sym.{Elf64Sym, ElfNSym, ElfNSyms, from_elf32, matches, matches64}
use blazesym.Elf.SymTab.{
  is_match, symbol_name, symbol_size, resolved, scan, find_sym, sym_at, sym64_at, value_at,
  create_by_addr_idx,
}
use blazesym.Elf.SymTab.Index.{
  value-to_64bit, create_by_addr_idx-get, create_by_addr_idx-from, sym_at-get,
  create_by_addr_idx-IsSortedBy,
}

-- no symbol of a supported type starts at the address or in front of it, but behind `s`
abbrev pub IsClosest : ElfNSyms → (addr : ℕ) → ElfNSym → Type 0
IsClosest syms addr s =
    (j : ℕ) (t : ElfNSym)
    → get syms j ≡ some t
    → matches t undefined ≡ true
    → Sym.value t ≤ addr
    → Sym.value t ≤ Sym.value s

scan-some :
    (syms : ElfNSyms) (idxs : List ℕ) (strtab : Slice) (addr : ℕ) (type_ : SymType)
    (r : ResolvedSym)
    → scan syms idxs strtab addr type_ ≡ ok (some r)
    → (p : ℕ) × (idx : ℕ) × (get_elem? idxs p ≡ some idx)
      × ((sym64_at syms idx).st_value ≤ addr)
      × (is_match (sym64_at syms idx) addr type_ ≡ true)
      × (resolved strtab (sym64_at syms idx) ≡ ok (some r))
unfolding scan
scan-some syms [] strtab addr type_ r h = absurd (let q : none ≡ some r = ok-injective h in cc)
scan-some syms (idx ∷ idxs) strtab addr type_ r h =
    elim (Bool-cases (ltb addr (sym64_at syms idx).st_value)) [
      | inl past ↦ absurd (let q : none ≡ some r = ok-injective (rw (past, scan) at h) in cc)
      | inr near ↦ elim (Bool-cases (is_match (sym64_at syms idx) addr type_)) [
        | inl t ↦ (
          0,
          idx,
          refl,
          ltb→le addr (sym64_at syms idx).st_value near,
          t,
          rw (near, t, scan) at h,
        )
        | inr t ↦
            let (p, i, at, le, m, e) =
              scan-some syms idxs strtab addr type_ r (rw (near, t, scan) at h) in
            (suc p, i, at, le, m, e)
      ]
    ]

-- the symbol has the type and is defined, and has no size or the address is in front of its wrapped
-- end
abbrev pub Covers : Elf64Sym → (addr : ℕ) → SymType → Type 0
Covers s addr type_ =
    (matches64 s type_ ≡ true)
    × (s.st_shndx ≢ shn_undef)
    × ((s.st_size ≡ 0) ⊎ (addr < (s.st_value + s.st_size) % 2 ^ 64))

-- the answer has the symbol's name, start and size
abbrev pub Describes : (strtab : Slice) → Elf64Sym → ResolvedSym → Type 0
Describes strtab s r =
    (symbol_name strtab s ≡ ok r.name) × (r.addr ≡ s.st_value) × (r.size ≡ symbol_size s)

is_match-Covers :
    (s : Elf64Sym) (addr : ℕ) (type_ : SymType) → is_match s addr type_ ≡ true → Covers s addr type_
is_match-Covers s addr type_ h =
    read_off (matches64 s type_) s.st_shndx s.st_size ((s.st_value + s.st_size) % 2 ^ 64) h
  where
    read_off :
        (m : Bool) (shndx size end : ℕ)
        → ((m && not (shndx == shn_undef)) && (size == 0 || ltb addr end)) ≡ true
        → (m ≡ true) × (shndx ≢ shn_undef) × ((size ≡ 0) ⊎ (addr < end))
    read_off m shndx size end h = (ground arith, ground arith, ground arith)

resolved-Describes :
    (strtab : Slice) (s : Elf64Sym) (r : ResolvedSym)
    → resolved strtab s ≡ ok (some r)
    → Describes strtab s r
unfolding resolved
resolved-Describes strtab s r h =
    let (name, e, e') = >>=-eq-ok (symbol_name strtab s) _ h in
    let q = ok-injective e' in
    let own : (record {
      name = name;
      addr = s.st_value;
      size = symbol_size s;
      lang = unknown;
      code_info = none;
      inlined = [];
    })
        ≡ r =
      cc in
    (
      e ∙ ap (λ (k : ResolvedSym). ok k.name) own,
      ap (λ (k : ResolvedSym). k.addr) (sym own),
      ap (λ (k : ResolvedSym). k.size) (sym own),
    )

-- what the scan returns, seen in the table
abbrev pub IsFound : ElfNSyms → (strtab : Slice) (addr : ℕ) → SymType → ResolvedSym → Type 0
IsFound syms strtab addr type_ r =
    (i : ℕ) × (s : ElfNSym) × (get syms i ≡ some s)
    × (Sym.value s ≤ addr)
    × Covers (to_64bit from_elf32 s) addr type_
    × Describes strtab (to_64bit from_elf32 s) r
    × IsClosest syms addr s

scan-IsFound :
    (syms : ElfNSyms) (strtab : Slice) (addr : ℕ) (type_ : SymType) (r : ResolvedSym)
    (first idx : ℕ)
    → get_elem? (create_by_addr_idx syms) first ≡ some idx
    → ((p i : ℕ)
        → get_elem? (create_by_addr_idx syms) p ≡ some i
        → ltb addr (value_at syms i) ≡ false
        → ltb (value_at syms idx) (value_at syms i) ≡ false)
    → scan syms (drop first (create_by_addr_idx syms)) strtab addr type_ ≡ ok (some r)
    → IsFound syms strtab addr type_ r
scan-IsFound syms strtab addr type_ r first idx at most h =
    let idxs = create_by_addr_idx syms in
    let (p, i, at_p, le, m, e) = scan-some syms (drop first idxs) strtab addr type_ r h in
    let here : get_elem? idxs (first + p) ≡ some i = sym (get_elem?-drop first p idxs) ∙ at_p in
    let (s, at_s, kind) = create_by_addr_idx-from syms (first + p) i here in
    let own : sym_at syms i ≡ s = sym_at-get syms i s at_s in
    let start : value_at syms i ≡ Sym.value s = ap (λ (k : ElfNSym). Sym.value k) own in
    let same = ap (λ (k : ElfNSym). to_64bit from_elf32 k) own in
    let le' : Sym.value s ≤ addr = omega (arith, le, value-to_64bit (sym_at syms i), start) in
    let sorted : value_at syms idx ≤ value_at syms i =
      ltb→le (value_at syms i) (value_at syms idx)
        (create_by_addr_idx-IsSortedBy syms first (first + p) idx i (omega arith) at here) in
    (
      i,
      s,
      at_s,
      le',
      is_match-Covers (to_64bit from_elf32 s) addr type_ (rw (sym same) m),
      resolved-Describes strtab (to_64bit from_elf32 s) r (rw (sym same) e),
      λ j t at_t kind_t le_t.
          let (q, at_q) = create_by_addr_idx-get syms j t at_t kind_t in
          let start_t : value_at syms j ≡ Sym.value t =
            ap (λ (k : ElfNSym). Sym.value k) (sym_at-get syms j t at_t) in
          let top : value_at syms j ≤ value_at syms idx =
            ltb→le (value_at syms idx) (value_at syms j)
              (most q j at_q (le→ltb addr (value_at syms j) (omega (arith, le_t, start_t)))) in
          omega (arith, top, sorted, start, start_t),
    )

-- A symbol that `find_sym` returns from a symbol table's index is one of the table's symbols: it
-- has the type asked for and is defined, it starts at the address or in front of it, and it has no
-- size or the address is in front of its wrapped end. The answer has the symbol's name, start and
-- size. No symbol of a supported type starts between it and the address.
pub find_sym-IsClosest :
    (syms : ElfNSyms) (strtab : Slice) (addr : ℕ) (type_ : SymType) (r : ResolvedSym)
    → find_sym syms (create_by_addr_idx syms) strtab addr type_ ≡ ok (some r)
    → IsFound syms strtab addr type_ r
unfolding find_sym
find_sym-IsClosest syms strtab addr type_ r h =
    of (find_match_or_lower_bound_by_key (value_at syms) (create_by_addr_idx syms) addr) refl (
      find_match_or_lower_bound_by_key_lem (value_at syms) (create_by_addr_idx syms)
        (create_by_addr_idx-IsSortedBy syms) addr)
  where
    of :
        (r? : Option ℕ)
        → find_match_or_lower_bound_by_key (value_at syms) (create_by_addr_idx syms) addr ≡ r?
        → IsLowerBound (value_at syms) (create_by_addr_idx syms) addr r?
        → IsFound syms strtab addr type_ r
    of none e above = absurd (let q : none ≡ some r = ok-injective (rw (e, find_sym) at h) in cc)
    of (some first) e (idx, at, below, most, rest) =
        scan-IsFound syms strtab addr type_ r first idx at most (rw (e, find_sym) at h)

-- The first match of a scan that starts in front of a match.
pub scan-first :
    (syms : ElfNSyms) (idxs : List ℕ) (strtab : Slice) (addr : ℕ) (type_ : SymType) (p idx : ℕ)
    → get_elem? idxs p ≡ some idx
    → is_match (sym64_at syms idx) addr type_ ≡ true
    → ((j i : ℕ) → j ≤ p → get_elem? idxs j ≡ some i → (sym64_at syms i).st_value ≤ addr)
    → (q : ℕ) × (i : ℕ) × (q ≤ p)
      × (get_elem? idxs q ≡ some i)
      × (is_match (sym64_at syms i) addr type_ ≡ true)
      × (scan syms idxs strtab addr type_ ≡ resolved strtab (sym64_at syms i))
unfolding scan
scan-first syms [] strtab addr type_ p idx at m starts = cc
scan-first syms (i ∷ idxs) strtab addr type_ zero idx at m starts =
    let e : i ≡ idx = cc in
    let near = le→ltb addr (sym64_at syms i).st_value (starts 0 i (omega arith) refl) in
    let t : is_match (sym64_at syms i) addr type_ ≡ true =
      ap (λ k. is_match (sym64_at syms k) addr type_) e ∙ m in
    (0, i, omega arith, refl, t, rw (near, t, scan) refl)
scan-first syms (i ∷ idxs) strtab addr type_ (suc p) idx at m starts =
    let near = le→ltb addr (sym64_at syms i).st_value (starts 0 i (omega arith) refl) in
    elim (Bool-cases (is_match (sym64_at syms i) addr type_)) [
      | inl t ↦ (0, i, omega arith, refl, t, rw (near, t, scan) refl)
      | inr t ↦
          let (q, k, le, at_q, m', e) =
            scan-first syms idxs strtab addr type_ p idx at m
              (λ j l le at_j. starts (suc j) l (omega arith) at_j) in
          (suc q, k, omega arith, at_q, m', rw (near, t, scan) e)
    ]
