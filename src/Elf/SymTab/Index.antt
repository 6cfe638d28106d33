-- ===== src/Elf/SymTab/Index.antt =====
-- The index by address of a symbol table of src/elf/parser.rs: what is in it, and in which order.
use blazesym.Common.{
  ℕ, zero, suc, ◌+◌, ◌≤◌, ◌≡◌, refl, sym, ap, ◌∙◌, true, false, Option, some, List, [], ◌∷◌, arith,
  ltb, get_elem?, map, Bool-cases, inl, inr,
}
use blazesym.Util.Order.{nat_ord, reverse_ord, pair_lt}
use blazesym.Util.Search.LowerBound.{IsSortedBy}
use blazesym.Util.Sort.{sort_by_key-IsSortedBy, sort_by_key-get, sort_by_key-from}
use blazesym.Inspect.{SymType, undefined, function, variable}
use blazesym.Elf.Types.{
  ElfN, ElfNSlice, slice32, slice64, get, iter, wrap32, wrap64, b32, b64, to_64bit,
}
use blazesym.Elf.Types.Sym
use blazesym.Elf.Types.Sym.{
  ElfNSym, ElfNSyms, from_elf32, matches, matches64, elf_type_matches, type_of, type_of64,
}
use blazesym.Elf.SymTab.{supported, addr_key, addr_ord, create_by_addr_idx, sym_at, value_at}

pub value-to_64bit : (s : ElfNSym) → (to_64bit from_elf32 s).st_value ≡ Sym.value s
unfolding from_elf32
value-to_64bit (b32 r) = refl
value-to_64bit (b64 r) = refl

size-to_64bit : (s : ElfNSym) → (to_64bit from_elf32 s).st_size ≡ Sym.size s
unfolding from_elf32
size-to_64bit (b32 r) = refl
size-to_64bit (b64 r) = refl

pub matches-to_64bit :
    (s : ElfNSym) (type_ : SymType) → matches64 (to_64bit from_elf32 s) type_ ≡ matches s type_
unfolding from_elf32
matches-to_64bit (b32 r) type_ = refl
matches-to_64bit (b64 r) type_ = refl

-- a symbol of some type is of a supported type
pub matches-undefined :
    (s : ElfNSym) (type_ : SymType) → matches s type_ ≡ true → matches s undefined ≡ true
matches-undefined s undefined h = h
matches-undefined s function h = ground (arith, h)
matches-undefined s variable h = ground (arith, h)

module _ {T32 T64 : Type 0} where
  get_elem?-map_b32 :
      (rs : List T32) (i : ℕ)
      → Path (Option (ElfN T32 T64)) (get_elem? (map b32 rs) i) (wrap32 (get_elem? rs i))
  get_elem?-map_b32 [] i = refl
  get_elem?-map_b32 (r ∷ rs) zero = refl
  get_elem?-map_b32 (r ∷ rs) (suc i) = get_elem?-map_b32 rs i

  get_elem?-map_b64 :
      (rs : List T64) (i : ℕ)
      → Path (Option (ElfN T32 T64)) (get_elem? (map b64 rs) i) (wrap64 (get_elem? rs i))
  get_elem?-map_b64 [] i = refl
  get_elem?-map_b64 (r ∷ rs) zero = refl
  get_elem?-map_b64 (r ∷ rs) (suc i) = get_elem?-map_b64 rs i

  -- the iterator and the index agree
  pub get_elem?-iter : (rs : ElfNSlice T32 T64) (i : ℕ) → get_elem? (iter rs 0) i ≡ get rs i
  get_elem?-iter (slice32 rs) i = get_elem?-map_b32 rs i
  get_elem?-iter (slice64 rs) i = get_elem?-map_b64 rs i

supported-get :
    (start : ℕ) (syms : List ElfNSym) (i : ℕ) (s : ElfNSym)
    → get_elem? syms i ≡ some s
    → matches s undefined ≡ true
    → (p : ℕ) × (get_elem? (supported start syms) p ≡ some (start + i))
unfolding supported
supported-get start [] i s at m = cc
supported-get start (t ∷ syms) zero s at m =
    let q : t ≡ s = cc in
    let e : start ≡ start + 0 = omega arith in
    let m' : matches t undefined ≡ true = ap (λ (k : ElfNSym). matches k undefined) q ∙ m in
    (0, rw (m', supported) (ap some e))
supported-get start (t ∷ syms) (suc i) s at m =
    let (p, at_p) = supported-get (start + 1) syms i s at m in
    let e : start + 1 + i ≡ start + suc i = omega arith in
    elim (Bool-cases (matches t undefined)) [
      | inl m' ↦ (suc p, rw (m', supported) (at_p ∙ ap some e))
      | inr m' ↦ (p, rw (m', supported) (at_p ∙ ap some e))
    ]

-- the symbol that an index stands for, where `start` is the index of the first
abbrev IsSupported : (start : ℕ) → List ElfNSym → (idx : ℕ) → Type 0
IsSupported start syms idx =
    (i : ℕ) × (s : ElfNSym) × (idx ≡ start + i)
    × (get_elem? syms i ≡ some s)
    × (matches s undefined ≡ true)

IsSupported-cons :
    (start : ℕ) (t : ElfNSym) (syms : List ElfNSym) (idx : ℕ)
    → IsSupported (start + 1) syms idx
    → IsSupported start (t ∷ syms) idx
IsSupported-cons start t syms idx (i, s, q, at, m) = (suc i, s, omega (arith, q), at, m)

supported-from :
    (start : ℕ) (syms : List ElfNSym) (p idx : ℕ)
    → get_elem? (supported start syms) p ≡ some idx
    → IsSupported start syms idx
unfolding supported
supported-from start [] p idx h = cc
supported-from start (t ∷ syms) zero idx h = elim (Bool-cases (matches t undefined)) [
  | inl m ↦
      let e : some start ≡ some idx = rw (m, supported) at h in
      let q : start ≡ idx = cc in (0, t, omega (arith, q), refl, m)
  | inr m ↦
      IsSupported-cons start t syms idx
        (supported-from (start + 1) syms zero idx (rw (m, supported) at h))
]
supported-from start (t ∷ syms) (suc p) idx h = elim (Bool-cases (matches t undefined)) [
  | inl m ↦
      IsSupported-cons start t syms idx
        (supported-from (start + 1) syms p idx (rw (m, supported) at h))
  | inr m ↦
      IsSupported-cons start t syms idx
        (supported-from (start + 1) syms (suc p) idx (rw (m, supported) at h))
]

-- every symbol of a supported type is in the index
pub create_by_addr_idx-get :
    (syms : ElfNSyms) (i : ℕ) (s : ElfNSym)
    → get syms i ≡ some s
    → matches s undefined ≡ true
    → (p : ℕ) × (get_elem? (create_by_addr_idx syms) p ≡ some i)
unfolding create_by_addr_idx
create_by_addr_idx-get syms i s at m =
    let (p, at_p) = supported-get 0 (iter syms 0) i s (get_elem?-iter syms i ∙ at) m in
    let e : 0 + i ≡ i = omega arith in
    sort_by_key-get ⦃o = addr_ord⦄ (addr_key syms) (supported 0 (iter syms 0)) p i
      (at_p ∙ ap some e)

-- and nothing else
pub create_by_addr_idx-from :
    (syms : ElfNSyms) (p idx : ℕ)
    → get_elem? (create_by_addr_idx syms) p ≡ some idx
    → (s : ElfNSym) × (get syms idx ≡ some s) × (matches s undefined ≡ true)
unfolding create_by_addr_idx
create_by_addr_idx-from syms p idx h =
    let (q, at_q) =
      sort_by_key-from ⦃o = addr_ord⦄ (addr_key syms) (supported 0 (iter syms 0)) p idx h in
    let (i, s, e, at, m) = supported-from 0 (iter syms 0) q idx at_q in
    let e' : i ≡ idx = omega (arith, e) in
    (
      s,
      sym (get_elem?-iter syms idx) ∙ (ap (λ (k : ℕ). get_elem? (iter syms 0) k) (sym e') ∙ at),
      m,
    )

pub sym_at-get : (syms : ElfNSyms) (i : ℕ) (s : ElfNSym) → get syms i ≡ some s → sym_at syms i ≡ s
sym_at-get syms i s at = rw (at, sym_at) refl

addr-sorted :
    (a m b n : ℕ) → pair_lt ⦃p = reverse_ord nat_ord⦄ (a, m) (b, n) ≡ false → ltb a b ≡ false
unfolding pair_lt
addr-sorted a m b n h = ground (arith, h)

size-sorted :
    (a m b n : ℕ) → pair_lt ⦃p = reverse_ord nat_ord⦄ (a, m) (b, n) ≡ false → a ≡ b → m ≤ n
unfolding pair_lt
size-sorted a m b n h e = ground (arith, h)

-- the index is sorted by address
pub create_by_addr_idx-IsSortedBy :
    (syms : ElfNSyms) → IsSortedBy (value_at syms) (create_by_addr_idx syms)
unfolding create_by_addr_idx
create_by_addr_idx-IsSortedBy syms i j x y le hx hy =
    addr-sorted (addr_key syms y).0 (addr_key syms y).1 (addr_key syms x).0 (addr_key syms x).1 (
      sort_by_key-IsSortedBy ⦃o = addr_ord⦄ (addr_key syms) (supported 0 (iter syms 0)) i j x y le
        hx hy)

-- where addresses are equal, the greater sizes come first
pub create_by_addr_idx-size :
    (syms : ElfNSyms) (i j x y : ℕ)
    → i ≤ j
    → get_elem? (create_by_addr_idx syms) i ≡ some x
    → get_elem? (create_by_addr_idx syms) j ≡ some y
    → value_at syms y ≡ value_at syms x
    → Sym.size (sym_at syms y) ≤ Sym.size (sym_at syms x)
unfolding create_by_addr_idx
create_by_addr_idx-size syms i j x y le hx hy e =
    size-sorted (addr_key syms y).0 (addr_key syms y).1 (addr_key syms x).0 (addr_key syms x).1
      (sort_by_key-IsSortedBy ⦃o = addr_ord⦄ (addr_key syms) (supported 0 (iter syms 0)) i j x y le
        hx hy)
      e
