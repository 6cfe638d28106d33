-- ===== src/Elf/SymTab/Complete.antt =====
-- When the free function `find_sym` of src/elf/parser.rs finds a symbol, and which of several.
use blazesym.Common.{
  Bool, ℕ, ◌+◌, ◌-◌, ◌≤◌, ◌<◌, ◌≡◌, ◌⊎◌, refl, sym, ap, ◌∙◌, true, false, ◌&&◌, Option, none, some,
  arith, leb, leb→le, ltb→le, ltb→lt, le→ltb, get_elem?, get_elem?-drop, get_elem?-drop_sub, drop,
  Bool-cases, inl, inr,
}
use blazesym.Common.Outcome.{Outcome}
use blazesym.Symbolize.{ResolvedSym}
use blazesym.Util.Order.{nat_ord}
use blazesym.Util.Search.{find_match_or_lower_bound_by_key}
use blazesym.Util.Search.LowerBound.{IsLowerBound, find_match_or_lower_bound_by_key_lem}
use blazesym.Util.Slice.{Slice}
use blazesym.Inspect.{SymType, undefined}
use blazesym.Elf.Types.{get, to_64bit}
use blazesym.Elf.Types.Sym
use blazesym.Elf.Types.Sym.{ElfNSym, ElfNSyms, from_elf32, matches, matches64}
use blazesym.Elf.SymTab.{is_match, resolved, scan, find_sym, sym_at, value_at, create_by_addr_idx}
use blazesym.Elf.SymTab.Index.{
  value-to_64bit, matches-to_64bit, matches-undefined, create_by_addr_idx-get,
  create_by_addr_idx-from, sym_at-get, create_by_addr_idx-IsSortedBy, create_by_addr_idx-size,
}
use blazesym.Elf.SymTab.Find.{IsClosest, scan-first}

is_match-supported :
    (f : ElfNSym) (addr : ℕ) (type_ : SymType)
    → is_match (to_64bit from_elf32 f) addr type_ ≡ true
    → matches f undefined ≡ true
is_match-supported f addr type_ h =
    matches-undefined f type_ (sym (matches-to_64bit f type_) ∙ first _ _ (first _ _ h))
  where
    first : (a b : Bool) → (a && b) ≡ true → a ≡ true
    first true b h = refl
    first false b h = h

-- the symbol starts at the address, or not all symbols of a supported type start where it starts or
-- behind it
abbrev pub IsReached : ElfNSyms → (addr : ℕ) → ElfNSym → Type 0
IsReached syms addr f =
    (Sym.value f ≡ addr)
    ⊎ ((k : ℕ) × (e : ElfNSym) × (get syms k ≡ some e)
        × (matches e undefined ≡ true)
        × (Sym.value e < Sym.value f))

module _ (syms : ElfNSyms) (addr : ℕ) where
  -- the outcome is that of a match which starts where `f` starts, and is not smaller
  abbrev pub Resolves : (strtab : Slice) → SymType → ElfNSym → Outcome (Option ResolvedSym) → Type 0
  Resolves strtab type_ f outcome =
      (j : ℕ) × (s : ElfNSym) × (get syms j ≡ some s)
      × (is_match (to_64bit from_elf32 s) addr type_ ≡ true)
      × (Sym.value s ≡ Sym.value f)
      × (Sym.size f ≤ Sym.size s)
      × (outcome ≡ resolved strtab (to_64bit from_elf32 s))

  -- the lower bound is not behind a symbol that starts where it starts
  first-le :
      (i : ℕ) (f : ElfNSym) (p first idx : ℕ)
      → IsReached syms addr f
      → get_elem? (create_by_addr_idx syms) p ≡ some i
      → value_at syms i ≡ Sym.value f
      → get_elem? (create_by_addr_idx syms) first ≡ some idx
      → value_at syms idx ≡ Sym.value f
      → IsLowerBound (value_at syms) (create_by_addr_idx syms) addr (some first)
      → first ≤ p
  first-le i f p first idx reach at_p start at_first same (idx', at', below, most, rest) =
      elim (Bool-cases (leb first p)) [
        | inl t ↦ leb→le first p t
        | inr t ↦
            let front : p < first = ground (arith, t) in
            let q : idx' ≡ idx = cc (at_first, at') in
            let own : value_at syms idx' ≡ Sym.value f = ap (value_at syms) q ∙ same in
            elim rest [
              | inl smaller ↦ absurd (
                  omega (
                    arith,
                    ltb→lt (value_at syms i) (value_at syms idx') (smaller p i front at_p),
                    own,
                    start,
                  ))
              | inr (less, equal, above) ↦ elim reach [
                | inl exact ↦
                    absurd (omega (arith, exact, own, ltb→lt (value_at syms idx') addr less))
                | inr (k, e, at_e, kind, lt) ↦
                    let (r, at_r) = create_by_addr_idx-get syms k e at_e kind in
                    let start_e : value_at syms k ≡ Sym.value e =
                      ap (λ (s : ElfNSym). Sym.value s) (sym_at-get syms k e at_e) in
                    elim (Bool-cases (leb first r)) [
                      | inl u ↦ absurd (
                          omega (
                            arith,
                            lt,
                            own,
                            start_e,
                            ltb→le (value_at syms k) (value_at syms idx') (
                                create_by_addr_idx-IsSortedBy syms first r idx' k (leb→le first r u)
                                  at' at_r),
                          ))
                      | inr u ↦
                          absurd
                            (omega (arith, lt, own, start_e, equal r k (ground (arith, u)) at_r))
                    ]
              ]
            ]
      ]

  -- the scan from the lower bound, which starts where `f` starts
  scan-largest :
      (strtab : Slice) (type_ : SymType) (i : ℕ) (f : ElfNSym) (p first idx : ℕ)
      → get syms i ≡ some f
      → is_match (to_64bit from_elf32 f) addr type_ ≡ true
      → Sym.value f ≤ addr
      → first ≤ p
      → get_elem? (create_by_addr_idx syms) p ≡ some i
      → get_elem? (create_by_addr_idx syms) first ≡ some idx
      → value_at syms idx ≡ Sym.value f
      → Resolves strtab type_ f (scan syms (drop first (create_by_addr_idx syms)) strtab addr type_)
  scan-largest strtab type_ i f p first idx at m le near at_p at_first same =
      let idxs = create_by_addr_idx syms in
      let sorted = create_by_addr_idx-IsSortedBy syms in
      let own_f = sym_at-get syms i f at in
      let start_f : value_at syms i ≡ Sym.value f = ap (λ (k : ElfNSym). Sym.value k) own_f in
      let size_f = ap (λ (k : ElfNSym). Sym.size k) own_f in
      let (q, j, le_q, at_q, m_q, e) =
        scan-first syms (drop first idxs) strtab addr type_ (p - first) i
          (get_elem?-drop_sub first p idxs i near at_p)
          (ap (λ (k : ElfNSym). is_match (to_64bit from_elf32 k) addr type_) own_f ∙ m)
          (λ l k le_l at_l.
            let here = sym (get_elem?-drop first l idxs) ∙ at_l in
            omega (
              arith,
              value-to_64bit (sym_at syms k),
              start_f,
              le,
              ltb→le (value_at syms i) (value_at syms k)
                  (sorted (first + l) p k i (omega arith) here at_p),
            )) in
      let here : get_elem? idxs (first + q) ≡ some j = sym (get_elem?-drop first q idxs) ∙ at_q in
      let (s, at_s, kind) = create_by_addr_idx-from syms (first + q) j here in
      let own = sym_at-get syms j s at_s in
      let start : value_at syms j ≡ Sym.value s = ap (λ (k : ElfNSym). Sym.value k) own in
      let wide = ap (λ (k : ElfNSym). to_64bit from_elf32 k) own in
      let behind =
        ltb→le (value_at syms j) (value_at syms idx)
          (sorted first (first + q) idx j (omega arith) at_first here) in
      let front =
        ltb→le (value_at syms i) (value_at syms j)
          (sorted (first + q) p j i (omega arith) here at_p) in
      let equal : value_at syms i ≡ value_at syms j = omega (arith, behind, front, same, start_f) in
      let sizes = create_by_addr_idx-size syms (first + q) p j i (omega arith) here at_p equal in
      (
        j,
        s,
        at_s,
        rw (sym wide) m_q,
        omega (arith, equal, start, start_f),
        omega (arith, sizes, size_f, ap (λ (k : ElfNSym). Sym.size k) own),
        rw (sym wide) e,
      )

  -- Where a symbol of the table is a match for the address and no symbol of a supported type starts
  -- between the two, and it starts at the address or some symbol of a supported type starts in
  -- front of it, `find_sym` resolves such a match: one that starts where that symbol starts, with a
  -- size that is not smaller.
  pub find_sym_complete :
      (strtab : Slice) (type_ : SymType) (i : ℕ) (f : ElfNSym)
      → get syms i ≡ some f
      → is_match (to_64bit from_elf32 f) addr type_ ≡ true
      → Sym.value f ≤ addr
      → IsClosest syms addr f
      → IsReached syms addr f
      → Resolves strtab type_ f (find_sym syms (create_by_addr_idx syms) strtab addr type_)
  unfolding find_sym
  find_sym_complete strtab type_ i f at m le closest reach =
      let kind = is_match-supported f addr type_ m in
      let (p, at_p) = create_by_addr_idx-get syms i f at kind in
      of p at_p (ap (λ (k : ElfNSym). Sym.value k) (sym_at-get syms i f at))
        (find_match_or_lower_bound_by_key (value_at syms) (create_by_addr_idx syms) addr) refl
        (find_match_or_lower_bound_by_key_lem (value_at syms) (create_by_addr_idx syms)
          (create_by_addr_idx-IsSortedBy syms) addr)
    where
      of :
          (p : ℕ)
          → get_elem? (create_by_addr_idx syms) p ≡ some i
          → value_at syms i ≡ Sym.value f
          → (r? : Option ℕ)
          → find_match_or_lower_bound_by_key (value_at syms) (create_by_addr_idx syms) addr ≡ r?
          → IsLowerBound (value_at syms) (create_by_addr_idx syms) addr r?
          → Resolves strtab type_ f (find_sym syms (create_by_addr_idx syms) strtab addr type_)
      of p at_p start none e above =
          absurd (omega (arith, le, start, ltb→lt addr (value_at syms i) (above p i at_p)))
      of p at_p start (some first) e (idx, at_first, below, most, rest) =
          let (s, at_s, kind) = create_by_addr_idx-from syms first idx at_first in
          let start_s : value_at syms idx ≡ Sym.value s =
            ap (λ (k : ElfNSym). Sym.value k) (sym_at-get syms idx s at_s) in
          let not_past = ltb→le addr (value_at syms idx) below in
          let top =
            ltb→le (value_at syms idx) (value_at syms i)
              (most p i at_p (le→ltb addr (value_at syms i) (omega (arith, le, start)))) in
          let same : value_at syms idx ≡ Sym.value f = omega (
            arith,
            top,
            start,
            start_s,
            closest idx s at_s kind (omega (arith, not_past, start_s)),
          ) in
          rw (e, find_sym)
            (scan-largest strtab type_ i f p first idx at m le
              (first-le i f p first idx reach at_p start at_first same
                (idx, at_first, below, most, rest))
              at_p at_first same)
