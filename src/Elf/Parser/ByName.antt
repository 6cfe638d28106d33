-- ===== src/Elf/Parser/ByName.antt =====
-- That `ElfParser::find_addr_impl` of src/elf/parser.rs returns what has the name, and all of it.
use blazesym.Common.{
  ℕ, ◌+◌, ◌-◌, ◌≡◌, ◌≢◌, refl, sym, ap, ◌∙◌, Bool, true, Option, none, some, List, [], arith, drop,
  get_elem?, get_elem?-drop, get_elem?-drop_sub,
}
use blazesym.Common.Outcome.{ok, ok-injective, >>=-eq-ok}
use blazesym.Util.Order.{bytes_ord}
use blazesym.Util.Search.{find_match_or_lower_bound_by_key}
use blazesym.Util.Search.LowerBound.{IsSortedBy}
use blazesym.Util.Search.Exact.{find_match_or_lower_bound_by_key-IsFirst}
use blazesym.Util.Sort.{sort_by_key-IsSortedBy, sort_by_key-get, sort_by_key-from}
use blazesym.Util.Slice.{Slice}
use blazesym.Inspect.{undefined, SymInfo, FindAddrOpts}
use blazesym.Elf.Types.{get, to_64bit, shn_undef}
use blazesym.Elf.Types.Shdr.{ElfNShdrs}
use blazesym.Elf.Types.Sym
use blazesym.Elf.Types.Sym.{Elf64Sym, ElfNSym, ElfNSyms, matches, type_of64, try_from_elf_type}
use blazesym.Elf.SymTab.{
  SymName, name_bytes, name_key, cstr_at, sym_at, sym_name, named, create_by_addr_idx,
  create_str2sym,
}
use blazesym.Elf.SymTab.Index.{create_by_addr_idx-get, create_by_addr_idx-from, sym_at-get}
use blazesym.Elf.Parser.{sym_info, find_addr_impl}
use blazesym.Elf.Parser.Info.{IsInfo, sym_info-IsInfo}
use blazesym.Elf.Parser.Names.{named-get, named-from, name_bytes-sym_name}
use blazesym.Elf.Parser.Lookup.{matches_from-IsInfoOf, matches_from-get}

module _ (syms : ElfNSyms) (strs : Slice) (filter : ElfNSym → Bool) where
  -- a symbol of the table that the name index is to have under the name
  abbrev pub HasName : (name : List ℕ) (idx : ℕ) → ElfNSym → Type 0
  HasName name idx s =
      (get syms idx ≡ some s)
      × (matches s undefined ≡ true)
      × (filter s ≡ true)
      × (cstr_at strs (Sym.name s) ≡ ok name)

  -- an entry of the index belongs to such a symbol
  entry-HasName :
      (str2sym : List (SymName × ℕ)) (p : ℕ) (entry : SymName × ℕ) (s : ElfNSym)
      → create_str2sym syms strs filter ≡ ok str2sym
      → get_elem? str2sym p ≡ some entry
      → get syms entry.1 ≡ some s
      → HasName (name_bytes entry.0 strs) entry.1 s × (sym_name strs s ≡ ok entry.0)
  unfolding create_str2sym sym_name
  entry-HasName str2sym p entry s made at own =
      let (names, e, sorted) =
        >>=-eq-ok (named syms strs filter (create_by_addr_idx syms)) _ made in
      let (q, at_q) =
        sort_by_key-from (name_key strs) names p entry
          (ap (λ (l : List (SymName × ℕ)). get_elem? l p) (ok-injective sorted) ∙ at) in
      let (r, at_r, kept, e_n) =
        named-from syms strs filter (create_by_addr_idx syms) names q entry e at_q in
      let (s', at_s', kind) = create_by_addr_idx-from syms r entry.1 at_r in
      let same : sym_at syms entry.1 ≡ s = sym_at-get syms entry.1 s own in
      let same' : s' ≡ s = sym (sym_at-get syms entry.1 s' at_s') ∙ same in
      let own_name = ap (λ (k : ElfNSym). sym_name strs k) (sym same) ∙ e_n in
      let (text, e_t, rest) = >>=-eq-ok (cstr_at strs (Sym.name s)) _ own_name in
      (
        (
          own,
          ap (λ (k : ElfNSym). matches k undefined) (sym same') ∙ kind,
          ap filter (sym same) ∙ kept,
          e_t ∙ ap ok (sym (name_bytes-sym_name strs s entry.0 text own_name e_t)),
        ),
        own_name,
      )

  -- and every such symbol has an entry
  HasName-entry :
      (str2sym : List (SymName × ℕ)) (name : List ℕ) (i : ℕ) (s : ElfNSym)
      → create_str2sym syms strs filter ≡ ok str2sym
      → HasName name i s
      → (p : ℕ) × (n : SymName) × (get_elem? str2sym p ≡ some (n, i))
        × (sym_name strs s ≡ ok n)
        × (name_bytes n strs ≡ name)
  unfolding create_str2sym
  HasName-entry str2sym name i s made (own, kind, kept, text) =
      let (names, e, sorted) =
        >>=-eq-ok (named syms strs filter (create_by_addr_idx syms)) _ made in
      let (p, at_p) = create_by_addr_idx-get syms i s own kind in
      let same : sym_at syms i ≡ s = sym_at-get syms i s own in
      let (q, n, at_q, e_n) =
        named-get syms strs filter (create_by_addr_idx syms) names p i e at_p
          (ap filter same ∙ kept) in
      let (r, at_r) = sort_by_key-get (name_key strs) names q (n, i) at_q in
      let own_name = ap (λ (k : ElfNSym). sym_name strs k) (sym same) ∙ e_n in
      (
        r,
        n,
        ap (λ (l : List (SymName × ℕ)). get_elem? l r) (sym (ok-injective sorted)) ∙ at_r,
        own_name,
        name_bytes-sym_name strs s n name own_name text,
      )

  create_str2sym-IsSorted :
      (str2sym : List (SymName × ℕ))
      → create_str2sym syms strs filter ≡ ok str2sym
      → IsSortedBy (name_key strs) str2sym
  unfolding create_str2sym
  create_str2sym-IsSorted str2sym made =
      let (names, e, sorted) =
        >>=-eq-ok (named syms strs filter (create_by_addr_idx syms)) _ made in
      rw (ok-injective sorted) at (sort_by_key-IsSortedBy (name_key strs) names)

  module _ (opts : FindAddrOpts) (shdrs : ElfNShdrs) (path : Option (List ℕ)) (name : List ℕ)
      (str2sym : List (SymName × ℕ)) (infos : List SymInfo)
      (made : create_str2sym syms strs filter ≡ ok str2sym)
      (answer : find_addr_impl opts shdrs syms strs path name str2sym ≡ ok infos) where
    -- the information of a defined symbol that has the name
    abbrev pub IsAnswer : (idx : ℕ) → ElfNSym → SymInfo → Type 0
    IsAnswer idx s info =
        HasName name idx s
        × ((to_64bit Sym.from_elf32 s).st_shndx ≢ shn_undef)
        × ((n : SymName) × (sym_name strs s ≡ ok n)
            × (sym_info opts path shdrs strs n (to_64bit Sym.from_elf32 s) ≡ ok info))
        × IsInfo name (to_64bit Sym.from_elf32 s) info

    -- the last part of an answer follows from the others
    answered :
        (idx : ℕ) (s : ElfNSym) (n : SymName) (info : SymInfo)
        → HasName name idx s
        → (to_64bit Sym.from_elf32 s).st_shndx ≢ shn_undef
        → sym_name strs s ≡ ok n
        → sym_info opts path shdrs strs n (to_64bit Sym.from_elf32 s) ≡ ok info
        → IsAnswer idx s info
    answered idx s n info has defined e h =
        let (own_name, value, size) =
          sym_info-IsInfo opts path shdrs strs n (to_64bit Sym.from_elf32 s) info h in
        let text = name_bytes-sym_name strs s n name e has.3 in
        (has, defined, (n, e, h), (own_name ∙ text, value, size))

    infos-IsAnswer :
        (q : ℕ) (info : SymInfo)
        → get_elem? infos q ≡ some info
        → (idx : ℕ) × (s : ElfNSym) × IsAnswer idx s info
    unfolding find_addr_impl
    infos-IsAnswer q info at =
        of (find_match_or_lower_bound_by_key (name_key strs) str2sym name) refl
      where
        of :
            (r? : Option ℕ)
            → find_match_or_lower_bound_by_key (name_key strs) str2sym name ≡ r?
            → (idx : ℕ) × (s : ElfNSym) × IsAnswer idx s info
        of none e =
            let nil : [] ≡ infos = ok-injective (rw (e, find_addr_impl) at answer) in
            let n : none ≡ some info = ap (λ (l : List SymInfo). get_elem? l q) nil ∙ at in cc
        of (some r) e =
            let (p, entry, s, at_p, same, own, defined, info_s) =
              matches_from-IsInfoOf opts shdrs syms strs path name (drop r str2sym) infos q info
                (rw (e, find_addr_impl) at answer) at in
            let ((own', kind, kept, text), e_n) =
              entry-HasName str2sym (r + p) entry s made (sym (get_elem?-drop r p str2sym) ∙ at_p)
                own in
            (
              entry.1,
              s,
              answered entry.1 s entry.0 info (own, kind, kept, text ∙ ap ok same) defined e_n
                  info_s,
            )

    IsAnswer-infos :
        (idx : ℕ) (s : ElfNSym)
        → HasName name idx s
        → (to_64bit Sym.from_elf32 s).st_shndx ≢ shn_undef
        → (q : ℕ) × (info : SymInfo) × (get_elem? infos q ≡ some info) × IsAnswer idx s info
    unfolding find_addr_impl
    IsAnswer-infos idx s has defined =
        let (p, n, at_p, e_n, text) = HasName-entry str2sym name idx s made has in
        let (r, e, le, same) =
          find_match_or_lower_bound_by_key-IsFirst (name_key strs) str2sym
            (create_str2sym-IsSorted str2sym made) p (n, idx) at_p in
        let e' : find_match_or_lower_bound_by_key (name_key strs) str2sym name ≡ some r =
          ap (λ (k : List ℕ). find_match_or_lower_bound_by_key (name_key strs) str2sym k) (sym text)
          ∙ e in
        let (q, info, at_q, info_s) =
          matches_from-get opts shdrs syms strs path name (drop r str2sym) infos (p - r) (n, idx) s
            (rw (e', find_addr_impl) at answer) (get_elem?-drop_sub r p str2sym (n, idx) le at_p)
            has.0 defined
            (λ j k le_j at_j.
              same (r + j) k (omega arith) (omega (arith, le_j, le))
                (sym (get_elem?-drop r j str2sym) ∙ at_j)
              ∙ text) in
        (q, info, at_q, answered idx s n info has defined e_n info_s)

    -- What `find_addr_impl` returns for a name from the name index of a symbol table is the
    -- information, with the name, the value and the size, of a defined symbol of a supported type
    -- that the filter of the index keeps and that has the name, and the information of every such
    -- symbol is returned, whatever type the options ask for.
    pub find_addr_impl-IsAnswer :
        ((q : ℕ) (info : SymInfo)
          → get_elem? infos q ≡ some info
          → (idx : ℕ) × (s : ElfNSym) × IsAnswer idx s info)
        × ((idx : ℕ) (s : ElfNSym)
            → HasName name idx s
            → (to_64bit Sym.from_elf32 s).st_shndx ≢ shn_undef
            → (q : ℕ) × (info : SymInfo) × (get_elem? infos q ≡ some info) × IsAnswer idx s info)
    find_addr_impl-IsAnswer = (infos-IsAnswer, IsAnswer-infos)
