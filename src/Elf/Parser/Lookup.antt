-- ===== src/Elf/Parser/Lookup.antt =====
-- What `ElfParser::find_addr_impl` of src/elf/parser.rs returns for a name in one symbol table.
use blazesym.Common.{
  ℕ, zero, suc, ◌≤◌, ◌≡◌, ◌≢◌, refl, sym, ap, ◌∙◌, true, false, Option, none, some, List, [], ◌∷◌,
  arith, ◌==◌, ==_iff, if◌then◌else◌, ℕ_discrete, get_elem?, Bool-cases, inl, inr,
}
use blazesym.Common.Outcome.{Outcome, ok, ok_or_invalid_input, ok-injective, ◌>>=◌, >>=-eq-ok}
use blazesym.Util.Order.{bytes_ord, bytes_eq, bytes_eq_iff}
use blazesym.Util.Slice.{Slice}
use blazesym.Inspect.{SymInfo, FindAddrOpts}
use blazesym.Elf.Types.{get, to_64bit, shn_undef}
use blazesym.Elf.Types.Shdr.{ElfNShdrs}
use blazesym.Elf.Types.Sym
use blazesym.Elf.Types.Sym.{ElfNSym, ElfNSyms, matches}
use blazesym.Elf.SymTab.{SymName, name_bytes}
use blazesym.Elf.Parser.{sym_info, matches_from}

module _ (opts : FindAddrOpts) (shdrs : ElfNShdrs) (syms : ElfNSyms) (strs : Slice)
    (path : Option (List ℕ)) (name : List ℕ) where
  -- an information is that of an entry with the name, whose symbol is defined
  abbrev pub IsInfoOf : List (SymName × ℕ) → SymInfo → Type 0
  IsInfoOf str2sym info =
      (p : ℕ) × (entry : SymName × ℕ) × (s : ElfNSym) × (get_elem? str2sym p ≡ some entry)
      × (name_bytes entry.0 strs ≡ name)
      × (get syms entry.1 ≡ some s)
      × ((to_64bit Sym.from_elf32 s).st_shndx ≢ shn_undef)
      × (sym_info opts path shdrs strs entry.0 (to_64bit Sym.from_elf32 s) ≡ ok info)

  IsInfoOf-cons :
      (entry : SymName × ℕ) (str2sym : List (SymName × ℕ)) (info : SymInfo)
      → IsInfoOf str2sym info
      → IsInfoOf (entry ∷ str2sym) info
  IsInfoOf-cons entry str2sym info (p, e, s, at, same, own, defined, made) =
      (suc p, e, s, at, same, own, defined, made)

  -- the outcome at an entry with the name
  abbrev matched : SymName × ℕ → List (SymName × ℕ) → ElfNSym → Outcome (List SymInfo)
  matched (visit, idx) str2sym s =
      if (to_64bit Sym.from_elf32 s).st_shndx == shn_undef
      then matches_from opts shdrs syms strs path name str2sym
      else (sym_info opts path shdrs strs visit (to_64bit Sym.from_elf32 s) >>= λ info.
          matches_from opts shdrs syms strs path name str2sym >>= λ infos. ok (info ∷ infos))

  matches_from-cons :
      (entry : SymName × ℕ) (str2sym : List (SymName × ℕ)) (infos : List SymInfo)
      → name_bytes entry.0 strs ≡ name
      → matches_from opts shdrs syms strs path name (entry ∷ str2sym) ≡ ok infos
      → (s : ElfNSym) × (get syms entry.1 ≡ some s) × (matched entry str2sym s ≡ ok infos)
  unfolding matches_from
  matches_from-cons (visit, idx) str2sym infos same h =
      let t : bytes_eq (name_bytes visit strs) name ≡ true = (bytes_eq_iff _ _).1 same in
      let (s, e, h') =
        >>=-eq-ok (ok_or_invalid_input (get syms idx)) _ (rw (t, matches_from) at h) in
      (s, ok_or-some (get syms idx) s e, h')
    where
      ok_or-some : (o : Option ElfNSym) (s : ElfNSym) → ok_or_invalid_input o ≡ ok s → o ≡ some s
      ok_or-some none s e = cc
      ok_or-some (some a) s e = ap some (ok-injective e)

  -- and what it adds
  matched-cases :
      (entry : SymName × ℕ) (str2sym : List (SymName × ℕ)) (s : ElfNSym) (infos : List SymInfo)
      → (to_64bit Sym.from_elf32 s).st_shndx ≢ shn_undef
      → matched entry str2sym s ≡ ok infos
      → (info : SymInfo) × (more : List SymInfo) × (sym_info opts path shdrs strs entry.0
            (to_64bit Sym.from_elf32 s)
          ≡ ok info)
        × (matches_from opts shdrs syms strs path name str2sym ≡ ok more)
        × (infos ≡ info ∷ more)
  matched-cases (visit, idx) str2sym s infos defined h =
      let t : ((to_64bit Sym.from_elf32 s).st_shndx == shn_undef) ≡ false =
        ground (arith, defined) in
      let (info, e, h') =
        >>=-eq-ok (sym_info opts path shdrs strs visit (to_64bit Sym.from_elf32 s)) _ (rw t at h) in
      let (more, e', h'') = >>=-eq-ok (matches_from opts shdrs syms strs path name str2sym) _ h' in
      (info, more, e, e', sym (ok-injective h''))

  -- the first information, or one of the others
  IsInfoOf-matched :
      (entry : SymName × ℕ) (str2sym : List (SymName × ℕ)) (s : ElfNSym) (infos : List SymInfo)
      (q : ℕ) (info : SymInfo)
      → name_bytes entry.0 strs ≡ name
      → get syms entry.1 ≡ some s
      → matched entry str2sym s ≡ ok infos
      → get_elem? infos q ≡ some info
      → ((infos' : List SymInfo) (q' : ℕ)
          → matches_from opts shdrs syms strs path name str2sym ≡ ok infos'
          → get_elem? infos' q' ≡ some info
          → IsInfoOf str2sym info)
      → IsInfoOf (entry ∷ str2sym) info
  IsInfoOf-matched entry str2sym s infos q info same own h at ih =
      elim (ℕ_discrete (to_64bit Sym.from_elf32 s).st_shndx shn_undef) [
        | yes e ↦
            let t : ((to_64bit Sym.from_elf32 s).st_shndx == shn_undef) ≡ true = (==_iff _ _).1 e in
            IsInfoOf-cons entry str2sym info (ih infos q (rw t at h) at)
        | no defined ↦
            let (head, more, made, rest, all) = matched-cases entry str2sym s infos defined h in
            of head more q defined made rest
              (ap (λ (l : List SymInfo). get_elem? l q) (sym all) ∙ at)
      ]
    where
      of :
          (head : SymInfo) (more : List SymInfo) (q : ℕ)
          → (to_64bit Sym.from_elf32 s).st_shndx ≢ shn_undef
          → sym_info opts path shdrs strs entry.0 (to_64bit Sym.from_elf32 s) ≡ ok head
          → matches_from opts shdrs syms strs path name str2sym ≡ ok more
          → get_elem? (head ∷ more) q ≡ some info
          → IsInfoOf (entry ∷ str2sym) info
      of head more zero defined made rest e =
          let first : head ≡ info = cc in
          (0, entry, s, refl, same, own, defined, made ∙ ap ok first)
      of head more (suc q) defined made rest e = IsInfoOf-cons entry str2sym info (ih more q rest e)

  pub matches_from-IsInfoOf :
      (str2sym : List (SymName × ℕ)) (infos : List SymInfo) (q : ℕ) (info : SymInfo)
      → matches_from opts shdrs syms strs path name str2sym ≡ ok infos
      → get_elem? infos q ≡ some info
      → IsInfoOf str2sym info
  unfolding matches_from
  matches_from-IsInfoOf [] infos q info h at =
      let e : [] ≡ infos = ok-injective h in
      let n : none ≡ some info = ap (λ (l : List SymInfo). get_elem? l q) e ∙ at in cc
  matches_from-IsInfoOf ((visit, idx) ∷ str2sym) infos q info h at =
      elim (Bool-cases (bytes_eq (name_bytes visit strs) name)) [
        | inr t ↦
            let e : [] ≡ infos = ok-injective (rw (t, matches_from) at h) in
            let n : none ≡ some info = ap (λ (l : List SymInfo). get_elem? l q) e ∙ at in cc
        | inl t ↦
            let same = (bytes_eq_iff (name_bytes visit strs) name).0 t in
            let (s, at_s, h') = matches_from-cons (visit, idx) str2sym infos same h in
            IsInfoOf-matched (visit, idx) str2sym s infos q info same at_s h' at
              (λ infos' q' e at'. matches_from-IsInfoOf str2sym infos' q' info e at')
      ]

  -- every entry up to which all have the name is answered for
  pub matches_from-get :
      (str2sym : List (SymName × ℕ)) (infos : List SymInfo) (p : ℕ) (entry : SymName × ℕ)
      (s : ElfNSym)
      → matches_from opts shdrs syms strs path name str2sym ≡ ok infos
      → get_elem? str2sym p ≡ some entry
      → get syms entry.1 ≡ some s
      → (to_64bit Sym.from_elf32 s).st_shndx ≢ shn_undef
      → ((j : ℕ) (e : SymName × ℕ)
          → j ≤ p
          → get_elem? str2sym j ≡ some e
          → name_bytes e.0 strs ≡ name)
      → (q : ℕ) × (info : SymInfo) × (get_elem? infos q ≡ some info)
        × (sym_info opts path shdrs strs entry.0 (to_64bit Sym.from_elf32 s) ≡ ok info)
  matches_from-get [] infos p entry s h at own defined same = cc
  matches_from-get (e ∷ str2sym) infos zero entry s h at own defined same =
      let here : e ≡ entry = cc in
      let (s', at_s, h') = matches_from-cons e str2sym infos (same 0 e (omega arith) refl) h in
      let e_s : s' ≡ s =
        some-injective (sym at_s ∙ (ap (λ (k : SymName × ℕ). get syms k.1) here ∙ own)) in
      let (info, more, made, rest, all) =
        matched-cases e str2sym s infos defined (ap (matched e str2sym) (sym e_s) ∙ h') in
      (
        0,
        info,
        ap (λ (l : List SymInfo). get_elem? l 0) all,
        ap (λ (k : SymName × ℕ). sym_info opts path shdrs strs k.0 (to_64bit Sym.from_elf32 s))
              (sym here)
            ∙ made,
      )
    where
      some-injective : {a b : ElfNSym} → Path (Option ElfNSym) (some a) (some b) → a ≡ b
      some-injective e = cc
  matches_from-get (e ∷ str2sym) infos (suc p) entry s h at own defined same =
      let (s', at_s, h') = matches_from-cons e str2sym infos (same 0 e (omega arith) refl) h in
      let later : (j : ℕ) (k : SymName × ℕ)
          → j ≤ p
          → get_elem? str2sym j ≡ some k
          → name_bytes k.0 strs ≡ name =
        λ j k le at_j. same (suc j) k (omega (arith, le)) at_j in
      elim (ℕ_discrete (to_64bit Sym.from_elf32 s').st_shndx shn_undef) [
        | yes u ↦
            let t : ((to_64bit Sym.from_elf32 s').st_shndx == shn_undef) ≡ true =
              (==_iff _ _).1 u in
            matches_from-get str2sym infos p entry s (rw t at h') at own defined later
        | no d ↦
            let (head, more, made, rest, all) = matched-cases e str2sym s' infos d h' in
            let (q, info, at_q, made_s) =
              matches_from-get str2sym more p entry s rest at own defined later in
            (suc q, info, ap (λ (l : List SymInfo). get_elem? l (suc q)) all ∙ at_q, made_s)
      ]
