-- ===== src/Elf/Parser/Names.antt =====
-- The index by name of a symbol table of src/elf/parser.rs: what is in it, and the bytes of its names.
use blazesym.Common.{
  ℕ, zero, suc, ◌+◌, ◌≤◌, ◌≡◌, refl, sym, ap, ◌∙◌, Bool, true, Option, none, some, List, [], ◌∷◌,
  arith, ltb, leb, ◌==◌, length, take, drop, get_elem?, Bool-cases, Option-cases, inl, inr,
}
use blazesym.Common.Outcome.{ok, err, ok_or_invalid_input, ok-injective, >>=-eq-ok, invalid_input}
use blazesym.Util.Slice.{Slice, slice, get_from, read_cstr, read_slice, ensure}
use blazesym.Util.Bytes.{position}
use blazesym.Elf.Types.Sym
use blazesym.Elf.Types.Sym.{ElfNSym, ElfNSyms}
use blazesym.Elf.SymTab.{cstr_at, SymName, sym_name, name_bytes, named, sym_at}

take-length-take : (k : ℕ) (xs : List ℕ) → take (length (take k xs)) xs ≡ take k xs
take-length-take zero xs = refl
take-length-take (suc k) [] = refl
take-length-take (suc k) (x ∷ xs) = ap (λ (l : List ℕ). x ∷ l) (take-length-take k xs)

take-take_more : (k m : ℕ) (xs : List ℕ) → k ≤ m → take k (take m xs) ≡ take k xs
take-take_more zero m xs h = refl
take-take_more (suc k) zero xs h = absurd (omega arith)
take-take_more (suc k) (suc m) [] h = refl
take-take_more (suc k) (suc m) (x ∷ xs) h =
    ap (λ (l : List ℕ). x ∷ l) (take-take_more k m xs (omega arith))

read_cstr-take :
    (s : Slice) (text : List ℕ) → (read_cstr s).0 ≡ some text → take (length text) s.bytes ≡ text
unfolding read_cstr read_slice ensure
read_cstr-take s text h = elim (Option-cases (position (λ byte. byte == 0) s.bytes)) [
  | inl n ↦ (let q : none ≡ some text = rw (n, read_cstr) at h in cc)
  | inr (k, e) ↦ elim (Bool-cases (ltb (length s.bytes) (k + 1))) [
    | inl t ↦ (let q : none ≡ some text = rw (e, t, read_cstr, read_slice, ensure) at h in cc)
    | inr t ↦
        let q : some (take k (take (k + 1) s.bytes)) ≡ some text =
          rw (e, t, read_cstr, read_slice, ensure) at h in
        let own : take k s.bytes ≡ text =
          sym (take-take_more k (k + 1) s.bytes (omega arith)) ∙ (cc) in
        ap (λ (l : List ℕ). take (length l) s.bytes) (sym own) ∙ (take-length-take k s.bytes ∙ own)
  ]
]

-- the bytes that a name of the table refers to are the name
cstr_at-take :
    (strs : Slice) (idx : ℕ) (text : List ℕ)
    → cstr_at strs idx ≡ ok text
    → take (length text) (drop idx strs.bytes) ≡ text
unfolding cstr_at get_from
cstr_at-take strs idx text h = elim (Bool-cases (leb idx (length strs.bytes))) [
  | inl t ↦ read_cstr-take (slice (strs.addr + idx) (drop idx strs.bytes)) text (
      ok_or-some ((read_cstr (slice (strs.addr + idx) (drop idx strs.bytes))).0) text
        (rw (t, cstr_at, get_from) at h))
  | inr t ↦ (let q : err invalid_input ≡ ok text = rw (t, cstr_at, get_from) at h in cc)
]
  where
    ok_or-some :
        (o : Option (List ℕ)) (text : List ℕ) → ok_or_invalid_input o ≡ ok text → o ≡ some text
    ok_or-some none text e = cc
    ok_or-some (some a) text e = ap some (ok-injective e)

-- a name in the index refers to the text at the symbol's offset
pub name_bytes-sym_name :
    (strs : Slice) (s : ElfNSym) (name : SymName) (text : List ℕ)
    → sym_name strs s ≡ ok name
    → cstr_at strs (Sym.name s) ≡ ok text
    → name_bytes name strs ≡ text
unfolding sym_name
name_bytes-sym_name strs s name text h e =
    let made = ok-injective (rw (e, sym_name) at h) in
    ap (λ (k : SymName). name_bytes k strs) (sym made) ∙ cstr_at-take strs (Sym.name s) text e

module _ (syms : ElfNSyms) (strs : Slice) (filter : ElfNSym → Bool) where
  -- an entry of the list of names, which was made for a symbol of the index by address
  abbrev pub IsNamed : List ℕ → SymName × ℕ → Type 0
  IsNamed idxs entry =
      (p : ℕ) × (get_elem? idxs p ≡ some entry.1)
      × (filter (sym_at syms entry.1) ≡ true)
      × (sym_name strs (sym_at syms entry.1) ≡ ok entry.0)

  IsNamed-cons :
      (i : ℕ) (idxs : List ℕ) (entry : SymName × ℕ) → IsNamed idxs entry → IsNamed (i ∷ idxs) entry
  IsNamed-cons i idxs entry (p, at, kept, e) = (suc p, at, kept, e)

  -- where there are names for all, the first name is for the first symbol that is kept
  named-kept :
      (i : ℕ) (idxs : List ℕ) (names : List (SymName × ℕ))
      → filter (sym_at syms i) ≡ true
      → named syms strs filter (i ∷ idxs) ≡ ok names
      → (name : SymName) × (more : List (SymName × ℕ)) × (sym_name strs (sym_at syms i) ≡ ok name)
        × (named syms strs filter idxs ≡ ok more)
        × (names ≡ (name, i) ∷ more)
  unfolding named
  named-kept i idxs names kept h =
      let (name, e, h') = >>=-eq-ok (sym_name strs (sym_at syms i)) _ (rw (kept, named) at h) in
      let (more, e', h'') = >>=-eq-ok (named syms strs filter idxs) _ h' in
      (name, more, e, e', sym (ok-injective h''))

  -- the head of the names, or an entry of the others
  IsNamed-split :
      (i : ℕ) (idxs : List ℕ) (name : SymName) (more : List (SymName × ℕ)) (q : ℕ)
      (entry : SymName × ℕ)
      → filter (sym_at syms i) ≡ true
      → sym_name strs (sym_at syms i) ≡ ok name
      → ((r : ℕ) → get_elem? more r ≡ some entry → IsNamed idxs entry)
      → get_elem? ((name, i) ∷ more) q ≡ some entry
      → IsNamed (i ∷ idxs) entry
  IsNamed-split i idxs name more zero entry kept e ih at =
      let same : (name, i) ≡ entry = cc in
      (
        0,
        ap (λ (k : SymName × ℕ). some k.1) same,
        ap (λ (k : SymName × ℕ). filter (sym_at syms k.1)) (sym same) ∙ kept,
        ap (λ (k : SymName × ℕ). sym_name strs (sym_at syms k.1)) (sym same)
            ∙ (e ∙ ap (λ (k : SymName × ℕ). ok k.0) same),
      )
  IsNamed-split i idxs name more (suc q) entry kept e ih at = IsNamed-cons i idxs entry (ih q at)

  pub named-from :
      (idxs : List ℕ) (names : List (SymName × ℕ)) (q : ℕ) (entry : SymName × ℕ)
      → named syms strs filter idxs ≡ ok names
      → get_elem? names q ≡ some entry
      → IsNamed idxs entry
  unfolding named
  named-from [] names q entry h at =
      let e : [] ≡ names = ok-injective h in
      let n : none ≡ some entry = ap (λ (l : List (SymName × ℕ)). get_elem? l q) e ∙ at in cc
  named-from (i ∷ idxs) names q entry h at = elim (Bool-cases (filter (sym_at syms i))) [
    | inl kept ↦
        let (name, more, e, e', same) = named-kept i idxs names kept h in
        IsNamed-split i idxs name more q entry kept e
          (λ r at_r. named-from idxs more r entry e' at_r)
          (ap (λ (l : List (SymName × ℕ)). get_elem? l q) (sym same) ∙ at)
    | inr passed ↦
        IsNamed-cons i idxs entry (named-from idxs names q entry (rw (passed, named) at h) at)
  ]

  pub named-get :
      (idxs : List ℕ) (names : List (SymName × ℕ)) (p i : ℕ)
      → named syms strs filter idxs ≡ ok names
      → get_elem? idxs p ≡ some i
      → filter (sym_at syms i) ≡ true
      → (q : ℕ) × (name : SymName) × (get_elem? names q ≡ some (name, i))
        × (sym_name strs (sym_at syms i) ≡ ok name)
  unfolding named
  named-get [] names p i h at kept = cc
  named-get (j ∷ idxs) names zero i h at kept =
      let here : j ≡ i = cc in
      let kept' = ap (λ (k : ℕ). filter (sym_at syms k)) here ∙ kept in
      let (name, more, e, e', same) = named-kept j idxs names kept' h in
      (
        0,
        name,
        ap (λ (l : List (SymName × ℕ)). get_elem? l 0) same ∙ ap (λ (k : ℕ). some (name, k)) here,
        ap (λ (k : ℕ). sym_name strs (sym_at syms k)) (sym here) ∙ e,
      )
  named-get (j ∷ idxs) names (suc p) i h at kept = elim (Bool-cases (filter (sym_at syms j))) [
    | inl kept_j ↦
        let (name, more, e, e', same) = named-kept j idxs names kept_j h in
        let (q, found, at_q, e_i) = named-get idxs more p i e' at kept in
        (suc q, found, ap (λ (l : List (SymName × ℕ)). get_elem? l (suc q)) same ∙ at_q, e_i)
    | inr passed ↦ named-get idxs names p i (rw (passed, named) at h) at kept
  ]
