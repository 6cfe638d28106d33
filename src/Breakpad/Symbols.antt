-- ===== src/Breakpad/Symbols.antt =====
-- Which functions of a symbol file `SymbolFile::find_function` and `SymbolFile::find_addr` of
-- src/breakpad/types.rs return.
use blazesym.Common.{
  ℕ, zero, suc, ◌+◌, ◌-◌, ◌≤◌, ◌≡◌, ◌≢◌, refl, sym, ap, ◌∙◌, true, Option, none, some, List, [],
  ◌∷◌, arith, length, drop, get_elem?, get_elem?-lt, get_elem?-drop, get_elem?-drop_sub, Bool-cases,
  inl, inr,
}
use blazesym.Util.Order.{nat_ord, bytes_ord, bytes_eq, bytes_eq_iff, pair_ord}
use blazesym.Util.Search.{find_lowest_match_by_key}
use blazesym.Util.Search.LowerBound.{IsSortedBy}
use blazesym.Util.Search.Exact.{find_lowest_match_by_key-IsFirst}
use blazesym.Util.Sort.{sort_by_key-IsSortedBy, sort_by_key-get}
use blazesym.Util.Cover.{covers}
use blazesym.Util.Cover.Find.{IsAround, find_covering-some}
use blazesym.Util.Cover.Complete.{NoWrap, by_addr, find_covering_complete}
use blazesym.Ksym.{range}
use blazesym.Ksym.Name.{get_elem?-range, first-lt}
use blazesym.Breakpad.{
  Function, SymbolFile, start_of, size_of, sort_key, find_function, finish, function_at, name_key,
  create_by_name_idx, take_named, functions_named,
}

-- what `finish` leaves is sorted by address, then by size
finish-IsSortedBy :
    (files inline_origins : ℕ → Option (List ℕ)) (functions : List Function)
    → IsSortedBy sort_key (finish files inline_origins functions).functions
unfolding finish
finish-IsSortedBy files inline_origins functions = sort_by_key-IsSortedBy sort_key functions

-- In a finished symbol file, a function that is found for an address is one of the file's that is around
-- it, and no function of the file starts between the two.
find_function-finish :
    (files inline_origins : ℕ → Option (List ℕ)) (functions : List Function) (addr : ℕ)
    (f : Function)
    → find_function (finish files inline_origins functions) addr ≡ some f
    → (i : ℕ) × (get_elem? (finish files inline_origins functions).functions i ≡ some f)
      × IsAround start_of size_of f addr
      × ((j : ℕ) (g : Function)
          → get_elem? (finish files inline_origins functions).functions j ≡ some g
          → g.addr ≤ addr
          → g.addr ≤ f.addr)
unfolding find_function
find_function-finish files inline_origins functions addr f h =
    let file = finish files inline_origins functions in
    find_covering-some start_of size_of file.functions addr f
      (by_addr start_of size_of file.functions (finish-IsSortedBy files inline_origins functions)) h

-- In a finished symbol file in which no function's end wraps, a function is found for an address that
-- some function covers, if none starts between the two.
find_function-ne-none :
    (files inline_origins : ℕ → Option (List ℕ)) (functions : List Function) (addr i : ℕ)
    (f : Function)
    → NoWrap start_of size_of (finish files inline_origins functions).functions
    → get_elem? (finish files inline_origins functions).functions i ≡ some f
    → covers start_of size_of f addr ≡ true
    → ((j : ℕ) (g : Function)
        → get_elem? (finish files inline_origins functions).functions j ≡ some g
        → g.addr ≤ addr
        → g.addr ≤ f.addr)
    → find_function (finish files inline_origins functions) addr ≢ none
unfolding find_function
find_function-ne-none files inline_origins functions addr i f =
    let file = finish files inline_origins functions in
    find_covering_complete start_of size_of file.functions addr i f
      (finish-IsSortedBy files inline_origins functions)

module _ (funcs : List Function) where
  abbrev name_of : (idx : ℕ) → List ℕ
  name_of idx = (function_at funcs idx).name

  create_by_name_idx-IsSortedBy : IsSortedBy name_of (create_by_name_idx funcs)
  unfolding create_by_name_idx
  create_by_name_idx-IsSortedBy i j x y le hx hy =
      first-lt (name_key funcs y) (name_key funcs x)
        (sort_by_key-IsSortedBy (name_key funcs) (range 0 (length funcs)) i j x y le hx hy)

  create_by_name_idx-get :
      (i : ℕ) (f : Function)
      → get_elem? funcs i ≡ some f
      → (p : ℕ) × (get_elem? (create_by_name_idx funcs) p ≡ some i)
  unfolding create_by_name_idx
  create_by_name_idx-get i f h = sort_by_key-get (name_key funcs) (range 0 (length funcs)) i i (
      get_elem?-range 0 (length funcs) i (get_elem?-lt funcs i f h)
      ∙ (let e : 0 + i ≡ i = omega arith in ap some e))

  take_named-name :
      (name : List ℕ) (idxs : List ℕ) (q : ℕ) (f : Function)
      → get_elem? (take_named funcs name idxs) q ≡ some f
      → f.name ≡ name
  unfolding take_named
  take_named-name name [] q f h = cc
  take_named-name name (idx ∷ idxs) q f h = elim (Bool-cases (bytes_eq (name_of idx) name)) [
    | inr t ↦ (let n : none ≡ some f = rw (t, take_named) at h in cc)
    | inl t ↦
        split q (rw (t, take_named) at h) ((bytes_eq_iff (name_of idx) name).0 t)
          (λ r e. take_named-name name idxs r f e)
  ]
    where
      split :
          (q : ℕ)
          → get_elem? (function_at funcs idx ∷ take_named funcs name idxs) q ≡ some f
          → name_of idx ≡ name
          → ((r : ℕ) → get_elem? (take_named funcs name idxs) r ≡ some f → f.name ≡ name)
          → f.name ≡ name
      split zero e own ih =
          let same : function_at funcs idx ≡ f = cc in
          ap (λ (k : Function). k.name) (sym same) ∙ own
      split (suc q) e own ih = ih q e

  take_named-get :
      (name : List ℕ) (idxs : List ℕ) (p idx : ℕ)
      → get_elem? idxs p ≡ some idx
      → ((j i : ℕ) → j ≤ p → get_elem? idxs j ≡ some i → name_of i ≡ name)
      → get_elem? (take_named funcs name idxs) p ≡ some (function_at funcs idx)
  unfolding take_named
  take_named-get name [] p idx at same = cc
  take_named-get name (i ∷ idxs) zero idx at same =
      let t : bytes_eq (name_of i) name ≡ true =
        (bytes_eq_iff (name_of i) name).1 (same 0 i (omega arith) refl) in
      let e : i ≡ idx = cc in rw (t, take_named) (ap (λ (k : ℕ). some (function_at funcs k)) e)
  take_named-get name (i ∷ idxs) (suc p) idx at same =
      let t : bytes_eq (name_of i) name ≡ true =
        (bytes_eq_iff (name_of i) name).1 (same 0 i (omega arith) refl) in
      rw (t, take_named)
        (take_named-get name idxs p idx at (λ j k le at_j. same (suc j) k (omega (arith, le)) at_j))

module _ (file : SymbolFile) (name : List ℕ) where
  functions_named-name :
      (q : ℕ) (f : Function) → get_elem? (functions_named file name) q ≡ some f → f.name ≡ name
  unfolding functions_named
  functions_named-name q f h = of (find_lowest_match_by_key idxs name (name_of file.functions)) refl
    where
      idxs : List ℕ
      idxs = create_by_name_idx file.functions

      of :
          (r? : Option ℕ)
          → find_lowest_match_by_key
              (create_by_name_idx file.functions)
              name
              (name_of file.functions)
            ≡ r?
          → f.name ≡ name
      of none e = (let n : none ≡ some f = rw (e, functions_named) at h in cc)
      of (some r) e =
          take_named-name file.functions name (drop r (create_by_name_idx file.functions)) q f
            (rw (e, functions_named) at h)

  functions_named-get :
      (i : ℕ) (f : Function)
      → get_elem? file.functions i ≡ some f
      → f.name ≡ name
      → (q : ℕ) × (get_elem? (functions_named file name) q ≡ some f)
  unfolding functions_named
  functions_named-get i f at named =
      let funcs = file.functions in
      let idxs = create_by_name_idx funcs in
      let own : function_at funcs i ≡ f = rw (at, function_at) refl in
      let text : name_of funcs i ≡ name = ap (λ (k : Function). k.name) own ∙ named in
      let (p, at_p) = create_by_name_idx-get funcs i f at in
      let (r, e, le, same) =
        find_lowest_match_by_key-IsFirst (name_of funcs) idxs (create_by_name_idx-IsSortedBy funcs)
          p i at_p in
      let e' : find_lowest_match_by_key idxs name (name_of funcs) ≡ some r =
        ap (λ (k : List ℕ). find_lowest_match_by_key idxs k (name_of funcs)) (sym text) ∙ e in
      (
        p - r,
        rw (e', functions_named)
            (take_named-get funcs name (drop r idxs) (p - r) i
                (get_elem?-drop_sub r p idxs i le at_p)
                (λ j k le_j at_j.
                  same (r + j) k (omega arith) (omega (arith, le_j, le))
                    (sym (get_elem?-drop r j idxs) ∙ at_j)
                  ∙ text)
              ∙ ap some own),
      )

  -- The functions that `SymbolFile::find_addr` yields for a name all have the name, and every
  -- function of the symbol file that has the name is one of them.
  pub functions_named-IsExact :
      ((q : ℕ) (f : Function) → get_elem? (functions_named file name) q ≡ some f → f.name ≡ name)
      × ((i : ℕ) (f : Function)
          → get_elem? file.functions i ≡ some f
          → f.name ≡ name
          → (q : ℕ) × (get_elem? (functions_named file name) q ≡ some f))
  functions_named-IsExact = (functions_named-name, functions_named-get)
