-- ===== src/Util/Cover/Find.antt =====
-- What the search of Util/Cover finds.
use blazesym.Common.{
  ℕ, suc, ◌+◌, ◌≤◌, ◌<◌, ◌≡◌, ◌⊎◌, ◌%◌, ◌^◌, refl, sym, ◌∙◌, ◌&&◌, ◌||◌, true, false, Option, none,
  some, List, [], ◌∷◌, arith, ltb, leb, ◌==◌, drop, get_elem?, get_elem?-drop, Bool-cases, ltb→le,
  le→ltb, inl, inr,
}
use blazesym.Util.Order.{nat_ord, le_trans}
use blazesym.Util.Search.{find_match_or_lower_bound_by_key}
use blazesym.Util.Search.LowerBound.{IsSortedBy, IsLowerBound, find_match_or_lower_bound_by_key_lem}
use blazesym.Util.Cover.{covers, scan, find_covering}

-- the test of `covers` as a proposition
around :
    (addr start size end : ℕ)
    → (start == addr && size == 0 || leb start addr && ltb addr end) ≡ true
    → ((start ≡ addr) × (size ≡ 0)) ⊎ ((start ≤ addr) × (addr < end))
around addr start size end h = ground arith

module _ {A : Type 0} (start size : A → ℕ) where
  -- The item starts at the address and has no size, or it has the address between its start and its
  -- end, which wraps.
  abbrev pub IsAround : A → (addr : ℕ) → Type 0
  IsAround f addr =
      ((start f ≡ addr) × (size f ≡ 0)) ⊎ ((start f ≤ addr) × (addr < (start f + size f) % 2 ^ 64))

  scan-some :
      (fs : List A) (addr : ℕ) (f : A)
      → scan start size fs addr ≡ some f
      → (i : ℕ) × (get_elem? fs i ≡ some f)
        × (covers start size f addr ≡ true)
        × (ltb addr (start f) ≡ false)
  unfolding scan
  scan-some [] addr f h = cc
  scan-some (g ∷ gs) addr f h = elim (Bool-cases (ltb addr (start g))) [
    | inl t ↦ absurd (let e = rw (t, scan) at h in cc)
    | inr t ↦ elim (Bool-cases (covers start size g addr)) [
      | inl c ↦
          (let e : g ≡ f = (let q = rw (t, c, scan) at h in cc) in
            (0, rw e refl, rw e at c, rw e at t))
      | inr c ↦
          (let (i, at, cov, le) = scan-some gs addr f (rw (t, c, scan) at h) in
            (suc i, at, cov, le))
    ]
  ]

  -- In a list of items that is sorted by start address, a function that is found for an address
  -- is one of the list and is around the address, and no function of the list that starts at the
  -- address or in front of it starts behind the one that is found.
  pub find_covering-some :
      (items : List A) (addr : ℕ) (f : A)
      → IsSortedBy (λ (l : A). (start l)) items
      → find_covering start size items addr ≡ some f
      → (i : ℕ) × (get_elem? items i ≡ some f)
        × (IsAround f addr)
        × ((j : ℕ) (g : A) → get_elem? items j ≡ some g → (start g) ≤ addr → (start g) ≤ (start f))
  unfolding find_covering
  find_covering-some items addr f sorted h =
      of (find_match_or_lower_bound_by_key (λ (l : A). (start l)) items addr) refl
        (find_match_or_lower_bound_by_key_lem (λ (l : A). (start l)) items sorted addr)
    where
      of :
          (idx? : Option ℕ)
          → find_match_or_lower_bound_by_key (λ (l : A). (start l)) items addr ≡ idx?
          → IsLowerBound (λ (l : A). (start l)) items addr idx?
          → (i : ℕ) × (get_elem? items i ≡ some f)
            × (IsAround f addr)
            × ((j : ℕ) (g : A)
                → get_elem? items j ≡ some g
                → (start g) ≤ addr
                → (start g) ≤ (start f))
      of none e bound = absurd (let q = rw (e, find_covering) at h in cc)
      of (some idx) e (first, at, below, most, rest) =
          let (i, at_i, cov, le) = scan-some (drop idx items) addr f (rw (e, find_covering) at h) in
          let found : get_elem? items (idx + i) ≡ some f =
            sym (get_elem?-drop idx i items) ∙ at_i in
          (
            idx + i,
            found,
            around addr (start f) (size f) ((start f + size f) % 2 ^ 64) cov,
            λ j g at_j small. ltb→le (start f) (start g) (
                le_trans (start g) (start first) (start f)
                  (most j g at_j (le→ltb addr (start g) small))
                  (sorted idx (idx + i) first f (omega arith) at found)),
          )
