-- ===== src/Util/Cover/Complete.antt =====
-- When the search of Util/Cover finds something.
use blazesym.Common.{
  ℕ, zero, suc, ◌+◌, ◌-◌, ◌^◌, ◌≤◌, ◌<◌, ◌≡◌, ◌≢◌, refl, sym, ap, ◌∙◌, true, false, Option, none,
  some, List, [], ◌∷◌, arith, ltb, leb, leb→le, ltb→le, ltb→lt, le→ltb, drop, get_elem?,
  get_elem?-drop, Bool-cases, inl, inr,
}
use blazesym.Util.Order.{nat_ord, pair_ord, pair_lt}
use blazesym.Util.Search.{find_match_or_lower_bound_by_key}
use blazesym.Util.Search.LowerBound.{IsSortedBy, IsLowerBound, find_match_or_lower_bound_by_key_lem}
use blazesym.Util.Cover.{covers, scan, find_covering}

module _ {A : Type 0} (start size : A → ℕ) where
  abbrev pub sort_key : A → ℕ × ℕ
  sort_key x = (start x, (size x))

  scan_complete :
      (fs : List A) (addr i : ℕ) (f : A)
      → get_elem? fs i ≡ some f
      → covers start size f addr ≡ true
      → ((j : ℕ) (g : A) → j ≤ i → get_elem? fs j ≡ some g → (start g) ≤ addr)
      → scan start size fs addr ≢ none
  unfolding scan
  scan_complete [] addr i f at cov starts h = cc
  scan_complete (g ∷ gs) addr zero f at cov starts h =
      let e : g ≡ f = cc in
      let t : ltb addr (start g) ≡ false = le→ltb addr (start g) (starts 0 g (omega arith) refl) in
      let c : covers start size g addr ≡ true = rw e cov in (let q = rw (t, c, scan) at h in cc)
  scan_complete (g ∷ gs) addr (suc i) f at cov starts h =
      let t : ltb addr (start g) ≡ false = le→ltb addr (start g) (starts 0 g (omega arith) refl) in
      elim (Bool-cases (covers start size g addr)) [
        | inl c ↦ (let q = rw (t, c, scan) at h in cc)
        | inr c ↦
            scan_complete gs addr i f at cov (λ j k le at_j. starts (suc j) k (omega arith) at_j)
              (rw (t, c, scan) at h)
      ]

  covers-le : (f : A) (addr : ℕ) → covers start size f addr ≡ true → (start f) ≤ addr
  covers-le f addr h = ground (arith, h)

  covers-larger :
      (f g : A) (addr : ℕ)
      → covers start size f addr ≡ true
      → (start g) ≡ (start f)
      → (start g) < addr
      → (size f) ≤ (size g)
      → (start f) + (size f) < 2 ^ 64
      → (start g) + (size g) < 2 ^ 64
      → covers start size g addr ≡ true
  covers-larger f g addr cov e lt le wf wg = ground (arith, cov)

  addr-sorted : (a m b n : ℕ) → pair_lt (a, m) (b, n) ≡ false → ltb a b ≡ false
  unfolding pair_lt
  addr-sorted a m b n h = ground (arith, h)

  size-sorted : (a m b n : ℕ) → pair_lt (a, m) (b, n) ≡ false → a ≡ b → n ≤ m
  unfolding pair_lt
  size-sorted a m b n h e = ground (arith, h)

  pub by_addr :
      (items : List A) → IsSortedBy sort_key items → IsSortedBy (λ (l : A). (start l)) items
  by_addr items sorted i j x y le hx hy =
      addr-sorted (start y) (size y) (start x) (size x) (sorted i j x y le hx hy)

  abbrev pub NoWrap : List A → Type 0
  NoWrap items = (j : ℕ) (g : A) → get_elem? items j ≡ some g → (start g) + (size g) < 2 ^ 64

  -- the scan start size from `r` meets a function that covers start size the address
  scan_from :
      (items : List A) (addr r i : ℕ) (f : A)
      → IsSortedBy sort_key items
      → r ≤ i
      → get_elem? items i ≡ some f
      → covers start size f addr ≡ true
      → scan start size (drop r items) addr ≢ none
  scan_from items addr r i f sorted le at cov =
      let q : r + (i - r) ≡ i = omega arith in
      scan_complete (drop r items) addr (i - r) f
        (get_elem?-drop r (i - r) items ∙ ap (λ (k : ℕ). get_elem? items k) q ∙ at) cov
        (λ j g hj at_j.
          let here : get_elem? items (r + j) ≡ some g = sym (get_elem?-drop r j items) ∙ at_j in
          omega (
            arith,
            covers-le f addr cov,
            ltb→le (start f) (start g) (by_addr items sorted (r + j) i g f (omega arith) here at),
          ))

  pub find_covering_complete :
      (items : List A) (addr i : ℕ) (f : A)
      → IsSortedBy sort_key items
      → NoWrap items
      → get_elem? items i ≡ some f
      → covers start size f addr ≡ true
      → ((j : ℕ) (g : A) → get_elem? items j ≡ some g → (start g) ≤ addr → (start g) ≤ (start f))
      → find_covering start size items addr ≢ none
  unfolding find_covering
  find_covering_complete items addr i f sorted wrap at cov closest h =
      of (find_match_or_lower_bound_by_key (λ (l : A). (start l)) items addr) refl (
        find_match_or_lower_bound_by_key_lem (λ (l : A). (start l)) items (by_addr items sorted)
          addr)
    where
      of :
          (idx? : Option ℕ)
          → find_match_or_lower_bound_by_key (λ (l : A). (start l)) items addr ≡ idx?
          → IsLowerBound (λ (l : A). (start l)) items addr idx?
          → ⊥
      of none e above = omega (arith, covers-le f addr cov, ltb→lt addr (start f) (above i f at))
      of (some r) e (first, at_r, below, most, rest) =
          let same_start : (start first) ≡ (start f) = omega (
            arith,
            closest r first at_r (ltb→le addr (start first) below),
            ltb→le (start first) (start f)
                (most i f at (le→ltb addr (start f) (covers-le f addr cov))),
          ) in
          elim (Bool-cases (leb r i)) [
            | inl t ↦
                scan_from items addr r i f sorted (leb→le r i t) at cov (rw (e, find_covering) at h)
            | inr t ↦
                let front : i < r = ground (arith, t) in
                elim rest [
                  | inl smaller ↦
                      omega
                        (arith, same_start, ltb→lt (start f) (start first) (smaller i f front at))
                  | inr (less, equal, above) ↦
                      let sizes : (size f) ≤ (size first) =
                        size-sorted (start first) (size first) (start f) (size f)
                          (sorted i r f first (omega arith) at at_r) same_start in
                      scan_from items addr r r first sorted (omega arith) at_r
                        (covers-larger f first addr cov same_start (ltb→lt (start first) addr less)
                          sizes (wrap i f at) (wrap r first at_r))
                        (rw (e, find_covering) at h)
                ]
          ]
