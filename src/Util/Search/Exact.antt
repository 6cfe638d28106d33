-- ===== src/Util/Search/Exact.antt =====
-- `find_match_or_lower_bound_by_key` and `find_lowest_match_by_key` of src/util.rs for a key that some element of the slice has.
use blazesym.Common.{
  ℕ, ◌≤◌, ◌<◌, ◌≡◌, refl, Option, none, some, List, arith, leb, leb→le, get_elem?, Bool-cases, inl,
  inr,
}
use blazesym.Util.Order.{Ord}
use blazesym.Util.Search.{find_match_or_lower_bound_by_key, find_lowest_match_by_key}
use blazesym.Util.Search.LowestMatch.{IsLowestMatch, find_lowest_match_by_key_lem}
use blazesym.Util.Search.LowerBound.{IsSortedBy, IsLowerBound, find_match_or_lower_bound_by_key_lem}

module _ {ℓ} {A K : Type ℓ} ⦃o : Ord K⦄ (key : A → K) (slice : List A)
    (sorted : IsSortedBy key slice) (p : ℕ) (x : A) (at : get_elem? slice p ≡ some x) where
  -- the search answers an index in front of the element or at it, and from there to the element all
  -- keys are the same
  abbrev pub IsFirst : Option ℕ → Type ℓ
  IsFirst r? =
      (r : ℕ) × (r? ≡ some r)
      × (r ≤ p)
      × ((j : ℕ) (y : A) → r ≤ j → j ≤ p → get_elem? slice j ≡ some y → key y ≡ key x)

  bound-IsFirst : (r? : Option ℕ) → IsLowerBound key slice (key x) r? → IsFirst r?
  bound-IsFirst none above =
      absurd (let h = above p x at in let no = o.lt-irrefl (key x) in cc (h, no))
  bound-IsFirst (some r) (first, at_r, below, most, rest) =
      let own : key first ≡ key x =
        o.lt-connected (key first) (key x) (most p x at (o.lt-irrefl (key x))) below in
      let le : r ≤ p = elim (Bool-cases (leb r p)) [
        | inl t ↦ leb→le r p t
        | inr t ↦
            let front : p < r = ground (arith, t) in
            absurd (elim rest [
              | inl smaller ↦ let h = smaller p x front at in let no = o.lt-irrefl (key x) in cc
              | inr (less, equal, above) ↦ let no = o.lt-irrefl (key x) in cc (less, own, no)
            ])
      ] in
      (
        r,
        refl,
        le,
        λ j y from to at_y.
            o.lt-connected (key y) (key x) (rw (← own) (sorted r j first y from at_r at_y))
              (sorted j p y x to at_y at),
      )

  pub find_match_or_lower_bound_by_key-IsFirst :
      IsFirst (find_match_or_lower_bound_by_key key slice (key x))
  find_match_or_lower_bound_by_key-IsFirst =
      bound-IsFirst (find_match_or_lower_bound_by_key key slice (key x))
        (find_match_or_lower_bound_by_key_lem key slice sorted (key x))

  lowest-IsFirst : (r? : Option ℕ) → IsLowestMatch key slice (key x) r? → IsFirst r?
  lowest-IsFirst none differ =
      absurd (let h = differ p x at in let same = (o.eq_iff (key x) (key x)).1 refl in cc (h, same))
  lowest-IsFirst (some r) (first, at_r, own, smaller) =
      let le : r ≤ p = elim (Bool-cases (leb r p)) [
        | inl t ↦ leb→le r p t
        | inr t ↦
            let front : p < r = ground (arith, t) in
            absurd (let h = smaller p x front at in let no = o.lt-irrefl (key x) in cc (h, no))
      ] in
      (
        r,
        refl,
        le,
        λ j y from to at_y.
            o.lt-connected (key y) (key x) (rw (← own) (sorted r j first y from at_r at_y))
              (sorted j p y x to at_y at),
      )

  pub find_lowest_match_by_key-IsFirst : IsFirst (find_lowest_match_by_key slice (key x) key)
  find_lowest_match_by_key-IsFirst =
      lowest-IsFirst (find_lowest_match_by_key slice (key x) key)
        (find_lowest_match_by_key_lem key slice sorted (key x))
