-- ===== src/Util/Search/LowerBound.antt =====
-- What `find_match_or_lower_bound_by_key` returns on a slice that is sorted by its keys.
use blazesym.Common.{
  ℕ, zero, suc, ◌+◌, ◌≤◌, ◌<◌, ◌≡◌, refl, ◌⊎◌, inl, inr, true, false, Option, none, some, List,
  arith, length, get_elem?, get_elem?-some, get_elem?-lt, Bool-cases, Option-cases, ℕ_discrete,
  dec_le,
}
use blazesym.Util.Order.{Ord, lt→le, lt-le_trans, le-lt_trans, lt_of_le_ne, le_of_eq}
use blazesym.Util.Search.{
  partition_point, first_equal, lower_bound_from, find_match_or_lower_bound_by_key,
}
use blazesym.Util.Search.Partition.{IsPartitioned, IsPartitionPoint, partition_point_lem}

module _ {ℓ} {A K : Type ℓ} ⦃o : Ord K⦄ (key : A → K) (slice : List A) where
  abbrev pub IsSortedBy : Type ℓ
  IsSortedBy =
      (i j : ℕ) (x y : A)
      → i ≤ j
      → get_elem? slice i ≡ some x
      → get_elem? slice j ≡ some y
      → o.lt (key y) (key x) ≡ false

  -- every element from `r` to `idx` has the key `k`
  abbrev SameKey : (k : K) (r idx : ℕ) → Type ℓ
  SameKey k r idx = (i : ℕ) (x : A) → r ≤ i → i ≤ idx → get_elem? slice i ≡ some x → key x ≡ k

  -- every element in front of `r` has a smaller key than `k`
  abbrev pub AllSmaller : (k : K) (r : ℕ) → Type ℓ
  AllSmaller k r = (i : ℕ) (x : A) → i < r → get_elem? slice i ≡ some x → o.lt (key x) k ≡ true

  -- every element in front of `r` has the key `k`
  abbrev pub AllEqual : (k : K) (r : ℕ) → Type ℓ
  AllEqual k r = (i : ℕ) (x : A) → i < r → get_elem? slice i ≡ some x → key x ≡ k

  -- The answer: nothing where every key is greater than `item`. Otherwise an element with the
  -- greatest key that is not greater, and the first such element, unless that key differs from
  -- `item` and the slice begins with it: then the last such element.
  abbrev pub IsLowerBound : (item : K) → Option ℕ → Type ℓ
  IsLowerBound item none = (i : ℕ) (x : A) → get_elem? slice i ≡ some x → o.lt item (key x) ≡ true
  IsLowerBound item (some r) =
      (e : A) × (get_elem? slice r ≡ some e)
      × (o.lt item (key e) ≡ false)
      × ((i : ℕ) (x : A)
          → get_elem? slice i ≡ some x
          → o.lt item (key x) ≡ false
          → o.lt (key e) (key x) ≡ false)
      × (AllSmaller (key e) r
          ⊎ ((o.lt (key e) item ≡ true)
              × AllEqual (key e) r
              × ((i : ℕ) (x : A) → r < i → get_elem? slice i ≡ some x → o.lt item (key x) ≡ true)))

  -- what the backward scan has found
  abbrev FoundFirst : (k : K) (idx : ℕ) → Option ℕ → Type ℓ
  FoundFirst k idx none = A → ⊥
  FoundFirst k idx (some r) =
      (r ≤ idx)
      × SameKey k r idx
      × (((r ≡ idx) × SameKey k 0 idx)
          ⊎ ((j : ℕ) × (e : A) × (r ≡ j + 1)
              × (get_elem? slice j ≡ some e)
              × (o.eq (key e) k ≡ false)))

  SameKey-step :
      (k : K) (n idx : ℕ) (e : A)
      → get_elem? slice n ≡ some e
      → key e ≡ k
      → SameKey k (suc n) idx
      → SameKey k n idx
  SameKey-step k n idx e at ek same i x lo hi hx = elim (ℕ_discrete i n) [
    | yes q ↦ cc (at, ek, hx, q)
    | no q ↦ same i x (omega arith) hi hx
  ]

  first_equal_lem :
      (k : K) (idx n : ℕ)
      → n ≤ idx
      → idx < length slice
      → SameKey k n idx
      → FoundFirst k idx (first_equal key slice k n idx)
  unfolding first_equal
  first_equal_lem k idx zero h b same =
      (omega arith, (λ i x p. same i x (omega arith)), inl (refl, same))
  first_equal_lem k idx (suc n) h b same =
      let (e, at) = get_elem?-some slice n (omega arith) in
      elim (Bool-cases (o.eq (key e) k)) [
        | inl t ↦
            rw (at, t, first_equal)
              (first_equal_lem k idx n (omega arith) b
                (SameKey-step k n idx e at ((o.eq_iff (key e) k).0 t) same))
        | inr t ↦
            rw (at, t, first_equal)
              (omega arith, (λ i x p. same i x (omega arith)), inr (n, e, omega arith, at, t))
      ]

  module _ (sorted : IsSortedBy) (item : K) where
    pub IsSortedBy-IsPartitioned : IsPartitioned (λ e. o.lt (key e) item) slice
    IsSortedBy-IsPartitioned i j x y h hx hy t =
        le-lt_trans (key x) (key y) item (sorted i j x y h hx hy) t

    module _ (p : ℕ) (pp : IsPartitionPoint (λ e. o.lt (key e) item) slice p)
        (miss : (x : A) → get_elem? slice p ≡ some x → o.eq (key x) item ≡ false) where
      -- with no match at the partition point all that follows is greater
      greater_from : (i : ℕ) (x : A) → p ≤ i → get_elem? slice i ≡ some x → o.lt item (key x) ≡ true
      greater_from i x h hx =
          let (e, at) = get_elem?-some slice p (omega (arith, get_elem?-lt slice i x hx)) in
          elim (Bool-cases (o.lt item (key e))) [
            | inl g ↦ lt-le_trans item (key e) (key x) g (sorted p i e x h at hx)
            | inr g ↦ cc (
              miss e at,
              (o.eq_iff (key e) item).1 (o.lt-connected (key e) item (pp.2 p e (omega arith) at) g),
            )
          ]

      module _ (idx : ℕ) (e : A) (at : get_elem? slice idx ≡ some e) (last : p ≡ suc idx) where
        below : o.lt (key e) item ≡ true
        below = pp.1 idx e (omega arith) at

        maximal :
            (i : ℕ) (x : A)
            → get_elem? slice i ≡ some x
            → o.lt item (key x) ≡ false
            → o.lt (key e) (key x) ≡ false
        maximal i x hx le = elim (dec_le p i) [
          | yes h ↦ cc (greater_from i x h hx, le)
          | no h ↦ sorted i idx x e (omega arith) hx at
        ]

        smaller_before :
            (j : ℕ) (f : A)
            → j ≤ idx
            → get_elem? slice j ≡ some f
            → o.eq (key f) (key e) ≡ false
            → AllSmaller (key e) (j + 1)
        smaller_before j f hj hf ne i x h hx =
            le-lt_trans (key x) (key f) (key e) (sorted i j x f (omega arith) hx hf)
              (lt_of_le_ne (key f) (key e) (sorted j idx f e hj hf at) ne)

        FoundFirst→IsLowerBound : (r : Option ℕ) → FoundFirst (key e) idx r → IsLowerBound item r
        FoundFirst→IsLowerBound none h = absurd (h e)
        FoundFirst→IsLowerBound (some r) (le, same, side) =
            let (f, hf) = get_elem?-some slice r (omega (arith, get_elem?-lt slice idx e at)) in
            let k : key f ≡ key e = same r f (omega arith) le hf in
            (
              f,
              hf,
              rw k (lt→le (key e) item below),
              (λ i x hx g. rw k (maximal i x hx g)),
              elim side [
                | inr (j, g, rj, hg, ne) ↦
                    inl (λ i x h hx.
                      rw k (smaller_before j g (omega arith) hg ne i x (omega arith) hx))
                | inl (q, all) ↦ inr (
                  rw k below,
                  (λ i x h hx. rw k (all i x (omega arith) (omega arith) hx)),
                  (λ i x h hx. greater_from i x (omega arith) hx),
                )
              ],
            )

    -- the scan, from a partition point at which no element matches exactly
    lower_bound_from_lem :
        (p : ℕ)
        → IsPartitionPoint (λ e. o.lt (key e) item) slice p
        → ((x : A) → get_elem? slice p ≡ some x → o.eq (key x) item ≡ false)
        → IsLowerBound item (lower_bound_from key slice p)
    unfolding lower_bound_from
    lower_bound_from_lem zero pp miss = λ i x hx. greater_from 0 pp miss i x (omega arith) hx
    lower_bound_from_lem (suc idx) pp miss =
        let (e, at) = get_elem?-some slice idx (omega arith) in
        rw (at, lower_bound_from)
          (FoundFirst→IsLowerBound (suc idx) pp miss idx e at refl _ (
            first_equal_lem (key e) idx idx (omega arith) (omega arith)
              (SameKey-step (key e) idx idx e at refl (λ i x lo hi. absurd (omega arith)))))

    exact_match :
        (p : ℕ) (e : A)
        → IsPartitionPoint (λ e. o.lt (key e) item) slice p
        → get_elem? slice p ≡ some e
        → o.eq (key e) item ≡ true
        → IsLowerBound item (some p)
    exact_match p e pp at t =
        let k : key e ≡ item = (o.eq_iff (key e) item).0 t in
        (
          e,
          at,
          le_of_eq (key e) item k,
          (λ i x hx g. rw k g),
          inl (λ i x h hx. rw k (pp.1 i x h hx)),
        )

    -- On a slice that is sorted by its keys, `find_match_or_lower_bound_by_key` answers nothing
    -- exactly where every key is greater than the one looked for. Otherwise it answers the index of
    -- an element with the greatest key that is not greater. That is the first such element, unless
    -- the key differs from the one looked for and the slice begins with it: then it may be the last
    -- such element.
    pub find_match_or_lower_bound_by_key_lem :
        IsLowerBound item (find_match_or_lower_bound_by_key key slice item)
    unfolding find_match_or_lower_bound_by_key
    find_match_or_lower_bound_by_key_lem =
        let p : ℕ = partition_point (λ e. o.lt (key e) item) slice in
        let pp : IsPartitionPoint (λ e. o.lt (key e) item) slice p =
          partition_point_lem (λ e. o.lt (key e) item) slice IsSortedBy-IsPartitioned in
        elim (Option-cases (get_elem? slice p)) [
          | inl past ↦
              rw (past, find_match_or_lower_bound_by_key)
                (lower_bound_from_lem p pp (λ x hx. cc (past, hx)))
          | inr (e, at) ↦ elim (Bool-cases (o.eq (key e) item)) [
            | inl t ↦ rw (at, t, find_match_or_lower_bound_by_key) (exact_match p e pp at t)
            | inr t ↦
                rw (at, t, find_match_or_lower_bound_by_key)
                  (lower_bound_from_lem p pp (λ x hx. ground (arith, hx, at, t)))
          ]
        ]
