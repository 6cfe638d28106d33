-- ===== src/Util/Search/LowestMatch.antt =====
-- What `find_lowest_match_by_key` returns on a slice that is sorted by its keys.
use blazesym.Common.{
  ℕ, ◌≡◌, inl, inr, Bool, true, false, Option, none, some, List, arith, get_elem?, get_elem?-some,
  get_elem?-lt, Bool-cases, Option-cases, dec_lt,
}
use blazesym.Util.Order.{Ord, le-lt_trans}
use blazesym.Util.Search.{
  partition_point, is_lt, is_eq, cmp, find_lowest_match_by, find_lowest_match_by_key,
}
use blazesym.Util.Search.Partition.{IsPartitioned, IsPartitionPoint, partition_point_lem}
use blazesym.Util.Search.LowerBound.{IsSortedBy, AllSmaller}

module _ {ℓ} {A K : Type ℓ} ⦃o : Ord K⦄ (key : A → K) (slice : List A) where
  -- the first element with the key `b`, or nothing where no element has it
  abbrev pub IsLowestMatch : (b : K) → Option ℕ → Type ℓ
  IsLowestMatch b none = (i : ℕ) (x : A) → get_elem? slice i ≡ some x → o.eq (key x) b ≡ false
  IsLowestMatch b (some r) =
      (e : A) × (get_elem? slice r ≡ some e) × (key e ≡ b) × AllSmaller key slice b r

  is_lt-cmp : (a b : K) → is_lt (cmp a b) ≡ o.lt a b
  is_lt-cmp a b = ground arith

  is_eq-cmp : (a b : K) → is_eq (cmp a b) ≡ true → a ≡ b
  is_eq-cmp a b h = ground (arith, o.eq_iff a b)

  is_eq-cmp_self : (a b : K) → a ≡ b → is_eq (cmp a b) ≡ true
  is_eq-cmp_self a b e = ground (arith, o.eq_iff a b, e, o.lt-irrefl b)

  module _ (sorted : IsSortedBy key slice) (b : K) where
    abbrev before : A → Bool
    before e = is_lt (cmp (key e) b)

    before-IsPartitioned : IsPartitioned before slice
    before-IsPartitioned i j x y h hx hy t =
        rw (is_lt-cmp (key x) b)
          (le-lt_trans (key x) (key y) b (sorted i j x y h hx hy) (rw (is_lt-cmp (key y) b) at t))

    not_before : (k : K) → k ≡ b → o.lt k b ≡ true → ⊥
    not_before k e h = cc (o.lt-irrefl b)

    module _ (p : ℕ) (pp : IsPartitionPoint before slice p) where
      -- an equal element behind the partition point would make the one at the point equal
      no_match :
          ((x : A) → get_elem? slice p ≡ some x → is_eq (cmp (key x) b) ≡ false)
          → IsLowestMatch b none
      no_match miss i x hx = elim (Bool-cases (o.eq (key x) b)) [
        | inr t ↦ t
        | inl t ↦
            let k : key x ≡ b = (o.eq_iff (key x) b).0 t in
            absurd (elim (dec_lt i p) [
              | yes h ↦ not_before (key x) k (rw (is_lt-cmp (key x) b) at (pp.1 i x h hx))
              | no h ↦
                  let (e, at) = get_elem?-some slice p (omega (arith, get_elem?-lt slice i x hx)) in
                  let e_ge : o.lt (key e) b ≡ false =
                    rw (is_lt-cmp (key e) b) at (pp.2 p e (omega arith) at) in
                  let e_le : o.lt b (key e) ≡ false =
                    rw k at (sorted p i e x (omega arith) at hx) in
                  cc (miss e at, is_eq-cmp_self (key e) b (o.lt-connected (key e) b e_ge e_le))
            ])
      ]

      first_match :
          (e : A)
          → get_elem? slice p ≡ some e
          → is_eq (cmp (key e) b) ≡ true
          → IsLowestMatch b (some p)
      first_match e at t =
          (e, at, is_eq-cmp (key e) b t, λ i x h hx. rw (is_lt-cmp (key x) b) at (pp.1 i x h hx))

    -- On a slice that is sorted by its keys, `find_lowest_match_by_key` answers the index of the
    -- first element with the key looked for: all elements in front of it have smaller keys. It
    -- answers nothing only where no element has the key.
    pub find_lowest_match_by_key_lem : IsLowestMatch b (find_lowest_match_by_key slice b key)
    unfolding find_lowest_match_by_key
    find_lowest_match_by_key_lem =
        let p : ℕ = partition_point before slice in
        let pp : IsPartitionPoint before slice p =
          partition_point_lem before slice before-IsPartitioned in
        elim (Option-cases (get_elem? slice p)) [
          | inl past ↦
              rw (past, find_lowest_match_by_key, find_lowest_match_by)
                (no_match p pp (λ x hx. cc (past, hx)))
          | inr (e, at) ↦ elim (Bool-cases (is_eq (cmp (key e) b))) [
            | inl t ↦
                rw (at, t, find_lowest_match_by_key, find_lowest_match_by) (first_match p pp e at t)
            | inr t ↦
                rw (at, t, find_lowest_match_by_key, find_lowest_match_by)
                  (no_match p pp (λ x hx. ground (arith, hx, at, t)))
          ]
        ]
