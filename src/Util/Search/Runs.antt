-- ===== src/Util/Search/Runs.antt =====
-- Where `find_match_or_lower_bound_by_key` reports the last of equal elements, not the first.
use blazesym.Common.{
  ℕ, zero, suc, ◌≤◌, ◌<◌, ◌≡◌, refl, inl, inr, Bool, true, false, Option, none, some, List, arith,
  length, get_elem?, get_elem?-some, get_elem?-lt, Bool-cases, dec_lt,
}
use blazesym.Util.Order.{Ord, lt→le}
use blazesym.Util.Search.{
  partition_point, first_equal, lower_bound_from, find_match_or_lower_bound_by_key, holds_at,
}
use blazesym.Util.Search.Partition.{IsPartitionPoint, partition_point_lem}
use blazesym.Util.Search.LowerBound.{IsSortedBy, IsSortedBy-IsPartitioned}

module _ {ℓ} {A K : Type ℓ} ⦃o : Ord K⦄ (key : A → K) (slice : List A) where
  module _ (sorted : IsSortedBy key slice) (item : K) where
    -- where the elements up to `n` all have one smaller key, the scan ends at none and the answer
    -- is the last of them
    first_equal_all :
        (k : K) (m idx : ℕ)
        → m ≤ length slice
        → ((i : ℕ) (x : A) → i < m → get_elem? slice i ≡ some x → key x ≡ k)
        → first_equal key slice k m idx ≡ some idx
    unfolding first_equal
    first_equal_all k zero idx h same = refl
    first_equal_all k (suc m) idx h same =
        let (e, at) = get_elem?-some slice m (omega arith) in
        rw (at, (o.eq_iff (key e) k).1 (same m e (omega arith) at), first_equal)
          (first_equal_all k m idx (omega arith) (λ i x h. same i x (omega arith)))

    equal_run :
        (n : ℕ) (first last : A)
        → get_elem? slice 0 ≡ some first
        → get_elem? slice n ≡ some last
        → key first ≡ key last
        → (i : ℕ) (x : A) → i < n
        → get_elem? slice i ≡ some x
        → key x ≡ key last
    equal_run n first last h0 hn same i x h hx =
        o.lt-connected (key x) (key last) (rw (← same) (sorted 0 i first x (omega arith) h0 hx))
          (sorted i n x last (omega arith) hx hn)

    no_match :
        (o? : Option A)
        → ((x : A) → o? ≡ some x → o.lt item (key x) ≡ true)
        → holds_at (λ e. o.eq (key e) item) o? ≡ false
    no_match none next = refl
    no_match (some x) next = elim (Bool-cases (o.eq (key x) item)) [
      | inl t ↦ cc (next x refl, (o.eq_iff (key x) item).0 t, o.lt-irrefl item)
      | inr t ↦ t
    ]

    point_behind_run :
        (n p : ℕ) (last : A)
        → IsPartitionPoint (λ e. o.lt (key e) item) slice p
        → get_elem? slice n ≡ some last
        → o.lt (key last) item ≡ true
        → ((x : A) → get_elem? slice (suc n) ≡ some x → o.lt item (key x) ≡ true)
        → p ≡ suc n
    point_behind_run n p last pp hn small next = elim (dec_lt n p) [
      | no h ↦ cc (pp.2 n last (omega arith) hn, small)
      | yes h ↦ elim (dec_lt (suc n) p) [
        | no g ↦ omega arith
        | yes g ↦
            let (x, hx) = get_elem?-some slice (suc n) (omega arith) in
            cc (lt→le item (key x) (next x hx), pp.1 (suc n) x g hx)
      ]
    ]

    -- On a sorted slice whose elements from the first to the one at `n` all have one key, smaller
    -- than the one looked for, while the element behind them, if there is one, has a greater key:
    -- the answer of `find_match_or_lower_bound_by_key` is `n`, the last of the equal elements.
    pub find_match_or_lower_bound_by_key-last :
        (n : ℕ) (first last : A)
        → get_elem? slice 0 ≡ some first
        → get_elem? slice n ≡ some last
        → key first ≡ key last
        → o.lt (key last) item ≡ true
        → ((x : A) → get_elem? slice (suc n) ≡ some x → o.lt item (key x) ≡ true)
        → find_match_or_lower_bound_by_key key slice item ≡ some n
    unfolding find_match_or_lower_bound_by_key
    find_match_or_lower_bound_by_key-last n first last h0 hn same small next =
        let before : A → Bool = λ e. o.lt (key e) item in
        let pp : IsPartitionPoint before slice (partition_point before slice) =
          partition_point_lem before slice (IsSortedBy-IsPartitioned key slice sorted item) in
        let q : partition_point before slice ≡ suc n = point_behind_run n _ last pp hn small next in
        let scan : lower_bound_from key slice (suc n) ≡ some n =
          unfold lower_bound_from in
          rw (hn, lower_bound_from)
            (first_equal_all (key last) n n (omega (arith, get_elem?-lt slice n last hn))
              (equal_run n first last h0 hn same)) in
        rw (q, no_match (get_elem? slice (suc n)) next, find_match_or_lower_bound_by_key) scan
