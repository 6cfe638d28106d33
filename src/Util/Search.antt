-- ===== src/Util/Search.antt =====
-- The binary searches of src/util.rs: `find_match_or_lower_bound_by_key`, `find_lowest_match_by`
-- and `find_lowest_match_by_key`. A slice is a list, and an index past its end reads `none`.
pub mod Partition
pub mod LowerBound
pub mod LowestMatch
pub mod Runs
pub mod Exact
use blazesym.Common.{ℕ, zero, suc, ◌+◌, ◌-◌, ◌/◌, Bool, true, false, Option, none, some, List}
use blazesym.Common.{ltb, if◌then◌else◌, length, get_elem?}
use blazesym.Util.Order.{Ord}

-- `Option::map_or(false, before)`: the bounds of the search keep the index inside the slice.
abbrev pub holds_at {ℓ} : {A : Type ℓ} → (A → Bool) → Option A → Bool
holds_at before none = false
holds_at before (some x) = before x

module _ {ℓ} {A : Type ℓ} (before : A → Bool) (slice : List A) where
  -- `binary_search_by` of the standard library with the answers of `partition_point`: the range
  -- [left, left + size) is halved until it is empty. The fuel bounds the rounds.
  pub partition_loop : (fuel left size : ℕ) → ℕ
  partition_loop zero left size = left
  partition_loop (suc fuel) left zero = left
  partition_loop (suc fuel) left (suc size) =
      let half = suc size / 2 in
      elim (holds_at before (get_elem? slice (left + half))) [
        | true ↦ partition_loop fuel (left + half + 1) (size - half)
        | false ↦ partition_loop fuel left half
      ]

  -- `slice.partition_point(before)`.
  unfoldable pub partition_point : ℕ
  unfolding partition_loop
  partition_point = partition_loop (length slice) 0 (length slice)

module _ {ℓ κ} {A : Type ℓ} {K : Type κ} ⦃o : Ord K⦄ (key : A → K) where
  -- `for i in (0..idx).rev()`: back to the first of the elements whose key is `k`. The argument
  -- counts the indices still to be seen; `fallback` is the index to report when none differs.
  pub first_equal : (slice : List A) (k : K) → ℕ → (fallback : ℕ) → Option ℕ
  first_equal slice k zero fallback = some fallback
  first_equal slice k (suc i) fallback = elim (get_elem? slice i) [
    | none ↦ none
    | some e ↦ elim (o.eq (key e) k) [
      | true ↦ first_equal slice k i fallback
      | false ↦ some (i + 1)
    ]
  ]

  -- The scan of the lower bound from the partition point, which sits behind all smaller keys.
  pub lower_bound_from : (slice : List A) → ℕ → Option ℕ
  unfolding first_equal
  lower_bound_from slice zero = none
  lower_bound_from slice (suc idx) = elim (get_elem? slice idx) [
    | none ↦ none
    | some e ↦ first_equal slice (key e) idx idx
  ]

  unfoldable pub find_match_or_lower_bound_by_key : (slice : List A) (item : K) → Option ℕ
  unfolding partition_point lower_bound_from
  find_match_or_lower_bound_by_key slice item =
      let idx = partition_point (λ e. o.lt (key e) item) slice in
      if holds_at (λ e. o.eq (key e) item) (get_elem? slice idx)
      then some idx
      else lower_bound_from slice idx

-- `std::cmp::Ordering`, and `Ord::cmp`.
pub data Ordering : Type 0 where
  less equal greater : Ordering

abbrev pub is_lt : Ordering → Bool
is_lt less = true
is_lt equal = false
is_lt greater = false

abbrev pub is_eq : Ordering → Bool
is_eq less = false
is_eq equal = true
is_eq greater = false

abbrev pub cmp {κ} : {K : Type κ} ⦃o : Ord K⦄ → K → K → Ordering
cmp ⦃o⦄ a b = if o.lt a b then less else if o.eq a b then equal else greater

module _ {ℓ} {A : Type ℓ} where
  pub find_lowest_match_by : (slice : List A) (f : A → Ordering) → Option ℕ
  unfolding partition_point
  find_lowest_match_by slice f =
      let idx = partition_point (λ e. is_lt (f e)) slice in
      if holds_at (λ e. is_eq (f e)) (get_elem? slice idx) then some idx else none

  unfoldable pub find_lowest_match_by_key {κ} :
      {K : Type κ} ⦃o : Ord K⦄ (slice : List A) (b : K) (f : A → K) → Option ℕ
  unfolding find_lowest_match_by
  find_lowest_match_by_key slice b f = find_lowest_match_by slice (λ k. cmp (f k) b)
