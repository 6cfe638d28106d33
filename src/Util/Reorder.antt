-- ===== src/Util/Reorder.antt =====
-- `reorder` and `with_ordered_elems` of src/util.rs.
pub mod Swap
pub mod Settle
pub mod Ordered
use blazesym.Common.{
  ℕ, zero, suc, ◌+◌, Bool, true, false, Option, none, some, List, [], ◌∷◌, ◌==◌, if◌then◌else◌,
  length, get_elem?, set, map,
}
use blazesym.Common.Outcome.{Outcome, ok, stuck, ◌>>=◌}
use blazesym.Util.Order.{nat_ord, pair_ord}
use blazesym.Util.Sort.{sort_by_key}

-- `slice::swap`, which panics out of bounds.
unfoldable pub swap : {A : Type 0} → List A → (a b : ℕ) → Outcome (List A)
swap xs a b = elim (get_elem? xs a) [
  | none ↦ stuck
  | some x ↦ elim (get_elem? xs b) [ none ↦ stuck | some y ↦ ok (set (set xs a y) b x) ]
]

module _ {T U : Type 0} where
  -- `while indices[i].1 != i`. The fuel bounds its tests.
  unfoldable pub settle : (fuel i : ℕ) → List T → List (U × ℕ) → Outcome (List T × List (U × ℕ))
  unfolding swap
  settle zero i array indices = stuck
  settle (suc fuel) i array indices = elim (get_elem? indices i) [
    | none ↦ stuck
    | some index ↦
        if index.1 == i
        then ok (array, indices)
        else (swap array i index.1 >>= λ array'.
            swap indices i index.1 >>= λ indices'. settle fuel i array' indices')
  ]

  -- `for i in 0..array.len()`, from `i` on.
  unfoldable pub reorder_from :
      (count i : ℕ) → List T → List (U × ℕ) → Outcome (List T × List (U × ℕ))
  unfolding settle
  reorder_from zero i array indices = ok (array, indices)
  reorder_from (suc count) i array indices =
      settle (suc (length indices)) i array indices >>= λ state.
      reorder_from count (suc i) state.0 state.1

  unfoldable pub reorder : List T → List (U × ℕ) → Outcome (List T)
  unfolding reorder_from
  reorder array indices = reorder_from (length array) 0 array indices >>= λ state. ok state.0

-- `slice.iter().enumerate()` with the parts exchanged.
unfoldable pub enumerate_from : {T : Type 0} → (start : ℕ) → List T → List (T × ℕ)
enumerate_from start [] = []
enumerate_from start (t ∷ ts) = (t, start) ∷ enumerate_from (start + 1) ts

abbrev pub element : ℕ × ℕ → ℕ
element (t, idx) = t

abbrev pub self_key : ℕ × ℕ → ℕ × ℕ
self_key p = p

-- The elements that are used are numbers. As no two pairs are equal, an unstable sort is a stable one.
-- The slice of the result is what `extract` reads, and `put_back` writes.
unfoldable pub with_ordered_elems :
    {U R : Type 0}
    → List ℕ
    → (extract : R → List U) → (put_back : List U → R → R) → (handle : List ℕ → Outcome R)
    → Outcome R
unfolding enumerate_from sort_by_key reorder
with_ordered_elems elems extract put_back handle =
    let vec = sort_by_key self_key (enumerate_from 0 elems) in
    handle (map element vec) >>= λ result.
    reorder (extract result) vec >>= λ reordered. ok (put_back reordered result)
