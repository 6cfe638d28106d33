-- ===== src/Examples/Searches.antt =====
-- The searches of src/util.rs and the map of src/insert_map.rs at concrete inputs.
use blazesym.Common.{
  ℕ, zero, suc, ◌≡◌, ◌<◌, refl, none, some, List, [], ◌∷◌, arith, length, get_elem?,
}
use blazesym.Common.Outcome.{ok}
use blazesym.Util.Order.{nat_ord}
use blazesym.Util.Search.{find_match_or_lower_bound_by_key}
use blazesym.Util.Search.LowerBound.{IsSortedBy, IsLowerBound, find_match_or_lower_bound_by_key_lem}
use blazesym.Util.Search.Runs.{find_match_or_lower_bound_by_key-last}
use blazesym.Util.Sort.{IsAscending→IsSortedBy}
use blazesym.Util.Sort.Distinct.{AllDiffer-get}
use blazesym.Util.Reorder.{reorder}
use blazesym.Util.Reorder.Settle.{IsPermutation, reorder-IsFor}
use blazesym.InsertMap.{lookup, get_or_try_insert, get_or_try_insert_lem, left_at, returned}

abbrev self : ℕ → ℕ
self n = n

abbrev numbers : List ℕ
numbers = 2 ∷ 4 ∷ 4 ∷ 9 ∷ []

numbers-IsSortedBy : IsSortedBy self numbers
numbers-IsSortedBy =
    IsAscending→IsSortedBy self numbers
      ((refl, (refl, (refl, tt))), ((refl, (refl, tt)), ((refl, tt), (tt, tt))))

find_match_or_lower_bound_by_key_lem_example : IsLowerBound self numbers 5 (some 1)
unfolding find_match_or_lower_bound_by_key
find_match_or_lower_bound_by_key_lem_example =
    find_match_or_lower_bound_by_key_lem self numbers numbers-IsSortedBy 5

abbrev twins : List ℕ
twins = 4 ∷ 4 ∷ 9 ∷ []

twins-IsSortedBy : IsSortedBy self twins
twins-IsSortedBy = IsAscending→IsSortedBy self twins ((refl, (refl, tt)), ((refl, tt), (tt, tt)))

find_match_or_lower_bound_by_key-last_example :
    find_match_or_lower_bound_by_key self twins 5 ≡ some 1
find_match_or_lower_bound_by_key-last_example =
    find_match_or_lower_bound_by_key-last self twins twins-IsSortedBy 5 1 4 4 refl refl refl refl
      (λ x h. let e : 9 ≡ x = cc in rw (← e) refl)

abbrev cached : List (ℕ × ℕ)
cached = (7, 70) ∷ []

get_or_try_insert_lem_example :
    let after = get_or_try_insert 3 (ok 30) cached in
    (after.1 ≡ returned (ok 30) (lookup 3 cached))
    × (lookup 3 cached ≡ none
        → lookup 3 after.0 ≡ left_at {K = ℕ} {V = ℕ} 3 3 (ok 30) (lookup 3 cached))
    × ((v : ℕ) → lookup 3 cached ≡ some v → lookup 3 after.0 ≡ lookup 3 cached)
get_or_try_insert_lem_example = get_or_try_insert_lem 3 3 (ok 30) cached

-- the letters of "abc" and where they are for
abbrev letters : List ℕ
letters = b'c' ∷ b'a' ∷ b'b' ∷ []

abbrev places : List (ℕ × ℕ)
places = (7, 2) ∷ (8, 0) ∷ (9, 1) ∷ []

places-IsPermutation : IsPermutation places
places-IsPermutation =
    (λ k p at. place_lt k p at, λ k l p q at_p at_q e. place_differs k l p q at_p at_q e)
  where
    place_lt : (k : ℕ) (p : ℕ × ℕ) → get_elem? places k ≡ some p → p.1 < 3
    place_lt zero p at = let q : (7, 2) ≡ p = cc in rw (← q) (omega arith)
    place_lt (suc zero) p at = let q : (8, 0) ≡ p = cc in rw (← q) (omega arith)
    place_lt (suc (suc zero)) p at = let q : (9, 1) ≡ p = cc in rw (← q) (omega arith)
    place_lt (suc (suc (suc k))) p at = cc

    place_differs :
        (k l : ℕ) (p q : ℕ × ℕ)
        → get_elem? places k ≡ some p
        → get_elem? places l ≡ some q
        → p.1 ≡ q.1
        → k ≡ l
    place_differs k l p q at_p at_q e =
        AllDiffer-get (λ (r : ℕ × ℕ). r.1) places k l p q
          (
            ((λ d. omega (arith, d)), ((λ d. omega (arith, d)), tt)),
            (((λ d. omega (arith, d)), tt), (tt, tt)),
          )
          at_p at_q e

reorder-IsFor_example :
    (reordered : List ℕ) × (reorder letters places ≡ ok reordered)
    × (length reordered ≡ length letters)
    × ((k : ℕ) (p : ℕ × ℕ) (v : ℕ)
        → get_elem? places k ≡ some p
        → get_elem? letters k ≡ some v
        → get_elem? reordered p.1 ≡ some v)
reorder-IsFor_example = reorder-IsFor letters places refl places-IsPermutation
