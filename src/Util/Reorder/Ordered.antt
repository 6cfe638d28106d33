-- ===== src/Util/Reorder/Ordered.antt =====
-- That `with_ordered_elems` (src/util.rs) gives each element the part of the result that was made for it.
use blazesym.Common.{
  ℕ, zero, suc, ◌+◌, ◌<◌, ◌≡◌, ◌≢◌, refl, sym, ap, ◌∙◌, some, List, [], ◌∷◌, map, arith, length,
  get_elem?, get_elem?-some, get_elem?-lt, get_elem?-map, All,
}
use blazesym.Common.Outcome.{Outcome, ok}
use blazesym.Util.Order.{nat_ord, pair_ord}
use blazesym.Util.Sort.{sort_by_key, sort_by_key-get, sort_by_key-from}
use blazesym.Util.Sort.Distinct.{
  AllDiffer, AllDiffer-get, sort_by_key-AllDiffer, length-sort_by_key,
}
use blazesym.Util.Reorder.{enumerate_from, element, self_key, with_ordered_elems}
use blazesym.Util.Reorder.Settle.{IsPermutation, reorder-IsFor}

abbrev index_of : ℕ × ℕ → ℕ
index_of p = p.1

-- the elements with their positions, in order
abbrev pub ordered : List ℕ → List (ℕ × ℕ)
ordered elems = sort_by_key self_key (enumerate_from 0 elems)

length-enumerate_from : (start : ℕ) (ts : List ℕ) → length (enumerate_from start ts) ≡ length ts
unfolding enumerate_from
length-enumerate_from start [] = refl
length-enumerate_from start (t ∷ ts) = ap suc (length-enumerate_from (start + 1) ts)

enumerate_from-get :
    (start : ℕ) (ts : List ℕ) (i t : ℕ)
    → get_elem? ts i ≡ some t
    → get_elem? (enumerate_from start ts) i ≡ some (t, start + i)
unfolding enumerate_from
enumerate_from-get start [] i t h = cc
enumerate_from-get start (u ∷ ts) zero t h =
    let q : u ≡ t = cc in let e : start ≡ start + 0 = omega arith in rw (q, ← e) refl
enumerate_from-get start (u ∷ ts) (suc i) t h =
    enumerate_from-get (start + 1) ts i t h
    ∙ ap (λ (n : ℕ). some (t, n)) (let e : start + 1 + i ≡ start + suc i = omega arith in e)

enumerate_from-lt :
    (start : ℕ) (ts : List ℕ) (i : ℕ) (p : ℕ × ℕ)
    → get_elem? (enumerate_from start ts) i ≡ some p
    → p.1 < start + length ts
unfolding enumerate_from
enumerate_from-lt start [] i p h = cc
enumerate_from-lt start (u ∷ ts) zero p h =
    let q : (u, start) ≡ p = cc in omega (arith, ap (λ (r : ℕ × ℕ). r.1) q)
enumerate_from-lt start (u ∷ ts) (suc i) p h = omega (arith, enumerate_from-lt (start + 1) ts i p h)

enumerate_from-AllDiffer : (start : ℕ) (ts : List ℕ) → AllDiffer index_of (enumerate_from start ts)
unfolding enumerate_from
enumerate_from-AllDiffer start [] = tt
enumerate_from-AllDiffer start (t ∷ ts) =
    (behind start (start + 1) ts (omega arith), enumerate_from-AllDiffer (start + 1) ts)
  where
    behind :
        (i from : ℕ) (ts : List ℕ)
        → i < from
        → All (λ (p : ℕ × ℕ). i ≢ index_of p) (enumerate_from from ts)
    behind i from [] lt = tt
    behind i from (u ∷ us) lt =
        ((λ e. omega (arith, e, lt)), behind i (from + 1) us (omega (arith, lt)))

ordered-IsPermutation : (elems : List ℕ) → IsPermutation (ordered elems)
ordered-IsPermutation elems = (
  λ k p at.
      let (i, at') = sort_by_key-from self_key (enumerate_from 0 elems) k p at in
      omega (
        arith,
        enumerate_from-lt 0 elems i p at',
        length-sort_by_key self_key (enumerate_from 0 elems),
        length-enumerate_from 0 elems,
      ),
  λ k l p q at_p at_q e.
      AllDiffer-get index_of (ordered elems) k l p q
        (sort_by_key-AllDiffer self_key index_of (enumerate_from 0 elems)
          (enumerate_from-AllDiffer 0 elems))
        at_p at_q e,
)

pub length-ordered : (elems : List ℕ) → length (ordered elems) ≡ length elems
length-ordered elems =
    length-sort_by_key self_key (enumerate_from 0 elems) ∙ length-enumerate_from 0 elems

-- each element with what the result has for it, at the place of the element in the sorted list
abbrev pub IsInOrder : {U : Type 0} → (elems : List ℕ) → (parts reordered : List U) → Type 0
IsInOrder elems parts reordered =
    (length reordered ≡ length elems)
    × ((i t : ℕ)
        → get_elem? elems i ≡ some t
        → (k : ℕ) × (get_elem? (map element (ordered elems)) k ≡ some t)
          × (get_elem? reordered i ≡ get_elem? parts k))

-- Where the function that gets the sorted elements succeeds with a part for each of them,
-- `with_ordered_elems` ends with its result, whose parts are in the order of the elements as they were
-- given: each element's part is the one at the place of that element in the sorted list.
pub with_ordered_elems-IsInOrder :
    {U R : Type 0} (elems : List ℕ) (extract : R → List U) (put_back : List U → R → R)
    (handle : List ℕ → Outcome R) (result : R)
    → handle (map element (ordered elems)) ≡ ok result
    → length (extract result) ≡ length elems
    → (reordered : List U) × (with_ordered_elems elems extract put_back handle
        ≡ ok (put_back reordered result))
      × IsInOrder elems (extract result) reordered
unfolding with_ordered_elems
with_ordered_elems-IsInOrder elems extract put_back handle result e size =
    let vec = ordered elems in
    let same : length (extract result) ≡ length vec = omega (arith, size, length-ordered elems) in
    let (reordered, e', size', placed) =
      reorder-IsFor (extract result) vec same (ordered-IsPermutation elems) in
    (
      reordered,
      rw (e, e') refl,
      (
        size' ∙ size,
        λ i t at.
            let (k, at_k) =
              sort_by_key-get self_key (enumerate_from 0 elems) i (t, 0 + i)
                (enumerate_from-get 0 elems i t at) in
            let (v, own) =
              get_elem?-some (extract result) k
                (omega (arith, same, get_elem?-lt vec k (t, 0 + i) at_k)) in
            let e_i : 0 + i ≡ i = omega arith in
            (
              k,
              get_elem?-map element vec k (t, 0 + i) at_k,
              ap (λ (n : ℕ). get_elem? reordered n) (sym e_i)
                  ∙ (placed k (t, 0 + i) v at_k own ∙ sym own),
            ),
      ),
    )
