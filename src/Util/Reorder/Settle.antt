-- ===== src/Util/Reorder/Settle.antt =====
-- That the loops of `reorder` (src/util.rs) end and put every element where its index says.
use mathlib.Core.Path.{subst}
use blazesym.Common.{
  ℕ, zero, suc, ◌+◌, ◌<◌, ◌≡◌, ◌≢◌, refl, sym, ap, ◌∙◌, some, List, arith, ◌==◌, ==_iff, length,
  get_elem?, get_elem?-lt, get_elem?-some, Bool-cases, inl, inr,
}
use blazesym.Common.Outcome.{ok}
use blazesym.Util.Reorder.{swap, settle, reorder_from, reorder}
use blazesym.Util.Reorder.Swap.{
  exchange, swapped, exchange_twice, length-swapped, get_elem?-swapped, misplaced, misplaced-le,
  misplaced-swapped,
}

swap-swapped :
    {A : Type 0} (xs : List A) (i j : ℕ) (x y : A)
    → get_elem? xs i ≡ some x
    → get_elem? xs j ≡ some y
    → swap xs i j ≡ ok (swapped xs i j x y)
unfolding swap
swap-swapped xs i j x y at_i at_j = rw (at_i, at_j, swap) refl

exchange_injective : (i j k l : ℕ) → exchange i j k ≡ exchange i j l → k ≡ l
exchange_injective i j k l e =
    sym (exchange_twice i j k) ∙ (ap (exchange i j) e ∙ exchange_twice i j l)

module _ {U : Type 0} where
  -- all indices are different and in bounds
  abbrev pub IsPermutation : List (U × ℕ) → Type 0
  IsPermutation indices =
      ((k : ℕ) (p : U × ℕ) → get_elem? indices k ≡ some p → p.1 < length indices)
      × ((k l : ℕ) (p q : U × ℕ)
          → get_elem? indices k ≡ some p
          → get_elem? indices l ≡ some q
          → p.1 ≡ q.1
          → k ≡ l)

  -- the indices in front of a position are in their places
  abbrev IsFixed : (i : ℕ) → List (U × ℕ) → Type 0
  IsFixed i indices = (k : ℕ) (p : U × ℕ) → k < i → get_elem? indices k ≡ some p → p.1 ≡ k

  IsFixed-swapped :
      (i : ℕ) (indices : List (U × ℕ)) (p q : U × ℕ)
      → get_elem? indices i ≡ some p
      → get_elem? indices p.1 ≡ some q
      → p.1 ≢ i
      → IsPermutation indices
      → IsFixed i indices
      → IsFixed i (swapped indices i p.1 p q)
  IsFixed-swapped i indices p q at_p at_q off (bounded, distinct) fixed k r lt at =
      let far : p.1 ≢ k =
        λ e. off (distinct p.1 i q p at_q at_p (fixed p.1 q (omega (arith, lt, e)) at_q)) in
      let stays : exchange i p.1 k ≡ k = ground (arith, lt, far) in
      fixed k r lt (
        sym (ap (λ (m : ℕ). get_elem? indices m) stays)
        ∙ (sym (get_elem?-swapped indices i p.1 p q at_p at_q (λ e. off (sym e)) k) ∙ at))

  IsFixed-next :
      (i : ℕ) (indices : List (U × ℕ)) (p : U × ℕ)
      → get_elem? indices i ≡ some p
      → p.1 ≡ i
      → IsFixed i indices
      → IsFixed (suc i) indices
  IsFixed-next i indices p at_p here fixed k r lt at = elim (Bool-cases (k == i)) [
    | inl t ↦
        let e : k ≡ i = (==_iff k i).0 t in
        let q : some r ≡ some p = sym at ∙ (ap (λ (m : ℕ). get_elem? indices m) e ∙ at_p) in
        let same : r ≡ p = cc in ap (λ (m : U × ℕ). m.1) same ∙ (here ∙ sym e)
    | inr t ↦
        let ne : k ≢ i = λ e. (let u = (==_iff k i).1 e in cc) in
        fixed k r (omega (arith, lt, ne)) at
  ]

module _ {T U : Type 0} where
  -- the element is for the position `t`
  abbrev pub IsFor : List T → List (U × ℕ) → (t : ℕ) → T → Type 0
  IsFor array indices t v =
      (k : ℕ) × (p : U × ℕ) × (get_elem? indices k ≡ some p)
      × (p.1 ≡ t)
      × (get_elem? array k ≡ some v)

  module _ (array0 : List T) (indices0 : List (U × ℕ)) where
    -- what the loops keep
    abbrev IsKept : (i : ℕ) → List T × List (U × ℕ) → Type 0
    IsKept i (array, indices) =
        (length array ≡ length indices)
        × (length indices ≡ length indices0)
        × IsPermutation indices
        × IsFixed i indices
        × ((t : ℕ) (v : T) → IsFor array0 indices0 t v → IsFor array indices t v)

    IsKept-swapped :
        (i : ℕ) (array : List T) (indices : List (U × ℕ)) (x y : T) (p q : U × ℕ)
        → get_elem? array i ≡ some x
        → get_elem? array p.1 ≡ some y
        → get_elem? indices i ≡ some p
        → get_elem? indices p.1 ≡ some q
        → p.1 ≢ i
        → IsKept i (array, indices)
        → IsKept i (swapped array i p.1 x y, swapped indices i p.1 p q)
    IsKept-swapped i array indices x y p q at_x at_y at_p at_q off
          (same, size, (bounded, distinct), fixed, kept) =
        let ne : i ≢ p.1 = λ e. off (sym e) in
        let read : (k : ℕ)
            → get_elem? (swapped indices i p.1 p q) k ≡ get_elem? indices (exchange i p.1 k) =
          get_elem?-swapped indices i p.1 p q at_p at_q ne in
        let size' = length-swapped indices i p.1 p q in
        (
          omega (arith, same, size', length-swapped array i p.1 x y),
          omega (arith, size, size'),
          (
            λ k r at. omega (arith, size', bounded (exchange i p.1 k) r (sym (read k) ∙ at)),
            λ k l r s at_r at_s e. exchange_injective i p.1 k l (
                distinct (exchange i p.1 k) (exchange i p.1 l) r s (sym (read k) ∙ at_r)
                  (sym (read l) ∙ at_s) e),
          ),
          IsFixed-swapped i indices p q at_p at_q off (bounded, distinct) fixed,
          λ t v is_for.
              let (k, r, at, e, own) = kept t v is_for in
              let back : exchange i p.1 (exchange i p.1 k) ≡ k = exchange_twice i p.1 k in
              (
                exchange i p.1 k,
                r,
                read (exchange i p.1 k) ∙ (ap (λ (m : ℕ). get_elem? indices m) back ∙ at),
                e,
                get_elem?-swapped array i p.1 x y at_x at_y ne (exchange i p.1 k)
                    ∙ (ap (λ (m : ℕ). get_elem? array m) back ∙ own),
              ),
        )

    settle-IsKept :
        (fuel i : ℕ) (array : List T) (indices : List (U × ℕ))
        → misplaced 0 indices < fuel
        → i < length indices
        → IsKept i (array, indices)
        → (state : List T × List (U × ℕ)) × (settle fuel i array indices ≡ ok state)
          × IsKept (suc i) state
    unfolding settle
    settle-IsKept zero i array indices enough lt kept = absurd (omega (arith, enough))
    settle-IsKept (suc fuel) i array indices enough lt kept =
        let (same, size, (bounded, distinct), fixed, holds) = kept in
        let (p, at_p) = get_elem?-some indices i lt in
        elim (Bool-cases (p.1 == i)) [
          | inl t ↦
              let here : p.1 ≡ i = (==_iff p.1 i).0 t in
              (
                (array, indices),
                rw (at_p, t, settle) refl,
                (same, size, (bounded, distinct), IsFixed-next i indices p at_p here fixed, holds),
              )
          | inr t ↦
              let off : p.1 ≢ i = λ e. (let u = (==_iff p.1 i).1 e in cc) in
              let (q, at_q) = get_elem?-some indices p.1 (bounded i p at_p) in
              let (x, at_x) = get_elem?-some array i (omega (arith, same, lt)) in
              let (y, at_y) = get_elem?-some array p.1 (omega (arith, same, bounded i p at_p)) in
              let off_q : q.1 ≢ p.1 = λ e. off (distinct p.1 i q p at_q at_p e) in
              let fewer = misplaced-swapped indices i p q at_p at_q off off_q in
              let (state, e, kept') =
                settle-IsKept fuel i (swapped array i p.1 x y) (swapped indices i p.1 p q)
                  (omega (arith, fewer, enough))
                  (omega (arith, length-swapped indices i p.1 p q, lt))
                  (IsKept-swapped i array indices x y p q at_x at_y at_p at_q off kept) in
              (
                state,
                rw
                    (
                      at_p,
                      t,
                      swap-swapped array i p.1 x y at_x at_y,
                      swap-swapped indices i p.1 p q at_p at_q,
                      settle,
                    )
                    e,
                kept',
              )
        ]

    reorder_from-IsKept :
        (count i : ℕ) (array : List T) (indices : List (U × ℕ))
        → i + count ≡ length indices0
        → IsKept i (array, indices)
        → (state : List T × List (U × ℕ)) × (reorder_from count i array indices ≡ ok state)
          × IsKept (length indices0) state
    unfolding reorder_from
    reorder_from-IsKept zero i array indices end kept =
        let e : i ≡ length indices0 = omega (arith, end) in
        ((array, indices), refl, subst (λ (m : ℕ). IsKept m (array, indices)) e kept)
    reorder_from-IsKept (suc count) i array indices end kept =
        let (state, e, kept') =
          settle-IsKept (suc (length indices)) i array indices
            (omega (arith, misplaced-le 0 indices)) (omega (arith, end, kept.1)) kept in
        let (state', e', kept'') =
          reorder_from-IsKept count (suc i) state.0 state.1 (omega (arith, end)) kept' in
        (state', rw (e, reorder_from) e', kept'')

  -- For as many indices as elements, all different and in bounds, `reorder` ends without a panic
  -- and puts every element at the position that its index says. No element is lost.
  pub reorder-IsFor :
      (array : List T) (indices : List (U × ℕ))
      → length array ≡ length indices
      → IsPermutation indices
      → (reordered : List T) × (reorder array indices ≡ ok reordered)
        × (length reordered ≡ length array)
        × ((k : ℕ) (p : U × ℕ) (v : T)
            → get_elem? indices k ≡ some p
            → get_elem? array k ≡ some v
            → get_elem? reordered p.1 ≡ some v)
  unfolding reorder
  reorder-IsFor array indices same perm =
      let (state, e, (same', size, perm', fixed, holds)) =
        reorder_from-IsKept array indices (length array) 0 array indices (omega (arith, same))
          (same, refl, perm, (λ k p lt at. absurd (omega (arith, lt))), λ t v own. own) in
      (
        state.0,
        rw (e, reorder) refl,
        omega (arith, same, same', size),
        λ k p v at own.
            let (m, q, at_q, e_q, own') = holds p.1 v (k, p, at, refl, own) in
            let lt = get_elem?-lt state.1 m q at_q in
            let place : q.1 ≡ m = fixed m q (omega (arith, lt, size)) at_q in
            ap (λ (n : ℕ). get_elem? state.0 n) (sym e_q ∙ place) ∙ own',
      )
