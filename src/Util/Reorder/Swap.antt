-- ===== src/Util/Reorder/Swap.antt =====
-- The swap of two elements, seen by position, and how it puts an index in its place.
use blazesym.Common.{
  ℕ, zero, suc, ◌+◌, ◌≤◌, ◌<◌, ◌≡◌, ◌≢◌, refl, sym, ap, ◌∙◌, false, some, List, [], ◌∷◌, arith,
  ◌==◌, ==_iff, ne→==, if◌then◌else◌, length, get_elem?, set, length-set, get_elem?-set_self,
  get_elem?-set_ne, get_elem?-lt, Bool-cases, inl, inr,
}

-- which position is read at `k` behind a swap of `i` and `j`
abbrev pub exchange : (i j k : ℕ) → ℕ
exchange i j k = if k == i then j else if k == j then i else k

abbrev pub swapped : {A : Type 0} → List A → (i j : ℕ) → (x y : A) → List A
swapped xs i j x y = set (set xs i y) j x

pub exchange_twice : (i j k : ℕ) → exchange i j (exchange i j k) ≡ k
exchange_twice i j k = ground arith

pub length-swapped :
    {A : Type 0} (xs : List A) (i j : ℕ) (x y : A) → length (swapped xs i j x y) ≡ length xs
length-swapped xs i j x y = length-set (set xs i y) j x ∙ length-set xs i y

pub get_elem?-swapped :
    {A : Type 0} (xs : List A) (i j : ℕ) (x y : A)
    → get_elem? xs i ≡ some x
    → get_elem? xs j ≡ some y
    → i ≢ j
    → (k : ℕ) → get_elem? (swapped xs i j x y) k ≡ get_elem? xs (exchange i j k)
get_elem?-swapped xs i j x y at_i at_j ne k = elim (Bool-cases (k == j)) [
  | inl t ↦
      let e : k ≡ j = (==_iff k j).0 t in
      let far : (k == i) ≡ false = ne→== k i (λ q. ne (sym q ∙ e)) in
      let lt : j < length (set xs i y) =
        omega (arith, length-set xs i y, get_elem?-lt xs j y at_j) in
      rw (far, t)
        (ap (λ (p : ℕ). get_elem? (swapped xs i j x y) p) e
          ∙ (get_elem?-set_self (set xs i y) j x lt ∙ sym at_i))
  | inr t ↦
      let far : j ≢ k = λ q. (let u = (==_iff k j).1 (sym q) in cc) in
      get_elem?-set_ne (set xs i y) j k x far ∙ inner far t
]
  where
    inner : j ≢ k → (k == j) ≡ false → get_elem? (set xs i y) k ≡ get_elem? xs (exchange i j k)
    inner far t = elim (Bool-cases (k == i)) [
      | inl u ↦
          let e : k ≡ i = (==_iff k i).0 u in
          rw u (
            ap (λ (p : ℕ). get_elem? (set xs i y) p) e
            ∙ (get_elem?-set_self xs i y (get_elem?-lt xs i x at_i) ∙ sym at_j))
      | inr u ↦ rw (u, t) (get_elem?-set_ne xs i k y (λ q. (let v = (==_iff k i).1 (sym q) in cc)))
    ]

module _ {U : Type 0} where
  -- whether an index is out of its place
  abbrev pub is_off : (position : ℕ) → U × ℕ → ℕ
  is_off position (u, idx) = if idx == position then 0 else 1

  abbrev pub misplaced : (start : ℕ) → List (U × ℕ) → ℕ
  misplaced start [] = 0
  misplaced start (p ∷ ps) = is_off start p + misplaced (start + 1) ps

  pub misplaced-le : (start : ℕ) (ps : List (U × ℕ)) → misplaced start ps ≤ length ps
  misplaced-le start [] = omega arith
  misplaced-le start ((u, idx) ∷ ps) =
      let rest = misplaced-le (start + 1) ps in
      elim (Bool-cases (idx == start)) [
        | inl t ↦ rw t (omega (arith, rest))
        | inr t ↦ rw t (omega (arith, rest))
      ]

  misplaced-set :
      (start i position : ℕ) (ps : List (U × ℕ)) (old new : U × ℕ)
      → get_elem? ps i ≡ some old
      → position ≡ start + i
      → misplaced start (set ps i new) + is_off position old
        ≡ misplaced start ps + is_off position new
  misplaced-set start i position [] old new at e = cc
  misplaced-set start zero position (p ∷ ps) old new at e =
      let same : p ≡ old = cc in
      let here : position ≡ start = omega (arith, e) in rw (here, same) (omega arith)
  misplaced-set start (suc i) position (p ∷ ps) old new at e =
      omega (arith, misplaced-set (start + 1) i position ps old new at (omega (arith, e)))

  -- A swap that puts an index in its place.
  pub misplaced-swapped :
      (ps : List (U × ℕ)) (i : ℕ) (p q : U × ℕ)
      → get_elem? ps i ≡ some p
      → get_elem? ps p.1 ≡ some q
      → p.1 ≢ i
      → q.1 ≢ p.1
      → misplaced 0 (swapped ps i p.1 p q) + 1 ≤ misplaced 0 ps
  misplaced-swapped ps i p q at_i at_j off_p off_q =
      let first = misplaced-set 0 i i ps p q at_i (omega arith) in
      let at : get_elem? (set ps i q) p.1 ≡ some q =
        get_elem?-set_ne ps i p.1 q (λ e. off_p (sym e)) ∙ at_j in
      let second = misplaced-set 0 p.1 p.1 (set ps i q) q p at (omega arith) in
      let one : is_off i p ≡ 1 = rw (ne→== p.1 i off_p) refl in
      let one' : is_off p.1 q ≡ 1 = rw (ne→== q.1 p.1 off_q) refl in
      let none' : is_off p.1 p ≡ 0 = rw ((==_iff p.1 p.1).1 refl) refl in
      let at_most : is_off i q ≤ 1 = elim (Bool-cases (q.1 == i)) [
        | inl t ↦ rw t (omega arith)
        | inr t ↦ rw t (omega arith)
      ] in
      omega (arith, first, second, one, one', none', at_most)
