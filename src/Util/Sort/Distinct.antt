-- ===== src/Util/Sort/Distinct.antt =====
-- A sort keeps the length of a list, and that what is read off its elements is different for each.
use blazesym.Common.{
  ℕ, zero, suc, ◌≡◌, ◌≢◌, refl, sym, ap, ◌∙◌, some, List, [], ◌∷◌, length, get_elem?, All, All-get,
  Bool-cases, inl, inr,
}
use blazesym.Util.Order.{Ord}
use blazesym.Util.Sort.{insert_by_key, sort_by_key}

-- all are different
abbrev pub AllDiffer : {A B : Type 0} → (A → B) → List A → Type 0
AllDiffer f [] = Unit
AllDiffer f (x ∷ xs) = All (λ y. f x ≢ f y) xs × AllDiffer f xs

pub AllDiffer-get :
    {A B : Type 0} (f : A → B) (xs : List A) (i j : ℕ) (x y : A)
    → AllDiffer f xs
    → get_elem? xs i ≡ some x
    → get_elem? xs j ≡ some y
    → f x ≡ f y
    → i ≡ j
AllDiffer-get f [] i j x y h at_x at_y e = cc
AllDiffer-get f (z ∷ zs) zero zero x y h at_x at_y e = refl
AllDiffer-get f (z ∷ zs) zero (suc j) x y (hz, h) at_x at_y e =
    let q : z ≡ x = cc in absurd (All-get (λ w. f z ≢ f w) zs j y hz at_y (ap f q ∙ e))
AllDiffer-get f (z ∷ zs) (suc i) zero x y (hz, h) at_x at_y e =
    let q : z ≡ y = cc in absurd (All-get (λ w. f z ≢ f w) zs i x hz at_x (ap f q ∙ sym e))
AllDiffer-get f (z ∷ zs) (suc i) (suc j) x y (hz, h) at_x at_y e =
    ap suc (AllDiffer-get f zs i j x y h at_x at_y e)

module _ {A K : Type 0} ⦃o : Ord K⦄ (key : A → K) where
  All-insert :
      (P : A → Type 0) (x : A) (ys : List A) → P x → All P ys → All P (insert_by_key key x ys)
  unfolding insert_by_key
  All-insert P x [] h k = (h, tt)
  All-insert P x (y ∷ ys) h (ky, k) = elim (Bool-cases (o.lt (key y) (key x))) [
    | inl t ↦ rw t (ky, All-insert P x ys h k)
    | inr t ↦ rw t (h, (ky, k))
  ]

  module _ {B : Type 0} (f : A → B) where
    insert-AllDiffer :
        (x : A) (ys : List A)
        → All (λ y. f x ≢ f y) ys
        → AllDiffer f ys
        → AllDiffer f (insert_by_key key x ys)
    unfolding insert_by_key
    insert-AllDiffer x [] h k = (tt, tt)
    insert-AllDiffer x (y ∷ ys) (hy, h) (ky, k) = elim (Bool-cases (o.lt (key y) (key x))) [
      | inl t ↦
          rw t (All-insert (λ z. f y ≢ f z) x ys (λ e. hy (sym e)) ky, insert-AllDiffer x ys h k)
      | inr t ↦ rw t ((hy, h), (ky, k))
    ]

    All-sort : (P : A → Type 0) (xs : List A) → All P xs → All P (sort_by_key key xs)
    unfolding sort_by_key
    All-sort P [] h = tt
    All-sort P (x ∷ xs) (hx, h) = All-insert P x (sort_by_key key xs) hx (All-sort P xs h)

    pub sort_by_key-AllDiffer : (xs : List A) → AllDiffer f xs → AllDiffer f (sort_by_key key xs)
    unfolding sort_by_key
    sort_by_key-AllDiffer [] h = tt
    sort_by_key-AllDiffer (x ∷ xs) (hx, h) =
        insert-AllDiffer x (sort_by_key key xs) (All-sort (λ y. f x ≢ f y) xs hx)
          (sort_by_key-AllDiffer xs h)

  length-insert : (x : A) (ys : List A) → length (insert_by_key key x ys) ≡ suc (length ys)
  unfolding insert_by_key
  length-insert x [] = refl
  length-insert x (y ∷ ys) = elim (Bool-cases (o.lt (key y) (key x))) [
    | inl t ↦ rw t (ap suc (length-insert x ys))
    | inr t ↦ rw t refl
  ]

  pub length-sort_by_key : (xs : List A) → length (sort_by_key key xs) ≡ length xs
  unfolding sort_by_key
  length-sort_by_key [] = refl
  length-sort_by_key (x ∷ xs) =
      length-insert x (sort_by_key key xs) ∙ ap suc (length-sort_by_key xs)
