-- ===== src/Util/Sort.antt =====
-- `sort_by_key` of the standard library: the stable sort, which keeps the order of equal keys.
pub mod Distinct
use mathlib.Core.List.{Perm}
use mathlib.Core.List.Perm
use blazesym.Common.{
  ℕ, zero, suc, ◌≡◌, false, some, List, [], ◌∷◌, arith, if◌then◌else◌, get_elem?, All, Bool-cases,
  inl, inr,
}
use blazesym.Util.Order.{Ord, lt→le, le_trans}
use blazesym.Util.Search.LowerBound.{IsSortedBy}

module _ {ℓ} {A K : Type ℓ} ⦃o : Ord K⦄ (key : A → K) where
  -- in front of the first element whose key is not smaller
  pub insert_by_key : A → List A → List A
  insert_by_key x [] = x ∷ []
  insert_by_key x (y ∷ ys) = if o.lt (key y) (key x) then y ∷ insert_by_key x ys else x ∷ y ∷ ys

  unfoldable pub sort_by_key : List A → List A
  unfolding insert_by_key
  sort_by_key [] = []
  sort_by_key (x ∷ xs) = insert_by_key x (sort_by_key xs)

  abbrev pub NotBelow : A → A → Type 0
  NotBelow x y = o.lt (key y) (key x) ≡ false

  abbrev pub IsAscending : List A → Type 0
  IsAscending [] = Unit
  IsAscending (x ∷ xs) = All (NotBelow x) xs × IsAscending xs

  NotBelow-weaken :
      (x y : A) (ys : List A) → NotBelow x y → All (NotBelow y) ys → All (NotBelow x) ys
  NotBelow-weaken x y [] h k = tt
  NotBelow-weaken x y (z ∷ zs) h (kz, k) =
      (le_trans (key x) (key y) (key z) h kz, NotBelow-weaken x y zs h k)

  All-insert :
      (z x : A) (ys : List A)
      → NotBelow z x
      → All (NotBelow z) ys
      → All (NotBelow z) (insert_by_key x ys)
  unfolding insert_by_key
  All-insert z x [] h k = (h, tt)
  All-insert z x (y ∷ ys) h (ky, k) = elim (Bool-cases (o.lt (key y) (key x))) [
    | inl t ↦ rw t (ky, All-insert z x ys h k)
    | inr t ↦ rw t (h, (ky, k))
  ]

  insert-IsAscending : (x : A) (ys : List A) → IsAscending ys → IsAscending (insert_by_key x ys)
  unfolding insert_by_key
  insert-IsAscending x [] h = (tt, tt)
  insert-IsAscending x (y ∷ ys) (hy, h) = elim (Bool-cases (o.lt (key y) (key x))) [
    | inl t ↦ rw t (All-insert y x ys (lt→le (key y) (key x) t) hy, insert-IsAscending x ys h)
    | inr t ↦ rw t ((t, NotBelow-weaken x y ys t hy), (hy, h))
  ]

  pub sort_by_key-IsAscending : (xs : List A) → IsAscending (sort_by_key xs)
  unfolding sort_by_key
  sort_by_key-IsAscending [] = tt
  sort_by_key-IsAscending (x ∷ xs) =
      insert-IsAscending x (sort_by_key xs) (sort_by_key-IsAscending xs)

  insert-perm : (x : A) (ys : List A) → Perm (insert_by_key x ys) (x ∷ ys)
  unfolding insert_by_key
  insert-perm x [] = Perm.refl (x ∷ [])
  insert-perm x (y ∷ ys) = elim (Bool-cases (o.lt (key y) (key x))) [
    | inl t ↦ rw t (Perm.trans (Perm.cons y (insert-perm x ys)) (Perm.swap x y ys))
    | inr t ↦ rw t (Perm.refl (x ∷ y ∷ ys))
  ]

  pub sort_by_key-perm : (xs : List A) → Perm (sort_by_key xs) xs
  unfolding sort_by_key
  sort_by_key-perm [] = Perm.refl []
  sort_by_key-perm (x ∷ xs) =
      Perm.trans (insert-perm x (sort_by_key xs)) (Perm.cons x (sort_by_key-perm xs))

  All-get :
      (z x : A) (xs : List A) (i : ℕ) → All (NotBelow z) xs → get_elem? xs i ≡ some x → NotBelow z x
  All-get z x [] i h e = cc
  All-get z x (y ∷ ys) zero (hy, h) e = let q : y ≡ x = cc in rw (← q) hy
  All-get z x (y ∷ ys) (suc i) (hy, h) e = All-get z x ys i h e

  pub IsAscending→IsSortedBy : (xs : List A) → IsAscending xs → IsSortedBy key xs
  IsAscending→IsSortedBy [] h i j x y p hx hy = cc
  IsAscending→IsSortedBy (z ∷ zs) (hz, h) zero zero x y p hx hy =
      let q : x ≡ y = cc in rw q (o.lt-irrefl (key y))
  IsAscending→IsSortedBy (z ∷ zs) (hz, h) zero (suc j) x y p hx hy =
      let q : z ≡ x = cc in rw (← q) (All-get z y zs j hz hy)
  IsAscending→IsSortedBy (z ∷ zs) (hz, h) (suc i) zero x y p hx hy = absurd (omega arith)
  IsAscending→IsSortedBy (z ∷ zs) (hz, h) (suc i) (suc j) x y p hx hy =
      IsAscending→IsSortedBy zs h i j x y (omega arith) hx hy

  -- the sort meets what the searches ask for
  pub sort_by_key-IsSortedBy : (xs : List A) → IsSortedBy key (sort_by_key xs)
  sort_by_key-IsSortedBy xs = IsAscending→IsSortedBy (sort_by_key xs) (sort_by_key-IsAscending xs)

  insert-get :
      (x z : A) (ys : List A) (i : ℕ)
      → get_elem? (x ∷ ys) i ≡ some z
      → (p : ℕ) × (get_elem? (insert_by_key x ys) p ≡ some z)
  unfolding insert_by_key
  insert-get x z [] i h = (i, h)
  insert-get x z (y ∷ ys) zero h = elim (Bool-cases (o.lt (key y) (key x))) [
    | inl t ↦ (let (p, at) = insert-get x z ys zero h in (suc p, rw (t, insert_by_key) at))
    | inr t ↦ (zero, rw (t, insert_by_key) h)
  ]
  insert-get x z (y ∷ ys) (suc zero) h = elim (Bool-cases (o.lt (key y) (key x))) [
    | inl t ↦ (zero, rw (t, insert_by_key) h)
    | inr t ↦ (suc zero, rw (t, insert_by_key) h)
  ]
  insert-get x z (y ∷ ys) (suc (suc i)) h = elim (Bool-cases (o.lt (key y) (key x))) [
    | inl t ↦ (let (p, at) = insert-get x z ys (suc i) h in (suc p, rw (t, insert_by_key) at))
    | inr t ↦ (suc (suc i), rw (t, insert_by_key) h)
  ]

  -- what is in the list is in the sorted list
  pub sort_by_key-get :
      (xs : List A) (i : ℕ) (z : A)
      → get_elem? xs i ≡ some z
      → (p : ℕ) × (get_elem? (sort_by_key xs) p ≡ some z)
  unfolding sort_by_key
  sort_by_key-get [] i z h = cc
  sort_by_key-get (x ∷ xs) zero z h = insert-get x z (sort_by_key xs) zero h
  sort_by_key-get (x ∷ xs) (suc i) z h =
      let (p, at) = sort_by_key-get xs i z h in insert-get x z (sort_by_key xs) (suc p) at

  insert-from :
      (x z : A) (ys : List A) (p : ℕ)
      → get_elem? (insert_by_key x ys) p ≡ some z
      → (i : ℕ) × (get_elem? (x ∷ ys) i ≡ some z)
  unfolding insert_by_key
  insert-from x z [] p h = (p, h)
  insert-from x z (y ∷ ys) zero h = elim (Bool-cases (o.lt (key y) (key x))) [
    | inl t ↦ (1, rw (t, insert_by_key) at h)
    | inr t ↦ (zero, rw (t, insert_by_key) at h)
  ]
  insert-from x z (y ∷ ys) (suc p) h = elim (Bool-cases (o.lt (key y) (key x))) [
    | inl t ↦ skip (insert-from x z ys p (rw (t, insert_by_key) at h))
    | inr t ↦ (suc p, rw (t, insert_by_key) at h)
  ]
    where
      skip :
          (i : ℕ) × (get_elem? (x ∷ ys) i ≡ some z) → (i : ℕ) × (get_elem? (x ∷ y ∷ ys) i ≡ some z)
      skip (zero, e) = (zero, e)
      skip (suc i, e) = (suc (suc i), e)

  -- what is in the sorted list is in the list
  pub sort_by_key-from :
      (xs : List A) (p : ℕ) (z : A)
      → get_elem? (sort_by_key xs) p ≡ some z
      → (i : ℕ) × (get_elem? xs i ≡ some z)
  unfolding sort_by_key
  sort_by_key-from [] p z h = cc
  sort_by_key-from (x ∷ xs) p z h =
      step (λ q e. sort_by_key-from xs q z e) (insert-from x z (sort_by_key xs) p h)
    where
      step :
          ((q : ℕ) → get_elem? (sort_by_key xs) q ≡ some z → (i : ℕ) × (get_elem? xs i ≡ some z))
          → (i : ℕ) × (get_elem? (x ∷ sort_by_key xs) i ≡ some z)
          → (i : ℕ) × (get_elem? (x ∷ xs) i ≡ some z)
      step ih (zero, e) = (zero, e)
      step ih (suc i, e) = let (j, at) = ih i e in (suc j, at)
