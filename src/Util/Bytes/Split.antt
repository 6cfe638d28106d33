-- ===== src/Util/Bytes/Split.antt =====
-- `split_bytes` and `split_once` cut at the first byte that passes the test.
use native.Mathlib.Numerals.{add-one}
use blazesym.Common.{
  ℕ, zero, suc, ◌≡◌, refl, ap, Bool, true, false, none, some, List, [], ◌∷◌, ◌++◌, arith, drop,
  length, All, Bool-cases, Option-cases, inl, inr, take-append_length, drop-append_length,
}
use blazesym.Util.Bytes.{position, split_bytes, split_once}

-- no byte passes the test
abbrev pub NonePass : (ℕ → Bool) → List ℕ → Type 0
NonePass check = All (λ b. check b ≡ false)

drop-suc : (i : ℕ) (bytes : List ℕ) → drop (suc i) bytes ≡ drop 1 (drop i bytes)
drop-suc zero bytes = refl
drop-suc (suc i) [] = refl
drop-suc (suc i) (x ∷ bytes) = drop-suc i bytes

module _ (check : ℕ → Bool) where
  pub position-append :
      (l : List ℕ) (b : ℕ) (r : List ℕ)
      → NonePass check l
      → check b ≡ true
      → position check (l ++ (b ∷ r)) ≡ some (length l)
  unfolding position
  position-append [] b r h t = rw t
  position-append (x ∷ l) b r (hx, h) t = rw (hx, position-append l b r h t)

  pub position-none : (bytes : List ℕ) → NonePass check bytes → position check bytes ≡ none
  unfolding position
  position-none [] h = refl
  position-none (x ∷ bytes) (hx, h) = rw (hx, position-none bytes h)

  -- where the test first passes
  data Cut (bytes : List ℕ) : Type 0 where
    never : NonePass check bytes → Cut bytes
    at :
        (l : List ℕ) (b : ℕ) (r : List ℕ)
        → bytes ≡ l ++ (b ∷ r)
        → NonePass check l
        → check b ≡ true
        → Cut bytes

  Cut-cons : (x : ℕ) (bytes : List ℕ) → check x ≡ false → Cut bytes → Cut (x ∷ bytes)
  Cut-cons x bytes f (never h) = never (f, h)
  Cut-cons x bytes f (at l b r e h t) = at (x ∷ l) b r (ap (λ (s : List ℕ). x ∷ s) e) (f, h) t

  find-Cut : (bytes : List ℕ) → Cut bytes
  find-Cut [] = never tt
  find-Cut (x ∷ bytes) = elim (Bool-cases (check x)) [
    | inl t ↦ at [] x bytes refl tt t
    | inr f ↦ Cut-cons x bytes f (find-Cut bytes)
  ]

  pub split_bytes-append :
      (l : List ℕ) (b : ℕ) (r : List ℕ)
      → NonePass check l
      → check b ≡ true
      → split_bytes (l ++ (b ∷ r)) check ≡ some (l, r)
  unfolding split_bytes
  split_bytes-append l b r h t = rw (
    position-append l b r h t,
    take-append_length l (b ∷ r),
    drop-append_length l (b ∷ r),
    split_bytes,
  )

  pub split_bytes-none : (bytes : List ℕ) → NonePass check bytes → split_bytes bytes check ≡ none
  unfolding split_bytes
  split_bytes-none bytes h = rw (position-none bytes h, split_bytes)

  Cut-sound :
      (bytes l r : List ℕ)
      → Cut bytes
      → split_bytes bytes check ≡ some (l, r)
      → (b : ℕ) × (bytes ≡ l ++ (b ∷ r)) × NonePass check l × (check b ≡ true)
  Cut-sound bytes l r (never h) q = cc (split_bytes-none bytes h)
  Cut-sound bytes l r (at l' b r' e h t) q =
      let whole : split_bytes bytes check ≡ some (l', r') = rw e (split_bytes-append l' b r' h t) in
      let el : l' ≡ l = ground (arith, whole, q) in
      let er : r' ≡ r = ground (arith, whole, q) in (b, cc (e, el, er), rw (← el) h, t)

  -- Where `split_bytes` answers two parts, the text is the first part, a byte that passes the test,
  -- and the second part, and no byte of the first part passes the test.
  pub split_bytes_sound :
      (bytes l r : List ℕ)
      → split_bytes bytes check ≡ some (l, r)
      → (b : ℕ) × (bytes ≡ l ++ (b ∷ r)) × NonePass check l × (check b ≡ true)
  split_bytes_sound bytes l r = Cut-sound bytes l r (find-Cut bytes)

  -- `split_once` and `split_bytes` are the same function.
  pub split_once-split_bytes : (bytes : List ℕ) → split_once bytes check ≡ split_bytes bytes check
  unfolding split_bytes split_once
  split_once-split_bytes bytes = elim (Option-cases (position check bytes)) [
    | inl e ↦ rw (e, split_bytes, split_once)
    | inr (i, e) ↦ rw (e, add-one, drop-suc i bytes, split_bytes, split_once)
  ]
