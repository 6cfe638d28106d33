-- ===== src/InsertMap.antt =====
-- src/insert_map.rs: a map that only grows. The order of the pairs is not observed, and the guard
-- that keeps `init` from using the map itself is not modelled.
use blazesym.Common.{
  ◌≡◌, refl, true, Option, none, some, List, [], ◌∷◌, if◌then◌else◌, Option-cases, Bool-cases, inl,
  inr,
}
use blazesym.Common.Outcome.{Outcome, ok, err, stuck, ErrorKind}
use blazesym.Util.Order.{Ord}

-- `HashMap::get`.
pub lookup {ℓ} : {K V : Type ℓ} → ⦃o : Ord K⦄ → K → List (K × V) → Option V
lookup ⦃o⦄ key [] = none
lookup ⦃o⦄ key ((k, v) ∷ map) = if o.eq k key then some v else lookup key map

-- The map behind the call, and the value or the error of `init`.
pub get_or_try_insert {ℓ} :
    {K V : Type ℓ} → ⦃o : Ord K⦄ → K → Outcome V → List (K × V) → List (K × V) × Outcome V
unfolding lookup
get_or_try_insert ⦃o⦄ key init map = elim (lookup key map) [
  | some value ↦ (map, ok value)
  | none ↦ elim init [
    | ok value ↦ ((key, value) ∷ map, ok value)
    | err e ↦ (map, err e)
    | stuck ↦ (map, stuck)
  ]
]

eq_self {ℓ} : {K : Type ℓ} → ⦃o : Ord K⦄ → (k : K) → o.eq k k ≡ true
eq_self ⦃o⦄ k = (o.eq_iff k k).1 refl

-- What a call with `key` is to leave at `k`, where `old` was, and what it is to return.
abbrev pub left_at {ℓ} :
    {K V : Type ℓ} → ⦃o : Ord K⦄ → (key k : K) → Outcome V → Option V → Option V
left_at ⦃o⦄ key k init (some v) = some v
left_at ⦃o⦄ key k (ok v) none = if o.eq key k then some v else none
left_at ⦃o⦄ key k (err e) none = none
left_at ⦃o⦄ key k stuck none = none

abbrev pub returned {ℓ} : {V : Type ℓ} → Outcome V → Option V → Outcome V
returned init (some v) = ok v
returned init none = init

lookup-other {ℓ} :
    {K V : Type ℓ}
    → ⦃o : Ord K⦄ → (key k : K) (v : V) (map : List (K × V)) (old : Option V) → lookup k map ≡ old
    → lookup key map ≡ none
    → lookup k ((key, v) ∷ map) ≡ left_at key k (ok v) old
unfolding lookup
lookup-other ⦃o⦄ key k v map (some w) h n = elim (Bool-cases (o.eq key k)) [
  | inl t ↦ absurd (let e = (o.eq_iff key k).0 t in cc)
  | inr t ↦ rw (t, lookup) h
]
lookup-other ⦃o⦄ key k v map none h n = elim (Bool-cases (o.eq key k)) [
  | inl t ↦ rw (t, lookup) refl
  | inr t ↦ rw (t, lookup) h
]

err-left_at {ℓ} :
    {K V : Type ℓ}
    → ⦃o : Ord K⦄ → (key k : K) (e : ErrorKind) (old : Option V) → old ≡ left_at key k (err e) old
err-left_at key k e (some v) = refl
err-left_at key k e none = refl

stuck-left_at {ℓ} :
    {K V : Type ℓ} → ⦃o : Ord K⦄ → (key k : K) (old : Option V) → old ≡ left_at key k stuck old
stuck-left_at key k (some v) = refl
stuck-left_at key k none = refl

vacant {ℓ} :
    {K V : Type ℓ}
    → ⦃o : Ord K⦄ → (key k : K) (init : Outcome V) (map : List (K × V)) → lookup key map ≡ none
    → let after = get_or_try_insert key init map in
      (after.1 ≡ init) × (lookup k after.0 ≡ left_at key k init (lookup k map))
unfolding get_or_try_insert
vacant key k (ok v) map n =
    rw (n, get_or_try_insert) (refl, lookup-other key k v map (lookup k map) refl n)
vacant key k (err e) map n = rw (n, get_or_try_insert) (refl, err-left_at key k e (lookup k map))
vacant key k stuck map n = rw (n, get_or_try_insert) (refl, stuck-left_at key k (lookup k map))

-- Where `key` is occupied, `get_or_try_insert` returns its value whatever `init` would have been,
-- and no key changes. Where it is vacant the call returns what `init` did: if that is a value,
-- `key` maps to it and every key that had a value keeps it; if it is an error, no key changes.
pub get_or_try_insert_lem {ℓ} :
    {K V : Type ℓ}
    → ⦃o : Ord K⦄ → (key k : K) (init : Outcome V) (map : List (K × V))
    → let after = get_or_try_insert key init map in
      (after.1 ≡ returned init (lookup key map))
      × (lookup key map ≡ none → lookup k after.0 ≡ left_at key k init (lookup k map))
      × ((v : V) → lookup key map ≡ some v → lookup k after.0 ≡ lookup k map)
unfolding get_or_try_insert
get_or_try_insert_lem key k init map = elim (Option-cases (lookup key map)) [
  | inl n ↦ (rw n ((vacant key k init map n).0), λ _. (vacant key k init map n).1, λ v e. cc)
  | inr (v, s) ↦ (rw (s, get_or_try_insert) refl, λ e. cc, λ w e. rw (s, get_or_try_insert) refl)
]
