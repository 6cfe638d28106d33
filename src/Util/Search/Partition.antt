-- ===== src/Util/Search/Partition.antt =====
-- `partition_point` finds the place where the test turns, on every slice that the test partitions.
use blazesym.Common.{
  ℕ, zero, suc, ◌+◌, ◌-◌, ◌/◌, ◌≤◌, ◌<◌, ◌≡◌, Bool, true, false, some, List, arith, length,
  get_elem?, get_elem?-some, get_elem?-lt, Bool-cases, inl, inr,
}
use blazesym.Util.Search.{partition_loop, partition_point}

module _ {ℓ} {A : Type ℓ} (before : A → Bool) (slice : List A) where
  -- What `partition_point` asks of its caller: the elements with the test stand in front.
  abbrev pub IsPartitioned : Type ℓ
  IsPartitioned =
      (i j : ℕ) (x y : A)
      → i ≤ j
      → get_elem? slice i ≡ some x
      → get_elem? slice j ≡ some y
      → before y ≡ true
      → before x ≡ true

  abbrev pub HoldBelow : ℕ → Type ℓ
  HoldBelow p = (i : ℕ) (x : A) → i < p → get_elem? slice i ≡ some x → before x ≡ true

  abbrev pub FailFrom : ℕ → Type ℓ
  FailFrom p = (i : ℕ) (x : A) → p ≤ i → get_elem? slice i ≡ some x → before x ≡ false

  abbrev pub IsPartitionPoint : ℕ → Type ℓ
  IsPartitionPoint p = (p ≤ length slice) × HoldBelow p × FailFrom p

  module _ (parted : IsPartitioned) where
    HoldBelow-step :
        (m : ℕ) (e : A) → get_elem? slice m ≡ some e → before e ≡ true → HoldBelow (m + 1)
    HoldBelow-step m e at t i x h hx = parted i m x e (omega arith) hx at t

    FailFrom-step : (m : ℕ) (e : A) → get_elem? slice m ≡ some e → before e ≡ false → FailFrom m
    FailFrom-step m e at t i x h hx = elim (Bool-cases (before x)) [
      | inr f ↦ f
      | inl y ↦ cc (parted m i e x h at hx y)
    ]

    partition_loop_lem :
        (fuel left size : ℕ)
        → size ≤ fuel
        → left + size ≤ length slice
        → HoldBelow left
        → FailFrom (left + size)
        → IsPartitionPoint (partition_loop before slice fuel left size)
    unfolding partition_loop
    partition_loop_lem zero left zero f b lo hi = (omega arith, lo, λ i x h. hi i x (omega arith))
    partition_loop_lem zero left (suc size) f b lo hi = absurd (omega arith)
    partition_loop_lem (suc fuel) left zero f b lo hi =
        (omega arith, lo, λ i x h. hi i x (omega arith))
    partition_loop_lem (suc fuel) left (suc size) f b lo hi =
        let m : ℕ = left + suc size / 2 in
        let (e, at) = get_elem?-some slice m (omega arith) in
        elim (Bool-cases (before e)) [
          | inl t ↦
              rw (at, t, partition_loop)
                (partition_loop_lem fuel (m + 1) (size - suc size / 2) (omega arith) (omega arith)
                  (HoldBelow-step m e at t) (λ i x h. hi i x (omega arith)))
          | inr t ↦
              rw (at, t, partition_loop)
                (partition_loop_lem fuel left (suc size / 2) (omega arith) (omega arith) lo
                  (λ i x h. FailFrom-step m e at t i x (omega arith)))
        ]

    -- the search meets the documented contract of `partition_point`
    pub partition_point_lem : IsPartitionPoint (partition_point before slice)
    unfolding partition_point
    partition_point_lem =
        partition_loop_lem (length slice) 0 (length slice) (omega arith) (omega arith)
          (λ i x h. absurd (omega arith))
          (λ i x h at. absurd (omega (arith, get_elem?-lt slice i x at)))
