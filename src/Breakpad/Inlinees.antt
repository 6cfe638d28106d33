-- ===== src/Breakpad/Inlinees.antt =====
-- The inlined calls at an address: `find_inlinee_at_depth` and `find_inlinees` of
-- src/breakpad/types.rs.
use blazesym.Common.{
  dec_le, ==_iff, ltb→lt, ltb→le, ℕ, zero, suc, ◌+◌, ◌^◌, ◌≤◌, ◌<◌, ◌≡◌, refl, sym, ap, ◌∙◌, Bool,
  true, false, not, Option, none, some, List, [], ◌∷◌, arith, ltb, leb, ◌==◌, length, get_elem?,
  Bool-cases, Option-cases, inl, inr,
}
use blazesym.Util.Order.{nat_ord, pair_ord, pair_lt, pair_eq, le_trans}
use blazesym.Util.Search.{partition_point}
use blazesym.Util.Search.Partition.{IsPartitioned, partition_point_lem}
use blazesym.Util.Search.LowerBound.{IsSortedBy}
use blazesym.Breakpad.{
  Inlinee, Function, inlinee_key, matched, up_to, binary_search_by_key, checked, candidate,
  find_inlinee_at_depth, inlinees_from, enough_rounds, find_inlinees,
}

candidate-matched :
    (inlinees : List Inlinee) (key : ℕ × ℕ) (idx : ℕ)
    → candidate inlinees (matched inlinees key (suc idx)) ≡ get_elem? inlinees idx
candidate-matched inlinees key idx = elim (Option-cases (get_elem? inlinees idx)) [
  | inl n ↦ rw (n, matched) n
  | inr (i, e) ↦ elim (Bool-cases (pair_eq (inlinee_key i) key)) [
    | inl t ↦ rw (e, t, matched) e
    | inr t ↦ rw (e, t, matched) e
  ]
]

-- what the checks of the candidate leave
abbrev IsChecked : (depth addr : ℕ) → Inlinee → Type 0
IsChecked depth addr i = (i.depth ≡ depth) × (addr < i.addr + i.size)

checked-some :
    (depth addr : ℕ) (i? : Option Inlinee) (i : Inlinee)
    → checked depth addr i? ≡ some i
    → (i? ≡ some i) × IsChecked depth addr i
checked-some depth addr none i h = cc
checked-some depth addr (some j) i h = elim (Bool-cases (j.depth == depth)) [
  | inr d ↦ (let q : none ≡ some i = rw d at h in cc)
  | inl d ↦ elim (Bool-cases (leb (2 ^ 64) (j.addr + j.size))) [
    | inl o ↦ (let q : none ≡ some i = rw (d, o) at h in cc)
    | inr o ↦ elim (Bool-cases (ltb addr (j.addr + j.size))) [
      | inr c ↦ (let q : none ≡ some i = rw (d, o, c) at h in cc)
      | inl c ↦
          let e : some j ≡ some i = rw (d, o, c) at h in
          let same : j ≡ i = cc in
          let deep : j.depth ≡ depth = (==_iff j.depth depth).0 d in
          let inside = ltb→lt addr (j.addr + j.size) c in
          (
            e,
            (
              ap (λ (k : Inlinee). k.depth) (sym same) ∙ deep,
              omega (
                arith,
                inside,
                ap (λ (k : Inlinee). k.addr) same,
                ap (λ (k : Inlinee). k.size) same,
              ),
            ),
          )
    ]
  ]
]

module _ (func : Function) (depth addr : ℕ) where
  -- the candidate is the inlinee in front of the partition point
  find_inlinee-candidate :
      (p : ℕ)
      → partition_point (up_to (depth, addr)) func.inlinees ≡ p
      → (i : Inlinee) → find_inlinee_at_depth func depth addr ≡ some i
      → (idx : ℕ) × (p ≡ suc idx) × (get_elem? func.inlinees idx ≡ some i) × IsChecked depth addr i
  unfolding find_inlinee_at_depth binary_search_by_key
  find_inlinee-candidate zero e i h =
      absurd
        (let q : none ≡ some i = rw (e, find_inlinee_at_depth, binary_search_by_key) at h in cc)
  find_inlinee-candidate (suc idx) e i h =
      let q : checked depth addr
            (candidate func.inlinees (matched func.inlinees (depth, addr) (suc idx)))
          ≡ some i =
        rw (e, find_inlinee_at_depth, binary_search_by_key) at h in
      let q' =
        ap (checked depth addr) (sym (candidate-matched func.inlinees (depth, addr) idx)) ∙ q in
      let (at, ok_i) = checked-some depth addr (get_elem? func.inlinees idx) i q' in
      (idx, refl, at, ok_i)

not_behind : (d a c b : ℕ) → c ≡ d → not (pair_lt (d, a) (c, b)) ≡ true → b ≤ a
unfolding pair_lt
not_behind d a c b e h = ground (arith, h)

not_behind_rev : (d a c b : ℕ) → c ≡ d → b ≤ a → not (pair_lt (d, a) (c, b)) ≡ true
unfolding pair_lt
not_behind_rev d a c b e h = ground (arith, h)

up_to-IsPartitioned :
    (inlinees : List Inlinee) (key : ℕ × ℕ)
    → IsSortedBy inlinee_key inlinees
    → IsPartitioned (up_to key) inlinees
up_to-IsPartitioned inlinees key sorted i j x y le hx hy t =
    ap not (le_trans (inlinee_key x) (inlinee_key y) key (sorted i j x y le hx hy) (not-true _ t))
  where
    not-true : (b : Bool) → not b ≡ true → b ≡ false
    not-true true h = cc
    not-true false h = refl

-- For a function whose inlinees are sorted by depth and address, an inlinee that
-- `find_inlinee_at_depth` returns is one of them with the depth; it starts at the address or in
-- front of it and ends behind it. No other inlinee of the depth starts between the two.
pub find_inlinee_at_depth-some :
    (func : Function) (depth addr : ℕ) (i : Inlinee)
    → IsSortedBy inlinee_key func.inlinees
    → find_inlinee_at_depth func depth addr ≡ some i
    → (p : ℕ) × (get_elem? func.inlinees p ≡ some i)
      × (i.depth ≡ depth)
      × (i.addr ≤ addr)
      × (addr < i.addr + i.size)
      × ((j : ℕ) (other : Inlinee)
          → get_elem? func.inlinees j ≡ some other
          → other.depth ≡ depth
          → other.addr ≤ addr
          → other.addr ≤ i.addr)
find_inlinee_at_depth-some func depth addr i sorted h =
    let key : ℕ × ℕ = (depth, addr) in
    let (bound, below, above) =
      partition_point_lem (up_to key) func.inlinees
        (up_to-IsPartitioned func.inlinees key sorted) in
    let (idx, last, at, (d, inside)) =
      find_inlinee-candidate func depth addr (partition_point (up_to key) func.inlinees) refl i h in
    (
      idx,
      at,
      d,
      not_behind depth addr i.depth i.addr d (below idx i (omega (arith, last)) at),
      inside,
      λ j other at_j deep le.
          let near : up_to key other ≡ true =
            not_behind_rev depth addr other.depth other.addr deep le in
          elim (dec_le (partition_point (up_to key) func.inlinees) j) [
            | yes past ↦ absurd (let far = above j other past at_j in cc (near, far))
            | no front ↦
                not_behind i.depth i.addr other.depth other.addr (deep ∙ sym d)
                  (ap not (sorted j idx other i (omega (arith, last, front)) at_j at))
          ],
    )

-- the rounds that are left suffice for the depths that are left
inlinees_from-none :
    (fuel : ℕ) (func : Function) (depth addr : ℕ)
    → ((p : ℕ) (i : Inlinee) → get_elem? func.inlinees p ≡ some i → i.depth < fuel + depth)
    → find_inlinee_at_depth func (depth + length (inlinees_from fuel func depth addr)) addr ≡ none
unfolding inlinees_from
inlinees_from-none zero func depth addr low =
    elim (Option-cases (find_inlinee_at_depth func (depth + 0) addr)) [
      | inl n ↦ n
      | inr (i, e) ↦
          let (idx, last, at, (d, inside)) =
            find_inlinee-candidate func (depth + 0) addr
              (partition_point (up_to (depth + 0, addr)) func.inlinees) refl i e in
          absurd (omega (arith, d, low idx i at))
    ]
inlinees_from-none (suc fuel) func depth addr low =
    elim (Option-cases (find_inlinee_at_depth func depth addr)) [
      | inl n ↦
          let q : depth + 0 ≡ depth = omega arith in
          rw (n, inlinees_from) (ap (λ (k : ℕ). find_inlinee_at_depth func k addr) q ∙ n)
      | inr (i, e) ↦
          let rest = inlinees_from fuel func (depth + 1) addr in
          let q : depth + suc (length rest) ≡ depth + 1 + length rest = omega arith in
          rw (e, inlinees_from)
            (ap (λ (k : ℕ). find_inlinee_at_depth func k addr) q
              ∙ inlinees_from-none fuel func (depth + 1) addr (λ p j at. omega (arith, low p j at)))
    ]

inlinees_from-get :
    (fuel : ℕ) (func : Function) (depth addr k : ℕ) (i : Inlinee)
    → get_elem? (inlinees_from fuel func depth addr) k ≡ some i
    → find_inlinee_at_depth func (depth + k) addr ≡ some i
unfolding inlinees_from
inlinees_from-get zero func depth addr k i h = cc
inlinees_from-get (suc fuel) func depth addr zero i h =
    elim (Option-cases (find_inlinee_at_depth func depth addr)) [
      | inl n ↦ (let q : none ≡ some i = rw (n, inlinees_from) at h in cc)
      | inr (j, e) ↦
          let q : some j ≡ some i = rw (e, inlinees_from) at h in
          let r : depth + 0 ≡ depth = omega arith in
          ap (λ (l : ℕ). find_inlinee_at_depth func l addr) r ∙ e ∙ q
    ]
inlinees_from-get (suc fuel) func depth addr (suc k) i h =
    elim (Option-cases (find_inlinee_at_depth func depth addr)) [
      | inl n ↦ (let q : none ≡ some i = rw (n, inlinees_from) at h in cc)
      | inr (j, e) ↦
          let r : depth + suc k ≡ depth + 1 + k = omega arith in
          ap (λ (l : ℕ). find_inlinee_at_depth func l addr) r
          ∙ inlinees_from-get fuel func (depth + 1) addr k i (rw (e, inlinees_from) at h)
    ]

enough_rounds-lt :
    (inlinees : List Inlinee) (p : ℕ) (i : Inlinee)
    → get_elem? inlinees p ≡ some i
    → i.depth < enough_rounds inlinees
unfolding enough_rounds
enough_rounds-lt [] p i h = cc
enough_rounds-lt (j ∷ inlinees) zero i h =
    let e : j.depth ≡ i.depth = cc in
    elim (Bool-cases (ltb (enough_rounds inlinees) (j.depth + 2))) [
      | inl t ↦ rw (t, enough_rounds) (omega (arith, e))
      | inr t ↦
          rw (t, enough_rounds) (omega (arith, e, ltb→le (enough_rounds inlinees) (j.depth + 2) t))
    ]
enough_rounds-lt (j ∷ inlinees) (suc p) i h =
    let ih = enough_rounds-lt inlinees p i h in
    elim (Bool-cases (ltb (enough_rounds inlinees) (j.depth + 2))) [
      | inl t ↦
          rw (t, enough_rounds) (omega (arith, ih, ltb→lt (enough_rounds inlinees) (j.depth + 2) t))
      | inr t ↦ rw (t, enough_rounds) ih
    ]

-- `find_inlinees` returns what `find_inlinee_at_depth` finds at the depths from zero on, up to the
-- first depth at which it finds nothing.
pub find_inlinees_lem :
    (func : Function) (addr : ℕ)
    → ((k : ℕ) (i : Inlinee)
        → get_elem? (find_inlinees func addr) k ≡ some i
        → find_inlinee_at_depth func k addr ≡ some i)
      × (find_inlinee_at_depth func (length (find_inlinees func addr)) addr ≡ none)
unfolding find_inlinees
find_inlinees_lem func addr =
    let rounds = enough_rounds func.inlinees in
    (
      λ k i h.
          let q : k ≡ 0 + k = omega arith in
          ap (λ (l : ℕ). find_inlinee_at_depth func l addr) q
          ∙ inlinees_from-get rounds func 0 addr k i h,
      let found = inlinees_from rounds func 0 addr in
          let q : length found ≡ 0 + length found = omega arith in
          ap (λ (l : ℕ). find_inlinee_at_depth func l addr) q
          ∙ inlinees_from-none rounds func 0 addr
              (λ p i at. omega (arith, enough_rounds-lt func.inlinees p i at)),
    )
