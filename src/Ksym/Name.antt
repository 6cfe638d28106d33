-- ===== src/Ksym/Name.antt =====
-- What `KsymResolver::find_addr` of src/kernel/ksym.rs returns for a name.
use blazesym.Common.{
  ℕ, zero, suc, ◌+◌, ◌-◌, ◌≤◌, ◌<◌, ◌≡◌, ◌≢◌, refl, sym, ap, ◌∙◌, false, Option, none, some, List,
  [], arith, length, get_elem?, get_elem?-lt, get_elem?-drop, get_elem?-map, drop, map, Bool-cases,
  inl, inr, leb, leb→le,
}
use blazesym.Util.Order.{bytes_ord, nat_ord, pair_ord, pair_lt}
use blazesym.Util.Search.{find_match_or_lower_bound_by_key}
use blazesym.Util.Search.LowerBound.{IsSortedBy, IsLowerBound, find_match_or_lower_bound_by_key_lem}
use blazesym.Util.Sort.{sort_by_key-IsSortedBy, sort_by_key-get}
use blazesym.Inspect.{SymInfo, SymType, variable, function, undefined, FindAddrOpts}
use blazesym.Ksym.{Ksym, sym_at, name_key, range, create_by_name_idx, sym_info, find_addr}

pub get_elem?-range :
    (start count i : ℕ) → i < count → get_elem? (range start count) i ≡ some (start + i)
unfolding range
get_elem?-range start zero i h = absurd (omega arith)
get_elem?-range start (suc n) zero h = let e : start ≡ start + 0 = omega arith in ap some e
get_elem?-range start (suc n) (suc i) h =
    let e : start + 1 + i ≡ start + suc i = omega arith in
    get_elem?-range (start + 1) n i (omega arith) ∙ ap some e

pub first-lt : (a b : List ℕ × ℕ) → pair_lt a b ≡ false → bytes_ord.lt a.0 b.0 ≡ false
unfolding pair_lt
first-lt (a, m) (b, n) h = elim (Bool-cases (bytes_ord.lt a b)) [
  | inl t ↦ absurd (let q = rw (t, pair_lt) at h in cc)
  | inr t ↦ t
]

abbrev name_of : List Ksym → ℕ → List ℕ
name_of syms idx = (sym_at syms idx).name

create_by_name_idx-IsSortedBy :
    (syms : List Ksym) → IsSortedBy (name_of syms) (create_by_name_idx syms)
unfolding create_by_name_idx
create_by_name_idx-IsSortedBy syms i j x y le hx hy =
    first-lt (name_key syms y) (name_key syms x)
      (sort_by_key-IsSortedBy (name_key syms) (range 0 (length syms)) i j x y le hx hy)

create_by_name_idx-get :
    (syms : List Ksym) (i : ℕ) (s : Ksym)
    → get_elem? syms i ≡ some s
    → (p : ℕ) × (get_elem? (create_by_name_idx syms) p ≡ some i)
unfolding create_by_name_idx
create_by_name_idx-get syms i s h = sort_by_key-get (name_key syms) (range 0 (length syms)) i i (
    get_elem?-range 0 (length syms) i (get_elem?-lt syms i s h)
    ∙ (let e : 0 + i ≡ i = omega arith in ap some e))

-- where a name that is there starts in the index
lower_bound-le :
    (syms : List Ksym) (name : List ℕ) (p i : ℕ)
    → get_elem? (create_by_name_idx syms) p ≡ some i
    → name_of syms i ≡ name
    → (r : ℕ) × (find_match_or_lower_bound_by_key (name_of syms) (create_by_name_idx syms) name
        ≡ some r)
      × (r ≤ p)
lower_bound-le syms name p i at same =
    of (find_match_or_lower_bound_by_key (name_of syms) (create_by_name_idx syms) name) refl (
      find_match_or_lower_bound_by_key_lem (name_of syms) (create_by_name_idx syms)
        (create_by_name_idx-IsSortedBy syms) name)
  where
    of :
        (r? : Option ℕ)
        → find_match_or_lower_bound_by_key (name_of syms) (create_by_name_idx syms) name ≡ r?
        → IsLowerBound (name_of syms) (create_by_name_idx syms) name r?
        → (r : ℕ) × (find_match_or_lower_bound_by_key (name_of syms) (create_by_name_idx syms) name
            ≡ some r)
          × (r ≤ p)
    of none e above =
        absurd (let lt = above p i at in let no = bytes_ord.lt-irrefl name in cc (lt, no, same))
    of (some r) e (first, at_r, below, most, rest) = elim (Bool-cases (leb r p)) [
      | inl t ↦ (r, e, leb→le r p t)
      | inr t ↦
          let front : p < r = ground (arith, t) in
          elim rest [
            | inl smaller ↦ absurd (let lt = smaller p i front at in cc (lt, below, same))
            | inr (less, equal, above) ↦ absurd (
                let eq = equal p i front at in
                let no = bytes_ord.lt-irrefl name in cc (eq, less, no, same))
          ]
    ]

-- The answer, from where the name starts in the index.
answered :
    (syms : List Ksym) (name : List ℕ) (opts : FindAddrOpts) (r q i : ℕ) (s : Ksym)
    → opts.sym_type ≢ variable
    → find_match_or_lower_bound_by_key (name_of syms) (create_by_name_idx syms) name ≡ some r
    → get_elem? (drop r (create_by_name_idx syms)) q ≡ some i
    → sym_at syms i ≡ s
    → get_elem? (find_addr syms name opts) q ≡ some (sym_info s)
unfolding find_addr
answered syms name opts r q i s kind found here own = of opts.sym_type refl kind (
    get_elem?-map (λ (k : ℕ). sym_info (sym_at syms k)) (drop r (create_by_name_idx syms)) q i here
    ∙ ap (λ (k : Ksym). some (sym_info k)) own)
  where
    of :
        (t : SymType)
        → opts.sym_type ≡ t
        → t ≢ variable
        → get_elem? (map (λ (k : ℕ). sym_info (sym_at syms k)) (drop r (create_by_name_idx syms))) q
          ≡ some (sym_info s)
        → get_elem? (find_addr syms name opts) q ≡ some (sym_info s)
    of variable e k h = absurd (k refl)
    of undefined e k h = rw (e, found, find_addr) h
    of function e k h = rw (e, found, find_addr) h

-- Unless variables are asked for, every kernel symbol with the given name is among the symbols that
-- `find_addr` returns.
pub find_addr_complete :
    (syms : List Ksym) (name : List ℕ) (opts : FindAddrOpts) (i : ℕ) (s : Ksym)
    → opts.sym_type ≢ variable
    → get_elem? syms i ≡ some s
    → s.name ≡ name
    → (p : ℕ) × (get_elem? (find_addr syms name opts) p ≡ some (sym_info s))
find_addr_complete syms name opts i s kind at same =
    let (p, at_p) = create_by_name_idx-get syms i s at in
    let own : sym_at syms i ≡ s = rw (at, sym_at) refl in
    let (r, found, le) = lower_bound-le syms name p i at_p (ap (λ (k : Ksym). k.name) own ∙ same) in
    let idxs = create_by_name_idx syms in
    let q : r + (p - r) ≡ p = omega arith in
    let here : get_elem? (drop r idxs) (p - r) ≡ some i =
      get_elem?-drop r (p - r) idxs ∙ ap (λ (k : ℕ). get_elem? idxs k) q ∙ at_p in
    (p - r, answered syms name opts r (p - r) i s kind found here own)

lower_bound-some :
    (syms : List Ksym) (name : List ℕ) (p i : ℕ)
    → get_elem? (create_by_name_idx syms) p ≡ some i
    → bytes_ord.lt name (name_of syms i) ≡ false
    → (r : ℕ) × (first : ℕ) × (find_match_or_lower_bound_by_key
          (name_of syms)
          (create_by_name_idx syms)
          name
        ≡ some r)
      × (get_elem? (create_by_name_idx syms) r ≡ some first)
lower_bound-some syms name p i at small =
    of (find_match_or_lower_bound_by_key (name_of syms) (create_by_name_idx syms) name) refl (
      find_match_or_lower_bound_by_key_lem (name_of syms) (create_by_name_idx syms)
        (create_by_name_idx-IsSortedBy syms) name)
  where
    of :
        (r? : Option ℕ)
        → find_match_or_lower_bound_by_key (name_of syms) (create_by_name_idx syms) name ≡ r?
        → IsLowerBound (name_of syms) (create_by_name_idx syms) name r?
        → (r : ℕ) × (first : ℕ) × (find_match_or_lower_bound_by_key
              (name_of syms)
              (create_by_name_idx syms)
              name
            ≡ some r)
          × (get_elem? (create_by_name_idx syms) r ≡ some first)
    of none e above = absurd (let lt = above p i at in cc (lt, small))
    of (some r) e (first, at_r, below, most, rest) = (r, first, e, at_r)

-- Unless variables are asked for, `find_addr` returns some symbol for every name that is not
-- smaller than the name of some kernel symbol, whether or not a symbol has that name.
pub find_addr-ne-nil :
    (syms : List Ksym) (name : List ℕ) (opts : FindAddrOpts) (i : ℕ) (s : Ksym)
    → opts.sym_type ≢ variable
    → get_elem? syms i ≡ some s
    → bytes_ord.lt name s.name ≡ false
    → find_addr syms name opts ≢ []
find_addr-ne-nil syms name opts i s kind at small empty =
    let (p, at_p) = create_by_name_idx-get syms i s at in
    let own : sym_at syms i ≡ s = rw (at, sym_at) refl in
    let (r, first, found, at_r) =
      lower_bound-some syms name p i at_p (rw (sym (ap (λ (k : Ksym). k.name) own)) at small) in
    let q : r + 0 ≡ r = omega arith in
    let idxs = create_by_name_idx syms in
    let here : get_elem? (drop r idxs) 0 ≡ some first =
      get_elem?-drop r 0 idxs ∙ ap (λ (k : ℕ). get_elem? idxs k) q ∙ at_r in
    let answer = answered syms name opts r 0 first (sym_at syms first) kind found here refl in
    let none_left = ap (λ (l : List SymInfo). get_elem? l 0) empty in cc (answer, none_left)
