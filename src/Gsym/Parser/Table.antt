-- ===== src/Gsym/Parser/Table.antt =====
-- The address table of a Gsym file: what `find_addr` finds in it, and what `addr_at` reads from it.
use native.Mathlib.Nat.{mul-suc}
use blazesym.Common.{
  ℕ, zero, suc, ◌+◌, ◌-◌, ◌*◌, ◌^◌, ◌≤◌, ◌<◌, ◌≡◌, refl, sym, ap, ◌∙◌, true, Option, none, some,
  List, [], ◌∷◌, arith, ltb, leb, ◌==◌, length, take, drop, get_elem?, map, Bool-cases,
  Option-cases, inl, inr, length-drop, le→leb, le→ltb, leb→le, ltb→le, ltb→lt,
}
use blazesym.Util.Slice.{
  Slice, slice, chunks, from_le_bytes, read_pod, read_slice, get_from, read_pod_slice_ref,
  usize_max, align_offset,
}
use blazesym.Util.Order.{nat_ord}
use blazesym.Util.Search.LowerBound.{IsSortedBy, IsLowerBound, find_match_or_lower_bound_by_key_lem}
use blazesym.Util.Search.{find_match_or_lower_bound_by_key}
use blazesym.Gsym.Parser.{
  GsymContext, find_addr, find_addr_impl, addr_at, is_addr_size, checked_add,
}

-- the entry `i` of a table of integers of `size` bytes
abbrev entry : (size i : ℕ) → List ℕ → ℕ
entry size i bytes = from_le_bytes (take size (drop (i * size) bytes))

drop-nil : (n : ℕ) → Path (List ℕ) (drop n []) []
drop-nil zero = refl
drop-nil (suc n) = refl

drop-drop : (m n : ℕ) (xs : List ℕ) → drop m (drop n xs) ≡ drop (m + n) xs
drop-drop m zero xs = let e : m ≡ m + 0 = omega arith in ap (λ (k : ℕ). drop k xs) e
drop-drop m (suc n) [] = drop-nil m ∙ sym (drop-nil (m + suc n))
drop-drop m (suc n) (x ∷ xs) =
    let e : suc (m + n) ≡ m + suc n = omega arith in
    drop-drop m n xs ∙ ap (λ (k : ℕ). drop k (x ∷ xs)) e

take-take : (m n : ℕ) (xs : List ℕ) → m ≤ n → take m (take n xs) ≡ take m xs
take-take zero n xs h = refl
take-take (suc m) zero xs h = absurd (omega arith)
take-take (suc m) (suc n) [] h = refl
take-take (suc m) (suc n) (x ∷ xs) h = ap (λ (l : List ℕ). x ∷ l) (take-take m n xs (omega arith))

drop-take : (m n k : ℕ) (xs : List ℕ) → k ≡ m + n → drop m (take k xs) ≡ take n (drop m xs)
drop-take zero n k xs e = let q : k ≡ n = omega arith in ap (λ (j : ℕ). take j xs) q
drop-take (suc m) n zero xs e = absurd (omega arith)
drop-take (suc m) n (suc k) [] e = sym (take-nil n)
  where
    take-nil : (n : ℕ) → Path (List ℕ) (take n []) []
    take-nil zero = refl
    take-nil (suc n) = refl
drop-take (suc m) n (suc k) (x ∷ xs) e = drop-take m n k xs (omega arith)

-- a table is not longer than its entries
chunks-take :
    (size n : ℕ) (bytes : List ℕ) → chunks size n (take (size * n) bytes) ≡ chunks size n bytes
unfolding chunks
chunks-take size zero bytes = refl
chunks-take size (suc n) bytes =
    let room : size ≤ size * suc n = omega (arith, mul-suc size n) in
    let split : size * suc n ≡ size + size * n = omega (arith, mul-suc size n) in
    ap2 (take-take size (size * suc n) bytes room) (
      ap (chunks size n) (drop-take size (size * n) (size * suc n) bytes split)
      ∙ chunks-take size n (drop size bytes))
  where
    ap2 : {x y : List ℕ} {xs ys : List (List ℕ)} → x ≡ y → xs ≡ ys → (x ∷ xs) ≡ (y ∷ ys)
    ap2 p q = cc

get_elem?-chunks :
    (size n i : ℕ) (bytes : List ℕ)
    → i < n
    → get_elem? (map from_le_bytes (chunks size n bytes)) i ≡ some (entry size i bytes)
unfolding chunks
get_elem?-chunks size zero i bytes h = absurd (omega arith)
get_elem?-chunks size (suc n) zero bytes h =
    let e : 0 ≡ 0 * size = omega arith in
    ap (λ (k : ℕ). some (from_le_bytes (take size (drop k bytes)))) e
get_elem?-chunks size (suc n) (suc i) bytes h =
    get_elem?-chunks size n i (drop size bytes) (omega arith)
    ∙ ap (λ (l : List ℕ). some (from_le_bytes (take size l)))
        (drop-drop (i * size) size bytes
          ∙ (let e : i * size + size ≡ suc i * size = omega arith in
              ap (λ (k : ℕ). drop k bytes) e))

get_elem?-chunks-none :
    (size n i : ℕ) (bytes : List ℕ)
    → n ≤ i
    → get_elem? (map from_le_bytes (chunks size n bytes)) i ≡ none
unfolding chunks
get_elem?-chunks-none size zero i bytes h = refl
get_elem?-chunks-none size (suc n) zero bytes h = absurd (omega arith)
get_elem?-chunks-none size (suc n) (suc i) bytes h =
    get_elem?-chunks-none size n i (drop size bytes) (omega arith)

-- the addresses of the table, relative to the base address
abbrev pub table : GsymContext → List ℕ
table ctx =
    map from_le_bytes (chunks ctx.header.addr_off_size ctx.header.num_addrs ctx.addr_tab.bytes)

read_pod-at :
    (size at : ℕ) (s : Slice)
    → at + size ≤ length s.bytes
    → (read_pod size (slice (s.addr + at) (drop at s.bytes))).0
      ≡ some (from_le_bytes (take size (drop at s.bytes)))
unfolding read_pod read_slice
read_pod-at size at s h =
    rw
      (
        le→ltb (length (drop at s.bytes)) size (omega (arith, length-drop {0} at s.bytes)),
        read_pod,
        read_slice,
      )
      refl

addr_at-entry :
    (ctx : GsymContext) (idx : ℕ)
    → is_addr_size ctx.header.addr_off_size ≡ true
    → idx * ctx.header.addr_off_size + ctx.header.addr_off_size ≤ length ctx.addr_tab.bytes
    → idx * ctx.header.addr_off_size ≤ usize_max
    → addr_at ctx idx
      ≡ checked_add ctx.header.base_address (entry ctx.header.addr_off_size idx ctx.addr_tab.bytes)
unfolding addr_at get_from
addr_at-entry ctx idx h fits small =
    rw
      (
        le→leb (idx * ctx.header.addr_off_size) usize_max small,
        h,
        le→leb (idx * ctx.header.addr_off_size) (length ctx.addr_tab.bytes) (omega arith),
        read_pod-at ctx.header.addr_off_size (idx * ctx.header.addr_off_size) ctx.addr_tab fits,
        addr_at,
        get_from,
      )
      refl

read_pod_slice_ref-some :
    (size align_of count : ℕ) (s t : Slice)
    → (read_pod_slice_ref size align_of count s).0 ≡ some t
    → (size * count ≤ usize_max)
      × (size * count ≤ length s.bytes)
      × (t.bytes ≡ take (size * count) s.bytes)
unfolding read_pod_slice_ref read_slice
read_pod_slice_ref-some size align_of count s t h =
    elim (Bool-cases (leb (size * count) usize_max)) [
      | inr a ↦ absurd (let q = rw (a, read_pod_slice_ref) at h in cc)
      | inl a ↦ elim (Bool-cases (ltb (length s.bytes) (size * count))) [
        | inl b ↦ absurd (let q = rw (a, b, read_pod_slice_ref, read_slice) at h in cc)
        | inr b ↦ elim (Bool-cases (align_offset s.addr align_of == 0)) [
          | inr c ↦ absurd (let q = rw (a, b, c, read_pod_slice_ref, read_slice) at h in cc)
          | inl c ↦
              let q = rw (a, b, c, read_pod_slice_ref, read_slice) at h in
              (
                leb→le (size * count) usize_max a,
                ltb→le (length s.bytes) (size * count) b,
                sym (ap (bytes_or t) q),
              )
        ]
      ]
    ]
  where
    bytes_or : Slice → Option Slice → List ℕ
    bytes_or default none = default.bytes
    bytes_or default (some r) = r.bytes

entry_fits : (size i n : ℕ) → i < n → i * size + size ≤ size * n
entry_fits size i zero h = absurd (omega arith)
entry_fits size i (suc n) h = elim (Bool-cases (ltb i n)) [
  | inl t ↦ omega (arith, mul-suc size n, entry_fits size i n (ltb→lt i n t))
  | inr t ↦ (let e : i ≡ n = omega (arith, ltb→le i n t) in rw e (omega (arith, mul-suc size n)))
]

-- What stands behind a successful `find_addr`: the table is there, and is searched.
Searched : GsymContext → (addr idx : ℕ) → Type 0
Searched ctx addr idx =
    (ctx.header.base_address ≤ addr)
    × (is_addr_size ctx.header.addr_off_size ≡ true)
    × (ctx.header.addr_off_size * ctx.header.num_addrs ≤ usize_max)
    × (ctx.header.addr_off_size * ctx.header.num_addrs ≤ length ctx.addr_tab.bytes)
    × (find_match_or_lower_bound_by_key (λ (x : ℕ). x) (table ctx) (addr - ctx.header.base_address)
        ≡ some idx)

find_addr_impl-some :
    (size num rel idx : ℕ) (s : Slice)
    → find_addr_impl size s num rel ≡ some idx
    → (size * num ≤ usize_max)
      × (size * num ≤ length s.bytes)
      × (find_match_or_lower_bound_by_key
            (λ (x : ℕ). x)
            (map from_le_bytes (chunks size num s.bytes))
            rel
          ≡ some idx)
unfolding find_addr_impl
find_addr_impl-some size num rel idx s h =
    elim (Option-cases ((read_pod_slice_ref size size num s).0)) [
      | inl e ↦ absurd (let q = rw (e, find_addr_impl) at h in cc)
      | inr (t, e) ↦
          let (small, fits, bytes) = read_pod_slice_ref-some size size num s t e in
          let same : chunks size num t.bytes ≡ chunks size num s.bytes =
            ap (chunks size num) bytes ∙ chunks-take size num s.bytes in
          (small, fits, rw same at (rw (e, find_addr_impl) at h))
    ]

find_addr-Searched :
    (ctx : GsymContext) (addr idx : ℕ) → find_addr ctx addr ≡ some idx → Searched ctx addr idx
unfolding find_addr Searched
find_addr-Searched ctx addr idx h = elim (Bool-cases (ltb addr ctx.header.base_address)) [
  | inl t ↦ absurd (let q = rw (t, find_addr) at h in cc)
  | inr t ↦ elim (Bool-cases (is_addr_size ctx.header.addr_off_size)) [
    | inr u ↦ absurd (let q = rw (t, u, find_addr) at h in cc)
    | inl u ↦
        let rel = addr - ctx.header.base_address in
        let (small, fits, found) =
          find_addr_impl-some ctx.header.addr_off_size ctx.header.num_addrs rel idx ctx.addr_tab
            (rw (t, u, find_addr) at h) in
        (ltb→le addr ctx.header.base_address t, u, small, fits, found)
  ]
]

-- The entry of the table that starts closest in front of an address.
abbrev pub IsClosest : GsymContext → (addr idx : ℕ) → Type 0
IsClosest ctx addr idx =
    (start : ℕ) × (addr_at ctx idx ≡ some start)
    × (start ≤ addr)
    × ((j other : ℕ)
        → j < ctx.header.num_addrs
        → addr_at ctx j ≡ some other
        → other ≤ addr
        → other ≤ start)

checked_add-some : (a b c : ℕ) → checked_add a b ≡ some c → c ≡ a + b
checked_add-some a b c h = ground (arith, h)

checked_add-fits : (a b : ℕ) → a + b < 2 ^ 64 → checked_add a b ≡ some (a + b)
checked_add-fits a b h = ground (arith, h)

abbrev relative : GsymContext → ℕ → ℕ
relative ctx i = entry ctx.header.addr_off_size i ctx.addr_tab.bytes

addr_at-relative :
    (ctx : GsymContext) (addr idx i : ℕ)
    → Searched ctx addr idx
    → i < ctx.header.num_addrs
    → addr_at ctx i ≡ checked_add ctx.header.base_address (relative ctx i)
unfolding Searched
addr_at-relative ctx addr idx i (base, width, room, fits, found) h =
    let inside = entry_fits ctx.header.addr_off_size i ctx.header.num_addrs h in
    addr_at-entry ctx i width (omega arith) (omega arith)

index_inside :
    (ctx : GsymContext) (idx e : ℕ)
    → get_elem? (table ctx) idx ≡ some e
    → idx < ctx.header.num_addrs
index_inside ctx idx e at = elim (Bool-cases (ltb idx ctx.header.num_addrs)) [
  | inl t ↦ ltb→lt idx ctx.header.num_addrs t
  | inr t ↦
      let gone =
        get_elem?-chunks-none ctx.header.addr_off_size ctx.header.num_addrs idx ctx.addr_tab.bytes
          (ltb→le idx ctx.header.num_addrs t) in
      absurd (cc (gone, at))
]

-- Where the address table of a Gsym file is sorted and the address has 64 bits, `addr_at` reads a
-- start that is not behind the address at the index that `find_addr` returns, and it reads no start
-- between the two at any other index of the table.
pub find_addr-IsClosest :
    (ctx : GsymContext) (addr idx : ℕ)
    → IsSortedBy (λ (x : ℕ). x) (table ctx)
    → addr < 2 ^ 64
    → find_addr ctx addr ≡ some idx
    → IsClosest ctx addr idx
unfolding Searched
find_addr-IsClosest ctx addr idx sorted small h =
    let searched = find_addr-Searched ctx addr idx h in
    let (base, width, room, fits, found) = searched in
    let rel = addr - ctx.header.base_address in
    let bound : IsLowerBound (λ (x : ℕ). x) (table ctx) rel (some idx) =
      rw found at (find_match_or_lower_bound_by_key_lem (λ (x : ℕ). x) (table ctx) sorted rel) in
    let (e, at, below, most, rest) = bound in
    let inside : idx < ctx.header.num_addrs = index_inside ctx idx e at in
    let own : relative ctx idx ≡ e = same_value (sym (at_index ctx idx inside) ∙ at) in
    (
      ctx.header.base_address + relative ctx idx,
      addr_at-relative ctx addr idx idx searched inside
          ∙ checked_add-fits ctx.header.base_address (relative ctx idx)
              (omega (arith, ltb→le rel e below)),
      omega (arith, ltb→le rel e below),
      λ j other hj at_j le.
          let sum : other ≡ ctx.header.base_address + relative ctx j =
            checked_add-some ctx.header.base_address (relative ctx j) other
              (sym (addr_at-relative ctx addr idx j searched hj) ∙ at_j) in
          omega (
            arith,
            ltb→le e (relative ctx j) (
                most j (relative ctx j) (at_index ctx j hj)
                  (le→ltb rel (relative ctx j) (omega arith))),
          ),
    )
  where
    at_index :
        (ctx : GsymContext) (i : ℕ)
        → i < ctx.header.num_addrs
        → get_elem? (table ctx) i ≡ some (relative ctx i)
    at_index ctx i h =
        get_elem?-chunks ctx.header.addr_off_size ctx.header.num_addrs i ctx.addr_tab.bytes h

    same_value : {a b : ℕ} → Path (Option ℕ) (some a) (some b) → a ≡ b
    same_value h = cc
