-- ===== src/Util/Rest.antt =====
-- Every reader leaves a rest of the slice that it was given, at the right address, whether it
-- succeeds or not.
use mathlib.Core.List.{append_assoc}
use blazesym.Common.{
  ℕ, suc, ◌+◌, ◌≤◌, ◌<◌, ◌≡◌, refl, sym, ap, ◌∙◌, Option, none, some, List, [], ◌∷◌, ◌++◌, arith,
  ltb, ◌==◌, length, take, length-append, length-take, take-append-drop, Bool-cases, inl, inr,
  ltb→le, le→ltb, take-append_length, drop-append_length, bit_and, bit_or,
}
use blazesym.Util.Slice.{
  Slice, slice, Read, pass_on, ◌>>=◌, pure, lift, read_slice, read_pod, read_u8, read_u32,
  from_le_bytes, advance, align, align_offset,
}
use blazesym.Util.Leb128.{
  shl64, u64_leb128_loop, u64_leb128_first, read_u64_leb128, i64_leb128_loop, read_i64_leb128,
}

-- `t` is what is left of `s` behind some bytes
abbrev pub IsRest : Slice → Slice → Type 0
IsRest s t = (front : List ℕ) × (s.bytes ≡ front ++ t.bytes) × (t.addr ≡ s.addr + length front)

pub IsRest-refl : (s : Slice) → IsRest s s
IsRest-refl s = ([], refl, omega arith)

pub IsRest-trans : (s t u : Slice) → IsRest s t → IsRest t u → IsRest s u
IsRest-trans s t u (f, p, a) (g, q, b) = (
  f ++ g,
  p ∙ ap (λ (l : List ℕ). f ++ l) q ∙ sym (append_assoc f g u.bytes),
  omega (arith, length-append {0} f g),
)

pub IsRest-length : (s t : Slice) → IsRest s t → length t.bytes ≤ length s.bytes
IsRest-length s t (f, p, a) = omega (arith, ap length p, length-append {0} f t.bytes)

-- A reader that keeps to its slice.
abbrev pub Keeps : {A : Type 0} → Read A → Type 0
Keeps m = (s : Slice) → IsRest s (m s).1

pub pure-Keeps : {A : Type 0} (a : A) → Keeps (pure a)
pure-Keeps a s = IsRest-refl s

lift-Keeps : {A : Type 0} (o : Option A) → Keeps (lift o)
lift-Keeps o s = IsRest-refl s

pass_on-IsRest :
    {A B : Type 0} (s : Slice) (r : Option A × Slice) (f : A → Read B)
    → IsRest s r.1
    → ((a : A) → Keeps (f a))
    → IsRest s (pass_on r f).1
pass_on-IsRest s (none, t) f h k = h
pass_on-IsRest s (some a, t) f h k = IsRest-trans s t (f a t).1 h (k a t)

pub >>=-Keeps :
    {A B : Type 0} (m : Read A) (f : A → Read B)
    → Keeps m
    → ((a : A) → Keeps (f a))
    → Keeps (m >>= f)
>>=-Keeps m f h k s = pass_on-IsRest s (m s) f (h s) k

pub read_slice-Keeps : (len : ℕ) → Keeps (read_slice len)
unfolding read_slice
read_slice-Keeps len s = elim (Bool-cases (ltb (length s.bytes) len)) [
  | inl t ↦ rw t (IsRest-refl s)
  | inr t ↦ rw t (
    take len s.bytes,
    sym (take-append-drop len s.bytes),
    omega (arith, length-take {0} len s.bytes, ltb→le (length s.bytes) len t),
  )
]

read_pod-Keeps : (size : ℕ) → Keeps (read_pod size)
unfolding read_pod
read_pod-Keeps size =
    >>=-Keeps (read_slice size) _ (read_slice-Keeps size)
      (λ part. pure-Keeps (from_le_bytes part.bytes))

pub read_u8-Keeps : Keeps read_u8
unfolding read_u8
read_u8-Keeps = read_pod-Keeps 1

pub read_u32-Keeps : Keeps read_u32
unfolding read_u32
read_u32-Keeps = read_pod-Keeps 4

pub advance-Keeps : (cnt : ℕ) → Keeps (advance cnt)
unfolding advance
advance-Keeps cnt = >>=-Keeps (read_slice cnt) _ (read_slice-Keeps cnt) (λ part. pure-Keeps tt)

align-Keeps : (align_to : ℕ) → Keeps (align align_to)
unfolding align
align-Keeps align_to s = advance-Keeps (align_offset s.addr align_to) s

IsRest-cons :
    (b : ℕ) (bs : List ℕ) (addr : ℕ) (t : Slice)
    → IsRest (slice (addr + 1) bs) t
    → IsRest (slice addr (b ∷ bs)) t
IsRest-cons b bs addr t (f, p, a) = (b ∷ f, ap (λ (l : List ℕ). b ∷ l) p, omega arith)

IsRest-byte : (b : ℕ) (bs : List ℕ) (addr : ℕ) → IsRest (slice addr (b ∷ bs)) (slice (addr + 1) bs)
IsRest-byte b bs addr = (b ∷ [], refl, refl)

u64_leb128_loop-IsRest :
    (bytes : List ℕ) (addr result shift : ℕ)
    → IsRest (slice addr bytes) (u64_leb128_loop bytes addr result shift).1
unfolding u64_leb128_loop
u64_leb128_loop-IsRest [] addr result shift = IsRest-refl (slice addr [])
u64_leb128_loop-IsRest (b ∷ bs) addr result shift = elim (Bool-cases (bit_and b 0x80 == 0)) [
  | inl t ↦ rw (t, u64_leb128_loop) (IsRest-byte b bs addr)
  | inr t ↦
      rw (t, u64_leb128_loop)
        (IsRest-cons b bs addr _ (
          u64_leb128_loop-IsRest bs (addr + 1) (bit_or result (shl64 (bit_and b 0x7f) shift))
            (shift + 7)))
]

pub read_u64_leb128-Keeps : Keeps read_u64_leb128
unfolding read_u64_leb128
read_u64_leb128-Keeps s = first s.bytes s.addr
  where
    first : (bytes : List ℕ) (addr : ℕ) → IsRest (slice addr bytes) (u64_leb128_first bytes addr).1
    first [] addr = IsRest-refl (slice addr [])
    first (b ∷ bs) addr = elim (Bool-cases (bit_and b 0x80 == 0)) [
      | inl t ↦ rw (t, u64_leb128_first) (IsRest-byte b bs addr)
      | inr t ↦
          rw (t, u64_leb128_first)
            (IsRest-cons b bs addr _ (u64_leb128_loop-IsRest bs (addr + 1) (bit_and b 0x7f) 7))
    ]

i64_leb128_loop-IsRest :
    (bytes : List ℕ) (addr result shift : ℕ)
    → IsRest (slice addr bytes) (i64_leb128_loop bytes addr result shift).1
unfolding i64_leb128_loop
i64_leb128_loop-IsRest [] addr result shift = IsRest-refl (slice addr [])
i64_leb128_loop-IsRest (b ∷ bs) addr result shift = elim (Bool-cases (bit_and b 0x80 == 0)) [
  | inl t ↦ rw (t, i64_leb128_loop) (IsRest-byte b bs addr)
  | inr t ↦
      rw (t, i64_leb128_loop)
        (IsRest-cons b bs addr _ (
          i64_leb128_loop-IsRest bs (addr + 1) (bit_or result (shl64 (bit_and b 0x7f) shift))
            (shift + 7)))
]

pub read_i64_leb128-Keeps : Keeps read_i64_leb128
unfolding read_i64_leb128
read_i64_leb128-Keeps s = i64_leb128_loop-IsRest s.bytes s.addr 0 0

-- what `read_slice` returns where there is enough, and that it fails where there is not
pub read_slice-append :
    (addr : ℕ) (front rest : List ℕ)
    → read_slice (length front) (slice addr (front ++ rest))
      ≡ (some (slice addr front), slice (addr + length front) rest)
unfolding read_slice
read_slice-append addr front rest = rw (
  le→ltb (length (front ++ rest)) (length front) (omega (arith, length-append {0} front rest)),
  take-append_length front rest,
  drop-append_length front rest,
  read_slice,
)

read_slice_short : (len : ℕ) (s : Slice) → length s.bytes < len → read_slice len s ≡ (none, s)
unfolding read_slice
read_slice_short len s h = ground arith

-- a number that is read takes a byte at least
abbrev pub Takes : {A : Type 0} → ℕ → Option A × Slice → Type 0
Takes n (none, t) = Unit {0}
Takes n (some a, t) = length t.bytes < n

u64_leb128_first-Takes :
    (bytes : List ℕ) (addr : ℕ) → Takes (length bytes) (u64_leb128_first bytes addr)
unfolding u64_leb128_first
u64_leb128_first-Takes [] addr = tt
u64_leb128_first-Takes (b ∷ bs) addr = elim (Bool-cases (bit_and b 0x80 == 0)) [
  | inl t ↦ rw (t, u64_leb128_first) (omega arith)
  | inr t ↦
      rw (t, u64_leb128_first)
        (shorter (u64_leb128_loop bs (addr + 1) (bit_and b 0x7f) 7) (
          IsRest-length (slice (addr + 1) bs) _
            (u64_leb128_loop-IsRest bs (addr + 1) (bit_and b 0x7f) 7)))
]
  where
    shorter : (r : Option ℕ × Slice) → length r.1.bytes ≤ length bs → Takes (suc (length bs)) r
    shorter (none, t) h = tt
    shorter (some a, t) h = omega arith

pub read_u64_leb128-Takes : (s : Slice) → Takes (length s.bytes) (read_u64_leb128 s)
unfolding read_u64_leb128
read_u64_leb128-Takes s = u64_leb128_first-Takes s.bytes s.addr
