-- ===== src/Util/Leb128/Unsigned.antt =====
-- `read_u64_leb128`: the round trip with the LEB128 encoding, and what it does on any input.
use native.Mathlib.Nat.{pow-suc, div-add-mod, mod-eq_of_lt}
use native.Mathlib.Numerals.{towards_suc}
use blazesym.Common.{
  ℕ, zero, suc, ◌+◌, ◌*◌, ◌/◌, ◌%◌, ◌^◌, ◌<◌, ◌≡◌, refl, ap, ◌∙◌, true, false, none, some, List, [],
  ◌∷◌, ◌++◌, arith, ltb, ◌==◌, if◌then◌else◌, length, All, bit_and, bit_or, Bool-cases, inl, inr,
  ltb→lt,
}
use blazesym.Common.Bits.{bit_or-shifted, bit_and_low_seven, bit_and_top}
use blazesym.Util.Slice.{slice}
use blazesym.Util.Leb128.{shl64, u64_leb128_loop, u64_leb128_first, read_u64_leb128}

-- The encoding of a number below 128 ^ (k + 1): groups of seven bits, the lowest first, with the
-- top bit set on all but the last.
unfoldable pub uleb128 : (k v : ℕ) → List ℕ
uleb128 zero v = v ∷ []
uleb128 (suc k) v =
    let rest = uleb128 k (v / 128) in if ltb v 128 then v ∷ [] else (128 + v % 128) ∷ rest

shl64_exact : (x shift : ℕ) → shift < 64 → x * 2 ^ shift < 2 ^ 64 → shl64 x shift ≡ x * 2 ^ shift
unfolding shl64
shl64_exact x shift h fits = ap (λ (s : ℕ). x * 2 ^ s % 2 ^ 64) (mod-eq_of_lt h) ∙ mod-eq_of_lt fits

-- one group joins the bits that are read
pub join_group :
    (result x shift : ℕ)
    → shift < 64
    → result < 2 ^ shift
    → x * 2 ^ shift < 2 ^ 64
    → bit_or result (shl64 x shift) ≡ result + x * 2 ^ shift
join_group result x shift h small fits =
    rw (shl64_exact x shift h fits) (bit_or-shifted shift result x small)

pub shift_seven : (s : ℕ) → 2 ^ (s + 7) ≡ 128 * 2 ^ s
shift_seven s = simp towards_suc (omega arith)

-- the lowest group of `v` and the rest, both moved up by `s` bits
pub split_group : (v s : ℕ) → v * 2 ^ s ≡ v % 128 * 2 ^ s + v / 128 * 2 ^ (s + 7)
split_group v s = omega (
  arith,
  ap (λ (t : ℕ). t * 2 ^ s) (div-add-mod v 128),
  ap (λ (t : ℕ). v / 128 * t) (shift_seven s),
)

-- a group below 128 leaves room for the next
pub group_bound : (result g s : ℕ) → result < 2 ^ s → g < 128 → result + g * 2 ^ s < 2 ^ (s + 7)
group_bound result g s h hg = grind (arith, shift_seven s)

last_byte :
    (v addr result shift : ℕ) (rest : List ℕ)
    → v < 128
    → shift < 64
    → result < 2 ^ shift
    → result + v * 2 ^ shift < 2 ^ 64
    → u64_leb128_loop (v ∷ rest) addr result shift
      ≡ (some (result + v * 2 ^ shift), slice (addr + 1) rest)
unfolding u64_leb128_loop
last_byte v addr result shift rest hv hs small fits =
    rw (clear, join_group result v shift hs small (omega arith))
  where
    clear : (bit_and v 0x80 == 0) ≡ true
    clear = ground (arith, bit_and_top v)

inner_byte :
    (g addr result shift : ℕ) (rest : List ℕ)
    → g < 128
    → shift < 64
    → result < 2 ^ shift
    → result + g * 2 ^ shift < 2 ^ 64
    → u64_leb128_loop ((128 + g) ∷ rest) addr result shift
      ≡ u64_leb128_loop rest (addr + 1) (result + g * 2 ^ shift) (shift + 7)
unfolding u64_leb128_loop
inner_byte g addr result shift rest hg hs small fits =
    rw (more, group, join_group result g shift hs small (omega arith))
  where
    more : (bit_and (128 + g) 0x80 == 0) ≡ false
    more = ground (arith, bit_and_top (128 + g))

    group : bit_and (128 + g) 0x7f ≡ g
    group = omega (arith, bit_and_low_seven (128 + g))

-- `k` more groups may follow; the bits of `v` count from bit `shift` on
u64_leb128_loop-uleb128 :
    (k v addr result shift : ℕ) (rest : List ℕ)
    → shift + 7 * k ≡ 63
    → v < 128 ^ suc k
    → result < 2 ^ shift
    → result + v * 2 ^ shift < 2 ^ 64
    → u64_leb128_loop (uleb128 k v ++ rest) addr result shift
      ≡ (some (result + v * 2 ^ shift), slice (addr + length (uleb128 k v)) rest)
unfolding uleb128
u64_leb128_loop-uleb128 zero v addr result shift rest hs hv small fits =
    last_byte v addr result shift rest (omega arith) (omega arith) small fits
u64_leb128_loop-uleb128 (suc k) v addr result shift rest hs hv small fits =
    elim (Bool-cases (ltb v 128)) [
      | inl t ↦ rw t (last_byte v addr result shift rest (ltb→lt v 128 t) (omega arith) small fits)
      | inr t ↦ rw t (
          inner_byte (v % 128) addr result shift (uleb128 k (v / 128) ++ rest) (omega arith)
            (omega arith) small (omega (arith, split_group v shift))
          ∙ u64_leb128_loop-uleb128 k (v / 128) (addr + 1) (result + v % 128 * 2 ^ shift)
              (shift + 7) rest (omega arith) (omega (arith, pow-suc 128 (suc k)))
              (group_bound result (v % 128) shift small (omega arith))
              (omega (arith, split_group v shift))
          ∙ ground (arith, split_group v shift))
    ]

top_clear : (v : ℕ) → v < 128 → (bit_and v 0x80 == 0) ≡ true
top_clear v h = ground (arith, bit_and_top v)

first_inner :
    (g addr : ℕ) (rest : List ℕ)
    → g < 128
    → u64_leb128_first ((128 + g) ∷ rest) addr ≡ u64_leb128_loop rest (addr + 1) g 7
unfolding u64_leb128_first
first_inner g addr rest h = ground (arith, bit_and_top (128 + g), bit_and_low_seven (128 + g))

-- `read_u64_leb128` reads every number below 2^64 back from its shortest LEB128 encoding, and
-- leaves the rest of the slice behind the encoding.
pub read_u64_leb128-uleb128 :
    (v addr : ℕ) (rest : List ℕ)
    → v < 2 ^ 64
    → read_u64_leb128 (slice addr (uleb128 9 v ++ rest))
      ≡ (some v, slice (addr + length (uleb128 9 v)) rest)
unfolding read_u64_leb128 uleb128
read_u64_leb128-uleb128 v addr rest h = elim (Bool-cases (ltb v 128)) [
  | inl t ↦ rw (t, u64_leb128_first, top_clear v (ltb→lt v 128 t)) refl
  | inr t ↦ rw t (
      first_inner (v % 128) addr (uleb128 8 (v / 128) ++ rest) (omega arith)
      ∙ u64_leb128_loop-uleb128 8 (v / 128) (addr + 1) (v % 128) 7 rest refl (omega arith)
          (omega arith) (omega arith)
      ∙ ground arith)
]

-- a byte with the top bit set asks for another
abbrev pub IsContinued : ℕ → Type 0
IsContinued byte = (bit_and byte 0x80 == 0) ≡ false

u64_leb128_loop-none :
    (bytes : List ℕ) (addr result shift : ℕ)
    → All IsContinued bytes
    → (u64_leb128_loop bytes addr result shift).0 ≡ none
unfolding u64_leb128_loop
u64_leb128_loop-none [] addr result shift h = refl
u64_leb128_loop-none (b ∷ bs) addr result shift (hb, h) =
    rw (hb, u64_leb128_loop) (u64_leb128_loop-none bs (addr + 1) _ (shift + 7) h)

-- the bytes in front of the first that is not continued, with it, are what is read
u64_leb128_loop-some :
    (front : List ℕ) (last : ℕ) (rest : List ℕ) (addr result shift : ℕ)
    → All IsContinued front
    → (bit_and last 0x80 == 0) ≡ true
    → (v : ℕ) × (u64_leb128_loop (front ++ (last ∷ rest)) addr result shift
        ≡ (some v, slice (addr + length front + 1) rest))
unfolding u64_leb128_loop
u64_leb128_loop-some [] last rest addr result shift h t =
    (bit_or result (shl64 last shift), rw t (ground arith))
u64_leb128_loop-some (b ∷ bs) last rest addr result shift (hb, h) t =
    let result' : ℕ = bit_or result (shl64 (bit_and b 0x7f) shift) in
    let (v, e) = u64_leb128_loop-some bs last rest (addr + 1) result' (shift + 7) h t in
    (v, rw (hb, u64_leb128_loop) (e ∙ ground arith))

-- `read_u64_leb128` takes any number of bytes with the continuation bit and one byte without it,
-- and answers some value; the rest is left as it is. No length is refused.
read_u64_leb128_takes :
    (front : List ℕ) (last : ℕ) (rest : List ℕ) (addr : ℕ)
    → All IsContinued front
    → (bit_and last 0x80 == 0) ≡ true
    → (v : ℕ) × (read_u64_leb128 (slice addr (front ++ (last ∷ rest)))
        ≡ (some v, slice (addr + length front + 1) rest))
unfolding read_u64_leb128 u64_leb128_first
read_u64_leb128_takes [] last rest addr h t = (last, rw t (ground arith))
read_u64_leb128_takes (b ∷ bs) last rest addr (hb, h) t =
    let (v, e) = u64_leb128_loop-some bs last rest (addr + 1) (bit_and b 0x7f) 7 h t in
    (v, rw hb (e ∙ ground arith))

-- `read_u64_leb128` fails where all bytes that are left have the continuation bit.
read_u64_leb128-none :
    (bytes : List ℕ) (addr : ℕ)
    → All IsContinued bytes
    → (read_u64_leb128 (slice addr bytes)).0 ≡ none
unfolding read_u64_leb128 u64_leb128_first
read_u64_leb128-none [] addr h = refl
read_u64_leb128-none (b ∷ bs) addr (hb, h) =
    rw (hb, u64_leb128_first) (u64_leb128_loop-none bs (addr + 1) (bit_and b 0x7f) 7 h)
