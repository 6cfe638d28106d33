-- ===== src/Util/Leb128/Signed.antt =====
-- `read_i64_leb128`: the round trip with the signed LEB128 encoding.
use blazesym.Common.{
  ℕ, zero, suc, ◌+◌, ◌-◌, ◌*◌, ◌/◌, ◌%◌, ◌^◌, ◌≤◌, ◌<◌, ◌≡◌, refl, ap, ◌∙◌, true, false, ◌&&◌, not,
  Option, some, List, [], ◌∷◌, ◌++◌, arith, ltb, ◌==◌, if◌then◌else◌, length, bit_and, Bool-cases,
  inl, inr, ltb→lt, leb, leb→le, ==_iff,
}
use blazesym.Common.Bits.{
  bit_or-shifted, bit_and_low_seven, bit_and_top, bit_and_sign, all_below, all_below_sound,
}
use blazesym.Util.Slice.{Slice, slice}
use blazesym.Util.Leb128.{shl64, sign_extend, i64_leb128_loop, read_i64_leb128}
use blazesym.Util.Leb128.Unsigned.{join_group, shift_seven, split_group, group_bound}

-- An integer that fits an `i64`: `negsuc n` is -(n + 1).
pub data ℤ : Type 0 where
  pos : ℕ → ℤ
  negsuc : ℕ → ℤ

abbrev pub IsI64 : ℤ → Type 0
IsI64 (pos n) = n < 2 ^ 63
IsI64 (negsuc n) = n < 2 ^ 63

-- the bit pattern of an `i64`
abbrev pub to_i64 : ℤ → ℕ
to_i64 (pos n) = n
to_i64 (negsuc n) = 2 ^ 64 - 1 - n

-- The groups of a number that is not negative: the last one leaves bit 6, the sign, clear.
pub sleb128_pos : (k n : ℕ) → List ℕ
sleb128_pos zero n = n ∷ []
sleb128_pos (suc k) n =
    let rest = sleb128_pos k (n / 128) in if ltb n 64 then n ∷ [] else (128 + n % 128) ∷ rest

-- Those of -(n + 1), whose bits are the complements of those of `n`.
unfoldable pub sleb128_negsuc : (k n : ℕ) → List ℕ
sleb128_negsuc zero n = (127 - n) ∷ []
sleb128_negsuc (suc k) n =
    let rest = sleb128_negsuc k (n / 128) in
    if ltb n 64 then (127 - n) ∷ [] else (255 - n % 128) ∷ rest

abbrev pub sleb128 : (k : ℕ) → ℤ → List ℕ
sleb128 k (pos n) = sleb128_pos k n
sleb128 k (negsuc n) = sleb128_negsuc k n

-- one byte of the loop that asks for another
inner_byte :
    (byte g addr result shift : ℕ) (rest : List ℕ)
    → byte < 256
    → 128 ≤ byte
    → byte % 128 ≡ g
    → shift < 64
    → result < 2 ^ shift
    → g * 2 ^ shift < 2 ^ 64
    → i64_leb128_loop (byte ∷ rest) addr result shift
      ≡ i64_leb128_loop rest (addr + 1) (result + g * 2 ^ shift) (shift + 7)
unfolding i64_leb128_loop
inner_byte byte g addr result shift rest hb top e hs small fits =
    rw (more, group, join_group result g shift hs small fits)
  where
    more : (bit_and byte 0x80 == 0) ≡ false
    more = ground (arith, bit_and_top byte)

    group : bit_and byte 0x7f ≡ g
    group = omega (arith, bit_and_low_seven byte)

-- the last byte
last_byte :
    (byte addr result shift : ℕ) (rest : List ℕ)
    → byte < 128
    → shift < 64
    → result < 2 ^ shift
    → byte * 2 ^ shift < 2 ^ 64
    → i64_leb128_loop (byte ∷ rest) addr result shift
      ≡ (some (sign_extend (result + byte * 2 ^ shift) (shift + 7) byte), slice (addr + 1) rest)
unfolding i64_leb128_loop
last_byte byte addr result shift rest hb hs small fits =
    rw (clear, group, join_group result byte shift hs small fits)
  where
    clear : (bit_and byte 0x80 == 0) ≡ true
    clear = ground (arith, bit_and_top byte)

    group : bit_and byte 0x7f ≡ byte
    group = omega (arith, bit_and_low_seven byte)

sign_extend_clear : (result shift byte : ℕ) → byte < 64 → sign_extend result shift byte ≡ result
unfolding sign_extend
sign_extend_clear result shift byte h = ground (arith, bit_and_sign byte)

sign_extend_past : (result shift byte : ℕ) → 64 ≤ shift → sign_extend result shift byte ≡ result
unfolding sign_extend
sign_extend_past result shift byte h = ground arith

-- all bits from `shift` on are set
ones_table : all_below 64 (λ s. shl64 (2 ^ 64 - 1) s == (2 ^ (64 - s) - 1) * 2 ^ s) ≡ true
unfolding shl64 all_below
ones_table = refl

ones_value_table : all_below 64 (λ s. (2 ^ (64 - s) - 1) * 2 ^ s + 2 ^ s == 2 ^ 64) ≡ true
unfolding all_below
ones_value_table = refl

ones_above : (s : ℕ) → s < 64 → shl64 (2 ^ 64 - 1) s ≡ (2 ^ (64 - s) - 1) * 2 ^ s
ones_above s h = (==_iff _ _).0 (all_below_sound 64 _ s h ones_table)

ones_value : (s : ℕ) → s < 64 → (2 ^ (64 - s) - 1) * 2 ^ s + 2 ^ s ≡ 2 ^ 64
ones_value s h = (==_iff _ _).0 (all_below_sound 64 _ s h ones_value_table)

sign_extend_set :
    (result shift byte : ℕ)
    → 64 ≤ byte
    → byte < 128
    → shift < 64
    → result < 2 ^ shift
    → sign_extend result shift byte ≡ result + (2 ^ 64 - 2 ^ shift)
unfolding sign_extend
sign_extend_set result shift byte lo hi h small =
    rw (tested, ones_above shift h)
      (bit_or-shifted shift result (2 ^ (64 - shift) - 1) small ∙ omega (arith, ones_value shift h))
  where
    tested : (ltb shift 64 && not (bit_and byte 0x40 == 0)) ≡ true
    tested = ground (arith, bit_and_sign byte)

-- up to bit 56 a whole group fits
room_table : all_below 57 (λ s. leb (128 * 2 ^ s) (2 ^ 63)) ≡ true
unfolding all_below
room_table = refl

room : (s : ℕ) → s ≤ 56 → 128 * 2 ^ s ≤ 2 ^ 63
room s h = leb→le _ _ (all_below_sound 57 _ s (omega arith) room_table)

group_fits : (g s : ℕ) → g < 128 → s ≤ 56 → g * 2 ^ s < 2 ^ 64
group_fits g s hg h = grind (arith, room s h)

last_group : (n shift : ℕ) → shift + 7 * 0 ≡ 63 → n * 2 ^ shift < 2 ^ 64 → n < 128
last_group n shift hs fits =
    let e : shift ≡ 63 = omega arith in omega (arith, ap (λ (s : ℕ). n * 2 ^ s) e)

i64_leb128_loop-pos :
    (k n addr result shift : ℕ) (rest : List ℕ)
    → shift + 7 * k ≡ 63
    → result < 2 ^ shift
    → result + n * 2 ^ shift < 2 ^ 63
    → i64_leb128_loop (sleb128_pos k n ++ rest) addr result shift
      ≡ (some (result + n * 2 ^ shift), slice (addr + length (sleb128_pos k n)) rest)
unfolding sleb128_pos
i64_leb128_loop-pos zero n addr result shift rest hs small fits =
    last_byte n addr result shift rest (last_group n shift hs (omega arith)) (omega arith) small
      (omega arith)
    ∙ ground (arith, sign_extend_past (result + n * 2 ^ shift) (shift + 7) n)
i64_leb128_loop-pos (suc k) n addr result shift rest hs small fits = elim (Bool-cases (ltb n 64)) [
  | inl t ↦
      let low : n < 64 = ltb→lt n 64 t in
      rw t (
        last_byte n addr result shift rest (omega arith) (omega arith) small (omega arith)
        ∙ ground (arith, sign_extend_clear (result + n * 2 ^ shift) (shift + 7) n low))
  | inr t ↦ rw t (
      inner_byte (128 + n % 128) (n % 128) addr result shift (sleb128_pos k (n / 128) ++ rest)
        (omega arith) (omega arith) (omega arith) (omega arith) small
        (omega (arith, split_group n shift))
      ∙ i64_leb128_loop-pos k (n / 128) (addr + 1) (result + n % 128 * 2 ^ shift) (shift + 7) rest
          (omega arith) (group_bound result (n % 128) shift small (omega arith))
          (omega (arith, split_group n shift))
      ∙ ground (arith, split_group n shift))
]

last_byte_63 :
    (addr result : ℕ) (rest : List ℕ)
    → result < 2 ^ 63
    → i64_leb128_loop (127 ∷ rest) addr result 63 ≡ (some (result + 2 ^ 63), slice (addr + 1) rest)
unfolding i64_leb128_loop sign_extend shl64
last_byte_63 addr result rest small =
    ap (λ (r : ℕ). let p : Option ℕ × Slice = (some r, slice (addr + 1) rest) in p)
      (bit_or-shifted 63 result 1 small)

-- ten groups: only the lowest bit of the last one is left
last_negsuc :
    (addr result : ℕ) (rest : List ℕ)
    → result < 2 ^ 63
    → i64_leb128_loop ((127 - 0) ∷ rest) addr result 63
      ≡ (some (result + 2 ^ 64 - (0 + 1) * 2 ^ 63), slice (addr + 1) rest)
last_negsuc addr result rest small = last_byte_63 addr result rest small ∙ ground arith

complement : (a n s : ℕ) → a + n ≡ 127 → a * 2 ^ s + n * 2 ^ s ≡ 127 * 2 ^ s
complement a n s e = omega (arith, ap (λ (t : ℕ). t * 2 ^ s) e)

-- what is still to come, -(n + 1) moved up by `shift` bits, joins as a two's complement
i64_leb128_loop-negsuc :
    (k n addr result shift : ℕ) (rest : List ℕ)
    → shift + 7 * k ≡ 63
    → result < 2 ^ shift
    → (n + 1) * 2 ^ shift ≤ result + 2 ^ 63
    → i64_leb128_loop (sleb128_negsuc k n ++ rest) addr result shift ≡ (
      some (result + 2 ^ 64 - (n + 1) * 2 ^ shift),
      slice (addr + length (sleb128_negsuc k n)) rest,
    )
unfolding sleb128_negsuc
i64_leb128_loop-negsuc zero n addr result shift rest hs small fits =
    let e : shift ≡ 63 = omega arith in
    let n0 : n ≡ 0 = omega (arith, ap (λ (s : ℕ). (n + 1) * 2 ^ s) e, ap (λ (s : ℕ). 2 ^ s) e) in
    rw (n0, e) (last_negsuc addr result rest (rw e at small))
i64_leb128_loop-negsuc (suc k) n addr result shift rest hs small fits =
    elim (Bool-cases (ltb n 64)) [
      | inl t ↦
          let low : n < 64 = ltb→lt n 64 t in
          rw t (
            last_byte (127 - n) addr result shift rest (omega arith) (omega arith) small
              (group_fits (127 - n) shift (omega arith) (omega arith))
            ∙ ground (
              arith,
              sign_extend_set (result + (127 - n) * 2 ^ shift) (shift + 7) (127 - n),
              group_bound result (127 - n) shift small,
              complement (127 - n) n shift,
              shift_seven shift,
              room shift,
            ))
      | inr t ↦ rw t (
          inner_byte (255 - n % 128) (127 - n % 128) addr result shift
            (sleb128_negsuc k (n / 128) ++ rest) (omega arith) (omega arith) (omega arith)
            (omega arith) small (group_fits (127 - n % 128) shift (omega arith) (omega arith))
          ∙ i64_leb128_loop-negsuc k (n / 128) (addr + 1) (result + (127 - n % 128) * 2 ^ shift)
              (shift + 7) rest (omega arith)
              (group_bound result (127 - n % 128) shift small (omega arith))
              (omega (
                arith,
                split_group n shift,
                complement (127 - n % 128) (n % 128) shift (omega arith),
                shift_seven shift,
              ))
          ∙ ground (
            arith,
            split_group n shift,
            complement (127 - n % 128) (n % 128) shift (omega arith),
            shift_seven shift,
          ))
    ]

-- `read_i64_leb128` reads every 64-bit integer back from its shortest signed LEB128 encoding as its
-- two's complement bit pattern, and leaves the rest of the slice behind the encoding.
pub read_i64_leb128-sleb128 :
    (z : ℤ) (addr : ℕ) (rest : List ℕ)
    → IsI64 z
    → read_i64_leb128 (slice addr (sleb128 9 z ++ rest))
      ≡ (some (to_i64 z), slice (addr + length (sleb128 9 z)) rest)
unfolding read_i64_leb128
read_i64_leb128-sleb128 (pos n) addr rest h =
    i64_leb128_loop-pos 9 n addr 0 0 rest refl (omega arith) (omega arith) ∙ ground arith
read_i64_leb128-sleb128 (negsuc n) addr rest h =
    i64_leb128_loop-negsuc 9 n addr 0 0 rest refl (omega arith) (omega arith) ∙ ground arith
