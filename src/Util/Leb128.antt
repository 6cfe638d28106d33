-- ===== src/Util/Leb128.antt =====
-- `read_u64_leb128` and `read_i64_leb128` of src/util.rs. An `i64` is its bit pattern, a number
-- below 2 ^ 64. Overflow checks are off in the release profile, so `<<` takes its distance modulo 64.
pub mod Unsigned
pub mod Signed
use blazesym.Common.{
  ℕ, zero, suc, ◌+◌, ◌-◌, ◌*◌, ◌%◌, ◌^◌, Bool, true, false, ◌&&◌, not, Option, none, some, List, [],
  ◌∷◌, ltb, ◌==◌, if◌then◌else◌, bit_and, bit_or,
}
use blazesym.Util.Slice.{Slice, slice, Read, ◌>>=◌, pure, read_array}

pub shl64 : ℕ → ℕ → ℕ
shl64 x shift = x * 2 ^ (shift % 64) % 2 ^ 64

-- The loop reads one byte a round by `read_array::<1>`.
unfoldable pub u64_leb128_loop : List ℕ → (addr result shift : ℕ) → Option ℕ × Slice
unfolding shl64
u64_leb128_loop [] addr result shift = (none, slice addr [])
u64_leb128_loop (byte ∷ bs) addr result shift =
    if bit_and byte 0x80 == 0
    then (some (bit_or result (shl64 byte shift)), slice (addr + 1) bs)
    else u64_leb128_loop bs (addr + 1) (bit_or result (shl64 (bit_and byte 0x7f) shift)) (shift + 7)

-- The first byte, which the source reads in front of the loop.
unfoldable pub u64_leb128_first : List ℕ → (addr : ℕ) → Option ℕ × Slice
unfolding u64_leb128_loop
u64_leb128_first [] addr = (none, slice addr [])
u64_leb128_first (byte ∷ bs) addr =
    if bit_and byte 0x80 == 0
    then (some byte, slice (addr + 1) bs)
    else u64_leb128_loop bs (addr + 1) (bit_and byte 0x7f) 7

unfoldable pub read_u64_leb128 : Read ℕ
unfolding u64_leb128_first
read_u64_leb128 s = u64_leb128_first s.bytes s.addr

-- Behind the loop: `shift` bits are read, and bit 6 of the last byte is the sign.
pub sign_extend : (result shift byte : ℕ) → ℕ
unfolding shl64
sign_extend result shift byte =
    if ltb shift 64 && not (bit_and byte 0x40 == 0)
    then bit_or result (shl64 (2 ^ 64 - 1) shift)
    else result

unfoldable pub i64_leb128_loop : List ℕ → (addr result shift : ℕ) → Option ℕ × Slice
unfolding shl64 sign_extend
i64_leb128_loop [] addr result shift = (none, slice addr [])
i64_leb128_loop (byte ∷ bs) addr result shift =
    let result' = bit_or result (shl64 (bit_and byte 0x7f) shift) in
    if bit_and byte 0x80 == 0
    then (some (sign_extend result' (shift + 7) byte), slice (addr + 1) bs)
    else i64_leb128_loop bs (addr + 1) result' (shift + 7)

unfoldable pub read_i64_leb128 : Read ℕ
unfolding i64_leb128_loop
read_i64_leb128 s = i64_leb128_loop s.bytes s.addr 0 0
