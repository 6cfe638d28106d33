-- ===== src/Examples/Numbers.antt =====
-- LEB128 numbers and hexadecimal numbers at concrete inputs.
use blazesym.Common.{◌≡◌, some, [], ◌∷◌, arith}
use blazesym.Util.Slice.{slice}
use blazesym.Util.Leb128.{read_u64_leb128, read_i64_leb128}
use blazesym.Util.Leb128.Unsigned.{uleb128, read_u64_leb128-uleb128}
use blazesym.Util.Leb128.Signed.{negsuc, sleb128_negsuc, read_i64_leb128-sleb128}
use blazesym.Util.Bytes.{from_radix_16}
use blazesym.Util.Bytes.Hex.{hex_value, from_radix_16-value}

read_u64_leb128-uleb128_example :
    read_u64_leb128 (slice 0 (0xe5 ∷ 0x8e ∷ 0x26 ∷ 7 ∷ [])) ≡ (some 624485, slice 3 (7 ∷ []))
unfolding uleb128
read_u64_leb128-uleb128_example = read_u64_leb128-uleb128 624485 0 (7 ∷ []) (omega arith)

read_i64_leb128-sleb128_example :
    read_i64_leb128 (slice 0 (0x80 ∷ 0x7f ∷ 7 ∷ [])) ≡ (some (0xffffffffffffff80), slice 2 (7 ∷ []))
unfolding sleb128_negsuc
read_i64_leb128-sleb128_example = read_i64_leb128-sleb128 (negsuc 127) 0 (7 ∷ []) (omega arith)

from_radix_16-value_example : from_radix_16 (b'1' ∷ b'F' ∷ []) ≡ some 31
unfolding hex_value
from_radix_16-value_example = from_radix_16-value (b'1' ∷ b'F' ∷ [])
