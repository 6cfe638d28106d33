-- ===== src/Util/Bytes.antt =====
-- Helpers on byte strings of src/util.rs: splitting, trimming and hexadecimal numbers.
pub mod Split
pub mod Trim
pub mod Hex
use mathlib.Core.List.{reverse}
use blazesym.Common.{
  ℕ, zero, suc, ◌+◌, ◌*◌, ◌-◌, ◌/◌, ◌%◌, ◌^◌, Bool, true, false, ◌&&◌, ◌||◌, Option, none, some,
  List, [], ◌∷◌, ◌++◌, ltb, leb, ◌==◌, if◌then◌else◌, take, drop,
}
use mathlib.Core.Option

-- `Iterator::position`.
unfoldable pub position : (ℕ → Bool) → List ℕ → Option ℕ
position check [] = none
position check (b ∷ bs) = if check b then some 0 else Option.map suc (position check bs)

unfoldable pub split_bytes : List ℕ → (ℕ → Bool) → Option (List ℕ × List ℕ)
unfolding position
split_bytes bytes check = elim (position check bytes) [
  | none ↦ none
  | some idx ↦ let right = drop idx bytes in some (take idx bytes, drop 1 right)
]

pub split_once : List ℕ → (ℕ → Bool) → Option (List ℕ × List ℕ)
unfolding position
split_once bytes pred = elim (position pred bytes) [
  | none ↦ none
  | some index ↦ some (take index bytes, drop (index + 1) bytes)
]

-- `u8::is_ascii_whitespace`: space, tab, line feed, form feed and carriage return.
abbrev pub is_ascii_whitespace : ℕ → Bool
is_ascii_whitespace b = b == 0x20 || (b == 0x09 || (b == 0x0a || (b == 0x0c || b == 0x0d)))

pub trim_ascii_start : List ℕ → List ℕ
trim_ascii_start [] = []
trim_ascii_start (first ∷ rest) =
    if is_ascii_whitespace first then trim_ascii_start rest else first ∷ rest

-- The pattern `[rest @ .., last]` takes the slice from its end.
pub trim_ascii_end : List ℕ → List ℕ
unfolding trim_ascii_start
trim_ascii_end bytes = reverse (trim_ascii_start (reverse bytes))

pub trim_ascii : List ℕ → List ℕ
unfolding trim_ascii_start trim_ascii_end
trim_ascii bytes = trim_ascii_end (trim_ascii_start bytes)

unfoldable pub ascii_to_hexdigit : ℕ → Option ℕ
ascii_to_hexdigit c =
    if leb b'0' c && leb c b'9'
    then some (c - b'0')
    else if leb b'a' c && leb c b'f'
    then some (c - b'a' + 10)
    else if leb b'A' c && leb c b'F'
    then some (c - b'A' + 10)
    else none

-- `number *= 16; number += digit` on a `u64` that wraps.
abbrev pub push_hexdigit : ℕ → ℕ → ℕ
push_hexdigit number digit = (number * 16 % 2 ^ 64 + digit) % 2 ^ 64

pub from_radix_16_loop : (number : ℕ) → List ℕ → Option ℕ
from_radix_16_loop number [] = some number
from_radix_16_loop number (b ∷ bs) = elim (ascii_to_hexdigit b) [
  | none ↦ none
  | some digit ↦ from_radix_16_loop (push_hexdigit number digit) bs
]

unfoldable pub from_radix_16 : List ℕ → Option ℕ
unfolding from_radix_16_loop ascii_to_hexdigit
from_radix_16 text = from_radix_16_loop 0 text

-- `{:x}` of the standard library: lower-case digits with no leading zero. Sixteen rounds print
-- every 64-bit number.
abbrev pub to_hexdigit : ℕ → ℕ
to_hexdigit d = if ltb d 10 then b'0' + d else b'a' + d - 10

unfoldable pub to_hex_loop : (fuel n : ℕ) → List ℕ → List ℕ
to_hex_loop zero n out = out
to_hex_loop (suc fuel) n out =
    let rest = to_hex_loop fuel (n / 16) (to_hexdigit (n % 16) ∷ out) in
    if ltb n 16 then to_hexdigit n ∷ out else rest

unfoldable pub to_hex : ℕ → List ℕ
unfolding to_hex_loop
to_hex n = to_hex_loop 16 n []
