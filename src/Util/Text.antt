-- ===== src/Util/Text.antt =====
-- What the parsers of text files use of the standard library: lines, tokens and numbers.
use blazesym.Common.{
  ℕ, zero, suc, ◌+◌, ◌*◌, ◌/◌, ◌%◌, ◌^◌, Bool, true, false, Option, none, some, List, [], ◌∷◌, ltb,
  ◌==◌, if◌then◌else◌,
}
use blazesym.Util.Bytes.{ascii_to_hexdigit, is_ascii_whitespace}

-- `slice.split(sep)`: the pieces between the bytes that pass the test; one more than those bytes.
cons_head : ℕ → List (List ℕ) → List (List ℕ)
cons_head b [] = (b ∷ []) ∷ []
cons_head b (piece ∷ pieces) = (b ∷ piece) ∷ pieces

unfoldable pub split : (sep : ℕ → Bool) → List ℕ → List (List ℕ)
unfolding cons_head
split sep [] = [] ∷ []
split sep (b ∷ bs) = let rest = split sep bs in if sep b then [] ∷ rest else cons_head b rest

abbrev pub is_nil : List ℕ → Bool
is_nil [] = true
is_nil (b ∷ bs) = false

abbrev pub keep_filled : List (List ℕ) → List (List ℕ)
keep_filled [] = []
keep_filled (piece ∷ pieces) =
    if is_nil piece then keep_filled pieces else piece ∷ keep_filled pieces

-- `str::split_ascii_whitespace`.
unfoldable pub split_ascii_whitespace : List ℕ → List (List ℕ)
unfolding split
split_ascii_whitespace text = keep_filled (split is_ascii_whitespace text)

-- The lines that `read_until(b'\n')` and `read_line` return: each ends with its line feed, but for
-- a last one that has none.
unfoldable pub lines : List ℕ → List (List ℕ)
unfolding cons_head
lines [] = []
lines (b ∷ bs) = let rest = lines bs in if b == 0x0a then (b ∷ []) ∷ rest else cons_head b rest

-- The digits of `u64::from_str_radix(_, 16)`: `none` at a byte that is no digit and at a number
-- that does not fit 64 bits.
radix_16_digits : (number : ℕ) → List ℕ → Option ℕ
unfolding ascii_to_hexdigit
radix_16_digits number [] = some number
radix_16_digits number (b ∷ bs) = elim (ascii_to_hexdigit b) [
  | none ↦ none
  | some digit ↦
      let number' = number * 16 + digit in
      let rest = radix_16_digits number' bs in if ltb number' (2 ^ 64) then rest else none
]

-- One `+` may stand in front; there must be a digit.
unfoldable pub from_str_radix_16 : List ℕ → Option ℕ
unfolding radix_16_digits
from_str_radix_16 [] = none
from_str_radix_16 (b ∷ bs) =
    if b == b'+'
    then if is_nil bs then none else radix_16_digits 0 bs
    else radix_16_digits 0 (b ∷ bs)

-- `{}` of an unsigned number: twenty rounds print every 64-bit number.
to_decimal_loop : (fuel n : ℕ) → List ℕ → List ℕ
to_decimal_loop zero n out = out
to_decimal_loop (suc fuel) n out =
    let rest = to_decimal_loop fuel (n / 10) ((b'0' + n % 10) ∷ out) in
    if ltb n 10 then (b'0' + n) ∷ out else rest

unfoldable pub to_decimal : ℕ → List ℕ
unfolding to_decimal_loop
to_decimal n = to_decimal_loop 20 n []
