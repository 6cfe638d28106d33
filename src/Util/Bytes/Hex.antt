-- ===== src/Util/Bytes/Hex.antt =====
-- `from_radix_16`: its value on every text, and the round trip with `{:x}`.
use blazesym.Common.{
  ℕ, zero, suc, ◌+◌, ◌-◌, ◌++◌, ◌*◌, ◌/◌, ◌%◌, ◌^◌, ◌<◌, ◌≡◌, refl, ap, sym, ◌∙◌, length, Option,
  none, some, List, [], ◌∷◌, arith, ltb, ◌==◌, if◌then◌else◌, Bool-cases, Option-cases, inl, inr,
  ltb→lt, lt→ltb,
}
use blazesym.Util.Bytes.{
  ascii_to_hexdigit, push_hexdigit, from_radix_16_loop, from_radix_16, to_hexdigit, to_hex_loop,
  to_hex,
}
use mathlib.Core.Option
use native.Mathlib.Nat.{pow-suc, add-mul, mul_assoc, mul_comm, add_assoc, zero-mul}

-- The digits, the letters in both cases.
abbrev hexdigits : List (ℕ × ℕ)
hexdigits =
    (b'0', 0)
    ∷ (b'1', 1)
    ∷ (b'2', 2)
    ∷ (b'3', 3)
    ∷ (b'4', 4)
    ∷ (b'5', 5)
    ∷ (b'6', 6)
    ∷ (b'7', 7)
    ∷ (b'8', 8)
    ∷ (b'9', 9)
    ∷ (b'a', 10)
    ∷ (b'b', 11)
    ∷ (b'c', 12)
    ∷ (b'd', 13)
    ∷ (b'e', 14)
    ∷ (b'f', 15)
    ∷ (b'A', 10)
    ∷ (b'B', 11)
    ∷ (b'C', 12)
    ∷ (b'D', 13)
    ∷ (b'E', 14)
    ∷ (b'F', 15)
    ∷ []

abbrev digit_in : List (ℕ × ℕ) → ℕ → Option ℕ
digit_in [] b = none
digit_in ((c, d) ∷ table) b = if b == c then some d else digit_in table b

ascii_to_hexdigit-digit_in : (b : ℕ) → ascii_to_hexdigit b ≡ digit_in hexdigits b
unfolding ascii_to_hexdigit
ascii_to_hexdigit-digit_in b = ground arith

-- The value of a text of digits as a number without bound: a digit counts as often as the power of
-- sixteen of its place says.
unfoldable pub hex_value : List ℕ → Option ℕ
hex_value [] = some 0
hex_value (b ∷ bs) = elim (digit_in hexdigits b) [
  | none ↦ none
  | some d ↦ Option.map (λ v. d * 16 ^ length bs + v) (hex_value bs)
]

-- the value of `number` followed by the digits of a text
hex_value_from : (number : ℕ) → List ℕ → Option ℕ
hex_value_from number [] = some number
hex_value_from number (b ∷ bs) = elim (ascii_to_hexdigit b) [
  | none ↦ none
  | some digit ↦ hex_value_from (number * 16 + digit) bs
]

shifted : (n d p v : ℕ) → (n * 16 + d) * p + v ≡ n * (p * 16) + (d * p + v)
shifted n d p v =
    rw (add-mul (n * 16) d p, mul_assoc n 16 p, mul_comm 16 p) (add_assoc (n * (p * 16)) (d * p) v)

hex_value_from-hex_value :
    (text : List ℕ) (n : ℕ)
    → hex_value_from n text ≡ Option.map (λ v. n * 16 ^ length text + v) (hex_value text)
unfolding hex_value hex_value_from
hex_value_from-hex_value [] n = ap some (omega arith)
hex_value_from-hex_value (b ∷ bs) n = elim (Option-cases (ascii_to_hexdigit b)) [
  | inl e ↦ rw (e, sym (ascii_to_hexdigit-digit_in b) ∙ e, hex_value, hex_value_from)
  | inr (d, e) ↦
      rw
        (
          e,
          sym (ascii_to_hexdigit-digit_in b) ∙ e,
          hex_value,
          hex_value_from,
          hex_value_from-hex_value bs (n * 16 + d),
          pow-suc 16 (length bs),
        )
        (elim (Option-cases (hex_value bs)) [
          | inl f ↦ rw f refl
          | inr (v, f) ↦ rw f (ap some (shifted n d (16 ^ length bs) v))
        ])
]

push_hexdigit-mod : (n d : ℕ) → push_hexdigit (n % 2 ^ 64) d ≡ (n * 16 + d) % 2 ^ 64
push_hexdigit-mod n d = omega arith

from_radix_16_loop-mod :
    (text : List ℕ) (n : ℕ)
    → from_radix_16_loop (n % 2 ^ 64) text ≡ Option.map (λ v. v % 2 ^ 64) (hex_value_from n text)
unfolding from_radix_16_loop hex_value_from
from_radix_16_loop-mod [] n = refl
from_radix_16_loop-mod (b ∷ bs) n = elim (Option-cases (ascii_to_hexdigit b)) [
  | inl e ↦ rw (e, from_radix_16_loop, hex_value_from)
  | inr (d, e) ↦
      rw (e, from_radix_16_loop, hex_value_from, push_hexdigit-mod n d)
        (from_radix_16_loop-mod bs (n * 16 + d))
]

from_radix_16-hex_value_from :
    (text : List ℕ) → from_radix_16 text ≡ Option.map (λ v. v % 2 ^ 64) (hex_value_from 0 text)
unfolding from_radix_16
from_radix_16-hex_value_from text = from_radix_16_loop-mod text 0

hex_value_from_zero : (text : List ℕ) → hex_value_from 0 text ≡ hex_value text
hex_value_from_zero text = hex_value_from-hex_value text 0 ∙ elim (Option-cases (hex_value text)) [
  | inl f ↦ rw f refl
  | inr (v, f) ↦ rw f (ap some (omega (arith, zero-mul (16 ^ length text))))
]

-- `from_radix_16` answers the value of the hexadecimal text modulo 2^64, where each of the 22
-- digits counts as often as the power of sixteen of its place says, and nothing exactly where some
-- byte is no such digit. The empty text has the value zero.
pub from_radix_16-value :
    (text : List ℕ) → from_radix_16 text ≡ Option.map (λ v. v % 2 ^ 64) (hex_value text)
from_radix_16-value text =
    from_radix_16-hex_value_from text ∙ ap (Option.map (λ v. v % 2 ^ 64)) (hex_value_from_zero text)

ascii_to_hexdigit-to_hexdigit : (d : ℕ) → d < 16 → ascii_to_hexdigit (to_hexdigit d) ≡ some d
unfolding ascii_to_hexdigit
ascii_to_hexdigit-to_hexdigit d h = ground arith

read_digit :
    (v d : ℕ) (out : List ℕ)
    → d < 16
    → hex_value_from v (to_hexdigit d ∷ out) ≡ hex_value_from (v * 16 + d) out
unfolding hex_value_from
read_digit v d out h = rw (ascii_to_hexdigit-to_hexdigit d h, hex_value_from)

zero_digit : (n : ℕ) (out : List ℕ) → hex_value_from (0 * 16 + n) out ≡ hex_value_from n out
zero_digit n out = ap (λ (m : ℕ). hex_value_from m out) (omega arith)

-- the digits of `n`, then `out`, read as the digits of `out` behind the value `n`
hex_value_from-to_hex_loop :
    (fuel n : ℕ) (out : List ℕ)
    → n < 16 ^ suc fuel
    → hex_value_from 0 (to_hex_loop (suc fuel) n out) ≡ hex_value_from n out
unfolding to_hex_loop
hex_value_from-to_hex_loop zero n out h =
    rw (lt→ltb n 16 (omega arith)) (read_digit 0 n out (omega arith) ∙ zero_digit n out)
hex_value_from-to_hex_loop (suc fuel) n out h = elim (Bool-cases (ltb n 16)) [
  | inl t ↦ rw t (read_digit 0 n out (ltb→lt n 16 t) ∙ zero_digit n out)
  | inr t ↦ rw t (
      hex_value_from-to_hex_loop fuel (n / 16) (to_hexdigit (n % 16) ∷ out)
        (omega (arith, pow-suc 16 (suc fuel)))
      ∙ read_digit (n / 16) (n % 16) out (omega arith)
      ∙ ap (λ (m : ℕ). hex_value_from m out) (omega arith))
]

-- `from_radix_16` reads every number below 2^64 back from its lower-case hexadecimal text.
from_radix_16-to_hex : (n : ℕ) → n < 2 ^ 64 → from_radix_16 (to_hex n) ≡ some n
unfolding to_hex
from_radix_16-to_hex n h =
    from_radix_16-hex_value_from (to_hex n)
    ∙ rw (hex_value_from-to_hex_loop 15 n [] (omega arith))
        (unfold hex_value_from in ap some (omega arith))

abbrev pub zeros : ℕ → List ℕ
zeros zero = []
zeros (suc k) = b'0' ∷ zeros k

-- `{:0width$x}`
abbrev pub padded_hex : (width n : ℕ) → List ℕ
padded_hex width n = zeros (width - length (to_hex n)) ++ to_hex n

-- Zeros in front of the digits do not count.
from_radix_16-zeros : (k : ℕ) (text : List ℕ) → from_radix_16 (zeros k ++ text) ≡ from_radix_16 text
unfolding from_radix_16 from_radix_16_loop ascii_to_hexdigit
from_radix_16-zeros zero text = refl
from_radix_16-zeros (suc k) text = from_radix_16-zeros k text

-- `from_radix_16` reads every number below 2^64 back from its text of some width.
pub from_radix_16-padded_hex :
    (width n : ℕ) → n < 2 ^ 64 → from_radix_16 (padded_hex width n) ≡ some n
from_radix_16-padded_hex width n h =
    from_radix_16-zeros (width - length (to_hex n)) (to_hex n) ∙ from_radix_16-to_hex n h
