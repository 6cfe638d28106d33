-- ===== src/Util/Utf8.antt =====
-- `str::from_utf8` of the standard library, as a test: the table of well-formed byte sequences.
use blazesym.Common.Outcome.{Outcome, ok, err, invalid_data}
use blazesym.Common.{
  ◌++◌, ◌-◌, ◌≡◌, refl, ℕ, zero, suc, Bool, true, false, ◌&&◌, List, [], ◌∷◌, leb, ◌==◌,
  if◌then◌else◌,
}

abbrev pub between : (lo hi b : ℕ) → Bool
between lo hi b = leb lo b && leb b hi

-- What must follow a first byte: how many bytes, and the range of the next one.
pub data Lead : Type 0 where
  bad : Lead
  follow : (count lo hi : ℕ) → Lead

lead : ℕ → Lead
lead b =
    if between 0x00 0x7f b
    then follow 0 0x80 0xbf
    else if between 0xc2 0xdf b
    then follow 1 0x80 0xbf
    else if b == 0xe0
    then follow 2 0xa0 0xbf
    else if b == 0xed
    then follow 2 0x80 0x9f
    else if between 0xe1 0xef b
    then follow 2 0x80 0xbf
    else if b == 0xf0
    then follow 3 0x90 0xbf
    else if between 0xf1 0xf3 b
    then follow 3 0x80 0xbf
    else if b == 0xf4
    then follow 3 0x80 0x8f
    else bad

-- `count` bytes of the character are still to come.
is_utf8_from : (count lo hi : ℕ) → List ℕ → Bool
unfolding lead
is_utf8_from zero lo hi [] = true
is_utf8_from (suc count) lo hi [] = false
is_utf8_from zero lo hi (b ∷ bs) = elim (lead b) [
  | bad ↦ false
  | follow n lo' hi' ↦ is_utf8_from n lo' hi' bs
]
is_utf8_from (suc count) lo hi (b ∷ bs) =
    let rest = is_utf8_from count 0x80 0xbf bs in if between lo hi b then rest else false

unfoldable pub is_utf8 : List ℕ → Bool
unfolding is_utf8_from
is_utf8 bytes = is_utf8_from 0 0x80 0xbf bytes

utf8_examples :
    is_utf8 (0x61 ∷ 0xc3 ∷ 0xa4 ∷ 0xe2 ∷ 0x82 ∷ 0xac ∷ 0xf0 ∷ 0x9f ∷ 0x98 ∷ 0x80 ∷ []) ≡ true
unfolding is_utf8
utf8_examples = refl

utf8_surrogate : is_utf8 (0xed ∷ 0xa0 ∷ 0x80 ∷ []) ≡ false
unfolding is_utf8
utf8_surrogate = refl

-- `String::from_utf8_lossy`: each broken character becomes U+FFFD. `pending` holds the bytes of a
-- character of which `count` bytes are still to come.
abbrev pub replacement : List ℕ
replacement = 0xef ∷ 0xbf ∷ 0xbd ∷ []

pub record LossyState : Type 0 where
  pub count : ℕ
  pub lo : ℕ
  pub hi : ℕ
  pub pending : List ℕ

abbrev pub between_chars : LossyState
between_chars = record { count = 0; lo = 0x80; hi = 0xbf; pending = [] }

-- The text that a byte between two characters yields, and the state behind it.
lossy_lead : ℕ → List ℕ × LossyState
unfolding lead
lossy_lead b = elim (lead b) [
  | bad ↦ (replacement, between_chars)
  | follow n lo hi ↦
      if n == 0
      then (b ∷ [], between_chars)
      else ([], record { count = n; lo = lo; hi = hi; pending = b ∷ [] })
]

lossy_step : LossyState → ℕ → List ℕ × LossyState
unfolding lossy_lead
lossy_step s b =
    if s.count == 0
    then lossy_lead b
    else if between s.lo s.hi b
    then if s.count == 1 then (s.pending ++ (b ∷ []), between_chars) else (
      [],
      record { count = s.count - 1; lo = 0x80; hi = 0xbf; pending = s.pending ++ (b ∷ []) },
    )
    else let (out, t) = lossy_lead b in (replacement ++ out, t)

lossy_from : LossyState → List ℕ → List ℕ
unfolding lossy_step
lossy_from s [] = if s.count == 0 then [] else replacement
lossy_from s (b ∷ bs) = let (out, t) = lossy_step s b in out ++ lossy_from t bs

pub from_utf8_lossy : List ℕ → List ℕ
unfolding lossy_from
from_utf8_lossy bytes = lossy_from between_chars bytes

lossy_example :
    from_utf8_lossy (0x61 ∷ 0xe2 ∷ 0x82 ∷ 0x62 ∷ 0xff ∷ [])
    ≡ 0x61 ∷ 0xef ∷ 0xbf ∷ 0xbd ∷ 0x62 ∷ 0xef ∷ 0xbf ∷ 0xbd ∷ []
unfolding from_utf8_lossy
lossy_example = refl

-- `str::from_utf8`, with its error.
abbrev pub from_utf8 : List ℕ → Outcome (List ℕ)
from_utf8 text = if is_utf8 text then ok text else err invalid_data
