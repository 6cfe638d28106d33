-- ===== src/Examples/Texts.antt =====
-- The byte strings of src/util.rs and the lines of src/maps.rs at concrete inputs.
use blazesym.Common.{
  ℕ, ◌≡◌, ◌≢◌, ◌++◌, ap, take, length, length-append, refl, Bool, true, false, List, [], ◌∷◌, arith,
  ◌==◌,
}
use blazesym.Common.Outcome.{ok}
use blazesym.Maps.{parse_maps_line}
use blazesym.Maps.Shown.{Vma, file, mark, show, entry_of}
use blazesym.Maps.Line.{parse_maps_line-show}
use blazesym.Util.Bytes.{to_hex}

abbrev padded : List ℕ
padded = b' ' ∷ b'a' ∷ b' ' ∷ b'b' ∷ b' ' ∷ []

abbrev is_equals : ℕ → Bool
is_equals b = b == b'='

abbrev pair : List ℕ
pair = b'a' ∷ b'=' ∷ b'b' ∷ b'=' ∷ []

-- "08048000-08049000 r-xp 00001000 08:01 42", some blanks and "/b"
abbrev vma : Vma
vma = record {
  start = 0x8048000;
  end = 0x8049000;
  readable = true;
  writable = false;
  executable = true;
  shared = false;
  offset = 0x1000;
  major = 8;
  minor = 1;
  inode = b'4' ∷ b'2' ∷ [];
  padding = 3;
  backing = file (b'/' ∷ b'b' ∷ []) false;
}

shown :
    take 18 (show vma)
    ≡ b'0' ∷ b'8' ∷ b'0' ∷ b'4' ∷ b'8' ∷ b'0' ∷ b'0' ∷ b'0' ∷ b'-' ∷ b'0' ∷ b'8' ∷ b'0' ∷ b'4'
      ∷ b'9' ∷ b'0' ∷ b'0' ∷ b'0' ∷ b' ' ∷ []
unfolding to_hex
shown = refl

b-ne-mark : (front : List ℕ) → b'/' ∷ b'b' ∷ [] ≢ front ++ mark
b-ne-mark front e = omega (arith, ap length e, length-append front mark)

parse_maps_line-show_example : parse_maps_line (show vma) 1 ≡ ok (entry_of vma 1)
parse_maps_line-show_example = parse_maps_line-show vma 1 (
  omega arith,
  omega arith,
  omega arith,
  (refl, (refl, tt)),
  ((b'b' ∷ [], refl), refl, b-ne-mark),
)
