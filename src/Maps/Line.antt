-- ===== src/Maps/Line.antt =====
-- `parse_maps_line` of src/maps.rs on a line as the kernel prints it (`show_vma_header_prefix`).
use blazesym.Common.{
  ℕ, zero, suc, ◌-◌, ◌/◌, ◌%◌, ◌<◌, ◌≡◌, refl, ◌∙◌, Bool, true, false, Option, some, List, [], ◌∷◌,
  ◌++◌, arith, length, ltb, ◌==◌, All, Bool-cases, inl, inr, ltb→lt,
}
use blazesym.Common.Outcome.{ok}
use blazesym.Util.Bytes.{
  is_ascii_whitespace, split_once, trim_ascii, to_hexdigit, to_hex_loop, to_hex,
}
use blazesym.Util.Bytes.Split.{NonePass, split_bytes-append, split_once-split_bytes}
use blazesym.Util.Bytes.Hex.{zeros, padded_hex, from_radix_16-padded_hex}
use blazesym.Maps.{split_space, PathName, parse_path_name, parse_mode_str, parse_maps_line}
use blazesym.Maps.Shown.{
  Vma, show, spaced, blanks, backing_text, mode_str, mode_of, mode_bits, address_range, dev_of,
  path_name_of, IsVma, entry_of,
}
use blazesym.Maps.Path.{parse_path_name-trim_ascii}

abbrev is_dash : ℕ → Bool
is_dash b = b == b'-'

abbrev is_space : ℕ → Bool
is_space b = is_ascii_whitespace b

All-append {ℓ κ} :
    {A : Type ℓ} (P : A → Type κ) (xs ys : List A) → All P xs → All P ys → All P (xs ++ ys)
All-append P [] ys h k = k
All-append P (x ∷ xs) ys (hx, h) k = (hx, All-append P xs ys h k)

hexdigit-is_dash : (d : ℕ) → d < 16 → is_dash (to_hexdigit d) ≡ false
hexdigit-is_dash d h = ground arith

hexdigit-is_space : (d : ℕ) → d < 16 → is_space (to_hexdigit d) ≡ false
hexdigit-is_space d h = ground arith

module _ (check : ℕ → Bool) (digits : (d : ℕ) → d < 16 → check (to_hexdigit d) ≡ false) where
  to_hex_loop-NonePass :
      (fuel n : ℕ) (out : List ℕ) → NonePass check out → NonePass check (to_hex_loop fuel n out)
  unfolding to_hex_loop
  to_hex_loop-NonePass zero n out h = h
  to_hex_loop-NonePass (suc fuel) n out h = elim (Bool-cases (ltb n 16)) [
    | inl t ↦ rw (t, to_hex_loop) (digits n (ltb→lt n 16 t), h)
    | inr t ↦
        rw (t, to_hex_loop)
          (to_hex_loop-NonePass fuel (n / 16) (to_hexdigit (n % 16) ∷ out)
            (digits (n % 16) (omega arith), h))
  ]

  to_hex-NonePass : (n : ℕ) → NonePass check (to_hex n)
  unfolding to_hex
  to_hex-NonePass n = to_hex_loop-NonePass 16 n [] tt

  zeros-NonePass : (k : ℕ) → NonePass check (zeros k)
  zeros-NonePass zero = tt
  zeros-NonePass (suc k) = (digits 0 (omega arith), zeros-NonePass k)

  padded_hex-NonePass : (width n : ℕ) → NonePass check (padded_hex width n)
  padded_hex-NonePass width n =
      All-append _ (zeros (width - length (to_hex n))) (to_hex n)
        (zeros-NonePass (width - length (to_hex n))) (to_hex-NonePass n)

-- two padded numbers around a byte that is no white space
pair-NonePass :
    (width n m b : ℕ)
    → is_space b ≡ false
    → NonePass is_space (padded_hex width n ++ (b ∷ padded_hex width m))
pair-NonePass width n m b h =
    All-append _ (padded_hex width n) (b ∷ padded_hex width m)
      (padded_hex-NonePass is_space hexdigit-is_space width n)
      (h, padded_hex-NonePass is_space hexdigit-is_space width m)

parse_mode_str-mode_str :
    (r w x shared : Bool) → parse_mode_str (mode_str r w x shared) ≡ some (mode_bits r w x)
unfolding parse_mode_str
parse_mode_str-mode_str true true true shared = refl
parse_mode_str-mode_str true true false shared = refl
parse_mode_str-mode_str true false true shared = refl
parse_mode_str-mode_str true false false shared = refl
parse_mode_str-mode_str false true true shared = refl
parse_mode_str-mode_str false true false shared = refl
parse_mode_str-mode_str false false true shared = refl
parse_mode_str-mode_str false false false shared = refl

mode_str-NonePass : (r w x shared : Bool) → NonePass is_space (mode_str r w x shared)
mode_str-NonePass r w x shared = ground arith

split_spaced :
    (word rest : List ℕ)
    → NonePass is_space word
    → split_space (spaced word rest) ≡ some (word, rest)
split_spaced word rest h = split_bytes-append is_space word b' ' rest h refl

split_range :
    (v : Vma)
    → split_once (address_range v) is_dash ≡ some (padded_hex 8 v.start, padded_hex 8 v.end)
split_range v =
    split_once-split_bytes is_dash (address_range v)
    ∙ split_bytes-append is_dash (padded_hex 8 v.start) b'-' (padded_hex 8 v.end)
        (padded_hex-NonePass is_dash hexdigit-is_dash 8 v.start) refl

-- The line is cut into its words one after the other.
parse_words :
    (v : Vma) (pid : ℕ) (mode : List ℕ) (perm : ℕ) (tail : List ℕ) (name : Option PathName)
    → IsVma v
    → NonePass is_space mode
    → parse_mode_str mode ≡ some perm
    → parse_path_name (trim_ascii tail) pid v.start v.end ≡ name
    → let rest = spaced (padded_hex 8 v.offset) (spaced (dev_of v) (spaced v.inode tail)) in
      parse_maps_line (spaced (address_range v) (spaced mode rest)) pid
      ≡ ok (record (entry_of v pid) { perm = perm; path_name = name })
unfolding parse_maps_line
parse_words v pid mode perm tail name (s, e, o, i, b) m p t =
    let line3 = spaced (dev_of v) (spaced v.inode tail) in
    let line2 = spaced (padded_hex 8 v.offset) line3 in
    rw
      (
        split_spaced (address_range v) (spaced mode line2)
            (pair-NonePass 8 v.start v.end b'-' refl),
        split_range v,
        from_radix_16-padded_hex 8 v.start s,
        from_radix_16-padded_hex 8 v.end e,
        split_spaced mode line2 m,
        p,
        split_spaced (padded_hex 8 v.offset) line3
            (padded_hex-NonePass is_space hexdigit-is_space 8 v.offset),
        from_radix_16-padded_hex 8 v.offset o,
        split_spaced (dev_of v) (spaced v.inode tail) (pair-NonePass 2 v.major v.minor b':' refl),
        split_spaced v.inode tail i,
        t,
        parse_maps_line,
      )
      refl

-- On the line that the kernel shows for a mapping of 64-bit numbers whose inode has no blank in it,
-- with padded hexadecimal numbers and any number of blanks in front of the path, `parse_maps_line`
-- recovers the address range, the permissions, the offset and what is mapped: the path of a file,
-- without the mark of a deleted one, the name of what is no file, or nothing. A path is absolute
-- and, for a file that exists, ends neither in the mark nor in white space; a name starts neither
-- with a slash nor with white space, and does not end in white space.
pub parse_maps_line-show :
    (v : Vma) (pid : ℕ) → IsVma v → parse_maps_line (show v) pid ≡ ok (entry_of v pid)
parse_maps_line-show v pid h =
    parse_words v pid (mode_of v) (mode_bits v.readable v.writable v.executable)
      (blanks v.padding ++ backing_text v.backing) (path_name_of v.backing pid v.start v.end) h
      (mode_str-NonePass v.readable v.writable v.executable v.shared)
      (parse_mode_str-mode_str v.readable v.writable v.executable v.shared)
      (parse_path_name-trim_ascii v.backing v.padding pid v.start v.end h.4)
