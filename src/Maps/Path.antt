-- ===== src/Maps/Path.antt =====
-- The path name that `parse_maps_line` of src/maps.rs reads behind the inode.
use mathlib.Core.List.{append-nil, reverse-append}
use blazesym.Common.{
  ℕ, zero, suc, ◌-◌, ◌≡◌, ◌≢◌, refl, sym, ap, ◌∙◌, Bool, true, false, ◌&&◌, List, ◌∷◌, ◌++◌, arith,
  leb, length, take, drop, Bool-cases, inl, inr, length-append, take-append-drop,
  take-append_length, drop-append_length,
}
use blazesym.Util.Order.{bytes_eq, bytes_eq_iff}
use blazesym.Util.Bytes.{trim_ascii}
use blazesym.Util.Bytes.Trim.{AllSpace, NoSpaceInFront, NoSpaceAtEnd, trim_ascii-append}
use blazesym.Maps.{deleted, without_suffix, map_files_path, parse_path_name}
use blazesym.Maps.Shown.{
  Backing, file, special, anonymous, mark, backing_text, IsBacking, blanks, path_name_of,
}

blanks-AllSpace : (k : ℕ) → AllSpace (blanks k)
blanks-AllSpace zero = tt
blanks-AllSpace (suc k) = (refl, blanks-AllSpace k)

without_suffix-append : (suffix text : List ℕ) → without_suffix suffix (text ++ suffix) ≡ text
unfolding without_suffix
without_suffix-append suffix text =
    let size = length-append text suffix in
    let front : length (text ++ suffix) - length suffix ≡ length text = omega (arith, size) in
    let fits : leb (length suffix) (length (text ++ suffix)) ≡ true = ground (arith, size) in
    rw (front, fits, drop-append_length text suffix, (bytes_eq_iff suffix suffix).1 refl)
      (take-append_length text suffix)

without_suffix-ne :
    (suffix text : List ℕ)
    → ((front : List ℕ) → text ≢ front ++ suffix)
    → without_suffix suffix text ≡ text
unfolding without_suffix
without_suffix-ne suffix text ne =
    let n = length text - length suffix in
    elim (Bool-cases (leb (length suffix) (length text) && bytes_eq (drop n text) suffix)) [
      | inl t ↦ absurd (
          ne (take n text) (
            sym (take-append-drop n text)
            ∙ ap (λ (l : List ℕ). take n text ++ l)
                ((bytes_eq_iff (drop n text) suffix).0 (ground arith))))
      | inr f ↦ rw f refl
    ]

mark-NoSpaceAtEnd : (name : List ℕ) → NoSpaceAtEnd (name ++ mark)
mark-NoSpaceAtEnd name = rw (reverse-append name mark) refl

backing_text-trimmed :
    (backing : Backing)
    → IsBacking backing
    → NoSpaceInFront (backing_text backing) × NoSpaceAtEnd (backing_text backing)
backing_text-trimmed (file name true) (rest, e) = (rw e refl, mark-NoSpaceAtEnd name)
backing_text-trimmed (file name false) ((rest, e), n, ne) = rw (append-nil name) (rw e refl, n)
backing_text-trimmed (special name) (b, rest, e, slash, space, n) = (rw e space, n)
backing_text-trimmed anonymous h = (tt, tt)

parse_path_name-file :
    (text rest name : List ℕ) (is_deleted : Bool) (pid start end : ℕ)
    → text ≡ b'/' ∷ rest
    → without_suffix deleted text ≡ name
    → parse_path_name text pid start end ≡ path_name_of (file name is_deleted) pid start end
unfolding parse_path_name map_files_path
parse_path_name-file text rest name is_deleted pid start end e w =
    let found : without_suffix deleted (b'/' ∷ rest) ≡ name =
      ap (without_suffix deleted) (sym e) ∙ w in
    ap (λ (t : List ℕ). parse_path_name t pid start end) e ∙ rw found refl

-- The text of the backing is read back.
parse_path_name-backing_text :
    (backing : Backing) (pid start end : ℕ)
    → IsBacking backing
    → parse_path_name (backing_text backing) pid start end ≡ path_name_of backing pid start end
unfolding parse_path_name
parse_path_name-backing_text (file name true) pid start end (rest, e) =
    parse_path_name-file (name ++ mark) (rest ++ mark) name true pid start end
      (ap (λ (l : List ℕ). l ++ mark) e) (without_suffix-append mark name)
parse_path_name-backing_text (file name false) pid start end ((rest, e), n, ne) =
    rw (append-nil name)
      (parse_path_name-file name rest name false pid start end e (without_suffix-ne mark name ne))
parse_path_name-backing_text (special name) pid start end (b, rest, e, slash, space, n) =
    rw e (rw slash refl)
parse_path_name-backing_text anonymous pid start end h = refl

pub parse_path_name-trim_ascii :
    (backing : Backing) (padding pid start end : ℕ)
    → IsBacking backing
    → parse_path_name (trim_ascii (blanks padding ++ backing_text backing)) pid start end
      ≡ path_name_of backing pid start end
parse_path_name-trim_ascii backing padding pid start end h =
    let (front, back) = backing_text-trimmed backing h in
    ap (λ (t : List ℕ). parse_path_name t pid start end)
      (trim_ascii-append (blanks padding) (backing_text backing) (blanks-AllSpace padding) front
        back)
    ∙ parse_path_name-backing_text backing pid start end h
