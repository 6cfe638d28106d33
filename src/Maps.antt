-- ===== src/Maps.antt =====
-- src/maps.rs: the entries of /proc/<pid>/maps.
pub mod Shown
pub mod Path
pub mod Line
use blazesym.Common.{
  ℕ, zero, suc, ◌+◌, Bool, true, false, not, ◌&&◌, Option, none, some, List, [], ◌∷◌, ◌++◌, map,
  ltb, leb, ◌==◌, if◌then◌else◌, length, take, drop, bit_and, bit_or, ◌-◌,
}
use blazesym.Common.Outcome.{Outcome, ok, err, stuck, ◌>>=◌, ok_or_invalid_data, invalid_data}
use blazesym.Util.Bytes.{
  split_bytes, split_once, trim_ascii, from_radix_16, to_hex, is_ascii_whitespace,
}
use blazesym.Util.Order.{bytes_eq}
use blazesym.Util.Text.{lines, to_decimal, is_nil}
use blazesym.Util.Utf8.{from_utf8_lossy}
use mathlib.Core.Option

pub record EntryPath : Type 0 where
  pub maps_file : List ℕ
  pub symbolic_path : List ℕ

pub data PathName : Type 0 where
  path : EntryPath → PathName
  component : List ℕ → PathName

-- `Perm` is its bits.
abbrev pub perm_r : ℕ
perm_r = 4

abbrev pub perm_w : ℕ
perm_w = 2

abbrev pub perm_x : ℕ
perm_x = 1

pub record MapsEntry : Type 0 where
  pub start : ℕ
  pub end : ℕ
  pub perm : ℕ
  pub offset : ℕ
  pub path_name : Option PathName
  pub build_id : Option (List ℕ)

-- " (deleted)"
abbrev pub deleted : List ℕ
deleted = b' ' ∷ b'(' ∷ b'd' ∷ b'e' ∷ b'l' ∷ b'e' ∷ b't' ∷ b'e' ∷ b'd' ∷ b')' ∷ []

-- `path.strip_suffix(suffix).unwrap_or(path)`.
without_suffix : (suffix text : List ℕ) → List ℕ
without_suffix suffix text =
    let front = length text - length suffix in
    if leb (length suffix) (length text) && bytes_eq (drop front text) suffix
    then take front text
    else text

-- "/proc/{pid}/map_files/{start:x}-{end:x}"
map_files_path : (pid vma_start vma_end : ℕ) → List ℕ
map_files_path pid vma_start vma_end =
    b'/'
    ∷ b'p'
    ∷ b'r'
    ∷ b'o'
    ∷ b'c'
    ∷ b'/'
    ∷ (to_decimal pid
        ++ (b'/'
            ∷ b'm'
            ∷ b'a'
            ∷ b'p'
            ∷ b'_'
            ∷ b'f'
            ∷ b'i'
            ∷ b'l'
            ∷ b'e'
            ∷ b's'
            ∷ b'/'
            ∷ (to_hex vma_start ++ (b'-' ∷ to_hex vma_end))))

-- The number of the process is already resolved.
pub parse_path_name : List ℕ → (pid vma_start vma_end : ℕ) → Option PathName
unfolding without_suffix map_files_path
parse_path_name [] pid vma_start vma_end = none
parse_path_name (b ∷ bs) pid vma_start vma_end =
    if b == b'/'
    then some (
        path (record {
          maps_file = map_files_path pid vma_start vma_end;
          symbolic_path = without_suffix deleted (b ∷ bs);
        }))
    else some (component (from_utf8_lossy (b ∷ bs)))

-- `if mode.read_u8()? == letter { perm |= bit }`.
abbrev pub flag : (letter bit byte perm : ℕ) → ℕ
flag letter bit byte perm = if byte == letter then bit_or perm bit else perm

pub parse_mode_str : List ℕ → Option ℕ
parse_mode_str (r ∷ w ∷ x ∷ rest) =
    some (flag b'x' perm_x x (flag b'w' perm_w w (flag b'r' perm_r r 0)))
parse_mode_str _ = none

abbrev pub split_space : List ℕ → Option (List ℕ × List ℕ)
split_space line = split_bytes line (λ b. is_ascii_whitespace b)

-- The path behind the inode, if there is one.
abbrev pub path_part : Option (List ℕ × List ℕ) → List ℕ
path_part none = []
path_part (some (inode, line)) = trim_ascii line

pub parse_maps_line : List ℕ → (pid : ℕ) → Outcome MapsEntry
unfolding parse_mode_str parse_path_name
parse_maps_line full_line pid = do
  (address_str, line1) ← ok_or_invalid_data (split_space full_line)
  (loaded_str, end_str) ← ok_or_invalid_data (split_once address_str (λ b. b == b'-'))
  loaded_addr ← ok_or_invalid_data (from_radix_16 loaded_str)
  end_addr ← ok_or_invalid_data (from_radix_16 end_str)
  (mode_str, line2) ← ok_or_invalid_data (split_space line1)
  perm ← ok_or_invalid_data (parse_mode_str mode_str)
  (offset_str, line3) ← ok_or_invalid_data (split_space line2)
  offset ← ok_or_invalid_data (from_radix_16 offset_str)
  (dev, line4) ← ok_or_invalid_data (split_space line3)
  let path_str = path_part (split_space line4)
  ok (record {
    start = loaded_addr;
    end = end_addr;
    perm = perm;
    offset = offset;
    path_name = parse_path_name path_str pid loaded_addr end_addr;
    build_id = none;
  })

-- The items of `MapsEntryIter`, over a reader that does not fail: one for each line.
parse_file : List ℕ → (pid : ℕ) → List (Outcome MapsEntry)
unfolding parse_maps_line
parse_file text pid = map (λ line. parse_maps_line line pid) (lines text)

abbrev pub is_component : Option PathName → Bool
is_component none = false
is_component (some (path p)) = false
is_component (some (component c)) = true

pub filter_relevant : MapsEntry → Bool
filter_relevant entry =
    if bit_and entry.perm (bit_or perm_r perm_x) == 0
    then false
    else not (is_component entry.path_name)

-- `result.as_ref().map(filter_relevant).unwrap_or(true)`.
abbrev pub is_kept : Outcome MapsEntry → Bool
is_kept (ok entry) = filter_relevant entry
is_kept (err e) = true
is_kept stuck = true

keep_relevant : List (Outcome MapsEntry) → List (Outcome MapsEntry)
unfolding filter_relevant
keep_relevant [] = []
keep_relevant (entry ∷ entries) =
    let rest = keep_relevant entries in if is_kept entry then entry ∷ rest else rest

-- The entries that `parse_filtered` yields for the text of the file.
unfoldable pub parse_filtered : List ℕ → (pid : ℕ) → List (Outcome MapsEntry)
unfolding parse_file keep_relevant
parse_filtered text pid = keep_relevant (parse_file text pid)
