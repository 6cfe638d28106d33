-- ===== src/Maps/Shown.antt =====
-- A line of /proc/<pid>/maps as the kernel prints it (`show_map_vma`), and the entry of src/maps.rs that
-- stands for it.
use blazesym.Common.{
  ℕ, zero, suc, ◌+◌, ◌^◌, ◌<◌, ◌≡◌, ◌≢◌, Bool, true, false, Option, none, some, List, [], ◌∷◌, ◌++◌,
  ◌==◌, if◌then◌else◌,
}
use blazesym.Util.Bytes.{is_ascii_whitespace, to_hex}
use blazesym.Util.Bytes.Hex.{padded_hex}
use blazesym.Util.Bytes.Split.{NonePass}
use blazesym.Util.Bytes.Trim.{NoSpaceAtEnd}
use blazesym.Util.Text.{to_decimal}
use blazesym.Util.Utf8.{from_utf8_lossy}
use blazesym.Maps.{MapsEntry, PathName, path, component}

-- What is mapped: a file, something with a name that is no path, such as the heap, or nothing that
-- has a name.
pub data Backing : Type 0 where
  file : (name : List ℕ) → (is_deleted : Bool) → Backing
  special : (name : List ℕ) → Backing
  anonymous : Backing

-- " (deleted)"
abbrev pub mark : List ℕ
mark = b' ' ∷ b'(' ∷ b'd' ∷ b'e' ∷ b'l' ∷ b'e' ∷ b't' ∷ b'e' ∷ b'd' ∷ b')' ∷ []

abbrev pub backing_text : Backing → List ℕ
backing_text (file name is_deleted) = name ++ (if is_deleted then mark else [])
backing_text (special name) = name
backing_text anonymous = []

abbrev pub IsPathname : List ℕ → Type 0
IsPathname name = (rest : List ℕ) × (name ≡ b'/' ∷ rest)

-- A path is absolute. The path of a file that exists does not end in the mark or in white space. A
-- name starts neither with a slash nor with white space, and does not end in white space.
abbrev pub IsBacking : Backing → Type 0
IsBacking (file name true) = IsPathname name
IsBacking (file name false) =
    IsPathname name × NoSpaceAtEnd name × ((front : List ℕ) → name ≢ front ++ mark)
IsBacking (special name) =
    (b : ℕ) × (rest : List ℕ) × (name ≡ b ∷ rest)
    × ((b == b'/') ≡ false)
    × (is_ascii_whitespace b ≡ false)
    × NoSpaceAtEnd name
IsBacking anonymous = Unit

-- A mapping. The inode is its digits, and `padding` is the number of blanks in front of the path.
pub record Vma : Type 0 where
  pub start : ℕ
  pub end : ℕ
  pub readable : Bool
  pub writable : Bool
  pub executable : Bool
  pub shared : Bool
  pub offset : ℕ
  pub major : ℕ
  pub minor : ℕ
  pub inode : List ℕ
  pub padding : ℕ
  pub backing : Backing

abbrev pub spaced : List ℕ → List ℕ → List ℕ
spaced word rest = word ++ (b' ' ∷ rest)

abbrev pub blanks : ℕ → List ℕ
blanks zero = []
blanks (suc k) = b' ' ∷ blanks k

-- r--p and its like
abbrev letter : Bool → ℕ → ℕ
letter set c = if set then c else b'-'

abbrev pub mode_str : (r w x shared : Bool) → List ℕ
mode_str r w x shared =
    letter r b'r' ∷ letter w b'w' ∷ letter x b'x' ∷ (if shared then b's' else b'p') ∷ []

abbrev pub mode_of : Vma → List ℕ
mode_of v = mode_str v.readable v.writable v.executable v.shared

abbrev pub address_range : Vma → List ℕ
address_range v = padded_hex 8 v.start ++ (b'-' ∷ padded_hex 8 v.end)

abbrev pub dev_of : Vma → List ℕ
dev_of v = padded_hex 2 v.major ++ (b':' ∷ padded_hex 2 v.minor)

-- `start-end mode offset major:minor inode`, a blank, the padding and the path
abbrev pub show : Vma → List ℕ
show v = spaced (address_range v) (
    spaced (mode_of v) (
      spaced (padded_hex 8 v.offset)
        (spaced (dev_of v) (spaced v.inode (blanks v.padding ++ backing_text v.backing)))))

-- The numbers that are read have 64 bits, and there are no blanks in the inode.
abbrev pub IsVma : Vma → Type 0
IsVma v =
    (v.start < 2 ^ 64)
    × (v.end < 2 ^ 64)
    × (v.offset < 2 ^ 64)
    × NonePass (λ b. is_ascii_whitespace b) v.inode
    × IsBacking v.backing

abbrev bit : Bool → ℕ → ℕ
bit set mask = if set then mask else 0

abbrev pub mode_bits : (r w x : Bool) → ℕ
mode_bits r w x = bit r 4 + bit w 2 + bit x 1

-- "/proc/<pid>/map_files/<start>-<end>", the numbers of the range without padding
abbrev map_file : (pid start end : ℕ) → List ℕ
map_file pid start end =
    (b'/' ∷ b'p' ∷ b'r' ∷ b'o' ∷ b'c' ∷ b'/' ∷ [])
    ++ (to_decimal pid
        ++ ((b'/' ∷ b'm' ∷ b'a' ∷ b'p' ∷ b'_' ∷ b'f' ∷ b'i' ∷ b'l' ∷ b'e' ∷ b's' ∷ b'/' ∷ [])
            ++ (to_hex start ++ (b'-' ∷ to_hex end))))

-- a file has its path without the mark
abbrev pub path_name_of : Backing → (pid start end : ℕ) → Option PathName
path_name_of (file name is_deleted) pid start end =
    some (path (record { maps_file = map_file pid start end; symbolic_path = name }))
path_name_of (special name) pid start end = some (component (from_utf8_lossy name))
path_name_of anonymous pid start end = none

abbrev pub entry_of : Vma → (pid : ℕ) → MapsEntry
entry_of v pid = record {
  start = v.start;
  end = v.end;
  perm = mode_bits v.readable v.writable v.executable;
  offset = v.offset;
  path_name = path_name_of v.backing pid v.start v.end;
  build_id = none;
}
