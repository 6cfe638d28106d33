-- ===== src/Util/Slice.antt =====
-- `ReadRaw` for `&[u8]` (src/util.rs). A slice is its address and its bytes; reading moves both.
-- A method that takes `&mut self` returns the slice that it leaves, also where it returns `None`.
use blazesym.Common.{
  ℕ, zero, suc, ◌+◌, ◌-◌, ◌*◌, ◌%◌, ◌^◌, Option, none, some, List, [], ◌∷◌, leb, ltb, ◌==◌,
  if◌then◌else◌, length, take, drop,
}
use blazesym.Util.Bytes.{position}

pub record Slice : Type 0 where
  pub addr : ℕ
  pub bytes : List ℕ

abbrev pub slice : ℕ → List ℕ → Slice
slice a bs = record { addr = a; bytes = bs }

abbrev pub Read : Type 0 → Type 0
Read A = Slice → Option A × Slice

abbrev pub pass_on : {A B : Type 0} → Option A × Slice → (A → Read B) → Option B × Slice
pass_on (none, s) f = (none, s)
pass_on (some a, s) f = f a s

infixl 5 ◌>>=◌ ◌>>◌
abbrev pub ◌>>=◌ : {A B : Type 0} → Read A → (A → Read B) → Read B
◌>>=◌ m f s = pass_on (m s) f

abbrev pub ◌>>◌ : {B : Type 0} → Read (Unit {0}) → Read B → Read B
◌>>◌ m k = m >>= λ _. k

abbrev pub pure : {A : Type 0} → A → Read A
pure a s = (some a, s)

-- `?` on a value that no reading is needed for.
abbrev pub lift : {A : Type 0} → Option A → Read A
lift o s = (o, s)

unfoldable pub ensure : (len : ℕ) → Read (Unit {0})
ensure len s = if ltb (length s.bytes) len then (none, s) else (some tt, s)

-- `split_at`: the part that is returned keeps its address.
unfoldable pub read_slice : (len : ℕ) → Read Slice
unfolding ensure
read_slice len = do
  ensure len
  λ s. (some (slice s.addr (take len s.bytes)), slice (s.addr + len) (drop len s.bytes))

unfoldable pub advance : (cnt : ℕ) → Read (Unit {0})
unfolding read_slice
advance cnt = do _ ← read_slice cnt; pure tt

-- `align_offset` of a pointer to bytes: the distance to the next multiple.
abbrev pub align_offset : (addr align_to : ℕ) → ℕ
align_offset addr align_to = (align_to - addr % align_to) % align_to

unfoldable pub align : (align_to : ℕ) → Read (Unit {0})
unfolding advance
align align_to s = advance (align_offset s.addr align_to) s

peek_array : (n : ℕ) → Slice → Option (List ℕ)
unfolding ensure
peek_array n s = elim ((ensure n s).0) [ none ↦ none | some _ ↦ some (take n s.bytes) ]

unfoldable pub read_array : (n : ℕ) → Read (List ℕ)
unfolding peek_array
read_array n s = elim (peek_array n s) [
  | none ↦ (none, s)
  | some array ↦ (some array, slice (s.addr + n) (drop n s.bytes))
]

-- The text in front of the NUL. `CStr::from_bytes_with_nul` cannot fail on bytes that are cut
-- behind their first NUL.
unfoldable pub read_cstr : Read (List ℕ)
unfolding position read_slice
read_cstr s = elim (position (λ byte. byte == 0) s.bytes) [
  | none ↦ (none, s)
  | some idx ↦ ◌>>=◌ (read_slice (idx + 1)) (λ text. pure (take idx text.bytes)) s
]

-- An integer in memory, on a little-endian host.
unfoldable pub from_le_bytes : List ℕ → ℕ
from_le_bytes [] = 0
from_le_bytes (b ∷ bs) = b + 256 * from_le_bytes bs

-- `read_pod` of an unsigned integer of `size` bytes.
unfoldable pub read_pod : (size : ℕ) → Read ℕ
unfolding read_slice from_le_bytes
read_pod size = do part ← read_slice size; pure (from_le_bytes part.bytes)

unfoldable pub read_u8 : Read ℕ
unfolding read_pod
read_u8 = read_pod 1

unfoldable pub read_u16 : Read ℕ
unfolding read_pod
read_u16 = read_pod 2

unfoldable pub read_u32 : Read ℕ
unfolding read_pod
read_u32 = read_pod 4

unfoldable pub read_u64 : Read ℕ
unfolding read_pod
read_u64 = read_pod 8

abbrev pub usize_max : ℕ
usize_max = 2 ^ 64 - 1

-- `usize::checked_mul`.
abbrev pub checked_mul : ℕ → ℕ → Option ℕ
checked_mul a b = if leb (a * b) usize_max then some (a * b) else none

-- `read_pod_slice_ref::<T>`, for `T` of `size` bytes that wants its addresses to be multiples of
-- `align_of`. The slice is read before its alignment is tested.
unfoldable pub read_pod_slice_ref : (size align_of count : ℕ) → Read Slice
unfolding read_slice
read_pod_slice_ref size align_of count = do
  len ← lift (checked_mul size count)
  part ← read_slice len
  lift (if align_offset part.addr align_of == 0 then some part else none)

-- `read_pod_ref::<T>`.
unfoldable pub read_pod_ref : (size align_of : ℕ) → Read Slice
unfolding read_slice
read_pod_ref size align_of = do
  part ← read_slice size
  lift (if align_offset part.addr align_of == 0 then some part else none)

-- The elements of a slice of plain data: `count` blocks of `size` bytes.
unfoldable pub chunks : (size count : ℕ) → List ℕ → List (List ℕ)
chunks size zero bytes = []
chunks size (suc count) bytes = take size bytes ∷ chunks size count (drop size bytes)

-- `data.get(offset..)`.
unfoldable pub get_from : (offset : ℕ) → Slice → Option Slice
get_from offset s =
    if leb offset (length s.bytes)
    then some (slice (s.addr + offset) (drop offset s.bytes))
    else none

-- The integer of `size` bytes at `offset` of a packed struct.
unfoldable pub field : (offset size : ℕ) → List ℕ → ℕ
unfolding from_le_bytes
field offset size bytes = from_le_bytes (take size (drop offset bytes))
