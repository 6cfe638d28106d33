-- ===== src/Elf/Backend.antt =====
-- `BackendImpl` of src/elf/parser.rs for memory mapped data. The data is a `Slice`; plain data that
-- is read is its bytes.
use blazesym.Common.{ℕ, List}
use blazesym.Common.Outcome.{Outcome, ok, ◌>>=◌, ok_or_invalid_data, unwrap}
use blazesym.Util.Slice.{Slice, get_from, read_pod_ref, read_pod_slice_ref}

-- `size` and `align_of` are those of the type.
unfoldable pub read_pod_obj : (size align_of offset : ℕ) → Slice → Outcome (List ℕ)
unfolding get_from read_pod_ref
read_pod_obj size align_of offset mmap = do
  rest ← ok_or_invalid_data (get_from offset mmap)
  value ← ok_or_invalid_data ((read_pod_ref size align_of rest).0)
  ok value.bytes

-- An offset behind the end panics.
unfoldable pub read_pod_slice : (size align_of offset count : ℕ) → Slice → Outcome Slice
unfolding get_from read_pod_slice_ref
read_pod_slice size align_of offset count mmap = do
  rest ← unwrap (get_from offset mmap)
  ok_or_invalid_data ((read_pod_slice_ref size align_of count rest).0)
