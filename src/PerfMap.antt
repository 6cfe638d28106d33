-- ===== src/PerfMap.antt =====
-- src/perf_map.rs: the functions that a just-in-time compiler reports in /tmp/perf-<pid>.map.
pub mod Find
pub mod Complete
use blazesym.Common.{
  ℕ, ◌+◌, ◌%◌, ◌^◌, Bool, true, false, ◌&&◌, ◌||◌, Option, none, some, List, [], ◌∷◌, ◌++◌, ltb,
  leb, ◌==◌, if◌then◌else◌, drop,
}
use blazesym.Common.Outcome.{Outcome, ok, err, ◌>>=◌, ok_or_invalid_data, invalid_data}
use blazesym.Util.Bytes.{split_bytes, is_ascii_whitespace}
use blazesym.Util.Text.{split, keep_filled, from_str_radix_16, to_decimal}
use blazesym.Util.Utf8.{is_utf8, from_utf8}
use blazesym.Util.Order.{nat_ord, pair_ord}
use blazesym.Util.Cover.{find_covering}
use blazesym.Util.Sort.{sort_by_key}
use blazesym.Symbolize.{ResolvedSym, Found, found, not_found, unknown, unknown_addr}

pub record Function : Type 0 where
  pub name : List ℕ
  pub addr : ℕ
  pub size : ℕ

-- A hexadecimal component of a line.
parse_component : List ℕ → Outcome ℕ
parse_component text = from_utf8 text >>= λ digits. ok_or_invalid_data (from_str_radix_16 digits)

split_component : List ℕ → Outcome (List ℕ × List ℕ)
split_component line = ok_or_invalid_data (split_bytes line (λ b. is_ascii_whitespace b))

-- START SIZE symbolname
parse_perf_map_line : List ℕ → Outcome Function
unfolding parse_component split_component
parse_perf_map_line full_line = do
  (addr_slice, line) ← split_component full_line
  addr ← parse_component addr_slice
  (size_slice, symbol_slice) ← split_component line
  size ← parse_component size_slice
  symbol ← from_utf8 symbol_slice
  ok (record { name = symbol; addr = addr; size = size })

-- `map(..).collect::<Result<Vec<_>>>()`: up to the first error.
pub parse_lines : List (List ℕ) → Outcome (List Function)
unfolding parse_perf_map_line
parse_lines [] = ok []
parse_lines (line ∷ rest) = do
  function ← parse_perf_map_line line
  functions ← parse_lines rest
  ok (function ∷ functions)

abbrev pub sort_key : Function → ℕ × ℕ
sort_key f = (f.addr, f.size)

abbrev pub is_line_end : ℕ → Bool
is_line_end b = b == 0x0a || b == 0x0d

unfoldable pub parse_perf_map : List ℕ → Outcome (List Function)
unfolding parse_lines
parse_perf_map bytes = parse_lines (keep_filled (split is_line_end bytes)) >>= λ functions.
    ok (sort_by_key sort_key functions)

-- `PerfMap::path`, for a process whose number is resolved.
unfoldable pub path : (pid : ℕ) → List ℕ
path pid =
    b'/'
    ∷ b't'
    ∷ b'm'
    ∷ b'p'
    ∷ b'/'
    ∷ b'p'
    ∷ b'e'
    ∷ b'r'
    ∷ b'f'
    ∷ b'-'
    ∷ (to_decimal pid ++ (b'.' ∷ b'm' ∷ b'a' ∷ b'p' ∷ []))

abbrev pub resolved : Function → ResolvedSym
resolved f = record {
  name = f.name;
  addr = f.addr;
  size = some f.size;
  lang = unknown;
  code_info = none;
  inlined = [];
}

abbrev pub start_of : Function → ℕ
start_of f = f.addr

abbrev pub size_of : Function → ℕ
size_of f = f.size

unfoldable pub find_function : List Function → (addr : ℕ) → Option Function
unfolding find_covering
find_function functions addr = find_covering start_of size_of functions addr

unfoldable pub find_sym : List Function → (addr : ℕ) → Outcome Found
unfolding find_function
find_sym functions addr = elim (find_function functions addr) [
  | none ↦ ok (not_found unknown_addr)
  | some f ↦ ok (found (resolved f))
]
