-- ===== src/Examples/Tables.antt =====
-- The kernel symbols of src/kernel/ksym.rs and the functions of src/perf_map.rs at concrete inputs.
use blazesym.Common.{
  ℕ, zero, suc, ◌+◌, ◌<◌, ◌⊎◌, ◌%◌, ◌^◌, ◌≡◌, ◌≢◌, false, refl, ◌≤◌, some, List, [], ◌∷◌, ◌++◌,
  get_elem?, arith, none,
}
use blazesym.Common.Outcome.{ok}
use blazesym.Util.Order.{nat_ord, bytes_lt, pair_lt}
use blazesym.Util.Search.{find_match_or_lower_bound_by_key}
use blazesym.Util.Search.LowerBound.{IsSortedBy}
use blazesym.Util.Sort.{IsAscending→IsSortedBy, sort_by_key}
use blazesym.Util.Text.{split, lines, split_ascii_whitespace, from_str_radix_16}
use blazesym.Util.Utf8.{is_utf8}
use blazesym.Ksym.{Ksym, hit, load_from_reader, find_ksym, find_addr, sym_info}
use blazesym.Ksym.Name.{find_addr_complete, find_addr-ne-nil}
use blazesym.Inspect.{FindAddrOpts, variable, undefined}
use blazesym.Ksym.Find.{IsAnswer, find_ksym-load_from_reader}
use blazesym.PerfMap.{Function, start_of, size_of, find_function, parse_perf_map}
use blazesym.Util.Cover.Complete.{NoWrap}
use blazesym.PerfMap.Complete.{find_function-parse_perf_map}
use blazesym.Util.Bytes.{split_bytes}
use blazesym.PerfMap.Find.{find_function-some}

-- "b0 T g", "0 T z" and "a0 t f"
abbrev kallsyms : List ℕ
kallsyms =
    (b'b' ∷ b'0' ∷ b' ' ∷ b'T' ∷ b' ' ∷ b'g' ∷ 10 ∷ [])
    ++ ((b'0' ∷ b' ' ∷ b'T' ∷ b' ' ∷ b'z' ∷ 10 ∷ [])
        ++ (b'a' ∷ b'0' ∷ b' ' ∷ b't' ∷ b' ' ∷ b'f' ∷ 10 ∷ []))

abbrev f : Ksym
f = record { addr = 0xa0; name = b'f' ∷ [] }

abbrev g : Ksym
g = record { addr = 0xb0; name = b'g' ∷ [] }

loaded : load_from_reader kallsyms ≡ ok (f ∷ g ∷ [])
unfolding load_from_reader lines split_ascii_whitespace from_str_radix_16 is_utf8 sort_by_key
loaded = refl

find_ksym-load_from_reader_example : IsAnswer (f ∷ g ∷ []) 0xa8 (hit f)
unfolding find_ksym find_match_or_lower_bound_by_key
find_ksym-load_from_reader_example = find_ksym-load_from_reader kallsyms (f ∷ g ∷ []) 0xa8 loaded

abbrev any_kind : FindAddrOpts
any_kind = record { offset_in_file = false; sym_type = undefined }

undefined-ne-variable : undefined ≢ variable
undefined-ne-variable e = cc

find_addr_complete_example :
    (p : ℕ) × (get_elem? (find_addr (f ∷ g ∷ []) (b'g' ∷ []) any_kind) p ≡ some (sym_info g))
find_addr_complete_example =
    find_addr_complete (f ∷ g ∷ []) (b'g' ∷ []) any_kind 1 g undefined-ne-variable refl refl

-- there is no "h"
find_addr-ne-nil_example : find_addr (f ∷ g ∷ []) (b'h' ∷ []) any_kind ≢ []
unfolding bytes_lt
find_addr-ne-nil_example =
    find_addr-ne-nil (f ∷ g ∷ []) (b'h' ∷ []) any_kind 1 g undefined-ne-variable refl refl

abbrev stub : Function
stub = record { name = b's' ∷ []; addr = 0x100; size = 0 }

abbrev jit : Function
jit = record { name = b'j' ∷ []; addr = 0x100; size = 0x20 }

functions-IsSortedBy : IsSortedBy start_of (stub ∷ jit ∷ [])
functions-IsSortedBy = IsAscending→IsSortedBy start_of (stub ∷ jit ∷ []) ((refl, tt), (tt, tt))

find_jit : find_function (stub ∷ jit ∷ []) 0x110 ≡ some jit
unfolding find_function find_match_or_lower_bound_by_key
find_jit = refl

find_function-some_example :
    (i : ℕ) × (get_elem? (stub ∷ jit ∷ []) i ≡ some jit)
    × (((jit.addr ≡ 0x110) × (jit.size ≡ 0))
        ⊎ ((jit.addr ≤ 0x110) × (0x110 < (jit.addr + jit.size) % 2 ^ 64)))
    × ((j : ℕ) (other : Function)
        → get_elem? (stub ∷ jit ∷ []) j ≡ some other
        → other.addr ≤ 0x110
        → other.addr ≤ jit.addr)
find_function-some_example =
    find_function-some (stub ∷ jit ∷ []) 0x110 jit functions-IsSortedBy find_jit

-- "100 20 j" and "100 0 s"
abbrev perf_text : List ℕ
perf_text =
    (b'1' ∷ b'0' ∷ b'0' ∷ b' ' ∷ b'2' ∷ b'0' ∷ b' ' ∷ b'j' ∷ 10 ∷ [])
    ++ (b'1' ∷ b'0' ∷ b'0' ∷ b' ' ∷ b'0' ∷ b' ' ∷ b's' ∷ 10 ∷ [])

perf_parsed : parse_perf_map perf_text ≡ ok (stub ∷ jit ∷ [])
unfolding parse_perf_map split_bytes split from_str_radix_16 is_utf8 sort_by_key pair_lt
perf_parsed = refl

perf-NoWrap : NoWrap start_of size_of (stub ∷ jit ∷ [])
perf-NoWrap zero k h = let e : stub ≡ k = cc in rw (← e) (omega arith)
perf-NoWrap (suc zero) k h = let e : jit ≡ k = cc in rw (← e) (omega arith)
perf-NoWrap (suc (suc j)) k h = cc

perf_closest :
    (j : ℕ) (k : Function)
    → get_elem? (stub ∷ jit ∷ []) j ≡ some k
    → k.addr ≤ 0x110
    → k.addr ≤ jit.addr
perf_closest zero k h le = let e : stub ≡ k = cc in rw (← e) (omega arith)
perf_closest (suc zero) k h le = let e : jit ≡ k = cc in rw (← e) (omega arith)
perf_closest (suc (suc j)) k h le = cc

find_function-parse_perf_map_example : find_function (stub ∷ jit ∷ []) 0x110 ≢ none
find_function-parse_perf_map_example =
    find_function-parse_perf_map perf_text (stub ∷ jit ∷ []) 0x110 1 jit perf_parsed perf-NoWrap
      refl refl perf_closest
