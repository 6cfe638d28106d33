-- ===== src/PerfMap/Complete.antt =====
-- When `PerfMap::find_sym` of src/perf_map.rs finds a function.
use blazesym.Common.{ℕ, ◌≤◌, ◌≡◌, ◌≢◌, true, none, some, List, get_elem?}
use blazesym.Common.Outcome.{ok, ok-injective, >>=-eq-ok}
use blazesym.Util.Order.{nat_ord, pair_ord}
use blazesym.Util.Search.LowerBound.{IsSortedBy}
use blazesym.Util.Sort.{sort_by_key-IsSortedBy}
use blazesym.Util.Text.{keep_filled, split}
use blazesym.Util.Cover.{covers}
use blazesym.Util.Cover.Complete.{NoWrap, find_covering_complete}
use blazesym.PerfMap.{
  Function, start_of, size_of, sort_key, find_function, parse_lines, is_line_end, parse_perf_map,
}

parse_perf_map-IsSortedBy :
    (text : List ℕ) (functions : List Function)
    → parse_perf_map text ≡ ok functions
    → IsSortedBy sort_key functions
unfolding parse_perf_map
parse_perf_map-IsSortedBy text functions h =
    let (parsed, at, e) = >>=-eq-ok (parse_lines (keep_filled (split is_line_end text))) _ h in
    rw (ok-injective e) at (sort_by_key-IsSortedBy sort_key parsed)

-- For the functions that were parsed from a perf map, where no function's end wraps: if one of them
-- covers the address and none that starts at the address or in front of it starts behind that one,
-- then a function is found.
pub find_function-parse_perf_map :
    (text : List ℕ) (functions : List Function) (addr i : ℕ) (f : Function)
    → parse_perf_map text ≡ ok functions
    → NoWrap start_of size_of functions
    → get_elem? functions i ≡ some f
    → covers start_of size_of f addr ≡ true
    → ((j : ℕ) (g : Function) → get_elem? functions j ≡ some g → g.addr ≤ addr → g.addr ≤ f.addr)
    → find_function functions addr ≢ none
unfolding find_function
find_function-parse_perf_map text functions addr i f h =
    find_covering_complete start_of size_of functions addr i f
      (parse_perf_map-IsSortedBy text functions h)
