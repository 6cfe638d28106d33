-- ===== src/PerfMap/Find.antt =====
-- What `PerfMap::find_sym` of src/perf_map.rs finds.
use blazesym.Common.{ℕ, ◌+◌, ◌≤◌, ◌<◌, ◌≡◌, ◌⊎◌, ◌%◌, ◌^◌, some, List, get_elem?}
use blazesym.Util.Order.{nat_ord}
use blazesym.Util.Search.LowerBound.{IsSortedBy}
use blazesym.Util.Cover.Find.{find_covering-some}
use blazesym.PerfMap.{Function, start_of, size_of, find_function}

-- In a list of functions that is sorted by start address, a function that is found for an address
-- is one of the list, starts at the address and has no size or has the address between its start
-- and its end, which wraps, and no function of the list that starts at the address or in front of
-- it starts behind the one that is found.
pub find_function-some :
    (functions : List Function) (addr : ℕ) (f : Function)
    → IsSortedBy (λ (l : Function). l.addr) functions
    → find_function functions addr ≡ some f
    → (i : ℕ) × (get_elem? functions i ≡ some f)
      × (((f.addr ≡ addr) × (f.size ≡ 0)) ⊎ ((f.addr ≤ addr) × (addr < (f.addr + f.size) % 2 ^ 64)))
      × ((j : ℕ) (g : Function) → get_elem? functions j ≡ some g → g.addr ≤ addr → g.addr ≤ f.addr)
unfolding find_function
find_function-some functions addr f sorted h =
    find_covering-some start_of size_of functions addr f sorted h
