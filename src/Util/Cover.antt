-- ===== src/Util/Cover.antt =====
-- The search for what covers an address, which `PerfMap::find_sym` (src/perf_map.rs) and
-- `Function::find_line` and `SymbolFile::find_function` (src/breakpad/types.rs) share, over what has a
-- start and a size.
pub mod Find
pub mod Complete
use blazesym.Common.{
  ℕ, ◌+◌, ◌%◌, ◌^◌, Bool, ◌&&◌, ◌||◌, Option, none, some, List, [], ◌∷◌, ltb, leb, ◌==◌,
  if◌then◌else◌, drop,
}
use blazesym.Util.Order.{nat_ord}
use blazesym.Util.Search.{find_match_or_lower_bound_by_key}

module _ {A : Type 0} (start size : A → ℕ) where
  -- The end of a function wraps, as overflow checks are off in the release profile.
  abbrev pub covers : A → (addr : ℕ) → Bool
  covers f addr =
      (start f) == addr && (size f) == 0
      || leb (start f) addr && ltb addr ((start f + (size f)) % 2 ^ 64)

  -- `for function in &self.items[idx..]`.
  unfoldable pub scan : List A → (addr : ℕ) → Option A
  scan [] addr = none
  scan (f ∷ fs) addr =
      let rest = scan fs addr in
      if ltb addr (start f) then none else if covers f addr then some f else rest

  unfoldable pub find_covering : List A → (addr : ℕ) → Option A
  unfolding scan
  find_covering items addr = elim (find_match_or_lower_bound_by_key (λ l. (start l)) items addr) [
    | none ↦ none
    | some idx ↦ scan (drop idx items) addr
  ]
