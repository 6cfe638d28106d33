-- ===== src/Examples/Breakpads.antt =====
-- src/breakpad at concrete inputs.
use blazesym.Common.{
  ℕ, ◌≡◌, ◌≤◌, ◌<◌, ◌+◌, refl, Option, none, some, List, [], ◌∷◌, get_elem?, length,
}
use blazesym.Util.Search.{partition_point}
use blazesym.Util.Search.LowerBound.{IsSortedBy}
use blazesym.Util.Sort.{IsAscending→IsSortedBy}
use blazesym.Util.Order.{nat_ord, pair_ord, pair_lt, pair_eq}
use blazesym.Symbolize.{ResolvedSym, unknown}
use blazesym.Breakpad.{
  SourceLine, Inlinee, Function, SymbolFile, inlinee_key, find_inlinee_at_depth, find_inlinees,
  functions_named,
}
use blazesym.Breakpad.Inlinees.{find_inlinee_at_depth-some, find_inlinees_lem}
use blazesym.Breakpad.Symbols.{functions_named-IsExact}

-- two calls, one inside the other
abbrev outer : Inlinee
outer = record { depth = 0; addr = 16; size = 32; call_file = 1; call_line = 7; origin_id = 0 }

abbrev inner : Inlinee
inner = record { depth = 1; addr = 20; size = 8; call_file = 1; call_line = 9; origin_id = 0 }

abbrev line : SourceLine
line = record { addr = 16; size = 64; file = 1; line = 3 }

abbrev main : Function
main = record {
  addr = 16;
  size = 64;
  parameter_size = 0;
  name = b'm' ∷ [];
  lines = line ∷ [];
  inlinees = outer ∷ inner ∷ [];
}

abbrev file : SymbolFile
file = record {
  files = λ id. some (b'f' ∷ []);
  functions = main ∷ [];
  inline_origins = λ id. some (b'i' ∷ []);
}

inlinees-IsSortedBy : IsSortedBy inlinee_key main.inlinees
unfolding pair_lt
inlinees-IsSortedBy = IsAscending→IsSortedBy inlinee_key main.inlinees ((refl, tt), (tt, tt))

found_inner : find_inlinee_at_depth main 1 24 ≡ some inner
unfolding find_inlinee_at_depth pair_lt pair_eq partition_point
found_inner = refl

find_inlinee_at_depth-some_example :
    (p : ℕ) × (get_elem? main.inlinees p ≡ some inner)
    × (inner.depth ≡ 1)
    × (inner.addr ≤ 24)
    × (24 < inner.addr + inner.size)
    × ((j : ℕ) (other : Inlinee)
        → get_elem? main.inlinees j ≡ some other
        → other.depth ≡ 1
        → other.addr ≤ 24
        → other.addr ≤ inner.addr)
find_inlinee_at_depth-some_example =
    find_inlinee_at_depth-some main 1 24 inner inlinees-IsSortedBy found_inner

find_inlinees_lem_example :
    ((k : ℕ) (i : Inlinee)
      → get_elem? (find_inlinees main 24) k ≡ some i
      → find_inlinee_at_depth main k 24 ≡ some i)
    × (find_inlinee_at_depth main (length (find_inlinees main 24)) 24 ≡ none)
find_inlinees_lem_example = find_inlinees_lem main 24

functions_named-IsExact_example :
    ((q : ℕ) (f : Function)
      → get_elem? (functions_named file (b'm' ∷ [])) q ≡ some f
      → f.name ≡ b'm' ∷ [])
    × ((i : ℕ) (f : Function)
        → get_elem? file.functions i ≡ some f
        → f.name ≡ b'm' ∷ []
        → (q : ℕ) × (get_elem? (functions_named file (b'm' ∷ [])) q ≡ some f))
functions_named-IsExact_example = functions_named-IsExact file (b'm' ∷ [])

-- a path without directories
abbrev whole_path : List ℕ → Option (List ℕ × List ℕ)
whole_path path = some ([], path)

abbrev resolved : ResolvedSym
resolved = record {
  name = b'm' ∷ [];
  addr = 16;
  size = some 64;
  lang = unknown;
  code_info = none;
  inlined = [];
}
