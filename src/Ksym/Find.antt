-- ===== src/Ksym/Find.antt =====
-- What the resolver of src/kernel/ksym.rs finds for an address.
use blazesym.Common.{
  ℕ, ◌≤◌, ◌<◌, ◌≡◌, refl, sym, false, Option, none, some, List, [], ◌∷◌, get_elem?, if◌then◌else◌,
  ltb→le, ltb→lt, le→ltb,
}
use blazesym.Common.Outcome.{ok, ok-injective, >>=-eq-ok}
use blazesym.Util.Order.{nat_ord}
use blazesym.Util.Search.{find_match_or_lower_bound_by_key}
use blazesym.Util.Search.LowerBound.{IsSortedBy, IsLowerBound, find_match_or_lower_bound_by_key_lem}
use blazesym.Util.Sort.{sort_by_key-IsSortedBy}
use blazesym.Util.Text.{lines}
use blazesym.Symbolize.{missing_syms, unknown_addr}
use blazesym.Ksym.{Ksym, Lookup, hit, miss, load_lines, load_from_reader, find_ksym, is_empty}

abbrev pub addr_of : Ksym → ℕ
addr_of sym = sym.addr

-- What `find_ksym` is to answer: a symbol with the greatest address that is not above `addr`.
-- Without one it is `UnknownAddr`, unless there are no symbols at all: then `MissingSyms`.
abbrev pub IsAnswer : List Ksym → (addr : ℕ) → Lookup → Type 0
IsAnswer syms addr (hit sym) =
    ((i : ℕ) × (get_elem? syms i ≡ some sym))
    × (sym.addr ≤ addr)
    × ((j : ℕ) (other : Ksym)
        → get_elem? syms j ≡ some other
        → other.addr ≤ addr
        → other.addr ≤ sym.addr)
IsAnswer syms addr (miss missing_syms) = syms ≡ []
IsAnswer syms addr (miss unknown_addr) =
    (is_empty syms ≡ false)
    × ((j : ℕ) (other : Ksym) → get_elem? syms j ≡ some other → addr < other.addr)
IsAnswer syms addr (miss other) = ⊥

IsAnswer-missed :
    (syms : List Ksym) (addr : ℕ)
    → ((j : ℕ) (other : Ksym) → get_elem? syms j ≡ some other → addr < other.addr)
    → IsAnswer syms addr (if is_empty syms then miss missing_syms else miss unknown_addr)
IsAnswer-missed [] addr h = refl
IsAnswer-missed (s ∷ ss) addr h = (refl, h)

find_ksym-IsAnswer :
    (syms : List Ksym) (addr : ℕ)
    → IsSortedBy addr_of syms
    → IsAnswer syms addr (find_ksym syms addr)
unfolding find_ksym
find_ksym-IsAnswer syms addr sorted =
    of (find_match_or_lower_bound_by_key addr_of syms addr) refl
      (find_match_or_lower_bound_by_key_lem addr_of syms sorted addr)
  where
    of :
        (idx? : Option ℕ)
        → find_match_or_lower_bound_by_key addr_of syms addr ≡ idx?
        → IsLowerBound addr_of syms addr idx?
        → IsAnswer syms addr (find_ksym syms addr)
    of none e above =
        rw (e, find_ksym)
          (IsAnswer-missed syms addr (λ j other at. ltb→lt addr other.addr (above j other at)))
    of (some idx) e (sym, at, below, most, rest) =
        rw (e, at, find_ksym)
          (
            (idx, at),
            ltb→le addr sym.addr below,
            λ j other at_j small.
                ltb→le sym.addr other.addr (most j other at_j (le→ltb addr other.addr small)),
          )

-- What `load_from_reader` leaves is sorted by address.
load_from_reader-IsSortedBy :
    (text : List ℕ) (syms : List Ksym) → load_from_reader text ≡ ok syms → IsSortedBy addr_of syms
unfolding load_from_reader
load_from_reader-IsSortedBy text syms h =
    let (loaded, at, e) = >>=-eq-ok (load_lines (lines text)) _ h in
    rw (ok-injective e) at (sort_by_key-IsSortedBy addr_of loaded)

-- For the symbols that were loaded from a text of /proc/kallsyms, `find_ksym` answers with one of
-- the symbols, with the greatest address that is not above the one asked for. Where all addresses
-- are above it the answer is `UnknownAddr`, and where there are no symbols at all it is
-- `MissingSyms`.
pub find_ksym-load_from_reader :
    (text : List ℕ) (syms : List Ksym) (addr : ℕ)
    → load_from_reader text ≡ ok syms
    → IsAnswer syms addr (find_ksym syms addr)
find_ksym-load_from_reader text syms addr h =
    find_ksym-IsAnswer syms addr (load_from_reader-IsSortedBy text syms h)
