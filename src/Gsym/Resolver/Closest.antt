-- ===== src/Gsym/Resolver/Closest.antt =====
-- The symbol that `find_sym` returns is the closest in front of the address.
use blazesym.Common.{ℕ, ◌≤◌, ◌<◌, ◌^◌, ◌≡◌, sym, ◌∙◌, Option, some}
use blazesym.Common.Outcome.{ok}
use blazesym.Symbolize.{FindSymOpts, ResolvedSym, found}
use blazesym.Util.Order.{nat_ord}
use blazesym.Util.Search.LowerBound.{IsSortedBy}
use blazesym.Gsym.Parser.{GsymContext, addr_at}
use blazesym.Gsym.Parser.Table.{table, find_addr-IsClosest}
use blazesym.Gsym.Resolver.{find_sym}
use blazesym.Gsym.Resolver.Covers.{find_sym-IsEntryAround}

-- No entry of the table starts between the symbol and the address.
abbrev pub NoneBetween : GsymContext → (addr : ℕ) → ResolvedSym → Type 0
NoneBetween ctx addr s =
    (j other : ℕ)
    → j < ctx.header.num_addrs
    → addr_at ctx j ≡ some other
    → other ≤ addr
    → other ≤ s.addr

same_start : {a b : ℕ} → Path (Option ℕ) (some a) (some b) → a ≡ b
same_start h = cc

-- Where the address table of a Gsym file is sorted and the address has 64 bits, no entry of the
-- table starts in front of the address or at it, but behind the symbol that `find_sym` returns.
pub find_sym-NoneBetween :
    (ctx : GsymContext) (addr : ℕ) (opts : FindSymOpts) (s : ResolvedSym)
    → IsSortedBy (λ (x : ℕ). x) (table ctx)
    → addr < 2 ^ 64
    → find_sym ctx addr opts ≡ ok (found s)
    → NoneBetween ctx addr s
find_sym-NoneBetween ctx addr opts s sorted small h =
    let (covered, idx, points, at) = find_sym-IsEntryAround ctx addr opts s h in
    let (start, at_idx, le, closest) = find_addr-IsClosest ctx addr idx sorted small points in
    rw (same_start (sym at_idx ∙ at)) at closest
