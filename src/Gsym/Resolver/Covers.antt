-- ===== src/Gsym/Resolver/Covers.antt =====
-- A symbol that `find_sym` returns covers the address that was asked for.
use blazesym.Common.{
  ℕ, ◌+◌, ◌%◌, ◌^◌, ◌≤◌, ◌<◌, ◌≡◌, ◌⊎◌, inl, inr, false, Option, none, some, List, [], ◌∷◌, arith,
  ltb, Bool-cases, Option-cases, ltb→le,
}
use blazesym.Common.Outcome.{ok, ok_or_invalid_data, >>=-eq-ok}
use blazesym.Symbolize.{FindSymOpts, wants_code_info, CodeInfo, ResolvedSym, found}
use blazesym.Gsym.Types.{AddrInfo}
use blazesym.Gsym.Inline.{InlineInfo}
use blazesym.Gsym.Parser.{GsymContext, find_addr, addr_at, addr_info, parse_address_data}
use blazesym.Gsym.Resolver.{
  gather, fill_inlined, push_frames, utf8_str, query_frame_code_info, fill_code_info, stack_of,
  is_past, find_sym, info_name, resolve_entry,
}

-- Code information leaves a symbol's place alone.
abbrev SamePlace : ResolvedSym → ResolvedSym → Type 0
SamePlace s t = (t.addr ≡ s.addr) × (t.size ≡ s.size)

fill_inlined-SamePlace :
    (ctx : GsymContext) (stack : List InlineInfo) (sym : ResolvedSym) (line_info : CodeInfo)
    (sym' : ResolvedSym)
    → fill_inlined ctx stack sym line_info ≡ ok sym'
    → SamePlace sym sym'
unfolding fill_inlined
fill_inlined-SamePlace ctx [] sym line_info sym' h = ground (arith, h)
fill_inlined-SamePlace ctx (first ∷ rest) sym line_info sym' h =
    let (name, hn, h') = >>=-eq-ok (utf8_str ctx (info_name first)) _ h in
    let (frames, hf, h'') =
      >>=-eq-ok (push_frames ctx rest (record { inlined = []; line_info = line_info })) _ h' in
    ground (arith, h'')

fill_code_info-SamePlace :
    (ctx : GsymContext) (sym : ResolvedSym) (addr : ℕ) (opts : FindSymOpts) (sym_addr : ℕ)
    (info : AddrInfo) (sym' : ResolvedSym)
    → fill_code_info ctx sym addr opts sym_addr info ≡ ok sym'
    → SamePlace sym sym'
unfolding fill_code_info
fill_code_info-SamePlace ctx sym addr opts sym_addr info sym' h =
    elim (Bool-cases (wants_code_info opts)) [
      | inr f ↦ ground (arith, h, f)
      | inl t ↦
          let (g, hg, h') =
            >>=-eq-ok (gather opts sym_addr addr (parse_address_data info.content) _) _
              (rw t at h) in
          elim (Option-cases (g.line_tab_info)) [
            | inl e ↦ ground (arith, rw e at h')
            | inr (row, e) ↦
                let (line_info, hl, h'') =
                  >>=-eq-ok (query_frame_code_info ctx row.file_idx (some row.file_line)) _
                    (rw e at h') in
                fill_inlined-SamePlace ctx (stack_of g.inline_tree addr) sym line_info sym' h''
          ]
    ]

-- the address lies at the symbol's start or behind it, and in front of its end, if it has a size
abbrev pub IsCovered : (addr : ℕ) → ResolvedSym → Type 0
IsCovered addr sym =
    (sym.addr ≤ addr)
    × (size : ℕ) × (sym.size ≡ some size)
    × ((size ≡ 0) ⊎ (addr < (sym.addr + size) % 2 ^ 64))

is_past-cases :
    (addr sym_addr size : ℕ)
    → is_past addr sym_addr size ≡ false
    → (size ≡ 0) ⊎ (addr < (sym_addr + size) % 2 ^ 64)
is_past-cases addr sym_addr size h = ground arith

resolve_entry-place :
    (ctx : GsymContext) (addr : ℕ) (opts : FindSymOpts) (sym_addr : ℕ) (info : AddrInfo)
    (sym : ResolvedSym)
    → resolve_entry ctx addr opts sym_addr info ≡ ok (found sym)
    → (sym.addr ≡ sym_addr) × (sym.size ≡ some info.size)
unfolding resolve_entry
resolve_entry-place ctx addr opts sym_addr info sym h =
    let (name, hn, h') = >>=-eq-ok (utf8_str ctx info.name) _ h in
    let (sym', hs, h'') = >>=-eq-ok (fill_code_info ctx _ addr opts sym_addr info) _ h' in
    ground (arith, h'', fill_code_info-SamePlace ctx _ addr opts sym_addr info sym' hs)

ok_or_invalid_data-some :
    {A : Type 0} (o : Option A) (a : A) → ok_or_invalid_data o ≡ ok a → o ≡ some a
ok_or_invalid_data-some none a h = cc
ok_or_invalid_data-some (some b) a h = cc

-- The entry of the address table that a symbol is made of, and that it covers the address.
abbrev pub IsEntryAround : GsymContext → (addr : ℕ) → ResolvedSym → Type 0
IsEntryAround ctx addr sym =
    IsCovered addr sym
    × (idx : ℕ) × (find_addr ctx addr ≡ some idx)
    × (addr_at ctx idx ≡ some sym.addr)

assemble :
    (ctx : GsymContext) (addr idx sym_addr size : ℕ) (sym : ResolvedSym)
    → find_addr ctx addr ≡ some idx
    → addr_at ctx idx ≡ some sym_addr
    → ltb addr sym_addr ≡ false
    → is_past addr sym_addr size ≡ false
    → (sym.addr ≡ sym_addr) × (sym.size ≡ some size)
    → IsEntryAround ctx addr sym
assemble ctx addr idx sym_addr size sym e ha lo hi (pa, ps) = (
  (omega (arith, ltb→le addr sym_addr lo), size, ps, rw pa (is_past-cases addr sym_addr size hi)),
  idx,
  e,
  rw pa ha,
)

-- A symbol that the Gsym resolver's `find_sym` returns starts at the address asked for or in front
-- of it; it has a size, and that is zero or the address is in front of the symbol's wrapped end.
-- The symbol starts at the address of the table entry that `find_addr` points to.
pub find_sym-IsEntryAround :
    (ctx : GsymContext) (addr : ℕ) (opts : FindSymOpts) (sym : ResolvedSym)
    → find_sym ctx addr opts ≡ ok (found sym)
    → IsEntryAround ctx addr sym
unfolding find_sym
find_sym-IsEntryAround ctx addr opts sym h = elim (Option-cases (find_addr ctx addr)) [
  | inl e ↦ cc (rw (e, find_sym) at h)
  | inr (idx, e) ↦
      let (sym_addr, ha, h1) =
        >>=-eq-ok (ok_or_invalid_data (addr_at ctx idx)) _ (rw (e, find_sym) at h) in
      let at : addr_at ctx idx ≡ some sym_addr =
        ok_or_invalid_data-some (addr_at ctx idx) sym_addr ha in
      elim (Bool-cases (ltb addr sym_addr)) [
        | inl t ↦ cc (rw t at h1)
        | inr t ↦
            let (info, hi, h2) =
              >>=-eq-ok (ok_or_invalid_data (addr_info ctx idx)) _ (rw t at h1) in
            elim (Bool-cases (is_past addr sym_addr info.size)) [
              | inl u ↦ cc (rw u at h2)
              | inr u ↦
                  assemble ctx addr idx sym_addr info.size sym e at t u
                    (resolve_entry-place ctx addr opts sym_addr info sym (rw u at h2))
            ]
      ]
]
