-- ===== src/Breakpad/Resolver.antt =====
-- `BreakpadResolver` of src/breakpad/resolver.rs. Paths are split by `Path::components` of the standard
-- library: `last_component` is a path's last component behind the path in front of it.
use blazesym.Common.{ℕ, sym, Bool, true, false, Option, none, some, List, [], ◌∷◌, if◌then◌else◌}
use blazesym.Common.Outcome.{Outcome, ok, ◌>>=◌, ok_or_invalid_input}
use blazesym.Symbolize.{
  FindSymOpts, wants_code_info, wants_inlined_fns, CodeInfo, ResolvedSym, Found, found, not_found,
  unknown, missing_syms, unknown_addr,
}
use blazesym.Gsym.Resolver.{Frames, push_frame}
use blazesym.Gsym.Resolver.Inlined.{Read}
use blazesym.Breakpad.{Inlinee, Function, SymbolFile, find_line, find_inlinees, find_function}

abbrev pub no_functions : SymbolFile → Bool
no_functions file = elim (file.functions) [ [] ↦ true | f ∷ fs ↦ false ]

abbrev pub filled_path : List ℕ → Option (List ℕ)
filled_path [] = none
filled_path (b ∷ bs) = some (b ∷ bs)

module _ (last_component : List ℕ → Option (List ℕ × List ℕ)) (file : SymbolFile) where
  pub find_source_location : (id : ℕ) → Outcome (Option (List ℕ) × List ℕ)
  find_source_location id = do
    path ← ok_or_invalid_input (file.files id)
    (dir, name) ← ok_or_invalid_input (last_component path)
    ok (filled_path dir, name)

  pub find_inlinee_name : (origin_id : ℕ) → Outcome (List ℕ)
  find_inlinee_name origin_id = ok_or_invalid_input (file.inline_origins origin_id)

  pub code_info_at : (id line : ℕ) → Outcome CodeInfo
  unfolding find_source_location
  code_info_at id line = find_source_location id >>= λ location.
      ok (record { dir = location.0; file = location.1; line = some line; column = none })

  -- The loop over the inline stack, with the swaps of the code information.
  pub push_inlinees : List Inlinee → Frames → Outcome Frames
  unfolding find_inlinee_name code_info_at
  push_inlinees [] frames = ok frames
  push_inlinees (inlinee ∷ rest) frames = do
    name ← find_inlinee_name inlinee.origin_id
    info ← code_info_at inlinee.call_file inlinee.call_line
    push_inlinees rest (push_frame name (some info) frames)

  abbrev pub with_frames : ResolvedSym → Frames → ResolvedSym
  with_frames sym frames = record sym {
    code_info = some frames.line_info;
    inlined = frames.inlined;
  }

  unfoldable pub fill_code_info :
      ResolvedSym → (addr : ℕ) → FindSymOpts → Function → Outcome ResolvedSym
  unfolding code_info_at push_inlinees
  fill_code_info sym addr opts func = elim (find_line func addr) [
    | none ↦ ok sym
    | some source_line ↦
        let filled : Outcome ResolvedSym = do
          direct ← code_info_at source_line.file source_line.line
          frames ←
              push_inlinees (if wants_inlined_fns opts then find_inlinees func addr else [])
                (record { inlined = []; line_info = direct })
          ok (with_frames sym frames)
        in if wants_code_info opts then filled else ok sym
  ]

  unfoldable pub find_sym : (addr : ℕ) → FindSymOpts → Outcome Found
  unfolding fill_code_info
  find_sym addr opts = elim (find_function file addr) [
    | none ↦ ok (not_found (if no_functions file then missing_syms else unknown_addr))
    | some func ↦ do
      sym ←
          fill_code_info
            (record {
              name = func.name;
              addr = func.addr;
              size = some func.size;
              lang = unknown;
              code_info = none;
              inlined = [];
            })
            addr opts func
      ok (found sym)
  ]

  -- the names and call sites of the inlinees, or the first error
  abbrev pub read_inlinees : List Inlinee → Outcome (List Read)
  read_inlinees [] = ok []
  read_inlinees (inlinee ∷ rest) = do
    name ← find_inlinee_name inlinee.origin_id
    info ← code_info_at inlinee.call_file inlinee.call_line
    reads ← read_inlinees rest
    ok ((name, some info) ∷ reads)
