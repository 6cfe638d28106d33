-- ===== src/Examples/Normalizing.antt =====
-- src/normalize/user.rs at concrete inputs.
use blazesym.Common.{ℕ, ◌≡◌, Option, false, none, some, List, [], ◌∷◌, map, arith}
use blazesym.Common.Outcome.{ok}
use blazesym.Maps.{MapsEntry, path}
use blazesym.Normalize.{
  NormalizationHandler, Handler, new_handler, user_handler,
  normalize_sorted_user_addrs_with_entries, normalize_user_addrs_impl, normalize_user_addrs_opts,
}
use blazesym.Normalize.Walk.{
  IsAscendingFrom, handle_each, normalize_sorted_user_addrs_with_entries-handle_each,
}
use blazesym.Normalize.View.{IsWellFormed, view}
use blazesym.Normalize.Refinement.{answer, normalize_user_addrs_impl-view}
use blazesym.Normalize.Unsorted.{normalize_user_addrs_opts-view}

-- a file's code, and memory without a file
abbrev code : MapsEntry
code = record {
  start = 16;
  end = 32;
  perm = 5;
  offset = 64;
  path_name = some (path (record { maps_file = b'm' ∷ []; symbolic_path = b'p' ∷ [] }));
  build_id = none;
}

abbrev heap : MapsEntry
heap = record { start = 48; end = 64; perm = 6; offset = 0; path_name = none; build_id = none }

abbrev addrs : List ℕ
addrs = 20 ∷ 40 ∷ 50 ∷ 80 ∷ []

abbrev no_bytes : List ℕ → Option (List ℕ)
no_bytes p = none

addrs-IsAscendingFrom : IsAscendingFrom 20 addrs
addrs-IsAscendingFrom = (omega arith, (omega arith, (omega arith, (omega arith, tt))))

abbrev handler : Handler NormalizationHandler
handler = user_handler no_bytes no_bytes false

normalize_sorted_user_addrs_with_entries-handle_each_example :
    normalize_sorted_user_addrs_with_entries handler addrs (map ok (code ∷ heap ∷ [])) new_handler
    ≡ handle_each handler (code ∷ heap ∷ []) addrs new_handler
normalize_sorted_user_addrs_with_entries-handle_each_example =
    normalize_sorted_user_addrs_with_entries-handle_each handler addrs code (heap ∷ []) new_handler
      addrs-IsAscendingFrom

normalize_user_addrs_impl-view_example :
    (h : NormalizationHandler) × (normalize_user_addrs_impl no_bytes no_bytes false addrs
        (map ok (code ∷ heap ∷ []))
      ≡ ok h)
    × IsWellFormed h
    × (view h ≡ map (answer no_bytes no_bytes false (code ∷ heap ∷ [])) addrs)
normalize_user_addrs_impl-view_example =
    normalize_user_addrs_impl-view no_bytes no_bytes false addrs code (heap ∷ [])
      addrs-IsAscendingFrom

abbrev unsorted : List ℕ
unsorted = 80 ∷ 20 ∷ 50 ∷ 20 ∷ []

normalize_user_addrs_opts-view_example :
    (h : NormalizationHandler) × (normalize_user_addrs_opts no_bytes no_bytes false false unsorted
        (map ok (code ∷ heap ∷ []))
      ≡ ok h)
    × IsWellFormed h
    × (view h ≡ map (answer no_bytes no_bytes false (code ∷ heap ∷ [])) unsorted)
normalize_user_addrs_opts-view_example =
    normalize_user_addrs_opts-view no_bytes no_bytes false unsorted code (heap ∷ [])
