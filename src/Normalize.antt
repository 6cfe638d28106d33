-- ===== src/Normalize.antt =====
-- src/normalize: the pass over sorted addresses and the entries of /proc/<pid>/maps (user.rs), the
-- handler that collects its output, and the types of meta.rs, mod.rs and normalizer.rs. The entries are
-- those of the text; the queries by ioctl are system calls.
pub mod View
pub mod Walk
pub mod Outputs
pub mod Refinement
pub mod Unsorted
pub mod BuildId
use blazesym.Common.{
  ℕ, ◌+◌, ◌-◌, ◌%◌, ◌^◌, Bool, true, false, ◌||◌, Option, none, some, List, [], ◌∷◌, ◌++◌, ltb,
  if◌then◌else◌, length,
}
use blazesym.Common.Outcome.{Outcome, ok, err, stuck, ◌>>=◌, invalid_input, unexpected_eof}
use blazesym.Util.Order.{bytes_eq}
use blazesym.Util.Reorder.{with_ordered_elems}
use blazesym.Maps.{MapsEntry, EntryPath, PathName, path, component}

pub data Reason : Type 0 where
  unmapped missing_component unsupported : Reason

-- `Elf`, `Apk` and `Unknown`.
pub data UserMeta : Type 0 where
  elf : (path : List ℕ) → (build_id : Option (List ℕ)) → UserMeta
  apk : (path : List ℕ) → UserMeta
  unknown : Reason → UserMeta

abbrev pub same_reason : Reason → Reason → Bool
same_reason unmapped unmapped = true
same_reason missing_component missing_component = true
same_reason unsupported unsupported = true
same_reason _ _ = false

-- A hash map is its lookup.
abbrev pub insert : {K V : Type 0} → (K → K → Bool) → K → V → (K → Option V) → K → Option V
insert eq key value map k = if eq key k then some value else map k

-- The handler with the `UserOutput` that it builds up.
pub record NormalizationHandler : Type 0 where
  pub outputs : List (ℕ × ℕ)
  pub meta : List UserMeta
  pub meta_lookup : List ℕ → Option ℕ
  pub unknown_cache : Reason → Option ℕ

abbrev pub new_handler : NormalizationHandler
new_handler = record { outputs = []; meta = []; meta_lookup = λ p. none; unknown_cache = λ r. none }

pub add_unknown_addr : (addr : ℕ) → Reason → NormalizationHandler → NormalizationHandler
add_unknown_addr addr reason h = elim (h.unknown_cache reason) [
  | some unknown_idx ↦ record h { outputs = h.outputs ++ ((addr, unknown_idx) ∷ []) }
  | none ↦
      let unknown_idx = length h.meta in
      record h {
        outputs = h.outputs ++ ((addr, unknown_idx) ∷ []);
        meta = h.meta ++ (unknown reason ∷ []);
        unknown_cache = insert same_reason reason unknown_idx (h.unknown_cache);
      }
]

pub add_normalized_offset :
    (file_offset : ℕ) (key : List ℕ) → UserMeta → NormalizationHandler → NormalizationHandler
add_normalized_offset file_offset key meta h = elim (h.meta_lookup key) [
  | some meta_idx ↦ record h { outputs = h.outputs ++ ((file_offset, meta_idx) ∷ []) }
  | none ↦
      let meta_idx = length h.meta in
      record h {
        outputs = h.outputs ++ ((file_offset, meta_idx) ∷ []);
        meta = h.meta ++ (meta ∷ []);
        meta_lookup = insert bytes_eq key meta_idx (h.meta_lookup);
      }
]

-- `addr - entry.range.start + entry.offset`, which wraps; the address is not in front of the start.
abbrev pub file_offset_of : (addr : ℕ) → MapsEntry → ℕ
file_offset_of addr entry = (addr - entry.start + entry.offset) % 2 ^ 64

abbrev pub is_archive : Option (List ℕ) → Bool
is_archive none = false
is_archive (some ext) =
    bytes_eq ext (b'a' ∷ b'p' ∷ b'k' ∷ []) || bytes_eq ext (b'z' ∷ b'i' ∷ b'p' ∷ [])

-- The extension of a path is that of `Path::extension`; the build ID reader answers for a path.
module _ (extension : List ℕ → Option (List ℕ)) (read_build_id : List ℕ → Option (List ℕ))
    (map_files : Bool) where
  abbrev pub path_of : EntryPath → List ℕ
  path_of entry_path = if map_files then entry_path.maps_file else entry_path.symbolic_path

  abbrev pub build_id_of : MapsEntry → (key : List ℕ) → Option (List ℕ)
  build_id_of entry key = elim (entry.build_id) [ none ↦ read_build_id key | some id ↦ some id ]

  abbrev pub meta_of : MapsEntry → EntryPath → UserMeta
  meta_of entry entry_path =
      if is_archive (extension entry_path.symbolic_path)
      then apk (path_of entry_path)
      else elf (path_of entry_path) (build_id_of entry (path_of entry_path))

  -- `NormalizationHandler::handle_entry_addr`, which does not fail.
  unfoldable pub handle_entry_addr :
      (addr : ℕ) → MapsEntry → NormalizationHandler → NormalizationHandler
  unfolding add_unknown_addr add_normalized_offset
  handle_entry_addr addr entry h = elim (entry.path_name) [
    | none ↦ add_unknown_addr addr missing_component h
    | some name ↦ elim name [
      | component text ↦ add_unknown_addr addr unsupported h
      | path entry_path ↦
          add_normalized_offset (file_offset_of addr entry) (path_of entry_path)
            (meta_of entry entry_path) h
    ]
  ]

-- The trait `Handler`, over the state that an implementation changes.
pub record Handler (S : Type 0) : Type 0 where
  pub handle_unknown_addr : (addr : ℕ) → Reason → S → S
  pub handle_entry_addr : (addr : ℕ) → MapsEntry → S → Outcome S

-- Where the entries are at an address: at one that ends behind it, or at the last one.
pub data Position : Type 0 where
  at_entry : MapsEntry → List (Outcome MapsEntry) → Position
  exhausted : MapsEntry → Position

-- `while addr >= entry.range.end`.
unfoldable pub advance : (addr : ℕ) → MapsEntry → List (Outcome MapsEntry) → Outcome Position
advance addr entry [] = if ltb addr entry.end then ok (at_entry entry []) else ok (exhausted entry)
advance addr entry (next ∷ rest) =
    if ltb addr entry.end
    then ok (at_entry entry (next ∷ rest))
    else elim next [ ok e ↦ advance addr e rest | err e ↦ err e | stuck ↦ stuck ]

-- `addrs.clone().next().unwrap_or_default()`
abbrev pub first_addr : List ℕ → ℕ
first_addr [] = 0
first_addr (addr ∷ addrs) = addr

module _ {S : Type 0} (handler : Handler S) where
  -- The handling of an address, once the entries are at it.
  abbrev pub handle_at : (addr : ℕ) → MapsEntry → S → Outcome S
  handle_at addr entry s =
      if ltb addr entry.start
      then ok (handler.handle_unknown_addr addr unmapped s)
      else handler.handle_entry_addr addr entry s

  -- The loop over the addresses.
  pub walk : List ℕ → (prev_addr : ℕ) → MapsEntry → List (Outcome MapsEntry) → S → Outcome S
  unfolding advance
  walk [] prev_addr entry entries s = ok s
  walk (addr ∷ addrs) prev_addr entry entries s =
      if ltb addr prev_addr then err invalid_input else elim (advance addr entry entries) [
        | err e ↦ err e
        | stuck ↦ stuck
        | ok position ↦ elim position [
          | at_entry e rest ↦ (handle_at addr e s >>= λ s'. walk addrs addr e rest s')
          | exhausted e ↦ walk addrs addr e [] (handler.handle_unknown_addr addr unmapped s)
        ]
      ]

  pub normalize_sorted_user_addrs_with_entries :
      (addrs : List ℕ) → List (Outcome MapsEntry) → S → Outcome S
  unfolding walk
  normalize_sorted_user_addrs_with_entries addrs [] s = err unexpected_eof
  normalize_sorted_user_addrs_with_entries addrs (first ∷ entries) s =
      first >>= λ entry. walk addrs (first_addr addrs) entry entries s

module _ (extension : List ℕ → Option (List ℕ)) (read_build_id : List ℕ → Option (List ℕ))
    (map_files : Bool) where
  abbrev pub user_handler : Handler NormalizationHandler
  user_handler = record {
    handle_unknown_addr = add_unknown_addr;
    handle_entry_addr =
        λ addr entry h. ok (handle_entry_addr extension read_build_id map_files addr entry h);
  }

  -- `Normalizer::normalize_user_addrs_impl`.
  pub normalize_user_addrs_impl :
      (addrs : List ℕ) → List (Outcome MapsEntry) → Outcome NormalizationHandler
  unfolding normalize_sorted_user_addrs_with_entries handle_entry_addr
  normalize_user_addrs_impl addrs entries =
      normalize_sorted_user_addrs_with_entries user_handler addrs entries new_handler

  -- `Normalizer::normalize_user_addrs_opts` over the entries that `normalize_user_addrs_iter` reads.
  unfoldable pub normalize_user_addrs_opts :
      (sorted_addrs : Bool) (addrs : List ℕ)
      → List (Outcome MapsEntry)
      → Outcome NormalizationHandler
  unfolding normalize_user_addrs_impl with_ordered_elems
  normalize_user_addrs_opts sorted_addrs addrs entries =
      if sorted_addrs
      then normalize_user_addrs_impl addrs entries
      else with_ordered_elems addrs (λ h. h.outputs)
          (λ reordered h. record h { outputs = reordered })
          (λ sorted. normalize_user_addrs_impl sorted entries)
