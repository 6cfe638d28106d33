-- ===== src/Normalize/Outputs.antt =====
-- What the handlers of addresses (src/normalize/user.rs) do to the output.
use blazesym.Common.{
  ℕ, ◌<◌, ◌≡◌, refl, sym, ap, ◌∙◌, Bool, true, Option, none, some, List, [], ◌∷◌, ◌++◌, arith,
  if◌then◌else◌, length, length-append, All, Bool-cases, Option-cases, inl, inr,
}
use blazesym.Util.Order.{bytes_eq, bytes_eq_iff}
use blazesym.Maps.{MapsEntry, EntryPath, PathName, path, component}
use blazesym.Normalize.{
  Reason, unmapped, missing_component, unsupported, UserMeta, unknown, same_reason, insert,
  is_archive, NormalizationHandler, add_unknown_addr, add_normalized_offset, handle_entry_addr,
  file_offset_of, meta_of, path_of,
}
use blazesym.Normalize.View.{
  Target, target_of, target_at, seen, view, IsWellFormed, target_at-lt, target_at-append,
  target_at-last, seen-append, seen-push, Inside-push, file, nothing,
}

same_reason→eq : (r q : Reason) → same_reason r q ≡ true → r ≡ q
same_reason→eq unmapped unmapped h = refl
same_reason→eq unmapped missing_component h = cc
same_reason→eq unmapped unsupported h = cc
same_reason→eq missing_component unmapped h = cc
same_reason→eq missing_component missing_component h = refl
same_reason→eq missing_component unsupported h = cc
same_reason→eq unsupported unmapped h = cc
same_reason→eq unsupported missing_component h = cc
same_reason→eq unsupported unsupported h = refl

-- a table with an entry for the meta information that is pushed
insert-target :
    {K : Type 0} (eq : K → K → Bool) (as_target : K → Target) (table : K → Option ℕ)
    (meta : List UserMeta) (key : K) (m : UserMeta)
    → ((k : K) → eq key k ≡ true → key ≡ k)
    → target_of m ≡ as_target key
    → ((k : K) (idx : ℕ) → table k ≡ some idx → target_at meta idx ≡ some (as_target k))
    → (k : K) (idx : ℕ) → insert eq key (length meta) table k ≡ some idx
    → target_at (meta ++ (m ∷ [])) idx ≡ some (as_target k)
insert-target eq as_target table meta key m sound own h k idx e = elim (Bool-cases (eq key k)) [
  | inl t ↦
      let q : some (length meta) ≡ some idx = rw t at e in
      let here : length meta ≡ idx = cc in
      ap (λ (i : ℕ). target_at (meta ++ (m ∷ [])) i) (sym here)
      ∙ (target_at-last meta m ∙ ap some (own ∙ ap as_target (sound k t)))
  | inr t ↦
      let old = h k idx (rw t at e) in
      target_at-append meta m idx (target_at-lt meta idx (as_target k) old) ∙ old
]

-- a handler that is well-formed and whose output has grown by a value with its target
abbrev pub Grows : (h h' : NormalizationHandler) (value : ℕ) → Target → Type 0
Grows h h' value target = IsWellFormed h' × (view h' ≡ view h ++ ((value, some target) ∷ []))

-- an output whose meta information is there
push-Grows :
    (h : NormalizationHandler) (value idx : ℕ) (target : Target)
    → IsWellFormed h
    → target_at h.meta idx ≡ some target
    → Grows h (record h { outputs = h.outputs ++ ((value, idx) ∷ []) }) value target
push-Grows h value idx target (inside, lookups, cached) at = (
  (
    Inside-push (length h.meta) (length h.meta) h.outputs value idx (omega arith)
        (target_at-lt h.meta idx target at) inside,
    lookups,
    cached,
  ),
  seen-push h.meta h.outputs value idx ∙ ap (λ (t : Option Target). view h ++ ((value, t) ∷ [])) at,
)

-- new meta information behind the old, and an output that points to it
module _ (meta : List UserMeta) (outputs : List (ℕ × ℕ)) (value : ℕ) (m : UserMeta)
    (inside : All (λ (output : ℕ × ℕ). output.1 < length meta) outputs) where
  fresh-inside :
      All
        (λ (output : ℕ × ℕ). output.1 < length (meta ++ (m ∷ [])))
        (outputs ++ ((value, length meta) ∷ []))
  fresh-inside =
      let longer = length-append meta (m ∷ []) in
      Inside-push (length meta) (length (meta ++ (m ∷ []))) outputs value (length meta)
        (omega (arith, longer)) (omega (arith, longer)) inside

  fresh-seen :
      seen (meta ++ (m ∷ [])) (outputs ++ ((value, length meta) ∷ []))
      ≡ seen meta outputs ++ ((value, some (target_of m)) ∷ [])
  fresh-seen =
      seen-push (meta ++ (m ∷ [])) outputs value (length meta)
      ∙ (ap
            (λ (l : List (ℕ × Option Target)).
              l ++ ((value, target_at (meta ++ (m ∷ [])) (length meta)) ∷ []))
            (seen-append meta m outputs inside)
          ∙ ap (λ (t : Option Target). seen meta outputs ++ ((value, t) ∷ []))
              (target_at-last meta m))

kept :
    {K : Type 0} (as_target : K → Target) (table : K → Option ℕ) (meta : List UserMeta)
    (m : UserMeta)
    → ((k : K) (idx : ℕ) → table k ≡ some idx → target_at meta idx ≡ some (as_target k))
    → (k : K) (idx : ℕ) → table k ≡ some idx
    → target_at (meta ++ (m ∷ [])) idx ≡ some (as_target k)
kept as_target table meta m h k idx e =
    target_at-append meta m idx (target_at-lt meta idx (as_target k) (h k idx e)) ∙ h k idx e

pub add_unknown_addr-Grows :
    (addr : ℕ) (reason : Reason) (h : NormalizationHandler)
    → IsWellFormed h
    → Grows h (add_unknown_addr addr reason h) addr (nothing reason)
unfolding add_unknown_addr
add_unknown_addr-Grows addr reason h (inside, lookups, cached) =
    elim (Option-cases (h.unknown_cache reason)) [
      | inr (idx, e) ↦
          rw (e, add_unknown_addr)
            (push-Grows h addr idx (nothing reason) (inside, lookups, cached) (cached reason idx e))
      | inl n ↦
          rw (n, add_unknown_addr)
            (
              (
                fresh-inside h.meta h.outputs addr (unknown reason) inside,
                kept file h.meta_lookup h.meta (unknown reason) lookups,
                insert-target same_reason nothing h.unknown_cache h.meta reason (unknown reason)
                    (λ k t. same_reason→eq reason k t) refl cached,
              ),
              fresh-seen h.meta h.outputs addr (unknown reason) inside,
            )
    ]

add_normalized_offset-Grows :
    (offset : ℕ) (key : List ℕ) (m : UserMeta) (h : NormalizationHandler)
    → target_of m ≡ file key
    → IsWellFormed h
    → Grows h (add_normalized_offset offset key m h) offset (file key)
unfolding add_normalized_offset
add_normalized_offset-Grows offset key m h own (inside, lookups, cached) =
    elim (Option-cases (h.meta_lookup key)) [
      | inr (idx, e) ↦
          rw (e, add_normalized_offset)
            (push-Grows h offset idx (file key) (inside, lookups, cached) (lookups key idx e))
      | inl n ↦
          rw (n, add_normalized_offset)
            (
              (
                fresh-inside h.meta h.outputs offset m inside,
                insert-target bytes_eq file h.meta_lookup h.meta key m
                    (λ k t. (bytes_eq_iff key k).0 t) own lookups,
                kept nothing h.unknown_cache h.meta m cached,
              ),
              fresh-seen h.meta h.outputs offset m inside
                  ∙ ap (λ (t : Target). view h ++ ((offset, some t) ∷ [])) own,
            )
    ]

-- The output that is meant for an address in an entry.
abbrev pub meant : (map_files : Bool) → (addr : ℕ) → MapsEntry → Option PathName → ℕ × Target
meant map_files addr entry none = (addr, nothing missing_component)
meant map_files addr entry (some (component text)) = (addr, nothing unsupported)
meant map_files addr entry (some (path p)) =
    (file_offset_of addr entry, file (if map_files then p.maps_file else p.symbolic_path))

module _ (extension : List ℕ → Option (List ℕ)) (read_build_id : List ℕ → Option (List ℕ))
    (map_files : Bool) where
  meta_of-target :
      (entry : MapsEntry) (p : EntryPath)
      → target_of (meta_of extension read_build_id map_files entry p)
        ≡ file (path_of extension read_build_id map_files p)
  meta_of-target entry p = elim (Bool-cases (is_archive (extension p.symbolic_path))) [
    | inl t ↦ rw t refl
    | inr t ↦ rw t refl
  ]

  pub handle_entry_addr-Grows :
      (addr : ℕ) (entry : MapsEntry) (h : NormalizationHandler)
      → IsWellFormed h
      → Grows h
          (handle_entry_addr extension read_build_id map_files addr entry h)
          (meant map_files addr entry (entry.path_name)).0
          (meant map_files addr entry (entry.path_name)).1
  unfolding handle_entry_addr
  handle_entry_addr-Grows addr entry h well = of entry.path_name refl
    where
      of :
          (name : Option PathName)
          → entry.path_name ≡ name
          → Grows h
              (handle_entry_addr extension read_build_id map_files addr entry h)
              (meant map_files addr entry name).0
              (meant map_files addr entry name).1
      of none e = rw (e, handle_entry_addr) (add_unknown_addr-Grows addr missing_component h well)
      of (some (component text)) e =
          rw (e, handle_entry_addr) (add_unknown_addr-Grows addr unsupported h well)
      of (some (path p)) e =
          rw (e, handle_entry_addr)
            (add_normalized_offset-Grows (file_offset_of addr entry)
              (path_of extension read_build_id map_files p)
              (meta_of extension read_build_id map_files entry p) h (meta_of-target entry p) well)
