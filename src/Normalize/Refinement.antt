-- ===== src/Normalize/Refinement.antt =====
-- That `Normalizer::normalize_user_addrs_impl` (src/normalize/normalizer.rs) answers each address as it
-- is meant to.
use mathlib.Core.List.{append_assoc, append-nil}
use blazesym.Common.{
  ℕ, ◌≡◌, refl, sym, ap, ◌∙◌, Bool, Option, none, some, List, [], ◌∷◌, ◌++◌, map, ltb, leb, true,
  false, arith, if◌then◌else◌, Bool-cases, inl, inr,
}
use blazesym.Common.Outcome.{ok}
use blazesym.Maps.{MapsEntry}
use blazesym.Normalize.{
  Handler, add_unknown_addr, handle_entry_addr, unmapped, NormalizationHandler, new_handler,
  user_handler, normalize_user_addrs_impl, first_addr,
}
use blazesym.Normalize.Walk.{
  locate, IsAscendingFrom, handle_found, handle_each,
  normalize_sorted_user_addrs_with_entries-handle_each,
}
use blazesym.Normalize.View.{Target, nothing, view, IsWellFormed}
use blazesym.Normalize.Outputs.{meant, add_unknown_addr-Grows, handle_entry_addr-Grows}

module _ (extension : List ℕ → Option (List ℕ)) (read_build_id : List ℕ → Option (List ℕ))
    (map_files : Bool) where
  -- The answer for an address, by a search of the entries: unmapped where no entry has it.
  abbrev pub answer_at : (addr : ℕ) → Option MapsEntry → ℕ × Option Target
  answer_at addr none = (addr, some (nothing unmapped))
  answer_at addr (some entry) = if ltb addr entry.start then (addr, some (nothing unmapped)) else (
    (meant map_files addr entry (entry.path_name)).0,
    some (meant map_files addr entry (entry.path_name)).1,
  )

  abbrev pub answer : List MapsEntry → (addr : ℕ) → ℕ × Option Target
  answer entries addr = answer_at addr (locate entries addr)

  abbrev handler : Handler NormalizationHandler
  handler = user_handler extension read_build_id map_files

  -- a handler that has grown by the answer
  abbrev IsAnswered :
      (addr : ℕ) → Option MapsEntry → NormalizationHandler → NormalizationHandler → Type 0
  IsAnswered addr entry? h h' =
      (handle_found handler addr entry? h ≡ ok h')
      × IsWellFormed h'
      × (view h' ≡ view h ++ (answer_at addr entry? ∷ []))

  found-IsAnswered :
      (addr : ℕ) (entry? : Option MapsEntry) (h : NormalizationHandler)
      → IsWellFormed h
      → (h' : NormalizationHandler) × IsAnswered addr entry? h h'
  found-IsAnswered addr none h well =
      let (well', v) = add_unknown_addr-Grows addr unmapped h well in
      (add_unknown_addr addr unmapped h, (refl, well', v))
  found-IsAnswered addr (some entry) h well = elim (Bool-cases (ltb addr entry.start)) [
    | inl t ↦
        let (well', v) = add_unknown_addr-Grows addr unmapped h well in
        let u : leb entry.start addr ≡ false = ground arith in
        (add_unknown_addr addr unmapped h, (rw u refl, well', rw t v))
    | inr t ↦
        let (well', v) =
          handle_entry_addr-Grows extension read_build_id map_files addr entry h well in
        let u : leb entry.start addr ≡ true = ground arith in
        (
          handle_entry_addr extension read_build_id map_files addr entry h,
          (rw u refl, well', rw t v),
        )
  ]

  each-view :
      (entries : List MapsEntry) (addrs : List ℕ) (h : NormalizationHandler)
      → IsWellFormed h
      → (h' : NormalizationHandler) × (handle_each handler entries addrs h ≡ ok h')
        × IsWellFormed h'
        × (view h' ≡ view h ++ map (answer entries) addrs)
  each-view entries [] h well = (h, refl, well, sym (append-nil (view h)))
  each-view entries (addr ∷ addrs) h well =
      let (h1, (e1, well1, v1)) = found-IsAnswered addr (locate entries addr) h well in
      let (h2, e2, well2, v2) = each-view entries addrs h1 well1 in
      (
        h2,
        rw e1 e2,
        well2,
        v2
            ∙ (ap (λ (l : List (ℕ × Option Target)). l ++ map (answer entries) addrs) v1
                ∙ append_assoc (view h) (answer entries addr ∷ []) (map (answer entries) addrs)),
      )

  -- For sorted addresses and entries that are all read, of which there is one at least,
  -- normalization succeeds: its output is the list of the answers for the addresses, in their
  -- order, where an answer is a search of all entries. Every index of the output is in bounds.
  pub normalize_user_addrs_impl-view :
      (addrs : List ℕ) (entry : MapsEntry) (entries : List MapsEntry)
      → IsAscendingFrom (first_addr addrs) addrs
      → (h : NormalizationHandler) × (normalize_user_addrs_impl extension read_build_id map_files
            addrs
            (map ok (entry ∷ entries))
          ≡ ok h)
        × IsWellFormed h
        × (view h ≡ map (answer (entry ∷ entries)) addrs)
  unfolding normalize_user_addrs_impl
  normalize_user_addrs_impl-view addrs entry entries sorted =
      let (h, e, well, v) =
        each-view (entry ∷ entries) addrs new_handler (tt, (λ p idx e. cc), (λ r idx e. cc)) in
      (
        h,
        normalize_sorted_user_addrs_with_entries-handle_each handler addrs entry entries new_handler
              sorted
            ∙ e,
        well,
        v,
      )
