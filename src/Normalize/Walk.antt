-- ===== src/Normalize/Walk.antt =====
-- That the single pass of `normalize_sorted_user_addrs_with_entries` (src/normalize/user.rs) over
-- addresses and entries is a search for each address.
use blazesym.Common.{
  ℕ, ◌≤◌, ◌≡◌, ◌⊎◌, refl, sym, ◌∙◌, true, false, Option, none, some, List, [], ◌∷◌, map, arith, ltb,
  leb, ltb→le, le→ltb, leb→le, if◌then◌else◌, Bool-cases, inl, inr,
}
use blazesym.Common.Outcome.{Outcome, ok, ◌>>=◌, >>=-cong}
use blazesym.Maps.{MapsEntry}
use blazesym.Normalize.{
  unmapped, Handler, Position, at_entry, exhausted, advance, handle_at, walk,
  normalize_sorted_user_addrs_with_entries, first_addr,
}

-- The first entry that ends behind the address.
abbrev pub locate : List MapsEntry → (addr : ℕ) → Option MapsEntry
locate [] addr = none
locate (entry ∷ entries) addr = if ltb addr entry.end then some entry else locate entries addr

-- every address is not smaller than the one in front of it
abbrev pub IsAscendingFrom : (prev : ℕ) → List ℕ → Type 0
IsAscendingFrom prev [] = Unit
IsAscendingFrom prev (addr ∷ addrs) = (prev ≤ addr) × IsAscendingFrom addr addrs

-- from the address on, both lists have the same entry for an address
abbrev Agree : (addr : ℕ) → (all left : List MapsEntry) → Type 0
Agree addr all left = (b : ℕ) → addr ≤ b → locate all b ≡ locate left b

-- where `advance` leaves the entries
abbrev IsAdvanced : (addr : ℕ) → (all : List MapsEntry) → Outcome Position → Type 0
IsAdvanced addr all position =
    ((e : MapsEntry) × (rest : List MapsEntry) × (position ≡ ok (at_entry e (map ok rest)))
      × (locate all addr ≡ some e)
      × Agree addr all (e ∷ rest))
    ⊎ ((e : MapsEntry) × (position ≡ ok (exhausted e))
        × (locate all addr ≡ none)
        × Agree addr all (e ∷ []))

passed :
    (addr : ℕ) (entry : MapsEntry) (all : List MapsEntry)
    → ltb addr entry.end ≡ false
    → Agree addr (entry ∷ all) all
passed addr entry all t b le =
    let u : ltb b entry.end ≡ false =
      le→ltb b entry.end (omega (arith, le, ltb→le addr entry.end t)) in
    rw u refl

IsAdvanced-passed :
    (addr : ℕ) (entry : MapsEntry) (all : List MapsEntry) (position later : Outcome Position)
    → ltb addr entry.end ≡ false
    → position ≡ later
    → IsAdvanced addr all later
    → IsAdvanced addr (entry ∷ all) position
IsAdvanced-passed addr entry all position later t q (inl (e, rest, at, found, same)) =
    inl (e, rest, q ∙ at, rw t found, λ b le. passed addr entry all t b le ∙ same b le)
IsAdvanced-passed addr entry all position later t q (inr (e, at, missed, same)) =
    inr (e, q ∙ at, rw t missed, λ b le. passed addr entry all t b le ∙ same b le)

advance-IsAdvanced :
    (addr : ℕ) (entry : MapsEntry) (entries : List MapsEntry)
    → IsAdvanced addr (entry ∷ entries) (advance addr entry (map ok entries))
unfolding advance
advance-IsAdvanced addr entry [] = elim (Bool-cases (ltb addr entry.end)) [
  | inl t ↦ inl (entry, [], rw (t, advance) refl, rw t refl, λ b le. refl)
  | inr t ↦ inr (entry, rw (t, advance) refl, rw t refl, λ b le. refl)
]
advance-IsAdvanced addr entry (next ∷ entries) = elim (Bool-cases (ltb addr entry.end)) [
  | inl t ↦ inl (entry, next ∷ entries, rw (t, advance) refl, rw t refl, λ b le. refl)
  | inr t ↦
      IsAdvanced-passed addr entry (next ∷ entries) (advance addr entry (ok next ∷ map ok entries))
        (advance addr next (map ok entries)) t (rw (t, advance) refl)
        (advance-IsAdvanced addr next entries)
]

module _ {S : Type 0} (handler : Handler S) where
  -- The handling of one address, by a search of all entries.
  abbrev pub handle_found : (addr : ℕ) → Option MapsEntry → S → Outcome S
  handle_found addr none s = ok (handler.handle_unknown_addr addr unmapped s)
  handle_found addr (some entry) s =
      if leb entry.start addr
      then handler.handle_entry_addr addr entry s
      else ok (handler.handle_unknown_addr addr unmapped s)

  handle_at-handle_found :
      (addr : ℕ) (entry : MapsEntry) (s : S)
      → handle_at handler addr entry s ≡ handle_found addr (some entry) s
  handle_at-handle_found addr entry s = elim (Bool-cases (leb entry.start addr)) [
    | inl t ↦ rw (t, le→ltb addr entry.start (leb→le entry.start addr t)) refl
    | inr t ↦ (let u : ltb addr entry.start ≡ true = ground arith in rw (t, u) refl)
  ]

  abbrev pub handle_each : (entries : List MapsEntry) → List ℕ → S → Outcome S
  handle_each entries [] s = ok s
  handle_each entries (addr ∷ addrs) s =
      handle_found addr (locate entries addr) s >>= λ s'. handle_each entries addrs s'

  handle_each-Agree :
      (addr : ℕ) (all left : List MapsEntry) (addrs : List ℕ) (s : S)
      → Agree addr all left
      → IsAscendingFrom addr addrs
      → handle_each left addrs s ≡ handle_each all addrs s
  handle_each-Agree addr all left [] s same sorted = refl
  handle_each-Agree addr all left (b ∷ addrs) s same (le, sorted) = rw (sym (same b le)) (
      >>=-cong (handle_found b (locate all b) s) _ _
        (λ s'. handle_each-Agree b all left addrs s' (λ c h. same c (omega (arith, le, h))) sorted))

  walk-handle_each :
      (addrs : List ℕ) (prev : ℕ) (entry : MapsEntry) (entries : List MapsEntry) (s : S)
      → IsAscendingFrom prev addrs
      → walk handler addrs prev entry (map ok entries) s ≡ handle_each (entry ∷ entries) addrs s
  unfolding walk
  walk-handle_each [] prev entry entries s sorted = refl
  walk-handle_each (addr ∷ addrs) prev entry entries s (le, sorted) =
      let t : ltb addr prev ≡ false = le→ltb addr prev le in
      elim (advance-IsAdvanced addr entry entries) [
        | inl (e, rest, at, found, same) ↦
            rw (t, at, found, walk, handle_at-handle_found addr e s)
              (>>=-cong (handle_found addr (some e) s) _ _ (λ s'.
                walk-handle_each addrs addr e rest s' sorted
                ∙ handle_each-Agree addr (entry ∷ entries) (e ∷ rest) addrs s' same sorted))
        | inr (e, at, missed, same) ↦
            rw (t, at, missed, walk)
              (walk-handle_each addrs addr e [] (handler.handle_unknown_addr addr unmapped s) sorted
                ∙ handle_each-Agree addr (entry ∷ entries) (e ∷ []) addrs
                    (handler.handle_unknown_addr addr unmapped s) same sorted)
      ]

  -- For sorted addresses and entries that are all read, of which there is one at least, the single
  -- pass has the outcome of handling one address after the other, each at the first of all entries
  -- that ends behind it: as unmapped where there is none, with the entry where its start is not
  -- behind the address, and as unmapped otherwise.
  pub normalize_sorted_user_addrs_with_entries-handle_each :
      (addrs : List ℕ) (entry : MapsEntry) (entries : List MapsEntry) (s : S)
      → IsAscendingFrom (first_addr addrs) addrs
      → normalize_sorted_user_addrs_with_entries handler addrs (map ok (entry ∷ entries)) s
        ≡ handle_each (entry ∷ entries) addrs s
  unfolding normalize_sorted_user_addrs_with_entries
  normalize_sorted_user_addrs_with_entries-handle_each addrs entry entries s sorted =
      walk-handle_each addrs (first_addr addrs) entry entries s sorted
