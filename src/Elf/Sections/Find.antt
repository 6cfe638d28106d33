-- ===== src/Elf/Sections/Find.antt =====
-- Which section `find_section` of src/elf/parser.rs finds for a name.
use blazesym.Common.{
  ℕ, zero, suc, ◌+◌, ◌-◌, ◌≤◌, ◌<◌, ◌≡◌, ◌≢◌, sym, ap, ◌∙◌, Option, none, some, List, arith,
  ℕ_discrete, Bool-cases, inl, inr,
}
use blazesym.Common.Outcome.{ok, ok-injective, >>=-eq-ok}
use blazesym.Util.Order.{bytes_eq, bytes_eq_iff}
use blazesym.Util.Slice.{Slice}
use blazesym.Elf.Headers.{parse_ehdr, EhdrExt}
use blazesym.Elf.Sections.{section_name, find_section_from, find_section}

module _ (mmap : Slice) (name : List ℕ) where
  abbrev pub IsOther : (j : ℕ) → Type 0
  IsOther j = (other : List ℕ) × (section_name mmap j ≡ ok other) × (other ≢ name)

  -- The first section with the name among those from `start` on and in front of `end`, if any.
  abbrev pub IsFirst : (start end : ℕ) → Option ℕ → Type 0
  IsFirst start end none = (j : ℕ) → start ≤ j → j < end → IsOther j
  IsFirst start end (some i) =
      (start ≤ i)
      × (i < end)
      × (section_name mmap i ≡ ok name)
      × ((j : ℕ) → start ≤ j → j < i → IsOther j)

  before :
      (start end : ℕ)
      → IsOther start
      → ((j : ℕ) → start + 1 ≤ j → j < end → IsOther j)
      → (j : ℕ) → start ≤ j
      → j < end
      → IsOther j
  before start end (other, named, ne) all j from to = elim (ℕ_discrete j start) [
    | yes e ↦ (other, ap (λ (k : ℕ). section_name mmap k) e ∙ named, ne)
    | no apart ↦ all j (omega arith) to
  ]

  IsFirst-step :
      (start end : ℕ) (r? : Option ℕ)
      → start < end
      → IsOther start
      → IsFirst (start + 1) end r?
      → IsFirst start end r?
  IsFirst-step start end none lt other all = λ j from to. before start end other all j from to
  IsFirst-step start end (some i) lt other (from, to, own, all) =
      (omega arith, to, own, λ j le lt_j. before start i other all j le lt_j)

  find_section_from-IsFirst :
      (count i : ℕ) (r? : Option ℕ)
      → find_section_from mmap name count i ≡ ok r?
      → IsFirst i (i + count) r?
  unfolding find_section_from
  find_section_from-IsFirst zero i r? h =
      let e : none ≡ r? = ok-injective h in rw (sym e) (none_left i)
    where
      none_left : (i : ℕ) → IsFirst i (i + 0) none
      none_left i j from to = absurd (omega arith)
  find_section_from-IsFirst (suc count) i r? h =
      let (other, e, h') = >>=-eq-ok (section_name mmap i) _ h in
      elim (Bool-cases (bytes_eq other name)) [
        | inl t ↦
            let same = (bytes_eq_iff other name).0 t in
            let e' : some i ≡ r? = ok-injective (rw t at h') in here i r? e' (e ∙ ap ok same)
        | inr t ↦
            let q : i + 1 + count ≡ i + suc count = omega arith in
            IsFirst-step i (i + suc count) r? (omega arith)
              (other, e, λ same. (let u = (bytes_eq_iff other name).1 same in cc (t, u)))
              (rw q at (find_section_from-IsFirst count (i + 1) r? (rw t at h')))
      ]
    where
      here :
          (i : ℕ) (r? : Option ℕ)
          → some i ≡ r?
          → section_name mmap i ≡ ok name
          → IsFirst i (i + suc count) r?
      here i r? e own =
          rw (sym e) (omega arith, omega arith, own, λ j from to. absurd (omega arith))

  -- `find_section` answers the first section behind the one at index zero that has the name. Where
  -- it answers that there is none, every section behind the one at index zero has another name.
  pub find_section-IsFirst :
      (ehdr : EhdrExt) (r? : Option ℕ)
      → parse_ehdr mmap ≡ ok ehdr
      → find_section mmap name ≡ ok r?
      → IsFirst 1 (1 + (ehdr.shnum - 1)) r?
  unfolding find_section
  find_section-IsFirst ehdr r? parsed h =
      find_section_from-IsFirst (ehdr.shnum - 1) 1 r? (rw (parsed, find_section) at h)
