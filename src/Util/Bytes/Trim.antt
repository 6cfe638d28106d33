-- ===== src/Util/Bytes/Trim.antt =====
-- `trim_ascii` removes exactly the white space around a text.
use mathlib.Core.List.{reverse, reverse-append, reverse-reverse}
use blazesym.Common.{
  ℕ, ◌≡◌, refl, ap, sym, ◌∙◌, true, false, List, [], ◌∷◌, ◌++◌, All, Bool-cases, inl, inr,
}
use blazesym.Util.Bytes.{is_ascii_whitespace, trim_ascii_start, trim_ascii_end, trim_ascii}

abbrev pub AllSpace : List ℕ → Type 0
AllSpace = All (λ b. is_ascii_whitespace b ≡ true)

abbrev pub NoSpaceInFront : List ℕ → Type 0
NoSpaceInFront [] = Unit
NoSpaceInFront (b ∷ bs) = is_ascii_whitespace b ≡ false

abbrev pub NoSpaceAtEnd : List ℕ → Type 0
NoSpaceAtEnd bytes = NoSpaceInFront (reverse bytes)

trim_ascii_start_lem :
    (bytes : List ℕ)
    → (front : List ℕ) × (bytes ≡ front ++ trim_ascii_start bytes)
      × AllSpace front
      × NoSpaceInFront (trim_ascii_start bytes)
unfolding trim_ascii_start
trim_ascii_start_lem [] = ([], refl, tt, tt)
trim_ascii_start_lem (b ∷ bs) = elim (Bool-cases (is_ascii_whitespace b)) [
  | inl t ↦
      let (front, e, s, n) = trim_ascii_start_lem bs in
      (
        b ∷ front,
        rw (t, trim_ascii_start) (ap (λ (l : List ℕ). b ∷ l) e),
        (t, s),
        rw (t, trim_ascii_start) n,
      )
  | inr f ↦ ([], rw (f, trim_ascii_start), tt, rw (f, trim_ascii_start) f)
]

AllSpace-append : (xs ys : List ℕ) → AllSpace xs → AllSpace ys → AllSpace (xs ++ ys)
AllSpace-append [] ys p q = q
AllSpace-append (x ∷ xs) ys (h, p) q = (h, AllSpace-append xs ys p q)

AllSpace-reverse : (xs : List ℕ) → AllSpace xs → AllSpace (reverse xs)
AllSpace-reverse [] p = tt
AllSpace-reverse (x ∷ xs) (h, p) =
    rw (reverse-append (x ∷ []) xs)
      (AllSpace-append (reverse xs) (x ∷ []) (AllSpace-reverse xs p) (h, tt))

trim_ascii_end_lem :
    (bytes : List ℕ)
    → (back : List ℕ) × (bytes ≡ trim_ascii_end bytes ++ back)
      × AllSpace back
      × NoSpaceAtEnd (trim_ascii_end bytes)
unfolding trim_ascii_end
trim_ascii_end_lem bytes =
    let (front, e, s, n) = trim_ascii_start_lem (reverse bytes) in
    (
      reverse front,
      sym (reverse-reverse bytes)
          ∙ ap reverse e
          ∙ reverse-append front (trim_ascii_start (reverse bytes)),
      AllSpace-reverse front s,
      rw reverse-reverse n,
    )

NoSpaceInFront-append : (t back : List ℕ) → NoSpaceInFront (t ++ back) → NoSpaceInFront t
NoSpaceInFront-append [] back h = tt
NoSpaceInFront-append (x ∷ t) back h = h

-- `trim_ascii` takes ASCII whitespace off both ends and nothing else: the text is some whitespace,
-- then what is left, then some whitespace, and what is left neither starts nor ends with
-- whitespace.
trim_ascii_lem :
    (bytes : List ℕ)
    → (front : List ℕ) × (back : List ℕ) × (bytes ≡ front ++ (trim_ascii bytes ++ back))
      × AllSpace front
      × AllSpace back
      × NoSpaceInFront (trim_ascii bytes)
      × NoSpaceAtEnd (trim_ascii bytes)
unfolding trim_ascii
trim_ascii_lem bytes =
    let (front, e, s, n) = trim_ascii_start_lem bytes in
    let (back, e', s', n') = trim_ascii_end_lem (trim_ascii_start bytes) in
    (
      front,
      back,
      e ∙ ap (λ (l : List ℕ). front ++ l) e',
      s,
      s',
      NoSpaceInFront-append (trim_ascii_end (trim_ascii_start bytes)) back (rw e' at n),
      n',
    )

trim_ascii_start-append :
    (front text : List ℕ)
    → AllSpace front
    → NoSpaceInFront text
    → trim_ascii_start (front ++ text) ≡ text
unfolding trim_ascii_start
trim_ascii_start-append [] [] s h = refl
trim_ascii_start-append [] (b ∷ bs) s h = rw h refl
trim_ascii_start-append (x ∷ front) text (t, s) h =
    rw (t, trim_ascii_start) (trim_ascii_start-append front text s h)

-- `trim_ascii` takes white space off the front, and nothing of a text that neither starts nor ends
-- with white space.
pub trim_ascii-append :
    (front text : List ℕ)
    → AllSpace front
    → NoSpaceInFront text
    → NoSpaceAtEnd text
    → trim_ascii (front ++ text) ≡ text
unfolding trim_ascii trim_ascii_end
trim_ascii-append front text s h e =
    rw (trim_ascii_start-append front text s h)
      (ap reverse (trim_ascii_start-append [] (reverse text) tt e) ∙ reverse-reverse text)
