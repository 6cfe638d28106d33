-- ===== src/Normalize/View.antt =====
-- What the output of a `NormalizationHandler` (src/normalize/user.rs) says: the indices and the tables
-- are a representation of a list of values with their targets.
use blazesym.Common.{
  ℕ, zero, suc, ◌≤◌, ◌<◌, ◌≡◌, refl, ap, Option, none, some, List, [], ◌∷◌, ◌++◌, arith, length,
  All,
}
use blazesym.Normalize.{Reason, UserMeta, elf, apk, unknown, NormalizationHandler}

-- What a value is for: an offset into a file, or an address that is not known.
pub data Target : Type 0 where
  file : (path : List ℕ) → Target
  nothing : Reason → Target

abbrev pub target_of : UserMeta → Target
target_of (elf p id) = file p
target_of (apk p) = file p
target_of (unknown r) = nothing r

abbrev pub target_at : List UserMeta → (idx : ℕ) → Option Target
target_at [] idx = none
target_at (m ∷ meta) zero = some (target_of m)
target_at (m ∷ meta) (suc idx) = target_at meta idx

abbrev pub seen : List UserMeta → List (ℕ × ℕ) → List (ℕ × Option Target)
seen meta [] = []
seen meta ((value, idx) ∷ outputs) = (value, target_at meta idx) ∷ seen meta outputs

-- The output as it is meant.
abbrev pub view : NormalizationHandler → List (ℕ × Option Target)
view h = seen h.meta h.outputs

-- The tables point to what they are for, and no output's index is out of bounds.
abbrev pub IsWellFormed : NormalizationHandler → Type 0
IsWellFormed h =
    All (λ (output : ℕ × ℕ). output.1 < length h.meta) h.outputs
    × ((p : List ℕ) (idx : ℕ) → h.meta_lookup p ≡ some idx → target_at h.meta idx ≡ some (file p))
    × ((r : Reason) (idx : ℕ)
        → h.unknown_cache r ≡ some idx
        → target_at h.meta idx ≡ some (nothing r))

pub target_at-lt :
    (meta : List UserMeta) (idx : ℕ) (t : Target) → target_at meta idx ≡ some t → idx < length meta
target_at-lt [] idx t h = cc
target_at-lt (m ∷ meta) zero t h = omega arith
target_at-lt (m ∷ meta) (suc idx) t h = omega (arith, target_at-lt meta idx t h)

pub target_at-append :
    (meta : List UserMeta) (m : UserMeta) (idx : ℕ)
    → idx < length meta
    → target_at (meta ++ (m ∷ [])) idx ≡ target_at meta idx
target_at-append [] m idx h = absurd (omega arith)
target_at-append (n ∷ meta) m zero h = refl
target_at-append (n ∷ meta) m (suc idx) h = target_at-append meta m idx (omega arith)

pub target_at-last :
    (meta : List UserMeta) (m : UserMeta)
    → target_at (meta ++ (m ∷ [])) (length meta) ≡ some (target_of m)
target_at-last [] m = refl
target_at-last (n ∷ meta) m = target_at-last meta m

pub seen-append :
    (meta : List UserMeta) (m : UserMeta) (outputs : List (ℕ × ℕ))
    → All (λ (output : ℕ × ℕ). output.1 < length meta) outputs
    → seen (meta ++ (m ∷ [])) outputs ≡ seen meta outputs
seen-append meta m [] h = refl
seen-append meta m ((value, idx) ∷ outputs) (lt, h) =
    rw (target_at-append meta m idx lt, seen-append meta m outputs h) refl

pub seen-push :
    (meta : List UserMeta) (outputs : List (ℕ × ℕ)) (value idx : ℕ)
    → seen meta (outputs ++ ((value, idx) ∷ []))
      ≡ seen meta outputs ++ ((value, target_at meta idx) ∷ [])
seen-push meta [] value idx = refl
seen-push meta ((v, i) ∷ outputs) value idx =
    ap (λ (l : List (ℕ × Option Target)). (v, target_at meta i) ∷ l)
      (seen-push meta outputs value idx)

pub Inside-push :
    (bound wider : ℕ) (outputs : List (ℕ × ℕ)) (value idx : ℕ)
    → bound ≤ wider
    → idx < wider
    → All (λ (output : ℕ × ℕ). output.1 < bound) outputs
    → All (λ (output : ℕ × ℕ). output.1 < wider) (outputs ++ ((value, idx) ∷ []))
Inside-push bound wider [] value idx le lt h = (lt, tt)
Inside-push bound wider ((v, i) ∷ outputs) value idx le lt (lt_i, h) =
    (omega arith, Inside-push bound wider outputs value idx le lt h)
