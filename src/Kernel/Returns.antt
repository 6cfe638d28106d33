-- ===== src/Kernel/Returns.antt =====
-- The parts of a round in `read_kcore_kaslr_offset` (src/kernel/kaslr.rs) that return.
use blazesym.Common.{
  ℕ, ◌+◌, ◌^◌, ◌≤◌, ◌<◌, ◌≡◌, ◌≢◌, refl, Bool, true, false, Option, none, some, List, [], ◌∷◌,
  arith, leb, leb→le, ◌==◌, if◌then◌else◌, length, Bool-cases, inl, inr,
}
use blazesym.Common.Outcome.{Outcome, ok, err, stuck, ◌>>=◌, ok_or_invalid_data}
use blazesym.Util.Bytes.{from_radix_16}
use blazesym.Util.Order.{bytes_eq}
use blazesym.Util.Slice.{Slice}
use blazesym.Kernel.{align_up_u32, read_exact, kernel_offset, kernel_offset_key, note_name}

-- an outcome that the source has
abbrev pub Returns {ℓ} : {A : Type ℓ} → Outcome A → Type 0
Returns (ok a) = Unit
Returns (err e) = Unit
Returns stuck = ⊥

pub Returns→ne-stuck : {A : Type 0} (m : Outcome A) → Returns m → m ≢ stuck
Returns→ne-stuck (ok a) h e = cc
Returns→ne-stuck (err k) h e = cc
Returns→ne-stuck stuck h e = h

pub >>=-Returns :
    {A B : Type 0} (m : Outcome A) (rest : A → Outcome B)
    → Returns m
    → ((a : A) → m ≡ ok a → Returns (rest a))
    → Returns (m >>= rest)
>>=-Returns (ok a) rest h k = k a refl
>>=-Returns (err e) rest h k = tt
>>=-Returns stuck rest h k = h

pub read_exact-Returns : (offset size : ℕ) (file : Slice) → Returns (read_exact offset size file)
unfolding read_exact
read_exact-Returns offset size file = elim (Bool-cases (leb (offset + size) (length file.bytes))) [
  | inl t ↦ rw (t, read_exact) tt
  | inr t ↦ rw (t, read_exact) tt
]

pub read_exact-le :
    (offset size : ℕ) (file : Slice) (bytes : List ℕ)
    → read_exact offset size file ≡ ok bytes
    → offset + size ≤ length file.bytes
unfolding read_exact
read_exact-le offset size file bytes h =
    elim (Bool-cases (leb (offset + size) (length file.bytes))) [
      | inl t ↦ leb→le (offset + size) (length file.bytes) t
      | inr t ↦ (let q = rw (t, read_exact) at h in cc)
    ]

pub if-Returns :
    {A : Type 0} (b : Bool) (m n : Outcome A) → Returns m → Returns n → Returns (if b then m else n)
if-Returns true m n h k = h
if-Returns false m n h k = k

pub ok_or-Returns : {A : Type 0} (o : Option A) → Returns (ok_or_invalid_data o)
ok_or-Returns none = tt
ok_or-Returns (some a) = tt

pub kernel_offset-Returns : (pairs : List (List ℕ × List ℕ)) → Returns (kernel_offset pairs)
unfolding kernel_offset
kernel_offset-Returns [] = tt
kernel_offset-Returns ((key, value) ∷ pairs) =
    if-Returns (bytes_eq key kernel_offset_key)
      (ok_or_invalid_data (from_radix_16 value) >>= λ offset. ok (some offset))
      (kernel_offset pairs)
      (>>=-Returns (ok_or_invalid_data (from_radix_16 value)) (λ offset. ok (some offset))
        (ok_or-Returns (from_radix_16 value)) (λ a e. tt))
      (kernel_offset-Returns pairs)

pub align_up_u32-lt : (value : ℕ) → align_up_u32 value 4 < 2 ^ 32
unfolding align_up_u32
align_up_u32-lt value = omega arith

pub note_name-Returns : (offset namesz : ℕ) (file : Slice) → Returns (note_name offset namesz file)
note_name-Returns offset namesz file = elim (Bool-cases (namesz == 0)) [
  | inl t ↦ rw t tt
  | inr t ↦ rw t (read_exact-Returns offset namesz file)
]
