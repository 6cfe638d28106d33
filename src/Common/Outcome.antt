-- ===== src/Common/Outcome.antt =====
-- `crate::Error` by its kind (src/error.rs): the message and the chain of contexts are left out.
use mathlib.Core.Path.{◌≡◌, refl, ap}
use mathlib.Core.Option.{Option, none, some}

-- The kinds that the modelled code makes.
pub data ErrorKind : Type 0 where
  invalid_data invalid_input unexpected_eof unsupported not_found other : ErrorKind

-- `stuck` is no value of the source: it panics, or a loop of the model ran out of fuel.
pub data Outcome {ℓ} (A : Type ℓ) : Type ℓ where
  ok : A → Outcome A
  err : ErrorKind → Outcome A
  stuck : Outcome A

-- `?`: an outcome that is no value is the whole outcome.
infixl 5 ◌>>=◌
abbrev pub ◌>>=◌ {κ ℓ} : {B : Type κ} {A : Type ℓ} → Outcome A → (A → Outcome B) → Outcome B
stuck >>= rest = stuck
err e >>= rest = err e
ok a >>= rest = rest a

-- `ok_or_invalid_data` and its siblings on an `Option`.
abbrev pub ok_or_error {ℓ} : {A : Type ℓ} → ErrorKind → Option A → Outcome A
ok_or_error kind none = err kind
ok_or_error kind (some a) = ok a

abbrev pub ok_or_invalid_data {ℓ} : {A : Type ℓ} → Option A → Outcome A
ok_or_invalid_data = ok_or_error invalid_data

abbrev pub ok_or_invalid_input {ℓ} : {A : Type ℓ} → Option A → Outcome A
ok_or_invalid_input = ok_or_error invalid_input

-- `unwrap`, which panics on `None`.
abbrev pub unwrap {ℓ} : {A : Type ℓ} → Option A → Outcome A
unwrap none = stuck
unwrap (some a) = ok a

value_or {ℓ} : {A : Type ℓ} → A → Outcome A → A
value_or default (ok a) = a
value_or default (err e) = default
value_or default stuck = default

pub ok-injective {ℓ} : {A : Type ℓ} {a b : A} → Path (Outcome A) (ok a) (ok b) → a ≡ b
unfolding value_or
ok-injective {a = a} h = ap (value_or a) h

-- Where a chain returned, its first part did.
pub >>=-eq-ok {ℓ κ} :
    {A : Type ℓ} {B : Type κ} (m : Outcome A) (rest : A → Outcome B) {b : B}
    → (m >>= rest) ≡ ok b
    → (a : A) × (m ≡ ok a) × (rest a ≡ ok b)
>>=-eq-ok stuck rest h = cc
>>=-eq-ok (ok a) rest h = (a, refl, h)
>>=-eq-ok (err e) rest h = cc

pub >>=-assoc {ℓ κ μ} :
    {A : Type ℓ} {B : Type κ} {C : Type μ} (m : Outcome A) (f : A → Outcome B) (g : B → Outcome C)
    → ((m >>= f) >>= g) ≡ (m >>= λ a. f a >>= g)
>>=-assoc (ok a) f g = refl
>>=-assoc (err e) f g = refl
>>=-assoc stuck f g = refl

pub >>=-cong {ℓ κ} :
    {A : Type ℓ} {B : Type κ} (m : Outcome A) (f g : A → Outcome B)
    → ((a : A) → f a ≡ g a)
    → (m >>= f) ≡ (m >>= g)
>>=-cong (ok a) f g h = h a
>>=-cong (err e) f g h = refl
>>=-cong stuck f g h = refl
