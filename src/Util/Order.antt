-- ===== src/Util/Order.antt =====
-- `std::cmp::Ord` for the key types of the searches, with the instances for numbers and for byte
-- strings, which Rust compares byte by byte.
use blazesym.Common.{ℕ, ◌≡◌, refl, Bool, true, false, List, [], ◌∷◌, ◌↔◌, ltb, ◌==◌, ==_iff}
use blazesym.Common.{if◌then◌else◌, arith, Bool-cases, inl, inr}

pub record Ord {ℓ} (K : Type ℓ) : Type ℓ where
  pub lt : K → K → Bool
  pub eq : K → K → Bool
  pub eq_iff : (a b : K) → (eq a b ≡ true) ↔ (a ≡ b)
  pub lt-irrefl : (a : K) → lt a a ≡ false
  pub lt-trans : (a b c : K) → lt a b ≡ true → lt b c ≡ true → lt a c ≡ true
  pub lt-connected : (a b : K) → lt a b ≡ false → lt b a ≡ false → a ≡ b

pub ltb_irrefl : (a : ℕ) → ltb a a ≡ false
ltb_irrefl a = ground arith

pub ltb_trans : (a b c : ℕ) → ltb a b ≡ true → ltb b c ≡ true → ltb a c ≡ true
ltb_trans a b c p q = ground arith

pub ltb-connected : (a b : ℕ) → ltb a b ≡ false → ltb b a ≡ false → a ≡ b
ltb-connected a b p q = ground arith

instance abbrev pub nat_ord : Ord ℕ
nat_ord = record {
  lt = ltb;
  eq = ◌==◌;
  eq_iff = ==_iff;
  lt-irrefl = ltb_irrefl;
  lt-trans = ltb_trans;
  lt-connected = ltb-connected;
}

-- `<[u8]>::lt` and `==`.
unfoldable pub bytes_lt : List ℕ → List ℕ → Bool
bytes_lt xs [] = false
bytes_lt [] (y ∷ ys) = true
bytes_lt (x ∷ xs) (y ∷ ys) = if x == y then bytes_lt xs ys else ltb x y

unfoldable pub bytes_eq : List ℕ → List ℕ → Bool
bytes_eq [] [] = true
bytes_eq [] (y ∷ ys) = false
bytes_eq (x ∷ xs) [] = false
bytes_eq (x ∷ xs) (y ∷ ys) = if x == y then bytes_eq xs ys else false

bytes_eq→eq : (xs ys : List ℕ) → bytes_eq xs ys ≡ true → xs ≡ ys
unfolding bytes_eq
bytes_eq→eq [] [] h = refl
bytes_eq→eq [] (y ∷ ys) h = cc
bytes_eq→eq (x ∷ xs) [] h = cc
bytes_eq→eq (x ∷ xs) (y ∷ ys) h = ground (arith, bytes_eq→eq xs ys)

bytes_eq_refl : (xs : List ℕ) → bytes_eq xs xs ≡ true
unfolding bytes_eq
bytes_eq_refl [] = refl
bytes_eq_refl (x ∷ xs) = ground (arith, bytes_eq_refl xs)

pub bytes_eq_iff : (xs ys : List ℕ) → (bytes_eq xs ys ≡ true) ↔ (xs ≡ ys)
bytes_eq_iff xs ys = (bytes_eq→eq xs ys, λ e. rw e (bytes_eq_refl ys))

pub bytes_lt_irrefl : (xs : List ℕ) → bytes_lt xs xs ≡ false
unfolding bytes_lt
bytes_lt_irrefl [] = refl
bytes_lt_irrefl (x ∷ xs) = ground (arith, bytes_lt_irrefl xs)

pub bytes_lt_trans :
    (xs ys zs : List ℕ) → bytes_lt xs ys ≡ true → bytes_lt ys zs ≡ true → bytes_lt xs zs ≡ true
unfolding bytes_lt
bytes_lt_trans [] [] zs p q = cc
bytes_lt_trans (x ∷ xs) [] zs p q = cc
bytes_lt_trans xs (y ∷ ys) [] p q = cc
bytes_lt_trans [] (y ∷ ys) (z ∷ zs) p q = refl
bytes_lt_trans (x ∷ xs) (y ∷ ys) (z ∷ zs) p q = ground (arith, bytes_lt_trans xs ys zs)

pub bytes_lt-connected :
    (xs ys : List ℕ) → bytes_lt xs ys ≡ false → bytes_lt ys xs ≡ false → xs ≡ ys
unfolding bytes_lt
bytes_lt-connected [] [] p q = refl
bytes_lt-connected [] (y ∷ ys) p q = cc
bytes_lt-connected (x ∷ xs) [] p q = cc
bytes_lt-connected (x ∷ xs) (y ∷ ys) p q = ground (arith, bytes_lt-connected xs ys)

instance abbrev pub bytes_ord : Ord (List ℕ)
bytes_ord = record {
  lt = bytes_lt;
  eq = bytes_eq;
  eq_iff = bytes_eq_iff;
  lt-irrefl = bytes_lt_irrefl;
  lt-trans = bytes_lt_trans;
  lt-connected = bytes_lt-connected;
}

-- `a ≤ b` is `lt b a ≡ false`.
module _ {ℓ} {K : Type ℓ} ⦃o : Ord K⦄ where
  pub lt→le : (a b : K) → o.lt a b ≡ true → o.lt b a ≡ false
  lt→le a b h = elim (Bool-cases (o.lt b a)) [
    | inl g ↦ cc (o.lt-irrefl a, o.lt-trans a b a h g)
    | inr g ↦ g
  ]

  pub lt-le_trans : (a b c : K) → o.lt a b ≡ true → o.lt c b ≡ false → o.lt a c ≡ true
  lt-le_trans a b c p q = elim (Bool-cases (o.lt b c)) [
    | inl g ↦ o.lt-trans a b c p g
    | inr g ↦ rw (← o.lt-connected b c g q) p
  ]

  pub le-lt_trans : (a b c : K) → o.lt b a ≡ false → o.lt b c ≡ true → o.lt a c ≡ true
  le-lt_trans a b c p q = elim (Bool-cases (o.lt a b)) [
    | inl g ↦ o.lt-trans a b c g q
    | inr g ↦ rw (o.lt-connected a b g p) q
  ]

  pub le_trans : (a b c : K) → o.lt b a ≡ false → o.lt c b ≡ false → o.lt c a ≡ false
  le_trans a b c p q = elim (Bool-cases (o.lt c a)) [
    | inl g ↦ cc (q, lt-le_trans c a b g p)
    | inr g ↦ g
  ]

  pub lt_of_le_ne : (a b : K) → o.lt b a ≡ false → o.eq a b ≡ false → o.lt a b ≡ true
  lt_of_le_ne a b p q = elim (Bool-cases (o.lt a b)) [
    | inl g ↦ g
    | inr g ↦ cc (q, (o.eq_iff a b).1 (o.lt-connected a b g p))
  ]

  pub le_of_eq : (a b : K) → a ≡ b → o.lt b a ≡ false
  le_of_eq a b e = rw e (o.lt-irrefl b)

-- `Ord` of pairs: by the first part, then by the second.
module _ {ℓ κ} {A : Type ℓ} {B : Type κ} ⦃o : Ord A⦄ ⦃p : Ord B⦄ where
  unfoldable pub pair_lt : A × B → A × B → Bool
  pair_lt (a, b) (c, d) = if o.lt a c then true else if o.lt c a then false else p.lt b d

  unfoldable pub pair_eq : A × B → A × B → Bool
  pair_eq (a, b) (c, d) = if o.eq a c then p.eq b d else false

  pub pair_eq_iff : (x y : A × B) → (pair_eq x y ≡ true) ↔ (x ≡ y)
  unfolding pair_eq
  pair_eq_iff (a, b) (c, d) = (
    (λ h. ground (arith, o.eq_iff a c, p.eq_iff b d, h)),
    (λ h. ground (arith, o.eq_iff a c, p.eq_iff b d, h)),
  )

  pub pair_lt_irrefl : (x : A × B) → pair_lt x x ≡ false
  unfolding pair_lt
  pair_lt_irrefl (a, b) = ground (arith, o.lt-irrefl a, p.lt-irrefl b)

  pub pair_lt_trans : (x y z : A × B) → pair_lt x y ≡ true → pair_lt y z ≡ true → pair_lt x z ≡ true
  unfolding pair_lt
  pair_lt_trans (a, b) (c, d) (e, f) h k =
      ground (arith, o.lt-trans a c e, o.lt-connected a c, o.lt-connected c e, p.lt-trans b d f)

  pub pair_lt-connected : (x y : A × B) → pair_lt x y ≡ false → pair_lt y x ≡ false → x ≡ y
  unfolding pair_lt
  pair_lt-connected (a, b) (c, d) h k = ground (arith, o.lt-connected a c, p.lt-connected b d)

instance abbrev pub pair_ord {ℓ κ} : {A : Type ℓ} {B : Type κ} ⦃o : Ord A⦄ ⦃p : Ord B⦄ → Ord (A × B)
pair_ord = record {
  lt = pair_lt;
  eq = pair_eq;
  eq_iff = pair_eq_iff;
  lt-irrefl = pair_lt_irrefl;
  lt-trans = pair_lt_trans;
  lt-connected = pair_lt-connected;
}

-- `std::cmp::Ordering::reverse`.
abbrev pub reverse_ord {ℓ} : {K : Type ℓ} → Ord K → Ord K
reverse_ord o = record {
  lt = λ a b. o.lt b a;
  eq = o.eq;
  eq_iff = o.eq_iff;
  lt-irrefl = o.lt-irrefl;
  lt-trans = λ a b c p q. o.lt-trans c b a q p;
  lt-connected = λ a b p q. o.lt-connected a b q p;
}
