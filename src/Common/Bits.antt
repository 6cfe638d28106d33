-- ===== src/Common/Bits.antt =====
-- `&`, `|` and `<<` of the source as arithmetic: masks of low bits, disjoint fields, and a byte's top bit.
use Prim.Native.Nat.{
  ℕ, zero, suc, ◌+◌, ◌*◌, ◌/◌, ◌%◌, ◌^◌, ◌≤◌, ◌<◌, min, max, bit_and, bit_or, digits,
  bit_and-bitwise, bit_or-bitwise,
}
use mathlib.Core.Path.{◌≡◌, refl, ap}
use mathlib.Core.Bool.{Bool, true, ◌&&◌}
use native.Mathlib.Omega.{arith}
use native.Mathlib.Nat.{pow-suc}
use blazesym.Common.Tests.{◌==◌, ==_iff}

-- `&` and `|` stand for a recursion on digits, which goes on while there are digits and fuel. More
-- fuel than the first number is no help.
module _ (rest : ℕ → ℕ) (digit : ℕ → ℕ → ℕ) where
  fuel_free :
      (a b fuel more : ℕ)
      → a ≤ fuel
      → a ≤ more
      → digits rest digit fuel a b ≡ digits rest digit more a b
  fuel_free (suc a) b zero more h k = absurd (omega arith)
  fuel_free (suc a) b (suc fuel) zero h k = absurd (omega arith)
  fuel_free (suc a) b (suc fuel) (suc more) h k =
      let shorter = fuel_free (suc a / 2) (b / 2) fuel more (omega arith) (omega arith) in
      rw shorter refl
  fuel_free zero b zero zero h k = refl
  fuel_free zero b zero (suc more) h k = refl
  fuel_free zero b (suc fuel) zero h k = refl
  fuel_free zero b (suc fuel) (suc more) h k = refl

-- What is left of the fuel behind the first digit of `a + 1` is enough for the others.
abbrev half : ℕ → ℕ
half a = suc a / 2

zero-bit_and : (b : ℕ) → bit_and 0 b ≡ 0
zero-bit_and b = bit_and-bitwise 0 b

zero-bit_or : (b : ℕ) → bit_or 0 b ≡ b
zero-bit_or b = bit_or-bitwise 0 b

bit_and_step : (a b : ℕ) → bit_and a b ≡ min (a % 2) (b % 2) + 2 * bit_and (a / 2) (b / 2)
bit_and_step zero b = omega (arith, zero-bit_and (b / 2), zero-bit_and b)
bit_and_step (suc a) b =
    let others = fuel_free (λ n. 0) min (half a) (b / 2) a (half a) (omega arith) (omega arith) in
    omega (others, bit_and-bitwise (half a) (b / 2), bit_and-bitwise (suc a) b, arith)

bit_or_step : (a b : ℕ) → bit_or a b ≡ max (a % 2) (b % 2) + 2 * bit_or (a / 2) (b / 2)
bit_or_step zero b = omega (arith, zero-bit_or (b / 2), zero-bit_or b)
bit_or_step (suc a) b =
    let others = fuel_free (λ n. n) max (half a) (b / 2) a (half a) (omega arith) (omega arith) in
    omega (others, bit_or-bitwise (half a) (b / 2), bit_or-bitwise (suc a) b, arith)

double_field : (q k : ℕ) → q * 2 ^ suc k ≡ 2 * (q * 2 ^ k)
double_field q k = omega (arith, ap (λ (t : ℕ). q * t) (pow-suc 2 k))

-- `r | (q << k)` is a sum where `r` has at most `k` bits.
pub bit_or-shifted : (k r q : ℕ) → r < 2 ^ k → bit_or r (q * 2 ^ k) ≡ r + q * 2 ^ k
bit_or-shifted zero zero q h = omega (arith, zero-bit_or (q * 2 ^ 0))
bit_or-shifted zero (suc r) q h = absurd (omega arith)
bit_or-shifted (suc k) r q h = omega (
  arith,
  bit_or_step r (q * 2 ^ suc k),
  double_field q k,
  ap (λ (t : ℕ). bit_or (r / 2) t) (half_field q k),
  bit_or-shifted k (r / 2) q (omega (arith, pow-suc 2 k)),
)
  where
    half_field : (q k : ℕ) → q * 2 ^ suc k / 2 ≡ q * 2 ^ k
    half_field q k = omega (arith, double_field q k)

-- A test of every number below a bound, which evaluates.
unfoldable pub all_below : ℕ → (ℕ → Bool) → Bool
all_below (suc bound) test = all_below bound test && test bound
all_below zero test = true

pub all_below_sound :
    (bound : ℕ) (test : ℕ → Bool) (n : ℕ) → n < bound → all_below bound test ≡ true → test n ≡ true
unfolding all_below
all_below_sound (suc bound) test n lt h = ground (arith, all_below_sound bound test n)
all_below_sound zero test n lt h = absurd (omega arith)

-- The masks that the LEB128 readers use, on a byte.
low_seven_table : all_below 256 (λ b. bit_and b 0x7f == b % 128) ≡ true
unfolding all_below
low_seven_table = refl

pub bit_and_low_seven : (b : ℕ) → b < 256 → bit_and b 0x7f ≡ b % 128
bit_and_low_seven b h = (==_iff _ _).0 (all_below_sound 256 _ b h low_seven_table)

top_bit_table : all_below 256 (λ b. bit_and b 0x80 == b / 128 * 128) ≡ true
unfolding all_below
top_bit_table = refl

pub bit_and_top : (b : ℕ) → b < 256 → bit_and b 0x80 ≡ b / 128 * 128
bit_and_top b h = (==_iff _ _).0 (all_below_sound 256 _ b h top_bit_table)

sign_bit_table : all_below 256 (λ b. bit_and b 0x40 == b / 64 % 2 * 64) ≡ true
unfolding all_below
sign_bit_table = refl

pub bit_and_sign : (b : ℕ) → b < 256 → bit_and b 0x40 ≡ b / 64 % 2 * 64
bit_and_sign b h = (==_iff _ _).0 (all_below_sound 256 _ b h sign_bit_table)
