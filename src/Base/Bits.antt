-- ===== src/Base/Bits.antt =====
-- What a lone low digit does under `bit_and` and `bit_or`.
use Prim.Native.Nat.{
  ℕ, zero, suc, ◌+◌, ◌*◌, ◌/◌, ◌%◌, ◌≤◌, ◌<◌, ◌^◌, min, max, bit_and, bit_or, digits,
  bit_and-bitwise, bit_or-bitwise,
}
use mathlib.Core.Path.{◌≡◌, refl, ap, ◌∙◌}
use mathlib.Core.Bool.{Bool, true, ◌&&◌}
use mathlib.Core.Logic.{inl, inr}
use gcad.Base.Tests.{◌==◌, Bool-cases}
use native.Mathlib.Nat.{pow-suc}
use native.Mathlib.Omega.{arith}

-- An operation on digits against 0 is g, where g follows the operation digit by digit.
module _ (z g : ℕ → ℕ) (f : ℕ → ℕ → ℕ) (base : z 0 ≡ g 0)
    (halves : (a : ℕ) → g (a / 2) * 2 + f (a % 2) 0 ≡ g a) where
  against_zero : (n a : ℕ) → a ≤ n → digits z f n a 0 ≡ g a
  against_zero zero zero below = base
  against_zero (suc n) zero below = base
  against_zero zero (suc a) below = absurd (omega arith)
  against_zero (suc n) (suc a) below =
      omega (arith, halves (suc a), against_zero n (suc a / 2) (omega arith))

pub bit_and-one : (a : ℕ) → bit_and a 1 ≡ a % 2
bit_and-one zero = refl
bit_and-one (suc a) = omega (
  arith,
  bit_and-bitwise (suc a) 1,
  against_zero (λ _. 0) (λ _. 0) min refl (λ n. omega arith) a (suc a / 2) (omega arith),
)

-- The low digit that `c` is, put under an even number.
pub bit_or_low : (a c : ℕ) → a % 2 ≡ 0 → c < 2 → bit_or a c ≡ a + c
bit_or_low zero c even digit = omega (arith, bit_or-bitwise 0 c)
bit_or_low (suc a) c even digit = omega (arith, bit_or-bitwise (suc a) c, halved c digit)
  where
    kept : digits (λ b. b) max a (suc a / 2) 0 ≡ suc a / 2
    kept = against_zero (λ b. b) (λ b. b) max refl (λ n. omega arith) a (suc a / 2) (omega arith)

    halved : (d : ℕ) → d < 2 → digits (λ b. b) max a (suc a / 2) (d / 2) ≡ suc a / 2
    halved zero h = kept
    halved (suc zero) h = kept
    halved (suc (suc d)) h = absurd (omega arith)

-- Digits put above the k lowest, where the other number has none.
or_above : (k n x y : ℕ) → x ≤ n → x < 2 ^ k → digits (λ b. b) max n x (y * 2 ^ k) ≡ x + y * 2 ^ k
or_above zero zero zero y fuel low = omega arith
or_above zero (suc n) zero y fuel low = omega arith
or_above zero n (suc x) y fuel low = absurd (omega arith)
or_above (suc k) zero zero y fuel low = omega arith
or_above (suc k) (suc n) zero y fuel low = omega arith
or_above (suc k) zero (suc x) y fuel low = absurd (omega arith)
or_above (suc k) (suc n) (suc x) y fuel low = omega (
  arith,
  doubled,
  ap (λ b. digits (λ b. b) max n (suc x / 2) b) halved,
  or_above k n (suc x / 2) y (omega arith) (omega (arith, pow-suc 2 k)),
)
  where
    doubled : y * 2 ^ suc k ≡ 2 * (y * 2 ^ k)
    doubled = rw (pow-suc 2 k) (omega arith)

    halved : y * 2 ^ suc k / 2 ≡ y * 2 ^ k
    halved = omega (arith, doubled)

-- Numbers whose digits do not meet: `bit_or` is their sum.
pub bit_or_above : (k x y : ℕ) → x < 2 ^ k → bit_or x (y * 2 ^ k) ≡ x + y * 2 ^ k
bit_or_above k x y low = bit_or-bitwise x (y * 2 ^ k) ∙ or_above k x x y (omega arith) low

or_below : (k n a x y : ℕ) → a ≡ y * 2 ^ k → a ≤ n → x < 2 ^ k → digits (λ b. b) max n a x ≡ a + x
or_below zero n a zero y shifted fuel low =
    against_zero (λ b. b) (λ b. b) max refl (λ n. omega arith) n a fuel ∙ omega arith
or_below zero n a (suc x) y shifted fuel low = absurd (omega arith)
or_below (suc k) zero zero x y shifted fuel low = omega arith
or_below (suc k) zero (suc a) x y shifted fuel low = absurd (omega arith)
or_below (suc k) (suc n) zero x y shifted fuel low = omega arith
or_below (suc k) (suc n) (suc a) x y shifted fuel low = omega (
  arith,
  whole,
  or_below k n (suc a / 2) (x / 2) y (omega (arith, whole)) (omega arith)
      (omega (arith, pow-suc 2 k)),
)
  where
    doubled : y * 2 ^ suc k ≡ 2 * (y * 2 ^ k)
    doubled = rw (pow-suc 2 k) (omega arith)

    whole : suc a ≡ 2 * (y * 2 ^ k)
    whole = shifted ∙ doubled

-- The same with the lower digits second.
pub bit_or_below : (k x y : ℕ) → x < 2 ^ k → bit_or (y * 2 ^ k) x ≡ y * 2 ^ k + x
bit_or_below k x y low =
    bit_or-bitwise (y * 2 ^ k) x ∙ or_below k (y * 2 ^ k) (y * 2 ^ k) x y refl (omega arith) low

-- A test that holds of every number below n.
abbrev pub all_below : ℕ → (ℕ → Bool) → Bool
all_below zero test = true
all_below (suc n) test = test n && all_below n test

pub all_below_at :
    (n : ℕ) (test : ℕ → Bool) → all_below n test ≡ true → (i : ℕ) → i < n → test i ≡ true
all_below_at zero test h i below = absurd (omega arith)
all_below_at (suc n) test h i below = elim (Bool-cases (i == n)) [
  | inl e ↦ ap test {x = i} {y = n} (ground (arith, e)) ∙ ground (arith, h)
  | inr e ↦ all_below_at n test (ground (arith, h)) i (ground (arith, e, below))
]
