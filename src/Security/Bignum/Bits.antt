-- ===== src/Security/Bignum/Bits.antt =====
-- `get_bit` and `bit_length` on the number that the limbs stand for.
use gcad.Base.{
  ℕ, zero, suc, ◌+◌, ◌-◌, ◌*◌, ◌/◌, ◌%◌, ◌^◌, ◌≤◌, ◌<◌, ◌≡◌, refl, sym, ap, subst, ◌∙◌, [], ◌∷◌,
  arith, length, if_cases, ◌==◌, true, false, Bool,
}
use gcad.Base.Bits.{bit_and-one}
use native.Mathlib.Numerals.{add-one}
use native.Mathlib.Decide.{dec_lt}
use native.Mathlib.Nat.{
  mul-le-mul_right, le_trans, zero-add, suc-add, zero-div, div-eq_of_lt, mod-eq_of_lt, add-zero,
  add-suc, div-div-eq-div-mul, pow-suc,
}
use gcad.Security.Bignum.{Limbs, radix, get_bit, bit_of, bit_length, top_bits, last_limb}
use gcad.Security.Bignum.Value.{value, IsLimbs}
use gcad.Security.Bignum.Product.{room}

pub pow_double : (n : ℕ) → 2 ^ (n + 1) ≡ 2 * 2 ^ n
pow_double n = omega (arith, ap (λ k. 2 ^ k) (add-one n), pow-suc 2 n)

pow_suc : (n : ℕ) → 2 ^ suc n ≡ 2 * 2 ^ n
pow_suc n = omega (arith, pow-suc 2 n)

pow_add : (m n : ℕ) → 2 ^ (m + n) ≡ 2 ^ m * 2 ^ n
pow_add m zero = omega (arith, ap (λ k. 2 ^ k) (add-zero m))
pow_add m (suc n) = rw (add-suc m n, pow_suc (m + n), pow_suc n, pow_add m n) (omega arith)

-- Halving before a shift by i is a shift by i + 1.
pub half_shift : (n i : ℕ) → n / 2 ^ suc i ≡ n / 2 / 2 ^ i
half_shift n i = rw (pow_suc i) (sym (div-div-eq-div-mul n 2 (2 ^ i)))

-- A shift by i is halved to one by i + 1.
pub shift_half : (n i : ℕ) → n / 2 ^ suc i ≡ n / 2 ^ i / 2
shift_half n i = rw (pow-suc 2 i) (sym (div-div-eq-div-mul n (2 ^ i) 2))

-- Bit i of the sum does not see what is added above it.
bit_low : (i k x v : ℕ) → (x + 2 ^ (i + suc k) * v) / 2 ^ i % 2 ≡ x / 2 ^ i % 2
bit_low zero k x v = rw (zero-add (suc k), pow_suc k) (omega arith)
bit_low (suc i) k x v =
    rw (half_shift x i, half_shift (x + 2 ^ (suc i + suc k) * v) i, halved) (bit_low i k (x / 2) v)
  where
    halved : (x + 2 ^ (suc i + suc k) * v) / 2 ≡ x / 2 + 2 ^ (i + suc k) * v
    halved = rw (suc-add i (suc k), pow_suc (i + suc k)) (omega arith)

bit_in_limb : (i x v : ℕ) → i < 32 → (x + radix * v) / 2 ^ i % 2 ≡ x / 2 ^ i % 2
bit_in_limb i x v h =
    subst (λ n. (x + 2 ^ n * v) / 2 ^ i % 2 ≡ x / 2 ^ i % 2) exponent (bit_low i (31 - i) x v)
  where
    exponent : i + suc (31 - i) ≡ 32
    exponent = omega arith

bit_above : (j x v : ℕ) → x < radix → (x + radix * v) / 2 ^ (32 + j) ≡ v / 2 ^ j
bit_above j x v h =
    rw (pow_add 32 j, sym (div-div-eq-div-mul (x + radix * v) radix (2 ^ j)))
      (ap (λ n. n / 2 ^ j) upper)
  where
    upper : (x + radix * v) / radix ≡ v
    upper = omega arith

-- The bit as a number.
abbrev pub bit : Bool → ℕ
bit true = 1
bit false = 0

get_bit-head : (x : ℕ) (xs : Limbs) (i : ℕ) → i < 32 → bit (get_bit (x ∷ xs) i) ≡ x / 2 ^ i % 2
unfolding get_bit
get_bit-head x xs i h =
    rw (div-eq_of_lt h, mod-eq_of_lt h) (unfold bit_of in ground (arith, bit_and-one (x / 2 ^ i)))

get_bit-tail : (x : ℕ) (xs : Limbs) (j : ℕ) → get_bit (x ∷ xs) (32 + j) ≡ get_bit xs j
unfolding get_bit
get_bit-tail x xs j = rw (limb_index, bit_index)
  where
    limb_index : (32 + j) / 32 ≡ suc (j / 32)
    limb_index = omega arith

    bit_index : (32 + j) % 32 ≡ j % 32
    bit_index = omega arith

-- On 32-bit limbs `get_bit` reads the binary digit of the number, 0 past its end.
pub get_bit_lem : (a : Limbs) (i : ℕ) → IsLimbs a → bit (get_bit a i) ≡ value a / 2 ^ i % 2
get_bit_lem [] i h = rw (zero-div (2 ^ i)) (unfold get_bit bit_of in refl)
get_bit_lem (x ∷ xs) i h = elim (dec_lt i 32) [
  | yes near ↦ get_bit-head x xs i near ∙ sym (bit_in_limb i x (value xs) near)
  | no far ↦
      let j = i - 32 in
      let e : i ≡ 32 + j = omega arith in
      rw e (rw (get_bit-tail x xs j, bit_above j x (value xs) h.0) (get_bit_lem xs j h.1))
]

lt-le_trans : {a b c : ℕ} → a < b → b ≤ c → a < c
lt-le_trans h k = omega arith

zero_of_lt-one : (n : ℕ) → n < 2 ^ 0 → n ≡ 0
zero_of_lt-one n h = omega arith

zero_of_test : (n : ℕ) → (n == 0) ≡ true → n ≡ 0
zero_of_test n h = ground arith

top_bits_lem : (fuel top n : ℕ) → top < 2 ^ fuel → (top + 1) * 2 ^ n ≤ 2 ^ top_bits fuel top n
unfolding top_bits
top_bits_lem zero top n h = omega (arith, ap (λ t. (t + 1) * 2 ^ n) (zero_of_lt-one top h))
top_bits_lem (suc fuel) top n h =
    if_cases (λ r. (top + 1) * 2 ^ n ≤ 2 ^ r) (top == 0)
      (λ t. rw (zero_of_test top t) (omega arith))
      (λ _. le_trans (halved (2 ^ n)) (
        subst (λ q. (top / 2 + 1) * q ≤ 2 ^ top_bits fuel (top / 2) (n + 1)) (pow_double n)
          (top_bits_lem fuel (top / 2) (n + 1) (omega (arith, h, pow_suc fuel)))))
  where
    doubled : top + 1 ≤ (top / 2 + 1) * 2
    doubled = omega arith

    halved : (p : ℕ) → (top + 1) * p ≤ (top / 2 + 1) * (2 * p)
    halved p = omega (arith, mul-le-mul_right p doubled)

value-lt_last :
    (x : ℕ) (xs : Limbs)
    → IsLimbs (x ∷ xs)
    → value (x ∷ xs) < (last_limb (x ∷ xs) + 1) * room (length xs)
unfolding last_limb
value-lt_last x [] h = omega arith
value-lt_last x (y ∷ ys) h = omega (arith, value-lt_last y ys h.1)

room-pow : (n : ℕ) → room n ≡ 2 ^ (n * 32)
room-pow zero = refl
room-pow (suc n) = omega (arith, room-pow n, ap (λ k. 2 ^ k) (exponent n), pow_add 32 (n * 32))
  where
    exponent : (m : ℕ) → suc m * 32 ≡ 32 + m * 32
    exponent m = omega arith

last_limb-lt : (x : ℕ) (xs : Limbs) → IsLimbs (x ∷ xs) → last_limb (x ∷ xs) < radix
unfolding last_limb
last_limb-lt x [] h = h.0
last_limb-lt x (y ∷ ys) h = last_limb-lt y ys h.1

-- On 32-bit limbs the number has no binary digit from `bit_length` on.
pub value-lt-bit_length : (a : Limbs) → IsLimbs a → value a < 2 ^ bit_length a
unfolding bit_length
value-lt-bit_length [] h = omega arith
value-lt-bit_length (x ∷ xs) h =
    subst (λ n. value (x ∷ xs) < 2 ^ top_bits 33 (last_limb (x ∷ xs)) (n * 32)) limbs_above
      (lt-le_trans (value-lt_last x xs h) (
        subst
          (λ q.
            (last_limb (x ∷ xs) + 1) * q ≤ 2 ^ top_bits 33 (last_limb (x ∷ xs)) (length xs * 32))
          (sym (room-pow (length xs)))
          (top_bits_lem 33 (last_limb (x ∷ xs)) (length xs * 32)
            (omega (arith, last_limb-lt x xs h)))))
  where
    limbs_above : length xs ≡ suc (length xs) - 1
    limbs_above = omega arith
