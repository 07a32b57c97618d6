-- ===== src/Security/Bignum/Sum.antt =====
-- `add`, `subtract` and `shift_left_one_bit` on the numbers that the limbs stand for.
use gcad.Base.{
  ℕ, zero, suc, ◌+◌, ◌*◌, ◌/◌, ◌%◌, ◌^◌, ◌≤◌, ◌<◌, ◌≡◌, refl, sym, ap, subst, [], ◌∷◌, arith,
  length, max, ltb, if◌then◌else◌,
}
use gcad.Base.Bits.{bit_or_low}
use native.Mathlib.Numerals.{add-one}
use gcad.Security.Bignum.{
  Limbs, radix, head_limb, rest_limbs, add, add_loop, subtract, subtract_loop, shift_loop,
  shift_left_one_bit,
}
use gcad.Security.Bignum.Value.{value, IsLimbs, IsNormal, value-trim, trim-IsNormal}

pub head_rest : (a : Limbs) → value a ≡ head_limb a + radix * value (rest_limbs a)
head_rest [] = omega arith
head_rest (x ∷ a) = refl

pub IsLimbs-rest : (a : Limbs) → IsLimbs a → (head_limb a < radix) × IsLimbs (rest_limbs a)
IsLimbs-rest [] h = (omega arith, tt)
IsLimbs-rest (x ∷ a) h = h

pub length-rest : (a : Limbs) (n : ℕ) → length a ≤ suc n → length (rest_limbs a) ≤ n
length-rest [] n h = omega arith
length-rest (x ∷ a) n h = omega arith

value-empty : (a : Limbs) → length a ≤ 0 → value a ≡ 0
value-empty [] h = refl
value-empty (x ∷ a) h = absurd (omega arith)

-- The sum of one round.
abbrev round_sum : Limbs → Limbs → ℕ → ℕ
round_sum a b carry = (head_limb a + head_limb b + carry) % 2 ^ 64

add_loop_round :
    (n : ℕ) (a b : Limbs) (carry : ℕ)
    → add_loop (suc n) a b carry
      ≡ (round_sum a b carry % radix)
        ∷ add_loop n (rest_limbs a) (rest_limbs b) (round_sum a b carry / radix)
unfolding add_loop
add_loop_round n a b carry = refl

add_loop_last :
    (a b : Limbs) (carry : ℕ)
    → length a ≤ 0
    → length b ≤ 0
    → carry ≤ 1
    → (value (add_loop 1 a b carry) ≡ value a + value b + carry) × IsLimbs (add_loop 1 a b carry)
unfolding add_loop
add_loop_last [] [] carry la lb c = (omega arith, (omega arith, tt))
add_loop_last (x ∷ a) b carry la lb c = absurd (omega arith)
add_loop_last [] (y ∷ b) carry la lb c = absurd (omega arith)

add_loop_lem :
    (n : ℕ) (a b : Limbs) (carry : ℕ)
    → IsLimbs a
    → IsLimbs b
    → length a ≤ n
    → length b ≤ n
    → carry ≤ 1
    → (value (add_loop (suc n) a b carry) ≡ value a + value b + carry)
      × IsLimbs (add_loop (suc n) a b carry)
add_loop_lem zero a b carry ha hb la lb c = add_loop_last a b carry la lb c
add_loop_lem (suc n) a b carry ha hb la lb c =
    let (xa, ra) = IsLimbs-rest a ha in
    let (xb, rb) = IsLimbs-rest b hb in
    let (sum_rest, limbs_rest) =
      add_loop_lem n (rest_limbs a) (rest_limbs b) (round_sum a b carry / radix) ra rb
        (length-rest a n la) (length-rest b n lb) (omega arith) in
    (
      omega
          (arith, ap value (add_loop_round (suc n) a b carry), sum_rest, head_rest a, head_rest b),
      subst IsLimbs (sym (add_loop_round (suc n) a b carry)) (omega arith, limbs_rest),
    )

-- On 32-bit limbs `add` is addition, and its result is in normal form.
pub add_lem :
    (a b : Limbs)
    → IsLimbs a
    → IsLimbs b
    → (value (add a b) ≡ value a + value b) × IsNormal (add a b)
unfolding add
add_lem a b ha hb =
    let n = max (length a) (length b) in
    let (sum, limbs) = add_loop_lem n a b 0 ha hb (omega arith) (omega arith) (omega arith) in
    (
      omega (
        arith,
        value-trim (add_loop (n + 1) a b 0),
        ap (λ k. value (add_loop k a b 0)) (add-one n),
        sum,
      ),
      trim-IsNormal (add_loop (n + 1) a b 0)
          (subst (λ k. IsLimbs (add_loop k a b 0)) (sym (add-one n)) limbs),
    )

subtract_loop_lem :
    (a b : Limbs) (borrow : ℕ)
    → IsLimbs a
    → IsLimbs b
    → borrow ≤ 1
    → value b + borrow ≤ value a
    → (value (subtract_loop a b borrow) + value b + borrow ≡ value a)
      × IsLimbs (subtract_loop a b borrow)
unfolding subtract_loop
subtract_loop_lem [] b borrow ha hb c h = (omega arith, tt)
subtract_loop_lem (x ∷ a) b borrow ha hb c h =
    let (xb, rb) = IsLimbs-rest b hb in
    let next : ℕ = if ltb x (head_limb b + borrow) then 1 else 0 in
    let (rest, limbs) =
      subtract_loop_lem a (rest_limbs b) next ha.1 rb (ground arith)
        (ground (arith, head_rest b)) in
    (ground (arith, rest, head_rest b), (ground arith, limbs))

-- On 32-bit limbs `subtract` is subtraction where the result is no negative number, and its result
-- is in normal form.
pub subtract_lem :
    (a b : Limbs)
    → IsLimbs a
    → IsLimbs b
    → value b ≤ value a
    → (value (subtract a b) + value b ≡ value a) × IsNormal (subtract a b)
unfolding subtract
subtract_lem a b ha hb h =
    let (rest, limbs) = subtract_loop_lem a b 0 ha hb (omega arith) (omega arith) in
    (
      omega (arith, value-trim (subtract_loop a b 0), rest),
      trim-IsNormal (subtract_loop a b 0) limbs,
    )

shift_loop_lem :
    (a : Limbs) (carry : ℕ)
    → IsLimbs a
    → carry < 2
    → (value (shift_loop a carry) ≡ 2 * value a + carry) × IsLimbs (shift_loop a carry)
unfolding shift_loop
shift_loop_lem [] carry h c = (omega arith, (omega arith, tt))
shift_loop_lem (x ∷ a) carry h c =
    let (rest, limbs) = shift_loop_lem a (x / 2 ^ 31) h.1 (omega arith) in
    let low = bit_or_low (x * 2 % radix) carry (omega arith) c in
    (omega (arith, rest, low), (omega (arith, low), limbs))

-- On 32-bit limbs `shift_left_one_bit` doubles, and its result is in normal form.
pub shift_left_one_bit_lem :
    (a : Limbs)
    → IsLimbs a
    → (value (shift_left_one_bit a) ≡ 2 * value a) × IsNormal (shift_left_one_bit a)
unfolding shift_left_one_bit
shift_left_one_bit_lem [] h = (refl, tt)
shift_left_one_bit_lem (x ∷ a) h =
    let (sum, limbs) = shift_loop_lem (x ∷ a) 0 h (omega arith) in
    (
      omega (arith, value-trim (shift_loop (x ∷ a) 0), sum),
      trim-IsNormal (shift_loop (x ∷ a) 0) limbs,
    )
