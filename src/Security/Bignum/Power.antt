-- ===== src/Security/Bignum/Power.antt =====
-- `mod_pow` is the power modulo m.
use gcad.Base.{
  ℕ, zero, suc, ◌+◌, ◌*◌, ◌/◌, ◌%◌, ◌^◌, ◌<◌, ◌≡◌, refl, sym, ap, subst, ◌∙◌, [], ◌∷◌, arith,
  if◌then◌else◌, Bool, true, false,
}
use native.Mathlib.Nat.{
  mod-eq_of_lt, mod-lt, div-add-mod, pow-suc, pow-zero, mul_assoc, div-one, mul-one, one-mul,
}
use native.Mathlib.Numerals.{add-one}
use gcad.Security.Bignum.{
  Limbs, multiply, from_small, get_bit, bit_length, mod_big, mod_pow, mod_pow_loop,
}
use gcad.Security.Bignum.Value.{
  value, IsLimbs, IsNormal, IsNormal-IsLimbs, from_small-IsNormal, value-from_small,
}
use gcad.Security.Bignum.Product.{multiply_lem}
use gcad.Security.Bignum.Bits.{bit, get_bit_lem, value-lt-bit_length, shift_half}
use gcad.Security.Bignum.Reduce.{mod_big_lem, mod_same}

mod-mul : (x y m : ℕ) → (x % m * y) % m ≡ (x * y) % m
mod-mul x y m =
    mod_same (x * y) (x % m * y) m (x / m * y)
      (omega (arith, ap (λ (t : ℕ). t * y) (div-add-mod x m)))

mul-mod : (x y m : ℕ) → (x * (y % m)) % m ≡ (x * y) % m
mul-mod x y m =
    mod_same (x * y) (x * (y % m)) m (x * (y / m))
      (omega (arith, ap (λ (t : ℕ). x * t) (div-add-mod y m)))

pow-mod : (x k m : ℕ) → (x % m) ^ k % m ≡ x ^ k % m
pow-mod x zero m = rw (pow-zero (x % m), pow-zero x) refl
pow-mod x (suc k) m =
    rw (pow-suc (x % m) k, pow-suc x k)
      (mul-mod ((x % m) ^ k) x m
        ∙ sym (mod-mul ((x % m) ^ k) x m)
        ∙ ap (λ n. n * x % m) (pow-mod x k m)
        ∙ mod-mul (x ^ k) x m)

-- One round of the square-and-multiply loop on numbers, without and with the digit.
round_even : (r b k m : ℕ) → (r * (b * b % m) ^ k) % m ≡ (r * (b * b) ^ k) % m
round_even r b k m =
    sym (mul-mod r ((b * b % m) ^ k) m)
    ∙ ap (λ n. r * n % m) (pow-mod (b * b) k m)
    ∙ mul-mod r ((b * b) ^ k) m

round_odd : (r b k m : ℕ) → (r * b % m * (b * b % m) ^ k) % m ≡ (r * b * (b * b) ^ k) % m
round_odd r b k m = mod-mul (r * b) ((b * b % m) ^ k) m ∙ round_even (r * b) b k m

pow_even : (b k : ℕ) → b ^ (2 * k) ≡ (b * b) ^ k
pow_even b zero = rw (pow-zero b, pow-zero (b * b)) refl
pow_even b (suc k) =
    rw (two_more k, pow-suc b (suc (2 * k)), pow-suc b (2 * k), pow-suc (b * b) k, pow_even b k)
      (omega arith)
  where
    two_more : (n : ℕ) → 2 * suc n ≡ suc (suc (2 * n))
    two_more n = omega arith

pow_odd : (b k : ℕ) → b ^ (2 * k + 1) ≡ b * (b * b) ^ k
pow_odd b k = rw (add-one (2 * k), pow-suc b (2 * k), pow_even b k) (omega arith)

-- The result after a round with digit d.
abbrev next_result : Bool → Limbs → Limbs → Limbs → Limbs
next_result d result base m = if d then mod_big (multiply result base) m else result

-- A round keeps what result and base stand for together.
round_lem :
    (d : Bool) (k n : ℕ) (result base m : Limbs)
    → n ≡ 2 * k + bit d
    → IsNormal m
    → 0 < value m
    → IsNormal result
    → IsNormal base
    → value result < value m
    → ((value (next_result d result base m) * (value base * value base % value m) ^ k) % value m
        ≡ (value result * value base ^ n) % value m)
      × (IsNormal (next_result d result base m) × value (next_result d result base m) < value m)
round_lem false k n result base m e hm p hr hb small =
    let even : 2 * k + 0 ≡ 2 * k = omega arith in
    (
      rw (e, even, pow_even (value base) k) (round_even (value result) (value base) k (value m)),
      (hr, small),
    )
round_lem true k n result base m e hm p hr hb small =
    let (product, normal_product) =
      multiply_lem result base (IsNormal-IsLimbs result hr) (IsNormal-IsLimbs base hb) in
    let (rest, normal) = mod_big_lem (multiply result base) m normal_product hm p in
    (
      rw (rest, product, e, pow_odd (value base) k)
          (round_odd (value result) (value base) k (value m)
            ∙ ap (λ t. t % value m)
                (mul_assoc (value result) (value base) ((value base * value base) ^ k))),
      (normal, rw rest (mod-lt (value (multiply result base)) p)),
    )

-- The square that a round leaves as the base.
square_lem :
    (base m : Limbs)
    → IsNormal m
    → 0 < value m
    → IsNormal base
    → (value (mod_big (multiply base base) m) ≡ value base * value base % value m)
      × IsNormal (mod_big (multiply base base) m)
square_lem base m hm p hb =
    let limbs = IsNormal-IsLimbs base hb in
    let (product, normal_product) = multiply_lem base base limbs limbs in
    let (rest, normal) = mod_big_lem (multiply base base) m normal_product hm p in
    (rest ∙ ap (λ t. t % value m) product, normal)

mod_pow_loop-suc :
    (e m : Limbs) (n i : ℕ) (result base : Limbs)
    → mod_pow_loop e m (suc n) i result base
      ≡ mod_pow_loop e m n
          (suc i)
          (next_result (get_bit e i) result base m)
          (mod_big (multiply base base) m)
unfolding mod_pow_loop
mod_pow_loop-suc e m n i result base =
    ap
      (λ j.
        mod_pow_loop e m n j (next_result (get_bit e i) result base m)
          (mod_big (multiply base base) m))
      (add-one i)

-- The rounds left make up for what the exponent's digits still ask.
mod_pow_loop_lem :
    (e m : Limbs) (n i : ℕ) (result base : Limbs)
    → IsLimbs e
    → IsNormal m
    → 0 < value m
    → IsNormal result
    → IsNormal base
    → value result < value m
    → value e / 2 ^ i < 2 ^ n
    → (value (mod_pow_loop e m n i result base)
        ≡ (value result * value base ^ (value e / 2 ^ i)) % value m)
      × IsNormal (mod_pow_loop e m n i result base)
mod_pow_loop_lem e m zero i result base he hm p hr hb small h =
    unfold mod_pow_loop in
    (
      subst (λ k. value result ≡ (value result * value base ^ k) % value m) (sym none_left)
          (rw (pow-zero (value base), mul-one (value result)) (sym (mod-eq_of_lt small))),
      hr,
    )
  where
    none_left : value e / 2 ^ i ≡ 0
    none_left = omega arith
mod_pow_loop_lem e m (suc n) i result base he hm p hr hb small h =
    let d = get_bit e i in
    let (square, normal_square) = square_lem base m hm p hb in
    let (kept, (normal, below)) =
      round_lem d (value e / 2 ^ suc i) (value e / 2 ^ i) result base m digit hm p hr hb small in
    let (power, normal_power) =
      mod_pow_loop_lem e m n (suc i) (next_result d result base m) (mod_big (multiply base base) m)
        he hm p normal normal_square below left in
    subst (λ t. (value t ≡ (value result * value base ^ (value e / 2 ^ i)) % value m) × IsNormal t)
      (sym (mod_pow_loop-suc e m n i result base))
      (
        power
            ∙ ap (λ t. (value (next_result d result base m) * t ^ (value e / 2 ^ suc i)) % value m)
                square
            ∙ kept,
        normal_power,
      )
  where
    digit : value e / 2 ^ i ≡ 2 * (value e / 2 ^ suc i) + bit (get_bit e i)
    digit = omega (arith, shift_half (value e) i, get_bit_lem e i he)

    left : value e / 2 ^ suc i < 2 ^ n
    left = omega (arith, h, shift_half (value e) i, pow-suc 2 n)

-- For a base, an exponent and a modulus in normal form, the modulus above 1, `mod_pow` is the
-- remainder of the power, in normal form.
pub mod_pow_lem :
    (b e m : Limbs)
    → IsNormal b
    → IsNormal e
    → IsNormal m
    → 1 < value m
    → (value (mod_pow b e m) ≡ value b ^ value e % value m) × IsNormal (mod_pow b e m)
unfolding mod_pow
mod_pow_lem b e [] hb he hm p = absurd (omega arith)
mod_pow_lem b e (x ∷ m) hb he hm p =
    let limbs = IsNormal-IsLimbs e he in
    let (rest, normal) = mod_big_lem b (x ∷ m) hb hm (omega arith) in
    let (power, normal_power) =
      mod_pow_loop_lem e (x ∷ m) (bit_length e) 0 (from_small 1) (mod_big b (x ∷ m)) limbs hm
        (omega arith) one_normal normal (rw one p)
        (rw (pow-zero 2, div-one (value e)) (value-lt-bit_length e limbs)) in
    (power ∙ whole rest, normal_power)
  where
    one : value (from_small 1) ≡ 1
    one = value-from_small 1

    one_normal : IsNormal (from_small 1)
    one_normal = from_small-IsNormal 1 (omega arith)

    whole :
        value (mod_big b (x ∷ m)) ≡ value b % value (x ∷ m)
        → (value (from_small 1) * value (mod_big b (x ∷ m)) ^ (value e / 2 ^ 0)) % value (x ∷ m)
          ≡ value b ^ value e % value (x ∷ m)
    whole rest =
        rw (one, rest, pow-zero 2, div-one (value e), one-mul ((value b % value (x ∷ m)) ^ value e))
          (pow-mod (value b) (value e) (value (x ∷ m)))
