-- ===== src/Security/Bignum/Product.antt =====
-- `multiply` on the numbers that the limbs stand for. No store of the schoolbook loops falls outside
-- the array: what they hold stays below the room that its length gives.
use gcad.Base.{
  ℕ, zero, suc, ◌+◌, ◌-◌, ◌*◌, ◌/◌, ◌%◌, ◌^◌, ◌≤◌, ◌<◌, ◌≡◌, refl, ap, [], ◌∷◌, arith, length,
  length-replicate, if_cases, ◌==◌, replicate,
}
use native.Mathlib.Nat.{suc-add, zero-add}
use gcad.Security.Bignum.{
  Limbs, radix, rest_limbs, propagate, multiply_row, multiply_loop, multiply,
}
use gcad.Security.Bignum.Value.{
  value, IsLimbs, IsNormal, value-trim, trim-IsNormal, value-zero_limbs, replicate-IsLimbs,
}
use gcad.Security.Bignum.Sum.{head_rest, IsLimbs-rest}

-- The numbers that n limbs can hold are those below.
abbrev pub room : ℕ → ℕ
room zero = 1
room (suc n) = radix * room n

pub value-lt-room : (a : Limbs) → IsLimbs a → value a < room (length a)
value-lt-room [] h = omega arith
value-lt-room (x ∷ a) h = omega (arith, value-lt-room a h.1)

pub room-pos : (n : ℕ) → 0 < room n
room-pos zero = omega arith
room-pos (suc n) = omega (arith, room-pos n)

room-suc_add : (n m : ℕ) → room (suc n + m) ≡ radix * room (n + m)
room-suc_add n m = ap room (suc-add n m)

room-le-add : (n m : ℕ) → room m ≤ room (n + m)
room-le-add zero m = omega (arith, ap room (zero-add m))
room-le-add (suc n) m = omega (arith, room-suc_add n m, room-le-add n m)

propagate_lem :
    (rs : Limbs) (carry : ℕ)
    → IsLimbs rs
    → carry < radix
    → value rs + carry < room (length rs)
    → (value (propagate rs carry) ≡ value rs + carry)
      × IsLimbs (propagate rs carry)
      × (length (propagate rs carry) ≡ length rs)
unfolding propagate
propagate_lem [] carry h c r = (omega arith, tt, refl)
propagate_lem (x ∷ rs) carry h c r =
    let (sum, limbs, size) =
      propagate_lem rs ((x + carry) % 2 ^ 64 / radix) h.1 (omega arith) (omega arith) in
    if_cases
      (λ q. (value q ≡ x + radix * value rs + carry) × IsLimbs q × (length q ≡ suc (length rs)))
      (carry == 0) (λ t. (ground (arith, t), h, refl))
      (λ t. (omega (arith, sum), (omega arith, limbs), ap suc size))

product-le : (x y : ℕ) → x < radix → y < radix → x * y ≤ 18446744065119617025
product-le x y h k = grind arith

multiply_row_lem :
    (x : ℕ) (b rs : Limbs) (carry : ℕ)
    → x < radix
    → IsLimbs b
    → IsLimbs rs
    → carry < radix
    → value rs + x * value b + carry < room (length rs)
    → (value (multiply_row x b rs carry) ≡ value rs + x * value b + carry)
      × IsLimbs (multiply_row x b rs carry)
      × (length (multiply_row x b rs carry) ≡ length rs)
unfolding multiply_row
multiply_row_lem x [] rs carry hx hb hr c r =
    let (sum, limbs, size) = propagate_lem rs carry hr c (omega arith) in
    (omega (arith, sum), limbs, size)
multiply_row_lem x (y ∷ b) [] carry hx hb hr c r = (omega arith, tt, refl)
multiply_row_lem x (y ∷ b) (z ∷ rs) carry hx hb hr c r =
    let small = product-le x y hx hb.0 in
    let (sum, limbs, size) =
      multiply_row_lem x b rs ((x * y + z + carry) % 2 ^ 64 / radix) hx hb.1 hr.1
        (omega (arith, small)) (omega (arith, small)) in
    (omega (arith, sum, small), (omega arith, limbs), ap suc size)

scaled-lt : (x v r : ℕ) → x < radix → v < r → x * v + radix + r ≤ radix * r + 1
scaled-lt x v r h k = grind arith

length-rest_eq : (a : Limbs) → length (rest_limbs a) ≡ length a - 1
length-rest_eq [] = omega arith
length-rest_eq (x ∷ a) = omega arith

multiply_loop_lem :
    (a b result : Limbs)
    → IsLimbs a
    → IsLimbs b
    → IsLimbs result
    → length result ≡ length a + length b
    → value result < room (length b)
    → (value (multiply_loop a b result) ≡ value result + value a * value b)
      × IsLimbs (multiply_loop a b result)
unfolding multiply_loop
multiply_loop_lem [] b result ha hb hr l r = (omega arith, hr)
multiply_loop_lem (x ∷ a) b result ha hb hr l r =
    let row = multiply_row x b result 0 in
    let small = scaled-lt x (value b) (room (length b)) ha.0 (value-lt-room b hb) in
    let fits : value result + x * value b + 0 < room (length result) = omega (
      arith,
      small,
      ap room l,
      room-suc_add (length a) (length b),
      room-le-add (length a) (length b),
    ) in
    let (sum, limbs, size) = multiply_row_lem x b result 0 ha.0 hb hr (omega arith) fits in
    let (head_limbs, rest) = IsLimbs-rest row limbs in
    let (product, all_limbs) =
      multiply_loop_lem a b (rest_limbs row) ha.1 hb rest
        (omega (arith, length-rest_eq row, size, l)) (omega (arith, head_rest row, sum, small)) in
    (omega (arith, product, head_rest row, sum), (head_limbs, all_limbs))

-- On 32-bit limbs, of any number, `multiply` is multiplication, and its result is in normal form:
-- no product, sum or carry overflows.
pub multiply_lem :
    (a b : Limbs)
    → IsLimbs a
    → IsLimbs b
    → (value (multiply a b) ≡ value a * value b) × IsNormal (multiply a b)
unfolding multiply
multiply_lem [] b ha hb = (omega arith, tt)
multiply_lem (x ∷ a) [] ha hb = (omega arith, tt)
multiply_lem (x ∷ a) (y ∷ b) ha hb =
    let n = length (x ∷ a) + length (y ∷ b) in
    let (product, limbs) =
      multiply_loop_lem (x ∷ a) (y ∷ b) (replicate n 0) ha hb (replicate-IsLimbs n)
        (length-replicate n 0) (omega (arith, value-zero_limbs n, room-pos (length (y ∷ b)))) in
    let whole = multiply_loop (x ∷ a) (y ∷ b) (replicate n 0) in
    (omega (arith, value-trim whole, product, value-zero_limbs n), trim-IsNormal whole limbs)
