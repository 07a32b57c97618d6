-- ===== src/Security/Bignum/Reduce.antt =====
-- `mod` is the remainder: long division, one binary digit a round.
use gcad.Base.{
  ℕ, zero, suc, ◌+◌, ◌-◌, ◌*◌, ◌/◌, ◌%◌, ◌^◌, ◌≤◌, ◌<◌, ◌≡◌, sym, ap, ◌∙◌, [], ◌∷◌, arith,
  if◌then◌else◌, Bool, true, false,
}
use native.Mathlib.Nat.{
  div-one, add-mul-mod_self_left, div-add-mod, mod-eq_of_lt, div-eq_of_lt, mod-eq-sub-mod, mod-lt,
  zero-mod,
}
use gcad.Security.Bignum.{
  Limbs, shift_left_one_bit, add, from_small, subtract, compare, get_bit, mod_step, mod_loop,
  mod_big, bit_length, Sign, less, equal, greater,
}
use gcad.Security.Bignum.Value.{
  value, IsLimbs, IsNormal, IsNormal-IsLimbs, Ordered, compare-Ordered, from_small-IsNormal,
  value-from_small,
}
use gcad.Security.Bignum.Sum.{add_lem, subtract_lem, shift_left_one_bit_lem}
use gcad.Security.Bignum.Bits.{bit, get_bit_lem, value-lt-bit_length, shift_half}

-- Numbers that differ by a multiple of m have one remainder.
pub mod_same : (n k m z : ℕ) → n ≡ k + m * z → k % m ≡ n % m
mod_same n k m z e = rw e (sym (add-mul-mod_self_left k m z))

-- The remainder after one more digit d.
next_remainder : (q m d : ℕ) → (2 * (q % m) + d) % m ≡ (2 * q + d) % m
next_remainder q m d =
    mod_same (2 * q + d) (2 * (q % m) + d) m (2 * (q / m)) (omega (arith, div-add-mod q m))

reduce_once : (n m : ℕ) → n < 2 * m → m ≤ n → n - m ≡ n % m
reduce_once n m h k = sym (mod-eq-sub-mod k ∙ mod-eq_of_lt (omega arith))

-- The choice at the end of a round: the remainder of a number below twice the modulus.
reduced :
    (next m : Limbs) (r : Sign)
    → IsNormal next
    → IsNormal m
    → value next < 2 * value m
    → Ordered r (value next) (value m)
    → (value (elim r [ less ↦ next | _ ↦ subtract next m ]) ≡ value next % value m)
      × IsNormal (elim r [ less ↦ next | _ ↦ subtract next m ])
reduced next m less hn hm h o = (sym (mod-eq_of_lt o), hn)
reduced next m equal hn hm h o =
    let (rest, normal) =
      subtract_lem next m (IsNormal-IsLimbs next hn) (IsNormal-IsLimbs m hm) (omega arith) in
    (omega (arith, rest, reduce_once (value next) (value m) h (omega arith)), normal)
reduced next m greater hn hm h o =
    let (rest, normal) =
      subtract_lem next m (IsNormal-IsLimbs next hn) (IsNormal-IsLimbs m hm) (omega arith) in
    (omega (arith, rest, reduce_once (value next) (value m) h (omega arith)), normal)

-- What a round brings down: the remainder doubled, with the next digit.
abbrev brought_down : Limbs → ℕ → Limbs → Limbs
brought_down a idx remainder =
    if get_bit a idx
    then add (shift_left_one_bit remainder) (from_small 1)
    else shift_left_one_bit remainder

brought_down_lem :
    (a : Limbs) (idx : ℕ) (remainder : Limbs)
    → IsNormal remainder
    → (value (brought_down a idx remainder) ≡ 2 * value remainder + bit (get_bit a idx))
      × IsNormal (brought_down a idx remainder)
brought_down_lem a idx remainder h = by_digit (get_bit a idx)
  where
    by_digit :
        (b : Bool)
        → (value (
              if b
              then add (shift_left_one_bit remainder) (from_small 1)
              else shift_left_one_bit remainder)
            ≡ 2 * value remainder + bit b)
          × IsNormal (
              if b
              then add (shift_left_one_bit remainder) (from_small 1)
              else shift_left_one_bit remainder)
    by_digit false =
        let (doubled, normal) = shift_left_one_bit_lem remainder (IsNormal-IsLimbs remainder h) in
        (omega (arith, doubled), normal)
    by_digit true =
        let (doubled, normal) = shift_left_one_bit_lem remainder (IsNormal-IsLimbs remainder h) in
        let (sum, result) =
          add_lem (shift_left_one_bit remainder) (from_small 1) (IsNormal-IsLimbs _ normal)
            (IsNormal-IsLimbs _ (from_small-IsNormal 1 (omega arith))) in
        (omega (arith, sum, doubled, value-from_small 1), result)

mod_step_lem :
    (a m : Limbs) (idx : ℕ) (remainder : Limbs)
    → IsLimbs a
    → IsNormal m
    → 0 < value m
    → IsNormal remainder
    → value remainder ≡ value a / 2 ^ suc idx % value m
    → (value (mod_step a m idx remainder) ≡ value a / 2 ^ idx % value m)
      × IsNormal (mod_step a m idx remainder)
unfolding mod_step
mod_step_lem a m idx remainder ha hm p hr e =
    let (sum, normal) = brought_down_lem a idx remainder hr in
    let digit = get_bit_lem a idx ha in
    let small = mod-lt (value a / 2 ^ suc idx) p in
    let next = brought_down a idx remainder in
    let (value_eq, result) =
      reduced next m (compare next m) normal hm (omega (arith, sum, digit, e, small))
        (compare-Ordered next m normal hm) in
    (
      value_eq
          ∙ ap (λ n. n % value m) (sum ∙ omega (arith, e, digit))
          ∙ next_remainder (value a / 2 ^ suc idx) (value m) (value a / 2 ^ idx % 2)
          ∙ ap (λ n. n % value m) (rejoined (value a) idx),
      result,
    )
  where
    rejoined : (v i : ℕ) → 2 * (v / 2 ^ suc i) + v / 2 ^ i % 2 ≡ v / 2 ^ i
    rejoined v i = omega (arith, shift_half v i)

mod_loop_lem :
    (a m : Limbs) (idx : ℕ) (remainder : Limbs)
    → IsLimbs a
    → IsNormal m
    → 0 < value m
    → IsNormal remainder
    → value remainder ≡ value a / 2 ^ idx % value m
    → (value (mod_loop a m idx remainder) ≡ value a % value m)
      × IsNormal (mod_loop a m idx remainder)
unfolding mod_loop
mod_loop_lem a m zero remainder ha hm p hr e = (e ∙ ap (λ n. n % value m) (div-one (value a)), hr)
mod_loop_lem a m (suc idx) remainder ha hm p hr e =
    let (next, normal) = mod_step_lem a m idx remainder ha hm p hr e in
    mod_loop_lem a m idx (mod_step a m idx remainder) ha hm p normal next

started : (a m : Limbs) → IsLimbs a → 0 ≡ value a / 2 ^ bit_length a % value m
started a m h = rw (div-eq_of_lt (value-lt-bit_length a h)) (sym (zero-mod (value m)))

by_sign :
    (a m : Limbs) (r : Sign)
    → IsNormal a
    → IsNormal m
    → 0 < value m
    → Ordered r (value a) (value m)
    → (value (elim r [ less ↦ a | _ ↦ mod_loop a m (bit_length a) [] ]) ≡ value a % value m)
      × IsNormal (elim r [ less ↦ a | _ ↦ mod_loop a m (bit_length a) [] ])
by_sign a m less ha hm p o = (sym (mod-eq_of_lt o), ha)
by_sign a m equal ha hm p o =
    mod_loop_lem a m (bit_length a) [] (IsNormal-IsLimbs a ha) hm p tt
      (started a m (IsNormal-IsLimbs a ha))
by_sign a m greater ha hm p o =
    mod_loop_lem a m (bit_length a) [] (IsNormal-IsLimbs a ha) hm p tt
      (started a m (IsNormal-IsLimbs a ha))

-- For numbers in normal form, `mod` is the remainder by any modulus but zero, in normal form.
pub mod_big_lem :
    (a m : Limbs)
    → IsNormal a
    → IsNormal m
    → 0 < value m
    → (value (mod_big a m) ≡ value a % value m) × IsNormal (mod_big a m)
unfolding mod_big
mod_big_lem a [] ha hm p = absurd (omega arith)
mod_big_lem a (x ∷ m) ha hm p =
    by_sign a (x ∷ m) (compare a (x ∷ m)) ha hm p (compare-Ordered a (x ∷ m) ha hm)
