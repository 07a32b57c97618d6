-- ===== src/Security/Bignum/Printed.antt =====
-- `to_bytes_be`, and the way there and back.
use gcad.Base.{
  ℕ, zero, suc, ◌+◌, ◌-◌, ◌*◌, ◌^◌, ◌≤◌, ◌<◌, ◌≡◌, refl, sym, ap, subst, ◌∙◌, [], ◌∷◌, ◌++◌, arith,
  length, length-append, length-replicate, if_cases, replicate, ◌==◌, ◌&&◌, ltb, some, All,
  All-append, true, false, ◌⊎◌, inl, inr, Bool-cases,
}
use gcad.Base.Bytes.{Bytes}
use gcad.Security.Bignum.{Limbs, unpack, keep_one, padded, is_zero_byte, to_bytes_be, from_bytes_be}
use gcad.Security.Bignum.Value.{value, IsLimbs, IsNormal, IsNormal-IsLimbs}
use gcad.Security.Bignum.Octets.{
  IsByte, number_after, little_number, number_after_lem, reverse-All, from_bytes_be_lem,
}
use mathlib.Core.List.{reverse, reverse-reverse}
use native.Mathlib.Decide.{dec_lt}
use native.Mathlib.Nat.{pow-suc, pow-le-pow_right}

unpack_lem : (a : Limbs) → IsLimbs a → (little_number (unpack a) ≡ value a) × All IsByte (unpack a)
unfolding unpack little_number
unpack_lem [] h = (refl, tt)
unpack_lem (x ∷ xs) h =
    let (number, bytes) = unpack_lem xs h.1 in
    (omega (arith, number, h.0), (omega arith, (omega arith, (omega arith, (omega arith, bytes)))))

keep_one_lem :
    (bs : Bytes)
    → All IsByte bs
    → (number_after 0 (keep_one bs) ≡ number_after 0 bs) × All IsByte (keep_one bs)
unfolding keep_one
keep_one_lem [] h = (refl, h)
keep_one_lem (b ∷ []) h = (refl, h)
keep_one_lem (b ∷ (c ∷ rest)) h =
    if_cases (λ r. (number_after 0 r ≡ number_after 0 (b ∷ (c ∷ rest))) × All IsByte r) (b == 0)
      (λ e.
        let (number, bytes) = keep_one_lem (c ∷ rest) h.1 in
        (number ∙ ap (λ n. number_after n (c ∷ rest)) (zero_digit e), bytes))
      (λ _. (refl, h))
  where
    zero_digit : (b == 0) ≡ true → 0 ≡ 0 * 256 + b
    zero_digit e = ground arith

zeros_lem : (n : ℕ) (bs : Bytes) → number_after 0 (replicate n 0 ++ bs) ≡ number_after 0 bs
zeros_lem zero bs = refl
zeros_lem (suc n) bs = zeros_lem n bs

zeros-All : (n : ℕ) → All IsByte (replicate n 0)
zeros-All zero = tt
zeros-All (suc n) = (omega arith, zeros-All n)

zero_byte_lem : (bs : Bytes) → is_zero_byte bs ≡ true → number_after 0 bs ≡ 0
unfolding is_zero_byte
zero_byte_lem [] h = refl
zero_byte_lem (b ∷ []) h = ground (arith, h)
zero_byte_lem (b ∷ (c ∷ rest)) h = cc

padded_lem :
    (bs : Bytes) (n : ℕ)
    → All IsByte bs
    → (number_after 0 (padded bs n) ≡ number_after 0 bs) × All IsByte (padded bs n)
unfolding padded
padded_lem bs n h =
    if_cases P (is_zero_byte bs && (n == 0)) (λ e. (sym (zero_byte_lem bs (ground (arith, e))), tt))
      (λ _.
        if_cases P (ltb (length bs) n)
          (λ _. (
            zeros_lem (n - length bs) bs,
            All-append IsByte (replicate (n - length bs) 0) bs (zeros-All (n - length bs)) h,
          ))
          (λ _. (refl, h)))
  where
    P : Bytes → Type 0
    P r = (number_after 0 r ≡ number_after 0 bs) × All IsByte r

-- `to_bytes_be` of 32-bit limbs is bytes that stand for their number, the most significant first, however
-- many are asked for.
pub to_bytes_be_lem :
    (a : Limbs) (min_len : ℕ)
    → IsLimbs a
    → (number_after 0 (to_bytes_be a min_len) ≡ value a) × All IsByte (to_bytes_be a min_len)
unfolding to_bytes_be
to_bytes_be_lem a n h =
    let (number, bytes) = unpack_lem a h in
    let (kept, kept_bytes) = keep_one_lem (reverse (unpack a)) (reverse-All (unpack a) bytes) in
    let (same, all_bytes) = padded_lem (keep_one (reverse (unpack a))) n kept_bytes in
    (same ∙ kept ∙ number_after_lem 0 (reverse (unpack a)) ∙ turned number, all_bytes)
  where
    turned :
        little_number (unpack a) ≡ value a
        → little_number (reverse (reverse (unpack a))) + 0 * 256 ^ length (reverse (unpack a))
          ≡ value a
    turned number = rw (reverse-reverse (unpack a)) (omega (arith, number))

-- Limbs in normal form are determined by their number.
value-injective : (a b : Limbs) → IsNormal a → IsNormal b → value a ≡ value b → a ≡ b
value-injective [] [] ha hb e = refl
value-injective [] (y ∷ b) ha hb e = absurd (omega (arith, hb.1))
value-injective (x ∷ a) [] ha hb e = absurd (omega (arith, ha.1))
value-injective (x ∷ a) (y ∷ b) ha hb e =
    let low : x ≡ y = omega (arith, ha.0, hb.0) in
    let high : value a ≡ value b = omega (arith, ha.0, hb.0) in
    rw (low, value-injective a b ha.2 hb.2 high) refl

-- A number in normal form comes back from its bytes, however many were asked for.
pub from_bytes_be-to_bytes_be :
    (a : Limbs) (min_len : ℕ) → IsNormal a → from_bytes_be (some (to_bytes_be a min_len)) ≡ a
from_bytes_be-to_bytes_be a n h =
    let (number, bytes) = to_bytes_be_lem a n (IsNormal-IsLimbs a h) in
    let (read, normal) = from_bytes_be_lem (to_bytes_be a n) bytes in
    value-injective (from_bytes_be (some (to_bytes_be a n))) a normal h (read ∙ number)

number_after-le : (acc : ℕ) (bs : Bytes) → acc * 256 ^ length bs ≤ number_after acc bs
number_after-le acc [] = omega arith
number_after-le acc (b ∷ bs) = omega (
  arith,
  number_after-le (acc * 256 + b) bs,
  pow-suc 256 (length bs),
  scaled (256 ^ length bs),
  ap (λ p. acc * p) (pow-suc 256 (length bs)),
)
  where
    scaled : (p : ℕ) → acc * (p * 256) ≤ (acc * 256 + b) * p
    scaled p = omega arith

scale-le : (b p : ℕ) → (b == 0) ≡ false → p ≤ (0 * 256 + b) * p
scale-le zero p e = absurd (ground (arith, e))
scale-le (suc b) p e = omega arith

-- What bounds the number bounds the bytes that are left of it.
keep_one-le :
    (bs : Bytes) (n : ℕ)
    → number_after 0 (keep_one bs) < 256 ^ n
    → (length (keep_one bs) ≤ n) ⊎ ((is_zero_byte (keep_one bs) && (n == 0)) ≡ true)
unfolding keep_one is_zero_byte
keep_one-le [] n h = inl (omega arith)
keep_one-le (b ∷ []) zero h = inr (ground (arith, h))
keep_one-le (b ∷ []) (suc n) h = inl (omega arith)
keep_one-le (b ∷ (c ∷ rest)) n h = elim (Bool-cases (b == 0)) [
  | inl e ↦ rw e (keep_one-le (c ∷ rest) n (rw e at h))
  | inr e ↦ rw e (inl (longer e (rw e at h)))
]
  where
    powers : ¬ (length (c ∷ rest) < n) → 256 ^ n ≤ 256 ^ length (c ∷ rest)
    powers big = pow-le-pow_right (omega arith) (omega (arith, big))

    longer :
        (b == 0) ≡ false → number_after 0 (b ∷ (c ∷ rest)) < 256 ^ n → length (b ∷ (c ∷ rest)) ≤ n
    longer e k = elim (dec_lt (length (c ∷ rest)) n) [
      | yes fits ↦ fits
      | no big ↦ absurd (
          omega (
            arith,
            k,
            number_after-le (0 * 256 + b) (c ∷ rest),
            powers big,
            scale-le b (256 ^ length (c ∷ rest)) e,
          ))
    ]

length-padded :
    (bs : Bytes) (n : ℕ)
    → (length bs ≤ n) ⊎ ((is_zero_byte bs && (n == 0)) ≡ true)
    → length (padded bs n) ≡ n
unfolding padded
length-padded bs n (inr e) = rw e (ground (arith, e))
length-padded bs n (inl h) =
    if_cases (λ (r : Bytes). length r ≡ n) (is_zero_byte bs && (n == 0)) (λ e. zero_asked e)
      (λ _.
        if_cases (λ (r : Bytes). length r ≡ n) (ltb (length bs) n) (λ _. filled_up)
          (λ e. long_enough e))
  where
    zero_asked : (is_zero_byte bs && (n == 0)) ≡ true → 0 ≡ n
    zero_asked e = ground (arith, e)

    filled_up : length (replicate (n - length bs) 0 ++ bs) ≡ n
    filled_up = omega (
      arith,
      h,
      length-append (replicate (n - length bs) 0) bs,
      length-replicate {A = ℕ} (n - length bs) 0,
    )

    long_enough : ltb (length bs) n ≡ false → length bs ≡ n
    long_enough e = ground (arith, e)

-- A number below 256 ^ n of 32-bit limbs is printed by `to_bytes_be` in n bytes exactly, where n are
-- asked for.
pub length-to_bytes_be :
    (a : Limbs) (n : ℕ) → IsLimbs a → value a < 256 ^ n → length (to_bytes_be a n) ≡ n
unfolding to_bytes_be
length-to_bytes_be a n h small =
    length-padded (keep_one (reverse (unpack a))) n
      (keep_one-le (reverse (unpack a)) n (subst (λ v. v < 256 ^ n) (sym number) small))
  where
    number : number_after 0 (keep_one (reverse (unpack a))) ≡ value a
    number =
        (keep_one_lem (reverse (unpack a)) (reverse-All (unpack a) (unpack_lem a h).1)).0
        ∙ number_after_lem 0 (reverse (unpack a))
        ∙ rw (reverse-reverse (unpack a)) (omega (arith, (unpack_lem a h).0))
