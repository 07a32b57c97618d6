-- ===== src/Security/Bignum/Value.antt =====
-- The number that limbs stand for, and when they are in normal form.
use gcad.Base.{
  ℕ, zero, suc, ◌+◌, ◌*◌, ◌<◌, ◌≡◌, refl, [], ◌∷◌, false, arith, length, ◌==◌, ◌&&◌, ltb, not,
  if_cases, replicate,
}
use gcad.Base.Bytes.{is_empty}
use gcad.Security.Bignum.{
  Limbs, radix, trim, from_small, compare_limbs, compare, Sign, less, equal, greater,
}

abbrev pub value : Limbs → ℕ
value [] = 0
value (x ∷ xs) = x + radix * value xs

-- Every limb is a uint32_t.
abbrev pub IsLimbs : Limbs → Type 0
IsLimbs [] = Unit
IsLimbs (x ∷ xs) = (x < radix) × IsLimbs xs

-- And no zero limb stands at the back: no part from a limb on is worth nothing.
abbrev pub IsNormal : Limbs → Type 0
IsNormal [] = Unit
IsNormal (x ∷ xs) = (x < radix) × (0 < x + value xs) × IsNormal xs

pub IsNormal-IsLimbs : (xs : Limbs) → IsNormal xs → IsLimbs xs
IsNormal-IsLimbs [] n = tt
IsNormal-IsLimbs (x ∷ xs) n = (n.0, IsNormal-IsLimbs xs n.2)

pub value-trim : (xs : Limbs) → value (trim xs) ≡ value xs
unfolding trim
value-trim [] = refl
value-trim (x ∷ xs) = ground (arith, value-trim xs)

value-pos : (xs : Limbs) → IsNormal xs → is_empty xs ≡ false → 0 < value xs
value-pos [] n e = cc
value-pos (x ∷ xs) n e = omega arith

pub trim-IsNormal : (xs : Limbs) → IsLimbs xs → IsNormal (trim xs)
unfolding trim
trim-IsNormal [] h = tt
trim-IsNormal (x ∷ xs) h =
    let rest = trim-IsNormal xs h.1 in
    if_cases IsNormal (is_empty (trim xs) && (x == 0)) (λ _. tt)
      (λ e. (h.0, ground (arith, e, value-pos (trim xs) rest), rest))

pub value-from_small : (v : ℕ) → value (from_small v) ≡ v
unfolding from_small
value-from_small v = ground arith

pub from_small-IsNormal : (v : ℕ) → v < radix → IsNormal (from_small v)
unfolding from_small
from_small-IsNormal v h = if_cases IsNormal (v == 0) (λ _. tt) (λ e. (h, ground arith, tt))

pub value-zero_limbs : (n : ℕ) → value (replicate n 0) ≡ 0
value-zero_limbs zero = refl
value-zero_limbs (suc n) = omega (arith, value-zero_limbs n)

pub replicate-IsLimbs : (n : ℕ) → IsLimbs (replicate n 0)
replicate-IsLimbs zero = tt
replicate-IsLimbs (suc n) = (omega arith, replicate-IsLimbs n)

-- What a sign says of two numbers.
abbrev pub Ordered : Sign → ℕ → ℕ → Type 0
Ordered less m n = m < n
Ordered equal m n = m ≡ n
Ordered greater m n = n < m

pub shorter_lt :
    (xs ys : Limbs) → IsLimbs xs → IsNormal ys → length xs < length ys → value xs < value ys
shorter_lt xs [] h n l = elim l [ ]
shorter_lt [] (y ∷ ys) h n l = omega arith
shorter_lt (x ∷ xs) (y ∷ ys) h n l = omega (arith, shorter_lt xs ys h.1 n.2 (omega arith))

head_Ordered :
    (x : ℕ) (xs : Limbs) (y : ℕ) (ys : Limbs)
    → x < radix
    → y < radix
    → (r : Sign) → compare_limbs xs ys ≡ r
    → Ordered r (value xs) (value ys)
    → Ordered (compare_limbs (x ∷ xs) (y ∷ ys)) (value (x ∷ xs)) (value (y ∷ ys))
unfolding compare_limbs
head_Ordered x xs y ys h k less e o = rw (e, compare_limbs) (omega arith)
head_Ordered x xs y ys h k greater e o = rw (e, compare_limbs) (omega arith)
head_Ordered x xs y ys h k equal e o =
    rw (e, compare_limbs)
      (if_cases (λ r. Ordered r (x + radix * value xs) (y + radix * value ys)) (x == y)
        (λ t. ground (arith, t))
        λ t.
          if_cases (λ r. Ordered r (x + radix * value xs) (y + radix * value ys)) (ltb x y)
            (λ u. ground (arith, u)) (λ u. ground (arith, t, u)))

compare_limbs-Ordered :
    (xs ys : Limbs)
    → IsLimbs xs
    → IsLimbs ys
    → length xs ≡ length ys
    → Ordered (compare_limbs xs ys) (value xs) (value ys)
compare_limbs-Ordered [] [] h k l = unfold compare_limbs in refl
compare_limbs-Ordered [] (y ∷ ys) h k l = absurd (omega arith)
compare_limbs-Ordered (x ∷ xs) [] h k l = absurd (omega arith)
compare_limbs-Ordered (x ∷ xs) (y ∷ ys) h k l =
    head_Ordered x xs y ys h.0 k.0 (compare_limbs xs ys) refl
      (compare_limbs-Ordered xs ys h.1 k.1 (omega arith))

-- On normal limbs `compare` orders by the numbers that they stand for.
pub compare-Ordered :
    (a b : Limbs) → IsNormal a → IsNormal b → Ordered (compare a b) (value a) (value b)
unfolding compare
compare-Ordered a b h k =
    if_cases (λ r. Ordered r (value a) (value b)) (not (length a == length b))
      (λ t.
        if_cases (λ r. Ordered r (value a) (value b)) (ltb (length a) (length b))
          (λ u. shorter_lt a b (IsNormal-IsLimbs a h) k (ground (arith, u)))
          (λ u. shorter_lt b a (IsNormal-IsLimbs b k) h (ground (arith, t, u))))
      (λ t.
        compare_limbs-Ordered a b (IsNormal-IsLimbs a h) (IsNormal-IsLimbs b k) (ground (arith, t)))
