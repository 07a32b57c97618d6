-- ===== src/Security/Bignum.antt =====
-- src/security/bignum.cpp: arbitrary-precision naturals as 32-bit limbs, the least significant first.
-- Loops over limbs are recursions on the lists; uint64_t and uint32_t results are cut by `%`.
pub mod Value
pub mod Sum
pub mod Product
pub mod Bits
pub mod Reduce
pub mod Power
pub mod Octets
pub mod Printed
use gcad.Base.{
  ℕ, zero, suc, ◌+◌, ◌-◌, ◌*◌, ◌/◌, ◌%◌, ◌^◌, max, Bool, true, false, not, ◌&&◌, List, [], ◌∷◌,
  ◌++◌, Option, none, some, if◌then◌else◌, ltb, leb, ◌==◌, length, get_elem?, drop, replicate,
}
use gcad.Base.Bytes.{Bytes, is_empty}
use Prim.Native.Nat.{bit_and, bit_or}
use mathlib.Core.List.{reverse}

abbrev pub radix : ℕ
radix = 0x100000000

abbrev pub Limbs : Type 0
Limbs = List ℕ

-- Pops the zero limbs at the back.
unfoldable pub trim : Limbs → Limbs
trim [] = []
trim (x ∷ xs) = let rest = trim xs in if is_empty rest && (x == 0) then [] else x ∷ rest

abbrev pub is_zero : Limbs → Bool
is_zero = is_empty

unfoldable pub from_small : ℕ → Limbs
from_small value = if value == 0 then [] else value ∷ []

-- The leading zero bytes that the first loop passes over.
unfoldable pub skip_zeros : Bytes → Bytes
skip_zeros [] = []
skip_zeros (b ∷ rest) = if b == 0 then skip_zeros rest else b ∷ rest

-- The loop over the bytes from the least significant on: the i-th one goes into limb i / 4, shifted by
-- (i % 4) * 8 bits.
unfoldable pub pack : Bytes → Limbs
pack [] = []
pack (a ∷ []) = a ∷ []
pack (a ∷ (b ∷ [])) = bit_or a (b * 2 ^ 8 % radix) ∷ []
pack (a ∷ (b ∷ (c ∷ []))) = bit_or (bit_or a (b * 2 ^ 8 % radix)) (c * 2 ^ 16 % radix) ∷ []
pack (a ∷ (b ∷ (c ∷ (d ∷ rest)))) =
    bit_or (bit_or (bit_or a (b * 2 ^ 8 % radix)) (c * 2 ^ 16 % radix)) (d * 2 ^ 24 % radix)
    ∷ pack rest

-- A null pointer is `none`.
unfoldable pub from_bytes_be : Option Bytes → Limbs
unfolding skip_zeros pack trim
from_bytes_be none = []
from_bytes_be (some bytes) = trim (pack (reverse (skip_zeros bytes)))

-- The loop that takes each limb apart; the cast to uint8_t is the `% 2 ^ 8`.
unfoldable pub unpack : Limbs → Bytes
unpack [] = []
unpack (x ∷ xs) =
    (x % 2 ^ 8)
    ∷ ((x / 2 ^ 8 % 2 ^ 8) ∷ ((x / 2 ^ 16 % 2 ^ 8) ∷ ((x / 2 ^ 24 % 2 ^ 8) ∷ unpack xs)))

-- The loop over leading zeros, which leaves one byte at least.
unfoldable pub keep_one : Bytes → Bytes
keep_one [] = []
keep_one (b ∷ []) = b ∷ []
keep_one (b ∷ (c ∷ rest)) =
    let later = keep_one (c ∷ rest) in if b == 0 then later else b ∷ (c ∷ rest)

unfoldable pub is_zero_byte : Bytes → Bool
is_zero_byte [] = false
is_zero_byte (b ∷ []) = b == 0
is_zero_byte (b ∷ (c ∷ rest)) = false

-- What follows the trimming of leading zeros.
unfoldable pub padded : Bytes → ℕ → Bytes
unfolding is_zero_byte
padded trimmed min_len =
    if is_zero_byte trimmed && (min_len == 0)
    then []
    else if ltb (length trimmed) min_len
    then replicate (min_len - length trimmed) 0 ++ trimmed
    else trimmed

unfoldable pub to_bytes_be : Limbs → ℕ → Bytes
unfolding unpack keep_one padded
to_bytes_be a min_len = padded (keep_one (reverse (unpack a))) min_len

-- The result of `compare`: -1, 0 or 1.
pub data Sign : Type 0 where
  less equal greater : Sign

-- The loop from the most significant limb down, on lists of one length.
unfoldable pub compare_limbs : Limbs → Limbs → Sign
compare_limbs [] ys = equal
compare_limbs (x ∷ xs) [] = equal
compare_limbs (x ∷ xs) (y ∷ ys) = elim (compare_limbs xs ys) [
  | less ↦ less
  | greater ↦ greater
  | equal ↦ if x == y then equal else if ltb x y then less else greater
]

unfoldable pub compare : Limbs → Limbs → Sign
unfolding compare_limbs
compare a b =
    if not (length a == length b)
    then (if ltb (length a) (length b) then less else greater)
    else compare_limbs a b

-- limbs_[i], 0 past the end.
abbrev pub head_limb : Limbs → ℕ
head_limb [] = 0
head_limb (x ∷ xs) = x

abbrev pub rest_limbs : Limbs → Limbs
rest_limbs [] = []
rest_limbs (x ∷ xs) = xs

unfoldable pub add_loop : ℕ → Limbs → Limbs → ℕ → Limbs
add_loop zero a b carry = []
add_loop (suc n) a b carry =
    let sum = (head_limb a + head_limb b + carry) % 2 ^ 64 in
    (sum % radix) ∷ add_loop n (rest_limbs a) (rest_limbs b) (sum / radix)

unfoldable pub add : Limbs → Limbs → Limbs
unfolding add_loop trim
add a b = trim (add_loop (max (length a) (length b) + 1) a b 0)

-- `diff` is signed in the source: where it would be negative, 2 ^ 32 is added and a limb borrowed.
unfoldable pub subtract_loop : Limbs → Limbs → ℕ → Limbs
subtract_loop [] b borrow = []
subtract_loop (x ∷ a) b borrow =
    let taken = head_limb b + borrow in
    (if ltb x taken then (x + radix - taken) % radix else x - taken)
    ∷ subtract_loop a (rest_limbs b) (if ltb x taken then 1 else 0)

unfoldable pub subtract : Limbs → Limbs → Limbs
unfolding subtract_loop trim
subtract a b = trim (subtract_loop a b 0)

-- The `while (carry != 0)` loop; it stays inside the array.
unfoldable pub propagate : Limbs → ℕ → Limbs
propagate [] carry = []
propagate (r ∷ rs) carry =
    let sum = (r + carry) % 2 ^ 64 in
    let rest = propagate rs (sum / radix) in if carry == 0 then r ∷ rs else (sum % radix) ∷ rest

-- The inner loop of `multiply` on the part of the result from index i on.
unfoldable pub multiply_row : ℕ → Limbs → Limbs → ℕ → Limbs
unfolding propagate
multiply_row x [] rs carry = propagate rs carry
multiply_row x (y ∷ ys) [] carry = []
multiply_row x (y ∷ ys) (r ∷ rs) carry =
    let prod = (x * y + r + carry) % 2 ^ 64 in (prod % radix) ∷ multiply_row x ys rs (prod / radix)

unfoldable pub multiply_loop : Limbs → Limbs → Limbs → Limbs
unfolding multiply_row
multiply_loop [] b result = result
multiply_loop (x ∷ a) b result =
    let row = multiply_row x b result 0 in head_limb row ∷ multiply_loop a b (rest_limbs row)

unfoldable pub multiply : Limbs → Limbs → Limbs
unfolding multiply_loop trim
multiply a b =
    if is_zero a
    then []
    else if is_zero b
    then []
    else trim (multiply_loop a b (replicate (length a + length b) 0))

unfoldable pub shift_loop : Limbs → ℕ → Limbs
shift_loop [] carry = carry ∷ []
shift_loop (x ∷ a) carry = bit_or (x * 2 % radix) carry ∷ shift_loop a (x / 2 ^ 31)

unfoldable pub shift_left_one_bit : Limbs → Limbs
unfolding shift_loop trim
shift_left_one_bit a = if is_zero a then [] else trim (shift_loop a 0)

-- `while (top) { ++n; top >>= 1; }`, with fuel; a limb takes 32 rounds.
unfoldable pub top_bits : ℕ → ℕ → ℕ → ℕ
top_bits zero top n = n
top_bits (suc fuel) top n =
    let rest = top_bits fuel (top / 2) (n + 1) in if top == 0 then n else rest

unfoldable pub last_limb : Limbs → ℕ
last_limb [] = 0
last_limb (x ∷ []) = x
last_limb (x ∷ (y ∷ ys)) = last_limb (y ∷ ys)

unfoldable pub bit_length : Limbs → ℕ
bit_length a = if is_empty a then 0 else top_bits 33 (last_limb a) ((length a - 1) * 32)

-- A bit of a limb, false where the index is past the limbs.
unfoldable pub bit_of : Option ℕ → ℕ → Bool
bit_of none position = false
bit_of (some x) position = not (bit_and (x / 2 ^ position) 1 == 0)

unfoldable pub get_bit : Limbs → ℕ → Bool
get_bit a index = bit_of (get_elem? a (index / 32)) (index % 32)

-- One round of `mod`.
unfoldable pub mod_step : Limbs → Limbs → ℕ → Limbs → Limbs
mod_step a m idx remainder =
    let shifted = shift_left_one_bit remainder in
    let next = if get_bit a idx then add shifted (from_small 1) else shifted in
    elim (compare next m) [ less ↦ next | _ ↦ subtract next m ]

unfoldable pub mod_loop : Limbs → Limbs → ℕ → Limbs → Limbs
mod_loop a m zero remainder = remainder
mod_loop a m (suc idx) remainder = mod_loop a m idx (mod_step a m idx remainder)

unfoldable pub mod_big : Limbs → Limbs → Limbs
mod_big a m =
    if is_zero m then [] else elim (compare a m) [ less ↦ a | _ ↦ mod_loop a m (bit_length a) [] ]

-- The rounds of `mod_pow` from bit i on, `n` of them.
unfoldable pub mod_pow_loop : Limbs → Limbs → ℕ → ℕ → Limbs → Limbs → Limbs
mod_pow_loop exp m zero i result base = result
mod_pow_loop exp m (suc n) i result base =
    mod_pow_loop exp m n (i + 1)
      (if get_bit exp i then mod_big (multiply result base) m else result)
      (mod_big (multiply base base) m)

unfoldable pub mod_pow : Limbs → Limbs → Limbs → Limbs
mod_pow base_in exp m =
    if is_zero m
    then []
    else mod_pow_loop exp m (bit_length exp) 0 (from_small 1) (mod_big base_in m)
