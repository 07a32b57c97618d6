-- ===== src/Security/Bignum/Octets.antt =====
-- `from_bytes_be` on the number that big-endian bytes stand for.
use gcad.Base.{
  ℕ, ◌+◌, ◌*◌, ◌%◌, ◌^◌, ◌<◌, ◌≡◌, refl, ap, ◌∙◌, [], ◌∷◌, ◌++◌, arith, length, length-append,
  if_cases, ◌==◌, some, All, All-append,
}
use gcad.Base.Bytes.{Bytes}
use gcad.Base.Bits.{bit_or_above}
use gcad.Security.Bignum.{radix, skip_zeros, pack, from_bytes_be}
use gcad.Security.Bignum.Value.{value, IsLimbs, IsNormal, value-trim, trim-IsNormal}
use mathlib.Core.List.{reverse, reverse-cons}
use native.Mathlib.Nat.{pow-suc, mod-eq_of_lt}
use Prim.Native.Nat.{bit_or}

abbrev pub IsByte : ℕ → Type 0
IsByte b = b < 256

-- The number of bytes read from the most significant on, after `acc`.
abbrev pub number_after : ℕ → Bytes → ℕ
number_after acc [] = acc
number_after acc (b ∷ bs) = number_after (acc * 256 + b) bs

-- The number of bytes with the least significant first.
unfoldable pub little_number : Bytes → ℕ
little_number [] = 0
little_number (b ∷ bs) = b + 256 * little_number bs

put_above :
    (k x b : ℕ) → x < 2 ^ k → b * 2 ^ k < radix → bit_or x (b * 2 ^ k % radix) ≡ x + b * 2 ^ k
put_above k x b low fits = ap (bit_or x) (mod-eq_of_lt fits) ∙ bit_or_above k x b low

two_bytes : (a b : ℕ) → IsByte a → IsByte b → bit_or a (b * 2 ^ 8 % radix) ≡ a + b * 2 ^ 8
two_bytes a b ha hb = put_above 8 a b ha (omega arith)

three_bytes :
    (a b c : ℕ)
    → IsByte a
    → IsByte b
    → IsByte c
    → bit_or (bit_or a (b * 2 ^ 8 % radix)) (c * 2 ^ 16 % radix) ≡ a + b * 2 ^ 8 + c * 2 ^ 16
three_bytes a b c ha hb hc =
    rw (two_bytes a b ha hb) (put_above 16 (a + b * 2 ^ 8) c (omega arith) (omega arith))

four_bytes :
    (a b c d : ℕ)
    → IsByte a
    → IsByte b
    → IsByte c
    → IsByte d
    → bit_or (bit_or (bit_or a (b * 2 ^ 8 % radix)) (c * 2 ^ 16 % radix)) (d * 2 ^ 24 % radix)
      ≡ a + b * 2 ^ 8 + c * 2 ^ 16 + d * 2 ^ 24
four_bytes a b c d ha hb hc hd =
    rw (three_bytes a b c ha hb hc)
      (put_above 24 (a + b * 2 ^ 8 + c * 2 ^ 16) d (omega arith) (omega arith))

pack_lem : (bs : Bytes) → All IsByte bs → (value (pack bs) ≡ little_number bs) × IsLimbs (pack bs)
unfolding pack little_number
pack_lem [] h = (refl, tt)
pack_lem (a ∷ []) h = (omega arith, (omega (arith, h.0), tt))
pack_lem (a ∷ (b ∷ [])) (ha, (hb, h)) = rw (two_bytes a b ha hb) (omega arith, (omega arith, tt))
pack_lem (a ∷ (b ∷ (c ∷ []))) (ha, (hb, (hc, h))) =
    rw (three_bytes a b c ha hb hc) (omega arith, (omega arith, tt))
pack_lem (a ∷ (b ∷ (c ∷ (d ∷ rest)))) (ha, (hb, (hc, (hd, h)))) =
    let (number, limbs) = pack_lem rest h in
    rw (four_bytes a b c d ha hb hc hd) (omega (arith, number), (omega arith, limbs))

little_number-append :
    (xs : Bytes) (b : ℕ) → little_number (xs ++ (b ∷ [])) ≡ little_number xs + 256 ^ length xs * b
unfolding little_number
little_number-append [] b = omega arith
little_number-append (x ∷ xs) b =
    rw (little_number-append xs b, pow-suc 256 (length xs)) (omega arith)

pub number_after_lem :
    (acc : ℕ) (bs : Bytes)
    → number_after acc bs ≡ little_number (reverse bs) + acc * 256 ^ length bs
number_after_lem acc [] = unfold little_number in omega arith
number_after_lem acc (b ∷ bs) =
    rw
      (
        reverse-cons b bs,
        little_number-append (reverse bs) b,
        length-reversed bs,
        pow-suc 256 (length bs),
        number_after_lem (acc * 256 + b) bs,
      )
      (omega arith)
  where
    length-reversed : (xs : Bytes) → length (reverse xs) ≡ length xs
    length-reversed [] = refl
    length-reversed (x ∷ xs) =
        rw (reverse-cons x xs)
          (omega (arith, length-append (reverse xs) (x ∷ []), length-reversed xs))

skip_zeros_lem : (bs : Bytes) → number_after 0 (skip_zeros bs) ≡ number_after 0 bs
unfolding skip_zeros
skip_zeros_lem [] = refl
skip_zeros_lem (b ∷ bs) =
    if_cases (λ r. number_after 0 r ≡ number_after 0 (b ∷ bs)) (b == 0)
      (λ e. skip_zeros_lem bs ∙ ap (λ n. number_after n bs) (ground (arith, e))) (λ _. refl)

skip_zeros-All : (bs : Bytes) → All IsByte bs → All IsByte (skip_zeros bs)
unfolding skip_zeros
skip_zeros-All [] h = h
skip_zeros-All (b ∷ bs) h = if_cases (All IsByte) (b == 0) (λ _. skip_zeros-All bs h.1) (λ _. h)

pub reverse-All : (bs : Bytes) → All IsByte bs → All IsByte (reverse bs)
reverse-All [] h = h
reverse-All (b ∷ bs) h =
    rw (reverse-cons b bs) (All-append IsByte (reverse bs) (b ∷ []) (reverse-All bs h.1) (h.0, tt))

-- `from_bytes_be` of bytes is the number that they stand for, the most significant first and leading
-- zeros included, in normal form: as large as the buffer may be, no byte is lost or misplaced.
pub from_bytes_be_lem :
    (bytes : Bytes)
    → All IsByte bytes
    → (value (from_bytes_be (some bytes)) ≡ number_after 0 bytes)
      × IsNormal (from_bytes_be (some bytes))
unfolding from_bytes_be
from_bytes_be_lem bytes h =
    let kept = skip_zeros bytes in
    let (packed, limbs) = pack_lem (reverse kept) (reverse-All kept (skip_zeros-All bytes h)) in
    (
      omega (
        arith,
        value-trim (pack (reverse kept)),
        packed,
        number_after_lem 0 kept,
        skip_zeros_lem bytes,
      ),
      trim-IsNormal (pack (reverse kept)) limbs,
    )
