-- ===== src/Security/Pkcs7/Lengths.antt =====
-- The length that `set_header` writes is the one that the reader of src/security/asn1.cpp reads.
use gcad.Base.{
  ℕ, zero, suc, ◌+◌, ◌*◌, ◌/◌, ◌%◌, ◌^◌, ◌<◌, ◌≤◌, ◌≡◌, refl, sym, ap, ◌∙◌, Bool, true, false, not,
  ◌&&◌, [], ◌∷◌, ◌++◌, arith, length, length-append, if_cases, ◌==◌,
}
use gcad.Base.Bits.{bit_or_below, all_below_at}
use gcad.Base.Bytes.{Bytes}
use gcad.Security.Reading.{parsed, read}
use gcad.Security.Asn1.{length_bytes}
use gcad.Security.Pkcs7.Encode.{length_octets}
use Prim.Native.Nat.{bit_and, bit_or}
use native.Mathlib.Nat.{pow-suc}
use mathlib.Core.List.{append_assoc}

-- What the loop of the reader makes of bytes.
abbrev pub big_endian : ℕ → Bytes → ℕ
big_endian acc [] = acc
big_endian acc (b ∷ bs) = big_endian (bit_or (acc * 2 ^ 8 % 2 ^ 64) b) bs

pub read_at :
    (pre : Bytes) (b : ℕ) (post : Bytes) → read (pre ++ (b ∷ post)) (length pre) ≡ parsed b
unfolding read
read_at [] b post = refl
read_at (p ∷ pre) b post = read_at pre b post

pub length_bytes-big_endian :
    (pre octets post : Bytes) (acc : ℕ)
    → length_bytes (pre ++ (octets ++ post)) (length octets) (length pre) acc
      ≡ parsed (big_endian acc octets, length pre + length octets)
unfolding length_bytes
length_bytes-big_endian pre [] post acc = ap (λ n. parsed (acc, n)) (omega arith)
length_bytes-big_endian pre (b ∷ octets) post acc = rw (read_at pre b (octets ++ post)) (
    ap (λ buf. length_bytes buf (length octets) (length pre + 1) acc')
      (sym (append_assoc pre (b ∷ []) (octets ++ post)))
    ∙ ap (λ pos. length_bytes ((pre ++ (b ∷ [])) ++ (octets ++ post)) (length octets) pos acc')
        (sym longer)
    ∙ length_bytes-big_endian (pre ++ (b ∷ [])) octets post acc'
    ∙ ap (λ n. parsed (big_endian acc' octets, n)) (omega (arith, longer)))
  where
    acc' : ℕ
    acc' = bit_or (acc * 2 ^ 8 % 2 ^ 64) b

    longer : length (pre ++ (b ∷ [])) ≡ length pre + 1
    longer = length-append pre (b ∷ []) ∙ omega arith

-- A byte put behind the others of a number.
last_byte : (n : ℕ) → n < 2 ^ 64 → bit_or (n / 2 ^ 8 * 2 ^ 8 % 2 ^ 64) (n % 2 ^ 8) ≡ n
last_byte n h =
    ap (λ m. bit_or m (n % 2 ^ 8)) (omega arith)
    ∙ bit_or_below 8 (n % 2 ^ 8) (n / 2 ^ 8) (omega arith)
    ∙ omega arith

pub big_endian-length_octets :
    (rounds n : ℕ) (out : Bytes)
    → n < 256 ^ rounds
    → n < 2 ^ 64
    → big_endian 0 (length_octets rounds n out) ≡ big_endian n out
unfolding length_octets
big_endian-length_octets zero n out h k = ap (λ m. big_endian m out) (omega arith)
big_endian-length_octets (suc rounds) n out h k =
    if_cases (λ r. big_endian 0 r ≡ big_endian n out) (n == 0)
      (λ e. ap (λ m. big_endian m out) (ground (arith, e)))
      (λ _.
        big_endian-length_octets rounds (n / 2 ^ 8) (n % 2 ^ 8 ∷ out)
          (omega (arith, pow-suc 256 rounds)) (omega arith)
        ∙ ap (λ m. big_endian m out) (last_byte n k))

pub length-length_octets :
    (rounds n : ℕ) (out : Bytes)
    → (length out ≤ length (length_octets rounds n out))
      × (length (length_octets rounds n out) ≤ rounds + length out)
unfolding length_octets
length-length_octets zero n out = (omega arith, omega arith)
length-length_octets (suc rounds) n out =
    if_cases (λ r. (length out ≤ length r) × (length r ≤ suc rounds + length out)) (n == 0)
      {x = out} (λ _. (omega arith, omega arith))
      (λ _.
        let later = length-length_octets rounds (n / 2 ^ 8) (n % 2 ^ 8 ∷ out) in
        (omega (arith, later.0), omega (arith, later.1)))

-- The first byte of a short length has no high bit.
pub short_length : (n : ℕ) → n < 0x80 → (bit_and n 0x80 == 0) ≡ true
short_length = all_below_at 0x80 (λ n. bit_and n 0x80 == 0) refl

-- The first byte of a long length has the high bit and the count of the others.
abbrev is_count : ℕ → Bool
is_count n = (not (bit_and (bit_or 0x80 n) 0x80 == 0)) && (bit_and (bit_or 0x80 n) 0x7f == n)

long_count : (n : ℕ) → n < 9 → is_count n ≡ true
long_count = all_below_at 9 is_count refl

pub long_length :
    (n : ℕ)
    → n < 9
    → ((bit_and (bit_or 0x80 n) 0x80 == 0) ≡ false) × (bit_and (bit_or 0x80 n) 0x7f ≡ n)
long_length n h = (ground (arith, long_count n h), ground (arith, long_count n h))
