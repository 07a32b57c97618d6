-- ===== src/Security/Rsa.antt =====
-- src/security/rsa_pkcs1.cpp: RSA PKCS#1 v1.5 signatures over SHA-256 and SHA-384 digests. An index
-- into the recovered bytes stands where the source has it; each read is behind the check of the size
-- that the source makes.
pub mod Padding
pub mod Verified
pub mod Accepted
use gcad.Base.{
  ℕ, ◌+◌, ◌-◌, Bool, true, false, not, ◌&&◌, ◌||◌, [], ◌∷◌, some, if◌then◌else◌, ltb, leb, ◌==◌,
  length, get_or, take, drop,
}
use gcad.Base.Bytes.{Bytes, is_empty, eqb}
use gcad.Security.Bignum.{Sign, less, Limbs, from_bytes_be, to_bytes_be, is_zero, compare, mod_pow}

pub record RsaPublicKey : Type 0 where
  pub modulus : Bytes
  pub exponent : Bytes

abbrev pub sha256_digest_info_prefix : Bytes
sha256_digest_info_prefix =
    0x30 ∷ 0x31 ∷ 0x30 ∷ 0x0d ∷ 0x06 ∷ 0x09 ∷ 0x60 ∷ 0x86 ∷ 0x48 ∷ 0x01 ∷ 0x65 ∷ 0x03 ∷ 0x04 ∷ 0x02
    ∷ 0x01 ∷ 0x05 ∷ 0x00 ∷ 0x04 ∷ 0x20 ∷ []

abbrev pub sha384_digest_info_prefix : Bytes
sha384_digest_info_prefix =
    0x30 ∷ 0x41 ∷ 0x30 ∷ 0x0d ∷ 0x06 ∷ 0x09 ∷ 0x60 ∷ 0x86 ∷ 0x48 ∷ 0x01 ∷ 0x65 ∷ 0x03 ∷ 0x04 ∷ 0x02
    ∷ 0x02 ∷ 0x05 ∷ 0x00 ∷ 0x04 ∷ 0x30 ∷ []

-- How many bytes 0xFF the loop passes over.
unfoldable pub count_ff : Bytes → ℕ
count_ff [] = 0
count_ff (b ∷ rest) = let later = count_ff rest in if b == 0xff then later + 1 else 0

-- What follows the padding, from index i on.
unfoldable pub check_tail : Bytes → ℕ → Bytes → Bytes → Bool
check_tail em i prefix digest =
    if not (length em - i == length prefix + length digest)
    then false
    else if not (eqb prefix (take (length prefix) (drop i em)))
    then false
    else eqb digest (take (length digest) (drop (i + length prefix) em))

-- The padding's length and the zero byte behind it.
unfoldable pub check_padding : Bytes → ℕ → Bytes → Bytes → Bool
unfolding check_tail
check_padding em padding_len prefix digest =
    if ltb padding_len 8
    then false
    else if leb (length em) (padding_len + 2) || not (get_or em (padding_len + 2) 0 == 0)
    then false
    else check_tail em (padding_len + 2 + 1) prefix digest

unfoldable pub check_em : Bytes → ℕ → Bytes → Bytes → Bool
unfolding count_ff check_padding
check_em em modulus_size prefix digest =
    if not (length em == modulus_size)
    then false
    else if ltb (length em) 11 || not (get_or em 0 0 == 0) || not (get_or em 1 0 == 1)
    then false
    else check_padding em (count_ff (drop 2 em)) prefix digest

abbrev pub is_less : Sign → Bool
is_less Sign.less = true
is_less _ = false

-- What follows the conversions.
unfoldable pub check_signature : Limbs → Limbs → Limbs → ℕ → Bytes → Bytes → Bool
unfolding check_em
check_signature n e sig modulus_size prefix digest =
    if is_zero n || is_zero e || is_zero sig
    then false
    else if not (is_less (compare sig n))
    then false
    else check_em (to_bytes_be (mod_pow sig e n) modulus_size) modulus_size prefix digest

unfoldable pub verify_pkcs1v15 : Bytes → RsaPublicKey → Bytes → Bytes → Bool
unfolding check_signature
verify_pkcs1v15 signature key digest prefix =
    if is_empty signature || is_empty key.modulus || is_empty key.exponent
    then false
    else check_signature (from_bytes_be (some key.modulus)) (from_bytes_be (some key.exponent))
        (from_bytes_be (some signature)) (length key.modulus) prefix digest

unfoldable pub verify_pkcs1v15_sha256 : Bytes → RsaPublicKey → Bytes → Bool
unfolding verify_pkcs1v15
verify_pkcs1v15_sha256 signature key digest =
    verify_pkcs1v15 signature key digest sha256_digest_info_prefix

unfoldable pub verify_pkcs1v15_sha384 : Bytes → RsaPublicKey → Bytes → Bool
unfolding verify_pkcs1v15
verify_pkcs1v15_sha384 signature key digest =
    verify_pkcs1v15 signature key digest sha384_digest_info_prefix
