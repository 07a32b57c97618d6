-- ===== src/Tests/Signature.antt =====
-- A small key, and a signature by it over a digest of three bytes.
use gcad.Base.{◌≡◌, refl, true, [], ◌∷◌, length, All, arith, leb, ◌&&◌, Bool, List, ℕ, ltb}
use gcad.Base.Bytes.{Bytes}
use gcad.Security.Rsa.{RsaPublicKey, verify_pkcs1v15, check_em}
use gcad.Security.Rsa.Padding.{encoded}
use gcad.Security.Rsa.Accepted.{check_em-encoded}
use gcad.Security.Rsa.Verified.{IsVerified, verify_pkcs1v15_lem}
use gcad.Security.Bignum.Octets.{IsByte, number_after}

abbrev key : RsaPublicKey
key = record {
  modulus =
      255 ∷ 255 ∷ 255 ∷ 255 ∷ 255 ∷ 255 ∷ 255 ∷ 255 ∷ 255 ∷ 255 ∷ 255 ∷ 255 ∷ 255 ∷ 255 ∷ 255 ∷ 83
      ∷ [];
  exponent = 3 ∷ [];
}

abbrev signature : Bytes
signature =
    234 ∷ 247 ∷ 221 ∷ 187 ∷ 189 ∷ 80 ∷ 120 ∷ 129 ∷ 101 ∷ 198 ∷ 165 ∷ 216 ∷ 108 ∷ 248 ∷ 175 ∷ 232
    ∷ []

abbrev prefix : Bytes
prefix = 0x30 ∷ 5 ∷ []

abbrev digest : Bytes
digest = 0xaa ∷ 0xbb ∷ 0xcc ∷ []

abbrev all_bytes : Bytes → Bool
all_bytes [] = true
all_bytes (b ∷ bs) = ltb b 256 && all_bytes bs

all_bytes-All : (bs : Bytes) → all_bytes bs ≡ true → All IsByte bs
all_bytes-All [] h = tt
all_bytes-All (b ∷ bs) h = (ground (arith, h), all_bytes-All bs (ground (arith, h)))

accepted : verify_pkcs1v15 signature key digest prefix ≡ true
unfolding verify_pkcs1v15 gcad.Security.Rsa.check_signature gcad.Security.Rsa.check_em
    gcad.Security.Rsa.check_padding gcad.Security.Rsa.check_tail gcad.Security.Rsa.count_ff
    gcad.Security.Bignum.from_bytes_be gcad.Security.Bignum.skip_zeros gcad.Security.Bignum.pack
    gcad.Security.Bignum.trim gcad.Security.Bignum.compare gcad.Security.Bignum.compare_limbs
    gcad.Security.Bignum.mod_pow gcad.Security.Bignum.mod_pow_loop gcad.Security.Bignum.from_small
    gcad.Security.Bignum.mod_big gcad.Security.Bignum.mod_loop gcad.Security.Bignum.mod_step
    gcad.Security.Bignum.bit_length gcad.Security.Bignum.top_bits gcad.Security.Bignum.last_limb
    gcad.Security.Bignum.get_bit gcad.Security.Bignum.bit_of gcad.Security.Bignum.shift_left_one_bit
    gcad.Security.Bignum.shift_loop gcad.Security.Bignum.add gcad.Security.Bignum.add_loop
    gcad.Security.Bignum.subtract gcad.Security.Bignum.subtract_loop gcad.Security.Bignum.multiply
    gcad.Security.Bignum.multiply_loop gcad.Security.Bignum.multiply_row
    gcad.Security.Bignum.propagate gcad.Security.Bignum.to_bytes_be gcad.Security.Bignum.unpack
    gcad.Security.Bignum.keep_one gcad.Security.Bignum.padded gcad.Security.Bignum.is_zero_byte
    gcad.Base.Bytes.eqb
accepted = refl

verify_pkcs1v15_lem_example :
    IsVerified
      (number_after 0 signature)
      (number_after 0 key.exponent)
      (number_after 0 key.modulus)
      (length key.modulus)
      prefix
      digest
verify_pkcs1v15_lem_example =
    verify_pkcs1v15_lem signature key digest prefix (all_bytes-All signature refl)
      (all_bytes-All key.modulus refl) (all_bytes-All key.exponent refl) accepted

check_em-encoded_example :
    check_em (encoded 8 prefix digest) (length (encoded 8 prefix digest)) prefix digest ≡ true
check_em-encoded_example = check_em-encoded 8 prefix digest (omega arith)
