-- ===== src/Security/Rsa/Verified.antt =====
-- What a signature that verifies has been shown to be.
use gcad.Base.{
  ℕ, ◌%◌, ◌^◌, ◌≤◌, ◌<◌, ◌≡◌, sym, ap, ◌∙◌, true, false, ◌||◌, [], ◌∷◌, some, arith, length, All,
}
use gcad.Base.Bytes.{Bytes}
use gcad.Security.Bignum.{Limbs, Sign, compare, mod_pow, from_bytes_be, to_bytes_be, is_zero}
use gcad.Security.Bignum.Value.{value, IsNormal, IsNormal-IsLimbs, Ordered, compare-Ordered}
use gcad.Security.Bignum.Octets.{IsByte, number_after, from_bytes_be_lem}
use gcad.Security.Bignum.Printed.{to_bytes_be_lem}
use gcad.Security.Bignum.Power.{mod_pow_lem}
use gcad.Security.Rsa.{RsaPublicKey, check_signature, verify_pkcs1v15, is_less}
use gcad.Security.Rsa.Padding.{passed, passed_by, encoded, check_em_lem}

-- The signature s is below the modulus n, and its e-th power modulo n is the encoding of the digest, in
-- as many bytes as the modulus has and with at least eight bytes of padding.
pub record IsVerified (s e n size : ℕ) (prefix digest : Bytes) : Type 0 where
  pub below : s < n
  pub padding : ℕ
  pub enough : 8 ≤ padding
  pub sized : length (encoded padding prefix digest) ≡ size
  pub power : number_after 0 (encoded padding prefix digest) ≡ s ^ e % n

less_lt : (r : Sign) (m n : ℕ) → is_less r ≡ true → Ordered r m n → m < n
less_lt Sign.less m n h o = o
less_lt Sign.equal m n h o = cc
less_lt Sign.greater m n h o = cc

value-pos : (a : Limbs) → IsNormal a → is_zero a ≡ false → 0 < value a
value-pos [] h e = cc
value-pos (x ∷ a) h e = omega (arith, h.1)

check_signature_lem :
    (n e s : Limbs) (size : ℕ) (prefix digest : Bytes)
    → IsNormal n
    → IsNormal e
    → IsNormal s
    → check_signature n e s size prefix digest ≡ true
    → IsVerified (value s) (value e) (value n) size prefix digest
unfolding check_signature
check_signature_lem n e s size prefix digest hn he hs h =
    let (some_limbs, behind) = passed_by (is_zero n || is_zero e || is_zero s) _ h in
    let (below, accepted) = passed (is_less (compare s n)) _ behind in
    let small = less_lt (compare s n) (value s) (value n) below (compare-Ordered s n hs hn) in
    let (power, normal) =
      mod_pow_lem s e n hs he hn (omega (arith, small, value-pos s hs (third some_limbs))) in
    let (number, bytes) =
      to_bytes_be_lem (mod_pow s e n) size (IsNormal-IsLimbs (mod_pow s e n) normal) in
    let (sized, (k, enough, em)) =
      check_em_lem (to_bytes_be (mod_pow s e n) size) size prefix digest accepted in
    record {
      below = small;
      padding = k;
      enough = enough;
      sized = ap length (sym em) ∙ sized;
      power = ap (number_after 0) (sym em) ∙ number ∙ power;
    }
  where
    third : (is_zero n || is_zero e || is_zero s) ≡ false → is_zero s ≡ false
    third t = ground (arith, t)

-- A signature that verifies, of bytes under a key of bytes, is a number below the modulus whose power by the
-- exponent, modulo the modulus, is 0x00 0x01, at least eight bytes 0xFF, 0x00, the digest's prefix and the
-- digest, in as many bytes as the modulus has: nothing else is accepted.
pub verify_pkcs1v15_lem :
    (signature : Bytes) (key : RsaPublicKey) (digest prefix : Bytes)
    → All IsByte signature
    → All IsByte key.modulus
    → All IsByte key.exponent
    → verify_pkcs1v15 signature key digest prefix ≡ true
    → IsVerified
        (number_after 0 signature)
        (number_after 0 key.exponent)
        (number_after 0 key.modulus)
        (length key.modulus)
        prefix
        digest
unfolding verify_pkcs1v15
verify_pkcs1v15_lem signature key digest prefix hs hm he h =
    let (_, behind) = passed_by _ _ h in
    let (s, ns) = from_bytes_be_lem signature hs in
    let (m, nm) = from_bytes_be_lem key.modulus hm in
    let (e, ne) = from_bytes_be_lem key.exponent he in
    rw (sym s, sym m, sym e)
      (check_signature_lem (from_bytes_be (some key.modulus)) (from_bytes_be (some key.exponent))
        (from_bytes_be (some signature)) (length key.modulus) prefix digest nm ne ns behind)
