-- ===== src/Security/Pkcs7/Encode.antt =====
-- src/security/pkcs7.cpp, Pkcs7Parser::der_encode_set. A size is a number below 2 ^ 64.
use gcad.Base.{ℕ, zero, suc, ◌/◌, ◌%◌, ◌^◌, [], ◌∷◌, ◌++◌, if◌then◌else◌, ltb, ◌==◌, length}
use gcad.Base.Bytes.{Bytes}
use Prim.Native.Nat.{bit_or}

-- The bytes of the length with the lowest one last, as the two loops write them: at most `rounds` of
-- them, of which a `size_t` needs eight.
unfoldable pub length_octets : ℕ → ℕ → Bytes → Bytes
length_octets zero remaining out = out
length_octets (suc rounds) remaining out =
    let later = length_octets rounds (remaining / 2 ^ 8) (remaining % 2 ^ 8 ∷ out) in
    if remaining == 0 then out else later

unfoldable pub set_header : ℕ → Bytes
unfolding length_octets
set_header len =
    if ltb len 0x80
    then 0x31 ∷ (len ∷ [])
    else let octets = length_octets 8 len [] in 0x31 ∷ (bit_or 0x80 (length octets) ∷ octets)

unfoldable pub der_encode_set : Bytes → Bytes
unfolding set_header
der_encode_set content = set_header (length content) ++ content
