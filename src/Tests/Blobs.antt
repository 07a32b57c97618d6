-- ===== src/Tests/Blobs.antt =====
-- A signature blob: one certificate, with issuer "A" and serial number 5, and one signer.
use gcad.Base.{◌+◌, ◌<◌, ◌≡◌, refl, List, [], ◌∷◌, All, Option, some, none, length, arith}
use gcad.Base.Bytes.{Bytes, text}
use gcad.Security.Reading.{Parsed, fault, parsed, rejected, slice}
use gcad.Security.Reading.Safe.{Within}
use gcad.Security.Asn1.{parse_element}
use gcad.Security.X509.Parse.{empty_certificate}
use gcad.Security.X509.{X509Certificate}
use gcad.Security.Pkcs7.{SignedData}
use gcad.Security.Pkcs7.Encode.{set_header, der_encode_set}
use gcad.Security.Pkcs7.Parse
use gcad.Security.Pkcs7.Inside.{IsSignedIn, parse-IsSignedIn}
use gcad.Security.Pkcs7.RoundTrip.{set_element, parse_element-der_encode_set}
use gcad.Security.TrustAnchors.{trusted_root_certificates, find_trust_anchor_by_subject}
use gcad.Security.TrustAnchors.Anchors.{IsRoot, IsFirst, find_trust_anchor_by_subject-IsFirst}
use gcad.Security.Authenticode.{
  AuthenticodeVerdict, AuthenticodeResult, verify_certificate_chain, verify_with_roots,
  verify_authenticode,
}
use gcad.Security.Authenticode.Chain.{IsWalked, verify_certificate_chain-IsWalked}
use gcad.Security.Authenticode.Genuine.{IsVerdict, verify_authenticode-IsJustified}
use gcad.Tests.Images.{image}

abbrev blob : Bytes
blob =
    48 ∷ 130 ∷ 1 ∷ 8 ∷ 6 ∷ 9 ∷ 42 ∷ 134 ∷ 72 ∷ 134 ∷ 247 ∷ 13 ∷ 1 ∷ 7 ∷ 2 ∷ 160 ∷ 129 ∷ 250 ∷ 48
    ∷ 129 ∷ 247 ∷ 2 ∷ 1 ∷ 1 ∷ 49 ∷ 13 ∷ 48 ∷ 11 ∷ 6 ∷ 9 ∷ 96 ∷ 134 ∷ 72 ∷ 1 ∷ 101 ∷ 3 ∷ 4 ∷ 2 ∷ 1
    ∷ 48 ∷ 67 ∷ 6 ∷ 10 ∷ 43 ∷ 6 ∷ 1 ∷ 4 ∷ 1 ∷ 130 ∷ 55 ∷ 2 ∷ 1 ∷ 4 ∷ 160 ∷ 53 ∷ 48 ∷ 51 ∷ 48 ∷ 0
    ∷ 48 ∷ 47 ∷ 48 ∷ 11 ∷ 6 ∷ 9 ∷ 96 ∷ 134 ∷ 72 ∷ 1 ∷ 101 ∷ 3 ∷ 4 ∷ 2 ∷ 1 ∷ 4 ∷ 32 ∷ 0 ∷ 1 ∷ 2 ∷ 3
    ∷ 4 ∷ 5 ∷ 6 ∷ 7 ∷ 8 ∷ 9 ∷ 10 ∷ 11 ∷ 12 ∷ 13 ∷ 14 ∷ 15 ∷ 16 ∷ 17 ∷ 18 ∷ 19 ∷ 20 ∷ 21 ∷ 22 ∷ 23
    ∷ 24 ∷ 25 ∷ 26 ∷ 27 ∷ 28 ∷ 29 ∷ 30 ∷ 31 ∷ 160 ∷ 82 ∷ 48 ∷ 80 ∷ 48 ∷ 68 ∷ 2 ∷ 1 ∷ 5 ∷ 48 ∷ 0 ∷ 48
    ∷ 12 ∷ 49 ∷ 10 ∷ 48 ∷ 8 ∷ 6 ∷ 3 ∷ 85 ∷ 4 ∷ 3 ∷ 12 ∷ 1 ∷ 65 ∷ 48 ∷ 6 ∷ 23 ∷ 1 ∷ 49 ∷ 23 ∷ 1 ∷ 50
    ∷ 48 ∷ 12 ∷ 49 ∷ 10 ∷ 48 ∷ 8 ∷ 6 ∷ 3 ∷ 85 ∷ 4 ∷ 3 ∷ 12 ∷ 1 ∷ 66 ∷ 48 ∷ 25 ∷ 48 ∷ 11 ∷ 6 ∷ 9 ∷ 42
    ∷ 134 ∷ 72 ∷ 134 ∷ 247 ∷ 13 ∷ 1 ∷ 1 ∷ 1 ∷ 3 ∷ 10 ∷ 0 ∷ 48 ∷ 7 ∷ 2 ∷ 2 ∷ 0 ∷ 193 ∷ 2 ∷ 1 ∷ 3 ∷ 48
    ∷ 4 ∷ 6 ∷ 2 ∷ 42 ∷ 3 ∷ 3 ∷ 2 ∷ 0 ∷ 170 ∷ 49 ∷ 74 ∷ 48 ∷ 72 ∷ 2 ∷ 1 ∷ 1 ∷ 48 ∷ 17 ∷ 48 ∷ 12 ∷ 49
    ∷ 10 ∷ 48 ∷ 8 ∷ 6 ∷ 3 ∷ 85 ∷ 4 ∷ 3 ∷ 12 ∷ 1 ∷ 65 ∷ 2 ∷ 1 ∷ 5 ∷ 48 ∷ 11 ∷ 6 ∷ 9 ∷ 96 ∷ 134 ∷ 72
    ∷ 1 ∷ 101 ∷ 3 ∷ 4 ∷ 2 ∷ 1 ∷ 160 ∷ 19 ∷ 48 ∷ 17 ∷ 6 ∷ 9 ∷ 42 ∷ 134 ∷ 72 ∷ 134 ∷ 247 ∷ 13 ∷ 1 ∷ 9
    ∷ 4 ∷ 49 ∷ 4 ∷ 4 ∷ 2 ∷ 7 ∷ 8 ∷ 48 ∷ 11 ∷ 6 ∷ 9 ∷ 42 ∷ 134 ∷ 72 ∷ 134 ∷ 247 ∷ 13 ∷ 1 ∷ 1 ∷ 1 ∷ 4
    ∷ 1 ∷ 17 ∷ []

abbrev first_digest : Parsed SignedData → Option (Bytes × Bytes)
first_digest (parsed sd) = elim sd.signer_infos [
  | [] ↦ none
  | signer ∷ _ ↦ elim signer.message_digest [
    | none ↦ none
    | some digest ↦ some (signer.serial_number, digest)
  ]
]
first_digest rejected = none
first_digest fault = none

digest_test : first_digest (Parse.parse blob) ≡ some (5 ∷ [], 7 ∷ (8 ∷ []))
unfolding Parse.parse parse_element gcad.Security.Asn1.is_universal
    gcad.Security.Asn1.parse_sequence_children gcad.Base.Bytes.eqb gcad.Security.Asn1.oid_to_string
    gcad.Security.Asn1.first_arcs gcad.Base.Bytes.to_string gcad.Security.Asn1.raw_bytes
    gcad.Security.X509.read_byte_aligned_bit_string gcad.Security.Asn1.read_unsigned_integer
    gcad.Security.X509.extract_common_name gcad.Security.X509.extract_time_string Parse.skip_crls
digest_test = refl

parse-IsSignedIn_example : Within (IsSignedIn blob) (Parse.parse blob)
parse-IsSignedIn_example = parse-IsSignedIn blob

parse_element-der_encode_set_example :
    (parse_element (some (der_encode_set blob)) (length (der_encode_set blob)) 0
      ≡ parsed (set_element (length (set_header (length blob))) (length blob)))
    × (slice (der_encode_set blob) (length (set_header (length blob))) (length blob) ≡ blob)
parse_element-der_encode_set_example = parse_element-der_encode_set blob (omega arith)

abbrev verdict_of : Parsed AuthenticodeResult → Option AuthenticodeVerdict
verdict_of (parsed result) = some result.verdict
verdict_of rejected = none
verdict_of fault = none

verdict_test :
    verdict_of (verify_with_roots [] image blob) ≡ some AuthenticodeVerdict.signature_invalid
unfolding verify_with_roots parse_element gcad.Security.Asn1.is_universal
    gcad.Security.Asn1.parse_sequence_children gcad.Base.Bytes.eqb gcad.Security.Asn1.oid_to_string
    gcad.Security.Asn1.first_arcs gcad.Base.Bytes.to_string gcad.Security.Asn1.raw_bytes
    gcad.Security.X509.read_byte_aligned_bit_string gcad.Security.Asn1.read_unsigned_integer
    gcad.Security.X509.extract_common_name gcad.Security.X509.extract_time_string Parse.skip_crls
    gcad.Security.Rsa.verify_pkcs1v15_sha256 gcad.Security.Bignum.from_bytes_be
    gcad.Security.Bignum.compare gcad.Security.Bignum.to_bytes_be gcad.Security.Bignum.mod_pow
    gcad.Security.Bignum.mod_pow_loop gcad.Security.Bignum.bit_length gcad.Security.Bignum.top_bits
    gcad.Security.Bignum.last_limb gcad.Security.Bignum.get_bit gcad.Security.Bignum.bit_of
    gcad.Security.Bignum.mod_big gcad.Security.Bignum.multiply gcad.Security.Bignum.from_small
    gcad.Security.Bignum.mod_loop gcad.Security.Bignum.mod_step gcad.Security.Bignum.add
    gcad.Security.Bignum.shift_left_one_bit gcad.Security.Bignum.subtract
verdict_test = refl

verify_authenticode-IsJustified_example :
    Within (IsVerdict image blob) (verify_authenticode image blob)
verify_authenticode-IsJustified_example = verify_authenticode-IsJustified image blob

-- Two certificates that name each other as issuers.
abbrev first_of_two : X509Certificate
first_of_two = record empty_certificate { subject_der = 1 ∷ []; issuer_der = 2 ∷ [] }

abbrev second_of_two : X509Certificate
second_of_two = record empty_certificate { subject_der = 2 ∷ []; issuer_der = 1 ∷ [] }

verify_certificate_chain-IsWalked_example :
    IsWalked []
      (first_of_two ∷ (second_of_two ∷ []))
      first_of_two
      (verify_certificate_chain [] (first_of_two ∷ (second_of_two ∷ [])) (some 0) first_of_two)
verify_certificate_chain-IsWalked_example =
    verify_certificate_chain-IsWalked [] (first_of_two ∷ (second_of_two ∷ [])) first_of_two (some 0)
      refl

cycle_test :
    verify_certificate_chain [] (first_of_two ∷ (second_of_two ∷ [])) (some 0) first_of_two
    ≡ AuthenticodeVerdict.chain_invalid
unfolding verify_certificate_chain gcad.Base.Bytes.eqb
cycle_test = refl

find_trust_anchor_by_subject-IsFirst_example :
    (roots : List X509Certificate) × (trusted_root_certificates ≡ parsed roots)
    × ((length roots ≡ 5) × All IsRoot roots)
    × (found : Option X509Certificate) × (find_trust_anchor_by_subject (1 ∷ []) ≡ parsed found)
    × IsFirst roots (1 ∷ []) found
find_trust_anchor_by_subject-IsFirst_example = find_trust_anchor_by_subject-IsFirst (1 ∷ [])
