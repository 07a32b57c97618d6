-- ===== src/Security/Authenticode.antt =====
-- src/security/authenticode.cpp: the check of an executable's signature. A pointer to a certificate of
-- the signature blob is its position there and its value. The walk is over any list of roots; the entry
-- points use the compiled-in ones.
pub mod Chain
pub mod Genuine
use gcad.Base.{
  ℕ, zero, suc, ◌+◌, Bool, true, false, not, ◌||◌, List, [], ◌∷◌, Option, none, some, if◌then◌else◌,
  ◌==◌, length,
}
use gcad.Base.Bytes.{Bytes, text, eqb}
use gcad.Hash.Sha256
use gcad.Hash.Sha384
use gcad.Security.Reading.{Parsed, fault, rejected, parsed, and_then, ◌>>=◌, ◌>>◌, guard}
use gcad.Security.Asn1.{
  Element, is_universal, parse_sequence_children, oid_to_string, object_identifier_tag,
}
use gcad.Security.Rsa.{RsaPublicKey, verify_pkcs1v15_sha256, verify_pkcs1v15_sha384}
use gcad.Security.X509.{X509Certificate, children, content, sequence_tag}
use gcad.Security.PeHash.{compute_authenticode_pe_hash_sha256}
use gcad.Security.Pkcs7.{SignerInfo, SignedData, octet_string_tag, find_signer_certificate}
use gcad.Security.Pkcs7.Encode.{der_encode_set}
use gcad.Security.Pkcs7.Parse
use gcad.Security.TrustAnchors.{trusted_root_certificates, find_by_subject}

abbrev pub sha256_digest_oid : Bytes
sha256_digest_oid = text "2.16.840.1.101.3.4.2.1"

abbrev pub sha256_with_rsa_oid : Bytes
sha256_with_rsa_oid = text "1.2.840.113549.1.1.11"

abbrev pub sha384_with_rsa_oid : Bytes
sha384_with_rsa_oid = text "1.2.840.113549.1.1.12"

abbrev pub max_chain_depth : ℕ
max_chain_depth = 6

pub data AuthenticodeVerdict : Type 0 where
  trusted valid_untrusted_root hash_mismatch signature_invalid chain_invalid malformed :
      AuthenticodeVerdict

pub record AuthenticodeResult : Type 0 where
  pub verdict : AuthenticodeVerdict
  pub signer_subject_cn : Bytes
  pub signer_sha256_thumbprint : Bytes

unfoldable pub sha256 : Bytes → Bytes
sha256 bytes = Sha256.finalize (Sha256.update Sha256.reset bytes)

unfoldable pub sha384 : Bytes → Bytes
sha384 bytes = Sha384.finalize (Sha384.update Sha384.reset bytes)

-- Whether the algorithm of a DigestInfo is SHA-256; no other is supported.
unfoldable pub guard_sha256 : Bytes → List Element → Parsed (Unit {0})
guard_sha256 data_ [] = rejected
guard_sha256 data_ (oid ∷ _) = do
  guard (is_universal object_identifier_tag oid)
  name ← oid_to_string (some data_) oid
  guard (eqb name sha256_digest_oid)

-- The digest of a DigestInfo of two parts.
unfoldable pub digest_of : Bytes → List Element → Parsed Bytes
unfolding guard_sha256
digest_of data_ (algorithm ∷ (digest_el ∷ [])) = do
  guard (is_universal sequence_tag algorithm)
  guard (is_universal octet_string_tag digest_el)
  parts ← children data_ algorithm
  guard_sha256 data_ parts
  guard (digest_el.content_length == 32)
  content data_ digest_el
digest_of data_ _ = rejected

-- The DigestInfo, the second of two parts.
unfoldable pub digest_info_of : Bytes → List Element → Parsed Bytes
unfolding digest_of
digest_info_of data_ (_ ∷ (info ∷ [])) = do
  guard (is_universal sequence_tag info)
  fields ← children data_ info
  digest_of data_ fields
digest_info_of data_ _ = rejected

unfoldable pub extract_spc_pe_hash : Bytes → Parsed Bytes
unfolding digest_info_of
extract_spc_pe_hash octets = do
  parts ← parse_sequence_children (some octets) 0 (length octets)
  digest_info_of octets parts

-- The signature of `subject` under a key.
unfoldable pub verify_cert_with : X509Certificate → Option RsaPublicKey → Bool
unfolding sha256 sha384
verify_cert_with subject none = false
verify_cert_with subject (some key) =
    if eqb subject.signature_algorithm_oid sha256_with_rsa_oid
    then verify_pkcs1v15_sha256 subject.signature_value key (sha256 subject.tbs_certificate)
    else if eqb subject.signature_algorithm_oid sha384_with_rsa_oid
    then verify_pkcs1v15_sha384 subject.signature_value key (sha384 subject.tbs_certificate)
    else false

unfoldable pub verify_cert_signed_by : X509Certificate → X509Certificate → Bool
unfolding verify_cert_with
verify_cert_signed_by subject issuer = verify_cert_with subject issuer.rsa_public_key

-- `&candidate == current`, where `current` may stand outside the list.
abbrev is_current : Option ℕ → ℕ → Bool
is_current none i = false
is_current (some j) i = i == j

-- The loop over the candidates, from position i on.
unfoldable pub find_issuer :
    Option ℕ → Bytes → ℕ → List X509Certificate → Option (ℕ × X509Certificate)
find_issuer current issuer_der i [] = none
find_issuer current issuer_der i (candidate ∷ candidates) =
    let later = find_issuer current issuer_der (suc i) candidates in
    if is_current current i
    then later
    else if eqb candidate.subject_der issuer_der
    then some (i, candidate)
    else later

module _ (roots available_issuers : List X509Certificate) where
  -- The loop of the walk, with the turns that are left.
  unfoldable pub walk_chain : ℕ → Option ℕ → X509Certificate → AuthenticodeVerdict
  unfolding find_issuer find_by_subject verify_cert_signed_by
  walk_chain zero at current = AuthenticodeVerdict.valid_untrusted_root
  walk_chain (suc depth) at current = elim (find_by_subject roots current.issuer_der) [
    | some anchor ↦
        if verify_cert_signed_by current anchor
        then AuthenticodeVerdict.trusted
        else AuthenticodeVerdict.chain_invalid
    | none ↦ elim (find_issuer at current.issuer_der 0 available_issuers) [
      | none ↦ AuthenticodeVerdict.valid_untrusted_root
      | some issuer ↦
          if not (verify_cert_signed_by current issuer.1)
          then AuthenticodeVerdict.chain_invalid
          else walk_chain depth (some issuer.0) issuer.1
    ]
  ]

  unfoldable pub verify_certificate_chain : Option ℕ → X509Certificate → AuthenticodeVerdict
  unfolding walk_chain
  verify_certificate_chain at leaf = walk_chain max_chain_depth at leaf

-- `if (!r) return result;`
abbrev pub or_return {ℓ κ} : {A : Type ℓ} {B : Type κ} → Parsed A → B → (A → Parsed B) → Parsed B
or_return fault result k = fault
or_return rejected result k = parsed result
or_return (parsed a) result k = k a

-- `AuthenticodeResult result{}`
abbrev pub empty_result : AuthenticodeResult
empty_result = record {
  verdict = AuthenticodeVerdict.malformed;
  signer_subject_cn = [];
  signer_sha256_thumbprint = [];
}

abbrev pub named_result : AuthenticodeVerdict → X509Certificate → AuthenticodeResult
named_result verdict leaf = record {
  verdict = verdict;
  signer_subject_cn = leaf.subject_common_name;
  signer_sha256_thumbprint = leaf.sha256_thumbprint;
}

-- The message digest, where the signer has one, is that of the content.
abbrev pub digest_agrees : Bytes → Option Bytes → Bool
digest_agrees octets none = true
digest_agrees octets (some digest) = eqb (sha256 octets) digest

-- The claimed hash against that of the image, then the chain.
unfoldable pub check_image :
    List X509Certificate → Bytes → SignedData → ℕ → X509Certificate → Parsed AuthenticodeResult
unfolding extract_spc_pe_hash verify_certificate_chain
check_image roots pe_bytes sd at leaf =
    or_return (extract_spc_pe_hash sd.content) (named_result AuthenticodeVerdict.malformed leaf)
      (λ claimed.
        or_return (compute_authenticode_pe_hash_sha256 pe_bytes)
          (named_result AuthenticodeVerdict.malformed leaf)
          (λ actual.
            if not (eqb claimed actual)
            then parsed (named_result AuthenticodeVerdict.hash_mismatch leaf)
            else parsed (
                named_result (verify_certificate_chain roots sd.certificates (some at) leaf) leaf)))

-- The signature of the signer under the key of its certificate.
unfoldable pub check_signer :
    List X509Certificate
    → Bytes
    → SignedData
    → SignerInfo
    → ℕ
    → X509Certificate
    → RsaPublicKey
    → Parsed AuthenticodeResult
unfolding check_image der_encode_set
check_signer roots pe_bytes sd signer at leaf key =
    if not (eqb signer.digest_algorithm_oid sha256_digest_oid)
    then parsed (named_result AuthenticodeVerdict.malformed leaf)
    else if not (
        verify_pkcs1v15_sha256 signer.signature key
          (sha256 (der_encode_set signer.signed_attrs_content)))
    then parsed (named_result AuthenticodeVerdict.signature_invalid leaf)
    else if not (digest_agrees sd.content signer.message_digest)
    then parsed (named_result AuthenticodeVerdict.malformed leaf)
    else check_image roots pe_bytes sd at leaf

-- The certificate of the signer has to be there, with an RSA key.
unfoldable pub check_leaf :
    List X509Certificate
    → Bytes
    → SignedData
    → SignerInfo
    → Option (ℕ × X509Certificate)
    → Parsed AuthenticodeResult
unfolding check_signer
check_leaf roots pe_bytes sd signer none = parsed empty_result
check_leaf roots pe_bytes sd signer (some (at, leaf)) = elim leaf.rsa_public_key [
  | none ↦ parsed empty_result
  | some key ↦ check_signer roots pe_bytes sd signer at leaf key
]

-- The first signer.
unfoldable pub check_signed_data :
    List X509Certificate → Bytes → SignedData → List SignerInfo → Parsed AuthenticodeResult
unfolding check_leaf find_signer_certificate
check_signed_data roots pe_bytes sd [] = parsed empty_result
check_signed_data roots pe_bytes sd (signer ∷ _) =
    check_leaf roots pe_bytes sd signer (find_signer_certificate sd signer)

unfoldable pub verify_with_roots : List X509Certificate → Bytes → Bytes → Parsed AuthenticodeResult
unfolding check_signed_data Parse.parse
verify_with_roots roots pe_bytes pkcs7_der =
    or_return (Parse.parse pkcs7_der) empty_result
      (λ sd. check_signed_data roots pe_bytes sd sd.signer_infos)

unfoldable pub verify_authenticode : Bytes → Bytes → Parsed AuthenticodeResult
unfolding verify_with_roots trusted_root_certificates
verify_authenticode pe_bytes pkcs7_der =
    and_then trusted_root_certificates (λ roots. verify_with_roots roots pe_bytes pkcs7_der)
