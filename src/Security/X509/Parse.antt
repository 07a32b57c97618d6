-- ===== src/Security/X509/Parse.antt =====
-- src/security/x509.cpp, X509Parser::parse.
use gcad.Security.Reading.{Parsed, fault, rejected, parsed, ◌>>=◌, ◌>>◌, guard}
use gcad.Base.{◌&&◌, List, [], ◌∷◌, Option, none, some, if◌then◌else◌, length, not}
use gcad.Base.Bytes.{Bytes, is_empty, eqb}
use gcad.Hash.Sha256
use gcad.Security.Asn1.{
  Element, is_universal, integer_tag, parse_element, raw_bytes, read_unsigned_integer,
}
use gcad.Security.Rsa.{RsaPublicKey}
use gcad.Security.X509.{
  X509Certificate, filled, children, extract_common_name, extract_time_string,
  read_byte_aligned_bit_string, next, algorithm_oid, skip_version, sequence_tag, rsa_encryption_oid,
}

unfoldable pub validity_of : Bytes → List Element → Parsed (Bytes × Bytes)
validity_of der (not_before ∷ (not_after ∷ [])) = do
  before ← extract_time_string der not_before
  after ← extract_time_string der not_after
  guard (not (is_empty before) && not (is_empty after))
  parsed (before, after)
validity_of der _ = rejected

-- Two INTEGERs, neither empty.
unfoldable pub rsa_fields_of : Bytes → List Element → Parsed (Option RsaPublicKey)
rsa_fields_of key (n ∷ (e ∷ [])) =
    if not (is_universal integer_tag n && is_universal integer_tag e) then parsed none else do
      modulus ← read_unsigned_integer (some key) n
      exponent ← read_unsigned_integer (some key) e
      parsed (
          if not (is_empty modulus) && not (is_empty exponent)
          then some (record { modulus = modulus; exponent = exponent })
          else none)
rsa_fields_of key _ = parsed none

unfoldable pub rsa_sequence : Bytes → Element → Parsed (Option RsaPublicKey)
unfolding rsa_fields_of
rsa_sequence key e =
    if is_universal sequence_tag e
    then (do fields ← children key e; rsa_fields_of key fields)
    else parsed none

-- The RSA key of a certificate; a key that does not parse is left out.
unfoldable pub rsa_key : Bytes → Parsed (Option RsaPublicKey)
unfolding rsa_sequence
rsa_key key = elim (parse_element (some key) (length key) 0) [
  | fault ↦ fault
  | rejected ↦ parsed none
  | parsed e ↦ rsa_sequence key e
]

-- The algorithm and the key of a SubjectPublicKeyInfo.
unfoldable pub public_key : Bytes → List Element → Parsed (Bytes × Option RsaPublicKey)
unfolding rsa_key
public_key der (algorithm ∷ (key_bits ∷ _)) = do
  guard (is_universal sequence_tag algorithm)
  parts ← children der algorithm
  oid ← algorithm_oid der parts
  key ← read_byte_aligned_bit_string der key_bits
  if eqb oid rsa_encryption_oid
      then (do found ← rsa_key key; parsed (oid, found))
      else parsed (oid, none)
public_key der _ = rejected

-- The fields of the TBSCertificate, in their order, into the certificate.
unfoldable pub tbs_fields : Bytes → X509Certificate → List Element → Parsed X509Certificate
unfolding validity_of public_key next skip_version
tbs_fields der cert tbs_children = do
  (serial, rest) ← next integer_tag (skip_version tbs_children)
  number ← read_unsigned_integer (some der) serial
  serial_number ← filled number
  (_, rest) ← next sequence_tag rest
  (issuer, rest) ← next sequence_tag rest
  issuer_der ← raw_bytes (some der) issuer
  issuer_common_name ← extract_common_name der issuer
  (validity, rest) ← next sequence_tag rest
  times ← children der validity
  (not_before, not_after) ← validity_of der times
  (subject, rest) ← next sequence_tag rest
  subject_der ← raw_bytes (some der) subject
  subject_common_name ← extract_common_name der subject
  (spki, rest) ← next sequence_tag rest
  parts ← children der spki
  (oid, key) ← public_key der parts
  parsed (record cert {
    serial_number = serial_number;
    issuer_der = issuer_der;
    issuer_common_name = issuer_common_name;
    not_before = not_before;
    not_after = not_after;
    subject_der = subject_der;
    subject_common_name = subject_common_name;
    public_key_algorithm_oid = oid;
    rsa_public_key = key;
  })

-- `X509Certificate cert{}`
abbrev pub empty_certificate : X509Certificate
empty_certificate = record {
  raw = [];
  tbs_certificate = [];
  serial_number = [];
  issuer_der = [];
  subject_der = [];
  issuer_common_name = [];
  subject_common_name = [];
  not_before = [];
  not_after = [];
  public_key_algorithm_oid = [];
  rsa_public_key = none;
  signature_algorithm_oid = [];
  signature_value = [];
  sha256_thumbprint = [];
}

-- The three parts of a Certificate.
unfoldable pub certificate_parts : Bytes → List Element → Parsed X509Certificate
unfolding tbs_fields
certificate_parts der (tbs ∷ (sig_alg ∷ (sig_val ∷ []))) = do
  guard (is_universal sequence_tag tbs)
  guard (is_universal sequence_tag sig_alg)
  signed ← raw_bytes (some der) tbs
  sig_alg_children ← children der sig_alg
  oid ← algorithm_oid der sig_alg_children
  signature ← read_byte_aligned_bit_string der sig_val
  tbs_children ← children der tbs
  tbs_fields der
      (record empty_certificate {
        raw = der;
        tbs_certificate = signed;
        sha256_thumbprint = Sha256.hash_bytes der;
        signature_algorithm_oid = oid;
        signature_value = signature;
      })
      tbs_children
certificate_parts der _ = rejected

unfoldable pub parse : Bytes → Parsed X509Certificate
unfolding certificate_parts
parse der = do
  cert_seq ← parse_element (some der) (length der) 0
  guard (is_universal sequence_tag cert_seq)
  top ← children der cert_seq
  certificate_parts der top
