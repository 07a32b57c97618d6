-- ===== src/Security/Pkcs7/Signer.antt =====
-- src/security/pkcs7.cpp, parse_signer_info.
use gcad.Base.{ℕ, not, ◌&&◌, List, [], ◌∷◌, none, some, if◌then◌else◌}
use gcad.Base.Bytes.{Bytes, is_empty}
use gcad.Security.Reading.{Parsed, rejected, parsed, ◌>>=◌, ◌>>◌, guard}
use gcad.Security.Asn1.{Element, is_universal, integer_tag, raw_bytes, read_unsigned_integer}
use gcad.Security.X509.{children, content, filled, next, algorithm_oid, sequence_tag}
use gcad.Security.Pkcs7.{SignerInfo, is_context, octet_string_tag, extract_signed_attributes}

-- `SignerInfo signer{}`
abbrev pub empty_signer : SignerInfo
empty_signer = record {
  issuer_der = [];
  serial_number = [];
  digest_algorithm_oid = [];
  signed_attrs_content = [];
  content_type_attr = none;
  message_digest = none;
  signature_algorithm_oid = [];
  signature = [];
}

-- The raw issuer and the serial number, neither empty.
unfoldable pub issuer_and_serial : Bytes → List Element → Parsed (Bytes × Bytes)
issuer_and_serial data_ (issuer ∷ (serial ∷ [])) = do
  guard (is_universal sequence_tag issuer && is_universal integer_tag serial)
  issuer_der ← raw_bytes (some data_) issuer
  serial_number ← read_unsigned_integer (some data_) serial
  guard (not (is_empty issuer_der) && not (is_empty serial_number))
  parsed (issuer_der, serial_number)
issuer_and_serial data_ _ = rejected

-- The next child, which has to carry the context-specific tag, and those after it.
unfoldable pub next_context : ℕ → List Element → Parsed (Element × List Element)
next_context tag [] = rejected
next_context tag (e ∷ es) = if is_context tag e then parsed (e, es) else rejected

-- The next AlgorithmIdentifier's OBJECT IDENTIFIER, and the children after it.
unfoldable pub next_algorithm : Bytes → List Element → Parsed (Bytes × List Element)
unfolding next children algorithm_oid
next_algorithm data_ fields = do
  (algorithm, rest) ← next sequence_tag fields
  parts ← children data_ algorithm
  oid ← algorithm_oid data_ parts
  parsed (oid, rest)

-- The fields from the signature's algorithm on.
unfoldable pub signature_fields : Bytes → SignerInfo → List Element → Parsed SignerInfo
unfolding next_algorithm next content
signature_fields data_ signer fields = do
  (oid, rest) ← next_algorithm data_ fields
  (octets, _) ← next octet_string_tag rest
  bytes ← content data_ octets
  signature ← filled bytes
  parsed (record signer { signature_algorithm_oid = oid; signature = signature })

-- The fields of a SignerInfo, in their order.
unfoldable pub signer_fields : Bytes → List Element → Parsed SignerInfo
unfolding signature_fields next_context issuer_and_serial extract_signed_attributes
signer_fields data_ fields = do
  (_, rest) ← next integer_tag fields
  (sid, rest) ← next sequence_tag rest
  iasn ← children data_ sid
  (issuer_der, serial_number) ← issuer_and_serial data_ iasn
  (oid, rest) ← next_algorithm data_ rest
  (attrs, rest) ← next_context 0 rest
  attrs_content ← content data_ attrs
  signer ← extract_signed_attributes data_ attrs (record empty_signer {
    issuer_der = issuer_der;
    serial_number = serial_number;
    digest_algorithm_oid = oid;
    signed_attrs_content = attrs_content;
  })
  signature_fields data_ signer rest

unfoldable pub parse_signer_info : Bytes → Element → Parsed SignerInfo
unfolding signer_fields
parse_signer_info data_ si_el = do fields ← children data_ si_el; signer_fields data_ fields
