-- ===== src/Security/Pkcs7.antt =====
-- src/security/pkcs7.cpp: the parser of a CMS SignedData, the signature blob of an executable. Its
-- steps are here; the loop over a signer's fields is in Signer, the parser itself in Parse, the encoder
-- of a SET in Encode. Reading past the buffer is the result `fault`, a returned nullopt is `rejected`.
pub mod Signer
pub mod Parse
pub mod Encode
pub mod Regions
pub mod Signers
pub mod Inside
pub mod Lengths
pub mod RoundTrip
pub mod Lookup
use gcad.Base.{
  ◌+◌, ℕ, Bool, true, false, not, ◌&&◌, ◌||◌, List, [], ◌∷◌, Option, none, some, if◌then◌else◌,
  ◌==◌,
}
use gcad.Base.Bytes.{Bytes, text, is_empty, eqb}
use gcad.Security.Reading.{Parsed, rejected, parsed, ◌>>=◌, ◌>>◌, guard}
use gcad.Security.Asn1.{
  Element, TagClass, is_universal, integer_tag, object_identifier_tag, raw_bytes,
  read_unsigned_integer, oid_to_string,
}
use gcad.Security.X509.{X509Certificate, children, content, sequence_tag, set_tag}
use gcad.Security.X509.Parse as Certificate

abbrev pub octet_string_tag : ℕ
octet_string_tag = 4

abbrev pub signed_data_oid : Bytes
signed_data_oid = text "1.2.840.113549.1.7.2"

abbrev pub content_type_attr_oid : Bytes
content_type_attr_oid = text "1.2.840.113549.1.9.3"

abbrev pub message_digest_attr_oid : Bytes
message_digest_attr_oid = text "1.2.840.113549.1.9.4"

pub record SignerInfo : Type 0 where
  pub issuer_der : Bytes
  pub serial_number : Bytes
  pub digest_algorithm_oid : Bytes
  pub signed_attrs_content : Bytes
  pub content_type_attr : Option Bytes
  pub message_digest : Option Bytes
  pub signature_algorithm_oid : Bytes
  pub signature : Bytes

pub record SignedData : Type 0 where
  pub content_type : Bytes
  pub content : Bytes
  pub certificates : List X509Certificate
  pub signer_infos : List SignerInfo

-- `tag_class == CONTEXT_SPECIFIC && tag_number == tag`
abbrev pub is_context : ℕ → Element → Bool
is_context tag e = elim e.tag_class [ TagClass.context_specific ↦ e.tag_number == tag | _ ↦ false ]

-- The only one of the children.
abbrev pub only : List Element → Parsed Element
only (e ∷ []) = parsed e
only _ = rejected

unfoldable pub unwrap_explicit : Bytes → Element → Parsed Element
unfolding children
unwrap_explicit data_ wrapper = do inner ← children data_ wrapper; only inner

-- The loop over the entries of the set; what is no SEQUENCE is passed over.
unfoldable pub certificates_of : Bytes → List Element → Parsed (List X509Certificate)
unfolding Certificate.parse
certificates_of data_ [] = parsed []
certificates_of data_ (entry ∷ entries) =
    let rest = certificates_of data_ entries in
    if not (is_universal sequence_tag entry) then rest else do
      der ← raw_bytes (some data_) entry
      cert ← Certificate.parse der
      certs ← rest
      parsed (cert ∷ certs)

unfoldable pub parse_certificates_set : Bytes → Element → Parsed (List X509Certificate)
unfolding certificates_of children
parse_certificates_set data_ certs_el = do
  entries ← children data_ certs_el
  certificates_of data_ entries

-- What the first value of an attribute sets.
unfoldable pub attribute_value : Bytes → Bytes → SignerInfo → List Element → Parsed SignerInfo
unfolding content
attribute_value data_ oid signer [] = parsed signer
attribute_value data_ oid signer (value ∷ _) =
    if eqb oid content_type_attr_oid && is_universal object_identifier_tag value
    then (do
      type ← oid_to_string (some data_) value
      parsed (record signer { content_type_attr = some type }))
    else if eqb oid message_digest_attr_oid && is_universal octet_string_tag value
    then (do digest ← content data_ value; parsed (record signer { message_digest = some digest }))
    else parsed signer

-- The type and the values of an attribute.
unfoldable pub attribute_fields : Bytes → SignerInfo → List Element → Parsed SignerInfo
unfolding attribute_value children
attribute_fields data_ signer (type_el ∷ (values_el ∷ [])) =
    if not (is_universal object_identifier_tag type_el)
      || (not (is_universal set_tag values_el) || (values_el.content_length == 0))
    then parsed signer
    else do
      oid ← oid_to_string (some data_) type_el
      values ← children data_ values_el
      attribute_value data_ oid signer values
attribute_fields data_ signer _ = parsed signer

-- The body of the loop over the attributes.
unfoldable pub signed_attribute : Bytes → SignerInfo → Element → Parsed SignerInfo
unfolding attribute_fields children
signed_attribute data_ signer attr =
    if not (is_universal sequence_tag attr)
    then parsed signer
    else do fields ← children data_ attr; attribute_fields data_ signer fields

unfoldable pub signed_attributes : Bytes → SignerInfo → List Element → Parsed SignerInfo
unfolding signed_attribute
signed_attributes data_ signer [] = parsed signer
signed_attributes data_ signer (attr ∷ attrs) = do
  signer' ← signed_attribute data_ signer attr
  signed_attributes data_ signer' attrs

unfoldable pub extract_signed_attributes : Bytes → Element → SignerInfo → Parsed SignerInfo
unfolding signed_attributes children
extract_signed_attributes data_ e signer = do
  attrs ← children data_ e
  signed_attributes data_ signer attrs

abbrev pub is_issued_as : SignerInfo → X509Certificate → Bool
is_issued_as signer cert =
    eqb cert.issuer_der signer.issuer_der && eqb cert.serial_number signer.serial_number

-- The first match in the list and its position, which stands for the pointer to it.
unfoldable pub find_certificate :
    (X509Certificate → Bool) → List X509Certificate → Option (ℕ × X509Certificate)
find_certificate test [] = none
find_certificate test (cert ∷ certs) =
    let later = find_certificate test certs in
    if test cert
    then some (0, cert)
    else elim later [ none ↦ none | some found ↦ some (found.0 + 1, found.1) ]

unfoldable pub find_signer_certificate : SignedData → SignerInfo → Option (ℕ × X509Certificate)
unfolding find_certificate
find_signer_certificate data_ signer = find_certificate (is_issued_as signer) data_.certificates
