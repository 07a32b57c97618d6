-- ===== src/Security/Pkcs7/Parse.antt =====
-- src/security/pkcs7.cpp, Pkcs7Parser::parse.
use gcad.Base.{◌||◌, List, [], ◌∷◌, some, if◌then◌else◌, length}
use gcad.Base.Bytes.{Bytes, eqb}
use gcad.Security.Reading.{Parsed, rejected, parsed, ◌>>=◌, ◌>>◌, guard}
use gcad.Security.Asn1.{
  Element, is_universal, integer_tag, object_identifier_tag, parse_element, oid_to_string,
}
use gcad.Security.X509.{
  X509Certificate, children, content, next, algorithm_oid, sequence_tag, set_tag,
}
use gcad.Security.Pkcs7.{
  SignerInfo, SignedData, is_context, octet_string_tag, signed_data_oid, unwrap_explicit,
  parse_certificates_set,
}
use gcad.Security.Pkcs7.Signer.{parse_signer_info}

-- The content octets of the encapsulated element, an OCTET STRING or a SEQUENCE.
unfoldable pub explicit_content : Bytes → Element → Parsed Bytes
unfolding unwrap_explicit content
explicit_content data_ wrapper = do
  inner ← unwrap_explicit data_ wrapper
  guard (is_universal octet_string_tag inner || is_universal sequence_tag inner)
  content data_ inner

-- The content, which is empty where there is none.
unfoldable pub optional_content : Bytes → List Element → Parsed Bytes
unfolding explicit_content
optional_content data_ [] = parsed []
optional_content data_ (e ∷ _) = if is_context 0 e then explicit_content data_ e else parsed []

-- The content's type and the content.
unfoldable pub encapsulated : Bytes → List Element → Parsed (Bytes × Bytes)
unfolding optional_content algorithm_oid
encapsulated data_ [] = rejected
encapsulated data_ (type_el ∷ rest) = do
  content_type ← algorithm_oid data_ (type_el ∷ rest)
  octets ← optional_content data_ rest
  parsed (content_type, octets)

-- The optional certificates, and the children after them.
unfoldable pub optional_certificates :
    Bytes → List Element → Parsed (List X509Certificate × List Element)
unfolding parse_certificates_set
optional_certificates data_ [] = parsed ([], [])
optional_certificates data_ (e ∷ es) =
    if is_context 0 e
    then (do certs ← parse_certificates_set data_ e; parsed (certs, es))
    else parsed ([], e ∷ es)

-- The optional revocation lists.
unfoldable pub skip_crls : List Element → List Element
skip_crls [] = []
skip_crls (e ∷ es) = if is_context 1 e then es else e ∷ es

-- The loop over the entries of the set of signers.
unfoldable pub signers_of : Bytes → List Element → Parsed (List SignerInfo)
unfolding parse_signer_info
signers_of data_ [] = parsed []
signers_of data_ (entry ∷ entries) = do
  guard (is_universal sequence_tag entry)
  signer ← parse_signer_info data_ entry
  signers ← signers_of data_ entries
  parsed (signer ∷ signers)

-- `if (entries.empty()) return std::nullopt;`
abbrev pub some_entries : List Element → Parsed (List Element)
some_entries [] = rejected
some_entries (e ∷ es) = parsed (e ∷ es)

-- The fields of a SignedData, in their order.
unfoldable pub signed_data_fields : Bytes → List Element → Parsed SignedData
unfolding encapsulated optional_certificates signers_of next children
signed_data_fields data_ fields = do
  (_, rest) ← next integer_tag fields
  (_, rest) ← next set_tag rest
  (eci, rest) ← next sequence_tag rest
  parts ← children data_ eci
  (content_type, octets) ← encapsulated data_ parts
  (certificates, rest) ← optional_certificates data_ rest
  (infos, _) ← next set_tag (skip_crls rest)
  entries ← children data_ infos
  filled_entries ← some_entries entries
  signers ← signers_of data_ filled_entries
  parsed (record {
    content_type = content_type;
    content = octets;
    certificates = certificates;
    signer_infos = signers;
  })

-- The type and the content of a ContentInfo.
unfoldable pub content_info_fields : Bytes → List Element → Parsed SignedData
unfolding signed_data_fields unwrap_explicit
content_info_fields data_ (type_el ∷ (wrapper ∷ [])) = do
  guard (is_universal object_identifier_tag type_el)
  oid ← oid_to_string (some data_) type_el
  guard (eqb oid signed_data_oid)
  guard (is_context 0 wrapper)
  signed_data_el ← unwrap_explicit data_ wrapper
  guard (is_universal sequence_tag signed_data_el)
  fields ← children data_ signed_data_el
  signed_data_fields data_ fields
content_info_fields data_ _ = rejected

unfoldable pub parse : Bytes → Parsed SignedData
unfolding content_info_fields
parse der = do
  content_info ← parse_element (some der) (length der) 0
  guard (is_universal sequence_tag content_info)
  parts ← children der content_info
  content_info_fields der parts
