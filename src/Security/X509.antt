-- ===== src/Security/X509.antt =====
-- src/security/x509.cpp: the parser of a DER certificate. Like in Security/Asn1.antt, reading past the
-- buffer is the result `fault`, a returned nullopt is `rejected`. A pointer into the buffer is its offset;
-- a key inside a BIT STRING is read as a buffer of its own.
pub mod Parse
pub mod Regions
pub mod Names
pub mod Parts
pub mod Fields
pub mod Inside
use gcad.Security.Reading.{
  Parsed, fault, rejected, parsed, and_then, ◌>>=◌, ◌>>◌, guard, read, slice, copy,
}
use gcad.Base.{
  ℕ, ◌+◌, ◌-◌, ◌*◌, ◌/◌, ◌%◌, ◌^◌, ◌<◌, Bool, true, false, not, ◌&&◌, ◌||◌, List, [], ◌∷◌, ◌++◌,
  Option, none, some, if◌then◌else◌, ltb, leb, ◌==◌, length,
}
use gcad.Base.Bytes.{Bytes, text, is_empty, eqb}
use gcad.Hash.Sha256
use gcad.Security.Asn1.{
  Element, TagClass, is_universal, integer_tag, object_identifier_tag, parse_element,
  parse_sequence_children, raw_bytes, read_unsigned_integer, oid_to_string,
}
use gcad.Security.Rsa.{RsaPublicKey}
use Prim.Native.Nat.{bit_and, bit_or}

abbrev pub bit_string_tag : ℕ
bit_string_tag = 3

abbrev pub sequence_tag : ℕ
sequence_tag = 16

abbrev pub set_tag : ℕ
set_tag = 17

abbrev pub utc_time_tag : ℕ
utc_time_tag = 23

abbrev pub generalized_time_tag : ℕ
generalized_time_tag = 24

abbrev pub bmp_string_tag : ℕ
bmp_string_tag = 30

abbrev pub rsa_encryption_oid : Bytes
rsa_encryption_oid = text "1.2.840.113549.1.1.1"

abbrev pub common_name_oid : Bytes
common_name_oid = text "2.5.4.3"

pub record X509Certificate : Type 0 where
  pub raw : Bytes
  pub tbs_certificate : Bytes
  pub serial_number : Bytes
  pub issuer_der : Bytes
  pub subject_der : Bytes
  pub issuer_common_name : Bytes
  pub subject_common_name : Bytes
  pub not_before : Bytes
  pub not_after : Bytes
  pub public_key_algorithm_oid : Bytes
  pub rsa_public_key : Option RsaPublicKey
  pub signature_algorithm_oid : Bytes
  pub signature_value : Bytes
  pub sha256_thumbprint : Bytes

-- `if (bytes.empty()) return std::nullopt;`
abbrev pub filled : Bytes → Parsed Bytes
filled [] = rejected
filled (b ∷ bs) = parsed (b ∷ bs)

unfoldable pub content : Bytes → Element → Parsed Bytes
unfolding copy
content data_ e = copy data_ e.content_offset e.content_length

unfoldable pub children : Bytes → Element → Parsed (List Element)
children data_ e = parse_sequence_children (some data_) e.content_offset e.content_length

-- The bytes of one UTF-16 code unit.
abbrev pub utf8_of : ℕ → Bytes → Bytes
utf8_of cp rest =
    if leb cp 0x7f
    then cp ∷ rest
    else if leb cp 0x7ff
    then bit_or 0xc0 (cp / 2 ^ 6) ∷ (bit_or 0x80 (bit_and cp 0x3f) ∷ rest)
    else bit_or 0xe0 (cp / 2 ^ 12)
      ∷ (bit_or 0x80 (bit_and (cp / 2 ^ 6) 0x3f) ∷ (bit_or 0x80 (bit_and cp 0x3f) ∷ rest))

unfoldable pub bmp_string_to_utf8 : Bytes → Bytes
bmp_string_to_utf8 (hi ∷ (lo ∷ rest)) = utf8_of (bit_or (hi * 2 ^ 8) lo) (bmp_string_to_utf8 rest)
bmp_string_to_utf8 _ = []

-- A loop that returns from the first turn that finds something.
abbrev pub first_found : (Element → Parsed (Option Bytes)) → List Element → Parsed (Option Bytes)
first_found f [] = parsed none
first_found f (e ∷ es) =
    let later = first_found f es in
    and_then (f e) (λ r. elim r [ none ↦ later | some found ↦ parsed (some found) ])

-- The value of an attribute, which is copied verbatim where it is no BMPString.
unfoldable pub attribute_value : Bytes → Element → Parsed Bytes
unfolding content
attribute_value data_ value = do
  bytes ← content data_ value
  parsed (if is_universal bmp_string_tag value then bmp_string_to_utf8 bytes else bytes)

unfoldable pub common_name_of : Bytes → List Element → Parsed (Option Bytes)
unfolding attribute_value
common_name_of data_ (oid ∷ (value ∷ [])) =
    if not (is_universal object_identifier_tag oid) then parsed none else do
      name ← oid_to_string (some data_) oid
      if not (eqb name common_name_oid)
          then parsed none
          else (do found ← attribute_value data_ value; parsed (some found))
common_name_of data_ _ = parsed none

-- The body of the loop over the attributes of a relative name.
unfoldable pub attribute_turn : Bytes → Element → Parsed (Option Bytes)
unfolding common_name_of children
attribute_turn data_ atv =
    if not (is_universal sequence_tag atv)
    then parsed none
    else do fields ← children data_ atv; common_name_of data_ fields

-- The body of the loop over the relative names.
unfoldable pub name_turn : Bytes → Element → Parsed (Option Bytes)
unfolding attribute_turn children
name_turn data_ rdn =
    if not (is_universal set_tag rdn)
    then parsed none
    else do atvs ← children data_ rdn; first_found (attribute_turn data_) atvs

abbrev pub or_empty : Option Bytes → Bytes
or_empty none = []
or_empty (some bytes) = bytes

unfoldable pub extract_common_name : Bytes → Element → Parsed Bytes
unfolding name_turn children
extract_common_name data_ name_seq = do
  rdns ← children data_ name_seq
  found ← first_found (name_turn data_) rdns
  parsed (or_empty found)

unfoldable pub extract_time_string : Bytes → Element → Parsed Bytes
unfolding content
extract_time_string data_ time =
    if not (is_universal utc_time_tag time) && not (is_universal generalized_time_tag time)
    then parsed []
    else content data_ time

-- A BIT STRING's content after its count of unused bits.
unfoldable pub read_byte_aligned_bit_string : Bytes → Element → Parsed Bytes
unfolding copy
read_byte_aligned_bit_string data_ e =
    if not (is_universal bit_string_tag e) || (e.content_length == 0) then rejected else do
      unused ← read data_ e.content_offset
      guard (unused == 0)
      copy data_ (e.content_offset + 1) (e.content_length - 1)

-- The next child, which has to be of the given kind, and those after it.
unfoldable pub next : ℕ → List Element → Parsed (Element × List Element)
next tag [] = rejected
next tag (e ∷ es) = if is_universal tag e then parsed (e, es) else rejected

unfoldable pub algorithm_oid : Bytes → List Element → Parsed Bytes
algorithm_oid data_ [] = rejected
algorithm_oid data_ (e ∷ _) = do
  guard (is_universal object_identifier_tag e)
  oid ← oid_to_string (some data_) e
  filled oid

abbrev is_context_specific : TagClass → Bool
is_context_specific TagClass.context_specific = true
is_context_specific _ = false

abbrev pub is_version : Element → Bool
is_version e = is_context_specific e.tag_class && (e.tag_number == 0)

-- The optional version.
unfoldable pub skip_version : List Element → List Element
skip_version [] = []
skip_version (e ∷ es) = if is_version e then es else e ∷ es
