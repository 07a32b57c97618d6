-- ===== src/Tests/Certificates.antt =====
-- A certificate: issuer "A", subject "B", an RSA key.
use gcad.Security.Reading.{Parsed, fault, parsed, rejected}
use gcad.Security.Reading.Safe.{Within}
use gcad.Base.{◌≡◌, refl, [], ◌∷◌, Option, some, none}
use gcad.Base.Bytes.{Bytes, text}
use gcad.Security.Asn1.{read_unsigned_integer, raw_bytes, oid_to_string, is_universal}
use gcad.Security.X509.{X509Certificate}
use gcad.Security.X509.Parse.{parse}
use gcad.Security.X509.Inside.{IsReadFrom, parse-IsReadFrom}

abbrev der : Bytes
der =
    48 ∷ 80 ∷ 48 ∷ 68 ∷ 2 ∷ 1 ∷ 5 ∷ 48 ∷ 0 ∷ 48 ∷ 12 ∷ 49 ∷ 10 ∷ 48 ∷ 8 ∷ 6 ∷ 3 ∷ 85 ∷ 4 ∷ 3 ∷ 12
    ∷ 1 ∷ 65 ∷ 48 ∷ 6 ∷ 23 ∷ 1 ∷ 49 ∷ 23 ∷ 1 ∷ 50 ∷ 48 ∷ 12 ∷ 49 ∷ 10 ∷ 48 ∷ 8 ∷ 6 ∷ 3 ∷ 85 ∷ 4 ∷ 3
    ∷ 12 ∷ 1 ∷ 66 ∷ 48 ∷ 25 ∷ 48 ∷ 11 ∷ 6 ∷ 9 ∷ 42 ∷ 134 ∷ 72 ∷ 134 ∷ 247 ∷ 13 ∷ 1 ∷ 1 ∷ 1 ∷ 3 ∷ 10
    ∷ 0 ∷ 48 ∷ 7 ∷ 2 ∷ 2 ∷ 0 ∷ 193 ∷ 2 ∷ 1 ∷ 3 ∷ 48 ∷ 4 ∷ 6 ∷ 2 ∷ 42 ∷ 3 ∷ 3 ∷ 2 ∷ 0 ∷ 170 ∷ []

abbrev names_of : Parsed X509Certificate → Option (Bytes × Bytes)
names_of (parsed cert) = some (cert.issuer_common_name, cert.subject_common_name)
names_of rejected = none
names_of fault = none

names_test : names_of (parse der) ≡ some (text "A", text "B")
unfolding parse read_unsigned_integer raw_bytes oid_to_string gcad.Security.Asn1.parse_element
    gcad.Security.X509.children gcad.Security.Asn1.parse_sequence_children
    gcad.Security.X509.algorithm_oid gcad.Security.Asn1.first_arcs gcad.Base.Bytes.to_string
    gcad.Security.X509.read_byte_aligned_bit_string gcad.Security.X509.extract_common_name
    gcad.Base.Bytes.eqb gcad.Security.X509.extract_time_string
names_test = refl

parse-IsReadFrom_example : Within (IsReadFrom der) (parse der)
parse-IsReadFrom_example = parse-IsReadFrom der
