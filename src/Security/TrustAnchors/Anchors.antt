-- ===== src/Security/TrustAnchors/Anchors.antt =====
-- The compiled-in roots all parse, and what a search for one gives.
use gcad.Base.{
  ℕ, suc, ◌≤◌, ◌≡◌, ◌≢◌, refl, Bool, true, false, ◌&&◌, List, [], ◌∷◌, ◌⊎◌, inl, inr, ap, subst,
  sym, Option, none, some, length, leb, ◌==◌, All, if_cases, arith, leb→le, if◌then◌else◌,
}
use gcad.Base.Bytes.{Bytes, eqb, eqb→eq, eqb-false, eqb_refl}
use gcad.Security.Reading.{Parsed, fault, rejected, parsed, and_then}
use gcad.Security.Rsa.{RsaPublicKey}
use gcad.Security.X509.{X509Certificate}
use gcad.Security.X509.Parse.{parse}
use gcad.Security.TrustAnchors.{
  root_ders, parse_roots, trusted_root_certificates, find_by_subject, find_trust_anchor_by_subject,
}

-- An RSA key of 2048 bits or more.
abbrev pub HasKey : Option RsaPublicKey → Type 0
HasKey none = ⊥
HasKey (some key) = 256 ≤ length key.modulus

-- A certificate in its own name, with such a key.
pub record IsRoot (cert : X509Certificate) : Type 0 where
  pub self_issued : cert.subject_der ≡ cert.issuer_der
  pub has_key : HasKey cert.rsa_public_key

abbrev has_key : Option RsaPublicKey → Bool
has_key none = false
has_key (some key) = leb 256 (length key.modulus)

-- Whether the parser returns such a root.
abbrev is_root : Parsed X509Certificate → Bool
is_root fault = false
is_root rejected = false
is_root (parsed cert) = eqb cert.subject_der cert.issuer_der && has_key cert.rsa_public_key

has_key-HasKey : (key : Option RsaPublicKey) → has_key key ≡ true → HasKey key
has_key-HasKey none h = absurd (ground (arith, h))
has_key-HasKey (some key) h = leb→le 256 (length key.modulus) h

-- The encodings give roots, one each.
abbrev pub GiveRoots : List Bytes → Parsed (List X509Certificate) → Type 0
GiveRoots ders r =
    (roots : List X509Certificate) × (r ≡ parsed roots)
    × ((length roots ≡ length ders) × All IsRoot roots)

one_more :
    (der : Bytes) (ders : List Bytes) (rest : Parsed (List X509Certificate))
    (r : Parsed X509Certificate)
    → GiveRoots ders rest
    → is_root r ≡ true
    → GiveRoots (der ∷ ders) (elim r [
      | fault ↦ fault
      | rejected ↦ rest
      | parsed cert ↦ and_then rest (λ roots. parsed (cert ∷ roots))
    ])
one_more der ders rest fault h k = absurd (ground (arith, k))
one_more der ders rest rejected h k = absurd (ground (arith, k))
one_more der ders rest (parsed cert) (roots, same, (count, all)) k = (
  cert ∷ roots,
  ap (λ r. and_then r (λ roots. parsed (cert ∷ roots))) same,
  (
    ap suc count,
    (
      record {
        self_issued = eqb→eq cert.subject_der cert.issuer_der (ground (arith, k));
        has_key = has_key-HasKey cert.rsa_public_key (ground (arith, k));
      },
      all,
    ),
  ),
)

parse_roots-GiveRoots :
    (ders : List Bytes)
    → All (λ der. is_root (parse der) ≡ true) ders
    → GiveRoots ders (parse_roots ders)
unfolding parse_roots
parse_roots-GiveRoots [] h = ([], refl, (refl, tt))
parse_roots-GiveRoots (der ∷ ders) (h, rest) =
    one_more der ders (parse_roots ders) (parse der) (parse_roots-GiveRoots ders rest) h

roots_test : All (λ der. is_root (parse der) ≡ true) root_ders
unfolding parse gcad.Security.Asn1.read_unsigned_integer gcad.Security.Asn1.raw_bytes
    gcad.Security.Asn1.oid_to_string gcad.Security.Asn1.parse_element gcad.Security.X509.children
    gcad.Security.Asn1.parse_sequence_children gcad.Security.X509.algorithm_oid
    gcad.Security.Asn1.first_arcs gcad.Base.Bytes.to_string
    gcad.Security.X509.read_byte_aligned_bit_string gcad.Security.X509.extract_common_name eqb
    gcad.Security.X509.extract_time_string
    gcad.Security.TrustAnchors.DigiCertTrustedRootG4.digi_cert_trusted_root_g4_der
    gcad.Security.TrustAnchors.DigiCertGlobalRootG2.digi_cert_global_root_g2_der
    gcad.Security.TrustAnchors.MicrosoftRoot2011.microsoft_root_2011_der
    gcad.Security.TrustAnchors.UserTrustRsaRoot.user_trust_rsa_root_der
    gcad.Security.TrustAnchors.GlobalSignRootR3.global_sign_root_r3_der
roots_test = (refl, (refl, (refl, (refl, (refl, tt)))))

pub trusted-GiveRoots : GiveRoots root_ders trusted_root_certificates
unfolding trusted_root_certificates
trusted-GiveRoots = parse_roots-GiveRoots root_ders roots_test

-- What the search gives: a root with the subject, which is the first, or nothing where no root has it.
abbrev pub IsFirst : List X509Certificate → Bytes → Option X509Certificate → Type 0
IsFirst [] subject found = found ≡ none
IsFirst (root ∷ roots) subject found =
    ((root.subject_der ≡ subject) × (found ≡ some root))
    ⊎ ((root.subject_der ≢ subject) × IsFirst roots subject found)

find_by_subject-IsFirst :
    (roots : List X509Certificate) (subject : Bytes)
    → IsFirst roots subject (find_by_subject roots subject)
unfolding find_by_subject
find_by_subject-IsFirst [] subject = refl
find_by_subject-IsFirst (root ∷ roots) subject =
    if_cases (IsFirst (root ∷ roots) subject) (eqb root.subject_der subject)
      (λ h. inl (eqb→eq root.subject_der subject h, refl))
      (λ h. inr (eqb-false root.subject_der subject h, find_by_subject-IsFirst roots subject))

-- Reading the compiled-in encodings does not fault, and they give five certificates, each in its own name
-- and with an RSA key of 2048 bits or more; `find_trust_anchor_by_subject` returns the first of them that
-- has the subject, and nothing exactly where none has it.
pub find_trust_anchor_by_subject-IsFirst :
    (subject : Bytes)
    → (roots : List X509Certificate) × (trusted_root_certificates ≡ parsed roots)
      × ((length roots ≡ 5) × All IsRoot roots)
      × (found : Option X509Certificate) × (find_trust_anchor_by_subject subject ≡ parsed found)
      × IsFirst roots subject found
unfolding find_trust_anchor_by_subject
find_trust_anchor_by_subject-IsFirst subject =
    let (roots, same, counted) = trusted-GiveRoots in
    (
      roots,
      same,
      counted,
      find_by_subject roots subject,
      ap (λ r. and_then r (λ rs. parsed (find_by_subject rs subject))) same,
      find_by_subject-IsFirst roots subject,
    )
