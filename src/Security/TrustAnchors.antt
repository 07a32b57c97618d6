-- ===== src/Security/TrustAnchors.antt =====
-- src/security/trust_anchors.cpp: the compiled-in roots, the DER of each in a module of its own, and the
-- search for one by its subject.
pub mod DigiCertTrustedRootG4
pub mod DigiCertGlobalRootG2
pub mod MicrosoftRoot2011
pub mod UserTrustRsaRoot
pub mod GlobalSignRootR3
pub mod Anchors
use DigiCertTrustedRootG4.{digi_cert_trusted_root_g4_der}
use DigiCertGlobalRootG2.{digi_cert_global_root_g2_der}
use MicrosoftRoot2011.{microsoft_root_2011_der}
use UserTrustRsaRoot.{user_trust_rsa_root_der}
use GlobalSignRootR3.{global_sign_root_r3_der}
use gcad.Base.{List, [], ◌∷◌, Option, none, some, if◌then◌else◌}
use gcad.Base.Bytes.{Bytes, eqb}
use gcad.Security.Reading.{Parsed, fault, rejected, parsed, and_then}
use gcad.Security.X509.{X509Certificate}
use gcad.Security.X509.Parse.{parse}

abbrev pub root_ders : List Bytes
root_ders =
    digi_cert_trusted_root_g4_der ∷ digi_cert_global_root_g2_der ∷ microsoft_root_2011_der
    ∷ user_trust_rsa_root_der ∷ global_sign_root_r3_der ∷ []

-- The loop over the encodings: what does not parse is left out.
unfoldable pub parse_roots : List Bytes → Parsed (List X509Certificate)
unfolding parse
parse_roots [] = parsed []
parse_roots (der ∷ ders) =
    let rest = parse_roots ders in
    elim (parse der) [
      | fault ↦ fault
      | rejected ↦ rest
      | parsed cert ↦ and_then rest (λ roots. parsed (cert ∷ roots))
    ]

unfoldable pub trusted_root_certificates : Parsed (List X509Certificate)
unfolding parse_roots
trusted_root_certificates = parse_roots root_ders

unfoldable pub find_by_subject : List X509Certificate → Bytes → Option X509Certificate
find_by_subject [] subject_der = none
find_by_subject (root ∷ roots) subject_der =
    let later = find_by_subject roots subject_der in
    if eqb root.subject_der subject_der then some root else later

unfoldable pub find_trust_anchor_by_subject : Bytes → Parsed (Option X509Certificate)
unfolding find_by_subject trusted_root_certificates
find_trust_anchor_by_subject subject_der =
    and_then trusted_root_certificates (λ roots. parsed (find_by_subject roots subject_der))
