-- ===== src/Security/Pkcs7/Inside.antt =====
-- What the parser of a SignedData returns lies in the bytes it was given.
use gcad.Base.{ℕ, ◌≡◌, ◌≢◌, ◌≤◌, ap, List, [], ◌∷◌, arith, length, if_cases, All, ◌||◌}
use gcad.Base.Bytes.{Bytes, eqb}
use gcad.Security.Reading.{parsed, ◌>>=◌}
use gcad.Security.Reading.Safe.{Within, and_then-Within, guard-Within}
use gcad.Security.Asn1.{Element, is_universal, integer_tag, object_identifier_tag}
use gcad.Security.Asn1.Bounds.{IsInside, parse_element-Within}
use gcad.Security.X509.{X509Certificate, sequence_tag, set_tag}
use gcad.Security.X509.Regions.{oid_to_string-NoFault, Lies, IsSlice, empty-IsSlice}
use gcad.Security.X509.Parts.{NonEmpty, Lies-Fits, algorithm_oid-NonEmpty, next-Lies, children-Lies}
use gcad.Security.Pkcs7.{
  SignerInfo, SignedData, is_context, octet_string_tag, signed_data_oid, only, unwrap_explicit,
}
use gcad.Security.Pkcs7.Parse.{
  explicit_content, optional_content, encapsulated, optional_certificates, skip_crls, signers_of,
  some_entries, signed_data_fields, content_info_fields, parse,
}
use gcad.Security.Pkcs7.Regions.{content-IsSlice}
use gcad.Security.Pkcs7.Signers.{
  IsSignerIn, IsCertificateIn, parse_signer_info-IsSignerIn, parse_certificates_set-IsCertificateIn,
}

-- A SignedData read from `der`.
pub record IsSignedIn (der : Bytes) (sd : SignedData) : Type 0 where
  pub has_content_type : NonEmpty sd.content_type
  pub content : IsSlice der 0 (length der) sd.content
  pub certificates : All (IsCertificateIn der 0 (length der)) sd.certificates
  pub signer_infos : All (IsSignerIn der 0 (length der)) sd.signer_infos
  pub has_signers : sd.signer_infos ≢ []

module _ (der : Bytes) where
  abbrev LiesIn : Element → Type 0
  LiesIn = Lies 0 (length der)

  unwrap_explicit-Lies : (e : Element) → LiesIn e → Within LiesIn (unwrap_explicit der e)
  unfolding unwrap_explicit
  unwrap_explicit-Lies e l =
      and_then-Within (All LiesIn) LiesIn _ _ (children-Lies der 0 (length der) (omega arith) e l)
        one
    where
      one : (es : List Element) → All LiesIn es → Within LiesIn (only es)
      one [] h = tt
      one (a ∷ []) h = h.0
      one (a ∷ (b ∷ es)) h = tt

  abbrev IsPart : Bytes → Type 0
  IsPart = IsSlice der 0 (length der)

  explicit_content-IsPart : (e : Element) → LiesIn e → Within IsPart (explicit_content der e)
  unfolding explicit_content
  explicit_content-IsPart e l =
      and_then-Within LiesIn IsPart _ _ (unwrap_explicit-Lies e l) (λ inner k.
        guard-Within IsPart (is_universal octet_string_tag inner || is_universal sequence_tag inner)
          _ (λ _. content-IsSlice der 0 (length der) (omega arith) inner k))

  optional_content-IsPart :
      (es : List Element) → All LiesIn es → Within IsPart (optional_content der es)
  unfolding optional_content
  optional_content-IsPart [] h = empty-IsSlice der 0 (length der) (omega arith)
  optional_content-IsPart (e ∷ es) (l, _) =
      if_cases (Within IsPart) (is_context 0 e) {y = parsed []} (λ _. explicit_content-IsPart e l)
        (λ _. empty-IsSlice der 0 (length der) (omega arith))

  encapsulated-IsPart :
      (es : List Element)
      → All LiesIn es
      → Within (λ r. NonEmpty r.0 × IsPart r.1) (encapsulated der es)
  unfolding encapsulated
  encapsulated-IsPart [] h = tt
  encapsulated-IsPart (e ∷ es) (l, h) =
      and_then-Within NonEmpty (λ r. NonEmpty r.0 × IsPart r.1) _ _
        (algorithm_oid-NonEmpty der 0 (length der) (omega arith) (e ∷ es) (l, h))
        (λ oid some_oid.
          and_then-Within IsPart (λ r. NonEmpty r.0 × IsPart r.1) _ _ (optional_content-IsPart es h)
            (λ octets p. (some_oid, p)))

  abbrev Certificates : List X509Certificate × List Element → Type 0
  Certificates r = All (IsCertificateIn der 0 (length der)) r.0 × All LiesIn r.1

  optional_certificates-Certificates :
      (es : List Element) → All LiesIn es → Within Certificates (optional_certificates der es)
  unfolding optional_certificates
  optional_certificates-Certificates [] h = (tt, tt)
  optional_certificates-Certificates (e ∷ es) (l, h) =
      if_cases (Within Certificates) (is_context 0 e) {y = parsed ([], e ∷ es)}
        (λ _.
          and_then-Within (All (IsCertificateIn der 0 (length der))) Certificates _ _
            (parse_certificates_set-IsCertificateIn der 0 (length der) (omega arith) e l)
            (λ certs k. (k, h)))
        (λ _. (tt, (l, h)))

  skip_crls-Lies : (es : List Element) → All LiesIn es → All LiesIn (skip_crls es)
  unfolding skip_crls
  skip_crls-Lies [] h = tt
  skip_crls-Lies (e ∷ es) h =
      if_cases (All LiesIn) (is_context 1 e) {x = es} {y = e ∷ es} (λ _. h.1) (λ _. h)

  -- As many signers as entries, each in its entry.
  abbrev Signers : List Element → List SignerInfo → Type 0
  Signers es signers = All (IsSignerIn der 0 (length der)) signers × (length signers ≡ length es)

  signers_of-Signers : (es : List Element) → All LiesIn es → Within (Signers es) (signers_of der es)
  unfolding signers_of
  signers_of-Signers [] h = (tt, omega arith)
  signers_of-Signers (e ∷ es) (l, h) =
      guard-Within (Signers (e ∷ es)) (is_universal sequence_tag e) _ (λ _.
        and_then-Within (IsSignerIn der 0 (length der)) (Signers (e ∷ es)) _ _
          (parse_signer_info-IsSignerIn der 0 (length der) (omega arith) e l)
          (λ signer s.
            and_then-Within (Signers es) (Signers (e ∷ es)) _ _ (signers_of-Signers es h)
              (λ signers k. ((s, k.0), omega (arith, k.1)))))

  filled_signers :
      (entries : List Element)
      → All LiesIn entries
      → (content_type octets : Bytes) → (certs : List X509Certificate) → NonEmpty content_type
      → IsPart octets
      → All (IsCertificateIn der 0 (length der)) certs
      → Within (IsSignedIn der) (do
        filled_entries ← some_entries entries
        signers ← signers_of der filled_entries
        parsed (record {
          content_type = content_type;
          content = octets;
          certificates = certs;
          signer_infos = signers;
        }))
  filled_signers [] h content_type octets certs t p c = tt
  filled_signers (e ∷ es) h content_type octets certs t p c =
      and_then-Within (Signers (e ∷ es)) (IsSignedIn der) _ _ (signers_of-Signers (e ∷ es) h)
        (λ signers k. record {
          has_content_type = t;
          content = p;
          certificates = c;
          signer_infos = k.0;
          has_signers = λ none_left. absurd (ground (arith, k.1, ap length none_left));
        })

  signed_data_fields-IsSignedIn :
      (es : List Element) → All LiesIn es → Within (IsSignedIn der) (signed_data_fields der es)
  unfolding signed_data_fields
  signed_data_fields-IsSignedIn es h =
      and_then-Within R Q _ _ (next-Lies der 0 hi fits integer_tag es h) (λ version a.
        and_then-Within R Q _ _ (next-Lies der 0 hi fits set_tag version.1 a.1) (λ digests b.
          and_then-Within R Q _ _ (next-Lies der 0 hi fits sequence_tag digests.1 b.1) (λ eci c.
            and_then-Within (All LiesIn) Q _ _ (children-Lies der 0 hi fits eci.0 c.0) (λ parts d.
              and_then-Within (λ r. NonEmpty r.0 × IsPart r.1) Q _ _ (encapsulated-IsPart parts d)
                (λ octets f.
                  and_then-Within Certificates Q _ _ (optional_certificates-Certificates eci.1 c.1)
                    (λ certs g.
                      and_then-Within R Q _ _
                        (next-Lies der 0 hi fits set_tag (skip_crls certs.1)
                          (skip_crls-Lies certs.1 g.1))
                        (λ infos k.
                          and_then-Within (All LiesIn) Q _ _
                            (children-Lies der 0 hi fits infos.0 k.0)
                            (λ entries m.
                              filled_signers entries m octets.0 octets.1 certs.0 f.0 f.1 g.0))))))))
    where
      hi : ℕ
      hi = length der

      fits : hi ≤ length der
      fits = omega arith

      Q : SignedData → Type 0
      Q = IsSignedIn der

      R : Element × List Element → Type 0
      R = λ r. LiesIn r.0 × All LiesIn r.1

  content_info_fields-IsSignedIn :
      (es : List Element) → All LiesIn es → Within (IsSignedIn der) (content_info_fields der es)
  unfolding content_info_fields
  content_info_fields-IsSignedIn [] h = tt
  content_info_fields-IsSignedIn (a ∷ []) h = tt
  content_info_fields-IsSignedIn (a ∷ (b ∷ (c ∷ es))) h = tt
  content_info_fields-IsSignedIn (a ∷ (b ∷ [])) (k, (l, _)) =
      guard-Within Q (is_universal object_identifier_tag a) _ (λ _.
        and_then-Within (λ _. Unit) Q _ _
          (oid_to_string-NoFault der a (Lies-Fits der 0 (length der) (omega arith) a k))
          (λ oid _. guard-Within Q (eqb oid signed_data_oid) _ (λ _.
            guard-Within Q (is_context 0 b) _ (λ _.
              and_then-Within LiesIn Q _ _ (unwrap_explicit-Lies b l) (λ signed s.
                guard-Within Q (is_universal sequence_tag signed) _ (λ _.
                  and_then-Within (All LiesIn) Q _ _
                    (children-Lies der 0 (length der) (omega arith) signed s)
                    signed_data_fields-IsSignedIn))))))
    where
      Q : SignedData → Type 0
      Q = IsSignedIn der

-- On any bytes `parse` reads nothing outside them. In a SignedData that it returns there is a signer; the
-- content is a region of the bytes, each certificate was read from a region of them, and each signer's
-- issuer, serial number, attributes and signature are regions, of which the attributes alone may be
-- empty; a signer's message digest is a region of its signed attributes.
pub parse-IsSignedIn : (der : Bytes) → Within (IsSignedIn der) (parse der)
unfolding parse
parse-IsSignedIn der =
    and_then-Within (IsInside (length der) 0) (IsSignedIn der) _ _
      (parse_element-Within der (length der) (omega arith) 0)
      (λ info inside. guard-Within (IsSignedIn der) (is_universal sequence_tag info) _ (λ _.
        and_then-Within (All (Lies 0 (length der))) (IsSignedIn der) _ _
          (children-Lies der 0 (length der) (omega arith) info
            (record { offset = 0; after = omega arith; inside = inside }))
          (content_info_fields-IsSignedIn der)))
