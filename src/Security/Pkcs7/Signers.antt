-- ===== src/Security/Pkcs7/Signers.antt =====
-- A signer and the certificates that the parser returns lie in the element they were read from, a
-- signer's digest in the attributes that its signature covers.
use gcad.Base.{
  ℕ, ◌+◌, ◌≤◌, ◌≡◌, sym, ap, ◌∙◌, subst, List, [], ◌∷◌, Option, some, none, arith, length, All, not,
  if_cases,
}
use gcad.Base.Bytes.{Bytes}
use gcad.Security.Reading.{slice, and_then}
use gcad.Security.Reading.Safe.{Within, and_then-Within, Within-mono}
use gcad.Security.Asn1.{Element, is_universal, integer_tag}
use gcad.Security.X509.{X509Certificate, content, sequence_tag}
use gcad.Security.X509.Regions.{Lies, IsSlice, Child, children-Child, raw_bytes-IsSlice}
use gcad.Security.X509.Parts.{NonEmpty, filled-NonEmpty, Lies-Fits, next-Lies, children-Lies}
use gcad.Security.X509.Inside.{IsReadFrom, parse-IsReadFrom}
use gcad.Security.Pkcs7.{
  SignerInfo, octet_string_tag, extract_signed_attributes, certificates_of, parse_certificates_set,
}
use gcad.Security.Pkcs7.Signer.{empty_signer, signature_fields, signer_fields, parse_signer_info}
use gcad.Security.Pkcs7.Regions.{
  content-IsSlice, content_slice, next_context-Lies, next_algorithm-Lies,
  issuer_and_serial-Identity, Identity, signed_attributes-Within,
}

-- A digest between `lo` and `hi`, where there is one.
abbrev pub DigestIsSlice : Bytes → ℕ → ℕ → Option Bytes → Type 0
DigestIsSlice der lo hi none = Unit
DigestIsSlice der lo hi (some digest) = IsSlice der lo hi digest

-- The fields of a signer up to its attributes, which begin at `start`.
pub record IsIdentified (der : Bytes) (lo hi start : ℕ) (s : SignerInfo) : Type 0 where
  pub issuer_der : IsSlice der lo hi s.issuer_der × NonEmpty s.issuer_der
  pub serial_number : IsSlice der lo hi s.serial_number × NonEmpty s.serial_number
  pub has_digest_algorithm : NonEmpty s.digest_algorithm_oid
  pub after : lo ≤ start
  pub before : start + length s.signed_attrs_content ≤ hi
  pub signed_attrs_content :
      s.signed_attrs_content ≡ slice der start (length s.signed_attrs_content)
  pub message_digest :
      DigestIsSlice der start (start + length s.signed_attrs_content) s.message_digest

-- A signer between `lo` and `hi`: its message digest stands in the attributes that are signed.
pub record IsSignerIn (der : Bytes) (lo hi : ℕ) (s : SignerInfo) : Type 0 where
  pub start : ℕ
  pub identified : IsIdentified der lo hi start s
  pub has_signature_algorithm : NonEmpty s.signature_algorithm_oid
  pub signature : IsSlice der lo hi s.signature × NonEmpty s.signature

-- A certificate that was read from a region.
abbrev pub IsCertificateIn : Bytes → ℕ → ℕ → X509Certificate → Type 0
IsCertificateIn der lo hi cert = IsSlice der lo hi cert.raw × IsReadFrom cert.raw cert

module _ (der : Bytes) (lo hi : ℕ) (fits : hi ≤ length der) where
  abbrev LiesAll : List Element → Type 0
  LiesAll = All (Lies lo hi)

  signature_fields-IsSignerIn :
      (start : ℕ) (s : SignerInfo) (es : List Element)
      → LiesAll es
      → IsIdentified der lo hi start s
      → Within (IsSignerIn der lo hi) (signature_fields der s es)
  unfolding signature_fields
  signature_fields-IsSignerIn start s es h identified =
      and_then-Within (λ r. NonEmpty r.0 × LiesAll r.1) (IsSignerIn der lo hi) _ _
        (next_algorithm-Lies der lo hi fits es h)
        (λ r k.
          and_then-Within (λ r. Lies lo hi r.0 × LiesAll r.1) (IsSignerIn der lo hi) _ _
            (next-Lies der lo hi fits octet_string_tag r.1 k.1)
            (λ o l.
              and_then-Within (IsSlice der lo hi) (IsSignerIn der lo hi) _ _
                (content-IsSlice der lo hi fits o.0 l.0)
                (λ bytes b.
                  and_then-Within (λ b. IsSlice der lo hi b × NonEmpty b) (IsSignerIn der lo hi) _ _
                    (filled-NonEmpty (IsSlice der lo hi) bytes b)
                    (λ signature g. record {
                      start = start;
                      identified = record {
                        issuer_der = identified.issuer_der;
                        serial_number = identified.serial_number;
                        has_digest_algorithm = identified.has_digest_algorithm;
                        after = identified.after;
                        before = identified.before;
                        signed_attrs_content = identified.signed_attrs_content;
                        message_digest = identified.message_digest;
                      };
                      has_signature_algorithm = k.0;
                      signature = g;
                    }))))

  -- The attributes of an element that is the signer's signed region.
  extract-IsIdentified :
      (e : Element) (s : SignerInfo)
      → Lies lo hi e
      → length s.signed_attrs_content ≡ e.content_length
      → IsIdentified der lo hi e.content_offset s
      → Within (IsIdentified der lo hi e.content_offset) (extract_signed_attributes der e s)
  unfolding extract_signed_attributes
  extract-IsIdentified e s l same identified =
      Within-mono P (IsIdentified der lo hi e.content_offset) (λ t p. p.0) _
        (and_then-Within (All (Child e)) P _ _ (children-Child der e (Lies-Fits der lo hi fits e l))
          (λ es k.
            signed_attributes-Within der e.content_offset (e.content_offset + e.content_length)
              (omega (arith, l.inside.content, fits)) P
              (λ t c p. (
                record {
                  issuer_der = p.0.issuer_der;
                  serial_number = p.0.serial_number;
                  has_digest_algorithm = p.0.has_digest_algorithm;
                  after = p.0.after;
                  before = p.0.before;
                  signed_attrs_content = p.0.signed_attrs_content;
                  message_digest = p.0.message_digest;
                },
                p.1,
              ))
              (λ t d i p. (
                record {
                  issuer_der = p.0.issuer_der;
                  serial_number = p.0.serial_number;
                  has_digest_algorithm = p.0.has_digest_algorithm;
                  after = p.0.after;
                  before = p.0.before;
                  signed_attrs_content = p.0.signed_attrs_content;
                  message_digest =
                      subst (λ n. IsSlice der e.content_offset (e.content_offset + n) d) (sym p.1)
                        i;
                },
                p.1,
              ))
              s es k (identified, same)))
    where
      P : SignerInfo → Type 0
      P = λ t.
          IsIdentified der lo hi e.content_offset t
          × (length t.signed_attrs_content ≡ e.content_length)

  attributes-IsSignerIn :
      (issuer serial oid : Bytes) (e : Element) (es : List Element)
      → Identity der lo hi fits (issuer, serial)
      → NonEmpty oid
      → Lies lo hi e
      → LiesAll es
      → Within (IsSignerIn der lo hi) (
          and_then (content der e) (λ attrs.
            and_then
              (extract_signed_attributes der e (record empty_signer {
                issuer_der = issuer;
                serial_number = serial;
                digest_algorithm_oid = oid;
                signed_attrs_content = attrs;
              }))
              (λ s. signature_fields der s es)))
  attributes-IsSignerIn issuer serial oid e es identity some_oid l h =
      and_then-Within
        (λ b. (b ≡ slice der e.content_offset e.content_length) × (length b ≡ e.content_length))
        (IsSignerIn der lo hi) _ _ (content_slice der lo hi fits e l)
        (λ attrs same.
          and_then-Within (IsIdentified der lo hi e.content_offset) (IsSignerIn der lo hi) _ _
            (extract-IsIdentified e _ l same.1 (record {
              issuer_der = identity.0;
              serial_number = identity.1;
              has_digest_algorithm = some_oid;
              after = omega (arith, l.after, l.inside.header);
              before = omega (arith, l.inside.content, same.1);
              signed_attrs_content = same.0 ∙ ap (λ n. slice der e.content_offset n) (sym same.1);
              message_digest = tt;
            }))
            (λ s identified. signature_fields-IsSignerIn e.content_offset s es h identified))

  signer_fields-IsSignerIn :
      (es : List Element) → LiesAll es → Within (IsSignerIn der lo hi) (signer_fields der es)
  unfolding signer_fields
  signer_fields-IsSignerIn es h =
      and_then-Within R (IsSignerIn der lo hi) _ _ (next-Lies der lo hi fits integer_tag es h)
        (λ v a.
          and_then-Within R (IsSignerIn der lo hi) _ _
            (next-Lies der lo hi fits sequence_tag v.1 a.1)
            (λ sid b.
              and_then-Within LiesAll (IsSignerIn der lo hi) _ _
                (children-Lies der lo hi fits sid.0 b.0)
                (λ iasn c.
                  and_then-Within (Identity der lo hi fits) (IsSignerIn der lo hi) _ _
                    (issuer_and_serial-Identity der lo hi fits iasn c)
                    (λ identity d.
                      and_then-Within (λ r. NonEmpty r.0 × LiesAll r.1) (IsSignerIn der lo hi) _ _
                        (next_algorithm-Lies der lo hi fits sid.1 b.1)
                        (λ oid f.
                          and_then-Within R (IsSignerIn der lo hi) _ _
                            (next_context-Lies der lo hi fits 0 oid.1 f.1)
                            (λ attrs g.
                              attributes-IsSignerIn identity.0 identity.1 oid.0 attrs.0 attrs.1 d
                                f.0 g.0 g.1))))))
    where
      R : Element × List Element → Type 0
      R = λ r. Lies lo hi r.0 × LiesAll r.1

  pub parse_signer_info-IsSignerIn :
      (e : Element) → Lies lo hi e → Within (IsSignerIn der lo hi) (parse_signer_info der e)
  unfolding parse_signer_info
  parse_signer_info-IsSignerIn e l =
      and_then-Within LiesAll (IsSignerIn der lo hi) _ _ (children-Lies der lo hi fits e l)
        signer_fields-IsSignerIn

  certificates_of-IsCertificateIn :
      (es : List Element)
      → LiesAll es
      → Within (All (IsCertificateIn der lo hi)) (certificates_of der es)
  unfolding certificates_of
  certificates_of-IsCertificateIn [] h = tt
  certificates_of-IsCertificateIn (e ∷ es) (l, h) =
      if_cases (Within (All (IsCertificateIn der lo hi))) (not (is_universal sequence_tag e))
        {x = certificates_of der es} (λ _. certificates_of-IsCertificateIn es h)
        (λ _.
          and_then-Within (IsSlice der lo hi) (All (IsCertificateIn der lo hi)) _ _
            (raw_bytes-IsSlice der lo hi e fits l)
            (λ part s.
              and_then-Within (IsReadFrom part) (All (IsCertificateIn der lo hi)) _ _
                (parse-IsReadFrom part)
                (λ cert r.
                  and_then-Within (All (IsCertificateIn der lo hi))
                    (All (IsCertificateIn der lo hi)) _ _ (certificates_of-IsCertificateIn es h)
                    (λ certs rest. (
                      (
                        subst (IsSlice der lo hi) (sym r.raw) s,
                        subst (λ b. IsReadFrom b cert) (sym r.raw) r,
                      ),
                      rest,
                    )))))

  pub parse_certificates_set-IsCertificateIn :
      (e : Element)
      → Lies lo hi e
      → Within (All (IsCertificateIn der lo hi)) (parse_certificates_set der e)
  unfolding parse_certificates_set
  parse_certificates_set-IsCertificateIn e l =
      and_then-Within LiesAll (All (IsCertificateIn der lo hi)) _ _
        (children-Lies der lo hi fits e l) certificates_of-IsCertificateIn
