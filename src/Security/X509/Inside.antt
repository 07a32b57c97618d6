-- ===== src/Security/X509/Inside.antt =====
-- What the parser of certificates returns lies in the buffer, the signed fields in the part that the
-- signature covers.
use gcad.Security.Reading.{and_then, slice}
use gcad.Security.Reading.Safe.{Within, and_then-Within, Within-mono, guard-Within}
use gcad.Base.{ℕ, ◌+◌, ◌≤◌, ◌≡◌, sym, ap, subst, ◌∙◌, List, [], ◌∷◌, arith, length, All, false}
use gcad.Base.Bytes.{Bytes, is_empty}
use gcad.Hash.Sha256
use gcad.Security.Asn1.{Element, is_universal}
use gcad.Security.Asn1.Bounds.{IsInside, parse_element-Within}
use gcad.Security.Asn1.Integers.{raw_bytes_lem}
use gcad.Security.X509.{X509Certificate, children, sequence_tag}
use gcad.Security.X509.Parse.{tbs_fields, certificate_parts, parse, empty_certificate}
use gcad.Security.X509.Regions.{Lies, IsSlice, read_byte_aligned_bit_string-IsSlice}
use gcad.Security.X509.Parts.{NonEmpty, algorithm_oid-NonEmpty, children-Lies}
use gcad.Security.X509.Fields.{HasFields, Filled, tbs_fields-Filled}

-- A certificate read from `der`: its signed part is one region of `der`, and the fields stand in it.
pub record IsReadFrom (der : Bytes) (cert : X509Certificate) : Type 0 where
  pub raw : cert.raw ≡ der
  pub thumbprint : cert.sha256_thumbprint ≡ Sha256.hash_bytes der
  pub start : ℕ
  pub inside : start + length cert.tbs_certificate ≤ length der
  pub tbs_certificate : cert.tbs_certificate ≡ slice der start (length cert.tbs_certificate)
  pub signature_value : IsSlice der 0 (length der) cert.signature_value
  pub has_signature_algorithm : is_empty cert.signature_algorithm_oid ≡ false
  pub fields : HasFields der start (start + length cert.tbs_certificate) cert

signed_part :
    (der : Bytes) (tbs : Element) (l : Lies 0 (length der) tbs)
    → (signed : Bytes) → signed ≡ slice der l.offset tbs.total_length
    → (oid : Bytes) → NonEmpty oid
    → (signature : Bytes) → IsSlice der 0 (length der) signature
    → Within (IsReadFrom der) (
        and_then (children der tbs) (
          tbs_fields der (record empty_certificate {
            raw = der;
            tbs_certificate = signed;
            sha256_thumbprint = Sha256.hash_bytes der;
            signature_algorithm_oid = oid;
            signature_value = signature;
          })))
signed_part der tbs l signed is_signed oid some_oid signature s =
    and_then-Within (All (Lies l.offset hi)) (IsReadFrom der) _ _
      (children-Lies der l.offset hi fits tbs (record {
        offset = l.offset;
        after = omega arith;
        inside = record {
          header = l.inside.header;
          content = omega (arith, whole, l.inside.total);
          total = l.inside.total;
        };
      }))
      (λ es all.
        Within-mono (Filled der l.offset hi fits cert) (IsReadFrom der)
          (λ r f. record {
            raw = f.1;
            thumbprint = f.5;
            start = l.offset;
            inside = subst (λ b. l.offset + length b ≤ length der) (sym f.2) fits;
            tbs_certificate = subst (λ b. b ≡ slice der l.offset (length b)) (sym f.2) same;
            signature_value = subst (IsSlice der 0 (length der)) (sym f.4) s;
            has_signature_algorithm = ap is_empty f.3 ∙ some_oid;
            fields = subst (λ b. HasFields der l.offset (l.offset + length b) r) (sym f.2) f.0;
          })
          (tbs_fields der cert es) (tbs_fields-Filled der l.offset hi fits cert es all))
  where
    whole : length signed ≡ tbs.total_length
    whole =
        ap length is_signed ∙ (raw_bytes_lem der (length der) l.offset tbs (omega arith) l.inside).1

    same : signed ≡ slice der l.offset (length signed)
    same = is_signed ∙ ap (λ n. slice der l.offset n) (sym whole)

    hi : ℕ
    hi = l.offset + length signed

    fits : hi ≤ length der
    fits = omega (arith, whole, l.inside.content, l.inside.total)

    cert : X509Certificate
    cert = record empty_certificate {
      raw = der;
      tbs_certificate = signed;
      sha256_thumbprint = Sha256.hash_bytes der;
      signature_algorithm_oid = oid;
      signature_value = signature;
    }

parts-IsReadFrom :
    (der : Bytes) (es : List Element)
    → All (Lies 0 (length der)) es
    → Within (IsReadFrom der) (certificate_parts der es)
unfolding certificate_parts
parts-IsReadFrom der [] h = tt
parts-IsReadFrom der (a ∷ []) h = tt
parts-IsReadFrom der (a ∷ (b ∷ [])) h = tt
parts-IsReadFrom der (a ∷ (b ∷ (c ∷ (d ∷ es)))) h = tt
parts-IsReadFrom der (tbs ∷ (sig_alg ∷ (sig_val ∷ []))) (h, (k, (m, _))) =
    guard-Within (IsReadFrom der) (is_universal sequence_tag tbs) _ (λ _.
      guard-Within (IsReadFrom der) (is_universal sequence_tag sig_alg) _ (λ _.
        and_then-Within IsWhole (IsReadFrom der) _ _
          (subst (Within IsWhole)
            (sym (raw_bytes_lem der (length der) h.offset tbs (omega arith) h.inside).0)
            (λ _. slice der h.offset tbs.total_length))
          (λ signed is_signed.
            and_then-Within (All (Lies 0 (length der))) (IsReadFrom der) _ _
              (children-Lies der 0 (length der) (omega arith) sig_alg k)
              (λ sig_alg_children all.
                and_then-Within NonEmpty (IsReadFrom der) _ _
                  (algorithm_oid-NonEmpty der 0 (length der) (omega arith) sig_alg_children all)
                  (λ oid some_oid.
                    and_then-Within (IsSlice der 0 (length der)) (IsReadFrom der) _ _
                      (read_byte_aligned_bit_string-IsSlice der 0 (length der) sig_val (omega arith)
                        m)
                      (λ signature s.
                        signed_part der tbs h signed is_signed oid some_oid signature s))))))
  where
    IsWhole : Bytes → Type 0
    IsWhole b = b ≡ slice der h.offset tbs.total_length

-- On any bytes `parse` reads nothing outside them. A certificate that it returns has the bytes as `raw`
-- and their SHA-256 as thumbprint; its signed part and its signature are regions of the bytes; and the
-- serial number, both names, the times and the RSA key are regions of the signed part, of which the serial
-- number, the times and both algorithms are not empty.
pub parse-IsReadFrom : (der : Bytes) → Within (IsReadFrom der) (parse der)
unfolding parse
parse-IsReadFrom der =
    and_then-Within (IsInside (length der) 0) (IsReadFrom der) _ _
      (parse_element-Within der (length der) (omega arith) 0)
      (λ cert_seq inside. guard-Within (IsReadFrom der) (is_universal sequence_tag cert_seq) _ (λ _.
        and_then-Within (All (Lies 0 (length der))) (IsReadFrom der) _ _
          (children-Lies der 0 (length der) (omega arith) cert_seq
            (record { offset = 0; after = omega arith; inside = inside }))
          (parts-IsReadFrom der)))
