-- ===== src/Security/X509/Fields.antt =====
-- The fields of a TBSCertificate lie in its region.
use gcad.Security.Reading.{Parsed, parsed, and_then}
use gcad.Security.Reading.Safe.{Within, and_then-Within, guard-Within}
use gcad.Base.{
  ℕ, ◌≤◌, ◌≡◌, refl, List, [], ◌∷◌, Option, some, none, length, if_cases, All, false, if◌then◌else◌,
}
use gcad.Base.Bytes.{Bytes, eqb, is_empty}
use gcad.Security.Asn1.{Element, is_universal, integer_tag, raw_bytes, read_unsigned_integer}
use gcad.Security.Rsa.{RsaPublicKey}
use gcad.Security.X509.{
  X509Certificate, filled, extract_common_name, next, skip_version, sequence_tag,
  rsa_encryption_oid,
}
use gcad.Security.X509.Parse.{rsa_key, public_key, tbs_fields}
use gcad.Security.X509.Regions.{
  Lies, IsSlice, raw_bytes-IsSlice, read_unsigned_integer-IsSlice,
  read_byte_aligned_bit_string-IsSlice,
}
use gcad.Security.X509.Names.{extract_common_name-NoFault}
use gcad.Security.X509.Parts.{
  KeyIsSlice, NonEmpty, filled-NonEmpty, algorithm_oid-NonEmpty, Lies-Fits, next-Lies,
  skip_version-Lies, children-Lies, Times, validity_of-Times, rsa_key-KeyIsSlice, KeyIsSlice-trans,
}

-- The fields of the TBSCertificate stand between `lo` and `hi`; those that have to be there are filled.
pub record HasFields (der : Bytes) (lo hi : ℕ) (cert : X509Certificate) : Type 0 where
  pub serial_number : IsSlice der lo hi cert.serial_number
  pub issuer_der : IsSlice der lo hi cert.issuer_der
  pub subject_der : IsSlice der lo hi cert.subject_der
  pub not_before : IsSlice der lo hi cert.not_before
  pub not_after : IsSlice der lo hi cert.not_after
  pub rsa_public_key : KeyIsSlice der lo hi cert.rsa_public_key
  pub has_serial : is_empty cert.serial_number ≡ false
  pub has_times : (is_empty cert.not_before ≡ false) × (is_empty cert.not_after ≡ false)
  pub has_algorithm : is_empty cert.public_key_algorithm_oid ≡ false

module _ (der : Bytes) (lo hi : ℕ) (fits : hi ≤ length der) where
  abbrev IsKey : Bytes × Option RsaPublicKey → Type 0
  IsKey r = NonEmpty r.0 × KeyIsSlice der lo hi r.1

  chosen-IsKey :
      (oid key : Bytes)
      → NonEmpty oid
      → IsSlice der lo hi key
      → Within IsKey (
          if eqb oid rsa_encryption_oid
          then and_then (rsa_key key) (λ found. parsed (oid, found))
          else parsed (oid, none))
  chosen-IsKey oid key h s =
      if_cases (Within IsKey) (eqb oid rsa_encryption_oid)
        (λ _.
          and_then-Within (KeyIsSlice key 0 (length key)) IsKey _ _ (rsa_key-KeyIsSlice key)
            (λ found k. (h, KeyIsSlice-trans der key lo hi found s k)))
        (λ _. (h, tt))

  public_key-IsKey : (es : List Element) → All (Lies lo hi) es → Within IsKey (public_key der es)
  unfolding public_key
  public_key-IsKey [] h = tt
  public_key-IsKey (a ∷ []) h = tt
  public_key-IsKey (algorithm ∷ (key_bits ∷ es)) (h, (k, _)) =
      guard-Within IsKey (is_universal sequence_tag algorithm) _ (λ _.
        and_then-Within (All (Lies lo hi)) IsKey _ _ (children-Lies der lo hi fits algorithm h)
          (λ parts all.
            and_then-Within NonEmpty IsKey _ _ (algorithm_oid-NonEmpty der lo hi fits parts all)
              (λ oid filled_oid.
                and_then-Within (IsSlice der lo hi) IsKey _ _
                  (read_byte_aligned_bit_string-IsSlice der lo hi key_bits fits k)
                  (λ key s. chosen-IsKey oid key filled_oid s))))

  -- A step that takes the next child.
  step :
      (Q : X509Certificate → Type 0) (tag : ℕ) (es : List Element)
      (f : Element × List Element → Parsed X509Certificate)
      → All (Lies lo hi) es
      → ((e : Element) (rest : List Element)
          → Lies lo hi e
          → All (Lies lo hi) rest
          → Within Q (f (e, rest)))
      → Within Q (and_then (next tag es) f)
  step Q tag es f h k =
      and_then-Within (λ r. Lies lo hi r.0 × All (Lies lo hi) r.1) Q (next tag es) f
        (next-Lies der lo hi fits tag es h) (λ (e, rest) l. k e rest l.0 l.1)

  -- The fields filled in, and those from outside the TBSCertificate kept.
  abbrev pub Filled : X509Certificate → X509Certificate → Type 0
  Filled cert r =
      HasFields der lo hi r
      × (r.raw ≡ cert.raw)
      × (r.tbs_certificate ≡ cert.tbs_certificate)
      × (r.signature_algorithm_oid ≡ cert.signature_algorithm_oid)
      × (r.signature_value ≡ cert.signature_value)
      × (r.sha256_thumbprint ≡ cert.sha256_thumbprint)

  pub tbs_fields-Filled :
      (cert : X509Certificate) (es : List Element)
      → All (Lies lo hi) es
      → Within (Filled cert) (tbs_fields der cert es)
  unfolding tbs_fields
  tbs_fields-Filled cert es all =
      step (Filled cert) integer_tag (skip_version es) _ (skip_version-Lies der lo hi fits es all)
        (λ serial r1 l1 a1. numbered _ serial l1 (λ serial_number serial_ok.
          step (Filled cert) sequence_tag r1 _ a1 (λ _ r2 _ a2.
            step (Filled cert) sequence_tag r2 _ a2 (λ issuer r3 l3 a3.
              named _ issuer l3 (λ issuer_der issuer_ok issuer_common_name.
                step (Filled cert) sequence_tag r3 _ a3 (λ validity r4 l4 a4.
                  and_then-Within (All (Lies lo hi)) (Filled cert) _ _
                    (children-Lies der lo hi fits validity l4)
                    (λ times all_times.
                      and_then-Within (Times der lo hi fits) (Filled cert) _ _
                        (validity_of-Times der lo hi fits times all_times)
                        (λ (before, after) t.
                          step (Filled cert) sequence_tag r4 _ a4 (λ subject r5 l5 a5.
                            named _ subject l5 (λ subject_der subject_ok subject_common_name.
                              step (Filled cert) sequence_tag r5 _ a5 (λ spki r6 l6 a6.
                                and_then-Within (All (Lies lo hi)) (Filled cert) _ _
                                  (children-Lies der lo hi fits spki l6)
                                  (λ parts all_parts.
                                    and_then-Within IsKey (Filled cert) _ _
                                      (public_key-IsKey parts all_parts)
                                      (λ (oid, key) k. (
                                        record {
                                          serial_number = serial_ok.0;
                                          issuer_der = issuer_ok;
                                          subject_der = subject_ok;
                                          not_before = t.0.0;
                                          not_after = t.0.1;
                                          rsa_public_key = k.1;
                                          has_serial = serial_ok.1;
                                          has_times = t.1;
                                          has_algorithm = k.0;
                                        },
                                        refl,
                                        refl,
                                        refl,
                                        refl,
                                        refl,
                                      ))))))))))))))
    where
      -- The serial number.
      numbered :
          (f : Bytes → Parsed X509Certificate) (e : Element)
          → Lies lo hi e
          → ((n : Bytes) → IsSlice der lo hi n × NonEmpty n → Within (Filled cert) (f n))
          → Within
              (Filled cert)
              (and_then (read_unsigned_integer (some der) e) (λ n. and_then (filled n) f))
      numbered f e l k =
          and_then-Within (IsSlice der lo hi) (Filled cert) _ _
            (read_unsigned_integer-IsSlice der lo hi e fits l)
            (λ n s.
              and_then-Within (λ b. IsSlice der lo hi b × NonEmpty b) (Filled cert) _ _
                (filled-NonEmpty (IsSlice der lo hi) n s) k)

      -- A name, as it stands and as text.
      named :
          (f : Bytes → Bytes → Parsed X509Certificate) (e : Element)
          → Lies lo hi e
          → ((raw : Bytes)
              → IsSlice der lo hi raw
              → (name : Bytes) → Within (Filled cert) (f raw name))
          → Within (Filled cert) (
              and_then
                (raw_bytes (some der) e)
                (λ raw. and_then (extract_common_name der e) (λ name. f raw name)))
      named f e l k =
          and_then-Within (IsSlice der lo hi) (Filled cert) _ _
            (raw_bytes-IsSlice der lo hi e fits l)
            (λ raw s.
              and_then-Within (λ _. Unit) (Filled cert) (extract_common_name der e) (f raw)
                (extract_common_name-NoFault der e (Lies-Fits der lo hi fits e l))
                (λ name _. k raw s name))
