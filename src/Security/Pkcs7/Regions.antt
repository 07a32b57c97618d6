-- ===== src/Security/Pkcs7/Regions.antt =====
-- The fields of a signer lie in the region of its element, its attributes in the signed region.
use gcad.Base.{
  ℕ, ◌≤◌, ◌≡◌, refl, List, [], ◌∷◌, Option, some, arith, length, if_cases, All, not, ◌&&◌, ◌||◌,
  ◌==◌,
}
use gcad.Base.Bytes.{Bytes, eqb, is_empty}
use gcad.Security.Reading.{slice, parsed}
use gcad.Security.Reading.Safe.{Within, and_then-Within, guard-Within, copy_inside}
use gcad.Security.Asn1.{Element, is_universal, integer_tag, object_identifier_tag}
use gcad.Security.X509.{content, sequence_tag, set_tag}
use gcad.Security.X509.Regions.{
  Lies, IsSlice, copy-IsSlice, length-slice, raw_bytes-IsSlice, read_unsigned_integer-IsSlice,
  oid_to_string-NoFault,
}
use gcad.Security.X509.Parts.{NonEmpty, Lies-Fits, algorithm_oid-NonEmpty, next-Lies, children-Lies}
use gcad.Security.Pkcs7.{
  SignerInfo, is_context, octet_string_tag, content_type_attr_oid, message_digest_attr_oid,
  attribute_value, attribute_fields, signed_attribute, signed_attributes,
}
use gcad.Security.Pkcs7.Signer.{issuer_and_serial, next_context, next_algorithm}

module _ (der : Bytes) (lo hi : ℕ) (fits : hi ≤ length der) where
  -- The content of an element in the region.
  pub content-IsSlice : (e : Element) → Lies lo hi e → Within (IsSlice der lo hi) (content der e)
  unfolding content
  content-IsSlice e l =
      copy-IsSlice der lo hi e.content_offset e.content_length
        (omega (arith, l.after, l.inside.header)) l.inside.content fits

  -- The content as the slice of the buffer that it is.
  pub content_slice :
      (e : Element)
      → Lies lo hi e
      → Within
          (λ b. (b ≡ slice der e.content_offset e.content_length) × (length b ≡ e.content_length))
          (content der e)
  unfolding content
  content_slice e l =
      rw (copy_inside der e.content_offset e.content_length (omega (arith, l.inside.content, fits)))
        (
          refl,
          length-slice der e.content_offset e.content_length
              (omega (arith, l.inside.content, fits)),
        )

  pub next_context-Lies :
      (tag : ℕ) (es : List Element)
      → All (Lies lo hi) es
      → Within (λ r. Lies lo hi r.0 × All (Lies lo hi) r.1) (next_context tag es)
  unfolding next_context
  next_context-Lies tag [] h = tt
  next_context-Lies tag (e ∷ es) h =
      if_cases (Within (λ r. Lies lo hi r.0 × All (Lies lo hi) r.1)) (is_context tag e) (λ _. h)
        (λ _. tt)

  pub next_algorithm-Lies :
      (es : List Element)
      → All (Lies lo hi) es
      → Within (λ r. NonEmpty r.0 × All (Lies lo hi) r.1) (next_algorithm der es)
  unfolding next_algorithm
  next_algorithm-Lies es h =
      and_then-Within (λ r. Lies lo hi r.0 × All (Lies lo hi) r.1) Q _ _
        (next-Lies der lo hi fits sequence_tag es h)
        (λ r k.
          and_then-Within (All (Lies lo hi)) Q _ _ (children-Lies der lo hi fits r.0 k.0)
            (λ parts all.
              and_then-Within NonEmpty Q _ _ (algorithm_oid-NonEmpty der lo hi fits parts all)
                (λ oid filled_oid. (filled_oid, k.1))))
    where
      Q : Bytes × List Element → Type 0
      Q = λ r. NonEmpty r.0 × All (Lies lo hi) r.1

  abbrev pub Identity : Bytes × Bytes → Type 0
  Identity r = (IsSlice der lo hi r.0 × NonEmpty r.0) × (IsSlice der lo hi r.1 × NonEmpty r.1)

  pub issuer_and_serial-Identity :
      (es : List Element) → All (Lies lo hi) es → Within Identity (issuer_and_serial der es)
  unfolding issuer_and_serial
  issuer_and_serial-Identity [] h = tt
  issuer_and_serial-Identity (a ∷ []) h = tt
  issuer_and_serial-Identity (a ∷ (b ∷ (c ∷ es))) h = tt
  issuer_and_serial-Identity (a ∷ (b ∷ [])) (h, (k, _)) =
      guard-Within Identity (is_universal sequence_tag a && is_universal integer_tag b) _ (λ _.
        and_then-Within (IsSlice der lo hi) Identity _ _ (raw_bytes-IsSlice der lo hi a fits h)
          (λ issuer i.
            and_then-Within (IsSlice der lo hi) Identity _ _
              (read_unsigned_integer-IsSlice der lo hi b fits k)
              (λ serial s.
                guard-Within Identity (not (is_empty issuer) && not (is_empty serial)) _
                  (λ both. ((i, ground (arith, both)), (s, ground (arith, both)))))))

-- What a signer's attributes may set keeps P; a digest stands between `lo` and `hi`.
module _ (der : Bytes) (lo hi : ℕ) (fits : hi ≤ length der) (P : SignerInfo → Type 0)
    (keeps_type : (s : SignerInfo) (t : Option Bytes)
      → P s
      → P (record s { content_type_attr = t }))
    (keeps_digest : (s : SignerInfo) (d : Bytes)
      → IsSlice der lo hi d
      → P s
      → P (record s { message_digest = some d })) where
  attribute_value-Within :
      (oid : Bytes) (s : SignerInfo) (es : List Element)
      → All (Lies lo hi) es
      → P s
      → Within P (attribute_value der oid s es)
  unfolding attribute_value
  attribute_value-Within oid s [] h p = p
  attribute_value-Within oid s (value ∷ es) (h, _) p =
      if_cases (Within P)
        (eqb oid content_type_attr_oid && is_universal object_identifier_tag value)
        (λ _.
          and_then-Within (λ _. Unit) P _ _
            (oid_to_string-NoFault der value (Lies-Fits der lo hi fits value h))
            (λ type _. keeps_type s (some type) p))
        (λ _.
          if_cases (Within P)
            (eqb oid message_digest_attr_oid && is_universal octet_string_tag value)
            (λ _.
              and_then-Within (IsSlice der lo hi) P _ _ (content-IsSlice der lo hi fits value h)
                (λ d i. keeps_digest s d i p))
            (λ _. p))

  attribute_fields-Within :
      (s : SignerInfo) (es : List Element)
      → All (Lies lo hi) es
      → P s
      → Within P (attribute_fields der s es)
  unfolding attribute_fields
  attribute_fields-Within s [] h p = p
  attribute_fields-Within s (a ∷ []) h p = p
  attribute_fields-Within s (a ∷ (b ∷ (c ∷ es))) h p = p
  attribute_fields-Within s (a ∷ (b ∷ [])) (g, (h, _)) p =
      if_cases (Within P)
        (not (is_universal object_identifier_tag a)
          || (not (is_universal set_tag b) || (b.content_length == 0)))
        {x = parsed s} (λ _. p)
        (λ _.
          and_then-Within (λ _. Unit) P _ _
            (oid_to_string-NoFault der a (Lies-Fits der lo hi fits a g))
            (λ oid _.
              and_then-Within (All (Lies lo hi)) P _ _ (children-Lies der lo hi fits b h)
                (λ values k. attribute_value-Within oid s values k p)))

  pub signed_attributes-Within :
      (s : SignerInfo) (es : List Element)
      → All (Lies lo hi) es
      → P s
      → Within P (signed_attributes der s es)
  unfolding signed_attributes signed_attribute
  signed_attributes-Within s [] h p = p
  signed_attributes-Within s (e ∷ es) (h, rest) p =
      and_then-Within P P _ _
        (if_cases (Within P) (not (is_universal sequence_tag e)) {x = parsed s} (λ _. p)
          (λ _.
            and_then-Within (All (Lies lo hi)) P _ _ (children-Lies der lo hi fits e h)
              (λ fields k. attribute_fields-Within s fields k p)))
        (λ t q. signed_attributes-Within t es rest q)
