-- ===== src/Security/X509/Parts.antt =====
-- The steps of the parser of certificates on the elements of a region of the buffer.
use gcad.Security.Reading.{Parsed, fault, rejected, parsed}
use gcad.Security.Reading.Safe.{Within, and_then-Within, Within-mono, guard-Within}
use gcad.Base.{
  ℕ, ◌≤◌, ◌≡◌, refl, List, [], ◌∷◌, Option, some, none, arith, length, if_cases, not, ◌&&◌, All,
  false,
}
use gcad.Base.Bytes.{Bytes, is_empty}
use gcad.Security.Asn1.{Element, is_universal, object_identifier_tag, integer_tag, parse_element}
use gcad.Security.Asn1.Bounds.{IsInside, parse_element-Within}
use gcad.Security.Rsa.{RsaPublicKey}
use gcad.Security.X509.{
  filled, children, content, extract_time_string, next, algorithm_oid, skip_version, sequence_tag,
  is_version, utc_time_tag, generalized_time_tag,
}
use gcad.Security.X509.Parse.{validity_of, rsa_fields_of, rsa_sequence, rsa_key}
use gcad.Security.X509.Regions.{
  Lies, IsSlice, Fits, Child, children-Child, copy-IsSlice, read_unsigned_integer-IsSlice,
  IsSlice-trans, empty-IsSlice, oid_to_string-NoFault,
}

-- A key whose two numbers stand between `lo` and `hi`.
abbrev pub KeyIsSlice : Bytes → ℕ → ℕ → Option RsaPublicKey → Type 0
KeyIsSlice der lo hi none = Unit
KeyIsSlice der lo hi (some key) = IsSlice der lo hi key.modulus × IsSlice der lo hi key.exponent

abbrev pub NonEmpty : Bytes → Type 0
NonEmpty bytes = is_empty bytes ≡ false

pub filled-NonEmpty :
    (P : Bytes → Type 0) (bytes : Bytes) → P bytes → Within (λ b. P b × NonEmpty b) (filled bytes)
filled-NonEmpty P [] h = tt
filled-NonEmpty P (b ∷ bytes) h = (h, refl)

module _ (der : Bytes) (lo hi : ℕ) (fits : hi ≤ length der) where
  pub Lies-Fits : (e : Element) → Lies lo hi e → Fits der e
  Lies-Fits e l = omega (arith, l.inside.content, fits)

  pub algorithm_oid-NonEmpty :
      (es : List Element) → All (Lies lo hi) es → Within NonEmpty (algorithm_oid der es)
  unfolding algorithm_oid
  algorithm_oid-NonEmpty [] h = tt
  algorithm_oid-NonEmpty (e ∷ es) h =
      guard-Within NonEmpty (is_universal object_identifier_tag e) _ (λ _.
        and_then-Within (λ _. Unit) NonEmpty _ _ (oid_to_string-NoFault der e (Lies-Fits e h.0))
          (λ oid _.
            Within-mono (λ b. Unit × NonEmpty b) NonEmpty (λ b h. h.1) (filled oid)
              (filled-NonEmpty (λ _. Unit) oid tt)))

  -- `next` gives one of the children, and the rest of them.
  pub next-Lies :
      (tag : ℕ) (es : List Element)
      → All (Lies lo hi) es
      → Within (λ r. Lies lo hi r.0 × All (Lies lo hi) r.1) (next tag es)
  unfolding next
  next-Lies tag [] h = tt
  next-Lies tag (e ∷ es) h =
      if_cases (Within (λ r. Lies lo hi r.0 × All (Lies lo hi) r.1)) (is_universal tag e) (λ _. h)
        (λ _. tt)

  pub skip_version-Lies :
      (es : List Element) → All (Lies lo hi) es → All (Lies lo hi) (skip_version es)
  unfolding skip_version
  skip_version-Lies [] h = tt
  skip_version-Lies (e ∷ es) h =
      if_cases (All (Lies lo hi)) (is_version e) {x = es} {y = e ∷ es} (λ _. h.1) (λ _. h)

  -- The children of an element in the region are in the region.
  pub children-Lies : (e : Element) → Lies lo hi e → Within (All (Lies lo hi)) (children der e)
  children-Lies e l =
      Within-mono (All (Child e)) (All (Lies lo hi)) (λ es. widen es) (children der e)
        (children-Child der e (Lies-Fits e l))
    where
      widen : (es : List Element) → All (Child e) es → All (Lies lo hi) es
      widen [] h = tt
      widen (c ∷ es) (h, rest) = (
        record {
          offset = h.offset;
          after = omega (arith, h.after, l.inside.header, l.after);
          inside = record {
            header = h.inside.header;
            content = omega (arith, h.inside.content, l.inside.content);
            total = h.inside.total;
          };
        },
        widen es rest,
      )

  extract_time_string-IsSlice :
      (e : Element) → Lies lo hi e → Within (IsSlice der lo hi) (extract_time_string der e)
  unfolding extract_time_string content
  extract_time_string-IsSlice e l =
      if_cases (Within (IsSlice der lo hi))
        (not (is_universal utc_time_tag e) && not (is_universal generalized_time_tag e))
        {x = parsed []}
        (λ _. empty-IsSlice der lo hi (omega (arith, l.after, l.inside.header, l.inside.content)))
        (λ _.
          copy-IsSlice der lo hi e.content_offset e.content_length
            (omega (arith, l.after, l.inside.header)) l.inside.content fits)

  abbrev pub Times : Bytes × Bytes → Type 0
  Times r = (IsSlice der lo hi r.0 × IsSlice der lo hi r.1) × (NonEmpty r.0 × NonEmpty r.1)

  pub validity_of-Times :
      (es : List Element) → All (Lies lo hi) es → Within Times (validity_of der es)
  unfolding validity_of
  validity_of-Times [] h = tt
  validity_of-Times (a ∷ []) h = tt
  validity_of-Times (a ∷ (b ∷ (c ∷ es))) h = tt
  validity_of-Times (a ∷ (b ∷ [])) (h, (k, _)) =
      and_then-Within (IsSlice der lo hi) Times _ _ (extract_time_string-IsSlice a h) (λ before s.
        and_then-Within (IsSlice der lo hi) Times _ _ (extract_time_string-IsSlice b k) (λ after t.
          guard-Within Times (not (is_empty before) && not (is_empty after)) _
            (λ both. ((s, t), ground (arith, both)))))

rsa_fields_of-KeyIsSlice :
    (key : Bytes) (es : List Element)
    → All (Lies 0 (length key)) es
    → Within (KeyIsSlice key 0 (length key)) (rsa_fields_of key es)
unfolding rsa_fields_of
rsa_fields_of-KeyIsSlice key [] h = tt
rsa_fields_of-KeyIsSlice key (a ∷ []) h = tt
rsa_fields_of-KeyIsSlice key (a ∷ (b ∷ (c ∷ es))) h = tt
rsa_fields_of-KeyIsSlice key (n ∷ (e ∷ [])) (h, (k, _)) =
    if_cases (Within IsPair) (not (is_universal integer_tag n && is_universal integer_tag e))
      {x = parsed none} (λ _. tt)
      (λ _.
        and_then-Within (IsSlice key 0 (length key)) IsPair _ _
          (read_unsigned_integer-IsSlice key 0 (length key) n (omega arith) h)
          (λ modulus s.
            and_then-Within (IsSlice key 0 (length key)) IsPair _ _
              (read_unsigned_integer-IsSlice key 0 (length key) e (omega arith) k)
              (λ exponent t.
                if_cases IsPair (not (is_empty modulus) && not (is_empty exponent)) {y = none}
                  (λ _. (s, t)) (λ _. tt))))
  where
    IsPair : Option RsaPublicKey → Type 0
    IsPair = KeyIsSlice key 0 (length key)

-- A key parsed on its own.
pub rsa_key-KeyIsSlice : (key : Bytes) → Within (KeyIsSlice key 0 (length key)) (rsa_key key)
unfolding rsa_key rsa_sequence
rsa_key-KeyIsSlice key =
    go (parse_element (some key) (length key) 0)
      (parse_element-Within key (length key) (omega arith) 0)
  where
    go :
        (r : Parsed Element)
        → Within (IsInside (length key) 0) r
        → Within
            (KeyIsSlice key 0 (length key))
            (elim r [ fault ↦ fault | rejected ↦ parsed none | parsed e ↦ rsa_sequence key e ])
    go fault h = h
    go rejected h = tt
    go (parsed e) h =
        if_cases (Within (KeyIsSlice key 0 (length key))) (is_universal sequence_tag e)
          (λ _.
            and_then-Within (All (Lies 0 (length key))) (KeyIsSlice key 0 (length key)) _ _
              (children-Lies key 0 (length key) (omega arith) e
                (record { offset = 0; after = omega arith; inside = h }))
              (rsa_fields_of-KeyIsSlice key))
          (λ _. tt)

pub KeyIsSlice-trans :
    (der part : Bytes) (lo hi : ℕ) (key : Option RsaPublicKey)
    → IsSlice der lo hi part
    → KeyIsSlice part 0 (length part) key
    → KeyIsSlice der lo hi key
KeyIsSlice-trans der part lo hi none s h = tt
KeyIsSlice-trans der part lo hi (some key) s h = (
  IsSlice-trans der part key.modulus lo hi 0 (length part) s (omega arith) h.0,
  IsSlice-trans der part key.exponent lo hi 0 (length part) s (omega arith) h.1,
)
