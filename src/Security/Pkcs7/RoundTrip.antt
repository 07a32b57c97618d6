-- ===== src/Security/Pkcs7/RoundTrip.antt =====
-- The reader of src/security/asn1.cpp reads back what `der_encode_set` writes.
use gcad.Base.{
  ℕ, ◌+◌, ◌/◌, ◌%◌, ◌^◌, ◌<◌, ◌≤◌, ◌≡◌, refl, ap, subst, ◌∙◌, true, false, [], ◌∷◌, ◌++◌, some,
  arith, length, length-append, if_cases, ltb, leb, ◌==◌,
}
use gcad.Base.Bytes.{Bytes}
use gcad.Security.Reading.{parsed, and_then, read, slice}
use gcad.Security.Asn1.{
  Element, TagClass, parse_element, content_length_at, length_form, length_bytes, element_of,
}
use gcad.Security.X509.{set_tag}
use gcad.Security.Pkcs7.Encode.{length_octets, set_header, der_encode_set}
use gcad.Security.Pkcs7.Lengths.{
  big_endian, length_bytes-big_endian, big_endian-length_octets, length-length_octets, short_length,
  long_length,
}
use Prim.Native.Nat.{bit_or}

-- The element that stands at the start: `header` bytes, then the content.
abbrev pub set_element : ℕ → ℕ → Element
set_element header n = record {
  tag_class = TagClass.universal;
  constructed = true;
  tag_number = set_tag;
  content_offset = header;
  content_length = n;
  total_length = header + n;
}

slice_behind :
    (pre content : Bytes) → slice (pre ++ content) (length pre) (length content) ≡ content
slice_behind [] [] = refl
slice_behind [] (b ∷ content) = ap (λ r. b ∷ r) (slice_behind [] content)
slice_behind (p ∷ pre) content = slice_behind pre content

element_of_set :
    (size header n : ℕ)
    → header + n ≡ size
    → element_of size 0 0x31 17 (n, header) ≡ parsed (set_element header n)
unfolding element_of
element_of_set size header n h = ground (arith, h)

-- The reader on the tag of a SET, where the length is read as `l`.
parse_set :
    (rest : Bytes) (size : ℕ) (l : ℕ × ℕ)
    → 0 < size
    → content_length_at (0x31 ∷ rest) size 1 ≡ parsed l
    → parse_element (some (0x31 ∷ rest)) size 0 ≡ element_of size 0 0x31 17 l
unfolding parse_element gcad.Security.Asn1.tag_number read
parse_set rest size l h k =
    if_cases (λ r. r ≡ element_of size 0 0x31 17 l) (leb size 0)
      (λ t. absurd (ground (arith, t, h))) (λ _. ap (λ r. and_then r (element_of size 0 0x31 17)) k)

length_at :
    (tag b : ℕ) (rest : Bytes) (size : ℕ)
    → 1 < size
    → content_length_at (tag ∷ (b ∷ rest)) size 1 ≡ length_form (tag ∷ (b ∷ rest)) size 2 b
unfolding content_length_at read
length_at tag b rest size h =
    if_cases (λ r. r ≡ length_form (tag ∷ (b ∷ rest)) size 2 b) (leb size 1)
      (λ t. absurd (ground (arith, t, h))) (λ _. refl)

-- The two forms of a length.
short_form : (buf : Bytes) (size b : ℕ) → b < 0x80 → length_form buf size 2 b ≡ parsed (b, 2)
unfolding length_form
short_form buf size b h = rw (short_length b h) refl

long_form :
    (buf : Bytes) (size n : ℕ)
    → 0 < n
    → n < 9
    → 2 + n ≤ size
    → length_form buf size 2 (bit_or 0x80 n) ≡ length_bytes buf n 2 0
unfolding length_form
long_form buf size n some_octets few enough =
    rw ((long_length n few).0, (long_length n few).1, nonzero, not_more, fits) refl
  where
    nonzero : (n == 0) ≡ false
    nonzero = ground arith

    not_more : ltb 8 n ≡ false
    not_more = ground arith

    fits : ltb size (2 + n) ≡ false
    fits = ground arith

module _ (content : Bytes) (bounded : length content < 2 ^ 64) where
  -- A header before the content is read back.
  abbrev IsHeader : Bytes → Type 0
  IsHeader header =
      parse_element (some (header ++ content)) (length header + length content) 0
      ≡ parsed (set_element (length header) (length content))

  short-IsHeader : length content < 0x80 → IsHeader (0x31 ∷ (length content ∷ []))
  short-IsHeader h =
      parse_set (length content ∷ content) (2 + length content) (length content, 2) (omega arith)
        (length_at 0x31 (length content) content (2 + length content) (omega arith)
          ∙ short_form (0x31 ∷ (length content ∷ content)) (2 + length content) (length content) h)
      ∙ element_of_set (2 + length content) 2 (length content) refl

  long-IsHeader :
      (octets : Bytes)
      → big_endian 0 octets ≡ length content
      → 0 < length octets
      → length octets < 9
      → IsHeader (0x31 ∷ (bit_or 0x80 (length octets) ∷ octets))
  long-IsHeader octets same some_octets few =
      subst
        (λ n.
          parse_element (some (0x31 ∷ (count ∷ (octets ++ content)))) (n + length content) 0
          ≡ parsed (set_element n (length content)))
        {x = 2 + length octets} (omega arith)
        (parse_set (count ∷ (octets ++ content)) size (length content, 2 + length octets)
            (omega arith)
            (length_at 0x31 count (octets ++ content) size (omega arith)
              ∙ long_form (0x31 ∷ (count ∷ (octets ++ content))) size (length octets) some_octets
                  few (omega arith)
              ∙ length_bytes-big_endian (0x31 ∷ (count ∷ [])) octets content 0
              ∙ ap (λ n. parsed (n, 2 + length octets)) same)
          ∙ element_of_set size (2 + length octets) (length content) refl)
    where
      count : ℕ
      count = bit_or 0x80 (length octets)

      size : ℕ
      size = 2 + length octets + length content

  some_octet : 0x80 ≤ length content → 0 < length (length_octets 8 (length content) [])
  unfolding length_octets
  some_octet h =
      if_cases (λ r. 0 < length r) (length content == 0) {x = []}
        (λ e. absurd (ground (arith, e, h)))
        (λ _. omega (
          arith,
          (length-length_octets 7 (length content / 2 ^ 8) (length content % 2 ^ 8 ∷ [])).0,
        ))

  set_header-IsHeader : IsHeader (set_header (length content))
  unfolding set_header
  set_header-IsHeader =
      if_cases IsHeader (ltb (length content) 0x80) (λ h. short-IsHeader (ground (arith, h)))
        (λ h.
          long-IsHeader (length_octets 8 (length content) [])
            (big_endian-length_octets 8 (length content) [] (omega (arith, bounded)) bounded)
            (some_octet (ground (arith, h)))
            (omega (arith, (length-length_octets 8 (length content) []).1)))

  -- `der_encode_set` writes bytes that `parse_element` reads as one whole element, a universal,
  -- constructed SET, whose content is the content given, where its size is below 2 ^ 64.
  pub parse_element-der_encode_set :
      (parse_element (some (der_encode_set content)) (length (der_encode_set content)) 0
        ≡ parsed (set_element (length (set_header (length content))) (length content)))
      × (slice (der_encode_set content) (length (set_header (length content))) (length content)
          ≡ content)
  unfolding der_encode_set
  parse_element-der_encode_set = (
    ap (λ n. parse_element (some (set_header (length content) ++ content)) n 0)
          (length-append (set_header (length content)) content)
        ∙ set_header-IsHeader,
    slice_behind (set_header (length content)) content,
  )
