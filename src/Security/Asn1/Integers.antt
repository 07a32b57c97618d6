-- ===== src/Security/Asn1/Integers.antt =====
-- What is read out of an element's bytes.
use gcad.Security.Reading.{slice, parsed, copy, read}
use gcad.Security.Reading.Safe.{copy_inside}
use gcad.Base.{
  ℕ, ◌+◌, ◌-◌, ◌*◌, ◌/◌, ◌≤◌, ◌<◌, ◌≡◌, refl, ap, ◌∙◌, ◌≢◌, ◌↔◌, inl, inr, Bool, Bool-cases, ◌++◌,
  [], ◌∷◌, some, true, false, not, ◌&&◌, ◌==◌, arith, length, if_cases, length-take, length-drop,
  drop, ltb,
}
use gcad.Base.Bytes.{Bytes, to_string}
use gcad.Security.Asn1.{
  Element, raw_bytes, read_unsigned_integer, unsigned_of, is_universal, integer_tag,
  object_identifier_tag, oid_loop, oid_of, first_arcs, oid_to_string,
}
use gcad.Security.Asn1.Bounds.{IsInside}
use Prim.Native.Nat.{bit_and}

-- The number that big-endian bytes stand for, after `acc`.
abbrev pub number_from : ℕ → Bytes → ℕ
number_from acc [] = acc
number_from acc (b ∷ bs) = number_from (acc * 256 + b) bs

unsigned_of_lem : (content : Bytes) → number_from 0 (unsigned_of content) ≡ number_from 0 content
unfolding unsigned_of
unsigned_of_lem [] = refl
unsigned_of_lem (a ∷ []) = refl
unsigned_of_lem (a ∷ (b ∷ rest)) =
    if_cases (λ r. number_from 0 r ≡ number_from 0 (a ∷ (b ∷ rest)))
      ((a == 0) && not (bit_and b 0x80 == 0))
      (λ t. ap (λ n. number_from n rest) (ground (arith, t))) (λ _. refl)

-- The bytes that `read_unsigned_integer` returns for an INTEGER with content in the buffer, whose sign bit is
-- not set, stand for the same number as the content: only a pad byte is taken off.
pub read_unsigned_integer_lem :
    (buf : Bytes) (e : Element) (first : ℕ)
    → is_universal integer_tag e ≡ true
    → 0 < e.content_length
    → e.content_offset + e.content_length ≤ length buf
    → read buf e.content_offset ≡ parsed first
    → (bit_and first 0x80 == 0) ≡ true
    → (bytes : Bytes) × (read_unsigned_integer (some buf) e ≡ parsed bytes)
      × (number_from 0 bytes ≡ number_from 0 (slice buf e.content_offset e.content_length))
unfolding read_unsigned_integer
read_unsigned_integer_lem buf e first integer some_content fits is_first positive = (
  unsigned_of (slice buf e.content_offset e.content_length),
  rw (integer, nonzero, is_first, positive, copy_inside buf e.content_offset e.content_length fits)
      refl,
  unsigned_of_lem (slice buf e.content_offset e.content_length),
)
  where
    nonzero : (e.content_length == 0) ≡ false
    nonzero = ground arith

-- For an element inside the buffer `raw_bytes` is its whole encoding: the bytes from its offset on, as
-- many as its total length.
pub raw_bytes_lem :
    (buf : Bytes) (size offset : ℕ) (e : Element)
    → size ≤ length buf
    → IsInside size offset e
    → (raw_bytes (some buf) e ≡ parsed (slice buf offset e.total_length))
      × (length (slice buf offset e.total_length) ≡ e.total_length)
unfolding raw_bytes
raw_bytes_lem buf size offset e h w = (
  whole,
  omega (
    arith,
    length-take e.total_length (drop offset buf),
    length-drop offset buf,
    w.header,
    w.content,
    w.total,
    h,
  ),
)
  where
    start : e.content_offset - (e.total_length - e.content_length) ≡ offset
    start = omega (arith, w.header, w.total)

    whole : raw_bytes (some buf) e ≡ parsed (slice buf offset e.total_length)
    whole =
        if_cases (λ r. r ≡ parsed (slice buf offset e.total_length))
          (ltb e.total_length e.content_length) (λ t. absurd (ground (arith, t, w.header, w.total)))
          (λ _.
            if_cases (λ r. r ≡ parsed (slice buf offset e.total_length))
              (ltb e.content_offset (e.total_length - e.content_length))
              (λ t. absurd (ground (arith, t, w.header, w.total)))
              (λ _.
                ap (λ n. copy buf n e.total_length) start
                ∙ copy_inside buf offset e.total_length
                    (omega (arith, w.header, w.content, w.total, h))))

-- Whether the last arc lacks its last byte: the bytes end on one with the continuation bit.
abbrev pub is_unfinished : Bool → Bytes → Bool
is_unfinished mid_arc [] = mid_arc
is_unfinished mid_arc (b ∷ bs) = is_unfinished (not (bit_and b 0x80 == 0)) bs

filled : (xs ys : Bytes) (b : ℕ) → xs ++ (b ∷ ys) ≢ []
filled [] ys b = λ e. cc
filled (x ∷ xs) ys b = λ e. cc

oid_loop_lem :
    (bs : Bytes) (value : ℕ) (mid_arc : Bool) (out : Bytes)
    → out ≢ []
    → (oid_loop bs value mid_arc out ≡ []) ↔ (is_unfinished mid_arc bs ≡ true)
unfolding oid_loop
oid_loop_lem [] value true out h = (λ _. refl, λ _. refl)
oid_loop_lem [] value false out h = (λ e. absurd (h e), λ e. cc)
oid_loop_lem (b ∷ bs) value mid_arc out h = elim (Bool-cases (bit_and b 0x80 == 0)) [
  | inl e ↦ rw e (oid_loop_lem bs 0 false _ (filled out _ _))
  | inr e ↦ rw e (oid_loop_lem bs _ true out h)
]

first_arcs_filled : (b : ℕ) → first_arcs b ≢ []
unfolding first_arcs
first_arcs_filled b =
    if_cases (λ r. r ≢ []) (ltb 2 (b / 40)) (λ _. filled (to_string 2) _ _)
      (λ _. filled (to_string (b / 40)) _ _)

-- For an OBJECT IDENTIFIER with content in the buffer, `oid_to_string` is empty exactly where the
-- content after its first byte ends in the middle of an arc.
pub oid_to_string_iff :
    (buf : Bytes) (e : Element) (first : ℕ) (rest : Bytes)
    → is_universal object_identifier_tag e ≡ true
    → 0 < e.content_length
    → slice buf e.content_offset e.content_length ≡ first ∷ rest
    → e.content_offset + e.content_length ≤ length buf
    → (bytes : Bytes) × (oid_to_string (some buf) e ≡ parsed bytes)
      × ((bytes ≡ []) ↔ (is_unfinished false rest ≡ true))
unfolding oid_to_string oid_of
oid_to_string_iff buf e first rest oid some_content read fits = (
  oid_loop rest 0 false (first_arcs first),
  rw (oid, nonzero, copy_inside buf e.content_offset e.content_length fits, read) refl,
  oid_loop_lem rest 0 false (first_arcs first) (first_arcs_filled first),
)
  where
    nonzero : (e.content_length == 0) ≡ false
    nonzero = ground arith
