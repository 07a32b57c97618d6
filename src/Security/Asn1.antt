-- ===== src/Security/Asn1.antt =====
-- src/security/asn1.cpp: the reader of DER. A null pointer is `none`. Reading `data[pos]` past the
-- buffer is undefined behaviour, here the result `fault`; a returned nullopt is `rejected`. Sums of
-- positions are not cut at 2 ^ 64: a buffer is far smaller.
pub mod Bounds
pub mod Siblings
pub mod Integers
use gcad.Base.{
  ℕ, zero, suc, ◌+◌, ◌-◌, ◌*◌, ◌/◌, ◌%◌, ◌^◌, Bool, true, false, not, ◌&&◌, ◌||◌, List, [], ◌∷◌,
  ◌++◌, Option, none, some, if◌then◌else◌, ltb, leb, ◌==◌, get_elem?, get_or, take, drop,
}
use gcad.Base.Bytes.{Bytes, text, to_string}
use Prim.Native.Nat.{bit_and, bit_or}
use gcad.Security.Reading.{Parsed, fault, rejected, parsed, and_then, read, copy}

pub data TagClass : Type 0 where
  universal application context_specific private_use : TagClass

abbrev pub integer_tag : ℕ
integer_tag = 2

abbrev pub object_identifier_tag : ℕ
object_identifier_tag = 6

pub record Element : Type 0 where
  pub tag_class : TagClass
  pub constructed : Bool
  pub tag_number : ℕ
  pub content_offset : ℕ
  pub content_length : ℕ
  pub total_length : ℕ

abbrev is_universal_class : TagClass → Bool
is_universal_class TagClass.universal = true
is_universal_class _ = false

unfoldable pub is_universal : ℕ → Element → Bool
is_universal tag element = is_universal_class element.tag_class && (element.tag_number == tag)

-- The enumerator of the two class bits.
abbrev pub class_of : ℕ → TagClass
class_of zero = TagClass.universal
class_of (suc zero) = TagClass.application
class_of (suc (suc zero)) = TagClass.context_specific
class_of (suc (suc (suc n))) = TagClass.private_use

-- The loop over the bytes of a high tag number, `rounds` of them left; the tag and the next position.
unfoldable pub high_tag : Bytes → ℕ → ℕ → ℕ → ℕ → Parsed (ℕ × ℕ)
unfolding read
high_tag buf size zero pos tag = rejected
high_tag buf size (suc rounds) pos tag =
    if not (ltb pos size)
    then rejected
    else and_then (read buf pos) (λ b.
      let tag' = bit_or (tag * 2 ^ 7 % 2 ^ 32) (bit_and b 0x7f) in
      let later = high_tag buf size rounds (pos + 1) tag' in
      if bit_and b 0x80 == 0 then parsed (tag', pos + 1) else later)

unfoldable pub tag_number : Bytes → ℕ → ℕ → ℕ → Parsed (ℕ × ℕ)
unfolding high_tag
tag_number buf size pos tag_byte =
    if bit_and tag_byte 0x1f == 0x1f
    then high_tag buf size 5 pos 0
    else parsed (bit_and tag_byte 0x1f, pos)

-- The loop over the bytes of a long length; the length and the next position.
unfoldable pub length_bytes : Bytes → ℕ → ℕ → ℕ → Parsed (ℕ × ℕ)
unfolding read
length_bytes buf zero pos content_length = parsed (content_length, pos)
length_bytes buf (suc left) pos content_length =
    and_then (read buf pos)
      (λ b. length_bytes buf left (pos + 1) (bit_or (content_length * 2 ^ 8 % 2 ^ 64) b))

-- What the first byte of the length announces, read up to `pos`.
unfoldable pub length_form : Bytes → ℕ → ℕ → ℕ → Parsed (ℕ × ℕ)
unfolding length_bytes
length_form buf size pos len_byte =
    if bit_and len_byte 0x80 == 0
    then parsed (len_byte, pos)
    else if bit_and len_byte 0x7f == 0
    then rejected
    else if ltb 8 (bit_and len_byte 0x7f)
    then rejected
    else if ltb size (pos + bit_and len_byte 0x7f)
    then rejected
    else length_bytes buf (bit_and len_byte 0x7f) pos 0

unfoldable pub content_length_at : Bytes → ℕ → ℕ → Parsed (ℕ × ℕ)
unfolding read length_form
content_length_at buf size pos =
    if leb size pos
    then rejected
    else and_then (read buf pos) (λ len_byte. length_form buf size (pos + 1) len_byte)

-- The last check and the element; `pos` is at most `size` here, so `size - pos` does not wrap.
unfoldable pub element_of : ℕ → ℕ → ℕ → ℕ → ℕ × ℕ → Parsed Element
element_of size offset tag_byte tag (content_length, pos) =
    if ltb (size - pos) content_length
    then rejected
    else parsed (record {
      tag_class = class_of (bit_and (tag_byte / 2 ^ 6) 3);
      constructed = not (bit_and tag_byte 0x20 == 0);
      tag_number = tag;
      content_offset = pos;
      content_length = content_length;
      total_length = pos + content_length - offset;
    })

unfoldable pub parse_element : Option Bytes → ℕ → ℕ → Parsed Element
unfolding read tag_number content_length_at element_of
parse_element none size offset = rejected
parse_element (some buf) size offset =
    if leb size offset
    then rejected
    else and_then (read buf offset) (λ tag_byte.
      and_then (tag_number buf size (offset + 1) tag_byte) (λ t.
        and_then (content_length_at buf size t.1) (λ l. element_of size offset tag_byte t.0 l)))

-- The loop over siblings, with fuel: a turn each. `fault` also where the fuel is out.
unfoldable pub siblings : ℕ → Option Bytes → ℕ → ℕ → Parsed (List Element)
unfolding parse_element
siblings zero buf end pos = fault
siblings (suc fuel) buf end pos =
    if not (ltb pos end) then parsed [] else elim (parse_element buf end pos) [
      | fault ↦ fault
      | rejected ↦ parsed []
      | parsed child ↦
          and_then (siblings fuel buf end (pos + child.total_length))
            (λ rest. parsed (child ∷ rest))
    ]

unfoldable pub parse_sequence_children : Option Bytes → ℕ → ℕ → Parsed (List Element)
unfolding siblings
parse_sequence_children buf offset length = siblings (suc length) buf (offset + length) offset

-- Whether the integer's sign byte is a pad.
abbrev pub is_padded : Bytes → Bool
is_padded [] = false
is_padded (a ∷ []) = false
is_padded (a ∷ (b ∷ _)) = (a == 0) && not (bit_and b 0x80 == 0)

-- The content from `start` on.
unfoldable pub unsigned_of : Bytes → Bytes
unsigned_of content = if is_padded content then drop 1 content else content

unfoldable pub read_unsigned_integer : Option Bytes → Element → Parsed Bytes
unfolding is_universal unsigned_of read copy
read_unsigned_integer none element = parsed []
read_unsigned_integer (some buf) element =
    if not (is_universal integer_tag element) || (element.content_length == 0)
    then parsed []
    else and_then (read buf element.content_offset) (λ first.
      if not (bit_and first 0x80 == 0)
      then parsed []
      else and_then (copy buf element.content_offset element.content_length)
          (λ content. parsed (unsigned_of content)))

unfoldable pub raw_bytes : Option Bytes → Element → Parsed Bytes
unfolding copy
raw_bytes none element = parsed []
raw_bytes (some buf) element =
    if ltb element.total_length element.content_length
    then parsed []
    else if ltb element.content_offset (element.total_length - element.content_length)
    then parsed []
    else copy buf (element.content_offset - (element.total_length - element.content_length))
        element.total_length

-- The loop over the arcs after the first two.
unfoldable pub oid_loop : Bytes → ℕ → Bool → Bytes → Bytes
oid_loop [] value mid_arc out = if mid_arc then [] else out
oid_loop (b ∷ bs) value mid_arc out =
    let value' = bit_or (value * 2 ^ 7 % 2 ^ 64) (bit_and b 0x7f) in
    let ends = bit_and b 0x80 == 0 in
    oid_loop bs (if ends then 0 else value') (not ends)
      (if ends then out ++ (b'.' ∷ to_string value') else out)

-- The first byte encodes two arcs.
unfoldable pub first_arcs : ℕ → Bytes
first_arcs first_byte =
    if ltb 2 (first_byte / 40)
    then to_string 2 ++ (b'.' ∷ to_string (first_byte - 80))
    else to_string (first_byte / 40) ++ (b'.' ∷ to_string (first_byte % 40))

unfoldable pub oid_of : Bytes → Bytes
unfolding oid_loop
oid_of [] = []
oid_of (first_byte ∷ rest) = oid_loop rest 0 false (first_arcs first_byte)

-- The content is read as a whole.
unfoldable pub oid_to_string : Option Bytes → Element → Parsed Bytes
unfolding is_universal oid_of copy
oid_to_string none element = parsed []
oid_to_string (some buf) element =
    if not (is_universal object_identifier_tag element) || (element.content_length == 0)
    then parsed []
    else and_then (copy buf element.content_offset element.content_length)
        (λ content. parsed (oid_of content))
