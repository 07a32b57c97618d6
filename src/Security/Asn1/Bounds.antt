-- ===== src/Security/Asn1/Bounds.antt =====
-- The reader stays inside its buffer.
use gcad.Base.{ℕ, zero, suc, ◌+◌, ◌-◌, ◌≤◌, ◌≡◌, some, arith, length, if_cases, leb, ltb, not, ◌==◌}
use gcad.Base.Bytes.{Bytes}
use gcad.Security.Asn1.{
  Element, high_tag, tag_number, length_bytes, length_form, content_length_at, element_of,
  parse_element,
}
use gcad.Security.Reading.{Parsed, read}
use gcad.Security.Reading.Safe.{Within, and_then-Within, Within-mono, read-Within}
use Prim.Native.Nat.{bit_and}

-- An element lies inside the buffer from its offset on: at least a tag byte and a length byte, then its
-- content, up to `size` at most.
pub record IsInside (size offset : ℕ) (e : Element) : Type 0 where
  pub header : offset + 2 ≤ e.content_offset
  pub content : e.content_offset + e.content_length ≤ size
  pub total : offset + e.total_length ≡ e.content_offset + e.content_length

-- A position reached from `pos` without passing `size`.
abbrev Reached : ℕ → ℕ → ℕ × ℕ → Type 0
Reached size pos r = (pos ≤ r.1) × (r.1 ≤ size)

module _ (buf : Bytes) (size : ℕ) (inside : size ≤ length buf) where
  high_tag-Within :
      (rounds pos tag : ℕ) → Within (Reached size pos) (high_tag buf size rounds pos tag)
  unfolding high_tag
  high_tag-Within zero pos tag = tt
  high_tag-Within (suc rounds) pos tag =
      if_cases (Within (Reached size pos)) (not (ltb pos size)) (λ _. tt)
        (λ more.
          and_then-Within (λ _. Unit) (Reached size pos) (read buf pos) _
            (read-Within buf pos (ground (arith, more)))
            (λ b _.
              if_cases (Within (Reached size pos)) (bit_and b 0x80 == 0)
                (λ _. (omega arith, ground (arith, more)))
                (λ _.
                  later (high_tag buf size rounds (pos + 1) _)
                    (high_tag-Within rounds (pos + 1) _))))
    where
      later : (r : Parsed (ℕ × ℕ)) → Within (Reached size (pos + 1)) r → Within (Reached size pos) r
      later =
          Within-mono (Reached size (pos + 1)) (Reached size pos) (λ r h. (omega (arith, h.0), h.1))

  tag_number-Within :
      (pos tag_byte : ℕ) → pos ≤ size → Within (Reached size pos) (tag_number buf size pos tag_byte)
  unfolding tag_number
  tag_number-Within pos tag_byte h =
      if_cases (Within (Reached size pos)) (bit_and tag_byte 0x1f == 0x1f)
        (λ _. high_tag-Within 5 pos 0) (λ _. (omega arith, h))

  length_bytes-Within :
      (left pos n : ℕ) → pos + left ≤ size → Within (Reached size pos) (length_bytes buf left pos n)
  unfolding length_bytes
  length_bytes-Within zero pos n h = (omega arith, omega arith)
  length_bytes-Within (suc left) pos n h =
      and_then-Within (λ _. Unit) (Reached size pos) (read buf pos) _
        (read-Within buf pos (omega arith))
        (λ b _.
          Within-mono (Reached size (pos + 1)) (Reached size pos) (λ r h. (omega (arith, h.0), h.1))
            (length_bytes buf left (pos + 1) _)
            (length_bytes-Within left (pos + 1) _ (omega arith)))

  length_form-Within :
      (pos len_byte : ℕ)
      → pos ≤ size
      → Within (Reached size pos) (length_form buf size pos len_byte)
  unfolding length_form
  length_form-Within pos len_byte h =
      if_cases (Within (Reached size pos)) (bit_and len_byte 0x80 == 0) (λ _. (omega arith, h))
        (λ _.
          if_cases (Within (Reached size pos)) (bit_and len_byte 0x7f == 0) (λ _. tt)
            (λ _.
              if_cases (Within (Reached size pos)) (ltb 8 (bit_and len_byte 0x7f)) (λ _. tt)
                (λ _.
                  if_cases (Within (Reached size pos)) (ltb size (pos + bit_and len_byte 0x7f))
                    (λ _. tt)
                    (λ e. length_bytes-Within (bit_and len_byte 0x7f) pos 0 (ground (arith, e))))))

  content_length_at-Within :
      (pos : ℕ) → Within (Reached size (pos + 1)) (content_length_at buf size pos)
  unfolding content_length_at
  content_length_at-Within pos =
      if_cases (Within (Reached size (pos + 1))) (leb size pos) (λ _. tt)
        (λ more.
          and_then-Within (λ _. Unit) (Reached size (pos + 1)) (read buf pos) _
            (read-Within buf pos (ground (arith, more)))
            (λ b _. length_form-Within (pos + 1) b (ground (arith, more))))

  element_of-Within :
      (offset pos tag_byte tag : ℕ) (l : ℕ × ℕ)
      → offset + 1 ≤ pos
      → Reached size (pos + 1) l
      → Within (IsInside size offset) (element_of size offset tag_byte tag l)
  unfolding element_of
  element_of-Within offset pos tag_byte tag (n, next) h r =
      if_cases (Within (IsInside size offset)) (ltb (size - next) n) (λ _. tt)
        (λ e. record {
          header = omega (arith, r.0);
          content = ground (arith, e, r.1);
          total = omega (arith, r.0);
        })

  -- In a buffer of at least `size` bytes `parse_element` reads no byte outside it, whatever the bytes
  -- are; and an element that it returns lies between its offset and `size`: two bytes of header at
  -- least, then the content, and the total length is what they take together.
  pub parse_element-Within :
      (offset : ℕ) → Within (IsInside size offset) (parse_element (some buf) size offset)
  unfolding parse_element
  parse_element-Within offset =
      if_cases (Within (IsInside size offset)) (leb size offset) (λ _. tt)
        (λ more.
          and_then-Within (λ _. Unit) (IsInside size offset) (read buf offset) _
            (read-Within buf offset (ground (arith, more)))
            (λ tag_byte _.
              and_then-Within (Reached size (offset + 1)) (IsInside size offset) _ _
                (tag_number-Within (offset + 1) tag_byte (ground (arith, more)))
                (λ t r.
                  and_then-Within (Reached size (t.1 + 1)) (IsInside size offset) _ _
                    (content_length_at-Within t.1)
                    (λ l s. element_of-Within offset t.1 tag_byte t.0 l r.0 s))))
