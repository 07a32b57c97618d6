-- ===== src/Security/X509/Regions.antt =====
-- Where in the buffer an element lies, and from where bytes are copied.
use gcad.Security.Reading.{read, slice, copy, parsed}
use gcad.Security.Reading.Safe.{
  Within, and_then-Within, Within-mono, read-Within, guard-Within, NoFault, copy_inside,
}
use gcad.Base.{
  ℕ, ◌+◌, ◌-◌, ◌≤◌, ◌≡◌, refl, sym, ap, subst, ◌∙◌, List, [], ◌∷◌, some, arith, length, if_cases,
  ltb, not, ◌==◌, ◌||◌, All, take, drop, length-take, length-drop, drop-drop, take-drop-take,
}
use gcad.Base.Bytes.{Bytes}
use gcad.Security.Asn1.{
  Element, is_universal, integer_tag, object_identifier_tag, oid_to_string, raw_bytes,
  read_unsigned_integer, unsigned_of, is_padded, parse_sequence_children,
}
use Prim.Native.Nat.{bit_and}
use gcad.Security.Asn1.Bounds.{IsInside}
use gcad.Security.Asn1.Siblings.{Tiles, parse_sequence_children-Tiles}
use gcad.Security.Asn1.Integers.{raw_bytes_lem}
use gcad.Security.X509.{children, read_byte_aligned_bit_string, bit_string_tag}

-- An element that begins at `lo` or later and ends at `hi` or earlier.
pub record Lies (lo hi : ℕ) (e : Element) : Type 0 where
  pub offset : ℕ
  pub after : lo ≤ offset
  pub inside : IsInside hi offset e

-- Bytes that stand in the buffer between `lo` and `hi`.
pub record IsSlice (data_ : Bytes) (lo hi : ℕ) (bytes : Bytes) : Type 0 where
  pub start : ℕ
  pub after : lo ≤ start
  pub before : start + length bytes ≤ hi
  pub same : bytes ≡ slice data_ start (length bytes)

take_all : (bytes : Bytes) → take (length bytes) bytes ≡ bytes
take_all [] = refl
take_all (b ∷ bytes) = ap (λ t. b ∷ t) (take_all bytes)

pub Tiles-Lies :
    (data_ : Bytes) (end lo pos : ℕ) (es : List Element)
    → lo ≤ pos
    → Tiles data_ end pos es
    → All (Lies lo end) es
Tiles-Lies data_ end lo pos [] h tiles = tt
Tiles-Lies data_ end lo pos (e ∷ es) h (_, inside, tiles) = (
  record { offset = pos; after = h; inside = inside },
  Tiles-Lies data_ end lo (pos + e.total_length) es (omega arith) tiles,
)

-- The part of the buffer that an element's content takes.
abbrev pub Child : Element → Element → Type 0
Child parent e = Lies parent.content_offset (parent.content_offset + parent.content_length) e

module _ (data_ : Bytes) where
  -- An element that ends inside the buffer.
  abbrev pub Fits : Element → Type 0
  Fits e = e.content_offset + e.content_length ≤ length data_

  pub Child-Fits : (parent e : Element) → Fits parent → Child parent e → Fits e
  Child-Fits parent e h l = omega (arith, h, l.inside.content)

  pub All-Child-Fits :
      (parent : Element) (es : List Element) → Fits parent → All (Child parent) es → All Fits es
  All-Child-Fits parent [] h all = tt
  All-Child-Fits parent (e ∷ es) h (l, all) =
      (Child-Fits parent e h l, All-Child-Fits parent es h all)

  pub children-Child :
      (parent : Element) → Fits parent → Within (All (Child parent)) (children data_ parent)
  unfolding children
  children-Child parent h =
      Within-mono (Tiles data_ _ parent.content_offset) (All (Child parent))
        (λ es. Tiles-Lies data_ _ parent.content_offset parent.content_offset es (omega arith))
        (parse_sequence_children (some data_) parent.content_offset parent.content_length)
        (parse_sequence_children-Tiles data_ parent.content_offset parent.content_length h)

  pub children-Fits : (parent : Element) → Fits parent → Within (All Fits) (children data_ parent)
  children-Fits parent h =
      Within-mono (All (Child parent)) (All Fits) (λ es. All-Child-Fits parent es h)
        (children data_ parent) (children-Child parent h)

  pub length-slice : (start n : ℕ) → start + n ≤ length data_ → length (slice data_ start n) ≡ n
  length-slice start n h =
      omega (arith, h, length-take n (drop start data_), length-drop start data_)

  slice-IsSlice :
      (lo hi start n : ℕ)
      → lo ≤ start
      → start + n ≤ hi
      → hi ≤ length data_
      → IsSlice data_ lo hi (slice data_ start n)
  slice-IsSlice lo hi start n h k fits = record {
    start = start;
    after = h;
    before = omega (arith, k, length-slice start n (omega arith));
    same = ap (λ m. slice data_ start m) (sym (length-slice start n (omega arith)));
  }

  pub copy-IsSlice :
      (lo hi start n : ℕ)
      → lo ≤ start
      → start + n ≤ hi
      → hi ≤ length data_
      → Within (IsSlice data_ lo hi) (copy data_ start n)
  unfolding copy
  copy-IsSlice lo hi start n h k fits =
      if_cases (Within (IsSlice data_ lo hi)) (ltb (length data_) (start + n))
        (λ t. ground (arith, t)) (λ _. slice-IsSlice lo hi start n h k fits)

  pub raw_bytes-IsSlice :
      (lo hi : ℕ) (e : Element)
      → hi ≤ length data_
      → Lies lo hi e
      → Within (IsSlice data_ lo hi) (raw_bytes (some data_) e)
  raw_bytes-IsSlice lo hi e h l =
      let whole = raw_bytes_lem data_ hi l.offset e h l.inside in
      subst (Within (IsSlice data_ lo hi)) (sym whole.0) (record {
        start = l.offset;
        after = l.after;
        before = omega (arith, whole.1, l.inside.content, l.inside.total);
        same = ap (λ n. slice data_ l.offset n) (sym whole.1);
      })

  pub oid_to_string-NoFault : (e : Element) → Fits e → NoFault (oid_to_string (some data_) e)
  unfolding oid_to_string
  oid_to_string-NoFault e h =
      if_cases NoFault (not (is_universal object_identifier_tag e) || (e.content_length == 0))
        (λ _. tt) (λ _. rw (copy_inside data_ e.content_offset e.content_length h) tt)

-- A slice of a slice.
pub IsSlice-trans :
    (data_ part bytes : Bytes) (lo hi from to : ℕ)
    → IsSlice data_ lo hi part
    → to ≤ length part
    → IsSlice part from to bytes
    → IsSlice data_ lo hi bytes
IsSlice-trans data_ part bytes lo hi from to a h b = record {
  start = a.start + b.start;
  after = omega (arith, a.after);
  before = omega (arith, a.before, b.before, h);
  same =
      b.same
      ∙ ap (λ p. take (length bytes) (drop b.start p)) a.same
      ∙ take-drop-take (length bytes) b.start (length part) (drop a.start data_)
          (omega (arith, b.before, h))
      ∙ ap (take (length bytes)) (drop-drop a.start b.start data_);
}

tail-IsSlice : (bytes : Bytes) → IsSlice bytes 0 (length bytes) (drop 1 bytes)
tail-IsSlice [] = record { start = 0; after = omega arith; before = omega arith; same = refl }
tail-IsSlice (b ∷ bytes) = record {
  start = 1;
  after = omega arith;
  before = omega arith;
  same = sym (take_all bytes);
}

pub empty-IsSlice : (data_ : Bytes) (lo hi : ℕ) → lo ≤ hi → IsSlice data_ lo hi []
empty-IsSlice data_ lo hi h = record {
  start = lo;
  after = omega arith;
  before = omega (arith, h);
  same = refl;
}

unsigned_of-IsSlice :
    (data_ : Bytes) (lo hi : ℕ) (bytes : Bytes)
    → IsSlice data_ lo hi bytes
    → IsSlice data_ lo hi (unsigned_of bytes)
unfolding unsigned_of
unsigned_of-IsSlice data_ lo hi bytes s =
    if_cases (IsSlice data_ lo hi) (is_padded bytes)
      (λ _.
        IsSlice-trans data_ bytes (drop 1 bytes) lo hi 0 (length bytes) s (omega arith)
          (tail-IsSlice bytes))
      (λ _. s)

pub read_unsigned_integer-IsSlice :
    (data_ : Bytes) (lo hi : ℕ) (e : Element)
    → hi ≤ length data_
    → Lies lo hi e
    → Within (IsSlice data_ lo hi) (read_unsigned_integer (some data_) e)
unfolding read_unsigned_integer
read_unsigned_integer-IsSlice data_ lo hi e h l =
    if_cases (Within (IsSlice data_ lo hi))
      (not (is_universal integer_tag e) || (e.content_length == 0)) {x = parsed []}
      (λ _. empty-IsSlice data_ lo hi below)
      (λ some_content.
        and_then-Within (λ _. Unit) (IsSlice data_ lo hi) (read data_ e.content_offset) _
          (read-Within data_ e.content_offset (ground (arith, some_content, l.inside.content, h)))
          (λ first _.
            if_cases (Within (IsSlice data_ lo hi)) (not (bit_and first 0x80 == 0)) {x = parsed []}
              (λ _. empty-IsSlice data_ lo hi below)
              (λ _.
                and_then-Within (IsSlice data_ lo hi) (IsSlice data_ lo hi) _ _
                  (copy-IsSlice data_ lo hi e.content_offset e.content_length
                    (omega (arith, l.after, l.inside.header)) l.inside.content h)
                  (λ content s. unsigned_of-IsSlice data_ lo hi content s))))
  where
    below : lo ≤ hi
    below = omega (arith, l.after, l.inside.header, l.inside.content)

-- The bytes of a BIT STRING.
pub read_byte_aligned_bit_string-IsSlice :
    (data_ : Bytes) (lo hi : ℕ) (e : Element)
    → hi ≤ length data_
    → Lies lo hi e
    → Within (IsSlice data_ lo hi) (read_byte_aligned_bit_string data_ e)
unfolding read_byte_aligned_bit_string
read_byte_aligned_bit_string-IsSlice data_ lo hi e h l =
    if_cases (Within (IsSlice data_ lo hi))
      (not (is_universal bit_string_tag e) || (e.content_length == 0)) (λ _. tt)
      (λ some_content.
        and_then-Within (λ _. Unit) (IsSlice data_ lo hi) (read data_ e.content_offset) _
          (read-Within data_ e.content_offset (ground (arith, some_content, l.inside.content, h)))
          (λ unused _. guard-Within (IsSlice data_ lo hi) (unused == 0) _ (λ _.
            copy-IsSlice data_ lo hi (e.content_offset + 1) (e.content_length - 1)
              (omega (arith, l.after, l.inside.header))
              (ground (arith, some_content, l.inside.content)) h)))
