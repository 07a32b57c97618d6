-- ===== src/Security/Asn1/Siblings.antt =====
-- The children of a constructed element.
use gcad.Security.Reading.{Parsed, and_then}
use gcad.Security.Reading.Safe.{Within, and_then-Within}
use gcad.Base.{
  ℕ, zero, suc, ◌+◌, ◌-◌, ◌≤◌, ◌<◌, ◌≡◌, refl, ◌⊎◌, inl, inr, List, [], ◌∷◌, some, arith, length,
  if_cases, ltb, not,
}
use gcad.Base.Bytes.{Bytes}
use gcad.Security.Asn1.{Element, parse_element, siblings, parse_sequence_children}
use gcad.Security.Asn1.Bounds.{IsInside, parse_element-Within}

-- The children follow each other without a gap, each what the parser reads where the one before it
-- ends, up to the end or to the first that is malformed.
abbrev pub Tiles : Bytes → ℕ → ℕ → List Element → Type 0
Tiles buf end pos [] = (end ≤ pos) ⊎ (parse_element (some buf) end pos ≡ Parsed.rejected)
Tiles buf end pos (child ∷ rest) =
    (parse_element (some buf) end pos ≡ Parsed.parsed child)
    × IsInside end pos child
    × Tiles buf end (pos + child.total_length) rest

module _ (buf : Bytes) (end : ℕ) (inside : end ≤ length buf) where
  next_sibling :
      (fuel pos : ℕ) (r : Parsed Element)
      → ((q : ℕ) → end - q < fuel → Within (Tiles buf end q) (siblings fuel (some buf) end q))
      → end - pos < suc fuel
      → pos < end
      → parse_element (some buf) end pos ≡ r
      → Within (IsInside end pos) r
      → Within (Tiles buf end pos) (elim r [
        | Parsed.fault ↦ Parsed.fault
        | Parsed.rejected ↦ Parsed.parsed []
        | Parsed.parsed child ↦
            and_then
              (siblings fuel (some buf) end (pos + child.total_length))
              (λ rest. Parsed.parsed (child ∷ rest))
      ])
  next_sibling fuel pos Parsed.fault follow h more e w = w
  next_sibling fuel pos Parsed.rejected follow h more e w = inr e
  next_sibling fuel pos (Parsed.parsed child) follow h more e w =
      and_then-Within (Tiles buf end (pos + child.total_length)) (Tiles buf end pos) _ _
        (follow (pos + child.total_length) (omega (arith, w.header, w.total)))
        (λ rest tiles. (e, w, tiles))

  siblings-Within :
      (fuel pos : ℕ)
      → end - pos < fuel
      → Within (Tiles buf end pos) (siblings fuel (some buf) end pos)
  unfolding siblings
  siblings-Within zero pos h = absurd (omega arith)
  siblings-Within (suc fuel) pos h =
      if_cases (Within (Tiles buf end pos)) (not (ltb pos end))
        (λ ended. inl (ground (arith, ended)))
        (λ more.
          next_sibling fuel pos (parse_element (some buf) end pos) (siblings-Within fuel) h
            (ground (arith, more)) refl (parse_element-Within buf end inside pos))

-- `parse_sequence_children` on a region inside the buffer ends, reads no byte outside it, and returns the
-- elements that stand there one after the other without a gap, up to the end of the region or to the
-- first that is malformed.
pub parse_sequence_children-Tiles :
    (buf : Bytes) (offset n : ℕ)
    → offset + n ≤ length buf
    → Within (Tiles buf (offset + n) offset) (parse_sequence_children (some buf) offset n)
unfolding parse_sequence_children
parse_sequence_children-Tiles buf offset n h =
    siblings-Within buf (offset + n) h (suc n) offset (omega arith)
