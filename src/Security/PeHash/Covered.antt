-- ===== src/Security/PeHash/Covered.antt =====
-- `hash_image` is the hash of the bytes that are covered.
use gcad.Base.{
  ℕ, ◌+◌, ◌-◌, ◌≤◌, ◌≡◌, refl, sym, ap, ◌∙◌, false, inl, inr, Bool-cases, arith, length, ltb,
  le→leb, List, [], ◌∷◌, ◌++◌, All, if◌then◌else◌,
}
use gcad.Base.Bytes.{Bytes}
use gcad.Hash.{Context}
use gcad.Hash.Blocks.{update-append}
use gcad.Hash.Sha256
use gcad.Hash.Sha256.{Words, transform}
use gcad.Security.Reading.{parsed, slice}
use gcad.Security.Reading.Safe.{copy_inside}
use gcad.Security.PeHash.{
  headers, SectionRange, sort, update_at, hash_sections, hash_rest, hash_image,
}
use gcad.Security.PeHash.Reads.{IsInImage}
use gcad.Security.PeHash.Sorted.{sort-All}

-- The bytes of the sections, and where the last of them ends, or `start`.
abbrev pub section_bytes : Bytes → List SectionRange → Bytes
section_bytes image [] = []
section_bytes image (s ∷ ss) = slice image s.offset s.size ++ section_bytes image ss

abbrev pub end_of : ℕ → List SectionRange → ℕ
end_of start [] = start
end_of start (s ∷ ss) =
    end_of (if ltb start (s.offset + s.size) then s.offset + s.size else start) ss

-- The bytes that the hash covers: the headers less the checksum and the entry of the certificate table,
-- the sections, and what stands behind them up to `end`.
abbrev pub covered : Bytes → ℕ → ℕ → ℕ → List SectionRange → ℕ → Bytes
covered image checksum entry headers ranges end =
    slice image 0 checksum
    ++ (slice image (checksum + 4) (entry - (checksum + 4))
        ++ (slice image (entry + 8) (headers - (entry + 8))
            ++ (section_bytes image ranges
                ++ slice image (end_of headers ranges) (end - end_of headers ranges))))

updated :
    (c : Context Words) (xs ys : Bytes)
    → Sha256.update c (xs ++ ys) ≡ Sha256.update (Sha256.update c xs) ys
unfolding Sha256.update
updated c xs ys = update-append transform 64 c xs ys

nothing_left : (start end : ℕ) → ltb start end ≡ false → end - start ≡ 0
nothing_left start end h = ground arith

updated_nothing : (c : Context Words) → Sha256.update c [] ≡ c
unfolding Sha256.update gcad.Hash.update
updated_nothing c = refl

module _ (image : Bytes) where
  update_at_lem :
      (c : Context Words) (offset n : ℕ)
      → offset + n ≤ length image
      → update_at image c offset n ≡ parsed (Sha256.update c (slice image offset n))
  unfolding update_at
  update_at_lem c offset n h = rw (copy_inside image offset n h) refl

  hash_sections_lem :
      (ss : List SectionRange) (c : Context Words) (start : ℕ)
      → All (IsInImage image) ss
      → hash_sections image ss c start
        ≡ parsed (Sha256.update c (section_bytes image ss), end_of start ss)
  unfolding hash_sections
  hash_sections_lem [] c start all = rw (updated_nothing c) refl
  hash_sections_lem (s ∷ ss) c start all =
      rw
        (
          update_at_lem c s.offset s.size all.0,
          updated c (slice image s.offset s.size) (section_bytes image ss),
        )
        (hash_sections_lem ss (Sha256.update c (slice image s.offset s.size)) _ all.1)

  hash_rest_lem :
      (c : Context Words) (start end : ℕ)
      → end ≤ length image
      → hash_rest image c start end ≡ parsed (Sha256.update c (slice image start (end - start)))
  unfolding hash_rest
  hash_rest_lem c start end h = elim (Bool-cases (ltb start end)) [
    | inl e ↦
        rw
          (
            e,
            le→leb end (length image) h,
            update_at_lem c start (end - start) (ground (arith, e, h)),
          )
          refl
    | inr e ↦ rw (e, nothing_left start end e) (sym (ap parsed (updated_nothing c)))
  ]

  -- `hash_image` on fields that lie in the image.
  pub hash_image_lem :
      (checksum entry headers end : ℕ) (ranges : List SectionRange)
      → checksum + 4 ≤ entry
      → entry + 8 ≤ headers
      → headers ≤ length image
      → end ≤ length image
      → All (IsInImage image) ranges
      → hash_image image checksum entry headers ranges end
        ≡ parsed (
            Sha256.finalize
              (Sha256.update Sha256.reset (covered image checksum entry headers (sort ranges) end)))
  unfolding hash_image
  hash_image_lem checksum entry headers end ranges h k l m all =
      rw
        (
          update_at_lem Sha256.reset 0 checksum (omega arith),
          update_at_lem c1 (checksum + 4) (entry - (checksum + 4)) (omega arith),
          update_at_lem c2 (entry + 8) (headers - (entry + 8)) (omega arith),
          hash_sections_lem (sort ranges) c3 headers (sort-All (IsInImage image) ranges all),
          hash_rest_lem (Sha256.update c3 (section_bytes image (sort ranges)))
              (end_of headers (sort ranges)) end m,
        )
        (ap (λ c. parsed (Sha256.finalize c)) (sym joined))
    where
      c1 : Context Words
      c1 = Sha256.update Sha256.reset (slice image 0 checksum)

      c2 : Context Words
      c2 = Sha256.update c1 (slice image (checksum + 4) (entry - (checksum + 4)))

      c3 : Context Words
      c3 = Sha256.update c2 (slice image (entry + 8) (headers - (entry + 8)))

      joined :
          Sha256.update Sha256.reset (covered image checksum entry headers (sort ranges) end)
          ≡ Sha256.update
              (Sha256.update c3 (section_bytes image (sort ranges)))
              (slice image (end_of headers (sort ranges)) (end - end_of headers (sort ranges)))
      joined =
          updated Sha256.reset (slice image 0 checksum) _
          ∙ updated c1 (slice image (checksum + 4) (entry - (checksum + 4))) _
          ∙ updated c2 (slice image (entry + 8) (headers - (entry + 8))) _
          ∙ updated c3 (section_bytes image (sort ranges)) _
