-- ===== src/Security/PeHash/Hashed.antt =====
-- Which bytes of the image are hashed.
use gcad.Base.{
  ℕ, ◌+◌, ◌*◌, ◌≤◌, ◌≡◌, refl, true, arith, length, leb, ◌==◌, ◌||◌, List, All, if◌then◌else◌,
}
use gcad.Base.Bytes.{Bytes}
use gcad.Hash.Sha256
use mathlib.Core.List.{Perm}
use gcad.Security.Reading.{parsed}
use gcad.Security.Reading.Safe.{Within, and_then-Within, guard-Within}
use gcad.Security.PeHash.{
  read_u16, read_u32, fits, Headers, SectionRange, sort, hash_image,
  compute_authenticode_pe_hash_sha256,
}
use gcad.Security.PeHash.Reads.{
  u16_then, u32_then, fits_then, AreInside, headers-AreInside, IsInImage, AreListed, AreSections,
  sections-AreSections,
}
use gcad.Security.PeHash.Sorted.{Increasing, sort-Increasing, sort-permᴰ}
use gcad.Security.PeHash.Covered.{covered, hash_image_lem}

-- Where the fields stand.
abbrev pub optional_at : Headers → ℕ
optional_at h = h.file_header_offset + 20

abbrev pub checksum_at : Headers → ℕ
checksum_at h = optional_at h + 64

abbrev pub entry_at : Headers → ℕ
entry_at h = optional_at h + h.data_dir_base + 32

-- What the image's headers say, where it lies in the image.
pub record Layout (image : Bytes) : Type 0 where
  pub h : Headers
  pub headers_of : AreInside image h
  pub number : ℕ
  pub number_read : read_u16 image (h.file_header_offset + 2) ≡ parsed number
  pub headers_end : ℕ
  pub headers_end_read : read_u32 image (optional_at h + 60) ≡ parsed headers_end
  pub table_offset : ℕ
  pub table_offset_read : read_u32 image (entry_at h) ≡ parsed table_offset
  pub table_size : ℕ
  pub table_size_read : read_u32 image (entry_at h + 4) ≡ parsed table_size
  pub ranges : List SectionRange
  pub listed : AreListed image number (optional_at h + h.size_of_optional_header) ranges
  pub checksum_first : checksum_at h + 4 ≤ entry_at h
  pub entry_in_headers : entry_at h + 8 ≤ headers_end
  pub headers_inside : headers_end ≤ length image
  pub end_inside : (if table_size == 0 then length image else table_offset) ≤ length image
  pub ranges_inside : All (IsInImage image) ranges

-- A digest of the bytes that an Authenticode signature covers, of each listed section once.
pub record IsHashOf (image : Bytes) (digest : Bytes) : Type 0 where
  pub layout : Layout image
  pub order : List SectionRange
  pub in_order : Increasing order
  pub each_once : Perm layout.ranges order
  pub hashed :
      digest
      ≡ Sha256.finalize (
          Sha256.update Sha256.reset (
            covered image
              (checksum_at layout.h)
              (entry_at layout.h)
              layout.headers_end
              order
              (if layout.table_size == 0 then length image else layout.table_offset)))

hash_image-IsHashOf :
    (image : Bytes) (l : Layout image)
    → Within (IsHashOf image) (
        hash_image image
          (checksum_at l.h)
          (entry_at l.h)
          l.headers_end
          l.ranges
          (if l.table_size == 0 then length image else l.table_offset))
hash_image-IsHashOf image l =
    rw
      (hash_image_lem image (checksum_at l.h) (entry_at l.h) l.headers_end
        (if l.table_size == 0 then length image else l.table_offset) l.ranges l.checksum_first
        l.entry_in_headers l.headers_inside l.end_inside l.ranges_inside)
      (record {
        layout = l;
        order = sort l.ranges;
        in_order = sort-Increasing l.ranges;
        each_once = ∣ sort-permᴰ l.ranges ∣₁;
        hashed = refl;
      })

end_inside :
    (size offset n : ℕ)
    → ((n == 0) || fits size offset n) ≡ true
    → (if n == 0 then size else offset) ≤ size
unfolding fits
end_inside size offset n h = ground (arith, h)

-- On any bytes `compute_authenticode_pe_hash_sha256` reads nothing outside them, and a digest that it
-- returns is the SHA-256 of the bytes from the start to the checksum, from behind it to the entry of the
-- certificate table, from behind that to the end of the headers, of the sections in the order of their
-- offsets, each once that the section table gives a size, and of what stands behind the headers and all sections up to the certificate table, or to the
-- end where there is none, all as the image's own headers say.
pub compute-IsHashOf :
    (image : Bytes) → Within (IsHashOf image) (compute_authenticode_pe_hash_sha256 image)
unfolding compute_authenticode_pe_hash_sha256
compute-IsHashOf image =
    and_then-Within (AreInside image) Q _ _ (headers-AreInside image) (λ h inside.
      u16_then Q image _ _ (omega (arith, inside.file_header)) (λ number number_eq.
        fits_then Q (length image) (checksum_at h) 4 _ (λ checksum.
          fits_then Q (length image) (optional_at h + 60) 4 _ (λ size_field.
            u32_then Q image _ _ size_field (λ headers_end headers_end_eq.
              fits_then Q (length image) 0 headers_end _ (λ headers_fit.
                guard-Within Q (leb (checksum_at h + 4) headers_end) _ (λ _.
                  fits_then Q (length image) (entry_at h) 8 _ (λ entry.
                    guard-Within Q (leb (entry_at h + 8) headers_end) _ (λ entry_in.
                      u32_then Q image _ _ (omega (arith, entry)) (λ offset offset_eq.
                        u32_then Q image _ _ (omega (arith, entry)) (λ size size_eq.
                          guard-Within Q ((size == 0) || fits (length image) offset size) _
                            (λ table_fits.
                              fits_then Q (length image) (optional_at h + h.size_of_optional_header)
                                (number * 40) _
                                (λ headers_of.
                                  guard-Within Q
                                    (leb (optional_at h + h.size_of_optional_header + number * 40)
                                      headers_end)
                                    _
                                    (λ _.
                                      and_then-Within
                                        (AreSections image number
                                          (optional_at h + h.size_of_optional_header))
                                        Q _ _ (sections-AreSections image number _ headers_of)
                                        (λ ranges s. hash_image-IsHashOf image (record {
                                          h = h;
                                          headers_of = inside;
                                          number = number;
                                          number_read = number_eq;
                                          headers_end = headers_end;
                                          headers_end_read = headers_end_eq;
                                          table_offset = offset;
                                          table_offset_read = offset_eq;
                                          table_size = size;
                                          table_size_read = size_eq;
                                          ranges = ranges;
                                          listed = s.1;
                                          checksum_first = omega (arith, inside.directories);
                                          entry_in_headers = ground (arith, entry_in);
                                          headers_inside = omega (arith, headers_fit);
                                          end_inside =
                                              end_inside (length image) offset size table_fits;
                                          ranges_inside = s.0;
                                        }))))))))))))))))
  where
    Q : Bytes → Type 0
    Q = IsHashOf image
