-- ===== src/Security/PeHash/Signature.antt =====
-- Where the signature is copied from.
use gcad.Base.{
  ℕ, ◌+◌, ◌-◌, ◌%◌, ◌^◌, ◌≤◌, ◌≡◌, sym, ap, ◌∙◌, arith, length, leb, ltb, ◌==◌, ◌||◌, not, drop,
  length-take, length-drop,
}
use gcad.Base.Bytes.{Bytes}
use gcad.Security.Reading.{parsed, slice}
use gcad.Security.Reading.Safe.{Within, and_then-known, guard-Within, copy_inside}
use gcad.Security.PeHash.{read_u32, read_u16, Headers, headers, extract_authenticode_signature}
use gcad.Security.PeHash.Reads.{u16_then, u32_then, fits_then, AreInside, headers-AreInside}
use gcad.Security.PeHash.Hashed.{entry_at}

-- The contents of the certificate that stands at the beginning of the certificate table, where the table
-- and the contents lie in the image.
pub record IsContents (image signature : Bytes) : Type 0 where
  pub h : Headers
  pub headers_read : headers image ≡ parsed h
  pub table_offset : ℕ
  pub table_offset_read : read_u32 image (entry_at h) ≡ parsed table_offset
  pub table_size : ℕ
  pub table_size_read : read_u32 image (entry_at h + 4) ≡ parsed table_size
  pub table_inside : table_offset + table_size ≤ length image
  pub type_read : read_u16 image ((table_offset + 6) % 2 ^ 32) ≡ parsed 2
  pub certificate_length : ℕ
  pub length_read : read_u32 image table_offset ≡ parsed certificate_length
  pub length_inside : certificate_length ≤ table_size
  pub whole : 8 + length signature ≡ certificate_length
  pub contents_inside : (table_offset + 8) % 2 ^ 32 + length signature ≤ length image
  pub same : signature ≡ slice image ((table_offset + 8) % 2 ^ 32) (length signature)

length-slice :
    (image : Bytes) (offset n : ℕ) → offset + n ≤ length image → length (slice image offset n) ≡ n
length-slice image offset n h =
    omega (arith, h, length-take n (drop offset image), length-drop offset image)

-- On any bytes `extract_authenticode_signature` reads nothing outside them, and a signature that it
-- returns is what the certificate at the start of the certificate table holds behind its header of eight
-- bytes, as long as the certificate says, which is no longer than the table; the certificate's type is that
-- of PKCS#7.
pub extract_authenticode_signature-IsContents :
    (image : Bytes) → Within (IsContents image) (extract_authenticode_signature image)
unfolding extract_authenticode_signature
extract_authenticode_signature-IsContents image =
    and_then-known (AreInside image) Q _ _ (headers-AreInside image) (λ h h_eq inside.
      fits_then Q (length image) (entry_at h) 8 _ (λ entry.
        u32_then Q image _ _ (omega (arith, entry)) (λ offset offset_eq.
          u32_then Q image _ _ (omega (arith, entry)) (λ size size_eq.
            guard-Within Q (not (size == 0)) _ (λ _. guard-Within Q (leb 8 size) _ (λ header.
              fits_then Q (length image) offset size _ (λ table.
                u32_then Q image _ _ (ground (arith, header, table)) (λ wc_length wc_eq.
                  u16_then Q image _ _ (ground (arith, header, table)) (λ wc_cert_type type_eq.
                    guard-Within Q (wc_cert_type == 2) _ (λ pkcs.
                      guard-Within Q (not (ltb wc_length 8 || ltb size wc_length)) _ (λ sized.
                        fits_then Q (length image) ((offset + 8) % 2 ^ 32) (wc_length - 8) _ (λ fit.
                          let whole =
                            length-slice image ((offset + 8) % 2 ^ 32) (wc_length - 8) fit in
                          rw (copy_inside image ((offset + 8) % 2 ^ 32) (wc_length - 8) fit)
                            (record {
                              h = h;
                              headers_read = h_eq;
                              table_offset = offset;
                              table_offset_read = offset_eq;
                              table_size = size;
                              table_size_read = size_eq;
                              table_inside = table;
                              type_read = type_eq ∙ ap parsed (ground (arith, pkcs));
                              certificate_length = wc_length;
                              length_read = wc_eq;
                              length_inside = ground (arith, sized);
                              whole = ground (arith, sized, whole);
                              contents_inside = omega (arith, fit, whole);
                              same = ap (λ m. slice image ((offset + 8) % 2 ^ 32) m) (sym whole);
                            })))))))))))))
  where
    Q : Bytes → Type 0
    Q = IsContents image
