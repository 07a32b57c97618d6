-- ===== src/Security/PeHash/Reads.antt =====
-- The reads of the image's headers stay inside it.
use gcad.Base.{
  ℕ, ◌+◌, ◌*◌, ◌%◌, ◌^◌, ◌≤◌, ◌<◌, ◌≡◌, refl, ◌⊎◌, inl, inr, List, [], ◌∷◌, true, arith, length,
  leb, if_cases, ◌==◌, zero, suc, All,
}
use gcad.Base.Bytes.{Bytes}
use gcad.Security.Reading.{Parsed, and_then, guard, read, parsed}
use gcad.Security.Reading.Safe.{
  Within, and_then-Within, and_then-known, read-Within, guard-Within, NoFault, guard-NoFault,
  Within-mono,
}
use gcad.Security.PeHash.{
  read_u16, read_u32, fits, expect, Headers, data_dir_base_of, headers, SectionRange, sections,
}

module _ {ℓ} {B : Type ℓ} (Q : B → Type 0) where
  pub fits_then :
      (size offset n : ℕ) (r : Parsed B)
      → (offset + n ≤ size → Within Q r)
      → Within Q (and_then (guard (fits size offset n)) (λ _. r))
  unfolding fits
  fits_then size offset n r k = guard-Within Q (fits size offset n) r (λ h. k (ground (arith, h)))

module _ {ℓ} {B : Type ℓ} (Q : B → Type 0) (image : Bytes) where
  -- A read, and what is done with the number read.
  read_then :
      (offset : ℕ) (f : ℕ → Parsed B)
      → offset < length image
      → ((n : ℕ) → Within Q (f n))
      → Within Q (and_then (read image offset) f)
  read_then offset f h k =
      and_then-Within (λ _. Unit) Q (read image offset) f (read-Within image offset h) (λ n _. k n)

module _ (image : Bytes) where
  read_u16-NoFault : (offset : ℕ) → offset + 2 ≤ length image → NoFault (read_u16 image offset)
  unfolding read_u16
  read_u16-NoFault offset h =
      read_then (λ _. Unit) image offset _ (omega arith)
        (λ a. read_then (λ _. Unit) image (offset + 1) _ (omega arith) (λ b. tt))

  read_u32-NoFault : (offset : ℕ) → offset + 4 ≤ length image → NoFault (read_u32 image offset)
  unfolding read_u32
  read_u32-NoFault offset h =
      read_then (λ _. Unit) image offset _ (omega arith)
        (λ a.
          read_then (λ _. Unit) image (offset + 1) _ (omega arith)
            (λ b.
              read_then (λ _. Unit) image (offset + 2) _ (omega arith)
                (λ c. read_then (λ _. Unit) image (offset + 3) _ (omega arith) (λ d. tt))))

  expect-NoFault : (offset byte : ℕ) → offset < length image → NoFault (expect image offset byte)
  unfolding expect
  expect-NoFault offset byte h =
      read_then (λ _. Unit) image offset _ h (λ b. guard-NoFault (b == byte))

module _ {ℓ} {B : Type ℓ} (Q : B → Type 0) (image : Bytes) where
  pub u16_then :
      (offset : ℕ) (f : ℕ → Parsed B)
      → offset + 2 ≤ length image
      → ((n : ℕ) → read_u16 image offset ≡ parsed n → Within Q (f n))
      → Within Q (and_then (read_u16 image offset) f)
  u16_then offset f h k =
      and_then-known (λ _. Unit) Q (read_u16 image offset) f (read_u16-NoFault image offset h)
        (λ n e _. k n e)

  pub u32_then :
      (offset : ℕ) (f : ℕ → Parsed B)
      → offset + 4 ≤ length image
      → ((n : ℕ) → read_u32 image offset ≡ parsed n → Within Q (f n))
      → Within Q (and_then (read_u32 image offset) f)
  u32_then offset f h k =
      and_then-known (λ _. Unit) Q (read_u32 image offset) f (read_u32-NoFault image offset h)
        (λ n e _. k n e)

  expect_then :
      (offset byte : ℕ) (r : Parsed B)
      → offset < length image
      → Within Q r
      → Within Q (and_then (expect image offset byte) (λ _. r))
  expect_then offset byte r h k =
      and_then-Within (λ _. Unit) Q (expect image offset byte) (λ _. r)
        (expect-NoFault image offset byte h) (λ _ _. k)

-- PE32, or PE32+.
abbrev pub HasBase : ℕ → ℕ → Type 0
HasBase magic base = ((magic ≡ 0x10b) × (base ≡ 96)) ⊎ ((magic ≡ 0x20b) × (base ≡ 112))

-- The headers lie in the image, at the place that the word at 0x3c names, and their data directories
-- behind the checksum, 96 bytes on for the magic number 0x10b and 112 for 0x20b.
pub record AreInside (image : Bytes) (h : Headers) : Type 0 where
  pub file_header : h.file_header_offset + 20 ≤ length image
  pub optional_header : h.file_header_offset + 20 + h.size_of_optional_header ≤ length image
  pub directories : 96 ≤ h.data_dir_base
  pub pe_offset : ℕ
  pub pe_offset_read : read_u32 image 0x3c ≡ parsed pe_offset
  pub place : h.file_header_offset ≡ (pe_offset + 4) % 2 ^ 32
  pub size_read : read_u16 image (h.file_header_offset + 16) ≡ parsed h.size_of_optional_header
  pub magic : ℕ
  pub magic_read : read_u16 image (h.file_header_offset + 20) ≡ parsed magic
  pub format : HasBase magic h.data_dir_base

data_dir_base_of-HasBase : (magic : ℕ) → Within (HasBase magic) (data_dir_base_of magic)
unfolding data_dir_base_of
data_dir_base_of-HasBase magic =
    if_cases (Within (HasBase magic)) (magic == 0x10b) (λ h. inl (ground (arith, h), refl))
      (λ _.
        if_cases (Within (HasBase magic)) (magic == 0x20b) (λ h. inr (ground (arith, h), refl))
          (λ _. tt))

pub headers-AreInside : (image : Bytes) → Within (AreInside image) (headers image)
unfolding headers
headers-AreInside image = guard-Within Q (leb 64 (length image)) _ (λ large.
    expect_then Q image 0 b'M' _ (ground (arith, large)) (
      expect_then Q image 1 b'Z' _ (ground (arith, large)) (
        u32_then Q image 0x3c _ (ground (arith, large)) (λ pe_offset pe_eq.
          fits_then Q (length image) pe_offset 4 _ (λ fit.
            expect_then Q image pe_offset b'P' _ (omega (arith, fit)) (
              expect_then Q image (pe_offset + 1) b'E' _ (omega (arith, fit)) (
                expect_then Q image (pe_offset + 2) 0 _ (omega (arith, fit)) (
                  expect_then Q image (pe_offset + 3) 0 _ (omega (arith, fit)) (
                    fits_then Q (length image) ((pe_offset + 4) % 2 ^ 32) 20 _ (λ file.
                      u16_then Q image _ _ (omega (arith, file)) (λ n n_eq.
                        fits_then Q (length image) ((pe_offset + 4) % 2 ^ 32 + 20) n _ (λ optional.
                          guard-Within Q (leb 2 n) _ (λ some_magic.
                            u16_then Q image _ _ (two_bytes _ n optional some_magic)
                              (λ magic magic_eq.
                                and_then-Within (HasBase magic) Q _ _
                                  (data_dir_base_of-HasBase magic)
                                  (λ base h. record {
                                    file_header = file;
                                    optional_header = optional;
                                    directories = ground (arith, h);
                                    pe_offset = pe_offset;
                                    pe_offset_read = pe_eq;
                                    place = refl;
                                    size_read = n_eq;
                                    magic = magic;
                                    magic_read = magic_eq;
                                    format = h;
                                  })))))))))))))))
  where
    Q : Headers → Type 0
    Q = AreInside image

    two_bytes :
        (offset n : ℕ) → offset + n ≤ length image → leb 2 n ≡ true → offset + 2 ≤ length image
    two_bytes offset n h k = ground arith

-- A section's bytes lie in the image.
abbrev pub IsInImage : Bytes → SectionRange → Type 0
IsInImage image s = s.offset + s.size ≤ length image

-- What so many section headers of forty bytes from `hdr` on say: the size and the place of each
-- section that has bytes in the file.
abbrev pub AreListed : Bytes → ℕ → ℕ → List SectionRange → Type 0
AreListed image zero hdr ranges = ranges ≡ []
AreListed image (suc left) hdr ranges =
    (raw_size : ℕ) × (raw_ptr : ℕ) × (read_u32 image (hdr + 16) ≡ parsed raw_size)
    × (read_u32 image (hdr + 20) ≡ parsed raw_ptr)
    × (((raw_size ≡ 0) × AreListed image left (hdr + 40) ranges)
        ⊎ ((0 < raw_size)
            × ((rest : List SectionRange) × (ranges
                  ≡ record { offset = raw_ptr; size = raw_size } ∷ rest)
                × AreListed image left (hdr + 40) rest)))

-- The sections that the headers list, all of them in the image.
abbrev pub AreSections : Bytes → ℕ → ℕ → List SectionRange → Type 0
AreSections image left hdr ranges = All (IsInImage image) ranges × AreListed image left hdr ranges

pub sections-AreSections :
    (image : Bytes) (left hdr : ℕ)
    → hdr + left * 40 ≤ length image
    → Within (AreSections image left hdr) (sections image left hdr)
unfolding sections
sections-AreSections image zero hdr h = (tt, refl)
sections-AreSections image (suc left) hdr h =
    let later = sections-AreSections image left (hdr + 40) (omega arith) in
    u32_then Q image _ _ (omega arith) (λ raw_size size_eq.
      u32_then Q image _ _ (omega arith) (λ raw_ptr ptr_eq.
        if_cases (Within Q) (raw_size == 0)
          (λ e.
            Within-mono (AreSections image left (hdr + 40)) Q
              (λ ranges s.
                (s.0, (raw_size, raw_ptr, size_eq, ptr_eq, inl (ground (arith, e), s.1))))
              (sections image left (hdr + 40)) later)
          (λ n. fits_then Q (length image) raw_ptr raw_size _ (λ fit.
            and_then-Within (AreSections image left (hdr + 40)) Q (sections image left (hdr + 40)) _
              later
              (λ rest s. (
                (fit, s.0),
                (raw_size, raw_ptr, size_eq, ptr_eq, inr (ground (arith, n), (rest, refl, s.1))),
              ))))))
  where
    Q : List SectionRange → Type 0
    Q = AreSections image (suc left) hdr
