-- ===== src/Security/PeHash.antt =====
-- src/security/pe_authenticode_hash.cpp: the hash that an Authenticode signature covers, and the
-- signature's place in a PE image. A null pointer comes with the size 0. Sums that begin with a uint32_t
-- are cut at 2 ^ 32 where the source adds no size_t; other sums stay far below 2 ^ 64. Of two sections
-- with equal offsets the first one stays first, which std::sort leaves open.
pub mod Reads
pub mod Sorted
pub mod Covered
pub mod Hashed
pub mod Signature
use gcad.Base.{
  ℕ, zero, suc, ◌+◌, ◌-◌, ◌*◌, ◌%◌, ◌^◌, Bool, not, ◌&&◌, ◌||◌, List, [], ◌∷◌, ◌++◌, Option, none,
  some, if◌then◌else◌, ltb, leb, ◌==◌, length,
}
use gcad.Base.Bytes.{Bytes}
use gcad.Hash.{Context}
use gcad.Hash.Sha256
use gcad.Hash.Sha256.{Words}
use gcad.Security.Reading.{
  Parsed, fault, rejected, parsed, and_then, ◌>>=◌, ◌>>◌, guard, read, slice, copy,
}
use Prim.Native.Nat.{bit_or}

unfoldable pub read_u16 : Bytes → ℕ → Parsed ℕ
read_u16 image offset = do
  a ← read image offset
  b ← read image (offset + 1)
  parsed (bit_or a (b * 2 ^ 8))

unfoldable pub read_u32 : Bytes → ℕ → Parsed ℕ
read_u32 image offset = do
  a ← read image offset
  b ← read image (offset + 1)
  c ← read image (offset + 2)
  d ← read image (offset + 3)
  parsed (bit_or (bit_or (bit_or a (b * 2 ^ 8)) (c * 2 ^ 16)) (d * 2 ^ 24))

unfoldable pub fits : ℕ → ℕ → ℕ → Bool
fits size offset n = leb offset size && leb n (size - offset)

pub record SectionRange : Type 0 where
  pub offset : ℕ
  pub size : ℕ

-- What both functions read first: where the Optional Header stands and how long it is, and the place of
-- its data directories.
pub record Headers : Type 0 where
  pub file_header_offset : ℕ
  pub size_of_optional_header : ℕ
  pub data_dir_base : ℕ

unfoldable pub data_dir_base_of : ℕ → Parsed ℕ
data_dir_base_of magic =
    if magic == 0x10b then parsed 96 else if magic == 0x20b then parsed 112 else rejected

-- A test of one byte.
unfoldable pub expect : Bytes → ℕ → ℕ → Parsed (Unit {0})
expect image offset byte = do b ← read image offset; guard (b == byte)

unfoldable pub headers : Bytes → Parsed Headers
unfolding read_u16 read_u32 data_dir_base_of expect
headers image = do
  guard (leb 64 (length image))
  expect image 0 b'M'
  expect image 1 b'Z'
  pe_offset ← read_u32 image 0x3c
  guard (fits (length image) pe_offset 4)
  expect image pe_offset b'P'
  expect image (pe_offset + 1) b'E'
  expect image (pe_offset + 2) 0
  expect image (pe_offset + 3) 0
  let file_header_offset = (pe_offset + 4) % 2 ^ 32
  guard (fits (length image) file_header_offset 20)
  size_of_optional_header ← read_u16 image (file_header_offset + 16)
  guard (fits (length image) (file_header_offset + 20) size_of_optional_header)
  guard (leb 2 size_of_optional_header)
  magic ← read_u16 image (file_header_offset + 20)
  data_dir_base ← data_dir_base_of magic
  parsed (record {
    file_header_offset = file_header_offset;
    size_of_optional_header = size_of_optional_header;
    data_dir_base = data_dir_base;
  })

-- The loop over the section headers, `left` of them from `hdr` on.
unfoldable pub sections : Bytes → ℕ → ℕ → Parsed (List SectionRange)
unfolding read_u32
sections image zero hdr = parsed []
sections image (suc left) hdr = do
  raw_size ← read_u32 image (hdr + 16)
  raw_ptr ← read_u32 image (hdr + 20)
  let later = sections image left (hdr + 40)
  if raw_size == 0 then later else do
    guard (fits (length image) raw_ptr raw_size)
    rest ← later
    parsed (record { offset = raw_ptr; size = raw_size } ∷ rest)

insert_section : SectionRange → List SectionRange → List SectionRange
insert_section s [] = s ∷ []
insert_section s (t ∷ ts) = if leb s.offset t.offset then s ∷ (t ∷ ts) else t ∷ insert_section s ts

unfoldable pub sort : List SectionRange → List SectionRange
unfolding insert_section
sort [] = []
sort (s ∷ ss) = insert_section s (sort ss)

-- `ctx.update(data + offset, n)`
unfoldable pub update_at : Bytes → Context Words → ℕ → ℕ → Parsed (Context Words)
update_at image ctx offset n = do bytes ← copy image offset n; parsed (Sha256.update ctx bytes)

-- The loop that hashes the sections; the context and where the data behind them starts.
unfoldable pub hash_sections :
    Bytes → List SectionRange → Context Words → ℕ → Parsed (Context Words × ℕ)
unfolding update_at
hash_sections image [] ctx extra_data_start = parsed (ctx, extra_data_start)
hash_sections image (s ∷ ss) ctx extra_data_start = do
  ctx' ← update_at image ctx s.offset s.size
  hash_sections image ss ctx'
      (if ltb extra_data_start (s.offset + s.size) then s.offset + s.size else extra_data_start)

-- The data behind the sections, up to `extra_data_end`.
unfoldable pub hash_rest : Bytes → Context Words → ℕ → ℕ → Parsed (Context Words)
unfolding update_at
hash_rest image ctx extra_data_start extra_data_end =
    if ltb extra_data_start extra_data_end
    then (do
      guard (leb extra_data_end (length image))
      update_at image ctx extra_data_start (extra_data_end - extra_data_start))
    else parsed ctx

-- The hashing, once the fields of the headers are read.
unfoldable pub hash_image : Bytes → ℕ → ℕ → ℕ → List SectionRange → ℕ → Parsed Bytes
unfolding update_at hash_sections hash_rest
hash_image image checksum_offset security_dir_entry_offset size_of_headers ranges extra_data_end =
    do
      ctx ← update_at image Sha256.reset 0 checksum_offset
      ctx ←
          update_at image ctx (checksum_offset + 4)
            (security_dir_entry_offset - (checksum_offset + 4))
      ctx ←
          update_at image ctx (security_dir_entry_offset + 8)
            (size_of_headers - (security_dir_entry_offset + 8))
      (ctx, extra_data_start) ← hash_sections image (sort ranges) ctx size_of_headers
      ctx ← hash_rest image ctx extra_data_start extra_data_end
      parsed (Sha256.finalize ctx)

unfoldable pub compute_authenticode_pe_hash_sha256 : Bytes → Parsed Bytes
unfolding headers sections hash_image
compute_authenticode_pe_hash_sha256 image = do
  h ← headers image
  number_of_sections ← read_u16 image (h.file_header_offset + 2)
  let opt_header_offset = h.file_header_offset + 20
  let checksum_offset = opt_header_offset + 64
  guard (fits (length image) checksum_offset 4)
  guard (fits (length image) (opt_header_offset + 60) 4)
  size_of_headers ← read_u32 image (opt_header_offset + 60)
  guard (fits (length image) 0 size_of_headers)
  guard (leb (checksum_offset + 4) size_of_headers)
  let security_dir_entry_offset = opt_header_offset + h.data_dir_base + 32
  guard (fits (length image) security_dir_entry_offset 8)
  guard (leb (security_dir_entry_offset + 8) size_of_headers)
  cert_table_offset ← read_u32 image security_dir_entry_offset
  cert_table_size ← read_u32 image (security_dir_entry_offset + 4)
  guard ((cert_table_size == 0) || fits (length image) cert_table_offset cert_table_size)
  let section_table_offset = opt_header_offset + h.size_of_optional_header
  guard (fits (length image) section_table_offset (number_of_sections * 40))
  guard (leb (section_table_offset + number_of_sections * 40) size_of_headers)
  ranges ← sections image number_of_sections section_table_offset
  hash_image image checksum_offset security_dir_entry_offset size_of_headers ranges
      (if cert_table_size == 0 then length image else cert_table_offset)

unfoldable pub extract_authenticode_signature : Bytes → Parsed Bytes
unfolding headers
extract_authenticode_signature image = do
  h ← headers image
  let security_dir_entry_offset = h.file_header_offset + 20 + h.data_dir_base + 32
  guard (fits (length image) security_dir_entry_offset 8)
  cert_table_offset ← read_u32 image security_dir_entry_offset
  cert_table_size ← read_u32 image (security_dir_entry_offset + 4)
  guard (not (cert_table_size == 0))
  guard (leb 8 cert_table_size)
  guard (fits (length image) cert_table_offset cert_table_size)
  wc_length ← read_u32 image cert_table_offset
  wc_cert_type ← read_u16 image ((cert_table_offset + 6) % 2 ^ 32)
  guard (wc_cert_type == 2)
  guard (not (ltb wc_length 8 || ltb cert_table_size wc_length))
  let pkcs7_offset = (cert_table_offset + 8) % 2 ^ 32
  guard (fits (length image) pkcs7_offset (wc_length - 8))
  copy image pkcs7_offset (wc_length - 8)
