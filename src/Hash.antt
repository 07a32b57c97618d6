-- ===== src/Hash.antt =====
-- include/gcad/common.hpp, the classes SHA256 and SHA384: what they share, a context that takes bytes
-- one by one and hands every full block to `transform`. The buffer is the list of the bytes written
-- since it was last empty, so that `buflen_` is its length; what stands behind it is never read.
pub mod Blocks
pub mod Sha256
pub mod Sha384
use gcad.Base.{
  ℕ, ◌+◌, ◌-◌, ◌*◌, ◌/◌, ◌%◌, ◌^◌, List, [], ◌∷◌, ◌++◌, Option, none, some, if◌then◌else◌, ltb,
  ◌==◌, length, replicate,
}
use gcad.Base.Bytes.{Bytes}
use Prim.Native.Nat.{bit_and}

pub record Context (S : Type 0) : Type 0 where
  pub state : S
  pub buffer : Bytes
  pub bitcount : ℕ

-- The body of the loop of `update`, for a block of `block` bytes.
unfoldable pub push_byte : {S : Type 0} → (S → Bytes → S) → ℕ → Context S → ℕ → Context S
push_byte transform block c b =
    let buffer = c.buffer ++ (b ∷ []) in
    if length buffer == block
    then record {
      state = transform c.state buffer;
      buffer = [];
      bitcount = (c.bitcount + block * 8) % 2 ^ 64;
    }
    else record c { buffer = buffer }

unfoldable pub update : {S : Type 0} → (S → Bytes → S) → ℕ → Context S → Bytes → Context S
unfolding push_byte
update transform block c [] = c
update transform block c (b ∷ bs) = update transform block (push_byte transform block c b) bs

-- `while (buflen_ < n) buffer_[buflen_++] = 0;`
unfoldable pub fill : ℕ → Bytes → Bytes
fill n buffer = buffer ++ replicate (n - length buffer) 0

-- The last block, once the 0x80 is written and there is room for the length.
unfoldable pub last_block : {S : Type 0} → (S → Bytes → S) → ℕ → S → Bytes → Bytes → S
unfolding fill
last_block transform pad_to state buffer field = transform state (fill pad_to buffer ++ field)

-- `finalize` up to the state from which the digest is read: the zeros go up to `pad_to`, where the field
-- with the length in bits follows.
unfoldable pub finalize : {S : Type 0} → (S → Bytes → S) → ℕ → ℕ → (ℕ → Bytes) → Context S → S
unfolding fill last_block
finalize transform block pad_to field c =
    let bits = (c.bitcount + length c.buffer * 8) % 2 ^ 64 in
    let buffer = c.buffer ++ (0x80 ∷ []) in
    if ltb pad_to (length buffer)
    then last_block transform pad_to (transform c.state (fill block buffer)) [] (field bits)
    else last_block transform pad_to c.state buffer (field bits)

-- The eight bytes of a uint64_t, the most significant first.
abbrev pub big_endian_64 : ℕ → Bytes
big_endian_64 n =
    (n / 2 ^ 56 % 2 ^ 8)
    ∷ (n / 2 ^ 48 % 2 ^ 8)
    ∷ (n / 2 ^ 40 % 2 ^ 8)
    ∷ (n / 2 ^ 32 % 2 ^ 8)
    ∷ (n / 2 ^ 24 % 2 ^ 8)
    ∷ (n / 2 ^ 16 % 2 ^ 8)
    ∷ (n / 2 ^ 8 % 2 ^ 8)
    ∷ (n % 2 ^ 8)
    ∷ []

-- The digit "0123456789abcdef"[d].
abbrev pub hex_digit : ℕ → ℕ
hex_digit d = if ltb d 10 then b'0' + d else b'a' + (d - 10)

unfoldable pub hex : Bytes → Bytes
hex [] = []
hex (b ∷ bs) = hex_digit (b / 2 ^ 4) ∷ (hex_digit (bit_and b 0xf) ∷ hex bs)
