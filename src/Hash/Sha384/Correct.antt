-- ===== src/Hash/Sha384/Correct.antt =====
-- The digest of include/gcad/common.hpp's SHA384 against the padding of FIPS 180-4.
use gcad.Base.{◌≡◌, refl, ap, List, [], arith}
use gcad.Base.Bytes.{Bytes}
use gcad.Hash.{hex}
use gcad.Hash.Blocks.{fold_blocks, IsPadded, HasTaken, update-HasTaken, finalize-HasTaken}
use gcad.Hash.Sha384.{
  transform, initial, reset, update, length_field, digest_bytes, finalize, hash_bytes,
}

reset-HasTaken : HasTaken transform 128 initial [] reset
reset-HasTaken = record {
  blocks = [];
  sized = tt;
  split = refl;
  short = omega arith;
  folded = refl;
  counted = refl;
}

-- The digest of a message of any length is the compression function folded over whole blocks of 128
-- bytes, which are the message, the byte 0x80, fewer than 128 zeros, and the message's length in bits cut
-- at 2 ^ 64; `hash_bytes` is its hexadecimal form.
pub hash_bytes_384-IsPadded :
    (message : Bytes)
    → (blocks : List Bytes) × IsPadded 128 length_field message blocks
      × (finalize (update reset message) ≡ digest_bytes (fold_blocks transform initial blocks))
      × (hash_bytes message ≡ hex (digest_bytes (fold_blocks transform initial blocks)))
unfolding hash_bytes update finalize
hash_bytes_384-IsPadded message =
    let made =
      finalize-HasTaken transform 128 112 length_field (omega arith) (λ n. refl) initial message _
        (update-HasTaken transform 128 initial [] reset message reset-HasTaken) in
    (made.0, made.1, ap digest_bytes made.2, ap (λ s. hex (digest_bytes s)) made.2)
