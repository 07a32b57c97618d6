-- ===== src/Hash/Sha256/Correct.antt =====
-- The digest of include/gcad/common.hpp's SHA256 against the padding of FIPS 180-4.
use gcad.Base.{
  ℕ, zero, suc, ◌<◌, ◌≡◌, refl, sym, ap, ◌∙◌, if_cases, ltb, leb, length, length-drop, take, drop,
  List, [], ◌∷◌, ◌++◌, some, arith,
}
use gcad.Base.Bytes.{Bytes}
use gcad.Hash.{hex, Context}
use gcad.Hash.Blocks.{
  fold_blocks, IsPadded, HasTaken, update-HasTaken, update-append, finalize-HasTaken,
}
use gcad.Hash.Sha256.{
  transform, initial, reset, update, length_field, digest_bytes, finalize, hash_bytes, hash_file,
  read_loop, buffer_size, Words,
}

reset-HasTaken : HasTaken transform 64 initial [] reset
reset-HasTaken = record {
  blocks = [];
  sized = tt;
  split = refl;
  short = omega arith;
  folded = refl;
  counted = refl;
}

-- The digest of a message of any length is the compression function folded over whole blocks of 64
-- bytes, which are the message, the byte 0x80, fewer than 64 zeros, and the message's length in bits cut
-- at 2 ^ 64; `hash_bytes` is its hexadecimal form.
pub hash_bytes-IsPadded :
    (message : Bytes)
    → (blocks : List Bytes) × IsPadded 64 length_field message blocks
      × (finalize (update reset message) ≡ digest_bytes (fold_blocks transform initial blocks))
      × (hash_bytes message ≡ hex (digest_bytes (fold_blocks transform initial blocks)))
unfolding hash_bytes update finalize
hash_bytes-IsPadded message =
    let made =
      finalize-HasTaken transform 64 56 length_field (omega arith) (λ n. refl) initial message _
        (update-HasTaken transform 64 initial [] reset message reset-HasTaken) in
    (made.0, made.1, ap digest_bytes made.2, ap (λ s. hex (digest_bytes s)) made.2)

updated : (c : Context Words) (xs ys : Bytes) → update c (xs ++ ys) ≡ update (update c xs) ys
unfolding update
updated c xs ys = update-append transform 64 c xs ys

take-drop : (n : ℕ) (xs : Bytes) → take n xs ++ drop n xs ≡ xs
take-drop zero xs = refl
take-drop (suc n) [] = refl
take-drop (suc n) (x ∷ xs) = ap (λ l. x ∷ l) (take-drop n xs)

update_empty : (c : Context Words) (left : Bytes) → length left ≡ 0 → update c left ≡ c
unfolding update gcad.Hash.update
update_empty c [] h = refl
update_empty c (b ∷ left) h = absurd (omega (arith, h))

-- The reads, each of a buffer's size but the last, take in every byte that is left, once and in order.
read_loop_lem :
    (fuel : ℕ) (left : Bytes) (c : Context Words)
    → length left < fuel
    → read_loop fuel left c ≡ update c left
unfolding read_loop
read_loop_lem zero left c h = absurd (omega (arith, h))
read_loop_lem (suc fuel) left c h =
    if_cases (λ r. r ≡ update c left) (leb buffer_size (length left))
      (λ t.
        read_loop_lem fuel (drop buffer_size left) (update c (take buffer_size left))
          (ground (arith, t, h, length-drop buffer_size left))
        ∙ sym (updated c (take buffer_size left) (drop buffer_size left))
        ∙ ap (update c) (take-drop buffer_size left))
      (λ _.
        if_cases (λ r. r ≡ update c left) (ltb 0 (length left)) (λ _. refl)
          (λ t. sym (update_empty c left (ground (arith, t)))))

-- Reading a file of any size by the buffer gives the hash of its bytes: `hash_file` is `hash_bytes` of them.
pub hash_file-hash_bytes : (bytes : Bytes) → hash_file (some bytes) ≡ hash_bytes bytes
unfolding hash_file hash_bytes
hash_file-hash_bytes bytes =
    ap (λ c. hex (finalize c)) (read_loop_lem (suc (length bytes)) bytes reset (omega arith))
