-- ===== src/Tests/Digests.antt =====
-- The digests of "abc".
use gcad.Base.{◌≡◌, refl, List, some}
use gcad.Base.Bytes.{Bytes, text}
use gcad.Hash.{hex}
use gcad.Hash.Blocks.{IsPadded, fold_blocks}
use gcad.Hash.Sha256
use gcad.Hash.Sha256.Correct.{hash_bytes-IsPadded, hash_file-hash_bytes}
use gcad.Hash.Sha384

abc_256 :
    Sha256.hash_bytes (text "abc")
    ≡ text "ba7816bf8f01cfea414140de5dae2223b00361a396177a9cb410ff61f20015ad"
unfolding Sha256.hash_bytes Sha256.transform gcad.Hash.update gcad.Hash.finalize gcad.Hash.hex
abc_256 = refl

abc_384 :
    Sha384.hash_bytes (text "abc")
    ≡ text
        "cb00753f45a35e8bb5a03d699ac65007272c32ab0eded1631a8b605a43ff5bed8086072ba1e7cc2358baeca134c825a7"
unfolding Sha384.hash_bytes Sha384.transform gcad.Hash.update gcad.Hash.finalize gcad.Hash.hex
abc_384 = refl

hash_bytes-IsPadded_example :
    (blocks : List Bytes) × IsPadded 64 Sha256.length_field (text "abc") blocks
    × (Sha256.finalize (Sha256.update Sha256.reset (text "abc"))
        ≡ Sha256.digest_bytes (fold_blocks Sha256.transform Sha256.initial blocks))
    × (Sha256.hash_bytes (text "abc")
        ≡ hex (Sha256.digest_bytes (fold_blocks Sha256.transform Sha256.initial blocks)))
hash_bytes-IsPadded_example = hash_bytes-IsPadded (text "abc")

hash_file-hash_bytes_example : Sha256.hash_file (some (text "abc")) ≡ Sha256.hash_bytes (text "abc")
hash_file-hash_bytes_example = hash_file-hash_bytes (text "abc")
