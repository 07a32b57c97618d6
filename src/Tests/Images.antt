-- ===== src/Tests/Images.antt =====
-- A PE32 image with a section of four bytes, a certificate table with a signature of four bytes, and a
-- byte behind it.
use gcad.Base.{replicate, ◌++◌, ◌∷◌, [], ◌≡◌, refl}
use gcad.Security.Reading.{parsed}
use gcad.Base.Bytes.{Bytes}
use gcad.Security.Reading.Safe.{Within}
use gcad.Security.PeHash.{compute_authenticode_pe_hash_sha256, extract_authenticode_signature}
use gcad.Security.PeHash.Hashed.{IsHashOf, compute-IsHashOf}
use gcad.Security.PeHash.Signature.{IsContents, extract_authenticode_signature-IsContents}

abbrev pub image : Bytes
image =
    (77 ∷ 90 ∷ [])
    ++ (replicate 58 0
        ++ ((64 ∷ 0 ∷ 0 ∷ 0 ∷ 80 ∷ 69 ∷ [])
            ++ (replicate 4 0
                ++ ((1 ∷ [])
                    ++ (replicate 13 0
                        ++ ((224 ∷ 0 ∷ 0 ∷ 0 ∷ 11 ∷ 1 ∷ [])
                            ++ (replicate 58 0
                                ++ ((104 ∷ 1 ∷ 0 ∷ 0 ∷ 221 ∷ 204 ∷ 187 ∷ 170 ∷ [])
                                    ++ (replicate 60 0
                                        ++ ((108 ∷ 1 ∷ 0 ∷ 0 ∷ 12 ∷ [])
                                            ++ (replicate 107 0
                                                ++ ((4 ∷ 0 ∷ 0 ∷ 0 ∷ 104 ∷ 1 ∷ [])
                                                    ++ (replicate 26 0
                                                        ++ ((1 ∷ 2 ∷ 3 ∷ 4 ∷ 12 ∷ [])
                                                            ++ (replicate 5 0
                                                            ++ ((2 ∷ 0 ∷ 9 ∷ 8 ∷ 7 ∷ 6 ∷ 5
                                                            ∷ [])))))))))))))))))

-- The byte behind the certificate table is not hashed.
hash_test :
    compute_authenticode_pe_hash_sha256 image
    ≡ parsed (
        15 ∷ 188 ∷ 189 ∷ 98 ∷ 221 ∷ 27 ∷ 145 ∷ 152 ∷ 83 ∷ 168 ∷ 85 ∷ 55 ∷ 141 ∷ 24 ∷ 211 ∷ 205 ∷ 192
        ∷ 116 ∷ 169 ∷ 103 ∷ 208 ∷ 62 ∷ 121 ∷ 52 ∷ 200 ∷ 155 ∷ 135 ∷ 87 ∷ 179 ∷ 33 ∷ 1 ∷ 183 ∷ [])
unfolding compute_authenticode_pe_hash_sha256 gcad.Security.Reading.read gcad.Security.PeHash.fits
    gcad.Security.Reading.copy gcad.Security.PeHash.sort gcad.Hash.Sha256.finalize
    gcad.Hash.finalize gcad.Hash.Sha256.update gcad.Hash.update gcad.Hash.Sha256.transform
hash_test = refl

signature_test : extract_authenticode_signature image ≡ parsed (9 ∷ 8 ∷ 7 ∷ 6 ∷ [])
unfolding extract_authenticode_signature gcad.Security.Reading.read gcad.Security.PeHash.fits
    gcad.Security.Reading.copy
signature_test = refl

compute-IsHashOf_example : Within (IsHashOf image) (compute_authenticode_pe_hash_sha256 image)
compute-IsHashOf_example = compute-IsHashOf image

extract_authenticode_signature-IsContents_example :
    Within (IsContents image) (extract_authenticode_signature image)
extract_authenticode_signature-IsContents_example = extract_authenticode_signature-IsContents image
