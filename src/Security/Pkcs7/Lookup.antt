-- ===== src/Security/Pkcs7/Lookup.antt =====
-- The search for the certificate of a signer.
use gcad.Base.{
  ℕ, suc, ◌+◌, ◌≡◌, refl, subst, Bool, true, false, List, [], ◌∷◌, Option, none, some, get_elem?,
  All, if_cases, arith, take,
}
use gcad.Security.X509.{X509Certificate}
use gcad.Security.Pkcs7.{
  SignerInfo, SignedData, is_issued_as, find_certificate, find_signer_certificate,
}

-- The first match and its position, or no match.
abbrev pub IsFirstMatch :
    (X509Certificate → Bool) → List X509Certificate → Option (ℕ × X509Certificate) → Type 0
IsFirstMatch test certs none = All (λ cert. test cert ≡ false) certs
IsFirstMatch test certs (some (i, cert)) =
    (get_elem? certs i ≡ some cert)
    × (test cert ≡ true)
    × All (λ earlier. test earlier ≡ false) (take i certs)

module _ (test : X509Certificate → Bool) where
  behind :
      (cert : X509Certificate) (certs : List X509Certificate)
      → test cert ≡ false
      → (r : Option (ℕ × X509Certificate)) → IsFirstMatch test certs r
      → IsFirstMatch test
          (cert ∷ certs)
          (elim r [ none ↦ none | some found ↦ some (found.0 + 1, found.1) ])
  behind cert certs h none k = (h, k)
  behind cert certs h (some (i, found)) (at, passes, earlier) =
      subst (λ n. IsFirstMatch test (cert ∷ certs) (some (n, found))) {x = suc i} (omega arith)
        (at, passes, (h, earlier))

  find_certificate-IsFirstMatch :
      (certs : List X509Certificate) → IsFirstMatch test certs (find_certificate test certs)
  unfolding find_certificate
  find_certificate-IsFirstMatch [] = tt
  find_certificate-IsFirstMatch (cert ∷ certs) =
      if_cases (IsFirstMatch test (cert ∷ certs)) (test cert) {x = some (0, cert)}
        (λ h. (refl, h, tt))
        (λ h.
          behind cert certs h (find_certificate test certs) (find_certificate-IsFirstMatch certs))

-- `find_signer_certificate` returns the first certificate of the blob with the signer's issuer and
-- serial number, at its position; and none exactly where none has both.
pub find_signer_certificate-IsFirstMatch :
    (data_ : SignedData) (signer : SignerInfo)
    → IsFirstMatch (is_issued_as signer) data_.certificates (find_signer_certificate data_ signer)
unfolding find_signer_certificate
find_signer_certificate-IsFirstMatch data_ signer =
    find_certificate-IsFirstMatch (is_issued_as signer) data_.certificates
