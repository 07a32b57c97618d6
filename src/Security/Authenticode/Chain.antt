-- ===== src/Security/Authenticode/Chain.antt =====
-- The walk from a certificate to a root: the links it has checked, and why it ended.
use gcad.Base.{
  ℕ, zero, suc, ◌+◌, ◌<◌, ◌≡◌, ◌≢◌, refl, ap, ◌∙◌, ◌⊎◌, inl, inr, true, false, not, List, [], ◌∷◌,
  Option, none, some, get_elem?, All, if_cases, arith, if◌then◌else◌,
}
use gcad.Base.Bytes.{Bytes, eqb, eqb→eq, eqb-false}
use gcad.Security.X509.{X509Certificate}
use gcad.Security.TrustAnchors.{find_by_subject}
use gcad.Security.Authenticode.{
  AuthenticodeVerdict, is_current, find_issuer, verify_cert_signed_by, walk_chain,
  verify_certificate_chain, max_chain_depth,
}

abbrev pub IsListed : List X509Certificate → X509Certificate → Type 0
IsListed certs cert = (i : ℕ) × (get_elem? certs i ≡ some cert)

-- A root with the subject, or none has it.
abbrev IsAnchorFor : List X509Certificate → Bytes → Option X509Certificate → Type 0
IsAnchorFor roots subject none = All (λ root. root.subject_der ≢ subject) roots
IsAnchorFor roots subject (some anchor) = IsListed roots anchor × (anchor.subject_der ≡ subject)

IsAnchorFor-cons :
    (root : X509Certificate) (roots : List X509Certificate) (subject : Bytes)
    → root.subject_der ≢ subject
    → (r : Option X509Certificate) → IsAnchorFor roots subject r
    → IsAnchorFor (root ∷ roots) subject r
IsAnchorFor-cons root roots subject other none h = (other, h)
IsAnchorFor-cons root roots subject other (some anchor) ((i, at), same) = ((suc i, at), same)

find_by_subject-IsAnchorFor :
    (roots : List X509Certificate) (subject : Bytes)
    → IsAnchorFor roots subject (find_by_subject roots subject)
unfolding find_by_subject
find_by_subject-IsAnchorFor [] subject = tt
find_by_subject-IsAnchorFor (root ∷ roots) subject =
    if_cases (IsAnchorFor (root ∷ roots) subject) (eqb root.subject_der subject) {x = some root}
      {y = find_by_subject roots subject} (λ h. ((0, refl), eqb→eq root.subject_der subject h))
      (λ h.
        IsAnchorFor-cons root roots subject (eqb-false root.subject_der subject h)
          (find_by_subject roots subject) (find_by_subject-IsAnchorFor roots subject))

module _ (current : Option ℕ) (issuer_der : Bytes) where
  -- No candidate but the current certificate has the name, from position i on.
  abbrev pub NoIssuer : ℕ → List X509Certificate → Type 0
  NoIssuer i [] = Unit
  NoIssuer i (candidate ∷ candidates) =
      ((current ≡ some i) ⊎ (candidate.subject_der ≢ issuer_der)) × NoIssuer (suc i) candidates

  abbrev IsIssuer : ℕ → List X509Certificate → Option (ℕ × X509Certificate) → Type 0
  IsIssuer i candidates none = NoIssuer i candidates
  IsIssuer i candidates (some issuer) =
      ((k : ℕ) × (get_elem? candidates k ≡ some issuer.1) × (issuer.0 ≡ i + k))
      × (issuer.1.subject_der ≡ issuer_der)

  IsIssuer-cons :
      (i : ℕ) (candidate : X509Certificate) (candidates : List X509Certificate)
      → (current ≡ some i) ⊎ (candidate.subject_der ≢ issuer_der)
      → (r : Option (ℕ × X509Certificate)) → IsIssuer (suc i) candidates r
      → IsIssuer i (candidate ∷ candidates) r
  IsIssuer-cons i candidate candidates other none h = (other, h)
  IsIssuer-cons i candidate candidates other (some issuer) ((k, at, position), same) =
      ((suc k, at, omega (arith, position)), same)

  is_current-true : (c : Option ℕ) (i : ℕ) → is_current c i ≡ true → c ≡ some i
  is_current-true none i h = absurd (ground (arith, h))
  is_current-true (some j) i h = ap some {x = j} {y = i} (ground (arith, h))

  find_issuer-IsIssuer :
      (i : ℕ) (candidates : List X509Certificate)
      → IsIssuer i candidates (find_issuer current issuer_der i candidates)
  unfolding find_issuer
  find_issuer-IsIssuer i [] = tt
  find_issuer-IsIssuer i (candidate ∷ candidates) =
      if_cases (IsIssuer i (candidate ∷ candidates)) (is_current current i)
        {x = find_issuer current issuer_der (suc i) candidates}
        (λ h.
          IsIssuer-cons i candidate candidates (inl (is_current-true current i h))
            (find_issuer current issuer_der (suc i) candidates)
            (find_issuer-IsIssuer (suc i) candidates))
        (λ _.
          if_cases (IsIssuer i (candidate ∷ candidates)) (eqb candidate.subject_der issuer_der)
            {x = some (i, candidate)} {y = find_issuer current issuer_der (suc i) candidates}
            (λ h. ((0, refl, omega arith), eqb→eq candidate.subject_der issuer_der h))
            (λ h.
              IsIssuer-cons i candidate candidates
                (inr (eqb-false candidate.subject_der issuer_der h))
                (find_issuer current issuer_der (suc i) candidates)
                (find_issuer-IsIssuer (suc i) candidates)))

module _ (roots available : List X509Certificate) (leaf : X509Certificate) where
  -- A certificate reached from the leaf by links that were checked: each certificate's signature
  -- verifies under the key of the next, which is listed and has the issuer's name.
  pub data Reaches : ℕ → X509Certificate → Type 0 where
    here : Reaches 0 leaf
    link :
        {n : ℕ} {cert issuer : X509Certificate}
        → Reaches n cert
        → IsListed available issuer
        → issuer.subject_der ≡ cert.issuer_der
        → verify_cert_signed_by cert issuer ≡ true
        → Reaches (suc n) issuer

  -- Where in the list the certificate stands, if it does.
  abbrev pub IsAt : Option ℕ → X509Certificate → Type 0
  IsAt none cert = Unit
  IsAt (some i) cert = get_elem? available i ≡ some cert

  -- Why the walk ended, after n links.
  abbrev pub EndsIn : AuthenticodeVerdict → ℕ → X509Certificate → Type 0
  EndsIn AuthenticodeVerdict.trusted n last =
      (anchor : X509Certificate) × IsListed roots anchor
      × (anchor.subject_der ≡ last.issuer_der)
      × (verify_cert_signed_by last anchor ≡ true)
      × (n < max_chain_depth)
  EndsIn AuthenticodeVerdict.chain_invalid n last =
      (issuer : X509Certificate) × (IsListed roots issuer ⊎ IsListed available issuer)
      × (issuer.subject_der ≡ last.issuer_der)
      × (verify_cert_signed_by last issuer ≡ false)
      × (n < max_chain_depth)
  EndsIn AuthenticodeVerdict.valid_untrusted_root n last =
      (n ≡ max_chain_depth)
      ⊎ (All (λ root. root.subject_der ≢ last.issuer_der) roots
          × ((at : Option ℕ) × IsAt at last × NoIssuer at last.issuer_der 0 available))
  EndsIn AuthenticodeVerdict.hash_mismatch n last = ⊥
  EndsIn AuthenticodeVerdict.signature_invalid n last = ⊥
  EndsIn AuthenticodeVerdict.malformed n last = ⊥

  abbrev pub IsWalked : AuthenticodeVerdict → Type 0
  IsWalked verdict = (n : ℕ) × (last : X509Certificate) × Reaches n last × EndsIn verdict n last

  -- A turn in which no root has the issuer's name.
  to_issuer :
      (n depth : ℕ) (at : Option ℕ) (cert : X509Certificate)
      → n < max_chain_depth
      → Reaches n cert
      → IsAt at cert
      → All (λ root. root.subject_der ≢ cert.issuer_der) roots
      → (r : Option (ℕ × X509Certificate)) → IsIssuer at cert.issuer_der 0 available r
      → ((issuer : ℕ × X509Certificate)
          → Reaches (suc n) issuer.1
          → IsAt (some issuer.0) issuer.1
          → IsWalked (walk_chain roots available depth (some issuer.0) issuer.1))
      → IsWalked (elim r [
        | none ↦ AuthenticodeVerdict.valid_untrusted_root
        | some issuer ↦
            if not (verify_cert_signed_by cert issuer.1)
            then AuthenticodeVerdict.chain_invalid
            else walk_chain roots available depth (some issuer.0) issuer.1
      ])
  to_issuer n depth at cert below reached stands no_root none h later =
      (n, cert, reached, inr (no_root, (at, stands, h)))
  to_issuer n depth at cert below reached stands no_root (some issuer) ((k, position, index), same)
        later =
      if_cases IsWalked (not (verify_cert_signed_by cert issuer.1))
        {x = AuthenticodeVerdict.chain_invalid}
        (λ h. (n, cert, reached, (issuer.1, inr (k, position), same, ground (arith, h), below)))
        (λ h.
          later issuer (link reached (k, position) same (ground (arith, h)))
            (ap (get_elem? available) {x = issuer.0} {y = k} (omega (arith, index)) ∙ position))

  -- A turn of the walk.
  to_anchor :
      (n : ℕ) (cert : X509Certificate)
      → n < max_chain_depth
      → Reaches n cert
      → (otherwise : AuthenticodeVerdict) → (r : Option X509Certificate)
      → IsAnchorFor roots cert.issuer_der r
      → (All (λ root. root.subject_der ≢ cert.issuer_der) roots → IsWalked otherwise)
      → IsWalked (elim r [
        | some anchor ↦
            if verify_cert_signed_by cert anchor
            then AuthenticodeVerdict.trusted
            else AuthenticodeVerdict.chain_invalid
        | none ↦ otherwise
      ])
  to_anchor n cert below reached otherwise none h k = k h
  to_anchor n cert below reached otherwise (some anchor) (listed, same) k =
      if_cases IsWalked (verify_cert_signed_by cert anchor) {x = AuthenticodeVerdict.trusted}
        {y = AuthenticodeVerdict.chain_invalid}
        (λ h. (n, cert, reached, (anchor, listed, same, h, below)))
        (λ h. (n, cert, reached, (anchor, inl listed, same, h, below)))

  walk_chain-IsWalked :
      (depth n : ℕ) (at : Option ℕ) (cert : X509Certificate)
      → n + depth ≡ max_chain_depth
      → Reaches n cert
      → IsAt at cert
      → IsWalked (walk_chain roots available depth at cert)
  unfolding walk_chain
  walk_chain-IsWalked zero n at cert sum reached stands =
      (n, cert, reached, inl (omega (arith, sum)))
  walk_chain-IsWalked (suc depth) n at cert sum reached stands =
      to_anchor n cert (omega (arith, sum)) reached _ (find_by_subject roots cert.issuer_der)
        (find_by_subject-IsAnchorFor roots cert.issuer_der)
        (λ no_root.
          to_issuer n depth at cert (omega (arith, sum)) reached stands no_root
            (find_issuer at cert.issuer_der 0 available)
            (find_issuer-IsIssuer at cert.issuer_der 0 available)
            (λ issuer further there.
              walk_chain-IsWalked depth (suc n) (some issuer.0) issuer.1 (omega (arith, sum))
                further there))

  -- For every verdict of `verify_certificate_chain` on a leaf at its position in the list, if any, there are a certificate and links of the chain from
  -- the leaf to it, whose signatures all verify, each under the listed certificate that has the issuer's
  -- name. Where the verdict is TRUSTED, a root has its issuer's name and verifies its signature, behind
  -- fewer than six links; where it is CHAIN_INVALID, its signature fails under a root or a listed
  -- certificate of that name; where it is VALID_UNTRUSTED_ROOT, there are six links, or no root and, but
  -- for the certificate itself, no listed one has that name; and there is no other verdict.
  pub verify_certificate_chain-IsWalked :
      (at : Option ℕ) → IsAt at leaf → IsWalked (verify_certificate_chain roots available at leaf)
  unfolding verify_certificate_chain
  verify_certificate_chain-IsWalked at stands =
      walk_chain-IsWalked max_chain_depth 0 at leaf refl here stands
