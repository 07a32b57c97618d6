-- ===== src/Security/Authenticode/Genuine.antt =====
-- What a verdict of the check of a signature rests on.
use gcad.Base.{
  ℕ, ◌+◌, ◌≡◌, ◌≢◌, refl, subst, sym, Bool, true, false, not, List, [], ◌∷◌, Option, none, some,
  length, get_elem?, All, if_cases, arith, ◌==◌,
}
use gcad.Base.Bytes.{Bytes, eqb, eqb→eq, eqb-false}
use gcad.Security.Reading.{Parsed, fault, rejected, parsed}
use gcad.Security.Reading.Safe.{
  Within, and_then-Within, and_then-known, guard-Within, Within-mono, NoFault, then-NoFault,
  guard-NoFault,
}
use gcad.Security.Asn1.{Element, is_universal, object_identifier_tag, parse_sequence_children}
use gcad.Security.Asn1.Siblings.{Tiles, parse_sequence_children-Tiles}
use gcad.Security.Rsa.{RsaPublicKey, verify_pkcs1v15_sha256}
use gcad.Security.X509.{X509Certificate, sequence_tag}
use gcad.Security.X509.Regions.{Lies, Tiles-Lies, IsSlice, oid_to_string-NoFault}
use gcad.Security.X509.Parts.{children-Lies, Lies-Fits}
use gcad.Security.PeHash.{compute_authenticode_pe_hash_sha256}
use gcad.Security.PeHash.Hashed.{IsHashOf, compute-IsHashOf}
use gcad.Security.Pkcs7.{
  SignerInfo, SignedData, octet_string_tag, is_issued_as, find_signer_certificate,
}
use gcad.Security.Pkcs7.Encode.{der_encode_set}
use gcad.Security.Pkcs7.Parse
use gcad.Security.Pkcs7.Regions.{content-IsSlice}
use gcad.Security.Pkcs7.Inside.{IsSignedIn, parse-IsSignedIn}
use gcad.Security.Pkcs7.Lookup.{IsFirstMatch, find_signer_certificate-IsFirstMatch}
use gcad.Security.TrustAnchors.{trusted_root_certificates}
use gcad.Security.TrustAnchors.Anchors.{trusted-GiveRoots}
use gcad.Security.Authenticode.{
  AuthenticodeVerdict, AuthenticodeResult, sha256, sha256_digest_oid, guard_sha256, digest_of,
  digest_info_of, extract_spc_pe_hash, or_return, empty_result, named_result, digest_agrees,
  check_image, check_signer, check_leaf, check_signed_data, verify_with_roots, verify_authenticode,
}
use gcad.Security.Authenticode.Chain.{IsWalked, verify_certificate_chain-IsWalked}

-- The claimed hash is read inside the content.
module _ (octets : Bytes) where
  abbrev LiesIn : Element → Type 0
  LiesIn = Lies 0 (length octets)

  abbrev IsPart : Bytes → Type 0
  IsPart = IsSlice octets 0 (length octets)

  guard_sha256-NoFault : (es : List Element) → All LiesIn es → NoFault (guard_sha256 octets es)
  unfolding guard_sha256
  guard_sha256-NoFault [] h = tt
  guard_sha256-NoFault (e ∷ es) h =
      guard-Within (λ _. Unit) (is_universal object_identifier_tag e) _
        (λ _.
          then-NoFault _ _
            (oid_to_string-NoFault octets e
              (Lies-Fits octets 0 (length octets) (omega arith) e h.0))
            (λ name. guard-NoFault (eqb name sha256_digest_oid)))

  digest_of-IsPart : (es : List Element) → All LiesIn es → Within IsPart (digest_of octets es)
  unfolding digest_of
  digest_of-IsPart [] h = tt
  digest_of-IsPart (a ∷ []) h = tt
  digest_of-IsPart (a ∷ (b ∷ (c ∷ es))) h = tt
  digest_of-IsPart (a ∷ (b ∷ [])) (l, (k, _)) =
      guard-Within IsPart (is_universal sequence_tag a) _ (λ _.
        guard-Within IsPart (is_universal octet_string_tag b) _ (λ _.
          and_then-Within (All LiesIn) IsPart _ _
            (children-Lies octets 0 (length octets) (omega arith) a l)
            (λ parts all.
              and_then-Within (λ _. Unit) IsPart _ _ (guard_sha256-NoFault parts all)
                (λ _ _.
                  guard-Within IsPart (b.content_length == 32) _
                    (λ _. content-IsSlice octets 0 (length octets) (omega arith) b k)))))

  digest_info_of-IsPart :
      (es : List Element) → All LiesIn es → Within IsPart (digest_info_of octets es)
  unfolding digest_info_of
  digest_info_of-IsPart [] h = tt
  digest_info_of-IsPart (a ∷ []) h = tt
  digest_info_of-IsPart (a ∷ (b ∷ (c ∷ es))) h = tt
  digest_info_of-IsPart (a ∷ (b ∷ [])) (_, (k, _)) =
      guard-Within IsPart (is_universal sequence_tag b) _ (λ _.
        and_then-Within (All LiesIn) IsPart _ _
          (children-Lies octets 0 (length octets) (omega arith) b k) digest_of-IsPart)

  extract_spc_pe_hash-IsPart : Within IsPart (extract_spc_pe_hash octets)
  unfolding extract_spc_pe_hash
  extract_spc_pe_hash-IsPart =
      and_then-Within (All LiesIn) IsPart _ _
        (Within-mono (Tiles octets (0 + length octets) 0) (All LiesIn)
          (λ es tiles.
            Tiles-Lies octets (length octets) 0 0 es (omega arith)
              (subst (λ n. Tiles octets n 0 es) {x = 0 + length octets} (omega arith) tiles))
          (parse_sequence_children (some octets) 0 (length octets))
          (parse_sequence_children-Tiles octets 0 (length octets) (omega arith)))
        digest_info_of-IsPart

module _ {ℓ κ} {A : Type ℓ} {B : Type κ} (P : A → Type 0) (Q : B → Type 0) where
  or_return-Within :
      (r : Parsed A) (result : B) (k : A → Parsed B)
      → Within P r
      → Q result
      → ((a : A) → r ≡ parsed a → P a → Within Q (k a))
      → Within Q (or_return r result k)
  or_return-Within fault result k h q f = h
  or_return-Within rejected result k h q f = q
  or_return-Within (parsed a) result k h q f = f a refl h

-- The signer of a blob, and its certificate there.
pub record IsSignedBy (pkcs7_der : Bytes) (sd : SignedData) (leaf : X509Certificate) : Type 0 where
  pub blob : Parse.parse pkcs7_der ≡ parsed sd
  pub inside : IsSignedIn pkcs7_der sd
  pub signer : SignerInfo
  pub first : (rest : List SignerInfo) × (sd.signer_infos ≡ signer ∷ rest)
  pub position : ℕ
  pub listed : get_elem? sd.certificates position ≡ some leaf
  pub issued : is_issued_as signer leaf ≡ true
  pub key : RsaPublicKey
  pub has_key : leaf.rsa_public_key ≡ some key
  pub digest_algorithm : signer.digest_algorithm_oid ≡ sha256_digest_oid

-- The signer's signature over its attributes, under its certificate's key.
abbrev pub holds :
    {der : Bytes} {sd : SignedData} {leaf : X509Certificate} → IsSignedBy der sd leaf → Bool
holds s =
    verify_pkcs1v15_sha256 s.signer.signature s.key
      (sha256 (der_encode_set s.signer.signed_attrs_content))

-- The signature holds, the content is the one digested, and it claims a hash; the image has a hash.
pub record IsClaimed (pe_bytes pkcs7_der : Bytes) (sd : SignedData) (leaf : X509Certificate)
    : Type 0 where
  pub signed : IsSignedBy pkcs7_der sd leaf
  pub signature_holds : holds signed ≡ true
  pub digested : digest_agrees sd.content signed.signer.message_digest ≡ true
  pub claimed : Bytes
  pub claim : extract_spc_pe_hash sd.content ≡ parsed claimed
  pub actual : Bytes
  pub computed : compute_authenticode_pe_hash_sha256 pe_bytes ≡ parsed actual
  pub hashed : IsHashOf pe_bytes actual

module _ (roots : List X509Certificate) (pe_bytes pkcs7_der : Bytes) where
  -- The image has the hash that is claimed, and the chain of the signer's certificate gives the verdict.
  abbrev pub IsGenuine : AuthenticodeVerdict → Type 0
  IsGenuine verdict =
      (sd : SignedData) × (leaf : X509Certificate) × (c : IsClaimed pe_bytes pkcs7_der sd leaf)
      × (c.claimed ≡ c.actual)
      × IsWalked roots sd.certificates leaf verdict

  abbrev pub IsJustified : AuthenticodeVerdict → Type 0
  IsJustified AuthenticodeVerdict.malformed = Unit
  IsJustified AuthenticodeVerdict.signature_invalid =
      (sd : SignedData) × (leaf : X509Certificate) × (s : IsSignedBy pkcs7_der sd leaf) × (holds s
        ≡ false)
  IsJustified AuthenticodeVerdict.hash_mismatch =
      (sd : SignedData) × (leaf : X509Certificate) × (c : IsClaimed pe_bytes pkcs7_der sd leaf)
      × (c.claimed ≢ c.actual)
  IsJustified AuthenticodeVerdict.trusted = IsGenuine AuthenticodeVerdict.trusted
  IsJustified AuthenticodeVerdict.valid_untrusted_root =
      IsGenuine AuthenticodeVerdict.valid_untrusted_root
  IsJustified AuthenticodeVerdict.chain_invalid = IsGenuine AuthenticodeVerdict.chain_invalid

  abbrev Q : AuthenticodeResult → Type 0
  Q result = IsJustified result.verdict

  walked :
      (sd : SignedData) (leaf : X509Certificate) (c : IsClaimed pe_bytes pkcs7_der sd leaf)
      → c.claimed ≡ c.actual
      → (verdict : AuthenticodeVerdict) → IsWalked roots sd.certificates leaf verdict
      → IsJustified verdict
  walked sd leaf c same AuthenticodeVerdict.trusted w = (sd, leaf, c, same, w)
  walked sd leaf c same AuthenticodeVerdict.valid_untrusted_root w = (sd, leaf, c, same, w)
  walked sd leaf c same AuthenticodeVerdict.chain_invalid w = (sd, leaf, c, same, w)
  walked sd leaf c same AuthenticodeVerdict.hash_mismatch (n, last, r, e) = absurd e
  walked sd leaf c same AuthenticodeVerdict.signature_invalid (n, last, r, e) = absurd e
  walked sd leaf c same AuthenticodeVerdict.malformed (n, last, r, e) = tt

  check_image-IsJustified :
      (sd : SignedData) (leaf : X509Certificate) (s : IsSignedBy pkcs7_der sd leaf)
      → holds s ≡ true
      → digest_agrees sd.content s.signer.message_digest ≡ true
      → Within Q (check_image roots pe_bytes sd s.position leaf)
  unfolding check_image
  check_image-IsJustified sd leaf s valid digested =
      or_return-Within (IsSlice sd.content 0 (length sd.content)) Q (extract_spc_pe_hash sd.content)
        _ _ (extract_spc_pe_hash-IsPart sd.content) tt
        (λ claimed claim _.
          or_return-Within (IsHashOf pe_bytes) Q (compute_authenticode_pe_hash_sha256 pe_bytes) _ _
            (compute-IsHashOf pe_bytes) tt
            (λ actual computed hashed.
              let c : IsClaimed pe_bytes pkcs7_der sd leaf = record {
                signed = s;
                signature_holds = valid;
                digested = digested;
                claimed = claimed;
                claim = claim;
                actual = actual;
                computed = computed;
                hashed = hashed;
              } in
              if_cases (Within Q) (not (eqb claimed actual))
                {x = parsed (named_result AuthenticodeVerdict.hash_mismatch leaf)}
                (λ h. (sd, leaf, c, eqb-false claimed actual (ground (arith, h))))
                (λ h. walked sd leaf c (eqb→eq claimed actual (ground (arith, h))) _ (
                  verify_certificate_chain-IsWalked roots sd.certificates leaf (some s.position)
                    s.listed))))

  check_signer-IsJustified :
      (sd : SignedData) (signer : SignerInfo) (rest : List SignerInfo) (at : ℕ)
      (leaf : X509Certificate) (key : RsaPublicKey)
      → Parse.parse pkcs7_der ≡ parsed sd
      → IsSignedIn pkcs7_der sd
      → sd.signer_infos ≡ signer ∷ rest
      → get_elem? sd.certificates at ≡ some leaf
      → is_issued_as signer leaf ≡ true
      → leaf.rsa_public_key ≡ some key
      → Within Q (check_signer roots pe_bytes sd signer at leaf key)
  unfolding check_signer
  check_signer-IsJustified sd signer rest at leaf key blob inside first listed issued has_key =
      if_cases (Within Q) (not (eqb signer.digest_algorithm_oid sha256_digest_oid))
        {x = parsed (named_result AuthenticodeVerdict.malformed leaf)} (λ _. tt)
        (λ algorithm.
          let s : IsSignedBy pkcs7_der sd leaf = record {
            blob = blob;
            inside = inside;
            signer = signer;
            first = (rest, first);
            position = at;
            listed = listed;
            issued = issued;
            key = key;
            has_key = has_key;
            digest_algorithm =
                eqb→eq signer.digest_algorithm_oid sha256_digest_oid (ground (arith, algorithm));
          } in
          if_cases (Within Q)
            (not (
              verify_pkcs1v15_sha256 signer.signature key
                (sha256 (der_encode_set signer.signed_attrs_content))))
            {x = parsed (named_result AuthenticodeVerdict.signature_invalid leaf)}
            (λ h. (sd, leaf, s, ground (arith, h)))
            (λ h.
              if_cases (Within Q) (not (digest_agrees sd.content signer.message_digest))
                {x = parsed (named_result AuthenticodeVerdict.malformed leaf)} (λ _. tt)
                (λ k. check_image-IsJustified sd leaf s (ground (arith, h)) (ground (arith, k)))))

  check_leaf-IsJustified :
      (sd : SignedData) (signer : SignerInfo) (rest : List SignerInfo)
      → Parse.parse pkcs7_der ≡ parsed sd
      → IsSignedIn pkcs7_der sd
      → sd.signer_infos ≡ signer ∷ rest
      → (found : Option (ℕ × X509Certificate))
      → IsFirstMatch (is_issued_as signer) sd.certificates found
      → Within Q (check_leaf roots pe_bytes sd signer found)
  unfolding check_leaf
  check_leaf-IsJustified sd signer rest blob inside first none h = tt
  check_leaf-IsJustified sd signer rest blob inside first (some (at, leaf)) (listed, issued, _) =
      with_key leaf.rsa_public_key refl
    where
      with_key :
          (k : Option RsaPublicKey)
          → leaf.rsa_public_key ≡ k
          → Within Q (elim k [
            | none ↦ parsed empty_result
            | some key ↦ check_signer roots pe_bytes sd signer at leaf key
          ])
      with_key none e = tt
      with_key (some key) e =
          check_signer-IsJustified sd signer rest at leaf key blob inside first listed issued e

  check_signed_data-IsJustified :
      (sd : SignedData)
      → Parse.parse pkcs7_der ≡ parsed sd
      → IsSignedIn pkcs7_der sd
      → (signers : List SignerInfo) → sd.signer_infos ≡ signers
      → Within Q (check_signed_data roots pe_bytes sd signers)
  unfolding check_signed_data
  check_signed_data-IsJustified sd blob inside [] e = tt
  check_signed_data-IsJustified sd blob inside (signer ∷ rest) e =
      check_leaf-IsJustified sd signer rest blob inside e (find_signer_certificate sd signer)
        (find_signer_certificate-IsFirstMatch sd signer)

  verify_with_roots-IsJustified : Within Q (verify_with_roots roots pe_bytes pkcs7_der)
  unfolding verify_with_roots
  verify_with_roots-IsJustified =
      or_return-Within (IsSignedIn pkcs7_der) Q (Parse.parse pkcs7_der) empty_result _
        (parse-IsSignedIn pkcs7_der) tt
        (λ sd blob inside. check_signed_data-IsJustified sd blob inside sd.signer_infos refl)

-- A verdict with the compiled-in roots.
abbrev pub IsVerdict : Bytes → Bytes → AuthenticodeResult → Type 0
IsVerdict pe_bytes pkcs7_der result =
    (roots : List X509Certificate) × (trusted_root_certificates ≡ parsed roots)
    × IsJustified roots pe_bytes pkcs7_der result.verdict

-- On any two byte strings `verify_authenticode` reads nothing outside them, and each verdict rests on
-- what it says. For SIGNATURE_INVALID the blob parses, a listed certificate with an RSA key has the first
-- signer's issuer and serial number, and under that key the signature over the re-encoded attributes
-- fails. For the others but MALFORMED it holds, the content's SHA-256 is the signed message digest where
-- there is one, and the content claims a hash: for HASH_MISMATCH not the image's; for TRUSTED,
-- VALID_UNTRUSTED_ROOT and CHAIN_INVALID exactly the image's, the SHA-256 of its covered parts, and the
-- walk from the certificate over the blob's to the compiled-in roots ends in the way of the verdict.
pub verify_authenticode-IsJustified :
    (pe_bytes pkcs7_der : Bytes)
    → Within (IsVerdict pe_bytes pkcs7_der) (verify_authenticode pe_bytes pkcs7_der)
unfolding verify_authenticode
verify_authenticode-IsJustified pe_bytes pkcs7_der =
    and_then-known (λ _. Unit) (IsVerdict pe_bytes pkcs7_der) trusted_root_certificates _
      (subst (Within (λ _. Unit)) (sym trusted-GiveRoots.1) tt)
      (λ roots same _.
        Within-mono (λ r. IsJustified roots pe_bytes pkcs7_der r.verdict)
          (IsVerdict pe_bytes pkcs7_der) (λ r j. (roots, same, j))
          (verify_with_roots roots pe_bytes pkcs7_der)
          (verify_with_roots-IsJustified roots pe_bytes pkcs7_der))
