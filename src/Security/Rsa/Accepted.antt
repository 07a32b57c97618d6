-- ===== src/Security/Rsa/Accepted.antt =====
-- Every encoding of the digest is accepted.
use gcad.Base.{
  ℕ, zero, suc, ◌+◌, ◌≤◌, ◌≡◌, refl, ap, subst, true, [], ◌∷◌, ◌++◌, arith, length, get_or, take,
  drop, replicate, length-append, length-replicate,
}
use gcad.Base.Bytes.{Bytes, eqb_refl}
use gcad.Security.Rsa.{count_ff, check_tail, check_padding, check_em}
use gcad.Security.Rsa.Padding.{encoded}
use native.Mathlib.Nat.{zero-add, suc-add}
use native.Mathlib.Numerals.{add-one}

count_ff-replicate : (k : ℕ) (xs : Bytes) → count_ff (replicate k 0xff ++ (0 ∷ xs)) ≡ k
unfolding count_ff
count_ff-replicate zero xs = refl
count_ff-replicate (suc k) xs = rw (count_ff-replicate k xs) (add-one k)

drop-append : (xs ys : Bytes) → drop (length xs) (xs ++ ys) ≡ ys
drop-append [] ys = refl
drop-append (x ∷ xs) ys = drop-append xs ys

take-append : (xs ys : Bytes) → take (length xs) (xs ++ ys) ≡ xs
take-append [] ys = refl
take-append (x ∷ xs) ys = ap (λ zs. x ∷ zs) (take-append xs ys)

take-length : (xs : Bytes) → take (length xs) xs ≡ xs
take-length [] = refl
take-length (x ∷ xs) = ap (λ zs. x ∷ zs) (take-length xs)

drop-more : (pre xs ys : Bytes) → drop (length pre + length xs) (pre ++ (xs ++ ys)) ≡ ys
drop-more [] xs ys = rw (zero-add (length xs)) (drop-append xs ys)
drop-more (p ∷ pre) xs ys = rw (suc-add (length pre) (length xs)) (drop-more pre xs ys)

get_or-after : (pre : Bytes) (b : ℕ) (ys : Bytes) → get_or (pre ++ (b ∷ ys)) (length pre) 0 ≡ b
get_or-after [] b ys = refl
get_or-after (p ∷ pre) b ys = get_or-after pre b ys

check_tail-accepts :
    (pre prefix digest : Bytes)
    → check_tail (pre ++ (prefix ++ digest)) (length pre) prefix digest ≡ true
unfolding check_tail
check_tail-accepts pre prefix digest =
    rw
      (
        drop-append pre (prefix ++ digest),
        take-append prefix digest,
        drop-more pre prefix digest,
        take-length digest,
        eqb_refl prefix,
        eqb_refl digest,
      )
      (ground (arith, length-append pre (prefix ++ digest), length-append prefix digest))

snoc-append : (xs : Bytes) (b : ℕ) (ys : Bytes) → (xs ++ (b ∷ [])) ++ ys ≡ xs ++ (b ∷ ys)
snoc-append [] b ys = refl
snoc-append (x ∷ xs) b ys = ap (λ zs. x ∷ zs) (snoc-append xs b ys)

module _ (k : ℕ) (prefix digest : Bytes) where
  -- All up to the zero byte, and all up to the prefix.
  abbrev header : Bytes
  header = 0 ∷ (1 ∷ replicate k 0xff)

  abbrev whole_header : Bytes
  whole_header = 0 ∷ (1 ∷ (replicate k 0xff ++ (0 ∷ [])))

  length-header : length header ≡ k + 2
  length-header = omega (arith, length-replicate {A = ℕ} k 0xff)

  length-whole_header : length whole_header ≡ k + 2 + 1
  length-whole_header =
      omega
        (arith, length-append {A = ℕ} (replicate k 0xff) (0 ∷ []), length-replicate {A = ℕ} k 0xff)

  length-encoded : length (encoded k prefix digest) ≡ k + 3 + length (prefix ++ digest)
  length-encoded = omega (
    arith,
    length-append {A = ℕ} (replicate k 0xff) (0 ∷ (prefix ++ digest)),
    length-replicate {A = ℕ} k 0xff,
  )

  zero_byte : get_or (encoded k prefix digest) (k + 2) 0 ≡ 0
  zero_byte =
      subst (λ i. get_or (encoded k prefix digest) i 0 ≡ 0) length-header
        (get_or-after header 0 (prefix ++ digest))

  tail_accepted : check_tail (encoded k prefix digest) (k + 2 + 1) prefix digest ≡ true
  tail_accepted =
      subst (λ i. check_tail (encoded k prefix digest) i prefix digest ≡ true) length-whole_header
        (subst (λ em. check_tail em (length whole_header) prefix digest ≡ true)
          (ap (λ xs. 0 ∷ (1 ∷ xs)) (snoc-append (replicate k 0xff) 0 (prefix ++ digest)))
          (check_tail-accepts whole_header prefix digest))

  -- An encoding of the digest with at least eight bytes of padding, in as many bytes as the modulus has,
  -- passes the check of the recovered bytes.
  pub check_em-encoded :
      8 ≤ k
      → check_em (encoded k prefix digest) (length (encoded k prefix digest)) prefix digest ≡ true
  unfolding check_em check_padding
  check_em-encoded h =
      rw (count_ff-replicate k (prefix ++ digest), zero_byte, tail_accepted)
        (ground (arith, h, length-encoded))
