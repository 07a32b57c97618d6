-- ===== src/Security/Rsa/Padding.antt =====
-- What the check of the recovered bytes accepts.
use gcad.Base.{
  ℕ, zero, suc, ◌+◌, ◌-◌, ◌≤◌, ◌<◌, ◌≡◌, refl, sym, ap, subst, ◌∙◌, Bool, true, false, not, ◌||◌,
  [], ◌∷◌, ◌++◌, arith, if◌then◌else◌, ltb, leb, ◌==◌, length, get_or, take, drop, replicate,
  Bool-cases, inl, inr, length-drop, take-append-drop,
}
use native.Mathlib.Nat.{zero-add, add-zero, suc-add}
use native.Mathlib.Numerals.{add-one}
use gcad.Base.Bytes.{Bytes, eqb→eq}
use gcad.Security.Rsa.{count_ff, check_tail, check_padding, check_em}

count_ff_lem : (bs : Bytes) → replicate (count_ff bs) 0xff ++ drop (count_ff bs) bs ≡ bs
unfolding count_ff
count_ff_lem [] = refl
count_ff_lem (b ∷ bs) = elim (Bool-cases (b == 0xff)) [
  | inl e ↦ rw e (
      rw (add-one (count_ff bs))
        (ap (λ xs. 0xff ∷ xs) (count_ff_lem bs) ∙ ap (λ x. x ∷ bs) (ground (arith, e))))
  | inr e ↦ rw e refl
]

-- What a test that guards an early return leaves behind it.
pub passed : (b x : Bool) → (if not b then false else x) ≡ true → (b ≡ true) × (x ≡ true)
passed true x h = (refl, h)
passed false x h = cc

pub passed_by : (b x : Bool) → (if b then false else x) ≡ true → (b ≡ false) × (x ≡ true)
passed_by true x h = cc
passed_by false x h = (refl, h)

take_all : (n : ℕ) (xs : Bytes) → length xs ≡ n → take n xs ≡ xs
take_all zero [] h = refl
take_all zero (x ∷ xs) h = absurd (omega (arith, h))
take_all (suc n) [] h = refl
take_all (suc n) (x ∷ xs) h = ap (λ ys. x ∷ ys) (take_all n xs (omega (arith, h)))

drop-drop : (i j : ℕ) (xs : Bytes) → drop j (drop i xs) ≡ drop (i + j) xs
drop-drop zero j xs = rw (zero-add j) refl
drop-drop (suc i) zero [] = rw (add-zero (suc i)) refl
drop-drop (suc i) (suc j) [] = rw (suc-add i (suc j)) refl
drop-drop (suc i) j (x ∷ xs) = rw (suc-add i j) (drop-drop i j xs)

-- The digest information, prefix and digest, is all that is left from i on.
check_tail_lem :
    (em : Bytes) (i : ℕ) (prefix digest : Bytes)
    → check_tail em i prefix digest ≡ true
    → drop i em ≡ prefix ++ digest
unfolding check_tail
check_tail_lem em i prefix digest h =
    let (size, behind) = passed _ _ h in
    let (first, last) = passed _ _ behind in
    sym (take-append-drop (length prefix) (drop i em))
    ∙ ap (λ xs. xs ++ drop (length prefix) (drop i em)) (sym (eqb→eq prefix _ first))
    ∙ ap (λ xs. prefix ++ xs)
        (drop-drop i (length prefix) em ∙ whole size ∙ sym (eqb→eq digest _ last))
  where
    whole :
        (length em - i == length prefix + length digest) ≡ true
        → drop (i + length prefix) em ≡ take (length digest) (drop (i + length prefix) em)
    whole size = sym (
        take_all (length digest) (drop (i + length prefix) em)
          (ground (arith, size, length-drop (i + length prefix) em)))

-- A 0 byte is where the padding ends.
drop-zero :
    (em : Bytes) (i : ℕ)
    → i < length em
    → (get_or em i 0 == 0) ≡ true
    → drop i em ≡ 0 ∷ drop (suc i) em
drop-zero [] i h e = absurd (omega arith)
drop-zero (b ∷ em) zero h e = ap (λ x. x ∷ em) (ground (arith, e))
drop-zero (b ∷ em) (suc i) h e = drop-zero em i (omega arith) e

check_padding_lem :
    (em : Bytes) (k : ℕ) (prefix digest : Bytes)
    → check_padding em k prefix digest ≡ true
    → (8 ≤ k) × (drop (suc (suc k)) em ≡ 0 ∷ (prefix ++ digest))
unfolding check_padding
check_padding_lem em k prefix digest h =
    let (enough, behind) = passed_by (ltb k 8) _ h in
    let (ends, tail) = passed_by _ _ behind in
    (
      ground (arith, enough),
      drop-zero em (suc (suc k)) (inside ends) (zero_byte ends)
          ∙ ap (λ xs. 0 ∷ xs)
              (ap (λ i. drop i em) (index) ∙ check_tail_lem em (k + 2 + 1) prefix digest tail),
    )
  where
    index : suc (suc (suc k)) ≡ k + 2 + 1
    index = omega arith

    inside :
        (leb (length em) (k + 2) || not (get_or em (k + 2) 0 == 0)) ≡ false
        → suc (suc k) < length em
    inside e = ground (arith, e)

    next : k + 2 ≡ suc (suc k)
    next = omega arith

    zero_byte :
        (leb (length em) (k + 2) || not (get_or em (k + 2) 0 == 0)) ≡ false
        → (get_or em (suc (suc k)) 0 == 0) ≡ true
    zero_byte e = subst (λ i. (get_or em i 0 == 0) ≡ true) next (ground (arith, e))

-- 0x00 0x01, k bytes 0xFF, 0x00, the prefix and the digest.
abbrev pub encoded : ℕ → Bytes → Bytes → Bytes
encoded k prefix digest = 0 ∷ (1 ∷ (replicate k 0xff ++ (0 ∷ (prefix ++ digest))))

-- The recovered bytes that the check accepts are as many as the modulus has, and are the encoding of the
-- digest with at least eight bytes of padding.
pub check_em_lem :
    (em : Bytes) (n : ℕ) (prefix digest : Bytes)
    → check_em em n prefix digest ≡ true
    → (length em ≡ n) × ((k : ℕ) × (8 ≤ k) × (em ≡ encoded k prefix digest))
unfolding check_em
check_em_lem [] n prefix digest h = absurd (ground (arith, h))
check_em_lem (a ∷ []) n prefix digest h = absurd (ground (arith, h))
check_em_lem (a ∷ (b ∷ rest)) n prefix digest h =
    let (size, behind) = passed (length (a ∷ (b ∷ rest)) == n) _ h in
    let (start, tail) = passed_by _ _ behind in
    let (enough, left) = check_padding_lem (a ∷ (b ∷ rest)) (count_ff rest) prefix digest tail in
    (
      ground (arith, size),
      (
        count_ff rest,
        enough,
        heads start
            ∙ ap (λ xs. 0 ∷ (1 ∷ xs))
                (sym (count_ff_lem rest) ∙ ap (λ xs. replicate (count_ff rest) 0xff ++ xs) left),
      ),
    )
  where
    first : (ltb (suc (suc (length rest))) 11 || not (a == 0) || not (b == 1)) ≡ false → a ≡ 0
    first e = ground (arith, e)

    second : (ltb (suc (suc (length rest))) 11 || not (a == 0) || not (b == 1)) ≡ false → b ≡ 1
    second e = ground (arith, e)

    heads :
        (ltb (suc (suc (length rest))) 11 || not (a == 0) || not (b == 1)) ≡ false
        → a ∷ (b ∷ rest) ≡ 0 ∷ (1 ∷ rest)
    heads e = rw (first e, second e) refl
