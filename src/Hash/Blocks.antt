-- ===== src/Hash/Blocks.antt =====
-- What `update` and `finalize` compute, against the padding of FIPS 180-4.
use gcad.Base.{
  ℕ, zero, suc, ◌+◌, ◌-◌, ◌*◌, ◌%◌, ◌^◌, ◌≤◌, ◌<◌, ◌≡◌, refl, sym, ap, subst, ◌∙◌, List, [], ◌∷◌,
  ◌++◌, arith, length, replicate, length-append, length-replicate, All, All-append, Bool-cases, inl,
  inr, ltb, ◌==◌,
}
use gcad.Base.Bytes.{Bytes}
use gcad.Hash.{Context, push_byte, update, fill, last_block, finalize}
use mathlib.Core.List.{append_assoc, append-nil}

abbrev pub concat : List Bytes → Bytes
concat [] = []
concat (b ∷ bs) = b ++ concat bs

concat-append : (xs ys : List Bytes) → concat (xs ++ ys) ≡ concat xs ++ concat ys
concat-append [] ys = refl
concat-append (x ∷ xs) ys =
    ap (λ t. x ++ t) (concat-append xs ys) ∙ sym (append_assoc x (concat xs) (concat ys))

concat-snoc : (bs : List Bytes) (b : Bytes) → concat (bs ++ (b ∷ [])) ≡ concat bs ++ b
concat-snoc bs b = concat-append bs (b ∷ []) ∙ ap (λ t. concat bs ++ t) (append-nil b)

replicate-append : (m n k a : ℕ) → m + n ≡ k → replicate m a ++ replicate n a ≡ replicate k a
replicate-append zero n k a h = ap (λ i. replicate i a) (omega (arith, h))
replicate-append (suc m) n zero a h = absurd (omega (arith, h))
replicate-append (suc m) n (suc k) a h =
    ap (λ t. a ∷ t) (replicate-append m n k a (omega (arith, h)))

-- The bytes of the message, of the mark and of the zeros put together again.
regroup :
    (blocks buffer zeros rest : Bytes)
    → blocks ++ (((buffer ++ (0x80 ∷ [])) ++ zeros) ++ rest)
      ≡ (blocks ++ buffer) ++ (0x80 ∷ (zeros ++ rest))
regroup blocks buffer zeros rest = simp (append_assoc)

abbrev pub fold_blocks : {S : Type 0} → (S → Bytes → S) → S → List Bytes → S
fold_blocks transform s [] = s
fold_blocks transform s (b ∷ bs) = fold_blocks transform (transform s b) bs

-- The blocks of FIPS 180-4: the message, the byte 0x80, as few zeros as fill the last block, and the
-- length in bits, cut at 2 ^ 64.
pub record IsPadded (block : ℕ) (field : ℕ → Bytes) (message : Bytes) (blocks : List Bytes)
    : Type 0 where
  pub zeros : ℕ
  pub few : zeros < block
  pub sized : All (λ b. length b ≡ block) blocks
  pub whole :
      concat blocks ≡ message ++ (0x80 ∷ (replicate zeros 0 ++ field (length message * 8 % 2 ^ 64)))

module _ {S : Type 0} (transform : S → Bytes → S) (block : ℕ) where
  fold_blocks-append :
      (s : S) (xs ys : List Bytes)
      → fold_blocks transform s (xs ++ ys) ≡ fold_blocks transform (fold_blocks transform s xs) ys
  fold_blocks-append s [] ys = refl
  fold_blocks-append s (x ∷ xs) ys = fold_blocks-append (transform s x) xs ys

  -- A context that has taken the message: whole blocks of it are folded into the state, the rest of it,
  -- less than a block, is in the buffer, and the bits of the blocks are counted.
  pub record HasTaken (start : S) (message : Bytes) (c : Context S) : Type 0 where
    pub blocks : List Bytes
    pub sized : All (λ b. length b ≡ block) blocks
    pub split : concat blocks ++ c.buffer ≡ message
    pub short : length c.buffer < block
    pub folded : c.state ≡ fold_blocks transform start blocks
    pub counted : c.bitcount ≡ length (concat blocks) * 8 % 2 ^ 64

  push_byte-HasTaken :
      (start : S) (message : Bytes) (c : Context S) (b : ℕ)
      → HasTaken start message c
      → HasTaken start (message ++ (b ∷ [])) (push_byte transform block c b)
  unfolding push_byte
  push_byte-HasTaken start message c b v =
      elim (Bool-cases (length (c.buffer ++ (b ∷ [])) == block)) [
        | inl e ↦ rw e (record {
          blocks = v.blocks ++ ((c.buffer ++ (b ∷ [])) ∷ []);
          sized = All-append _ v.blocks _ v.sized (ground (arith, e), tt);
          split =
              append-nil _
              ∙ concat-snoc v.blocks (c.buffer ++ (b ∷ []))
              ∙ sym (append_assoc (concat v.blocks) c.buffer (b ∷ []))
              ∙ ap (λ t. t ++ (b ∷ [])) v.split;
          short = omega (arith, v.short);
          folded =
              ap (λ s. transform s (c.buffer ++ (b ∷ []))) v.folded
              ∙ sym (fold_blocks-append start v.blocks _);
          counted = ground (
            arith,
            e,
            v.counted,
            ap length (concat-snoc v.blocks (c.buffer ++ (b ∷ []))),
            length-append (concat v.blocks) (c.buffer ++ (b ∷ [])),
          );
        })
        | inr e ↦ rw e (record {
          blocks = v.blocks;
          sized = v.sized;
          split =
              sym (append_assoc (concat v.blocks) c.buffer (b ∷ []))
              ∙ ap (λ t. t ++ (b ∷ [])) v.split;
          short = ground (arith, e, v.short, length-append c.buffer (b ∷ []));
          folded = v.folded;
          counted = v.counted;
        })
      ]

  pub update-HasTaken :
      (start : S) (message : Bytes) (c : Context S) (bytes : Bytes)
      → HasTaken start message c
      → HasTaken start (message ++ bytes) (update transform block c bytes)
  unfolding update
  update-HasTaken start message c [] v =
      subst (λ m. HasTaken start m c) (sym (append-nil message)) v
  update-HasTaken start message c (b ∷ bytes) v =
      subst (λ m. HasTaken start m (update transform block (push_byte transform block c b) bytes))
        (append_assoc message (b ∷ []) bytes)
        (update-HasTaken start (message ++ (b ∷ [])) (push_byte transform block c b) bytes
          (push_byte-HasTaken start message c b v))

  pub update-append :
      (c : Context S) (xs ys : Bytes)
      → update transform block c (xs ++ ys)
        ≡ update transform block (update transform block c xs) ys
  unfolding update
  update-append c [] ys = refl
  update-append c (x ∷ xs) ys = update-append (push_byte transform block c x) xs ys

  module _ (pad_to : ℕ) (field : ℕ → Bytes) (room : pad_to < block)
      (fits : (n : ℕ) → pad_to + length (field n) ≡ block) where
    counted-message :
        (start : S) (message : Bytes) (c : Context S)
        → HasTaken start message c
        → (c.bitcount + length c.buffer * 8) % 2 ^ 64 ≡ length message * 8 % 2 ^ 64
    counted-message start message c v =
        omega (arith, v.counted, ap length v.split, length-append (concat v.blocks) c.buffer)

    length-fill : (n : ℕ) (bytes : Bytes) → length bytes ≤ n → length (fill n bytes) ≡ n
    unfolding fill
    length-fill n bytes h = omega (
      arith,
      h,
      length-append bytes (replicate (n - length bytes) 0),
      length-replicate {A = ℕ} (n - length bytes) 0,
    )

    -- The zeros, the field and nothing else follow the mark in the blocks that `finalize` makes.
    finished :
        (start : S) (message : Bytes) (c : Context S) (v : HasTaken start message c) (k : ℕ)
        (last : List Bytes)
        → k < block
        → All (λ b. length b ≡ block) last
        → concat last
          ≡ ((c.buffer ++ (0x80 ∷ [])) ++ replicate k 0)
            ++ field ((c.bitcount + length c.buffer * 8) % 2 ^ 64)
        → IsPadded block field message (v.blocks ++ last)
    finished start message c v k last few sized e = record {
      zeros = k;
      few = few;
      sized = All-append _ v.blocks last v.sized sized;
      whole =
          concat-append v.blocks last
          ∙ ap (λ t. concat v.blocks ++ t) e
          ∙ regroup (concat v.blocks) c.buffer (replicate k 0) _
          ∙ ap
              (λ t.
                t
                ++ (0x80 ∷ (replicate k 0 ++ field ((c.bitcount + length c.buffer * 8) % 2 ^ 64))))
              v.split
          ∙ ap (λ n. message ++ (0x80 ∷ (replicate k 0 ++ field n)))
              (counted-message start message c v);
    }

    pub finalize-HasTaken :
        (start : S) (message : Bytes) (c : Context S)
        → HasTaken start message c
        → (blocks : List Bytes) × IsPadded block field message blocks
          × (finalize transform block pad_to field c ≡ fold_blocks transform start blocks)
    unfolding finalize last_block fill
    finalize-HasTaken start message c v = elim (Bool-cases (ltb pad_to (length marked))) [
      | inl e ↦ rw e (
        v.blocks ++ (fill block marked ∷ ((fill pad_to [] ++ field bits) ∷ [])),
        finished start message c v ((block - length marked) + pad_to) _
            (ground (arith, e, grown, v.short))
            (length-fill block marked (omega (arith, grown, v.short)), (sized [] (omega arith), tt))
            two_blocks,
        ap (λ s. transform (transform s (fill block marked)) (fill pad_to [] ++ field bits))
              v.folded
            ∙ sym (fold_blocks-append start v.blocks _),
      )
      | inr e ↦ rw e (
        v.blocks ++ ((fill pad_to marked ++ field bits) ∷ []),
        finished start message c v (pad_to - length marked) _ (omega (arith, room))
            (sized marked (ground (arith, e)), tt) (append-nil _),
        ap (λ s. transform s (fill pad_to marked ++ field bits)) v.folded
            ∙ sym (fold_blocks-append start v.blocks _),
      )
    ]
      where
        marked : Bytes
        marked = c.buffer ++ (0x80 ∷ [])

        bits : ℕ
        bits = (c.bitcount + length c.buffer * 8) % 2 ^ 64

        grown : length marked ≡ length c.buffer + 1
        grown = length-append c.buffer (0x80 ∷ [])

        sized : (b : Bytes) → length b ≤ pad_to → length (fill pad_to b ++ field bits) ≡ block
        sized b h =
            omega
              (arith, length-append (fill pad_to b) (field bits), length-fill pad_to b h, fits bits)

        two_blocks :
            fill block marked ++ ((fill pad_to [] ++ field bits) ++ [])
            ≡ (marked ++ replicate ((block - length marked) + pad_to) 0) ++ field bits
        two_blocks =
            ap (λ t. fill block marked ++ t) (append-nil _)
            ∙ sym (append_assoc (fill block marked) (fill pad_to []) (field bits))
            ∙ ap (λ t. t ++ field bits)
                (append_assoc marked (replicate (block - length marked) 0) (fill pad_to [])
                  ∙ ap (λ t. marked ++ t)
                      (replicate-append (block - length marked) (pad_to - 0) _ 0 (omega arith)))
