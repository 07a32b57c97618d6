-- ===== src/Engines/Yara/Exact.antt =====
-- Both searches of `find_pattern` find the same.
use gcad.Base.{
  ℕ, zero, suc, ◌+◌, ◌-◌, ◌<◌, ◌≤◌, ◌≡◌, refl, sym, ap, ◌∙◌, Bool, true, false, not, ◌&&◌, ◌||◌,
  List, [], ◌∷◌, if◌then◌else◌, if_cases, Bool-cases, inl, inr, arith, leb, ltb, ◌==◌, length,
  get_or, All,
}
use gcad.Base.Bytes.{Bytes, is_empty}
use gcad.Base.Bits.{all_below_at}
use gcad.Engines.Yara.{
  YaraString, lower, folds_case, same_byte, same_masked, has_wildcards, matches_down, matches_up,
  horspool, every_position, find_pattern,
}
use gcad.Engines.Yara.Horspool.{occurrences, is_at, horspool-occurrences}
use Prim.Native.Nat.{bit_and}

abbrev pub AreBytes : Bytes → Type 0
AreBytes = All (λ b. b < 256)

get_or-lt : (bs : Bytes) (i : ℕ) → AreBytes bs → get_or bs i 0 < 256
get_or-lt [] i h = omega arith
get_or-lt (b ∷ bs) zero (h, _) = h
get_or-lt (b ∷ bs) (suc i) (_, h) = get_or-lt bs i h

get_or-full :
    (mask : Bytes) (j : ℕ)
    → has_wildcards mask ≡ false
    → (if ltb j (length mask) then get_or mask j 0 else 0xff) ≡ 0xff
unfolding has_wildcards
get_or-full [] j h =
    if_cases (λ n. n ≡ 0xff) (ltb j 0) (λ e. absurd (ground (arith, e))) (λ _. refl)
get_or-full (m ∷ mask) zero h =
    if_cases (λ n. n ≡ 0xff) (ltb 0 (suc (length mask))) {x = m} (λ _. ground (arith, h))
      (λ _. refl)
get_or-full (m ∷ mask) (suc j) h =
    if_cases (λ n. n ≡ 0xff) (ltb (suc j) (suc (length mask))) {x = get_or mask j 0}
      (λ e.
        if_cases (λ n. n ≡ 0xff → get_or mask j 0 ≡ 0xff) (ltb j (length mask)) (λ _ k. k)
          (λ f. absurd (ground (arith, e, f))) (get_or-full mask j (ground (arith, h))))
      (λ _. refl)

-- A whole byte under the full mask.
full_mask : (b : ℕ) → b < 256 → bit_and b 0xff ≡ b
full_mask b h = ground (arith, all_below_at 256 (λ n. bit_and n 0xff == n) refl b h)

lower-lt : (b : ℕ) → b < 256 → lower b < 256
unfolding lower
lower-lt b h = ground (arith, h)

same_masked_full :
    (str : YaraString) (d p : ℕ) → d < 256 → p < 256 → same_masked str d p 0xff ≡ same_byte str d p
same_masked_full str d p h k = elim (Bool-cases (folds_case str)) [
  | inl e ↦ rw (e, full_mask (lower d) (lower-lt d h), full_mask (lower p) (lower-lt p k)) refl
  | inr e ↦ rw (e, full_mask d h, full_mask p k) refl
]

swapped : (a b : Bool) → (if a then b else false) ≡ (if b then a else false)
swapped true true = refl
swapped true false = refl
swapped false true = refl
swapped false false = refl

nested :
    (a b c : Bool)
    → (if a then (if b then c else false) else false)
      ≡ (if (if a then b else false) then c else false)
nested true b c = refl
nested false b c = refl

module _ (data_ : Bytes) (str : YaraString) (plain : has_wildcards str.mask ≡ false)
    (data_bytes : AreBytes data_) (pattern_bytes : AreBytes str.pattern) where
  abbrev same_at : ℕ → ℕ → Bool
  same_at i j = same_byte str (get_or data_ (i + j) 0) (get_or str.pattern j 0)

  matches_up_step :
      (i left j : ℕ)
      → matches_up data_ str i (suc left) j
        ≡ (if same_at i j then matches_up data_ str i left (j + 1) else false)
  unfolding matches_up
  matches_up_step i left j =
      ap (λ b. if b then matches_up data_ str i left (j + 1) else false)
        (ap (same_masked str (get_or data_ (i + j) 0) (get_or str.pattern j 0))
            (get_or-full str.mask j plain)
          ∙ same_masked_full str (get_or data_ (i + j) 0) (get_or str.pattern j 0)
              (get_or-lt data_ (i + j) data_bytes) (get_or-lt str.pattern j pattern_bytes))

  -- The last byte instead of the first.
  matches_up_last :
      (i left j : ℕ)
      → matches_up data_ str i (suc left) j
        ≡ (if matches_up data_ str i left j then same_at i (j + left) else false)
  unfolding matches_up
  matches_up_last i zero j =
      matches_up_step i zero j
      ∙ swapped (same_at i j) true
      ∙ ap (same_at i) {x = j} {y = j + zero} (omega arith)
  matches_up_last i (suc left) j =
      matches_up_step i (suc left) j
      ∙ ap (λ b. if same_at i j then b else false)
          (matches_up_last i left (j + 1)
            ∙ ap (λ n. if matches_up data_ str i left (j + 1) then same_at i n else false)
                {x = j + 1 + left} {y = j + suc left} (omega arith))
      ∙ nested (same_at i j) (matches_up data_ str i left (j + 1)) (same_at i (j + suc left))
      ∙ ap (λ b. if b then same_at i (j + suc left) else false) (sym (matches_up_step i left j))

  matches_up-matches_down : (i n : ℕ) → matches_up data_ str i n 0 ≡ matches_down data_ str i n
  unfolding matches_up matches_down
  matches_up-matches_down i zero = refl
  matches_up-matches_down i (suc n) =
      matches_up_last i n 0
      ∙ ap (λ b. if b then same_at i (0 + n) else false) (matches_up-matches_down i n)
      ∙ swapped (matches_down data_ str i n) (same_at i (0 + n))
      ∙ ap (λ j. if same_at i j then matches_down data_ str i n else false) {x = 0 + n} {y = n}
          (omega arith)

  every_position-occurrences :
      (left i : ℕ) → every_position data_ str left i ≡ occurrences data_ str left i
  unfolding every_position occurrences
  every_position-occurrences zero i = refl
  every_position-occurrences (suc left) i =
      ap
        (λ b.
          if b
          then i ∷ every_position data_ str left (i + 1)
          else every_position data_ str left (i + 1))
        (matches_up-matches_down i (length str.pattern))
      ∙ ap (λ r. if is_at data_ str i then i ∷ r else r) (every_position-occurrences left (i + 1))

  horspool-every_position :
      0 < length str.pattern
      → horspool data_ str (length data_ - length str.pattern) (length data_ + 1) 0
        ≡ every_position data_ str (length data_ - length str.pattern + 1) 0
  horspool-every_position h =
      horspool-occurrences data_ str (length data_ - length str.pattern) (length data_ + 1) 0 h
        (omega arith)
      ∙ sym (every_position-occurrences (length data_ - length str.pattern + 1 - 0) 0)
      ∙ ap (λ n. every_position data_ str n 0) (omega arith)

-- On bytes, `find_pattern` with a pattern that is not empty and fits finds exactly the positions that the
-- comparison at every position finds, whichever search it chooses: skipping positions loses none, with
-- letters of both cases alike and without, and the fuel given is enough.
pub find_pattern-every_position :
    (data_ : Bytes) (str : YaraString)
    → AreBytes data_
    → AreBytes str.pattern
    → 0 < length str.pattern
    → length str.pattern ≤ length data_
    → find_pattern data_ str ≡ every_position data_ str (length data_ - length str.pattern + 1) 0
unfolding find_pattern
find_pattern-every_position data_ str data_bytes pattern_bytes some_pattern fits =
    if_cases (λ r. r ≡ every) (is_empty str.pattern || ltb (length data_) (length str.pattern))
      {x = []} (λ e. absurd (refused str.pattern some_pattern fits e))
      (λ _.
        if_cases (λ r. r ≡ every) (leb 4 (length str.pattern) && not (has_wildcards str.mask))
          {y = every}
          (λ e.
            horspool-every_position data_ str (ground (arith, e)) data_bytes pattern_bytes
              some_pattern)
          (λ _. refl))
  where
    every : List ℕ
    every = every_position data_ str (length data_ - length str.pattern + 1) 0

    refused :
        (pattern : Bytes)
        → 0 < length pattern
        → length pattern ≤ length data_
        → (is_empty pattern || ltb (length data_) (length pattern)) ≡ true
        → ⊥
    refused [] h k e = absurd (omega (arith, h))
    refused (b ∷ bs) h k e = absurd (ground (arith, e, k))
