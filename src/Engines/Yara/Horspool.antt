-- ===== src/Engines/Yara/Horspool.antt =====
-- The search that skips positions finds what a search of every position finds.
use gcad.Base.{
  ℕ, zero, suc, ◌+◌, ◌-◌, ◌<◌, ◌≤◌, ◌≡◌, refl, sym, ap, subst, ◌∙◌, Bool, true, false, not, List,
  [], ◌∷◌, if◌then◌else◌, if_cases, Bool-cases, inl, inr, arith, leb, ◌==◌, length, get_or,
}
use gcad.Base.Bytes.{Bytes}
use gcad.Engines.Yara.{YaraString, same_byte, shifts, matches_down, last_byte, horspool}
use gcad.Engines.Yara.Shifts.{shifts_positive, shifts_le, shifts_hit}

both_true : (a b : Bool) → (if a then b else false) ≡ true → (a ≡ true) × (b ≡ true)
both_true true b h = (refl, h)
both_true false b h = absurd (ground (arith, h))

module _ (data_ : Bytes) (str : YaraString) where
  -- Whether the whole pattern stands at i.
  abbrev pub is_at : ℕ → Bool
  is_at i = matches_down data_ str i (length str.pattern)

  -- The positions from i on at which the pattern stands, of so many.
  unfoldable pub occurrences : ℕ → ℕ → List ℕ
  occurrences zero i = []
  occurrences (suc left) i =
      let rest = occurrences left (i + 1) in if is_at i then i ∷ rest else rest

  -- Where the pattern stands, each of its bytes is matched.
  matches_down_at :
      (i n j : ℕ)
      → j < n
      → matches_down data_ str i n ≡ true
      → same_byte str (get_or data_ (i + j) 0) (get_or str.pattern j 0) ≡ true
  unfolding matches_down
  matches_down_at i zero j h k = absurd (omega arith)
  matches_down_at i (suc n) j h k =
      let both = both_true (same_byte str (get_or data_ (i + n) 0) (get_or str.pattern n 0)) _ k in
      elim (Bool-cases (j == n)) [
        | inl e ↦
            subst (λ m. same_byte str (get_or data_ (i + m) 0) (get_or str.pattern m 0) ≡ true)
              {x = n} {y = j} (ground (arith, e)) both.0
        | inr e ↦ matches_down_at i n j (ground (arith, e, h)) both.1
      ]

  -- Before the position to which a mismatch skips, the pattern does not stand.
  skipped :
      (i k : ℕ)
      → 0 < length str.pattern
      → is_at i ≡ false
      → k < shifts str (last_byte data_ str i)
      → is_at (i + k) ≡ false
  skipped i zero some_pattern mismatch h = ap is_at {x = i + 0} {y = i} (omega arith) ∙ mismatch
  skipped i (suc k) some_pattern mismatch h = elim (Bool-cases (is_at (i + suc k))) [
    | inr e ↦ e
    | inl e ↦ absurd (omega (arith, h, bound e, shifts_le str (last_byte data_ str i)))
  ]
    where
      m : ℕ
      m = length str.pattern

      bound : is_at (i + suc k) ≡ true → shifts str (last_byte data_ str i) ≤ suc k
      bound e =
          subst (λ n. shifts str (last_byte data_ str i) ≤ n) {x = m - 1 - (m - 1 - suc k)}
            (omega (arith, inside))
            (shifts_hit str (m - 1 - suc k) (get_or data_ (i + m - 1) 0) (omega (arith, inside)) (
              subst
                (λ p.
                  same_byte str (get_or data_ p 0) (get_or str.pattern (m - 1 - suc k) 0) ≡ true)
                {x = i + suc k + (m - 1 - suc k)} (omega (arith, inside))
                (matches_down_at (i + suc k) m (m - 1 - suc k) (omega (arith, some_pattern)) e)))
        where
          inside : suc k < m
          inside = omega (arith, h, shifts_le str (last_byte data_ str i))

  same_occurrences :
      (left left' i i' : ℕ) → left ≡ left' → i ≡ i' → occurrences left i ≡ occurrences left' i'
  same_occurrences left left' i i' h k = ap (λ l. occurrences l i) h ∙ ap (occurrences left') k

  occurrences_here :
      (left i : ℕ) → is_at i ≡ true → occurrences (suc left) i ≡ i ∷ occurrences left (i + 1)
  unfolding occurrences
  occurrences_here left i h =
      if_cases (λ r. r ≡ i ∷ occurrences left (i + 1)) (is_at i) {y = occurrences left (i + 1)}
        (λ _. refl) (λ e. absurd (ground (arith, h, e)))

  occurrences_not_here :
      (left i : ℕ) → is_at i ≡ false → occurrences (suc left) i ≡ occurrences left (i + 1)
  unfolding occurrences
  occurrences_not_here left i h =
      if_cases (λ r. r ≡ occurrences left (i + 1)) (is_at i) {x = i ∷ occurrences left (i + 1)}
        (λ e. absurd (ground (arith, h, e))) (λ _. refl)

  -- Positions without the pattern are left out.
  leave_out :
      (n left i : ℕ)
      → ((k : ℕ) → k < n → is_at (i + k) ≡ false)
      → occurrences left i ≡ occurrences (left - n) (i + n)
  unfolding occurrences
  leave_out zero left i h = same_occurrences left (left - 0) i (i + 0) (omega arith) (omega arith)
  leave_out (suc n) zero i h =
      same_occurrences 0 (0 - suc n) (i + suc n) (i + suc n) (omega arith) refl
  leave_out (suc n) (suc left) i h =
      occurrences_not_here left i (ap is_at {x = i} {y = i + 0} (omega arith) ∙ h 0 (omega arith))
      ∙ leave_out n left (i + 1)
          (λ k l. ap is_at {x = i + 1 + k} {y = i + suc k} (omega arith) ∙ h (suc k) (omega arith))
      ∙ same_occurrences (left - n) (suc left - suc n) (i + 1 + n) (i + suc n) (omega arith)
          (omega arith)

  -- A turn that knows what the later ones find.
  turn :
      (last_pos fuel i : ℕ)
      → 0 < length str.pattern
      → i ≤ last_pos
      → ((j : ℕ) → i < j → horspool data_ str last_pos fuel j ≡ occurrences (last_pos + 1 - j) j)
      → (match : Bool) → is_at i ≡ match
      → (if match
          then i
            ∷ horspool data_ str last_pos fuel
                (i + (if match then 1 else shifts str (last_byte data_ str i)))
          else horspool data_ str last_pos fuel
              (i + (if match then 1 else shifts str (last_byte data_ str i))))
        ≡ occurrences (last_pos + 1 - i) i
  turn last_pos fuel i some_pattern h later true e =
      ap (λ r. i ∷ r) (later (i + 1) (omega arith))
      ∙ sym (occurrences_here (last_pos + 1 - (i + 1)) i e)
      ∙ same_occurrences (suc (last_pos + 1 - (i + 1))) (last_pos + 1 - i) i i (omega arith) refl
  turn last_pos fuel i some_pattern h later false e =
      later (i + s) (omega (arith, shifts_positive str (last_byte data_ str i) some_pattern))
      ∙ same_occurrences (last_pos + 1 - (i + s)) (last_pos + 1 - i - s) (i + s) (i + s)
          (omega arith) refl
      ∙ sym (leave_out s (last_pos + 1 - i) i (λ k l. skipped i k some_pattern e l))
    where
      s : ℕ
      s = shifts str (last_byte data_ str i)

  -- With a turn for each position from i to the last, `horspool` finds every one of them at which the
  -- pattern stands, in their order, and no other.
  pub horspool-occurrences :
      (last_pos fuel i : ℕ)
      → 0 < length str.pattern
      → last_pos + 1 - i ≤ fuel
      → horspool data_ str last_pos fuel i ≡ occurrences (last_pos + 1 - i) i
  unfolding horspool occurrences
  horspool-occurrences last_pos zero i some_pattern h =
      same_occurrences 0 (last_pos + 1 - i) i i (omega (arith, h)) refl
  horspool-occurrences last_pos (suc fuel) i some_pattern h =
      if_cases (λ r. r ≡ occurrences (last_pos + 1 - i) i) (not (leb i last_pos)) {x = []}
        (λ e. same_occurrences 0 (last_pos + 1 - i) i i (ground (arith, e)) refl)
        (λ e.
          turn last_pos fuel i some_pattern (ground (arith, e))
            (λ j below. horspool-occurrences last_pos fuel j some_pattern (omega (arith, h, below)))
            (is_at i) refl)
