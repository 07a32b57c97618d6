-- ===== src/Engines/Yara/Shifts.antt =====
-- What the table of shifts holds.
use gcad.Base.{
  ℕ, zero, suc, ◌+◌, ◌-◌, ◌<◌, ◌≤◌, ◌≡◌, refl, subst, if◌then◌else◌, true, if_cases, arith, length,
  get_or, ◌==◌, Bool-cases, inl, inr, ◌⊎◌,
}
use gcad.Engines.Yara.{
  YaraString, lower, upper, folds_case, same_byte, write, write_shift, fill_shifts, shifts,
}

-- The byte by which the table is asked about d.
abbrev pub key : YaraString → ℕ → ℕ
key str d = if folds_case str then lower d else d

module _ (str : YaraString) where
  -- The shift for the byte j of the pattern.
  abbrev value : ℕ → ℕ
  value j = length str.pattern - 1 - j

  write_shift_cases :
      (j : ℕ) (shift : ℕ → ℕ) (b : ℕ)
      → (write_shift str j shift b ≡ shift b) ⊎ (write_shift str j shift b ≡ value j)
  unfolding write_shift
  write_shift_cases j shift b =
      if_cases (λ t. (t b ≡ shift b) ⊎ (t b ≡ value j)) (folds_case str)
        {x = write (write shift (lower (get_or str.pattern j 0)) (value j))
          (upper (get_or str.pattern j 0)) (value j)}
        {y = write shift (get_or str.pattern j 0) (value j)}
        (λ _.
          if_cases (λ n. (n ≡ shift b) ⊎ (n ≡ value j)) (b == upper (get_or str.pattern j 0))
            {x = value j} (λ _. inr refl) (λ _. one (lower (get_or str.pattern j 0))))
        (λ _. one (get_or str.pattern j 0))
    where
      one : (c : ℕ) → (write shift c (value j) b ≡ shift b) ⊎ (write shift c (value j) b ≡ value j)
      one c =
          if_cases (λ n. (n ≡ shift b) ⊎ (n ≡ value j)) (b == c) {x = value j} {y = shift b}
            (λ _. inr refl) (λ _. inl refl)

  -- The byte j itself, or one that it matches.
  write_shift_hit :
      (j : ℕ) (shift : ℕ → ℕ) (d : ℕ)
      → same_byte str d (get_or str.pattern j 0) ≡ true
      → write_shift str j shift (key str d) ≡ value j
  unfolding write_shift
  write_shift_hit j shift d = elim (Bool-cases (folds_case str)) [
    | inl e ↦ rw e (λ h.
        if_cases (λ n. n ≡ value j) (lower d == upper (get_or str.pattern j 0)) {x = value j}
          (λ _. refl)
          (λ _.
            if_cases (λ n. n ≡ value j) (lower d == lower (get_or str.pattern j 0))
              {y = shift (lower d)} (λ _. refl) (λ k. absurd (ground (arith, h, k)))))
    | inr e ↦ rw e (λ h.
        if_cases (λ n. n ≡ value j) (d == get_or str.pattern j 0) {y = shift d} (λ _. refl)
          (λ k. absurd (ground (arith, h, k))))
  ]

  -- What the turns left can still write is no more than what stands there.
  fill_shifts_le :
      (left j : ℕ) (shift : ℕ → ℕ) (b : ℕ)
      → value j ≤ shift b
      → fill_shifts str left j shift b ≤ shift b
  unfolding fill_shifts
  fill_shifts_le zero j shift b h = omega arith
  fill_shifts_le (suc left) j shift b h =
      let later = fill_shifts_le left (j + 1) (write_shift str j shift) b in
      elim (write_shift_cases j shift b) [
        | inl e ↦ omega (arith, later (omega (arith, e, h)), e)
        | inr e ↦ omega (arith, later (omega (arith, e)), e, h)
      ]

  fill_shifts_positive :
      (left j : ℕ) (shift : ℕ → ℕ) (b : ℕ)
      → left ≤ value j
      → 0 < shift b
      → 0 < fill_shifts str left j shift b
  unfolding fill_shifts
  fill_shifts_positive zero j shift b h k = k
  fill_shifts_positive (suc left) j shift b h k =
      let later =
        fill_shifts_positive left (j + 1) (write_shift str j shift) b (omega (arith, h)) in
      elim (write_shift_cases j shift b) [
        | inl e ↦ later (omega (arith, e, k))
        | inr e ↦ later (omega (arith, e, h))
      ]

  -- A byte of the pattern within the turns left bounds the shift of what it matches.
  fill_shifts_hit :
      (left j i : ℕ) (shift : ℕ → ℕ) (d : ℕ)
      → j ≤ i
      → i < j + left
      → same_byte str d (get_or str.pattern i 0) ≡ true
      → fill_shifts str left j shift (key str d) ≤ value i
  unfolding fill_shifts
  fill_shifts_hit zero j i shift d h k same = absurd (omega arith)
  fill_shifts_hit (suc left) j i shift d h k same = elim (Bool-cases (i == j)) [
    | inl e ↦
        let here : i ≡ j = ground (arith, e) in
        let hit =
          write_shift_hit j shift d
            (subst (λ n. same_byte str d (get_or str.pattern n 0) ≡ true) here same) in
        omega (
          arith,
          here,
          hit,
          fill_shifts_le left (j + 1) (write_shift str j shift) (key str d) (omega (arith, hit)),
        )
    | inr e ↦
        fill_shifts_hit left (j + 1) i (write_shift str j shift) d (ground (arith, e, h))
          (omega (arith, k)) same
  ]

  pub shifts_positive : (b : ℕ) → 0 < length str.pattern → 0 < shifts str b
  unfolding shifts
  shifts_positive b h =
      fill_shifts_positive (length str.pattern - 1) 0 (λ _. length str.pattern) b (omega arith) h

  pub shifts_le : (b : ℕ) → shifts str b ≤ length str.pattern
  unfolding shifts
  shifts_le b = fill_shifts_le (length str.pattern - 1) 0 (λ _. length str.pattern) b (omega arith)

  pub shifts_hit :
      (i d : ℕ)
      → i < length str.pattern - 1
      → same_byte str d (get_or str.pattern i 0) ≡ true
      → shifts str (key str d) ≤ length str.pattern - 1 - i
  unfolding shifts
  shifts_hit i d h same =
      fill_shifts_hit (length str.pattern - 1) 0 i (λ _. length str.pattern) d (omega arith)
        (omega (arith, h)) same
