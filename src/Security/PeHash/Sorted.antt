-- ===== src/Security/PeHash/Sorted.antt =====
-- The sections in order, each of them once.
use gcad.Base.{ℕ, ◌≤◌, arith, leb, if_cases, List, [], ◌∷◌, All}
use gcad.Base.{refl}
use gcad.Security.PeHash.{SectionRange, insert_section, sort}
use mathlib.Core.List.{Permᴰ}

-- Sections in the order of their offsets.
abbrev pub Increasing : List SectionRange → Type 0
Increasing [] = Unit
Increasing (s ∷ ss) = All (λ t. s.offset ≤ t.offset) ss × Increasing ss

module _ (P : SectionRange → Type 0) where
  insert_section-All :
      (s : SectionRange) (ts : List SectionRange) → P s → All P ts → All P (insert_section s ts)
  unfolding insert_section
  insert_section-All s [] h all = (h, tt)
  insert_section-All s (t ∷ ts) h all =
      if_cases (All P) (leb s.offset t.offset) (λ _. (h, all))
        (λ _. (all.0, insert_section-All s ts h all.1))

  pub sort-All : (ss : List SectionRange) → All P ss → All P (sort ss)
  unfolding sort
  sort-All [] all = tt
  sort-All (s ∷ ss) all = insert_section-All s (sort ss) all.0 (sort-All ss all.1)

above :
    (m n : ℕ) (ts : List SectionRange)
    → m ≤ n
    → All (λ t. n ≤ t.offset) ts
    → All (λ t. m ≤ t.offset) ts
above m n [] h all = tt
above m n (t ∷ ts) h all = (omega (arith, h, all.0), above m n ts h all.1)

insert_section-Increasing :
    (s : SectionRange) (ts : List SectionRange) → Increasing ts → Increasing (insert_section s ts)
unfolding insert_section
insert_section-Increasing s [] h = (tt, tt)
insert_section-Increasing s (t ∷ ts) h =
    if_cases Increasing (leb s.offset t.offset)
      (λ e. ((ground (arith, e), above s.offset t.offset ts (ground (arith, e)) h.0), h))
      (λ e. (
        insert_section-All (λ u. t.offset ≤ u.offset) s ts (ground (arith, e)) h.0,
        insert_section-Increasing s ts h.1,
      ))

permᴰ_refl : (ss : List SectionRange) → Permᴰ ss ss
permᴰ_refl [] = Permᴰ.nil
permᴰ_refl (s ∷ ss) = Permᴰ.cons refl (permᴰ_refl ss)

insert_section-permᴰ :
    (s : SectionRange) (ts : List SectionRange) → Permᴰ (s ∷ ts) (insert_section s ts)
unfolding insert_section
insert_section-permᴰ s [] = permᴰ_refl (s ∷ [])
insert_section-permᴰ s (t ∷ ts) =
    if_cases (Permᴰ (s ∷ (t ∷ ts))) (leb s.offset t.offset) (λ _. permᴰ_refl (s ∷ (t ∷ ts)))
      (λ _. Permᴰ.trans (Permᴰ.swap refl refl) (Permᴰ.cons refl (insert_section-permᴰ s ts)))

pub sort-permᴰ : (ss : List SectionRange) → Permᴰ ss (sort ss)
unfolding sort
sort-permᴰ [] = Permᴰ.nil
sort-permᴰ (s ∷ ss) =
    Permᴰ.trans (Permᴰ.cons refl (sort-permᴰ ss)) (insert_section-permᴰ s (sort ss))

pub sort-Increasing : (ss : List SectionRange) → Increasing (sort ss)
unfolding sort
sort-Increasing [] = tt
sort-Increasing (s ∷ ss) = insert_section-Increasing s (sort ss) (sort-Increasing ss)
