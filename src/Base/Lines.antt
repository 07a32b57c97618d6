-- ===== src/Base/Lines.antt =====
-- Text: std::getline, std::string::find, and the numbers of std::stoi as the code uses them. The
-- translation of line ends in text mode is left out.
use Prim.Native.Nat.{ℕ}
use mathlib.Core.Logic.{inl, inr}
use mathlib.Core.Path.{◌≡◌, refl, ap, ◌∙◌}
use mathlib.Core.Bool.{true, Bool, false, ◌||◌}
use mathlib.Core.Option.{Option, none, some}
use mathlib.Core.List.{List, [], ◌∷◌, ◌++◌}
use native.Mathlib.Omega.{arith}
use gcad.Base.Tests.{◌==◌, Bool-cases, if◌then◌else◌, if_cases}
use gcad.Base.Bytes.{Bytes, is_empty}

abbrev pub newline : ℕ
newline = 10

-- A character before the first line.
abbrev pub onto_first : ℕ → List Bytes → List Bytes
onto_first c [] = (c ∷ []) ∷ []
onto_first c (line ∷ lines) = (c ∷ line) ∷ lines

-- What a loop of std::getline reads: the last line may lack its end.
unfoldable pub lines : Bytes → List Bytes
lines [] = []
lines (c ∷ cs) = let rest = lines cs in if c == newline then [] ∷ rest else onto_first c rest

-- A character before the first part.
abbrev pub put : ℕ → Option (Bytes × Bytes) → Option (Bytes × Bytes)
put b none = none
put b (some parts) = some (b ∷ parts.0, parts.1)

-- What stands before the first character c and what behind it.
unfoldable pub split_at : ℕ → Bytes → Option (Bytes × Bytes)
split_at c [] = none
split_at c (b ∷ bs) = let later = split_at c bs in if b == c then some ([], bs) else put b later

-- The parts between the characters c.
unfoldable pub fields_of : ℕ → Bytes → List Bytes
fields_of c [] = [] ∷ []
fields_of c (b ∷ bs) = let rest = fields_of c bs in if b == c then [] ∷ rest else onto_first b rest

unfoldable pub contains : ℕ → Bytes → Bool
contains c [] = false
contains c (b ∷ bs) = (b == c) || contains c bs

-- A line without an end in it is read back, before what follows.
pub lines_cons :
    (line rest : Bytes)
    → contains newline line ≡ false
    → lines (line ++ (newline ∷ rest)) ≡ line ∷ lines rest
unfolding lines contains
lines_cons [] rest h = refl
lines_cons (c ∷ line) rest h =
    if_cases (λ r. r ≡ (c ∷ line) ∷ lines rest) (c == newline) (λ e. absurd (ground (arith, e, h)))
      (λ e. ap (onto_first c) (lines_cons line rest (ground (arith, e, h))))

-- A key without the separator is read back, with what follows it.
pub split_at-append :
    (c : ℕ) (key value : Bytes)
    → contains c key ≡ false
    → split_at c (key ++ (c ∷ value)) ≡ some (key, value)
unfolding split_at contains
split_at-append c [] value h =
    if_cases (λ r. r ≡ some ([], value)) (c == c) (λ _. refl) (λ e. absurd (ground (arith, e)))
split_at-append c (b ∷ key) value h =
    if_cases (λ r. r ≡ some (b ∷ key, value)) (b == c) (λ e. absurd (ground (arith, e, h)))
      (λ e. ap (put b) (split_at-append c key value (ground (arith, e, h))))

-- A part without the separator is read back, before those that follow.
pub fields_of-append :
    (c : ℕ) (part rest : Bytes)
    → contains c part ≡ false
    → fields_of c (part ++ (c ∷ rest)) ≡ part ∷ fields_of c rest
unfolding fields_of contains
fields_of-append c [] rest h =
    if_cases (λ r. r ≡ [] ∷ fields_of c rest) (c == c) (λ _. refl) (λ e. absurd (ground (arith, e)))
fields_of-append c (b ∷ part) rest h =
    if_cases (λ r. r ≡ (b ∷ part) ∷ fields_of c rest) (b == c) (λ e. absurd (ground (arith, e, h)))
      (λ e. ap (onto_first b) (fields_of-append c part rest (ground (arith, e, h))))

pub fields_of_one : (c : ℕ) (part : Bytes) → contains c part ≡ false → fields_of c part ≡ part ∷ []
unfolding fields_of contains
fields_of_one c [] h = refl
fields_of_one c (b ∷ part) h =
    if_cases (λ r. r ≡ (b ∷ part) ∷ []) (b == c) (λ e. absurd (ground (arith, e, h)))
      (λ e. ap (onto_first b) (fields_of_one c part (ground (arith, e, h))))

pub contains-append :
    (c : ℕ) (xs ys : Bytes)
    → contains c xs ≡ false
    → contains c ys ≡ false
    → contains c (xs ++ ys) ≡ false
unfolding contains
contains-append c [] ys h k = k
contains-append c (x ∷ xs) ys h k = ground (arith, h, contains-append c xs ys (ground (arith, h)) k)

-- Nothing, or lines that all have their ends.
unfoldable pub is_whole : Bytes → Bool
is_whole [] = true
is_whole (c ∷ []) = c == newline
is_whole (c ∷ (d ∷ cs)) = is_whole (d ∷ cs)

onto_first-append :
    (c : ℕ) (xs ys : List Bytes)
    → is_empty xs ≡ false
    → onto_first c (xs ++ ys) ≡ onto_first c xs ++ ys
onto_first-append c [] ys h = cc
onto_first-append c (x ∷ xs) ys h = refl

filled_lines : (c : ℕ) (cs : Bytes) → is_empty (lines (c ∷ cs)) ≡ false
unfolding lines
filled_lines c cs =
    if_cases (λ r. is_empty r ≡ false) (c == newline) {x = [] ∷ lines cs} (λ _. refl)
      (λ _. filled_onto (lines cs))
  where
    filled_onto : (ls : List Bytes) → is_empty (onto_first c ls) ≡ false
    filled_onto [] = refl
    filled_onto (l ∷ ls) = refl

-- What follows whole lines is read after them.
pub lines-append : (xs ys : Bytes) → is_whole xs ≡ true → lines (xs ++ ys) ≡ lines xs ++ lines ys
unfolding lines is_whole
lines-append [] ys h = refl
lines-append (c ∷ []) ys h = rw h refl
lines-append (c ∷ (d ∷ xs)) ys h = elim (Bool-cases (c == newline)) [
  | inl e ↦ rw e (ap (λ ls. [] ∷ ls) (lines-append (d ∷ xs) ys h))
  | inr e ↦ rw e (
      ap (onto_first c) (lines-append (d ∷ xs) ys h)
      ∙ onto_first-append c (lines (d ∷ xs)) (lines ys) (filled_lines d xs))
]
