-- ===== src/Base/Numerals.antt =====
-- Reading back what std::to_string writes.
use Prim.Native.Nat.{ℕ, zero, suc, ◌+◌, ◌*◌, ◌/◌, ◌%◌, ◌-◌, ◌^◌, ◌<◌}
use mathlib.Core.Path.{◌≡◌, refl, ap, ◌∙◌}
use mathlib.Core.Bool.{Bool, true, false, ◌&&◌, ◌||◌}
use mathlib.Core.Option.{Option, none, some}
use mathlib.Core.List.{[], ◌∷◌}
use native.Mathlib.Omega.{arith}
use gcad.Base.Tests.{ltb, leb, ◌==◌, if◌then◌else◌, if_cases}
use gcad.Base.Lines.{contains}
use gcad.Base.Bytes.{Bytes, to_string, decimal_loop}

abbrev pub is_digit : ℕ → Bool
is_digit c = leb 48 c && leb c 57

abbrev pub is_space : ℕ → Bool
is_space c = (c == 32) || (leb 9 c && leb c 13)

-- The number of the digits at the start, behind `acc`.
unfoldable pub digits_value : ℕ → Bytes → ℕ
digits_value acc [] = acc
digits_value acc (c ∷ cs) =
    let later = digits_value (acc * 10 + (c - 48)) cs in if is_digit c then later else acc

unfoldable pub skip_spaces : Bytes → Bytes
skip_spaces [] = []
skip_spaces (c ∷ cs) = let later = skip_spaces cs in if is_space c then later else c ∷ cs

-- A sign, where there is one.
abbrev pub take_sign : Bytes → Bool × Bytes
take_sign [] = (false, [])
take_sign (c ∷ cs) =
    if c == b'-' then (true, cs) else if c == b'+' then (false, cs) else (false, c ∷ cs)

abbrev pub begins_with_digit : Bytes → Bool
begins_with_digit [] = false
begins_with_digit (c ∷ _) = is_digit c

abbrev finish : Bool × Bytes → Option (Bool × ℕ)
finish (negative, rest) =
    if begins_with_digit rest then some (negative, digits_value 0 rest) else none

-- The sign and the size of the number at the start, behind spaces; what follows is passed over.
unfoldable pub to_integer : Bytes → Option (Bool × ℕ)
unfolding digits_value skip_spaces
to_integer s = finish (take_sign (skip_spaces s))

-- Whether an `int` holds the number.
abbrev in_range : Option (Bool × ℕ) → Option (Bool × ℕ)
in_range none = none
in_range (some n) = if leb n.1 (if n.0 then 2 ^ 31 else 2 ^ 31 - 1) then some n else none

-- std::stoi: none where it throws.
unfoldable pub stoi : Bytes → Option (Bool × ℕ)
unfolding to_integer
stoi s = in_range (to_integer s)

-- A digit at the start.
one_more :
    (n d : ℕ) (acc : Bytes)
    → d < 10
    → digits_value n ((48 + d) ∷ acc) ≡ digits_value (n * 10 + d) acc
unfolding digits_value
one_more n d acc h =
    if_cases (λ r. r ≡ digits_value (n * 10 + d) acc) (is_digit (48 + d))
      (λ _. ap (λ m. digits_value m acc) (omega arith)) (λ e. absurd (ground (arith, e, h)))

digits_value-decimal_loop :
    (fuel n : ℕ) (acc : Bytes)
    → n < fuel
    → digits_value 0 (decimal_loop fuel n acc) ≡ digits_value n acc
unfolding decimal_loop digits_value
digits_value-decimal_loop zero n acc h = absurd (omega arith)
digits_value-decimal_loop (suc fuel) n acc h =
    if_cases (λ r. digits_value 0 r ≡ digits_value n acc) (ltb n 10)
      (λ e.
        one_more 0 n acc (ground (arith, e))
        ∙ ap (λ m. digits_value m acc) {x = 0 * 10 + n} {y = n} (omega arith))
      (λ e.
        digits_value-decimal_loop fuel (n / 10) ((48 + n % 10) ∷ acc) (ground (arith, e, h))
        ∙ one_more (n / 10) (n % 10) acc (omega arith)
        ∙ ap (λ m. digits_value m acc) (omega arith))

decimal_loop_begins :
    (fuel n : ℕ) (acc : Bytes) → begins_with_digit (decimal_loop (suc fuel) n acc) ≡ true
unfolding decimal_loop
decimal_loop_begins zero n acc =
    if_cases (λ r. begins_with_digit r ≡ true) (ltb n 10) (λ e. ground (arith, e))
      (λ _. ground arith)
decimal_loop_begins (suc fuel) n acc =
    if_cases (λ r. begins_with_digit r ≡ true) (ltb n 10) (λ e. ground (arith, e))
      (λ _. decimal_loop_begins fuel (n / 10) ((48 + n % 10) ∷ acc))

-- A digit is neither a space nor a sign.
to_integer_digit :
    (s : Bytes) → begins_with_digit s ≡ true → to_integer s ≡ some (false, digits_value 0 s)
unfolding to_integer skip_spaces
to_integer_digit [] h = cc
to_integer_digit (c ∷ cs) h =
    ap (λ r. finish (take_sign r))
      (if_cases (λ r. r ≡ c ∷ cs) (is_space c) {x = skip_spaces cs}
        (λ e. absurd (ground (arith, e, h))) (λ _. refl))
    ∙ ap finish (
        if_cases (λ r. r ≡ (false, c ∷ cs)) (c == b'-') {x = (true, cs)}
          (λ e. absurd (ground (arith, e, h)))
          (λ _.
            if_cases (λ r. r ≡ (false, c ∷ cs)) (c == b'+') {x = (false, cs)}
              (λ e. absurd (ground (arith, e, h))) (λ _. refl)))
    ∙ if_cases (λ r. r ≡ some (false, digits_value 0 (c ∷ cs))) (is_digit c) {y = none} (λ _. refl)
        (λ e. absurd (ground (arith, e, h)))

-- What std::to_string writes is read back.
pub to_integer-to_string : (n : ℕ) → to_integer (to_string n) ≡ some (false, n)
unfolding to_string digits_value
to_integer-to_string n =
    to_integer_digit (decimal_loop (suc n) n []) (decimal_loop_begins n n [])
    ∙ ap (λ m. some (false, m)) (digits_value-decimal_loop (suc n) n [] (omega arith) ∙ nothing n)
  where
    nothing : (m : ℕ) → digits_value m [] ≡ m
    nothing m = refl

-- Numbers that an `int` holds.
pub stoi-to_string : (n : ℕ) → n < 2 ^ 31 → stoi (to_string n) ≡ some (false, n)
unfolding stoi
stoi-to_string n h =
    ap in_range (to_integer-to_string n)
    ∙ if_cases (λ r. r ≡ some (false, n)) (leb n (2 ^ 31 - 1)) {y = none} (λ _. refl)
        (λ e. absurd (ground (arith, e, h)))

decimal_loop-plain :
    (c fuel n : ℕ) (acc : Bytes)
    → is_digit c ≡ false
    → contains c acc ≡ false
    → contains c (decimal_loop fuel n acc) ≡ false
unfolding decimal_loop contains
decimal_loop-plain c zero n acc h k = k
decimal_loop-plain c (suc fuel) n acc h k =
    if_cases (λ r. contains c r ≡ false) (ltb n 10) (λ e. ground (arith, e, h, k))
      (λ e.
        decimal_loop-plain c fuel (n / 10) ((48 + n % 10) ∷ acc) h (digit (n % 10) (omega arith)))
  where
    digit : (d : ℕ) → d < 10 → contains c ((48 + d) ∷ acc) ≡ false
    digit d e = ground (arith, e, h, k)

-- A number is written in digits.
pub contains-to_string : (c n : ℕ) → is_digit c ≡ false → contains c (to_string n) ≡ false
unfolding to_string contains
contains-to_string c n h = decimal_loop-plain c (suc n) n [] h refl
