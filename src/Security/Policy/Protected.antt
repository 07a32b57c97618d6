-- ===== src/Security/Policy/Protected.antt =====
-- `is_protected_path` against prefixes, character by character.
use gcad.Base.{ℕ, ◌+◌, ◌≤◌, ◌≡◌, refl, ◌↔◌, true, List, [], ◌∷◌, arith, ◌⊎◌, inl, inr, Bool-cases}
use gcad.Base.Bytes.{Bytes}
use gcad.Security.Policy.{
  LocalSecurityPolicy, ascii_lower, fold_char, path_starts_with, any_prefix, is_protected_path,
}

abbrev pub IsCapital : ℕ → Type 0
IsCapital c = (b'A' ≤ c) × (c ≤ b'Z')

abbrev pub IsSlash : ℕ → Type 0
IsSlash c = (c ≡ b'/') ⊎ (c ≡ b'\\')

-- The same character, both slashes of either kind, or a letter in either case.
abbrev pub IsSame : ℕ → ℕ → Type 0
IsSame a b =
    (a ≡ b)
    ⊎ ((IsSlash a × IsSlash b) ⊎ ((IsCapital a × (b ≡ a + 32)) ⊎ (IsCapital b × (a ≡ b + 32))))

-- `prefix` begins `path`, up to case and the kind of slash.
abbrev pub Begins : Bytes → Bytes → Type 0
Begins path [] = Unit
Begins [] (q ∷ prefix) = ⊥
Begins (p ∷ path) (q ∷ prefix) = IsSame p q × Begins path prefix

-- Some prefix of the list begins `path`.
abbrev pub SomeBegins : Bytes → List Bytes → Type 0
SomeBegins path [] = ⊥
SomeBegins path (prefix ∷ rest) = Begins path prefix ⊎ SomeBegins path rest

fold_char_iff : (a b : ℕ) → (fold_char a ≡ fold_char b) ↔ IsSame a b
unfolding fold_char ascii_lower
fold_char_iff a b = (λ h. ground (arith, h), λ h. ground (arith, h))

starts→Begins : (path prefix : Bytes) → path_starts_with path prefix ≡ true → Begins path prefix
unfolding path_starts_with
starts→Begins path [] h = tt
starts→Begins [] (q ∷ prefix) h = cc
starts→Begins (p ∷ path) (q ∷ prefix) h =
    ((fold_char_iff p q).0 (ground (arith, h)), starts→Begins path prefix (ground (arith, h)))

Begins→starts : (path prefix : Bytes) → Begins path prefix → path_starts_with path prefix ≡ true
unfolding path_starts_with
Begins→starts path [] h = refl
Begins→starts [] (q ∷ prefix) h = absurd h
Begins→starts (p ∷ path) (q ∷ prefix) h =
    ground (arith, (fold_char_iff p q).1 h.0, Begins→starts path prefix h.1)

any→Some : (path : Bytes) (ps : List Bytes) → any_prefix path ps ≡ true → SomeBegins path ps
unfolding any_prefix
any→Some path [] h = cc
any→Some path (q ∷ ps) h = elim (Bool-cases (path_starts_with path q)) [
  | inl e ↦ inl (starts→Begins path q e)
  | inr e ↦ inr (any→Some path ps (ground arith))
]

Some→any : (path : Bytes) (ps : List Bytes) → SomeBegins path ps → any_prefix path ps ≡ true
unfolding any_prefix
Some→any path [] s = absurd s
Some→any path (q ∷ ps) (inl h) = ground (arith, Begins→starts path q h)
Some→any path (q ∷ ps) (inr s) = ground (arith, Some→any path ps s)

-- A path is protected exactly when one of the policy's prefixes begins it, with letters compared
-- without case (A to Z only) and a backslash as a slash.
pub is_protected_path_iff :
    (path : Bytes) (policy : LocalSecurityPolicy)
    → (is_protected_path path policy ≡ true) ↔ SomeBegins path policy.protected_path_prefixes
unfolding is_protected_path
is_protected_path_iff path policy =
    (any→Some path policy.protected_path_prefixes, Some→any path policy.protected_path_prefixes)
