-- ===== src/Security/Reading/Safe.antt =====
-- Results without a fault.
use gcad.Base.{ℕ, zero, suc, ◌<◌, ◌+◌, ◌≤◌, ◌≡◌, refl, [], ◌∷◌, arith, length, Bool, true, false}
use gcad.Base.Bytes.{Bytes}
use gcad.Security.Reading.{Parsed, and_then, guard, read, copy, slice, parsed}

-- No fault, and what was parsed satisfies P.
abbrev pub Within {ℓ} : {A : Type ℓ} → (A → Type 0) → Parsed A → Type 0
Within P Parsed.fault = ⊥
Within P Parsed.rejected = Unit
Within P (Parsed.parsed a) = P a

module _ {ℓ κ} {A : Type ℓ} {B : Type κ} (P : A → Type 0) (Q : B → Type 0) where
  pub and_then-Within :
      (r : Parsed A) (f : A → Parsed B)
      → Within P r
      → ((a : A) → P a → Within Q (f a))
      → Within Q (and_then r f)
  and_then-Within Parsed.fault f h k = h
  and_then-Within Parsed.rejected f h k = tt
  and_then-Within (Parsed.parsed a) f h k = k a h

module _ {ℓ κ} {A : Type ℓ} {B : Type κ} (P : A → Type 0) (Q : B → Type 0) where
  -- The same, where what follows knows what was parsed.
  pub and_then-known :
      (r : Parsed A) (f : A → Parsed B)
      → Within P r
      → ((a : A) → r ≡ parsed a → P a → Within Q (f a))
      → Within Q (and_then r f)
  and_then-known Parsed.fault f h k = h
  and_then-known Parsed.rejected f h k = tt
  and_then-known (Parsed.parsed a) f h k = k a refl h

module _ {ℓ} {A : Type ℓ} (P Q : A → Type 0) (implies : (a : A) → P a → Q a) where
  pub Within-mono : (r : Parsed A) → Within P r → Within Q r
  Within-mono Parsed.fault h = h
  Within-mono Parsed.rejected h = tt
  Within-mono (Parsed.parsed a) h = implies a h

pub read-Within : (buf : Bytes) (pos : ℕ) → pos < length buf → Within (λ _. Unit) (read buf pos)
unfolding read
read-Within [] pos h = absurd (omega arith)
read-Within (b ∷ buf) zero h = tt
read-Within (b ∷ buf) (suc pos) h = read-Within buf pos (omega arith)

module _ {ℓ} {A : Type ℓ} (Q : A → Type 0) where
  pub guard-Within :
      (b : Bool) (r : Parsed A) → (b ≡ true → Within Q r) → Within Q (and_then (guard b) (λ _. r))
  guard-Within true r h = h refl
  guard-Within false r h = tt

-- No read past the buffer.
abbrev pub NoFault {ℓ} : {A : Type ℓ} → Parsed A → Type 0
NoFault r = Within (λ _. Unit) r

module _ {ℓ κ} {A : Type ℓ} {B : Type κ} where
  pub then-NoFault :
      (r : Parsed A) (f : A → Parsed B)
      → NoFault r
      → ((a : A) → NoFault (f a))
      → NoFault (and_then r f)
  then-NoFault r f h k = and_then-Within (λ _. Unit) (λ _. Unit) r f h (λ a _. k a)

pub guard-NoFault : (b : Bool) → NoFault (guard b)
guard-NoFault true = tt
guard-NoFault false = tt

-- A copy from inside the buffer.
pub copy_inside :
    (buf : Bytes) (offset n : ℕ)
    → offset + n ≤ length buf
    → copy buf offset n ≡ parsed (slice buf offset n)
unfolding copy
copy_inside buf offset n h = ground (arith, h)
