-- ===== src/Security/Reading.antt =====
-- Reading bytes behind a pointer, for src/security/asn1.cpp, src/security/x509.cpp and
-- src/security/pe_authenticode_hash.cpp: reading past the buffer, which is undefined behaviour, is the
-- result `fault`, a returned nullopt is `rejected`.
pub mod Safe
use gcad.Base.{
  ℕ, ◌+◌, ◌*◌, ◌%◌, ◌^◌, Bool, true, false, [], ◌∷◌, Option, none, some, if◌then◌else◌, ltb,
  get_elem?, take, drop, length,
}
use gcad.Base.Bytes.{Bytes}

pub data Parsed {ℓ} (A : Type ℓ) : Type ℓ where
  fault : Parsed A
  rejected : Parsed A
  parsed : A → Parsed A

abbrev pub and_then {ℓ κ} : {A : Type ℓ} {B : Type κ} → Parsed A → (A → Parsed B) → Parsed B
and_then fault f = fault
and_then rejected f = rejected
and_then (parsed a) f = f a

infixl 5 ◌>>=◌ ◌>>◌
abbrev pub ◌>>=◌ {ℓ κ} : {A : Type ℓ} {B : Type κ} → Parsed A → (A → Parsed B) → Parsed B
r >>= f = and_then r f

abbrev pub ◌>>◌ {ℓ} : {B : Type ℓ} → Parsed (Unit {0}) → Parsed B → Parsed B
r >> k = and_then r (λ _. k)

-- `if (!test) return std::nullopt;`
abbrev pub guard : Bool → Parsed (Unit {0})
guard true = parsed tt
guard false = rejected

read_option : Option ℕ → Parsed ℕ
read_option none = fault
read_option (some b) = parsed b

unfoldable pub read : Bytes → ℕ → Parsed ℕ
unfolding read_option
read buf pos = read_option (get_elem? buf pos)

-- `n` bytes from `start` on.
abbrev pub slice : Bytes → ℕ → ℕ → Bytes
slice buf start n = take n (drop start buf)

-- The bytes from `data + offset` on, as many as `n`.
unfoldable pub copy : Bytes → ℕ → ℕ → Parsed Bytes
copy data_ offset n =
    if ltb (length data_) (offset + n) then fault else parsed (slice data_ offset n)
