-- ===== src/Tests/Numbers.antt =====
-- Arithmetic on the limbs of 2 ^ 32 + 3, 2 ^ 32 - 1 and small numbers.
use gcad.Base.{◌^◌, ◌%◌, ◌≡◌, [], ◌∷◌, some, arith}
use gcad.Security.Bignum.{Limbs, from_bytes_be, to_bytes_be, mod_pow}
use gcad.Security.Bignum.Value.{value, IsLimbs, IsNormal}
use gcad.Security.Bignum.Printed.{from_bytes_be-to_bytes_be}
use gcad.Base.Bytes.{Bytes}
use gcad.Security.Bignum.Power.{mod_pow_lem}

abbrev wide : Limbs
wide = 3 ∷ 1 ∷ []

abbrev full : Limbs
full = 0xffffffff ∷ []

abbrev small : Limbs
small = 7 ∷ []

wide-IsLimbs : IsLimbs wide
wide-IsLimbs = (omega arith, (omega arith, tt))

full-IsLimbs : IsLimbs full
full-IsLimbs = (omega arith, tt)

wide-IsNormal : IsNormal wide
wide-IsNormal = (omega arith, omega arith, (omega arith, omega arith, tt))

small-IsNormal : IsNormal small
small-IsNormal = (omega arith, omega arith, tt)

mod_pow_lem_example :
    (value (mod_pow small small wide) ≡ value small ^ value small % value wide)
    × IsNormal (mod_pow small small wide)
mod_pow_lem_example =
    mod_pow_lem small small wide small-IsNormal small-IsNormal wide-IsNormal (omega arith)

-- 2 ^ 32 + 3 behind a zero byte.
abbrev octets : Bytes
octets = 0 ∷ 1 ∷ 0 ∷ 0 ∷ 0 ∷ 3 ∷ []

from_bytes_be-to_bytes_be_example : from_bytes_be (some (to_bytes_be wide 8)) ≡ wide
from_bytes_be-to_bytes_be_example = from_bytes_be-to_bytes_be wide 8 wide-IsNormal
