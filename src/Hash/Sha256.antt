-- ===== src/Hash/Sha256.antt =====
-- include/gcad/common.hpp, the class SHA256: the compression function on 32-bit words, whose sums are cut
-- at 2 ^ 32; `~x` is 2 ^ 32 - 1 - x.
pub mod Correct
use gcad.Base.{
  length, drop, take, leb, ltb, zero, suc, if◌then◌else◌, ℕ, zero, suc, ◌+◌, ◌-◌, ◌*◌, ◌/◌, ◌%◌,
  ◌^◌, List, [], ◌∷◌, ◌++◌, Option, none, some, get_or,
}
use gcad.Base.Bytes.{Bytes}
use gcad.Hash
use gcad.Hash.{Context, big_endian_64, hex}
use Prim.Native.Nat.{bit_and, bit_or, bit_xor}

abbrev word : ℕ
word = 2 ^ 32

abbrev pub round_constants : List ℕ
round_constants =
    0x428a2f98 ∷ 0x71374491 ∷ 0xb5c0fbcf ∷ 0xe9b5dba5 ∷ 0x3956c25b ∷ 0x59f111f1 ∷ 0x923f82a4
    ∷ 0xab1c5ed5 ∷ 0xd807aa98 ∷ 0x12835b01 ∷ 0x243185be ∷ 0x550c7dc3 ∷ 0x72be5d74 ∷ 0x80deb1fe
    ∷ 0x9bdc06a7 ∷ 0xc19bf174 ∷ 0xe49b69c1 ∷ 0xefbe4786 ∷ 0x0fc19dc6 ∷ 0x240ca1cc ∷ 0x2de92c6f
    ∷ 0x4a7484aa ∷ 0x5cb0a9dc ∷ 0x76f988da ∷ 0x983e5152 ∷ 0xa831c66d ∷ 0xb00327c8 ∷ 0xbf597fc7
    ∷ 0xc6e00bf3 ∷ 0xd5a79147 ∷ 0x06ca6351 ∷ 0x14292967 ∷ 0x27b70a85 ∷ 0x2e1b2138 ∷ 0x4d2c6dfc
    ∷ 0x53380d13 ∷ 0x650a7354 ∷ 0x766a0abb ∷ 0x81c2c92e ∷ 0x92722c85 ∷ 0xa2bfe8a1 ∷ 0xa81a664b
    ∷ 0xc24b8b70 ∷ 0xc76c51a3 ∷ 0xd192e819 ∷ 0xd6990624 ∷ 0xf40e3585 ∷ 0x106aa070 ∷ 0x19a4c116
    ∷ 0x1e376c08 ∷ 0x2748774c ∷ 0x34b0bcb5 ∷ 0x391c0cb3 ∷ 0x4ed8aa4a ∷ 0x5b9cca4f ∷ 0x682e6ff3
    ∷ 0x748f82ee ∷ 0x78a5636f ∷ 0x84c87814 ∷ 0x8cc70208 ∷ 0x90befffa ∷ 0xa4506ceb ∷ 0xbef9a3f7
    ∷ 0xc67178f2 ∷ []

unfoldable pub rotr : ℕ → ℕ → ℕ
rotr x n = bit_or (x / 2 ^ n) (x * 2 ^ (32 - n) % word)

unfoldable pub ch : ℕ → ℕ → ℕ → ℕ
ch x y z = bit_xor (bit_and x y) (bit_and (word - 1 - x) z)

unfoldable pub maj : ℕ → ℕ → ℕ → ℕ
maj x y z = bit_xor (bit_xor (bit_and x y) (bit_and x z)) (bit_and y z)

unfoldable pub ep0 : ℕ → ℕ
unfolding rotr
ep0 x = bit_xor (bit_xor (rotr x 2) (rotr x 13)) (rotr x 22)

unfoldable pub ep1 : ℕ → ℕ
unfolding rotr
ep1 x = bit_xor (bit_xor (rotr x 6) (rotr x 11)) (rotr x 25)

unfoldable pub sig0 : ℕ → ℕ
unfolding rotr
sig0 x = bit_xor (bit_xor (rotr x 7) (rotr x 18)) (x / 2 ^ 3)

unfoldable pub sig1 : ℕ → ℕ
unfolding rotr
sig1 x = bit_xor (bit_xor (rotr x 17) (rotr x 19)) (x / 2 ^ 10)

-- The first sixteen words, four bytes each.
unfoldable pub words : Bytes → List ℕ
words (p ∷ (q ∷ (r ∷ (s ∷ rest)))) =
    bit_or (bit_or (bit_or (p * 2 ^ 24 % word) (q * 2 ^ 16 % word)) (r * 2 ^ 8 % word)) s
    ∷ words rest
words _ = []

-- The loop that extends the words, from index i on for n rounds.
unfoldable pub extend : ℕ → ℕ → List ℕ → List ℕ
unfolding sig0 sig1
extend zero i w = w
extend (suc n) i w =
    let next =
      (sig1 (get_or w (i - 2) 0)
        + get_or w (i - 7) 0
        + sig0 (get_or w (i - 15) 0)
        + get_or w (i - 16) 0)
      % word in
    extend n (i + 1) (w ++ (next ∷ []))

-- The eight working variables, and `state_`.
pub record Words : Type 0 where
  pub a : ℕ
  pub b : ℕ
  pub c : ℕ
  pub d : ℕ
  pub e : ℕ
  pub f : ℕ
  pub g : ℕ
  pub h : ℕ

-- The body of the main loop, with K[i] and w[i].
unfoldable pub round : ℕ → ℕ → Words → Words
unfolding ep0 ep1 ch maj
round k w v =
    let t1 = (v.h + ep1 v.e + ch v.e v.f v.g + k + w) % word in
    let t2 = (ep0 v.a + maj v.a v.b v.c) % word in
    record {
      a = (t1 + t2) % word;
      b = v.a;
      c = v.b;
      d = v.c;
      e = (v.d + t1) % word;
      f = v.e;
      g = v.f;
      h = v.g;
    }

unfoldable pub rounds : List ℕ → List ℕ → Words → Words
unfolding round
rounds [] w v = v
rounds (k ∷ ks) [] v = v
rounds (k ∷ ks) (w ∷ ws) v = rounds ks ws (round k w v)

-- `state_[i] += ...`
unfoldable pub add_words : Words → Words → Words
add_words s v = record {
  a = (s.a + v.a) % word;
  b = (s.b + v.b) % word;
  c = (s.c + v.c) % word;
  d = (s.d + v.d) % word;
  e = (s.e + v.e) % word;
  f = (s.f + v.f) % word;
  g = (s.g + v.g) % word;
  h = (s.h + v.h) % word;
}

unfoldable pub transform : Words → Bytes → Words
unfolding words extend rounds add_words
transform s block = add_words s (rounds round_constants (extend 48 16 (words block)) s)

abbrev pub initial : Words
initial = record {
  a = 0x6a09e667;
  b = 0xbb67ae85;
  c = 0x3c6ef372;
  d = 0xa54ff53a;
  e = 0x510e527f;
  f = 0x9b05688c;
  g = 0x1f83d9ab;
  h = 0x5be0cd19;
}

abbrev pub reset : Context Words
reset = record { state = initial; buffer = []; bitcount = 0 }

unfoldable pub update : Context Words → Bytes → Context Words
update c bytes = Hash.update transform 64 c bytes

abbrev pub length_field : ℕ → Bytes
length_field bits = big_endian_64 bits

abbrev pub bytes_of : ℕ → Bytes → Bytes
bytes_of x rest =
    (x / 2 ^ 24 % 2 ^ 8) ∷ ((x / 2 ^ 16 % 2 ^ 8) ∷ ((x / 2 ^ 8 % 2 ^ 8) ∷ ((x % 2 ^ 8) ∷ rest)))

-- The bytes of the eight words.
unfoldable pub digest_bytes : Words → Bytes
digest_bytes s = bytes_of s.a (
    bytes_of s.b
      (bytes_of s.c (bytes_of s.d (bytes_of s.e (bytes_of s.f (bytes_of s.g (bytes_of s.h [])))))))

unfoldable pub finalize : Context Words → Bytes
unfolding digest_bytes
finalize c = digest_bytes (Hash.finalize transform 64 56 length_field c)

-- A null pointer comes with the length 0.
unfoldable pub hash_bytes : Bytes → Bytes
unfolding update finalize
hash_bytes bytes = hex (finalize (update reset bytes))

abbrev pub buffer_size : ℕ
buffer_size = 8192

-- The loop of reads on the bytes that are left, and the last read, which does not fill the buffer. With
-- fuel, a read each.
unfoldable pub read_loop : ℕ → Bytes → Context Words → Context Words
unfolding update
read_loop zero left ctx = ctx
read_loop (suc fuel) left ctx =
    let later = read_loop fuel (drop buffer_size left) (update ctx (take buffer_size left)) in
    if leb buffer_size (length left)
    then later
    else if ltb 0 (length left)
    then update ctx left
    else ctx

-- `none` is a file that cannot be opened, otherwise there are the bytes that it can be read for.
unfoldable pub hash_file : Option Bytes → Bytes
unfolding finalize read_loop
hash_file none = []
hash_file (some bytes) = hex (finalize (read_loop (suc (length bytes)) bytes reset))
