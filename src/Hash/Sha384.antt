-- ===== src/Hash/Sha384.antt =====
-- include/gcad/common.hpp, the class SHA384: the compression function on 64-bit words, whose sums are cut
-- at 2 ^ 64; `~x` is 2 ^ 64 - 1 - x.
pub mod Correct
use gcad.Base.{
  ℕ, zero, suc, ◌+◌, ◌-◌, ◌*◌, ◌/◌, ◌%◌, ◌^◌, List, [], ◌∷◌, ◌++◌, get_or, drop, replicate,
}
use gcad.Base.Bytes.{Bytes}
use gcad.Hash
use gcad.Hash.{Context, big_endian_64, hex}
use Prim.Native.Nat.{bit_and, bit_or, bit_xor}

abbrev word : ℕ
word = 2 ^ 64

abbrev pub round_constants : List ℕ
round_constants =
    0x428a2f98d728ae22 ∷ 0x7137449123ef65cd ∷ 0xb5c0fbcfec4d3b2f ∷ 0xe9b5dba58189dbbc
    ∷ 0x3956c25bf348b538 ∷ 0x59f111f1b605d019 ∷ 0x923f82a4af194f9b ∷ 0xab1c5ed5da6d8118
    ∷ 0xd807aa98a3030242 ∷ 0x12835b0145706fbe ∷ 0x243185be4ee4b28c ∷ 0x550c7dc3d5ffb4e2
    ∷ 0x72be5d74f27b896f ∷ 0x80deb1fe3b1696b1 ∷ 0x9bdc06a725c71235 ∷ 0xc19bf174cf692694
    ∷ 0xe49b69c19ef14ad2 ∷ 0xefbe4786384f25e3 ∷ 0x0fc19dc68b8cd5b5 ∷ 0x240ca1cc77ac9c65
    ∷ 0x2de92c6f592b0275 ∷ 0x4a7484aa6ea6e483 ∷ 0x5cb0a9dcbd41fbd4 ∷ 0x76f988da831153b5
    ∷ 0x983e5152ee66dfab ∷ 0xa831c66d2db43210 ∷ 0xb00327c898fb213f ∷ 0xbf597fc7beef0ee4
    ∷ 0xc6e00bf33da88fc2 ∷ 0xd5a79147930aa725 ∷ 0x06ca6351e003826f ∷ 0x142929670a0e6e70
    ∷ 0x27b70a8546d22ffc ∷ 0x2e1b21385c26c926 ∷ 0x4d2c6dfc5ac42aed ∷ 0x53380d139d95b3df
    ∷ 0x650a73548baf63de ∷ 0x766a0abb3c77b2a8 ∷ 0x81c2c92e47edaee6 ∷ 0x92722c851482353b
    ∷ 0xa2bfe8a14cf10364 ∷ 0xa81a664bbc423001 ∷ 0xc24b8b70d0f89791 ∷ 0xc76c51a30654be30
    ∷ 0xd192e819d6ef5218 ∷ 0xd69906245565a910 ∷ 0xf40e35855771202a ∷ 0x106aa07032bbd1b8
    ∷ 0x19a4c116b8d2d0c8 ∷ 0x1e376c085141ab53 ∷ 0x2748774cdf8eeb99 ∷ 0x34b0bcb5e19b48a8
    ∷ 0x391c0cb3c5c95a63 ∷ 0x4ed8aa4ae3418acb ∷ 0x5b9cca4f7763e373 ∷ 0x682e6ff3d6b2b8a3
    ∷ 0x748f82ee5defb2fc ∷ 0x78a5636f43172f60 ∷ 0x84c87814a1f0ab72 ∷ 0x8cc702081a6439ec
    ∷ 0x90befffa23631e28 ∷ 0xa4506cebde82bde9 ∷ 0xbef9a3f7b2c67915 ∷ 0xc67178f2e372532b
    ∷ 0xca273eceea26619c ∷ 0xd186b8c721c0c207 ∷ 0xeada7dd6cde0eb1e ∷ 0xf57d4f7fee6ed178
    ∷ 0x06f067aa72176fba ∷ 0x0a637dc5a2c898a6 ∷ 0x113f9804bef90dae ∷ 0x1b710b35131c471b
    ∷ 0x28db77f523047d84 ∷ 0x32caab7b40c72493 ∷ 0x3c9ebe0a15c9bebc ∷ 0x431d67c49c100d4c
    ∷ 0x4cc5d4becb3e42b6 ∷ 0x597f299cfc657e2a ∷ 0x5fcb6fab3ad6faec ∷ 0x6c44198c4a475817 ∷ []

unfoldable pub rotr : ℕ → ℕ → ℕ
rotr x n = bit_or (x / 2 ^ n) (x * 2 ^ (64 - n) % word)

unfoldable pub ch : ℕ → ℕ → ℕ → ℕ
ch x y z = bit_xor (bit_and x y) (bit_and (word - 1 - x) z)

unfoldable pub maj : ℕ → ℕ → ℕ → ℕ
maj x y z = bit_xor (bit_xor (bit_and x y) (bit_and x z)) (bit_and y z)

unfoldable pub ep0 : ℕ → ℕ
unfolding rotr
ep0 x = bit_xor (bit_xor (rotr x 28) (rotr x 34)) (rotr x 39)

unfoldable pub ep1 : ℕ → ℕ
unfolding rotr
ep1 x = bit_xor (bit_xor (rotr x 14) (rotr x 18)) (rotr x 41)

unfoldable pub sig0 : ℕ → ℕ
unfolding rotr
sig0 x = bit_xor (bit_xor (rotr x 1) (rotr x 8)) (x / 2 ^ 7)

unfoldable pub sig1 : ℕ → ℕ
unfolding rotr
sig1 x = bit_xor (bit_xor (rotr x 19) (rotr x 61)) (x / 2 ^ 6)

-- `for (b = 0; b < 8; ++b) w[i] = (w[i] << 8) | block[i * 8 + b];` on the bytes left.
unfoldable pub word_of : ℕ → ℕ → Bytes → ℕ
word_of zero acc bytes = acc
word_of (suc n) acc [] = acc
word_of (suc n) acc (b ∷ bytes) = word_of n (bit_or (acc * 2 ^ 8 % word) b) bytes

-- The first `n` words, eight bytes each.
unfoldable pub words : ℕ → Bytes → List ℕ
unfolding word_of
words zero bytes = []
words (suc n) bytes = word_of 8 0 bytes ∷ words n (drop 8 bytes)

-- The loop that extends the words, from index i on for n rounds.
unfoldable pub extend : ℕ → ℕ → List ℕ → List ℕ
unfolding sig0 sig1
extend zero i w = w
extend (suc n) i w =
    let next =
      (sig1 (get_or w (i - 2) 0)
        + get_or w (i - 7) 0
        + sig0 (get_or w (i - 15) 0)
        + get_or w (i - 16) 0)
      % word in
    extend n (i + 1) (w ++ (next ∷ []))

-- The eight working variables, and `state_`.
pub record Words : Type 0 where
  pub a : ℕ
  pub b : ℕ
  pub c : ℕ
  pub d : ℕ
  pub e : ℕ
  pub f : ℕ
  pub g : ℕ
  pub h : ℕ

-- The body of the main loop, with K[i] and w[i].
unfoldable pub round : ℕ → ℕ → Words → Words
unfolding ep0 ep1 ch maj
round k w v =
    let t1 = (v.h + ep1 v.e + ch v.e v.f v.g + k + w) % word in
    let t2 = (ep0 v.a + maj v.a v.b v.c) % word in
    record {
      a = (t1 + t2) % word;
      b = v.a;
      c = v.b;
      d = v.c;
      e = (v.d + t1) % word;
      f = v.e;
      g = v.f;
      h = v.g;
    }

unfoldable pub rounds : List ℕ → List ℕ → Words → Words
unfolding round
rounds [] w v = v
rounds (k ∷ ks) [] v = v
rounds (k ∷ ks) (w ∷ ws) v = rounds ks ws (round k w v)

-- `state_[i] += ...`
unfoldable pub add_words : Words → Words → Words
add_words s v = record {
  a = (s.a + v.a) % word;
  b = (s.b + v.b) % word;
  c = (s.c + v.c) % word;
  d = (s.d + v.d) % word;
  e = (s.e + v.e) % word;
  f = (s.f + v.f) % word;
  g = (s.g + v.g) % word;
  h = (s.h + v.h) % word;
}

unfoldable pub transform : Words → Bytes → Words
unfolding words extend rounds add_words
transform s block = add_words s (rounds round_constants (extend 64 16 (words 16 block)) s)

abbrev pub initial : Words
initial = record {
  a = 0xcbbb9d5dc1059ed8;
  b = 0x629a292a367cd507;
  c = 0x9159015a3070dd17;
  d = 0x152fecd8f70e5939;
  e = 0x67332667ffc00b31;
  f = 0x8eb44a8768581511;
  g = 0xdb0c2e0d64f98fa7;
  h = 0x47b5481dbefa4fa4;
}

abbrev pub reset : Context Words
reset = record { state = initial; buffer = []; bitcount = 0 }

unfoldable pub update : Context Words → Bytes → Context Words
update c bytes = Hash.update transform 128 c bytes

-- The upper 64 bits of the length are written as zeros.
abbrev pub length_field : ℕ → Bytes
length_field bits = replicate 8 0 ++ big_endian_64 bits

-- The bytes of six of the eight words.
unfoldable pub digest_bytes : Words → Bytes
digest_bytes s =
    big_endian_64 s.a
    ++ (big_endian_64 s.b
        ++ (big_endian_64 s.c ++ (big_endian_64 s.d ++ (big_endian_64 s.e ++ big_endian_64 s.f))))

unfoldable pub finalize : Context Words → Bytes
unfolding digest_bytes
finalize c = digest_bytes (Hash.finalize transform 128 112 length_field c)

-- A null pointer comes with the length 0.
unfoldable pub hash_bytes : Bytes → Bytes
unfolding update finalize
hash_bytes bytes = hex (finalize (update reset bytes))
