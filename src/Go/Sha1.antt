-- ===== src/Go/Sha1.antt =====
-- `crypto/sha1`: the digest of a byte string (FIPS 180-1).
use network_controller.Common.{
  ℕ, zero, suc, ◌+◌, ◌-◌, ◌*◌, ◌/◌, ◌%◌, ◌^◌, List, [], ◌∷◌, ◌++◌, bit_and, bit_or, bit_xor, ltb,
  if◌then◌else◌, length, take, drop, replicate, get_or, reverse,
}
use network_controller.Go.Text.{Bytes}

rotate_left : ℕ → ℕ → ℕ
rotate_left n x = (x * 2 ^ n) % 2 ^ 32 + x / 2 ^ (32 - n)

complement : ℕ → ℕ
complement x = 2 ^ 32 - 1 - x

big_endian : ℕ → ℕ → Bytes
big_endian zero n = []
big_endian (suc k) n = (n / 256 ^ k % 256) ∷ big_endian k n

-- A one bit, zeros up to 56 bytes in the last block, and the length in bits.
pad : Bytes → Bytes
unfolding big_endian
pad s = s ++ (0x80 ∷ (replicate ((119 - length s % 64) % 64) 0 ++ big_endian 8 (8 * length s)))

words : Bytes → List ℕ
words (a ∷ b ∷ c ∷ d ∷ s) = (a * 2 ^ 24 + b * 2 ^ 16 + c * 2 ^ 8 + d) ∷ words s
words _ = []

-- The schedule, last word first: each new word mixes four of the sixteen before it.
extend : ℕ → List ℕ → List ℕ
unfolding rotate_left
extend zero ws = ws
extend (suc k) ws = extend k (
    rotate_left 1 (
      bit_xor (bit_xor (get_or ws 2 0) (get_or ws 7 0)) (bit_xor (get_or ws 13 0) (get_or ws 15 0)))
    ∷ ws)

record State : Type 0 where
  a : ℕ
  b : ℕ
  c : ℕ
  d : ℕ
  e : ℕ

mix : ℕ → State → ℕ
unfolding complement
mix t s =
    if ltb t 20
    then bit_or (bit_and s.b s.c) (bit_and (complement s.b) s.d)
    else if ltb t 40
    then bit_xor (bit_xor s.b s.c) s.d
    else if ltb t 60
    then bit_or (bit_or (bit_and s.b s.c) (bit_and s.b s.d)) (bit_and s.c s.d)
    else bit_xor (bit_xor s.b s.c) s.d

constant : ℕ → ℕ
constant t =
    if ltb t 20
    then 0x5a827999
    else if ltb t 40
    then 0x6ed9eba1
    else if ltb t 60
    then 0x8f1bbcdc
    else 0xca62c1d6

rounds : ℕ → List ℕ → State → State
unfolding mix constant rotate_left
rounds t [] s = s
rounds t (w ∷ ws) s = rounds (t + 1) ws (record {
  a = (rotate_left 5 s.a + mix t s + s.e + constant t + w) % 2 ^ 32;
  b = s.a;
  c = rotate_left 30 s.b;
  d = s.c;
  e = s.d;
})

add_states : State → State → State
add_states s t = record {
  a = (s.a + t.a) % 2 ^ 32;
  b = (s.b + t.b) % 2 ^ 32;
  c = (s.c + t.c) % 2 ^ 32;
  d = (s.d + t.d) % 2 ^ 32;
  e = (s.e + t.e) % 2 ^ 32;
}

blocks : ℕ → Bytes → State → State
unfolding rounds words extend add_states
blocks zero s st = st
blocks (suc k) s st =
    blocks k (drop 64 s)
      (add_states st (rounds 0 (reverse (extend 64 (reverse (words (take 64 s))))) st))

init : State
init = record { a = 0x67452301; b = 0xefcdab89; c = 0x98badcfe; d = 0x10325476; e = 0xc3d2e1f0 }

digest : State → Bytes
unfolding big_endian
digest s =
    big_endian 4 s.a
    ++ (big_endian 4 s.b ++ (big_endian 4 s.c ++ (big_endian 4 s.d ++ big_endian 4 s.e)))

-- `sha1.Sum`
unfoldable pub sha1_sum : Bytes → Bytes
unfolding blocks pad init digest
sha1_sum s = digest (blocks (length (pad s) / 64) (pad s) init)
