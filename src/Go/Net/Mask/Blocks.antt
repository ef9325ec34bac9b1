-- ===== src/Go/Net/Mask/Blocks.antt =====
-- What a mask leaves of an address, and the blocks of IPv4 addresses.
use network_controller.Common.{
  ℕ, zero, suc, ◌+◌, ◌-◌, ◌*◌, ◌/◌, ◌^◌, ◌≤◌, ◌<◌, ◌≡◌, refl, ap, ap₂, ◌∙◌, true, inl, inr, [], ◌∷◌,
  arith, length, bit_and, leb, ◌==◌, ==_iff, Bool-cases,
}
use network_controller.Go.Text.{Bytes}
use network_controller.Go.Net.{cidr_mask, and_bytes}
use network_controller.Go.Net.Mask.{
  pow256, value, AllBytes, block, blocks, all_below, all_below_sound, mask-byte, full-byte,
  pow256-pos, value-lt, blocks-block, block-pos, zero-byte, cut_below, cut_inside, digits_unique,
}

value-zero_mask : (xs : Bytes) → AllBytes xs → value (and_bytes xs (cidr_mask 0 (length xs))) ≡ 0
unfolding and_bytes cidr_mask
value-zero_mask [] h = refl
value-zero_mask (x ∷ xs) h = rw (zero-byte x h.0) (omega (arith, value-zero_mask xs h.1))

pub length-and_bytes :
    (p : ℕ) (xs : Bytes) → length (and_bytes xs (cidr_mask p (length xs))) ≡ length xs
unfolding and_bytes cidr_mask
length-and_bytes p [] = refl
length-and_bytes p (x ∷ xs) = ground (arith, length-and_bytes (p - 8) xs, length-and_bytes 0 xs)

pub length-cidr_mask : (p l : ℕ) → length (cidr_mask p l) ≡ l
unfolding cidr_mask
length-cidr_mask p zero = refl
length-cidr_mask p (suc l) = ground (arith, length-cidr_mask (p - 8) l, length-cidr_mask 0 l)

-- The first address of the block: what a mask of `p` ones leaves of an address.
pub value-and_bytes :
    (p : ℕ) (xs : Bytes)
    → AllBytes xs
    → p ≤ 8 * length xs
    → value (and_bytes xs (cidr_mask p (length xs)))
      ≡ value xs / block p (length xs) * block p (length xs)
unfolding and_bytes cidr_mask
value-and_bytes p [] h b = refl
value-and_bytes p (x ∷ xs) h b = elim (Bool-cases (leb 8 p)) [
  | inl big ↦
      let f = blocks (p - 8) (length xs) in
      let e = block (p - 8) (length xs) in
      let split : f * e ≡ pow256 (length xs) = blocks-block (p - 8) (length xs) (omega arith) in
      let q : (x * pow256 (length xs) + value xs) / e ≡ x * f + value xs / e =
        rw (← split) (cut_below x f e (value xs) (block-pos (p - 8) (length xs) (omega arith))) in
      rw big (
        rw
          (
            full-byte x h.0,
            length-and_bytes (p - 8) xs,
            value-and_bytes (p - 8) xs h.1 (omega arith),
            q,
          )
          (omega (arith, ap (λ t. x * t) split)))
  | inr small ↦ rw small (
      rw
        (
          mask-byte p x (ground arith) h.0,
          length-and_bytes 0 xs,
          value-zero_mask xs h.1,
          cut_inside x (2 ^ (8 - p)) (pow256 (length xs)) (value xs) (pow256-pos (length xs))
              (value-lt xs h.1),
        )
        (omega arith))
]

masked-byte-lt : (p x : ℕ) → p < 8 → x < 256 → bit_and x (255 - 255 / 2 ^ p) < 256
masked-byte-lt p x hp hx = rw (mask-byte p x hp hx) (omega arith)

pub and_bytes-AllBytes :
    (p : ℕ) (xs : Bytes) → AllBytes xs → AllBytes (and_bytes xs (cidr_mask p (length xs)))
unfolding and_bytes cidr_mask
and_bytes-AllBytes p [] h = tt
and_bytes-AllBytes p (x ∷ xs) h = elim (Bool-cases (leb 8 p)) [
  | inl big ↦ rw big (rw (full-byte x h.0) h.0, and_bytes-AllBytes (p - 8) xs h.1)
  | inr small ↦ rw small (masked-byte-lt p x (ground arith) h.0, and_bytes-AllBytes 0 xs h.1)
]

-- Two byte strings of one length that spell the same number are equal.
pub value-injective :
    (xs ys : Bytes)
    → length xs ≡ length ys
    → AllBytes xs
    → AllBytes ys
    → value xs ≡ value ys
    → xs ≡ ys
value-injective [] [] e h k q = refl
value-injective [] (y ∷ ys) e h k q = absurd (omega arith)
value-injective (x ∷ xs) [] e h k q = absurd (omega arith)
value-injective (x ∷ xs) (y ∷ ys) e h k q =
    let same : length xs ≡ length ys = omega arith in
    let (heads, tails) =
      digits_unique x y (value xs) (value ys) (pow256 (length xs)) (value-lt xs h.1)
        (omega (arith, value-lt ys k.1, ap pow256 same)) (q ∙ rw (← same)) in
    ap₂ ◌∷◌ heads (value-injective xs ys same h.1 k.1 tails)

block_table : all_below 33 (λ p. block p 4 == 2 ^ (32 - p)) ≡ true
unfolding all_below
block_table = refl

-- Of IPv4 addresses 2 ^ (32 - p) share a prefix of `p` bits.
pub block-four : (p : ℕ) → p ≤ 32 → block p 4 ≡ 2 ^ (32 - p)
block-four p h = (==_iff _ _).0 (all_below_sound 33 _ p block_table (omega arith))

four_table : all_below 33 (λ p. 2 ^ p * 2 ^ (32 - p) == 2 ^ 32) ≡ true
unfolding all_below
four_table = refl

pub blocks-four : (p : ℕ) → p ≤ 32 → 2 ^ p * 2 ^ (32 - p) ≡ 2 ^ 32
blocks-four p h = (==_iff _ _).0 (all_below_sound 33 _ p four_table (omega arith))
