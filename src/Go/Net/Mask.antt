-- ===== src/Go/Net/Mask.antt =====
-- A prefix mask cuts the addresses into blocks of consecutive numbers.
pub mod Blocks
use native.Mathlib.Nat.{
  div-div-eq-div-mul, mul-add-div_right, div-eq_of_lt, div-lt_iff_lt-mul, eq_of_mul-eq-mul_right,
  mul_comm, mul_assoc,
}
use network_controller.Common.{
  ℕ, zero, suc, ◌+◌, ◌-◌, ◌*◌, ◌/◌, ◌%◌, ◌^◌, ◌≤◌, ◌<◌, ◌≡◌, ◌↔◌, refl, ap, ap₂, sym, ◌∙◌, Bool,
  true, false, ◌&&◌, inl, inr, List, [], ◌∷◌, arith, length, All, bit_and, leb, ltb, ◌==◌, ==_iff,
  if◌then◌else◌, Bool-cases,
}
use network_controller.Go.Text.{Bytes, beq}
use network_controller.Go.Text.Laws.{beq_iff}
use network_controller.Go.Net.{cidr_mask, and_bytes}

abbrev pub pow256 : ℕ → ℕ
pow256 zero = 1
pow256 (suc l) = 256 * pow256 l

-- The number that the bytes spell, last byte least.
abbrev pub value : Bytes → ℕ
value [] = 0
value (x ∷ xs) = x * pow256 (length xs) + value xs

abbrev pub AllBytes : Bytes → Type 0
AllBytes = All (λ b. b < 256)

-- How many addresses of `l` bytes share a prefix of `p` bits.
abbrev pub block : ℕ → ℕ → ℕ
block p zero = 1
block p (suc l) = let rest = block (p - 8) l in if leb 8 p then rest else 2 ^ (8 - p) * pow256 l

-- How many such prefixes there are.
abbrev pub blocks : ℕ → ℕ → ℕ
blocks p zero = 1
blocks p (suc l) = let rest = blocks (p - 8) l in if leb 8 p then 256 * rest else 2 ^ p

all_below : ℕ → (ℕ → Bool) → Bool
all_below zero f = true
all_below (suc n) f = f n && all_below n f

all_below_sound : (n : ℕ) (f : ℕ → Bool) (x : ℕ) → all_below n f ≡ true → x < n → f x ≡ true
unfolding all_below
all_below_sound zero f x h lt = absurd (omega arith)
all_below_sound (suc n) f x h lt = ground (arith, all_below_sound n f x)

mask_table :
    all_below 8
      (λ p. all_below 256 (λ x. bit_and x (255 - 255 / 2 ^ p) == x / 2 ^ (8 - p) * 2 ^ (8 - p)))
    ≡ true
unfolding all_below
mask_table = refl

-- A mask byte of `p` ones keeps the multiple of 2 ^ (8 - p) below.
mask-byte :
    (p x : ℕ) → p < 8 → x < 256 → bit_and x (255 - 255 / 2 ^ p) ≡ x / 2 ^ (8 - p) * 2 ^ (8 - p)
mask-byte p x hp hx =
    (==_iff _ _).0 (all_below_sound 256 _ x (all_below_sound 8 _ p mask_table hp) hx)

full_table : all_below 256 (λ x. bit_and x 255 == x) ≡ true
unfolding all_below
full_table = refl

full-byte : (x : ℕ) → x < 256 → bit_and x 255 ≡ x
full-byte x hx = (==_iff _ _).0 (all_below_sound 256 _ x full_table hx)

pub pow256-pos : (l : ℕ) → 0 < pow256 l
pow256-pos zero = omega arith
pow256-pos (suc l) = omega (arith, pow256-pos l)

pub value-lt : (xs : Bytes) → AllBytes xs → value xs < pow256 (length xs)
value-lt [] h = omega arith
value-lt (x ∷ xs) h = grind (arith, value-lt xs h.1)

pow_table : all_below 8 (λ p. 2 ^ p * 2 ^ (8 - p) == 256) ≡ true
unfolding all_below
pow_table = refl

pow-split : (p : ℕ) → p < 8 → 2 ^ p * 2 ^ (8 - p) ≡ 256
pow-split p h = (==_iff _ _).0 (all_below_sound 8 _ p pow_table h)

factor-pos : (a b : ℕ) → 0 < a * b → 0 < b
factor-pos a zero h = absurd (omega arith)
factor-pos a (suc b) h = omega arith

blocks-block : (p l : ℕ) → p ≤ 8 * l → blocks p l * block p l ≡ pow256 l
blocks-block p zero h = refl
blocks-block p (suc l) h = elim (Bool-cases (leb 8 p)) [
  | inl big ↦ rw big (rw mul_assoc (ap (λ t. 256 * t) (blocks-block (p - 8) l (omega arith))))
  | inr small ↦ rw small (rw (← mul_assoc) (rw (pow-split p (ground arith))))
]

pub block-pos : (p l : ℕ) → p ≤ 8 * l → 0 < block p l
block-pos p l h =
    factor-pos (blocks p l) (block p l) (omega (arith, blocks-block p l h, pow256-pos l))

zero-byte : (x : ℕ) → x < 256 → bit_and x 0 ≡ 0
zero-byte x h = mask-byte 0 x (omega arith) h ∙ omega arith

zero_mask :
    (xs ys : Bytes)
    → length xs ≡ length ys
    → AllBytes xs
    → AllBytes ys
    → and_bytes xs (cidr_mask 0 (length xs)) ≡ and_bytes ys (cidr_mask 0 (length ys))
unfolding and_bytes cidr_mask
zero_mask [] [] e h k = refl
zero_mask [] (y ∷ ys) e h k = absurd (omega arith)
zero_mask (x ∷ xs) [] e h k = absurd (omega arith)
zero_mask (x ∷ xs) (y ∷ ys) e h k =
    ap₂ ◌∷◌ (zero-byte x h.0 ∙ sym (zero-byte y k.0)) (zero_mask xs ys (omega arith) h.1 k.1)

-- A number whose digit above `m` is `x`, cut after that digit or inside it.
cut_below : (x f e v : ℕ) → 0 < e → (x * (f * e) + v) / e ≡ x * f + v / e
cut_below x f e v pos = rw (← mul_assoc) (mul-add-div_right pos (x * f) v)

cut_inside : (x d m v : ℕ) → 0 < m → v < m → (x * m + v) / (d * m) ≡ x / d
cut_inside x d m v pos lt =
    let top : (x * m + v) / m ≡ x = mul-add-div_right pos x v ∙ grind (arith, div-eq_of_lt lt) in
    rw (mul_comm d m, ← div-div-eq-div-mul, top)

pub quotient-lt : (v f e : ℕ) → v < f * e → v / e < f
quotient-lt v f e h = (div-lt_iff_lt-mul (factor-pos f e (omega arith))).1 h

top_digit : (x a f : ℕ) → a < f → (x * f + a) / f ≡ x
top_digit x a f h = mul-add-div_right {m = f} (omega arith) x a ∙ grind (arith, div-eq_of_lt h)

digits_unique : (x y a b f : ℕ) → a < f → b < f → x * f + a ≡ y * f + b → (x ≡ y) × (a ≡ b)
digits_unique x y a b f ha hb e =
    let same : x ≡ y = sym (top_digit x a f ha) ∙ ap (λ t. t / f) e ∙ top_digit y b f hb in
    (same, omega (arith, e, ap (λ t. t * f) same))

module _ (x y : ℕ) (hx : x < 256) (hy : y < 256) (xs ys : Bytes) (v w m : ℕ) (hv : v < m)
    (hw : w < m) where
  -- A whole byte of ones.
  whole_byte :
      (f e : ℕ)
      → f * e ≡ m
      → 0 < e
      → (xs ≡ ys) ↔ (v / e ≡ w / e)
      → (◌≡◌ {A = Bytes} (bit_and x 255 ∷ xs) (bit_and y 255 ∷ ys))
        ↔ ((x * m + v) / e ≡ (y * m + w) / e)
  whole_byte f e split pos tails =
      rw (full-byte x hx, full-byte y hy, ← split, cut_below x f e v pos, cut_below y f e w pos)
        (
          λ q. ground (arith, tails),
          λ q.
              let (heads, rest) =
                digits_unique x y (v / e) (w / e) f (quotient-lt v f e (rw split hv))
                  (quotient-lt w f e (rw split hw)) q in
              ap₂ ◌∷◌ heads (tails.1 rest),
        )

  -- The byte in which the ones end.
  last_byte :
      (p : ℕ)
      → p < 8
      → xs ≡ ys
      → (◌≡◌ {A = Bytes} (bit_and x (255 - 255 / 2 ^ p) ∷ xs) (bit_and y (255 - 255 / 2 ^ p) ∷ ys))
        ↔ ((x * m + v) / (2 ^ (8 - p) * m) ≡ (y * m + w) / (2 ^ (8 - p) * m))
  last_byte p small tails =
      rw
        (
          mask-byte p x small hx,
          mask-byte p y small hy,
          cut_inside x (2 ^ (8 - p)) m v (omega arith) hv,
          cut_inside y (2 ^ (8 - p)) m w (omega arith) hw,
        )
        (
          λ q.
              eq_of_mul-eq-mul_right (2 ^ (8 - p))
                (factor-pos (2 ^ p) (2 ^ (8 - p)) (omega (arith, pow-split p small))) _ _ (cc),
          λ q. ap₂ ◌∷◌ (ap (λ t. t * 2 ^ (8 - p)) q) tails,
        )

-- Two addresses agree under a mask of `p` ones exactly when they lie in the same block.
pub mask-block :
    (p : ℕ) (xs ys : Bytes)
    → length xs ≡ length ys
    → AllBytes xs
    → AllBytes ys
    → p ≤ 8 * length xs
    → (and_bytes xs (cidr_mask p (length xs)) ≡ and_bytes ys (cidr_mask p (length ys)))
      ↔ (value xs / block p (length xs) ≡ value ys / block p (length xs))
unfolding and_bytes cidr_mask
mask-block p [] [] e h k b = (λ _. refl, λ _. refl)
mask-block p [] (y ∷ ys) e h k b = absurd (omega arith)
mask-block p (x ∷ xs) [] e h k b = absurd (omega arith)
mask-block p (x ∷ xs) (y ∷ ys) e h k b =
    let same : length xs ≡ length ys = omega arith in
    let w_lt : value ys < pow256 (length xs) = omega (arith, value-lt ys k.1, ap pow256 same) in
    elim (Bool-cases (leb 8 p)) [
      | inl big ↦
          let ih = mask-block (p - 8) xs ys same h.1 k.1 (omega arith) in
          rw (big, ← same)
            (whole_byte x y h.0 k.0 _ _ (value xs) (value ys) (pow256 (length xs)) (value-lt xs h.1)
              w_lt (blocks (p - 8) (length xs)) (block (p - 8) (length xs))
              (blocks-block (p - 8) (length xs) (omega arith))
              (block-pos (p - 8) (length xs) (omega arith)) (rw (← same) at ih))
      | inr small ↦
          rw (small, ← same)
            (last_byte x y h.0 k.0 _ _ (value xs) (value ys) (pow256 (length xs)) (value-lt xs h.1)
              w_lt p (ground arith) (rw (← same) at (zero_mask xs ys same h.1 k.1)))
    ]
