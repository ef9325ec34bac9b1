-- ===== src/Go/Text/Laws.antt =====
-- Laws of the tests on strings, of `split`, and of the decimal numbers.
use network_controller.Common.{
  ℕ, suc, ◌+◌, ◌/◌, ◌%◌, if◌then◌else◌, ◌<◌, ◌≡◌, ◌≢◌, refl, ◌↔◌, true, false, [], ◌∷◌, ◌++◌, some,
  arith, Ordering, All, ltb,
}
use network_controller.Go.Text.{
  Bytes, beq, compare_bytes, split, dtoi_from, dtoi, digits, uitoa, is_digit,
}

pub beq_iff : (s t : Bytes) → (beq s t ≡ true) ↔ (s ≡ t)
unfolding beq
beq_iff [] [] = (λ h. refl, λ h. refl)
beq_iff [] (y ∷ ys) = ground arith
beq_iff (x ∷ xs) [] = ground arith
beq_iff (x ∷ xs) (y ∷ ys) = ground (arith, beq_iff xs ys)

pub beq_refl : (s : Bytes) → beq s s ≡ true
beq_refl s = (beq_iff s s).1 refl

-- Comparing equal means being equal.
pub compare_bytes-eq : (s t : Bytes) → compare_bytes s t ≡ Ordering.eq → s ≡ t
unfolding compare_bytes
compare_bytes-eq [] [] h = refl
compare_bytes-eq [] (y ∷ ys) h = cc
compare_bytes-eq (x ∷ xs) [] h = cc
compare_bytes-eq (x ∷ xs) (y ∷ ys) h = ground (arith, compare_bytes-eq xs ys)

pub compare_bytes_refl : (s : Bytes) → compare_bytes s s ≡ Ordering.eq
unfolding compare_bytes
compare_bytes_refl [] = refl
compare_bytes_refl (x ∷ xs) = ground (arith, compare_bytes_refl xs)

-- A text that lacks the separator, and then the separator: the first part is that text.
abbrev pub Lacks : ℕ → Bytes → Type 0
Lacks b = All (λ c. c ≢ b)

pub split-append :
    (p rest : Bytes) (sep : ℕ) → Lacks sep p → split (p ++ sep ∷ rest) sep ≡ p ∷ split rest sep
unfolding split
split-append [] rest sep h = ground arith
split-append (c ∷ p) rest sep (hc, h) = ground (arith, split-append p rest sep h)

pub split-Lacks : (p : Bytes) (sep : ℕ) → Lacks sep p → split p sep ≡ p ∷ []
unfolding split
split-Lacks [] sep h = refl
split-Lacks (c ∷ p) sep (hc, h) = ground (arith, split-Lacks p sep h)

-- A text that no digit begins.
abbrev pub StartsNoDigit : Bytes → Type 0
StartsNoDigit [] = Unit
StartsNoDigit (c ∷ s) = is_digit c ≡ false

dtoi_from-stop : (n : ℕ) (s : Bytes) → StartsNoDigit s → dtoi_from n true s ≡ some (n, s)
unfolding dtoi_from
dtoi_from-stop n [] h = refl
dtoi_from-stop n (c ∷ s) h = ground arith

-- The three shapes of a byte in decimal.
abbrev pub byte_digits : ℕ → Bytes
byte_digits n =
    if ltb n 10
    then (b'0' + n) ∷ []
    else if ltb n 100
    then (b'0' + n / 10) ∷ (b'0' + n % 10) ∷ []
    else (b'0' + n / 10 / 10) ∷ (b'0' + n / 10 % 10) ∷ (b'0' + n % 10) ∷ []

digits-byte : (f n : ℕ) → n < 256 → digits (suc (suc (suc f))) n [] ≡ byte_digits n
unfolding digits
digits-byte f n h = ground arith

pub uitoa-byte : (n : ℕ) → n < 256 → uitoa n ≡ byte_digits n
unfolding uitoa
uitoa-byte n h = digits-byte 17 n h

dtoi-byte_digits :
    (n : ℕ) (s : Bytes) → n < 256 → StartsNoDigit s → dtoi (byte_digits n ++ s) ≡ some (n, s)
unfolding dtoi
dtoi-byte_digits n s h k = ground (arith, dtoi_from-stop n s k)

-- The decimal print of a byte is read back, and reading stops behind it.
pub dtoi-uitoa : (n : ℕ) (s : Bytes) → n < 256 → StartsNoDigit s → dtoi (uitoa n ++ s) ≡ some (n, s)
dtoi-uitoa n s h k = rw (uitoa-byte n h) (dtoi-byte_digits n s h k)

-- Decimal digits hold no other byte.
pub uitoa-Lacks : (n b : ℕ) → n < 256 → is_digit b ≡ false → Lacks b (uitoa n)
uitoa-Lacks n b h k = rw (uitoa-byte n h) (ground arith)
