-- ===== src/Ipcalc/Incip.antt =====
-- `incip` counts: read as a number with the last byte least, the address is raised by one, modulo
-- 256 to the power of its length.
use mathlib.Core.List.{reverse}
use network_controller.Common.{
  ℕ, ◌+◌, ◌/◌, ◌%◌, ◌^◌, ◌<◌, ◌≡◌, refl, [], ◌∷◌, arith, length, All, length-reverse, All-reverse,
  ◌∙◌,
}
use network_controller.Go.Text.{Bytes}
use network_controller.Go.Net.{Ip}
use network_controller.Ipcalc.{inc_reversed, incip}

-- The four bytes of a number, modulo 2 ^ 32.
abbrev pub quad : ℕ → Ip
quad n = (n / 16777216 % 256) ∷ (n / 65536 % 256) ∷ (n / 256 % 256) ∷ (n % 256) ∷ []

-- `incip` adds one to an IPv4 address, and 255.255.255.255 becomes 0.0.0.0.
pub incip-quad : (n : ℕ) → incip (quad n) ≡ quad (n + 1)
unfolding incip
incip-quad n = ground arith

-- The same in the 16-byte form, while the last four bytes do not overflow.
abbrev pub mapped : ℕ → Ip
mapped n = 0 ∷ 0 ∷ 0 ∷ 0 ∷ 0 ∷ 0 ∷ 0 ∷ 0 ∷ 0 ∷ 0 ∷ 255 ∷ 255 ∷ quad n

pub incip-mapped : (n : ℕ) → n + 1 < 2 ^ 32 → incip (mapped n) ≡ mapped (n + 1)
unfolding incip
incip-mapped n h = ground arith

-- The length stays, and so does the range of the bytes.
inc_reversed-length : (bs : Bytes) → length (inc_reversed bs) ≡ length bs
unfolding inc_reversed
inc_reversed-length [] = refl
inc_reversed-length (b ∷ bs) = ground (arith, inc_reversed-length bs)

inc_reversed-All : (bs : Bytes) → All (λ b. b < 256) bs → All (λ b. b < 256) (inc_reversed bs)
unfolding inc_reversed
inc_reversed-All [] h = tt
inc_reversed-All (b ∷ bs) h = ground (arith, inc_reversed-All bs h.1)

pub length-incip : (ip : Ip) → length (incip ip) ≡ length ip
unfolding incip
length-incip ip =
    length-reverse (inc_reversed (reverse ip))
    ∙ inc_reversed-length (reverse ip)
    ∙ length-reverse ip

pub incip-All : (ip : Ip) → All (λ b. b < 256) ip → All (λ b. b < 256) (incip ip)
unfolding incip
incip-All ip h = All-reverse _ _ (inc_reversed-All (reverse ip) (All-reverse _ ip h))
