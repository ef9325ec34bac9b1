-- ===== src/Go/Text.antt =====
-- A Go string is its bytes. `strings.Split`, `Contains`, `Trim`, `ToLower`, `bytes.Compare`, and
-- the decimal and hexadecimal numbers of `strconv` and `net`.
pub mod Laws
use Prim.Native.Char.{code}
use network_controller.Common.{
  ℕ, zero, suc, ◌+◌, ◌-◌, ◌*◌, ◌/◌, ◌%◌, ◌<◌, ◌≡◌, refl, ◌↔◌, Bool, true, false, ◌&&◌, ◌||◌, List,
  [], ◌∷◌, ◌++◌, reverse, Option, none, some, arith, String, ltb, leb, ◌==◌, if◌then◌else◌, compare,
  Ordering,
}

abbrev pub Bytes : Type 0
Bytes = List ℕ

-- The bytes of an ASCII literal.
abbrev pub codes : String → Bytes
codes String.[] = []
codes (String.◌∷◌ c s) = code c ∷ codes s

-- `a == b` on strings
unfoldable pub beq : Bytes → Bytes → Bool
beq [] [] = true
beq (x ∷ xs) (y ∷ ys) = x == y && beq xs ys
beq _ _ = false

-- `bytes.Compare`
unfoldable pub compare_bytes : Bytes → Bytes → Ordering
compare_bytes [] [] = Ordering.eq
compare_bytes [] (y ∷ ys) = Ordering.lt
compare_bytes (x ∷ xs) [] = Ordering.gt
compare_bytes (x ∷ xs) (y ∷ ys) = elim (compare x y) [
  | Ordering.lt ↦ Ordering.lt
  | Ordering.eq ↦ compare_bytes xs ys
  | Ordering.gt ↦ Ordering.gt
]

add_front : ℕ → List Bytes → List Bytes
add_front c [] = (c ∷ []) ∷ []
add_front c (p ∷ ps) = (c ∷ p) ∷ ps

-- `strings.Split` at a separator of one byte
unfoldable pub split : Bytes → ℕ → List Bytes
unfolding add_front
split [] sep = [] ∷ []
split (c ∷ s) sep = let rest = split s sep in if c == sep then [] ∷ rest else add_front c rest

-- `strings.Contains` of one byte
unfoldable pub contains : Bytes → ℕ → Bool
contains [] b = false
contains (c ∷ s) b = c == b || contains s b

trim_left : Bytes → ℕ → Bytes
trim_left [] b = []
trim_left (c ∷ s) b = let rest = trim_left s b in if c == b then rest else c ∷ s

-- `strings.Trim` with a cutset of one byte
unfoldable pub trim : Bytes → ℕ → Bytes
unfolding trim_left
trim s b = reverse (trim_left (reverse (trim_left s b)) b)

-- `strings.ToLower`, on ASCII
unfoldable pub to_lower : Bytes → Bytes
to_lower [] = []
to_lower (c ∷ s) = (if leb b'A' c && leb c b'Z' then c + 32 else c) ∷ to_lower s

abbrev pub is_digit : ℕ → Bool
is_digit c = leb b'0' c && leb c b'9'

-- The value of a hexadecimal digit.
abbrev pub hex_value : ℕ → Option ℕ
hex_value c =
    if leb b'0' c && leb c b'9'
    then some (c - b'0')
    else if leb b'a' c && leb c b'f'
    then some (c - b'a' + 10)
    else if leb b'A' c && leb c b'F'
    then some (c - b'A' + 10)
    else none

-- The bound `big` at which `dtoi` and `xtoi` of net/parse.go give up.
abbrev pub big : ℕ
big = 0xffffff

-- The number so far, whether a digit was read, and the text: a number and what follows it.
unfoldable pub dtoi_from : ℕ → Bool → Bytes → Option (ℕ × Bytes)
dtoi_from n seen [] = if seen then some (n, []) else none
dtoi_from n seen (c ∷ s) =
    let m = n * 10 + (c - b'0') in
    let rest = dtoi_from m true s in
    if is_digit c
    then (if leb big m then none else rest)
    else if seen
    then some (n, c ∷ s)
    else none

-- `dtoi`: decimal digits up to the first byte that is none.
unfoldable pub dtoi : Bytes → Option (ℕ × Bytes)
unfolding dtoi_from
dtoi s = dtoi_from 0 false s

xtoi_from : ℕ → Bool → Bytes → Option (ℕ × Bytes)
xtoi_from n seen [] = if seen then some (n, []) else none
xtoi_from n seen (c ∷ s) = elim (hex_value c) [
  | none ↦ if seen then some (n, c ∷ s) else none
  | some d ↦ let m = n * 16 + d in let rest = xtoi_from m true s in if leb big m then none else rest
]

-- `xtoi`: hexadecimal digits up to the first byte that is none.
unfoldable pub xtoi : Bytes → Option (ℕ × Bytes)
unfolding xtoi_from
xtoi s = xtoi_from 0 false s

unfoldable pub digits : ℕ → ℕ → Bytes → Bytes
digits zero n acc = acc
digits (suc f) n acc =
    let rest = digits f (n / 10) ((b'0' + n % 10) ∷ acc) in
    if ltb n 10 then (b'0' + n) ∷ acc else rest

-- `uitoa`, whose buffer holds the 20 digits that a uint64 can have
unfoldable pub uitoa : ℕ → Bytes
uitoa n = digits 20 n []

hex_digit : ℕ → ℕ
hex_digit d = if ltb d 10 then b'0' + d else b'a' + (d - 10)

-- `%x` of a byte slice
unfoldable pub hex : Bytes → Bytes
unfolding hex_digit
hex [] = []
hex (b ∷ s) = hex_digit (b / 16) ∷ hex_digit (b % 16) ∷ hex s

hex_digits : ℕ → ℕ → Bytes → Bytes
hex_digits zero n acc = acc
hex_digits (suc f) n acc =
    let rest = hex_digits f (n / 16) (hex_digit (n % 16) ∷ acc) in
    if ltb n 16 then hex_digit n ∷ acc else rest

-- `appendHex`: a 16-bit group without leading zeros
unfoldable pub hex_group : ℕ → Bytes
unfolding hex_digits hex_digit
hex_group n = hex_digits 8 n []
