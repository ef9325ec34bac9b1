-- ===== src/Go/Net/V6.antt =====
-- The text of IPv6 addresses: `parseIPv6` and the last part of `IP.String`.
use network_controller.Common.{is_empty, append_filled, Bool-cases, inl, inr, ◌≡◌}
use network_controller.Common.{
  ℕ, zero, suc, ◌+◌, ◌-◌, ◌*◌, ◌/◌, ◌%◌, Bool, true, false, ◌&&◌, ◌||◌, not, List, [], ◌∷◌, ◌++◌,
  Option, none, some, ltb, leb, ◌==◌, if◌then◌else◌, length, take, drop, replicate,
}
use network_controller.Go.Text.{Bytes, xtoi, hex_group}

-- The bytes so far, the place of the ellipsis, and what is left of the text.
pub record Partial : Type 0 where
  pub done : Bytes
  pub ellipsis : Option ℕ
  pub rest : Bytes

is_none : Option ℕ → Bool
is_none none = true
is_none (some n) = false

-- The colon behind a group, and an ellipsis that may follow it. `true` ends the loop.
after_group : Bytes → Option ℕ → Bytes → Option (Bool × Partial)
unfolding is_none
after_group done e [] = some (true, record { done = done; ellipsis = e; rest = [] })
after_group done e (c ∷ []) = none
after_group done e (c ∷ d ∷ s) =
    if not (c == b':')
    then none
    else if d == b':'
    then (if is_none e
        then some (length s == 0, record { done = done; ellipsis = some (length done); rest = s })
        else none)
    else some (false, record { done = done; ellipsis = e; rest = d ∷ s })

starts_dot : Bytes → Bool
starts_dot [] = false
starts_dot (c ∷ s) = c == b'.'

-- A round of the loop; `v4` is `parseIPv4`.
group : (Bytes → Bytes) → Bytes → Option ℕ → Bytes → Option (Bool × Partial)
unfolding after_group starts_dot
group v4 done e s = elim (xtoi s) [
  | none ↦ none
  | some (n, behind) ↦
      if ltb 0xffff n
      then none
      else if starts_dot behind
      then (if (is_none e && not (length done == 12))
            || ltb 12 (length done)
            || (length (v4 s) == 0)
          then none
          else some (true, record { done = done ++ drop 12 (v4 s); ellipsis = e; rest = [] }))
      else after_group (done ++ (n / 256) ∷ (n % 256) ∷ []) e behind
]

groups : (Bytes → Bytes) → ℕ → Bytes → Option ℕ → Bytes → Option Partial
unfolding group
groups v4 zero done e s = some (record { done = done; ellipsis = e; rest = s })
groups v4 (suc k) done e s = elim (group v4 done e s) [
  | none ↦ none
  | some (stop, p) ↦ elim stop [ true ↦ some p | false ↦ groups v4 k p.done p.ellipsis p.rest ]
]

-- The end of `parseIPv6`: the ellipsis becomes the zeros that are missing.
expand : Partial → Bytes
expand p = if not (length p.rest == 0) then [] else elim p.ellipsis [
  | none ↦ if length p.done == 16 then p.done else []
  | some i ↦
      if length p.done == 16
      then []
      else take i p.done ++ replicate (16 - length p.done) 0 ++ drop i p.done
]

finish : Option Partial → Bytes
unfolding expand
finish none = []
finish (some p) = expand p

starts_colons : Bytes → Bool
starts_colons (c ∷ d ∷ s) = c == b':' && d == b':'
starts_colons _ = false

-- `parseIPv6`; nil is the empty list. Eight rounds read 16 bytes.
unfoldable pub parse_ipv6 : (Bytes → Bytes) → Bytes → Bytes
unfolding groups finish starts_colons
parse_ipv6 v4 s =
    if starts_colons s
    then (if length s == 2 then replicate 16 0 else finish (groups v4 8 [] (some 0) (drop 2 s)))
    else finish (groups v4 8 [] none s)

-- The eight groups of sixteen bytes.
words : Bytes → List ℕ
words (a ∷ b ∷ s) = (a * 256 + b) ∷ words s
words _ = []

zeros : List ℕ → ℕ
zeros [] = 0
zeros (w ∷ ws) = let rest = zeros ws in if w == 0 then suc rest else 0

-- Start and length of the first longest run of zero groups, from position `i`.
longest : ℕ → List ℕ → ℕ × ℕ
unfolding zeros
longest i [] = (0, 0)
longest i (w ∷ ws) =
    let (j, n) = longest (suc i) ws in
    let m = zeros (w ∷ ws) in if leb n m && ltb 0 m then (i, m) else (j, n)

colons : List ℕ → Bytes
colons [] = []
colons (w ∷ []) = hex_group w
colons (w ∷ v ∷ ws) = hex_group w ++ b':' ∷ colons (v ∷ ws)

-- The text of a 16-byte address that is not an IPv4 one.
unfoldable pub ipv6_string : Bytes → Bytes
unfolding words longest colons
ipv6_string ip =
    let ws = words ip in
    let (i, n) = longest 0 ws in
    if leb 2 n then colons (take i ws) ++ b':' ∷ b':' ∷ colons (drop (i + n) ws) else colons ws

-- The text of an address is not empty.
pub ipv6_string-filled :
    (a b c d : ℕ) (s : Bytes) → is_empty (ipv6_string (a ∷ b ∷ c ∷ d ∷ s)) ≡ false
unfolding ipv6_string words colons
ipv6_string-filled a b c d s =
    let ws = words (a ∷ b ∷ c ∷ d ∷ s) in
    let (i, n) = longest 0 ws in
    elim (Bool-cases (leb 2 n)) [
      | inl e ↦ rw e (append_filled (colons (take i ws)) b':' (b':' ∷ colons (drop (i + n) ws)))
      | inr e ↦ rw e (append_filled (hex_group (a * 256 + b)) b':' (colons (words (c ∷ d ∷ s))))
    ]
