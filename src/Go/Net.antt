-- ===== src/Go/Net.antt =====
-- `net.IP` and what the program calls of package net (Go 1.11): an address is its bytes, 4 or 16
-- of them, and nil is the empty list.
pub mod V6
pub mod Laws
pub mod Mask
use Prim.Native.Char.{code}
use network_controller.Common.{
  ℕ, zero, suc, ◌+◌, ◌-◌, ◌*◌, ◌/◌, ◌%◌, ◌^◌, ◌≡◌, refl, Bool, true, false, ◌&&◌, not, List, [],
  ◌∷◌, ◌++◌, Option, none, some, ltb, leb, ◌==◌, if◌then◌else◌, bit_and, length, take, drop,
  replicate,
}
use network_controller.Go.Text.{Bytes, codes, beq, contains, dtoi, uitoa, split, hex}
use V6.{parse_ipv6, ipv6_string}

abbrev pub Ip : Type 0
Ip = Bytes

abbrev pub nil_ip : Ip
nil_ip = []

-- `v4InV6Prefix`: ten zeros and two 0xff
abbrev pub v4_prefix : Bytes
v4_prefix = 0 ∷ 0 ∷ 0 ∷ 0 ∷ 0 ∷ 0 ∷ 0 ∷ 0 ∷ 0 ∷ 0 ∷ 255 ∷ 255 ∷ []

-- `net.IPv4`
abbrev pub ipv4 : ℕ → ℕ → ℕ → ℕ → Ip
ipv4 a b c d = 0 ∷ 0 ∷ 0 ∷ 0 ∷ 0 ∷ 0 ∷ 0 ∷ 0 ∷ 0 ∷ 0 ∷ 255 ∷ 255 ∷ a ∷ b ∷ c ∷ d ∷ []

-- `IP.To4`
unfoldable pub to4 : Ip → Ip
to4 ip =
    if length ip == 4
    then ip
    else if length ip == 16 && beq (take 12 ip) v4_prefix
    then drop 12 ip
    else nil_ip

-- The text is given from the part on that has `k` bytes left to read.
parse_parts : ℕ → Bytes → Option Bytes
parse_parts zero [] = some []
parse_parts zero (c ∷ s) = none
parse_parts (suc k) [] = none
parse_parts (suc k) (c ∷ s) = elim (dtoi s) [
  | none ↦ none
  | some (n, rest) ↦
      let tail = parse_parts k rest in
      if not (c == b'.')
      then none
      else if ltb 255 n
      then none
      else elim tail [ none ↦ none | some bs ↦ some (n ∷ bs) ]
]

-- `parseIPv4`: four parts with a dot before each but the first
unfoldable pub parse_ipv4 : Bytes → Ip
unfolding parse_parts
parse_ipv4 s = elim (parse_parts 4 (b'.' ∷ s)) [ none ↦ nil_ip | some bs ↦ v4_prefix ++ bs ]

-- The first of the two bytes `.` and `:` decides how the text is read.
family : Bytes → Option Bool
family [] = none
family (c ∷ s) =
    let rest = family s in if c == b'.' then some true else if c == b':' then some false else rest

-- `net.ParseIP`
unfoldable pub parse_ip : Bytes → Ip
unfolding family
parse_ip s = elim (family s) [
  | none ↦ nil_ip
  | some v4 ↦ elim v4 [ true ↦ parse_ipv4 s | false ↦ parse_ipv6 parse_ipv4 s ]
]

-- Dotted decimal, of four bytes.
unfoldable pub dotted : Bytes → Bytes
dotted [] = []
dotted (a ∷ []) = uitoa a
dotted (a ∷ b ∷ s) = uitoa a ++ b'.' ∷ dotted (b ∷ s)

-- `IP.String`
unfoldable pub ip_string : Ip → Bytes
ip_string ip =
    if length ip == 0
    then codes "<nil>"
    else if length (to4 ip) == 4
    then dotted (to4 ip)
    else if length ip == 16
    then ipv6_string ip
    else codes "?" ++ hex ip

-- One byte of `CIDRMask`, `^byte(0xff >> n)`, and the rounds of its loop.
unfoldable pub cidr_mask : ℕ → ℕ → Bytes
cidr_mask n zero = []
cidr_mask n (suc l) =
    if leb 8 n then 255 ∷ cidr_mask (n - 8) l else (255 - 255 / 2 ^ n) ∷ cidr_mask 0 l

unfoldable pub and_bytes : Bytes → Bytes → Bytes
and_bytes (x ∷ xs) (m ∷ ms) = bit_and x m ∷ and_bytes xs ms
and_bytes _ _ = []

-- `IP.Mask`
unfoldable pub mask_ip : Ip → Bytes → Ip
mask_ip ip mask =
    let mask' =
      if length mask == 16 && length ip == 4 && beq (take 12 mask) (replicate 12 255)
      then drop 12 mask
      else mask in
    let ip' =
      if length mask' == 4 && length ip == 16 && beq (take 12 ip) v4_prefix
      then drop 12 ip
      else ip in
    if length ip' == length mask' then and_bytes ip' mask' else nil_ip

pub record IpNet : Type 0 where
  pub ip : Ip
  pub mask : Bytes

-- `networkNumberAndMask`, for the networks that `ParseCIDR` makes
unfoldable pub network_number : IpNet → Ip
network_number n = if length (to4 n.ip) == 4 then to4 n.ip else n.ip

unfoldable pub network_mask : IpNet → Bytes
network_mask n =
    if length n.mask == 16 && length (network_number n) == 4 then drop 12 n.mask else n.mask

-- `IPNet.Contains`
unfoldable pub net_contains : IpNet → Ip → Bool
unfolding network_number network_mask
net_contains n ip =
    let x = if length (to4 ip) == 4 then to4 ip else ip in
    length x == length (network_number n)
    && beq (and_bytes (network_number n) (network_mask n)) (and_bytes x (network_mask n))

-- The address and the network of a text with one `/` in it or more.
unfoldable pub cidr_of : Bytes → Bytes → Option (Ip × IpNet)
cidr_of addr mask =
    let v4 = parse_ipv4 addr in
    let bits = (if length v4 == 0 then 128 else 32) in
    let ip = (if length v4 == 0 then parse_ipv6 parse_ipv4 addr else v4) in
    elim (dtoi mask) [
      | none ↦ none
      | some (n, rest) ↦
          let m = cidr_mask n (bits / 8) in
          if length ip == 0
          then none
          else if not (length rest == 0)
          then none
          else if ltb bits n
          then none
          else some (ip, record { ip = mask_ip ip m; mask = m })
    ]

-- What stands before the first `/` and behind it.
unfoldable pub cut_slash : Bytes → Option (Bytes × Bytes)
cut_slash [] = none
cut_slash (c ∷ s) =
    let rest = cut_slash s in
    if c == b'/' then some ([], s) else elim rest [ none ↦ none | some (p, q) ↦ some (c ∷ p, q) ]

-- `net.ParseCIDR`; its only error is `invalid CIDR address`.
unfoldable pub parse_cidr : Bytes → Option (Ip × IpNet)
unfolding cut_slash cidr_of
parse_cidr s = elim (cut_slash s) [ none ↦ none | some (addr, mask) ↦ cidr_of addr mask ]
