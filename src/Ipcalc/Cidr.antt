-- ===== src/Ipcalc/Cidr.antt =====
-- `CIDRtoHosts` and `CalcDefaultGateway` on the text of an IPv4 network.
use native.Mathlib.Nat.{one-le-pow}
use network_controller.Common.{
  ℕ, ◌+◌, ◌^◌, ◌≤◌, ◌<◌, ◌≡◌, refl, ◌∙◌, false, [], ◌∷◌, ◌++◌, append-nil, some, arith, length, ltb,
}
use network_controller.Go.Text.{Bytes, beq, uitoa, dtoi}
use network_controller.Go.Text.Laws.{dtoi-uitoa, Lacks}
use network_controller.Go.Result.{ok, hangs}
use network_controller.Go.Net.{
  cidr_mask, and_bytes, mask_ip, parse_cidr, cut_slash, ip_string, cidr_of,
}
use network_controller.Go.Net.Laws.{IsIpv4, v4, ip_string-Lacks, parse_ipv4-ip_string}
use network_controller.Go.Net.Mask.Blocks.{length-cidr_mask, blocks-four}
use network_controller.Ipcalc.{cidr_to_hosts, calc_default_gateway, max_rounds}
use network_controller.Ipcalc.Incip.{quad, mapped, incip-quad}
use network_controller.Ipcalc.Hosts.{
  size, first, network, network-ip, hosts_from, cidr_loop-network, cidr_loop-hangs,
}

-- The text of the network with `p` bits of prefix that the address `m` lies in: `a.b.c.d/p`.
abbrev pub cidr_text : ℕ → ℕ → Bytes
cidr_text m p = ip_string (mapped m) ++ b'/' ∷ uitoa p

pub mapped-IsIpv4 : (n : ℕ) → IsIpv4 (mapped n)
mapped-IsIpv4 n = v4 _ _ _ _ (omega arith) (omega arith) (omega arith) (omega arith)

cut_slash-append : (s t : Bytes) → Lacks b'/' s → cut_slash (s ++ b'/' ∷ t) ≡ some (s, t)
unfolding cut_slash
cut_slash-append [] t h = refl
cut_slash-append (c ∷ s) t h = ground (arith, cut_slash-append s t h.1)

dtoi-all : (n : ℕ) → n < 256 → dtoi (uitoa n) ≡ some (n, [])
dtoi-all n h = rw append-nil at (dtoi-uitoa n [] h tt)

-- A mask of four bytes applies to the last four of the 16-byte form.
mask_ip-four :
    (m : ℕ) (mask : Bytes) → length mask ≡ 4 → mask_ip (mapped m) mask ≡ and_bytes (quad m) mask
unfolding mask_ip beq
mask_ip-four m (a ∷ b ∷ c ∷ d ∷ []) h = refl
mask_ip-four m [] h = absurd (omega arith)
mask_ip-four m (a ∷ []) h = absurd (omega arith)
mask_ip-four m (a ∷ b ∷ []) h = absurd (omega arith)
mask_ip-four m (a ∷ b ∷ c ∷ []) h = absurd (omega arith)
mask_ip-four m (a ∷ b ∷ c ∷ d ∷ e ∷ mask) h = absurd (omega arith)

mask_ip-mapped :
    (p m : ℕ) → p ≤ 32 → m < 2 ^ 32 → mask_ip (mapped m) (cidr_mask p 4) ≡ quad (first p m)
mask_ip-mapped p m hp hm =
    mask_ip-four m (cidr_mask p 4) (length-cidr_mask p 4) ∙ network-ip p m hp hm

not-ltb : (p : ℕ) → p ≤ 32 → ltb 32 p ≡ false
not-ltb p h = ground arith

cidr_of-text :
    (m p : ℕ)
    → p ≤ 32
    → m < 2 ^ 32
    → cidr_of (ip_string (mapped m)) (uitoa p) ≡ some (mapped m, network p m)
unfolding cidr_of
cidr_of-text m p hp hm = rw (
  dtoi-all p (omega arith),
  cidr_of,
  parse_ipv4-ip_string (mapped-IsIpv4 m),
  mask_ip-mapped p m hp hm,
  not-ltb p hp,
)

-- `ParseCIDR` reads such a text.
pub parse_cidr-text :
    (m p : ℕ) → p ≤ 32 → m < 2 ^ 32 → parse_cidr (cidr_text m p) ≡ some (mapped m, network p m)
unfolding parse_cidr
parse_cidr-text m p hp hm =
    rw
      (
        cut_slash-append (ip_string (mapped m)) (uitoa p)
            (ip_string-Lacks b'/' (mapped-IsIpv4 m) refl (omega arith)),
        parse_cidr,
      )
      (cidr_of-text m p hp hm)

size-lt : (p : ℕ) → p ≤ 32 → size p < max_rounds
unfolding max_rounds
size-lt p h = grind (arith, blocks-four p h, one-le-pow p 2 (omega arith))

-- `CIDRtoHosts` ends on every IPv4 network whose prefix has 1 to 32 bits, and returns its
-- addresses in ascending order, without those that end in 0 or in 255.
pub cidr_to_hosts-network :
    (m p : ℕ)
    → 0 < p
    → p ≤ 32
    → m < 2 ^ 32
    → cidr_to_hosts (cidr_text m p) ≡ ok (hosts_from (size p) (first p m))
unfolding cidr_to_hosts
cidr_to_hosts-network m p pos hp hm =
    rw (parse_cidr-text m p hp hm, cidr_to_hosts, mask_ip-mapped p m hp hm)
      (cidr_loop-network p m max_rounds pos hp hm (size-lt p hp))

-- With an empty prefix, as in `10.0.0.0/0`, `CIDRtoHosts` never ends: it is still running after
-- `max_rounds` rounds.
pub cidr_to_hosts-hangs : (m : ℕ) → m < 2 ^ 32 → cidr_to_hosts (cidr_text m 0) ≡ hangs
unfolding cidr_to_hosts
cidr_to_hosts-hangs m hm =
    rw (parse_cidr-text m 0 (omega arith) hm, cidr_to_hosts, mask_ip-mapped 0 m (omega arith) hm)
      (cidr_loop-hangs m max_rounds (first 0 m) [] hm)

-- On the text of an IPv4 network `CalcDefaultGateway` returns the address behind the network's first one, in the 4-byte form.
pub calc_default_gateway-network :
    (m p : ℕ)
    → p ≤ 32
    → m < 2 ^ 32
    → calc_default_gateway (cidr_text m p) ≡ ok (quad (first p m + 1))
unfolding calc_default_gateway
calc_default_gateway-network m p hp hm = rw (
  parse_cidr-text m p hp hm,
  calc_default_gateway,
  mask_ip-mapped p m hp hm,
  incip-quad (first p m),
)
