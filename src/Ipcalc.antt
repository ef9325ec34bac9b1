-- ===== src/Ipcalc.antt =====
-- ipcalc/ipcalc.go: lists of addresses for a subnet, set operations on them, and ranges.
-- The loops of `CIDRtoHosts` and `ParseIPRange` run on `max_rounds` of fuel. They step through
-- addresses of at most 16 bytes, so a loop that has not ended after 2 ^ 128 steps never ends, and
-- running out of fuel is the result `hangs`.
pub mod Incip
pub mod Sets
pub mod Intersection
pub mod Hosts
pub mod Cidr
pub mod HostList
pub mod Range
use network_controller.Common.{
  ℕ, zero, suc, ◌+◌, ◌*◌, ◌%◌, ◌^◌, Bool, true, false, ◌&&◌, ◌||◌, not, List, [], ◌∷◌, ◌++◌, map,
  reverse, Option, none, some, ltb, ◌==◌, if◌then◌else◌, length, is_empty, get_or, Ordering,
}
use network_controller.Go.Text.{Bytes, codes, compare_bytes}
use network_controller.Go.Result.{Result, ok, err, hangs, plain, ◌>>=◌}
use network_controller.Go.Map.{Dict, get, put, delete, keys, value_or}
use network_controller.Go.Sort.{sort}
use network_controller.Go.Net.{
  Ip, nil_ip, ipv4, to4, parse_ip, ip_string, IpNet, mask_ip, net_contains, parse_cidr,
}

-- The loop of `incip` on the bytes from the last one on: a byte is raised by one, and the loop
-- goes on to the byte before it if the result wrapped to zero.
inc_reversed : Bytes → Bytes
inc_reversed [] = []
inc_reversed (b ∷ bs) =
    let b' = (b + 1) % 256 in let rest = inc_reversed bs in if ltb 0 b' then b' ∷ bs else b' ∷ rest

-- `incip`: the address that the slice holds afterwards.
pub incip : Ip → Ip
unfolding inc_reversed
incip ip = reverse (inc_reversed (reverse ip))

-- The two loops of `complementip` over `a` and `b` that fill and thin the map `am`.
unfoldable pub mark_bytes : Dict Bool → List Ip → Dict Bool
mark_bytes am [] = am
mark_bytes am (v ∷ vs) = mark_bytes (put am v true) vs

unfoldable pub drop_marked : Dict Bool → List Ip → Dict Bool
drop_marked am [] = am
drop_marked am (v ∷ vs) = drop_marked (if value_or false (get am v) then delete am v else am) vs

unfoldable pub complement_map : List Ip → List Ip → Dict Bool
complement_map a b = drop_marked (mark_bytes [] a) b

unfoldable pub complementip : List Ip → List Ip → List Ip
complementip a b = if is_empty a then [] else sort (keys (complement_map a b))

-- The loops of `intersectionip`; its maps have the texts of the addresses for keys.
mark_texts : Dict Bool → List Ip → Dict Bool
mark_texts m [] = m
mark_texts m (v ∷ vs) = mark_texts (put m (ip_string v) true) vs

drop_missing : Dict Bool → Dict Bool → List Ip → Dict Bool
drop_missing m2 m1 [] = m1
drop_missing m2 m1 (v ∷ vs) =
    drop_missing m2
      (if not (value_or false (get m2 (ip_string v))) then delete m1 (ip_string v) else m1) vs

pub intersection_map : List Ip → List Ip → Dict Bool
intersection_map slice1 slice2 = drop_missing (mark_texts [] slice2) (mark_texts [] slice1) slice1

pub intersectionip : List Ip → List Ip → List Ip
intersectionip slice1 slice2 = sort (map parse_ip (keys (intersection_map slice1 slice2)))

pub max_rounds : ℕ
max_rounds = 2 ^ 128 + 1

-- `ip[3] == 0x00 || ip[3] == 0xff` for an address of four bytes
is_edge : Ip → Bool
is_edge ip = length ip == 4 && (get_or ip 3 0 == 0 || get_or ip 3 0 == 255)

-- `net.IPv4(ip[0], ip[1], ip[2], ip[3])`
host_of : Ip → Ip
host_of ip = ipv4 (get_or ip 0 0) (get_or ip 1 0) (get_or ip 2 0) (get_or ip 3 0)

-- The loop of `CIDRtoHosts`; `ips` holds the addresses so far.
pub cidr_loop : ℕ → IpNet → Ip → List Ip → Result (List Ip)
unfolding is_edge host_of
cidr_loop zero ipnet ip ips = hangs
cidr_loop (suc fuel) ipnet ip ips =
    let rest =
      cidr_loop fuel ipnet (incip ip) (if is_edge ip then ips else ips ++ host_of ip ∷ []) in
    if net_contains ipnet ip then rest else ok ips

-- The error of `net.ParseCIDR`.
abbrev pub cidr_error : Bytes → Bytes
cidr_error cidr = codes "invalid CIDR address: " ++ cidr

pub cidr_to_hosts : Bytes → Result (List Ip)
cidr_to_hosts cidr = elim (parse_cidr cidr) [
  | none ↦ err (plain (cidr_error cidr))
  | some (ip, ipnet) ↦ cidr_loop max_rounds ipnet (mask_ip ip ipnet.mask) []
]

unfoldable pub remove_used_hosts : List Ip → List Ip → List Ip
remove_used_hosts hosts used = complementip hosts used

pub get_usable_hosts : List Ip → List Ip → List Ip
get_usable_hosts hosts usable = intersectionip hosts usable

-- nil and an error for a text that is no network
unfoldable pub calc_default_gateway : Bytes → Result Ip
calc_default_gateway cidr = elim (parse_cidr cidr) [
  | none ↦ err (plain (cidr_error cidr))
  | some (ip, ipnet) ↦ ok (incip (mask_ip ip ipnet.mask))
]

abbrev at_least : Ordering → Bool
at_least Ordering.lt = false
at_least _ = true

abbrev at_most : Ordering → Bool
at_most Ordering.gt = false
at_most _ = true

pub is_in_range_bound : Ip → Ip → Ip → Bool
is_in_range_bound trial lower upper =
    at_least (compare_bytes trial lower) && at_most (compare_bytes trial upper)

-- The loop of `ParseIPRange`. `ip := ip1` copies the slice header, so `ip` and the lower bound
-- `ip1` are the same bytes, which `incip` changes in place: both arguments are `ip`.
pub range_loop : ℕ → Ip → Ip → List Ip → Result (List Ip)
range_loop zero ip upper ips = hangs
range_loop (suc fuel) ip upper ips =
    let rest = range_loop fuel (incip ip) upper (ips ++ parse_ip (ip_string (to4 ip)) ∷ []) in
    if is_in_range_bound ip ip upper then rest else ok ips

-- `ParseIPRange`. Where both texts are the same slice of bytes nothing is shared: each call of
-- `net.ParseIP` makes its own.
pub parse_ip_range : Bytes → Bytes → Result (List Ip)
parse_ip_range start end =
    if is_empty (parse_ip start) || is_empty (parse_ip end)
    then ok []
    else range_loop max_rounds (parse_ip start) (parse_ip end) []
