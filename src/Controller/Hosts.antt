-- ===== src/Controller/Hosts.antt =====
-- controller/ipalloc.go, the functions that touch no API: used addresses, candidate addresses and
-- the checks on an address.
pub mod Used
use network_controller.Common.{
  ℕ, ◌-◌, ◌≡◌, refl, Bool, true, false, ◌&&◌, ◌||◌, not, List, [], ◌∷◌, ◌++◌, Option, none, some,
  ltb, ◌==◌, if◌then◌else◌, length, is_empty, Ordering,
}
use network_controller.Go.Text.{Bytes, codes, split, contains, trim, compare_bytes}
use network_controller.Go.Result.{Result, ok, err, plain, ◌>>=◌}
use network_controller.Go.Map.{Dict, get, put}
use network_controller.Go.Net.{Ip, nil_ip, parse_ip, ip_string}
use network_controller.Types.{MacvlanIp, MacvlanSubnet, IpRange}
use network_controller.Ipcalc.{cidr_to_hosts, parse_ip_range, get_usable_hosts}

-- The part before the slash, if there are two parts.
unfoldable pub front_of_two : List Bytes → Option Bytes
front_of_two (a ∷ b ∷ []) = some a
front_of_two _ = none

back_of_two : List Bytes → Bytes
back_of_two (a ∷ b ∷ []) = b
back_of_two _ = []

unfoldable pub convert_to_ip_list : List MacvlanIp → List Ip
unfolding front_of_two
convert_to_ip_list [] = []
convert_to_ip_list (item ∷ items) = elim (front_of_two (split item.spec.cidr b'/')) [
  | none ↦ convert_to_ip_list items
  | some ip ↦ parse_ip ip ∷ convert_to_ip_list items
]

unfoldable pub convert_ip_to_cidr : Ip → Bytes → Bytes
unfolding back_of_two
convert_ip_to_cidr ip cidr = ip_string ip ++ b'/' ∷ back_of_two (split cidr b'/')

-- The loop of `removeDuplicatesFromSlice`, with the map `m` and the result so far.
distinct_loop : Dict Bool → List Ip → List Ip → List Ip
distinct_loop m result [] = result
distinct_loop m result (item ∷ items) = elim (get m (ip_string item)) [
  | some seen ↦ distinct_loop m result items
  | none ↦ distinct_loop (put m (ip_string item) true) (result ++ item ∷ []) items
]

unfoldable pub remove_duplicates_from_slice : List Ip → List Ip
unfolding distinct_loop
remove_duplicates_from_slice hosts = distinct_loop [] [] hosts

-- The loop of `calcHostsInRanges`.
ranges_loop : List Ip → List IpRange → Result (List Ip)
ranges_loop hosts [] = ok (remove_duplicates_from_slice hosts)
ranges_loop hosts (v ∷ vs) = do
  ips ← parse_ip_range v.range_start v.range_end
  ranges_loop (hosts ++ ips) vs

unfoldable pub calc_hosts_in_ranges : List IpRange → Result (List Ip)
unfolding ranges_loop
calc_hosts_in_ranges ranges = ranges_loop [] ranges

unfoldable pub calc_subnet_hosts : MacvlanSubnet → Result (List Ip)
calc_subnet_hosts subnet = do
  hosts ← cidr_to_hosts subnet.spec.cidr
  ranges ← calc_hosts_in_ranges subnet.spec.ranges
  ok (if is_empty ranges then hosts else get_usable_hosts hosts ranges)

unfoldable pub is_single_ip : Bytes → Bool
is_single_ip ip = not (is_empty (parse_ip ip))

is_eq : Ordering → Bool
is_eq Ordering.eq = true
is_eq _ = false

unfoldable pub is_in_hosts : List Ip → Ip → Bool
unfolding is_eq
is_in_hosts [] ip = false
is_in_hosts (v ∷ vs) ip = is_eq (compare_bytes v ip) || is_in_hosts vs ip

unfoldable pub check_ip_validation : Ip → List Ip → List Ip → MacvlanSubnet → Result (Unit {0})
check_ip_validation ip hosts used subnet =
    if not (is_in_hosts hosts ip)
    then err (plain (ip_string ip ++ codes " invalid in " ++ subnet.meta.name))
    else if is_in_hosts used ip
    then err (plain (ip_string ip ++ codes " is used in " ++ subnet.meta.name))
    else ok tt

unfoldable pub all_parse : List Bytes → Bool
all_parse [] = true
all_parse (v ∷ vs) = not (is_empty (parse_ip v)) && all_parse vs

-- `strings.Split(strings.Trim(ip, " "), "-")`
abbrev pub dashed : Bytes → List Bytes
dashed ip = split (trim ip b' ') b'-'

unfoldable pub is_multiple_ip : Bytes → Bool
unfolding all_parse
is_multiple_ip ip =
    if not (contains ip b'-')
    then false
    else if ltb (length (dashed ip)) 2
    then false
    else all_parse (dashed ip)
