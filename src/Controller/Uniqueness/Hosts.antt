-- ===== src/Controller/Uniqueness/Hosts.antt =====
-- controller/ipalloc.go: the hosts of a subnet with an IPv4 network, also where ranges cut them down.
use network_controller.Common.{
  ℕ, ◌≤◌, ◌<◌, ◌^◌, arith, ◌≡◌, refl, List, [], ◌∷◌, In, All, is_empty, if◌then◌else◌,
}
use network_controller.Go.Text.{Bytes, uitoa}
use network_controller.Go.Text.Laws.{uitoa-Lacks}
use network_controller.Go.Result.{Result, ok, err, panics, hangs, ◌>>=◌}
use network_controller.Go.Net.{Ip, ip_string}
use network_controller.Go.Net.Laws.{IsIpv4, parse_ip-ip_string, ip_string-Lacks}
use network_controller.Types.{MacvlanSubnet}
use network_controller.Ipcalc.{get_usable_hosts}
use network_controller.Ipcalc.Intersection.{IsCanonical, get_usable_hosts_sub, All-In}
use network_controller.Ipcalc.Incip.{mapped}
use network_controller.Ipcalc.Hosts.{size, first, hosts_from}
use network_controller.Ipcalc.HostList.{hosts_from-IsIpv4}
use network_controller.Ipcalc.Cidr.{cidr_text, cidr_to_hosts-network, mapped-IsIpv4}
use network_controller.Controller.Hosts.{calc_subnet_hosts, calc_hosts_in_ranges}
use network_controller.Controller.Hosts.Used.{HasOneSlash}

-- The text of an IPv4 network with a prefix of 1 to 32 bits.
pub record IsIpv4Network (cidr : Bytes) : Type 0 where
  pub address : ℕ
  pub prefix : ℕ
  pub prefix_pos : 0 < prefix
  pub prefix_le : prefix ≤ 32
  pub address_lt : address < 2 ^ 32
  pub is_text : cidr ≡ cidr_text address prefix

IsIpv4-All : (hosts : List Ip) → All IsIpv4 hosts → All IsCanonical hosts
IsIpv4-All [] h = tt
IsIpv4-All (x ∷ xs) h = (parse_ip-ip_string h.0, IsIpv4-All xs h.1)

-- The end of `calcSubnetHosts`, from the ranges on.
ranges-IsIpv4 :
    (r : Result (List Ip)) (base hosts : List Ip) (ip : Ip)
    → All IsIpv4 base
    → (r >>= λ ranges. ok (if is_empty ranges then base else get_usable_hosts base ranges))
      ≡ ok hosts
    → In ip hosts
    → IsIpv4 ip
ranges-IsIpv4 (ok []) base hosts ip all h i =
    let same : base ≡ hosts = cc in All-In IsIpv4 base ip all (rw (← same) at i)
ranges-IsIpv4 (ok (x ∷ xs)) base hosts ip all h i =
    let same : get_usable_hosts base (x ∷ xs) ≡ hosts = cc in
    All-In IsIpv4 base ip all
      (get_usable_hosts_sub base (IsIpv4-All base all) (x ∷ xs) ip (rw (← same) at i))
ranges-IsIpv4 (err e) base hosts ip all h i = absurd (cc)
ranges-IsIpv4 panics base hosts ip all h i = absurd (cc)
ranges-IsIpv4 hangs base hosts ip all h i = absurd (cc)

module _ (subnet : MacvlanSubnet) (net : IsIpv4Network subnet.spec.cidr) where
  pub calc_subnet_hosts-IsIpv4 :
      (hosts : List Ip) (ip : Ip) → calc_subnet_hosts subnet ≡ ok hosts → In ip hosts → IsIpv4 ip
  unfolding calc_subnet_hosts
  calc_subnet_hosts-IsIpv4 hosts ip h i =
      let base = hosts_from (size net.prefix) (first net.prefix net.address) in
      ranges-IsIpv4 (calc_hosts_in_ranges subnet.spec.ranges) base hosts ip
        (hosts_from-IsIpv4 (size net.prefix) (first net.prefix net.address))
        (rw
          (
            net.is_text,
            cidr_to_hosts-network net.address net.prefix net.prefix_pos net.prefix_le
                net.address_lt,
          )
          at h)
        i

pub IsIpv4Network-HasOneSlash : (cidr : Bytes) → IsIpv4Network cidr → HasOneSlash cidr
IsIpv4Network-HasOneSlash cidr net = (
  ip_string (mapped net.address),
  uitoa net.prefix,
  net.is_text,
  ip_string-Lacks b'/' (mapped-IsIpv4 net.address) refl (λ z. absurd (omega arith)),
  uitoa-Lacks net.prefix b'/' (omega (arith, net.prefix_le)) refl,
)
