-- ===== src/Examples/Ranges.antt =====
-- Runs of the theorems of package ipcalc on texts and on single addresses.
use network_controller.Common.{◌+◌, ◌≡◌, ◌↔◌, List, [], arith, In}
use network_controller.Go.Result.{ok, hangs}
use network_controller.Go.Sort.{Ascending}
use network_controller.Go.Net.{Ip, ip_string}
use network_controller.Ipcalc.{
  incip, cidr_to_hosts, calc_default_gateway, parse_ip_range, range_loop, max_rounds,
}
use network_controller.Ipcalc.Incip.{quad, mapped, incip-quad}
use network_controller.Ipcalc.Hosts.{size, first}
use network_controller.Ipcalc.HostList.{IsHostIn, cidr_to_hosts_correct}
use network_controller.Ipcalc.Cidr.{cidr_text, cidr_to_hosts-hangs, calc_default_gateway-network}
use network_controller.Ipcalc.Range.{
  addresses_from, parse_ip_range-ipv4, all_ones, range_loop-hangs,
}

-- 10.0.0.255 and 10.0.1.0
incip-quad_example : incip (quad 167772415) ≡ quad 167772416
incip-quad_example = incip-quad 167772415

-- 10.0.0.1/24
cidr_to_hosts_correct_example :
    (hosts : List Ip) × (cidr_to_hosts (cidr_text 167772161 24) ≡ ok hosts)
    × Ascending hosts
    × ((ip : Ip) → In ip hosts ↔ IsHostIn (first 24 167772161) (size 24) ip)
cidr_to_hosts_correct_example =
    cidr_to_hosts_correct 167772161 24 (omega arith) (omega arith) (omega arith)

cidr_to_hosts-hangs_example : cidr_to_hosts (cidr_text 167772160 0) ≡ hangs
cidr_to_hosts-hangs_example = cidr_to_hosts-hangs 167772160 (omega arith)

calc_default_gateway-network_example :
    calc_default_gateway (cidr_text 167772417 24) ≡ ok (quad (first 24 167772417 + 1))
calc_default_gateway-network_example =
    calc_default_gateway-network 167772417 24 (omega arith) (omega arith)

-- From 10.0.0.2 to 10.0.0.5
parse_ip_range-ipv4_example :
    parse_ip_range (ip_string (mapped 167772162)) (ip_string (mapped 167772165))
    ≡ ok (addresses_from 4 167772162)
parse_ip_range-ipv4_example = parse_ip_range-ipv4 167772162 167772165 (omega arith) (omega arith)

range_loop-hangs_example : range_loop max_rounds (mapped 167772160) all_ones [] ≡ hangs
range_loop-hangs_example =
    range_loop-hangs max_rounds (mapped 167772160) [] (omega arith) (ground arith)
