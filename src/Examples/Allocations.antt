-- ===== src/Examples/Allocations.antt =====
-- Runs of the theorems about used addresses and about the three modes of allocation.
use network_controller.Common.{
  String, ◌≡◌, ◌≢◌, ◌⊎◌, inl, refl, ap, [], ◌∷◌, Option, none, some, arith, In,
}
use network_controller.Go.Text.{codes, uitoa, digits, split, dtoi, dtoi_from, beq, compare_bytes}
use network_controller.Go.Text.Laws.{Lacks}
use network_controller.Go.Int.{pos}
use network_controller.Go.Result.{ok, err}
use network_controller.Go.Net.{Ip, ip_string, parse_ip, parse_ipv4, to4, dotted}
use network_controller.Go.Sort.{sort}
use network_controller.Go.Map.{keys, put, get, delete}
use network_controller.Ipcalc.{
  remove_used_hosts, complementip, complement_map, mark_bytes, drop_marked,
}
use network_controller.Go.Net.Laws.{ip_string-Lacks}
use network_controller.Types.{
  ObjectMeta, MacvlanSubnet, MacvlanIp, Pod, annotation_ip, annotation_subnet,
}
use network_controller.Cluster.{Cluster}
use network_controller.Ipcalc.Incip.{mapped}
use network_controller.Ipcalc.Hosts.{hosts_from}
use network_controller.Ipcalc.Cidr.{cidr_text, mapped-IsIpv4, cidr_to_hosts-network}
use network_controller.Controller.Hosts.{
  calc_subnet_hosts, calc_hosts_in_ranges, convert_ip_to_cidr, convert_to_ip_list,
  remove_duplicates_from_slice,
}
use network_controller.Controller.Hosts.Used.{HasOneSlash, In-convert_to_ip_list}
use network_controller.Controller.Ipalloc.{
  used_list, pick_first, listed, event_macvlan_subnet_error, allocate_auto_ip, allocate_single_ip,
}
use network_controller.Controller.Allocation.Auto.{
  Lowest, auto_result, allocate_auto_ip-Lowest, allocate_auto_ip-list_error,
}
use network_controller.Controller.Allocation.Checked.{Refuses, allocate_single_ip-decides}
use network_controller.Controller.Allocation.Safety.{
  Allocates, auto, gateway_not_allocated, no_double_allocation,
}
use network_controller.Examples.Store.{Store, lists, missing}

abbrev pub meta_named : String → ObjectMeta
meta_named name = record {
  name = codes name;
  namespace = codes "default";
  uid = codes "uid";
  labels = none;
  annotations = none;
  owner_references = [];
}

-- 10.0.0.0/29 with the gateway 10.0.0.1
abbrev pub small_subnet : MacvlanSubnet
small_subnet = record {
  meta = meta_named "small";
  spec = record {
    master = codes "eth0";
    vlan = pos 0;
    cidr = cidr_text 167772160 29;
    mode = codes "bridge";
    gateway = ip_string (mapped 167772161);
    ranges = [];
  };
}

-- A pod that asks for any address of it.
abbrev pub auto_pod : Pod
auto_pod = record {
  meta = record (meta_named "web-1-abc") {
    annotations = some ((annotation_ip, codes "auto") ∷ (annotation_subnet, codes "small") ∷ []);
  };
}

-- The macvlanip of 10.0.0.2 in it.
abbrev pub taken_ip : MacvlanIp
taken_ip = record {
  meta = meta_named "other";
  spec = record {
    subnet = codes "small";
    pod_id = codes "uid";
    cidr = convert_ip_to_cidr (mapped 167772162) (cidr_text 167772160 29);
    mac = [];
  };
}

abbrev pub small_store : Store
small_store = record {
  subnets = small_subnet ∷ [];
  ips = taken_ip ∷ [];
  pods = auto_pod ∷ [];
  services = [];
  queue = [];
  log = [];
}

-- The list of its hosts: 10.0.0.1 to 10.0.0.7.
pub small_hosts : calc_subnet_hosts small_subnet ≡ ok (hosts_from 8 167772160)
unfolding calc_subnet_hosts calc_hosts_in_ranges remove_duplicates_from_slice
small_hosts = rw (cidr_to_hosts-network 167772160 29 (omega arith) (omega arith) (omega arith))

Lacks-slash : Lacks b'/' (uitoa 29)
unfolding uitoa digits
Lacks-slash = ground arith

pub one_slash : HasOneSlash (cidr_text 167772160 29)
one_slash = (
  ip_string (mapped 167772160),
  uitoa 29,
  refl,
  ip_string-Lacks b'/' (mapped-IsIpv4 167772160) refl (λ e. absurd (omega arith)),
  Lacks-slash,
)

In-convert_to_ip_list_example : In (mapped 167772162) (convert_to_ip_list (taken_ip ∷ []))
In-convert_to_ip_list_example =
    In-convert_to_ip_list (taken_ip ∷ []) taken_ip (mapped 167772162) (cidr_text 167772160 29)
      (mapped-IsIpv4 167772162) one_slash refl (inl refl)

allocate_auto_ip-Lowest_example :
    (o : Option Ip) × Lowest (hosts_from 8 167772160) (used_list (taken_ip ∷ []) small_subnet) o
    × (allocate_auto_ip lists auto_pod small_subnet small_store
        ≡ (auto_result small_subnet o, small_store))
allocate_auto_ip-Lowest_example =
    allocate_auto_ip-Lowest lists auto_pod small_subnet small_store small_store (taken_ip ∷ [])
      (hosts_from 8 167772160) refl small_hosts

-- An API server that fails to list anything.
abbrev broken : Cluster
broken = record lists { list_macvlan_ips = λ ns selector s. (err missing, s) }

allocate_auto_ip-list_error_example :
    (o : Option Ip) × Lowest (hosts_from 8 167772160) (used_list [] small_subnet) o
    × (allocate_auto_ip broken auto_pod small_subnet small_store
        ≡ (auto_result small_subnet o, small_store))
allocate_auto_ip-list_error_example =
    allocate_auto_ip-list_error broken auto_pod small_subnet small_store small_store missing
      (hosts_from 8 167772160) refl small_hosts

allocate_single_ip-decides_example :
    ((In (parse_ip (codes "10.0.0.3")) (hosts_from 8 167772160)
        × ¬ In (parse_ip (codes "10.0.0.3")) (used_list (taken_ip ∷ []) small_subnet))
      × (allocate_single_ip lists auto_pod small_subnet (codes "10.0.0.3") small_store ≡ (
        ok (
          parse_ip (codes "10.0.0.3"),
          convert_ip_to_cidr (parse_ip (codes "10.0.0.3")) small_subnet.spec.cidr,
        ),
        small_store,
      )))
    ⊎ ((¬ (
          In (parse_ip (codes "10.0.0.3")) (hosts_from 8 167772160)
          × ¬ In (parse_ip (codes "10.0.0.3")) (used_list (taken_ip ∷ []) small_subnet)))
        × Refuses
            (allocate_single_ip lists auto_pod small_subnet (codes "10.0.0.3") small_store)
            small_store)
allocate_single_ip-decides_example =
    allocate_single_ip-decides lists auto_pod small_subnet small_store small_store
      (codes "10.0.0.3") (taken_ip ∷ []) (hosts_from 8 167772160) refl small_hosts

pick_runs :
    pick_first
      (remove_used_hosts (hosts_from 8 167772160) (used_list (taken_ip ∷ []) small_subnet))
      small_subnet
    ≡ ok (mapped 167772163, convert_ip_to_cidr (mapped 167772163) (cidr_text 167772160 29))
unfolding pick_first remove_used_hosts complementip complement_map mark_bytes drop_marked keys put
    get delete sort hosts_from used_list convert_to_ip_list split convert_ip_to_cidr parse_ip
    parse_ipv4 ip_string to4 dotted uitoa digits dtoi dtoi_from beq compare_bytes
pick_runs = refl

-- 10.0.0.3, which the run above allocates
pub Allocates-three : Allocates lists small_subnet (mapped 167772163)
unfolding allocate_auto_ip listed event_macvlan_subnet_error
Allocates-three =
    auto auto_pod small_store (convert_ip_to_cidr (mapped 167772163) (cidr_text 167772160 29))
      (rw small_hosts (ap (λ r. r) pick_runs))

gateway_not_allocated_example : mapped 167772163 ≢ parse_ip small_subnet.spec.gateway
gateway_not_allocated_example =
    gateway_not_allocated lists small_subnet (mapped 167772163) Allocates-three

-- An API server that always lists the macvlanip of 10.0.0.2.
abbrev listing_taken : Cluster
listing_taken = record lists { list_macvlan_ips = λ ns selector s. (ok (taken_ip ∷ s.ips), s) }

no_double_allocation_example : ¬ Allocates listing_taken small_subnet (mapped 167772162)
no_double_allocation_example =
    no_double_allocation listing_taken small_subnet (mapped 167772162) taken_ip
      (mapped-IsIpv4 167772162) one_slash refl (λ s. (taken_ip ∷ s.ips, refl, inl refl))
