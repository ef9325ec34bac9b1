-- ===== src/Examples/Multiple.antt =====
-- A run of mode multiple, and of the theorem about it.
use network_controller.Common.{some, true, false, ◌≡◌, ◌⊎◌, refl, [], ◌∷◌}
use network_controller.Go.Text.{
  Bytes, codes, split, trim, contains, beq, compare_bytes, dtoi, dtoi_from, uitoa, digits,
}
use network_controller.Go.Result.{ok, err, plain}
use network_controller.Go.Map.{get, put, value_or}
use network_controller.Go.Net.{parse_ip, parse_ipv4, ip_string, to4, dotted}
use network_controller.Types.{Pod, annotation_ip, annotation_subnet, annotation_mac}
use network_controller.Ipcalc.Incip.{mapped}
use network_controller.Ipcalc.Hosts.{hosts_from}
use network_controller.Ipcalc.Cidr.{cidr_text}
use network_controller.Controller.Hosts.{
  is_single_ip, is_multiple_ip, all_parse, convert_ip_to_cidr, convert_to_ip_list, dashed,
  check_ip_validation, is_in_hosts,
}
use network_controller.Controller.Ipalloc.{
  used_list, listed, checked, select_ip, allocate_multiple_ip, macs_of, mac_map, unused_map,
  take_label, take_labels, no_enough_ip, allocate_single_ip,
}
use network_controller.Controller.Allocation.Choice.{
  AllTaken, FirstFree, with_mac, allocate_multiple_ip-FirstFree,
}
use network_controller.Controller.Allocation.Marks.{HasMac}
use network_controller.Controller.Macvlanip.{do_add_macvlan_ip, annotation}
use network_controller.Controller.Effects.Addresses.{outcome}
use network_controller.Controller.Effects.Assigned.{multiple, do_add_macvlan_ip-IsMode}
use network_controller.Examples.Handlers.{small_found}
use network_controller.Examples.Store.{lists}
use network_controller.Examples.Allocations.{
  small_subnet, small_store, small_hosts, auto_pod, meta_named,
}

abbrev two_addresses : Bytes
two_addresses = codes "10.0.0.3-10.0.0.4"

multiple_runs :
    (allocate_multiple_ip lists auto_pod small_subnet two_addresses [] small_store).0
    ≡ ok (mapped 167772163, convert_ip_to_cidr (mapped 167772163) (cidr_text 167772160 29), [])
unfolding allocate_multiple_ip select_ip listed checked macs_of mac_map unused_map take_label
    take_labels used_list convert_to_ip_list check_ip_validation is_in_hosts convert_ip_to_cidr
    split trim contains beq compare_bytes dtoi dtoi_from uitoa digits get put parse_ip parse_ipv4
    ip_string to4 dotted hosts_from
multiple_runs = rw small_hosts

no_mac_given : macs_of (dashed two_addresses) two_addresses [] ≡ ok []
unfolding macs_of contains
no_mac_given = refl

allocate_multiple_ip-FirstFree_example :
    (AllTaken (auto_pod ∷ []) (dashed two_addresses)
      × (allocate_multiple_ip lists auto_pod small_subnet two_addresses [] small_store
          ≡ (err (plain (no_enough_ip two_addresses)), small_store)))
    ⊎ ((k mac : Bytes) × FirstFree (auto_pod ∷ []) (dashed two_addresses) k
        × HasMac (dashed two_addresses) [] k mac
        × (allocate_multiple_ip lists auto_pod small_subnet two_addresses [] small_store
            ≡ with_mac mac (allocate_single_ip lists auto_pod small_subnet k) small_store))
allocate_multiple_ip-FirstFree_example =
    allocate_multiple_ip-FirstFree lists small_subnet (auto_pod ∷ []) auto_pod two_addresses [] []
      small_store small_store refl no_mac_given

-- A pod that asks for one of the two.
abbrev choosy_pod : Pod
choosy_pod = record {
  meta = record (meta_named "web-1-abc") {
    annotations = some ((annotation_ip, two_addresses) ∷ (annotation_subnet, codes "small") ∷ []);
  };
}

choosy_annotation : annotation choosy_pod annotation_ip ≡ some two_addresses
unfolding annotation get beq
choosy_annotation = refl

choosy_subnet : annotation choosy_pod annotation_subnet ≡ some (codes "small")
unfolding annotation get beq
choosy_subnet = refl

two_other : beq two_addresses (codes "auto") ≡ false
unfolding beq
two_other = refl

two_not_single : is_single_ip two_addresses ≡ false
unfolding is_single_ip parse_ip parse_ipv4 dtoi dtoi_from
two_not_single = refl

two_several : is_multiple_ip two_addresses ≡ true
unfolding is_multiple_ip contains split trim all_parse parse_ip parse_ipv4 dtoi dtoi_from
two_several = refl

do_add_macvlan_ip-IsMode_example : do_add_macvlan_ip lists choosy_pod small_store ≡ (
    let macs = value_or [] (annotation choosy_pod annotation_mac) in
    let (r, u) =
      allocate_multiple_ip lists choosy_pod small_subnet two_addresses macs small_store in
    outcome lists choosy_pod small_subnet two_addresses r u)
do_add_macvlan_ip-IsMode_example =
    do_add_macvlan_ip-IsMode lists choosy_pod small_subnet (codes "small") small_store small_store
      choosy_subnet small_found two_addresses
      (allocate_multiple_ip lists choosy_pod small_subnet two_addresses
        (value_or [] (annotation choosy_pod annotation_mac)))
      choosy_annotation (multiple two_other two_not_single two_several)
