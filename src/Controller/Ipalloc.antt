-- ===== src/Controller/Ipalloc.antt =====
-- controller/ipalloc.go and controller/errlog.go: the three ways to choose an address for a pod.
use network_controller.Common.{
  Bool, true, false, List, [], ◌∷◌, ◌++◌, ◌==◌, if◌then◌else◌, length, is_empty,
}
use network_controller.Go.Text.{Bytes, codes, contains, hex}
use network_controller.Go.Result.{Result, ok, err, Error, plain, error_text}
use network_controller.Go.Exec.{Exec, pure, raise, lift, catch, ignoring, perform, ◌>>=◌, ◌>>◌}
use network_controller.Go.Map.{Dict, get, put, value_or, made}
use network_controller.Go.Sha1.{sha1_sum}
use network_controller.Go.Net.{Ip, parse_ip}
use network_controller.Types.{
  Pod, MacvlanIp, MacvlanSubnet, label_selected_ip, label_multiple_ip_hash,
}
use network_controller.Cluster.{Cluster}
use network_controller.Ipcalc.{remove_used_hosts}
use network_controller.Controller.Hosts.{
  convert_to_ip_list, convert_ip_to_cidr, calc_subnet_hosts, check_ip_validation, dashed,
}

-- The errors of this file.
abbrev pub no_enough_ip : Bytes → Bytes
no_enough_ip name = codes "No enough ip resouce in subnet: " ++ name

abbrev pub counts_differ : Bytes → Bytes → Bytes
counts_differ ip mac = codes "count of multiple IP and Mac not same: " ++ (ip ++ b' ' ∷ mac)

-- `fmt.Sprintf("%x", sha1.Sum([]byte(annotationIP)))`
abbrev pub ip_hash : Bytes → Bytes
ip_hash annotation = hex (sha1_sum annotation)

abbrev pub subnet_selector : MacvlanSubnet → Bytes
subnet_selector subnet = codes "subnet=" ++ subnet.meta.name

-- The used list with the gateway's address added.
unfoldable pub used_list : List MacvlanIp → MacvlanSubnet → List Ip
used_list ips subnet = convert_to_ip_list ips ++ parse_ip subnet.spec.gateway ∷ []

-- The head of `usable`, if there is one.
unfoldable pub pick_first : List Ip → MacvlanSubnet → Result (Ip × Bytes)
pick_first [] subnet = err (plain (no_enough_ip subnet.meta.name))
pick_first (ip ∷ ips) subnet = ok (ip, convert_ip_to_cidr ip subnet.spec.cidr)

-- `ipUnused`: every address of the annotation is unused at first.
unfoldable pub unused_map : Dict Bool → List Bytes → Dict Bool
unused_map m [] = m
unused_map m (v ∷ vs) = unused_map (put m v true) vs

-- `ipToMac`: the MAC at the same place; nothing where no list of MACs was given.
unfoldable pub mac_map : Dict Bytes → List Bytes → List Bytes → Dict Bytes
mac_map m (v ∷ vs) (mac ∷ macs) = mac_map (put m v mac) vs macs
mac_map m _ _ = m

-- The label with the selected address of each pod takes that address away.
unfoldable pub take_label : Dict Bool → Bytes → Dict Bool
take_label m label =
    if is_empty label then m else if value_or false (get m label) then put m label false else m

unfoldable pub take_labels : Dict Bool → List Pod → Dict Bool
unfolding take_label
take_labels m [] = m
take_labels m (v ∷ vs) =
    take_labels (take_label m (value_or [] (get (made v.meta.labels) label_selected_ip))) vs

-- The MACs of the annotation: none without a dash, else as many as there are addresses.
unfoldable pub macs_of : List Bytes → Bytes → Bytes → Result (List Bytes)
macs_of ips annotation_ip annotation_mac =
    if contains annotation_mac b'-'
    then (if length (dashed annotation_mac) == length ips
        then ok (dashed annotation_mac)
        else err (plain (counts_differ annotation_ip annotation_mac)))
    else ok []

module _ (c : Cluster) where
  open c use {World, list_macvlan_ips, list_pods, event}

  unfoldable pub event_macvlan_subnet_error : Pod → Error → Exec World (Unit {0})
  event_macvlan_subnet_error pod e = perform (event pod (codes "MacvlanSubnetError") (error_text e))

  unfoldable pub event_macvlan_ip_error : Pod → Error → Exec World (Unit {0})
  event_macvlan_ip_error pod e = perform (event pod (codes "MacvlanIPError") (error_text e))

  -- The list of the subnet's addresses. Beside an error the client returns an empty list, and all
  -- three callers overwrite the error.
  unfoldable pub listed : MacvlanSubnet → Exec World (List MacvlanIp)
  listed subnet = ignoring [] (list_macvlan_ips [] (subnet_selector subnet))

  unfoldable pub allocate_auto_ip : Pod → MacvlanSubnet → Exec World (Ip × Bytes)
  unfolding listed pick_first
  allocate_auto_ip pod subnet = do
    ips ← listed subnet
    hosts ←
        catch (lift (calc_subnet_hosts subnet)) (λ e. event_macvlan_subnet_error pod e >> pure [])
    lift (pick_first (remove_used_hosts hosts (used_list ips subnet)) subnet)

  -- What single and multiple mode share behind their call of `List`: the address is checked.
  unfoldable pub checked : MacvlanSubnet → Bytes → List MacvlanIp → Exec World (Ip × Bytes)
  checked subnet ip_text ips = do
    hosts ← lift (calc_subnet_hosts subnet)
    lift (check_ip_validation (parse_ip ip_text) hosts (used_list ips subnet) subnet)
    pure (parse_ip ip_text, convert_ip_to_cidr (parse_ip ip_text) subnet.spec.cidr)

  unfoldable pub allocate_single_ip : Pod → MacvlanSubnet → Bytes → Exec World (Ip × Bytes)
  unfolding listed checked
  allocate_single_ip pod subnet ip_text = do ips ← listed subnet; checked subnet ip_text ips

  -- The last loop of `allocateMultipleIP`: the first address that is unused is checked and taken.
  unfoldable pub select_ip :
      Dict Bool → Dict Bytes → MacvlanSubnet → Bytes → List Bytes → Exec World (Ip × Bytes × Bytes)
  unfolding listed checked
  select_ip unused to_mac subnet annotation [] = raise (plain (no_enough_ip annotation))
  select_ip unused to_mac subnet annotation (key ∷ keys) =
      let rest = select_ip unused to_mac subnet annotation keys in
      if value_or false (get unused key)
      then (do
        ips ← listed subnet
        (ip, cidr) ← checked subnet key ips
        pure (ip, cidr, value_or [] (get to_mac key)))
      else rest

  unfoldable pub allocate_multiple_ip :
      Pod → MacvlanSubnet → Bytes → Bytes → Exec World (Ip × Bytes × Bytes)
  unfolding select_ip
  allocate_multiple_ip pod subnet annotation_ip annotation_mac = do
    macs ← lift (macs_of (dashed annotation_ip) annotation_ip annotation_mac)
    pods ←
        list_pods pod.meta.namespace (label_multiple_ip_hash ++ codes "=" ++ ip_hash annotation_ip)
    select_ip (take_labels (unused_map [] (dashed annotation_ip)) pods)
        (mac_map [] (dashed annotation_ip) macs) subnet annotation_ip (dashed annotation_ip)
