-- ===== src/Examples/Assigned.antt =====
-- Runs of the theorems about a pod in mode auto: it is new, and the handler sees it again.
use network_controller.Common.{◌≡◌, ◌≢◌, false, refl, [], ◌∷◌, some, In, inl, inr}
use network_controller.Go.Text.{codes, beq, split, uitoa, digits, dtoi, dtoi_from, compare_bytes}
use network_controller.Go.Result.{ok, err, Reason, status}
use network_controller.Go.Exec.{ignoring}
use network_controller.Go.Net.{Ip, parse_ip, parse_ipv4, ip_string, to4, dotted}
use network_controller.Cluster.{Cluster}
use network_controller.Ipcalc.Incip.{mapped}
use network_controller.Ipcalc.Hosts.{hosts_from}
use network_controller.Ipcalc.Cidr.{mapped-IsIpv4}
use network_controller.Controller.Hosts.{convert_ip_to_cidr, convert_to_ip_list, is_in_hosts}
use network_controller.Controller.Hosts.Used.{is_in_hosts_iff}
use network_controller.Controller.Ipalloc.{used_list}
use network_controller.Controller.Service.{sync_service}
use network_controller.Controller.Macvlanip.{do_add_macvlan_ip}
use network_controller.Controller.Allocation.Auto.{Lowest}
use network_controller.Controller.Effects.Addresses.{registered}
use network_controller.Controller.Effects.Labels.{
  IsLabelled, IsMacvlanIpOf, do_add_macvlan_ip-Lowest, do_add_macvlan_ip-relabels,
}
use network_controller.Types.{Pod, MacvlanIp}
use network_controller.Examples.Store.{Store, lists}
use network_controller.Examples.Allocations.{
  small_subnet, small_store, small_hosts, auto_pod, taken_ip, one_slash,
}
use network_controller.Examples.Handlers.{auto_annotation, auto_subnet, small_found}

free_host : In (mapped 167772163) (hosts_from 8 167772160)
unfolding hosts_from
free_host = inr (inr (inl refl))

found_unused : is_in_hosts (used_list (taken_ip ∷ []) small_subnet) (mapped 167772163) ≡ false
unfolding is_in_hosts used_list convert_to_ip_list split convert_ip_to_cidr parse_ip parse_ipv4
    ip_string to4 dotted uitoa digits dtoi dtoi_from beq compare_bytes
found_unused = refl

free_unused : ¬ In (mapped 167772163) (used_list (taken_ip ∷ []) small_subnet)
free_unused i = cc (found_unused, (is_in_hosts_iff _ (mapped 167772163)).1 i)

pod_shown :
    lists.get_pod (codes "default") (codes "web-1-abc") small_store ≡ (ok auto_pod, small_store)
unfolding beq
pod_shown = refl

abbrev updates : Pod → Store
updates p = (lists.update_pod (codes "default") p small_store).1

do_add_macvlan_ip-Lowest_example :
    (ip : Ip) × (sent : Pod) × (item : MacvlanIp) × Lowest
      (hosts_from 8 167772160)
      (used_list (taken_ip ∷ []) small_subnet)
      (some ip)
    × IsLabelled auto_pod (codes "auto") ip sent
    × IsMacvlanIpOf auto_pod small_subnet (convert_ip_to_cidr ip small_subnet.spec.cidr) [] item
    × (do_add_macvlan_ip lists auto_pod small_store ≡ (
        let (answer, z) = lists.create_macvlan_ip (codes "default") item (updates sent) in
        registered lists auto_pod answer z))
do_add_macvlan_ip-Lowest_example =
    do_add_macvlan_ip-Lowest lists auto_pod auto_pod small_store small_store pod_shown
      (λ p. (p, refl)) (record { once = λ f w v e. e }) small_subnet (codes "small") small_store
      small_store auto_subnet auto_annotation small_found (taken_ip ∷ []) (hosts_from 8 167772160)
      refl small_hosts (mapped 167772163) free_host free_unused

-- The server has a macvlanip of the pod's name already, and the handler sees the pod again.
abbrev seen_again : Cluster
seen_again = record lists {
  create_macvlan_ip = λ ns item s. (err (status Reason.already_exists (codes "exists")), s);
}

again_found :
    seen_again.get_subnet (codes "kube-system") (codes "small") small_store
    ≡ (ok small_subnet, small_store)
unfolding beq
again_found = refl

again_shown :
    seen_again.get_pod (codes "default") (codes "web-1-abc") small_store
    ≡ (ok auto_pod, small_store)
unfolding beq
again_shown = refl

do_add_macvlan_ip-relabels_example :
    (ip : Ip) × (sent : Pod) × (item : MacvlanIp) × (ip ≢ mapped 167772162)
    × IsLabelled auto_pod (codes "auto") ip sent
    × (do_add_macvlan_ip seen_again auto_pod small_store
        ≡ ignoring tt
            (sync_service seen_again auto_pod.meta.name auto_pod.meta.namespace)
            (seen_again.create_macvlan_ip (codes "default") item (updates sent)).1)
do_add_macvlan_ip-relabels_example =
    do_add_macvlan_ip-relabels seen_again auto_pod auto_pod small_store small_store again_shown
      (λ p. (p, refl)) (record { once = λ f w v e. e }) small_subnet (codes "small") small_store
      small_store auto_subnet auto_annotation again_found (taken_ip ∷ []) (hosts_from 8 167772160)
      refl small_hosts (mapped 167772163) taken_ip (mapped 167772162) (codes "exists") free_host
      free_unused (inl refl) (mapped-IsIpv4 167772162) one_slash refl (λ new z e. refl)
