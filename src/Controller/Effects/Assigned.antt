-- ===== src/Controller/Effects/Assigned.antt =====
-- controller/macvlanip.go: the handler of a new pod together with the allocations, in each mode.
use network_controller.Common.{◌≡◌, ap, ◌∙◌, true, false, [], some}
use network_controller.Go.Text.{Bytes, codes, beq}
use network_controller.Go.Result.{Result, ok}
use network_controller.Go.Map.{value_or}
use network_controller.Go.Net.{Ip}
use network_controller.Types.{
  Pod, MacvlanSubnet, macvlan_subnet_namespace, annotation_ip, annotation_subnet, annotation_mac,
}
use network_controller.Cluster.{Cluster}
use network_controller.Controller.Hosts.{is_single_ip, is_multiple_ip}
use network_controller.Controller.Ipalloc.{
  allocate_auto_ip, allocate_single_ip, allocate_multiple_ip,
}
use network_controller.Controller.Macvlanip.{annotation, do_add_macvlan_ip}
use network_controller.Controller.Effects.Addresses.{
  outcome, bare, do_add_macvlan_ip-auto, do_add_macvlan_ip-single, do_add_macvlan_ip-multiple,
}

module _ (c : Cluster) (pod : Pod) (subnet : MacvlanSubnet) where
  -- The allocation that belongs to the text of the annotation; without a MAC but in mode multiple.
  pub data IsMode (text : Bytes) : (c.World → Result (Ip × Bytes × Bytes) × c.World) → Type 0 where
    auto :
        text ≡ codes "auto"
        → IsMode text
            (λ v. let (r, u) = allocate_auto_ip c pod subnet v in (bare c pod subnet r, u))
    single :
        beq text (codes "auto") ≡ false
        → is_single_ip text ≡ true
        → IsMode text
            (λ v. let (r, u) = allocate_single_ip c pod subnet text v in (bare c pod subnet r, u))
    multiple :
        beq text (codes "auto") ≡ false
        → is_single_ip text ≡ false
        → is_multiple_ip text ≡ true
        → IsMode text
            (allocate_multiple_ip c pod subnet text (value_or [] (annotation pod annotation_mac)))

  module _ (name : Bytes) (w v : c.World) (names : annotation pod annotation_subnet ≡ some name)
      (found : c.get_subnet macvlan_subnet_namespace name w ≡ (ok subnet, v)) where
    -- A pod that names a subnet which exists: in each of the three modes the handler ends as the chain
    -- of its calls tells. An error of the allocation or of the creation becomes an event of the pod and
    -- is returned; a macvlanip that exists already and errors of the services are passed over; and
    -- where the pod's labels cannot be written, nothing is created and no error is returned.
    pub do_add_macvlan_ip-IsMode :
        (text : Bytes) (allocate : c.World → Result (Ip × Bytes × Bytes) × c.World)
        → annotation pod annotation_ip ≡ some text
        → IsMode text allocate
        → do_add_macvlan_ip c pod w ≡ (let (r, u) = allocate v in outcome c pod subnet text r u)
    do_add_macvlan_ip-IsMode text allocate asks (auto e) =
        rw e (do_add_macvlan_ip-auto c pod subnet name w v (asks ∙ ap some e) names found)
    do_add_macvlan_ip-IsMode text allocate asks (single other one) =
        do_add_macvlan_ip-single c pod subnet name text w v asks names other one found
    do_add_macvlan_ip-IsMode text allocate asks (multiple other many several) =
        do_add_macvlan_ip-multiple c pod subnet name text w v asks names other many several found
