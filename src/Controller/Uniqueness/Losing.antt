-- ===== src/Controller/Uniqueness/Losing.antt =====
-- The parts of the handler of a pod that add no macvlanips: the allocation, the labels and the
-- services.
use network_controller.Common.{Bool, false, List, [], ◌∷◌}
use network_controller.Go.Text.{Bytes, codes, beq}
use network_controller.Go.Result.{Error}
use network_controller.Go.Exec.{Exec}
use network_controller.Go.Exec.Keeps.{
  Keeps, Keeps-of_Within, Within-of_Keeps, keeps_rules, if-Keeps,
}
use network_controller.Go.Map.{Dict, get, value_or}
use network_controller.Go.Net.{Ip}
use network_controller.Types.{MacvlanIp, MacvlanSubnet, Pod, Service, OwnerReference}
use network_controller.Cluster.{Cluster}
use network_controller.Controller.Ipalloc.{
  listed, checked, select_ip, allocate_auto_ip, allocate_single_ip, allocate_multiple_ip,
  event_macvlan_subnet_error, event_macvlan_ip_error,
}
use network_controller.Controller.Macvlanip.{update_labels}
use network_controller.Controller.Service.{
  sync_service, find_owner_workload, find_owner, get_app_name, create_service_if_not_exist,
  is_workload_kind,
}
use network_controller.Controller.Uniqueness.Lists.{Sublist-refl, Sublist-trans}
use network_controller.Controller.Uniqueness.Server.{IsStore, Fewer, Loses}

-- What the loss of macvlanips leaves true.
abbrev pub IsClosed : ((Bytes → List MacvlanIp) → Type 0) → Type 0
IsClosed Q = (v v' : Bytes → List MacvlanIp) → Fewer v' v → Q v → Q v'

module _ (c : Cluster) (ips : c.World → Bytes → List MacvlanIp) (store : IsStore c ips) where
  module _ (Q : (Bytes → List MacvlanIp) → Type 0) (closed : IsClosed Q) where
    -- What is true of the macvlanips.
    abbrev Holds : c.World → Type 0
    Holds w = Q (ips w)

    pub quietly : {A : Type 0} (m : Exec c.World A) → Loses ips m → Keeps Holds m
    quietly m l = Keeps-of_Within Fewer ips Q closed m l

    get_app_name-Keeps : (kind ns name : Bytes) → Keeps Holds (get_app_name c kind ns name)
    unfolding get_app_name
    get_app_name-Keeps kind ns name = search (quietly, store.others.get_workload_loses)

    find_owner-Keeps :
        (pod_name ns : Bytes) (owners : List OwnerReference)
        → Keeps Holds (find_owner c pod_name ns owners)
    unfolding find_owner
    find_owner-Keeps pod_name ns [] = search keeps_rules
    find_owner-Keeps pod_name ns (owner ∷ owners) =
        if-Keeps Holds (is_workload_kind owner.kind) _ _
          (get_app_name-Keeps owner.kind ns owner.name)
          (if-Keeps Holds (beq owner.kind (codes "ReplicaSet")) _ _
            (search (keeps_rules, get_app_name-Keeps, quietly, store.others.get_replica_set_loses))
            (find_owner-Keeps pod_name ns owners))

    ensure-Keeps : (svc : Service) → Keeps Holds (create_service_if_not_exist c svc)
    unfolding create_service_if_not_exist
    ensure-Keeps svc =
        search
          (keeps_rules, quietly, store.others.get_service_loses, store.others.create_service_loses)

    pub sync_service-Keeps : (name ns : Bytes) → Keeps Holds (sync_service c name ns)
    unfolding sync_service find_owner_workload
    sync_service-Keeps name ns =
        search
          (
            keeps_rules, find_owner-Keeps, ensure-Keeps, quietly, store.others.get_pod_loses,
            store.others.get_service_loses,
          )
          depth 9

    update_labels-Keeps :
        (pod : Pod) (text : Bytes) (ip : Ip) → Keeps Holds (update_labels c pod text ip)
    unfolding update_labels
    update_labels-Keeps pod text ip =
        search (keeps_rules, quietly, store.others.get_pod_loses, store.others.update_pod_loses)

    listed-Keeps : (subnet : MacvlanSubnet) → Keeps Holds (listed c subnet)
    unfolding listed
    listed-Keeps subnet = search (keeps_rules, quietly, store.list_loses)

    checked-Keeps :
        (subnet : MacvlanSubnet) (text : Bytes) (items : List MacvlanIp)
        → Keeps Holds (checked c subnet text items)
    unfolding checked
    checked-Keeps subnet text items = search keeps_rules

    pub subnet_event-Keeps :
        (pod : Pod) (e : Error) → Keeps Holds (event_macvlan_subnet_error c pod e)
    unfolding event_macvlan_subnet_error
    subnet_event-Keeps pod e = search (quietly, store.others.event_loses)

    pub ip_event-Keeps : (pod : Pod) (e : Error) → Keeps Holds (event_macvlan_ip_error c pod e)
    unfolding event_macvlan_ip_error
    ip_event-Keeps pod e = search (quietly, store.others.event_loses)

    pub allocate_auto_ip-Keeps :
        (pod : Pod) (subnet : MacvlanSubnet) → Keeps Holds (allocate_auto_ip c pod subnet)
    unfolding allocate_auto_ip
    allocate_auto_ip-Keeps pod subnet = search (keeps_rules, listed-Keeps, subnet_event-Keeps)

    pub allocate_single_ip-Keeps :
        (pod : Pod) (subnet : MacvlanSubnet) (text : Bytes)
        → Keeps Holds (allocate_single_ip c pod subnet text)
    unfolding allocate_single_ip
    allocate_single_ip-Keeps pod subnet text = search (keeps_rules, listed-Keeps, checked-Keeps)

    select_ip-Keeps :
        (unused : Dict Bool) (to_mac : Dict Bytes) (subnet : MacvlanSubnet) (annotation : Bytes)
        (keys : List Bytes)
        → Keeps Holds (select_ip c unused to_mac subnet annotation keys)
    unfolding select_ip
    select_ip-Keeps unused to_mac subnet annotation [] = search keeps_rules
    select_ip-Keeps unused to_mac subnet annotation (key ∷ keys) =
        if-Keeps Holds (value_or false (get unused key)) _ _
          (search (keeps_rules, listed-Keeps, checked-Keeps))
          (select_ip-Keeps unused to_mac subnet annotation keys)

    pub allocate_multiple_ip-Keeps :
        (pod : Pod) (subnet : MacvlanSubnet) (text macs : Bytes)
        → Keeps Holds (allocate_multiple_ip c pod subnet text macs)
    unfolding allocate_multiple_ip
    allocate_multiple_ip-Keeps pod subnet text macs =
        search (keeps_rules, quietly, store.others.list_pods_loses, select_ip-Keeps)

  Fewer-refl : (v : Bytes → List MacvlanIp) → Fewer v v
  Fewer-refl v subnet = Sublist-refl (v subnet)

  Fewer-IsClosed : (o : Bytes → List MacvlanIp) → IsClosed (λ v. Fewer v o)
  Fewer-IsClosed o v v' f g subnet = Sublist-trans (g subnet) (f subnet)

  -- A call that keeps all that losses leave true does no more than lose.
  pub Loses-of_Keeps :
      {A : Type 0} (m : Exec c.World A)
      → ((Q : (Bytes → List MacvlanIp) → Type 0) → IsClosed Q → Keeps (λ w. Q (ips w)) m)
      → Loses ips m
  Loses-of_Keeps m k =
      Within-of_Keeps Fewer ips Fewer-refl m (λ o. k (λ v. Fewer v o) (Fewer-IsClosed o))

  -- The update of the labels, also when it is tried again.
  pub retried-Loses :
      (pod : Pod) (text : Bytes) (ip : Ip)
      → Loses ips (c.retry_on_conflict (update_labels c pod text ip))
  retried-Loses pod text ip =
      store.others.retry_loses _
        (Loses-of_Keeps _ (λ Q closed. update_labels-Keeps Q closed pod text ip))
