-- ===== src/Controller/Uniqueness/Server.antt =====
-- The API server as a store of macvlanips: what the controller's calls do to those of each subnet,
-- while anyone may delete some of them.
use network_controller.Common.{◌≡◌, List, [], ◌∷◌, ◌++◌, some}
use network_controller.Go.Text.{Bytes, codes}
use network_controller.Go.Result.{ok}
use network_controller.Go.Exec.{Exec, perform}
use network_controller.Go.Exec.Keeps.{Within}
use network_controller.Go.Map.{get, made}
use network_controller.Types.{MacvlanIp, MacvlanSubnet, Pod, Service, WorkItem, Attachment}
use network_controller.Cluster.{Cluster}
use network_controller.Controller.Ipalloc.{subnet_selector}
use network_controller.Controller.Uniqueness.Lists.{Sublist}
use network_controller.Controller.Uniqueness.Hosts.{IsIpv4Network}

-- The macvlanips of each subnet are those that there were, some of which may be gone.
abbrev pub Fewer : (Bytes → List MacvlanIp) → (Bytes → List MacvlanIp) → Type 0
Fewer after before = (subnet : Bytes) → Sublist (after subnet) (before subnet)

-- At most, macvlanips are deleted during the call, by it or by others.
abbrev pub Loses : {W A : Type 0} → (W → Bytes → List MacvlanIp) → Exec W A → Type 0
Loses ips call = Within Fewer ips call

-- A creation, during which others may delete: the item stands among those of the subnet that its
-- label names, or nothing is added.
pub data Created (item : MacvlanIp) (subnet : Bytes) (before after : List MacvlanIp) : Type 0 where
  not_created : Sublist after before → Created item subnet before after
  inserted :
      (a b : List MacvlanIp)
      → get (made item.meta.labels) (codes "subnet") ≡ some subnet
      → Sublist (a ++ b) before
      → Sublist after (a ++ item ∷ b)
      → Created item subnet before after

-- A list succeeds, and names at least the macvlanips that are left when it returns.
abbrev pub Lists : {W : Type 0} → (W → List MacvlanIp) → Exec W (List MacvlanIp) → W → Type 0
Lists left call w =
    (items : List MacvlanIp) × ((call w).0 ≡ ok items) × Sublist (left (call w).1) items

-- The calls that are not about macvlanips or subnets add no macvlanips.
pub record OthersLose (c : Cluster) (ips : c.World → Bytes → List MacvlanIp) : Type 0 where
  pub get_pod_loses : (ns name : Bytes) → Loses ips (c.get_pod ns name)
  pub list_pods_loses : (ns selector : Bytes) → Loses ips (c.list_pods ns selector)
  pub update_pod_loses : (ns : Bytes) (pod : Pod) → Loses ips (c.update_pod ns pod)
  pub get_service_loses : (ns name : Bytes) → Loses ips (c.get_service ns name)
  pub create_service_loses : (ns : Bytes) (svc : Service) → Loses ips (c.create_service ns svc)
  pub get_replica_set_loses : (ns name : Bytes) → Loses ips (c.get_replica_set ns name)
  pub get_workload_loses : (resource ns name : Bytes) → Loses ips (c.get_workload resource ns name)
  pub lister_pod_loses : (ns name : Bytes) → Loses ips (c.lister_pod ns name)
  pub event_loses :
      (pod : Pod) (reason message : Bytes) → Loses ips (perform (c.event pod reason message))
  pub queue_get_loses : Loses ips c.queue_get
  pub rate_limited_loses : (item : WorkItem) → Loses ips (perform (c.queue_add_rate_limited item))
  pub forget_loses : (item : WorkItem) → Loses ips (perform (c.queue_forget item))
  pub done_loses : (item : WorkItem) → Loses ips (perform (c.queue_done item))
  pub add_loses : (item : WorkItem) → Loses ips (perform (c.queue_add item))
  pub create_attachment_loses : (ns : Bytes) (a : Attachment) → Loses ips (c.create_attachment ns a)
  pub delete_attachment_loses : (ns name : Bytes) → Loses ips (c.delete_attachment ns name)
  pub retry_loses : (f : Exec c.World (Unit {0})) → Loses ips f → Loses ips (c.retry_on_conflict f)

-- `ips` are the macvlanips of each subnet, by the subnet's name. Only a creation by the controller
-- adds to them. Each subnet that the server returns has an IPv4 network.
pub record IsStore (c : Cluster) (ips : c.World → Bytes → List MacvlanIp) : Type 0 where
  pub lists :
      (subnet : MacvlanSubnet) (w : c.World)
      → Lists (λ v. ips v subnet.meta.name) (c.list_macvlan_ips [] (subnet_selector subnet)) w
  pub creates :
      (ns : Bytes) (item : MacvlanIp) (w : c.World) (subnet : Bytes)
      → Created item subnet (ips w subnet) (ips (c.create_macvlan_ip ns item w).1 subnet)
  pub networks :
      (ns name : Bytes) (w : c.World) (subnet : MacvlanSubnet)
      → (c.get_subnet ns name w).0 ≡ ok subnet
      → IsIpv4Network subnet.spec.cidr
  pub delete_loses : (ns name : Bytes) → Loses ips (c.delete_macvlan_ip ns name)
  pub list_loses : (ns selector : Bytes) → Loses ips (c.list_macvlan_ips ns selector)
  pub get_subnet_loses : (ns name : Bytes) → Loses ips (c.get_subnet ns name)
  pub lister_loses : Loses ips c.lister_macvlan_ips
  pub update_subnet_loses :
      (ns : Bytes) (subnet : MacvlanSubnet) → Loses ips (c.update_subnet ns subnet)
  pub others : OthersLose c ips
