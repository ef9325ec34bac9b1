-- ===== src/Examples/Handlers.antt =====
-- Runs of the theorems about the handlers of pods, services and subnets.
use network_controller.Common.{
  String, ◌+◌, ◌≡◌, refl, [], ◌∷◌, some, if◌then◌else◌, arith, true, false, is_empty, ◌⊎◌, List,
  Bool-cases, inl, inr, ◌↔◌,
}
use network_controller.Go.Text.{Bytes, codes, beq}
use network_controller.Go.Int.{pos, sprint}
use network_controller.Go.Result.{ok, err, panics}
use network_controller.Go.Map.{get, made}
use network_controller.Go.Net.{ip_string, parse_ip, parse_cidr, cut_slash}
use network_controller.Types.{
  OwnerReference, Workload, MacvlanSubnet, Pod, Service, ObjectMeta, int_val, annotation_ip,
  annotation_subnet,
}
use network_controller.Ipcalc.{calc_default_gateway}
use network_controller.Ipcalc.Incip.{mapped}
use network_controller.Ipcalc.Hosts.{first}
use network_controller.Ipcalc.Cidr.{cidr_text}
use network_controller.Controller.Macvlanip.{annotation}
use network_controller.Controller.Service.{sync_service}
use network_controller.Controller.Subnet.{gateway_of, completed}
use network_controller.Controller.Effects.Owners.{LeadsTo, replica_set}
use network_controller.Controller.Effects.Services.{ensured, IsCopy, sync_service-IsCopy}
use network_controller.Controller.Effects.Purging.{Answers}
use network_controller.Controller.Effects.Panics.{
  IsAnswering, HasOrphan, at_first, sync_service-HasOrphan,
}
use network_controller.Controller.Effects.Subnets.{
  completed-gateway, completed-completed, completed-labels,
}
use network_controller.Examples.Store.{Store, lists, missing, find}
use network_controller.Examples.Allocations.{meta_named, small_subnet, small_store, auto_pod}

pub auto_annotation : annotation auto_pod annotation_ip ≡ some (codes "auto")
unfolding annotation get beq
auto_annotation = refl

pub auto_subnet : annotation auto_pod annotation_subnet ≡ some (codes "small")
unfolding annotation get beq
auto_subnet = refl

pub small_found :
    lists.get_subnet (codes "kube-system") (codes "small") small_store
    ≡ (ok small_subnet, small_store)
unfolding beq
small_found = refl

abbrev owned_by : String → OwnerReference
owned_by name = record {
  api_version = codes "apps/v1";
  kind = codes "ReplicaSet";
  uid = codes "uid-rs";
  name = codes name;
  controller = some true;
}

abbrev owned_pod : String → Pod
owned_pod name = record {
  meta = record (meta_named "web-1-abc") { owner_references = owned_by name ∷ [] };
}

abbrev web_deployment : OwnerReference
web_deployment = record {
  api_version = codes "apps/v1";
  kind = codes "Deployment";
  uid = codes "uid-web";
  name = codes "web";
  controller = some true;
}

abbrev web_service : Service
web_service = record {
  meta = meta_named "web";
  ports =
      record {
        name = codes "http";
        protocol = codes "TCP";
        port = pos 80;
        target_port = int_val (pos 8080);
        node_port = pos 0;
      }
      ∷ [];
  rest = [];
}

abbrev web_store : String → Store
web_store name = record small_store { pods = owned_pod name ∷ []; services = web_service ∷ [] }

pod_found :
    lists.get_pod (codes "default") (codes "web-1-abc") (web_store "web-1")
    ≡ (ok (owned_pod "web-1"), web_store "web-1")
unfolding beq
pod_found = refl

sets_found :
    lists.get_replica_set (codes "default") (codes "web-1") (web_store "web-1")
    ≡ (ok (web_deployment ∷ []), web_store "web-1")
unfolding beq
sets_found = refl

copy_missing :
    lists.get_service (codes "default") (codes "web-macvlan") (web_store "web-1")
    ≡ (err missing, web_store "web-1")
unfolding beq
copy_missing = refl

abbrev web_workload : Workload
web_workload = record { name = codes "web"; kind = codes "Deployment"; uid = codes "uid-web" }

web_workload-LeadsTo :
    LeadsTo lists
      (codes "default")
      (owned_by "web-1" ∷ [])
      (web_store "web-1")
      web_workload
      (web_store "web-1")
web_workload-LeadsTo = replica_set web_deployment [] refl sets_found refl refl

service_of_web :
    lists.get_service (codes "default") web_workload.name (web_store "web-1")
    ≡ (ok web_service, web_store "web-1")
unfolding beq
service_of_web = refl

sync_service-IsCopy_example :
    (copy : Service) × IsCopy lists web_service copy
    × (sync_service lists (codes "web-1-abc") (codes "default") (web_store "web-1")
        ≡ ensured lists copy (err missing) (web_store "web-1"))
sync_service-IsCopy_example =
    sync_service-IsCopy lists (web_store "web-1") (web_store "web-1") (web_store "web-1")
      (web_store "web-1") (web_store "web-1") (codes "web-1-abc") (codes "default")
      (owned_pod "web-1") (owned_by "web-1") [] web_workload web_service (err missing) pod_found
      refl web_workload-LeadsTo service_of_web copy_missing

find-Answers :
    {A : Type 0} (meta_of : A → ObjectMeta) (xs : List A) (name : Bytes)
    → Answers (find meta_of xs name)
find-Answers meta_of [] name = tt
find-Answers meta_of (x ∷ xs) name = elim (Bool-cases (beq (meta_of x).name name)) [
  | inl e ↦ rw e tt
  | inr e ↦ rw e (find-Answers meta_of xs name)
]

lists-IsAnswering : IsAnswering lists
lists-IsAnswering = record {
  pod = λ ns name w. find-Answers Pod.meta w.pods name;
  replica_set = λ ns name w. tt;
  workload = λ resource ns name w. tt;
  service = λ ns name w. find-Answers Service.meta w.services name;
  creation = λ ns s w. tt;
}

sync_service-HasOrphan_example :
    ((sync_service lists (codes "web-1-abc") (codes "default") (web_store "lone")).0 ≡ panics) ↔ (
      (pod : Pod) × ((lists.get_pod (codes "default") (codes "web-1-abc") (web_store "lone")).0
        ≡ ok pod)
      × HasOrphan lists pod.meta.namespace (web_store "lone") pod.meta.owner_references)
sync_service-HasOrphan_example =
    sync_service-HasOrphan lists lists-IsAnswering (web_store "lone") (codes "web-1-abc")
      (codes "default")

orphan_found :
    (lists.get_pod (codes "default") (codes "web-1-abc") (web_store "lone")).0
    ≡ ok (owned_pod "lone")
unfolding beq
orphan_found = refl

lone-HasOrphan : HasOrphan lists (codes "default") (web_store "lone") (owned_by "lone" ∷ [])
unfolding beq
lone-HasOrphan = at_first refl refl

-- The pod of a replica set without owners is one that makes the handler panic.
lone_panics :
    (sync_service lists (codes "web-1-abc") (codes "default") (web_store "lone")).0 ≡ panics
lone_panics = sync_service-HasOrphan_example.1 (owned_pod "lone", orphan_found, lone-HasOrphan)

abbrev bare_subnet : Bytes → MacvlanSubnet
bare_subnet text = record small_subnet {
  spec = record (small_subnet.spec) { cidr = text; gateway = [] };
}

completed-gateway_example :
    parse_ip (completed (bare_subnet (cidr_text 167772165 24))).spec.gateway
    ≡ mapped (first 24 167772165 + 1)
completed-gateway_example =
    completed-gateway (bare_subnet (cidr_text 167772165 24)) 167772165 24 (omega arith)
      (omega arith) refl refl

completed-completed_example :
    (is_empty (completed (bare_subnet (codes "none"))).spec.gateway ≡ false)
    × ((bare_subnet (codes "none")).spec.gateway ≡ []
        ⊎ (completed (bare_subnet (codes "none"))).spec.gateway
          ≡ (bare_subnet (codes "none")).spec.gateway)
    × (completed (completed (bare_subnet (codes "none"))) ≡ completed (bare_subnet (codes "none")))
completed-completed_example = completed-completed (bare_subnet (codes "none"))

-- The gateway that a network without a mask gets.
no_gateway : (completed (bare_subnet (codes "none"))).spec.gateway ≡ codes "<nil>"
unfolding completed gateway_of calc_default_gateway parse_cidr cut_slash ip_string
no_gateway = refl

completed-labels_example : get (made (completed small_subnet).meta.labels) (codes "vlan") ≡ (
    if beq (codes "mode") (codes "vlan")
    then some small_subnet.spec.mode
    else if beq (codes "vlan") (codes "vlan")
    then some (sprint small_subnet.spec.vlan)
    else if beq (codes "master") (codes "vlan")
    then some small_subnet.spec.master
    else get (made small_subnet.meta.labels) (codes "vlan"))
completed-labels_example = completed-labels small_subnet (codes "vlan")
