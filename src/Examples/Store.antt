-- ===== src/Examples/Store.antt =====
-- A cluster kept in lists, which stands in for the API server in the examples.
use network_controller.Common.{true, List, [], ◌∷◌, ◌++◌, Option, none, some, if◌then◌else◌}
use network_controller.Go.Text.{Bytes, codes, beq}
use network_controller.Go.Int.{ℤ, pos}
use network_controller.Go.Result.{Result, ok, err, Error, status, Reason}
use network_controller.Types.{
  MacvlanIp, MacvlanSubnet, Pod, ObjectMeta, Service, OwnerReference, IntOrString, WorkItem,
  int_val, str_val,
}
use network_controller.Cluster.{Cluster}

pub record Store : Type 0 where
  pub subnets : List MacvlanSubnet
  pub ips : List MacvlanIp
  pub pods : List Pod
  pub services : List Service
  pub queue : List WorkItem
  pub log : List Bytes

abbrev pub missing : Error
missing = status Reason.not_found (codes "not found")

-- An object by its name; `meta_of` reads its metadata.
abbrev pub find {ℓ} : {A : Type ℓ} → (A → ObjectMeta) → List A → Bytes → Result A
find meta_of [] name = err missing
find meta_of (x ∷ xs) name = if beq (meta_of x).name name then ok x else find meta_of xs name

abbrev pub remove {ℓ} : {A : Type ℓ} → (A → ObjectMeta) → List A → Bytes → List A
remove meta_of [] name = []
remove meta_of (x ∷ xs) name =
    if beq (meta_of x).name name then remove meta_of xs name else x ∷ remove meta_of xs name

abbrev pub pop : Store → Result (Option WorkItem) × Store
pop s = elim s.queue [
  | [] ↦ (ok none, s)
  | item ∷ rest ↦ (ok (some item), record s { queue = rest })
]

abbrev pub int_of : IntOrString → ℤ
int_of (int_val n) = n
int_of (str_val t) = pos 0

-- The owners of the replica set `web-1`; every other replica set has none.
abbrev pub replica_set_owners : Bytes → List OwnerReference
replica_set_owners name =
    if beq name (codes "web-1")
    then record {
      api_version = codes "apps/v1";
      kind = codes "Deployment";
      uid = codes "uid-web";
      name = codes "web";
      controller = some true;
    }
      ∷ []
    else []

abbrev pub lists : Cluster
lists = record {
  World = Store;
  get_subnet = λ ns name s. (find MacvlanSubnet.meta s.subnets name, s);
  update_subnet = λ ns subnet s. (ok subnet, record s { subnets = subnet ∷ s.subnets });
  list_macvlan_ips = λ ns selector s. (ok s.ips, s);
  create_macvlan_ip = λ ns item s. (ok item, record s { ips = s.ips ++ item ∷ [] });
  delete_macvlan_ip = λ ns name s. (ok tt, record s { ips = remove MacvlanIp.meta s.ips name });
  get_pod = λ ns name s. (find Pod.meta s.pods name, s);
  list_pods = λ ns selector s. (ok s.pods, s);
  update_pod = λ ns pod s. (ok pod, record s { pods = pod ∷ s.pods });
  get_service = λ ns name s. (find Service.meta s.services name, s);
  create_service = λ ns svc s. (ok svc, record s { services = svc ∷ s.services });
  get_replica_set = λ ns name s. (ok (replica_set_owners name), s);
  get_workload = λ resource ns name s.
      (ok (record { name = name; kind = codes "Deployment"; uid = codes "uid-web" }), s);
  create_attachment = λ ns attachment s. (ok tt, s);
  delete_attachment = λ ns name s. (ok tt, s);
  lister_pod = λ ns name s. (find Pod.meta s.pods name, s);
  lister_macvlan_ips = λ s. (ok (s.ips, none), s);
  event = λ pod reason message s. record s { log = message ∷ s.log };
  queue_get = pop;
  queue_add = λ item s. record s { queue = s.queue ++ item ∷ [] };
  queue_add_rate_limited = λ item s. record s { queue = s.queue ++ item ∷ [] };
  queue_forget = λ item s. s;
  queue_done = λ item s. s;
  queue_shut_down = λ s. record s { queue = [] };
  wait_for_cache_sync = λ names s. (ok true, s);
  start_worker = λ s. s;
  wait_for_stop = λ s. s;
  retry_on_conflict = λ f. f;
  meta_namespace_key = λ obj. none;
  split_meta_namespace_key = λ k. some (codes "default", k);
  int_value = int_of;
  from_int = int_val;
}
