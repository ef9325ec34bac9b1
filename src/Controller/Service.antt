-- ===== src/Controller/Service.antt =====
-- controller/service.go: a second service, for the macvlan network, beside the service of the
-- workload that owns a pod.
use network_controller.Common.{
  Bool, ◌||◌, not, List, [], ◌∷◌, ◌++◌, none, some, if◌then◌else◌, is_empty,
}
use network_controller.Go.Text.{Bytes, codes, to_lower, beq}
use network_controller.Go.Int.{increment, max_int32, max_int64}
use network_controller.Go.Result.{Result, ok, err, panics, plain, is_not_found}
use network_controller.Go.Exec.{Exec, pure, raise, lift, catch, ◌>>=◌, ◌>>◌}
use network_controller.Types.{Pod, Service, ServicePort, OwnerReference, Workload}
use network_controller.Cluster.{Cluster}

abbrev pub net_attach_def_name : Bytes
net_attach_def_name = codes "static-macvlan-cni-attach"

-- The kind is one whose name the `switch` lists first.
unfoldable pub is_workload_kind : Bytes → Bool
is_workload_kind kind =
    beq kind (codes "DaemonSet")
    || (beq kind (codes "StatefulSet") || beq kind (codes "Deployment"))

-- The first owner of a replica set. Without one, the error message itself indexes the empty list
-- of owners and panics.
unfoldable pub deployment_of : List OwnerReference → Result Bytes
deployment_of [] = panics
deployment_of (owner ∷ owners) =
    if not (beq owner.kind (codes "Deployment"))
    then err (plain (codes "pod owner is invalid kind: " ++ owner.kind))
    else ok owner.name

module _ (c : Cluster) where
  open c use {
    World, get_pod, get_replica_set, get_workload, get_service, create_service, int_value, from_int,
  }

  unfoldable pub get_app_name : Bytes → Bytes → Bytes → Exec World Workload
  get_app_name kind namespace name = get_workload (to_lower kind ++ codes "s") namespace name

  -- The loop over the owners in `findOwnerWorkload`.
  unfoldable pub find_owner : Bytes → Bytes → List OwnerReference → Exec World Workload
  unfolding is_workload_kind deployment_of
  find_owner pod_name namespace [] = raise (plain (pod_name ++ codes " owner workload not found"))
  find_owner pod_name namespace (owner ∷ owners) =
      let rest = find_owner pod_name namespace owners in
      if is_workload_kind owner.kind
      then get_app_name owner.kind namespace owner.name
      else if beq owner.kind (codes "ReplicaSet")
      then (do
        rs_owners ← get_replica_set namespace owner.name
        name ← lift (deployment_of rs_owners)
        get_app_name (codes "Deployment") namespace name)
      else rest

  unfoldable pub find_owner_workload : Pod → Exec World Workload
  unfolding find_owner
  find_owner_workload pod = find_owner pod.meta.name pod.meta.namespace pod.meta.owner_references

  -- A port of the new service: port and target port are raised by one.
  unfoldable pub shift_port : ServicePort → ServicePort
  shift_port p = record p {
    port = increment max_int32 p.port;
    target_port = from_int (increment max_int64 (int_value p.target_port));
  }

  unfoldable pub shift_ports : List ServicePort → List ServicePort
  unfolding shift_port
  shift_ports [] = []
  shift_ports (v ∷ vs) = shift_port v ∷ shift_ports vs

  -- `makeService`; its first two parameters are not used.
  unfoldable pub make_service : Bytes → Bytes → Service → Service
  unfolding shift_ports
  make_service uid kind svc = record svc {
    meta = record {
      name = svc.meta.name ++ codes "-macvlan";
      namespace = svc.meta.namespace;
      uid = [];
      labels = none;
      annotations = some ((codes "k8s.v1.cni.cncf.io/networks", net_attach_def_name) ∷ []);
      owner_references = svc.meta.owner_references;
    };
    ports = shift_ports svc.ports;
  }

  unfoldable pub create_service_if_not_exist : Service → Exec World (Unit {0})
  create_service_if_not_exist svc =
      catch (do get_service svc.meta.namespace svc.meta.name; pure tt)
        (λ e.
          if is_not_found e then (do create_service svc.meta.namespace svc; pure tt) else raise e)

  unfoldable pub sync_service : Bytes → Bytes → Exec World (Unit {0})
  sync_service name namespace = do
    pod ← get_pod namespace name
    if is_empty pod.meta.owner_references then pure tt else do
      owner ← find_owner_workload pod
      svc ← get_service pod.meta.namespace owner.name
      create_service_if_not_exist (make_service owner.uid owner.kind svc)
