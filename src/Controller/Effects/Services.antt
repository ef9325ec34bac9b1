-- ===== src/Controller/Effects/Services.antt =====
-- controller/service.go: the second service, and when it is created.
use network_controller.Go.Int.{increment, max_int32, max_int64}
use network_controller.Common.{◌≡◌, refl, List, [], ◌∷◌, ◌++◌, if◌then◌else◌, none, some}
use network_controller.Go.Text.{Bytes, codes}
use network_controller.Go.Result.{
  Result, ok, err, panics, hangs, plain, status, Reason, is_not_found,
}
use network_controller.Go.Exec.{pure, raise, catch, ◌>>=◌}
use network_controller.Types.{Pod, OwnerReference, Service, Workload, ServicePort}
use network_controller.Cluster.{Cluster}
use network_controller.Controller.Service.{
  find_owner_workload, make_service, create_service_if_not_exist, sync_service, shift_ports,
  shift_port,
}
use network_controller.Controller.Effects.Owners.{LeadsTo, find_owner-LeadsTo}

module _ (c : Cluster) where
  open c use {World}

  -- How the second service fares, by the API server's answer to the question for it.
  unfoldable pub ensured : Service → Result Service → World → Result (Unit {0}) × World
  ensured svc (ok found) w = (ok tt, w)
  ensured svc (err (status Reason.not_found m)) w =
      (c.create_service svc.meta.namespace svc >>= λ _. pure tt) w
  ensured svc (err e) w = (err e, w)
  ensured svc panics w = (panics, w)
  ensured svc hangs w = (hangs, w)

  created-ensured :
      (svc : Service) (r : Result Service) (w : World)
      → catch
          ((λ u. (r, u)) >>= λ _. pure tt)
          (λ e.
            if is_not_found e
            then (c.create_service svc.meta.namespace svc >>= λ _. pure tt)
            else raise e)
          w
        ≡ ensured svc r w
  unfolding ensured
  created-ensured svc (ok found) w = refl
  created-ensured svc (err (status Reason.not_found m)) w = refl
  created-ensured svc (err (status Reason.already_exists m)) w = refl
  created-ensured svc (err (status Reason.conflict m)) w = refl
  created-ensured svc (err (status Reason.other_reason m)) w = refl
  created-ensured svc (err (plain m)) w = refl
  created-ensured svc panics w = refl
  created-ensured svc hangs w = refl

  -- A port of the copy: the name, the protocol and the node port as they were, and the port and the
  -- target port raised by one, as int32 and int do it.
  pub record IsRaised (before after : ServicePort) : Type 0 where
    pub name : after.name ≡ before.name
    pub protocol : after.protocol ≡ before.protocol
    pub node_port : after.node_port ≡ before.node_port
    pub port : after.port ≡ increment max_int32 before.port
    pub target_port :
        after.target_port ≡ c.from_int (increment max_int64 (c.int_value before.target_port))

  pub data AreRaised : List ServicePort → List ServicePort → Type 0 where
    no_ports : AreRaised [] []
    one_raised :
        {p q : ServicePort} {ps qs : List ServicePort}
        → IsRaised p q
        → AreRaised ps qs
        → AreRaised (p ∷ ps) (q ∷ qs)

  -- The service beside another one: its name with `-macvlan` behind, its namespace and owners, the
  -- annotation that attaches the macvlan network, its ports raised, and the rest of its specification.
  pub record IsCopy (svc copy : Service) : Type 0 where
    pub name : copy.meta.name ≡ svc.meta.name ++ codes "-macvlan"
    pub namespace : copy.meta.namespace ≡ svc.meta.namespace
    pub owners : copy.meta.owner_references ≡ svc.meta.owner_references
    pub labels : copy.meta.labels ≡ none
    pub annotations :
        copy.meta.annotations
        ≡ some ((codes "k8s.v1.cni.cncf.io/networks", codes "static-macvlan-cni-attach") ∷ [])
    pub ports : AreRaised svc.ports copy.ports
    pub others : copy.rest ≡ svc.rest

  shift_ports-AreRaised : (ps : List ServicePort) → AreRaised ps (shift_ports c ps)
  unfolding shift_ports shift_port
  shift_ports-AreRaised [] = no_ports
  shift_ports-AreRaised (p ∷ ps) =
      one_raised
        (record { name = refl; protocol = refl; node_port = refl; port = refl; target_port = refl })
        (shift_ports-AreRaised ps)

  make_service-IsCopy :
      (uid kind : Bytes) (svc : Service) → IsCopy svc (make_service c uid kind svc)
  unfolding make_service
  make_service-IsCopy uid kind svc = record {
    name = refl;
    namespace = refl;
    owners = refl;
    labels = refl;
    annotations = refl;
    ports = shift_ports-AreRaised svc.ports;
    others = refl;
  }

  -- A pod whose owners lead to a workload which has a service of its name: `SyncService` asks for the
  -- service with `-macvlan` behind the name, creates a copy of the first one where the API server has
  -- none, creates nothing where there is one already, and returns any other error. The copy has the
  -- owners of the service, the annotation that attaches the macvlan network, each port and target port
  -- raised by one, and the rest of the specification as it was.
  pub sync_service-IsCopy :
      (w w1 w2 w3 w4 : World) (name ns : Bytes) (pod : Pod) (owner : OwnerReference)
      (owners : List OwnerReference) (app : Workload) (svc : Service) (answer : Result Service)
      → c.get_pod ns name w ≡ (ok pod, w1)
      → pod.meta.owner_references ≡ owner ∷ owners
      → LeadsTo c pod.meta.namespace (owner ∷ owners) w1 app w2
      → c.get_service pod.meta.namespace app.name w2 ≡ (ok svc, w3)
      → c.get_service svc.meta.namespace (svc.meta.name ++ codes "-macvlan") w3 ≡ (answer, w4)
      → (copy : Service) × IsCopy svc copy × (sync_service c name ns w ≡ ensured copy answer w4)
  unfolding sync_service find_owner_workload make_service create_service_if_not_exist
  sync_service-IsCopy w w1 w2 w3 w4 name ns pod owner owners app svc answer found owned leads has
        asks =
      (
        make_service c app.uid app.kind svc,
        make_service-IsCopy app.uid app.kind svc,
        rw
            (
              found,
              owned,
              find_owner-LeadsTo c pod.meta.name pod.meta.namespace (owner ∷ owners) w1 w2 app
                  leads,
              has,
              asks,
            )
            (created-ensured (make_service c app.uid app.kind svc) answer w4),
      )
