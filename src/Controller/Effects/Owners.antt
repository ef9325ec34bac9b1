-- ===== src/Controller/Effects/Owners.antt =====
-- controller/service.go: the workload that owns a pod.
use network_controller.Go.Text.Laws.{beq_iff}
use network_controller.Common.{
  ◌≡◌, refl, List, [], ◌∷◌, ◌++◌, ◌≢◌, Bool-cases, inl, inr, true, false, subst, sym,
}
use network_controller.Go.Text.{Bytes, codes, beq, to_lower}
use network_controller.Go.Result.{ok}
use network_controller.Types.{OwnerReference, Workload}
use network_controller.Cluster.{Cluster}
use network_controller.Controller.Service.{
  deployment_of, is_workload_kind, find_owner, get_app_name,
}

-- The kinds of workloads, with their resources.
pub data IsWorkload : Bytes → Bytes → Type 0 where
  daemon_set : IsWorkload (codes "DaemonSet") (codes "daemonsets")
  stateful_set : IsWorkload (codes "StatefulSet") (codes "statefulsets")
  deployment : IsWorkload (codes "Deployment") (codes "deployments")

pub IsWorkload-kind :
    (kind resource : Bytes)
    → IsWorkload kind resource
    → (is_workload_kind kind ≡ true) × (to_lower kind ++ codes "s" ≡ resource)
unfolding is_workload_kind beq to_lower
IsWorkload-kind kind resource daemon_set = (refl, refl)
IsWorkload-kind kind resource stateful_set = (refl, refl)
IsWorkload-kind kind resource deployment = (refl, refl)

named-IsWorkload :
    (kind name resource : Bytes)
    → IsWorkload name resource
    → beq kind name ≡ true
    → IsWorkload kind resource
named-IsWorkload kind name resource is_kind e =
    subst (λ k. IsWorkload k resource) (sym ((beq_iff kind name).0 e)) is_kind

pub no_workload :
    (kind : Bytes)
    → ((resource : Bytes) → ¬ IsWorkload kind resource)
    → is_workload_kind kind ≡ false
unfolding is_workload_kind
no_workload kind n = elim (Bool-cases (beq kind (codes "DaemonSet"))) [
  | inl e ↦ absurd (n _ (named-IsWorkload kind _ _ daemon_set e))
  | inr e ↦ elim (Bool-cases (beq kind (codes "StatefulSet"))) [
    | inl f ↦ absurd (n _ (named-IsWorkload kind _ _ stateful_set f))
    | inr f ↦ elim (Bool-cases (beq kind (codes "Deployment"))) [
      | inl g ↦ absurd (n _ (named-IsWorkload kind _ _ deployment g))
      | inr g ↦ rw (e, f, g) refl
    ]
  ]
]

pub no_replica_set :
    (kind : Bytes) → kind ≢ codes "ReplicaSet" → beq kind (codes "ReplicaSet") ≡ false
no_replica_set kind n = elim (Bool-cases (beq kind (codes "ReplicaSet"))) [
  | inl e ↦ absurd (n ((beq_iff kind (codes "ReplicaSet")).0 e))
  | inr e ↦ e
]

pub replica_set_kind :
    (is_workload_kind (codes "ReplicaSet") ≡ false)
    × (beq (codes "ReplicaSet") (codes "ReplicaSet") ≡ true)
unfolding is_workload_kind beq
replica_set_kind = (refl, refl)

deployment_named :
    (above : OwnerReference) (others : List OwnerReference)
    → above.kind ≡ codes "Deployment"
    → deployment_of (above ∷ others) ≡ ok above.name
unfolding deployment_of beq
deployment_named above others dep = rw dep refl

deployments_named : to_lower (codes "Deployment") ++ codes "s" ≡ codes "deployments"
unfolding to_lower
deployments_named = refl

module _ (c : Cluster) where
  open c use {World}

  -- The workload that the owners of a pod lead to, with the calls that find it: the first owner that
  -- is a workload, or a replica set whose own first owner is a deployment; owners of other kinds are
  -- passed over.
  pub data LeadsTo (ns : Bytes) : List OwnerReference → World → Workload → World → Type 0 where
    workload :
        {owner : OwnerReference} {owners : List OwnerReference} {w v : World} {app : Workload}
        (resource : Bytes)
        → IsWorkload owner.kind resource
        → c.get_workload resource ns owner.name w ≡ (ok app, v)
        → LeadsTo ns (owner ∷ owners) w app v
    replica_set :
        {owner : OwnerReference} {owners : List OwnerReference} {w u v : World} {app : Workload}
        (above : OwnerReference) (others : List OwnerReference)
        → owner.kind ≡ codes "ReplicaSet"
        → c.get_replica_set ns owner.name w ≡ (ok (above ∷ others), u)
        → above.kind ≡ codes "Deployment"
        → c.get_workload (codes "deployments") ns above.name u ≡ (ok app, v)
        → LeadsTo ns (owner ∷ owners) w app v
    passed_over :
        {owner : OwnerReference} {owners : List OwnerReference} {w v : World} {app : Workload}
        → ((resource : Bytes) → ¬ IsWorkload owner.kind resource)
        → owner.kind ≢ codes "ReplicaSet"
        → LeadsTo ns owners w app v
        → LeadsTo ns (owner ∷ owners) w app v

  pub find_owner-LeadsTo :
      (pod_name ns : Bytes) (owners : List OwnerReference) (w v : World) (app : Workload)
      → LeadsTo ns owners w app v
      → find_owner c pod_name ns owners w ≡ (ok app, v)
  unfolding find_owner get_app_name
  find_owner-LeadsTo pod_name ns [] w v app x = elim x [ ]
  find_owner-LeadsTo pod_name ns (owner ∷ owners) w v app (workload resource is_kind found) =
      let (test, plural) = IsWorkload-kind owner.kind resource is_kind in
      rw (test, get_app_name, plural) found
  find_owner-LeadsTo pod_name ns (owner ∷ owners) w v app
        (replica_set above others set owned dep found) =
      rw
        (
          set,
          replica_set_kind.0,
          replica_set_kind.1,
          owned,
          deployment_named above others dep,
          get_app_name,
          deployments_named,
        )
        found
  find_owner-LeadsTo pod_name ns (owner ∷ owners) w v app (passed_over no_kind no_set rest) =
      rw (no_workload owner.kind no_kind, no_replica_set owner.kind no_set)
        (find_owner-LeadsTo pod_name ns owners w v app rest)
