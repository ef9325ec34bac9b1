-- ===== src/Controller/Effects/Panics.antt =====
-- controller/service.go: the pods for which `SyncService` panics.
use network_controller.Common.{
  ◌≡◌, refl, is_empty, false, List, [], ◌∷◌, ◌↔◌, if◌then◌else◌, Bool-cases, inl, inr, ◌≢◌, ap, ◌∙◌,
}
use network_controller.Go.Text.{Bytes, codes, beq}
use network_controller.Go.Text.Laws.{beq_iff}
use network_controller.Go.Result.{Result, ok, err, panics, hangs, is_not_found}
use network_controller.Go.Exec.Calm.{
  Calm, continue-panics, >>=-panics_first, >>=-panics_rest, >>=-Calm, catch-Calm,
}
use network_controller.Go.Exec.{pure, lift, ◌>>=◌}
use network_controller.Go.Exec.Laws.{>>=-first_ok}
use network_controller.Types.{Pod, OwnerReference, Workload, Service}
use network_controller.Cluster.{Cluster}
use network_controller.Controller.Service.{
  deployment_of, is_workload_kind, find_owner, find_owner_workload, get_app_name, make_service,
  create_service_if_not_exist, sync_service,
}
use network_controller.Controller.Effects.Purging.{Answers}
use network_controller.Controller.Effects.Owners.{
  IsWorkload, IsWorkload-kind, no_workload, no_replica_set, replica_set_kind,
}

Answers-calm : {A : Type 0} (r : Result A) → Answers r → r ≢ panics
Answers-calm (ok a) h e = absurd (cc)
Answers-calm (err x) h e = absurd (cc)
Answers-calm panics h e = h
Answers-calm hangs h e = h

deployment_of-panics : (owners : List OwnerReference) → deployment_of owners ≡ panics → owners ≡ []
unfolding deployment_of
deployment_of-panics [] h = refl
deployment_of-panics (owner ∷ owners) h = elim (Bool-cases (beq owner.kind (codes "Deployment"))) [
  | inl e ↦ absurd (cc (rw e at h))
  | inr e ↦ absurd (cc (rw e at h))
]

kind-IsWorkload :
    (kind : Bytes) → is_workload_kind kind ≡ false → (resource : Bytes) → ¬ IsWorkload kind resource
kind-IsWorkload kind unlisted resource is = cc (unlisted, (IsWorkload-kind kind resource is).0)

module _ (c : Cluster) where
  open c use {World}

  -- The API server answers each call of `SyncService` by a value or an error.
  pub record IsAnswering : Type 0 where
    pub pod : (ns name : Bytes) (w : World) → Answers (c.get_pod ns name w).0
    pub replica_set : (ns name : Bytes) (w : World) → Answers (c.get_replica_set ns name w).0
    pub workload :
        (resource ns name : Bytes) (w : World) → Answers (c.get_workload resource ns name w).0
    pub service : (ns name : Bytes) (w : World) → Answers (c.get_service ns name w).0
    pub creation : (ns : Bytes) (s : Service) (w : World) → Answers (c.create_service ns s w).0

  -- Among the owners, the first one that is a workload or a replica set is a replica set, and the
  -- API server knows it without owners of its own.
  pub data HasOrphan (ns : Bytes) (w : World) : List OwnerReference → Type 0 where
    at_first :
        {owner : OwnerReference} {owners : List OwnerReference}
        → owner.kind ≡ codes "ReplicaSet"
        → (c.get_replica_set ns owner.name w).0 ≡ ok []
        → HasOrphan ns w (owner ∷ owners)
    passed_over :
        {owner : OwnerReference} {owners : List OwnerReference}
        → ((resource : Bytes) → ¬ IsWorkload owner.kind resource)
        → owner.kind ≢ codes "ReplicaSet"
        → HasOrphan ns w owners
        → HasOrphan ns w (owner ∷ owners)

  module _ (answers : IsAnswering) where
    get_app_name-Calm : (kind ns name : Bytes) → Calm (get_app_name c kind ns name)
    unfolding get_app_name
    get_app_name-Calm kind ns name w = Answers-calm _ (answers.workload _ ns name w)

    replica_set-panics :
        (owner : OwnerReference) (ns : Bytes) (w : World)
        → ((c.get_replica_set ns owner.name >>= λ owners.
              lift (deployment_of owners) >>= λ name. get_app_name c (codes "Deployment") ns name)
            w).0
          ≡ panics
        → (c.get_replica_set ns owner.name w).0 ≡ ok []
    replica_set-panics owner ns w h =
        let (owners, found, rest) =
          >>=-panics_rest (c.get_replica_set ns owner.name) _ w
            (Answers-calm _ (answers.replica_set ns owner.name w)) h in
        let none =
          deployment_of-panics owners (
            continue-panics (deployment_of owners) _ _ (λ name. get_app_name-Calm _ ns name)
              rest) in
        found ∙ ap ok none

    find_owner-HasOrphan :
        (pod_name ns : Bytes) (owners : List OwnerReference) (w : World)
        → (find_owner c pod_name ns owners w).0 ≡ panics
        → HasOrphan ns w owners
    unfolding find_owner
    find_owner-HasOrphan pod_name ns [] w h = absurd (cc)
    find_owner-HasOrphan pod_name ns (owner ∷ owners) w h =
        elim (Bool-cases (is_workload_kind owner.kind)) [
          | inl e ↦ absurd (get_app_name-Calm owner.kind ns owner.name w (rw e at h))
          | inr e ↦ elim (Bool-cases (beq owner.kind (codes "ReplicaSet"))) [
            | inl k ↦
                at_first ((beq_iff owner.kind (codes "ReplicaSet")).0 k)
                  (replica_set-panics owner ns w (rw (e, k) at h))
            | inr k ↦
                passed_over (kind-IsWorkload owner.kind e)
                  (λ same. cc (k, (beq_iff owner.kind (codes "ReplicaSet")).1 same))
                  (find_owner-HasOrphan pod_name ns owners w (rw (e, k) at h))
          ]
        ]

  HasOrphan-panics :
      (pod_name ns : Bytes) (owners : List OwnerReference) (w : World)
      → HasOrphan ns w owners
      → (find_owner c pod_name ns owners w).0 ≡ panics
  unfolding find_owner deployment_of
  HasOrphan-panics pod_name ns [] w x = elim x [ ]
  HasOrphan-panics pod_name ns (owner ∷ owners) w (at_first set none) = rw (
    set,
    replica_set_kind.0,
    replica_set_kind.1,
    >>=-first_ok (c.get_replica_set ns owner.name) _ w [] none,
  )
  HasOrphan-panics pod_name ns (owner ∷ owners) w (passed_over no_kind no_set rest) =
      rw (no_workload owner.kind no_kind, no_replica_set owner.kind no_set)
        (HasOrphan-panics pod_name ns owners w rest)

  module _ (answers : IsAnswering) where
    service_part-Calm :
        (ns : Bytes) (owner : Workload)
        → Calm (
            c.get_service ns owner.name >>= λ svc.
            create_service_if_not_exist c (make_service c owner.uid owner.kind svc))
    unfolding create_service_if_not_exist
    service_part-Calm ns owner =
        >>=-Calm _ _ (λ w. Answers-calm _ (answers.service ns owner.name w))
          (λ svc.
            catch-Calm _ _
              (>>=-Calm _ _ (λ w. Answers-calm _ (answers.service _ _ w)) (λ a w e. absurd (cc)))
              (λ e. elim (Bool-cases (is_not_found e)) [
                | inl gone ↦ rw gone (
                    >>=-Calm _ _ (λ w. Answers-calm _ (answers.creation _ _ w))
                      (λ a w k. absurd (cc)))
                | inr other ↦ rw other (λ w k. absurd (cc))
              ]))

    owned_part-panics :
        (pod : Pod) (w : World)
        → ((if is_empty pod.meta.owner_references
              then pure tt
              else (find_owner_workload c pod >>= λ owner.
                  c.get_service pod.meta.namespace owner.name >>= λ svc.
                  create_service_if_not_exist c (make_service c owner.uid owner.kind svc)))
            w).0
          ≡ panics
        → HasOrphan pod.meta.namespace w pod.meta.owner_references
    unfolding find_owner_workload
    owned_part-panics pod w h = elim (Bool-cases (is_empty pod.meta.owner_references)) [
      | inl e ↦ absurd (cc (rw e at h))
      | inr e ↦
          find_owner-HasOrphan answers pod.meta.name pod.meta.namespace pod.meta.owner_references w
            (>>=-panics_first
              (find_owner c pod.meta.name pod.meta.namespace pod.meta.owner_references) _ w
              (service_part-Calm pod.meta.namespace) (rw e at h))
    ]

  HasOrphan-owned :
      (ns : Bytes) (w : World) (owners : List OwnerReference)
      → HasOrphan ns w owners
      → is_empty owners ≡ false
  HasOrphan-owned ns w [] x = elim x [ ]
  HasOrphan-owned ns w (owner ∷ owners) x = refl

  -- While the API server answers each call by a value or an error, `SyncService` panics exactly for
  -- the pods that are there and among whose owners the first one that is a workload or a replica set
  -- is a replica set without owners.
  pub sync_service-HasOrphan :
      IsAnswering
      → (w : World) (name ns : Bytes)
      → ((sync_service c name ns w).0 ≡ panics) ↔ (
          (pod : Pod) × ((c.get_pod ns name w).0 ≡ ok pod)
          × HasOrphan pod.meta.namespace (c.get_pod ns name w).1 pod.meta.owner_references)
  unfolding sync_service find_owner_workload
  sync_service-HasOrphan answers w name ns = (
    λ h.
        let (pod, found, rest) =
          >>=-panics_rest (c.get_pod ns name) _ w (Answers-calm _ (answers.pod ns name w)) h in
        (pod, found, owned_part-panics answers pod (c.get_pod ns name w).1 rest),
    λ (pod, found, orphan). rw (
      >>=-first_ok (c.get_pod ns name) _ w pod found,
      HasOrphan-owned pod.meta.namespace (c.get_pod ns name w).1 pod.meta.owner_references orphan,
      HasOrphan-panics pod.meta.name pod.meta.namespace pod.meta.owner_references
          (c.get_pod ns name w).1 orphan,
    ),
  )
