-- ===== src/Cluster.antt =====
-- What the program is handed: the API server behind its clients, the informers' caches, the event
-- recorder, the work queue and the helpers of client-go. None of it is code of the repository, so
-- it is a record of operations on a world of any type. A call returns a value or an error; a
-- pointer or list that Go returns beside an error is written out where the code reads it.
use network_controller.Common.{List, Option, Bool}
use network_controller.Go.Text.{Bytes}
use network_controller.Go.Int.{ℤ}
use network_controller.Go.Result.{Error}
use network_controller.Go.Exec.{Exec}
use network_controller.Types.{
  MacvlanIp, MacvlanSubnet, Pod, Service, Workload, Attachment, OwnerReference, IntOrString, Object,
  WorkItem,
}

pub record Cluster : Type 1 where
  pub World : Type 0
  -- `macvlanClientset.MacvlanV1()`; a namespace comes before a name or a selector
  pub get_subnet : Bytes → Bytes → Exec World MacvlanSubnet
  pub update_subnet : Bytes → MacvlanSubnet → Exec World MacvlanSubnet
  pub list_macvlan_ips : Bytes → Bytes → Exec World (List MacvlanIp)
  pub create_macvlan_ip : Bytes → MacvlanIp → Exec World MacvlanIp
  pub delete_macvlan_ip : Bytes → Bytes → Exec World (Unit {0})
  -- `kubeClientset`
  pub get_pod : Bytes → Bytes → Exec World Pod
  pub list_pods : Bytes → Bytes → Exec World (List Pod)
  pub update_pod : Bytes → Pod → Exec World Pod
  pub get_service : Bytes → Bytes → Exec World Service
  pub create_service : Bytes → Service → Exec World Service
  pub get_replica_set : Bytes → Bytes → Exec World (List OwnerReference)
  -- `kubeDynamicClientset`: group apps/v1 by resource, namespace and name; network attachments
  pub get_workload : Bytes → Bytes → Bytes → Exec World Workload
  pub create_attachment : Bytes → Attachment → Exec World (Unit {0})
  pub delete_attachment : Bytes → Bytes → Exec World (Unit {0})
  -- the listers over the informers' caches; a list stands beside its error
  pub lister_pod : Bytes → Bytes → Exec World Pod
  pub lister_macvlan_ips : Exec World (List MacvlanIp × Option Error)
  -- `recorder.Event`, with the pod, the reason and the message
  pub event : Pod → Bytes → Bytes → World → World
  -- `workqueue`; `none` is a queue that has shut down
  pub queue_get : Exec World (Option WorkItem)
  pub queue_add : WorkItem → World → World
  pub queue_add_rate_limited : WorkItem → World → World
  pub queue_forget : WorkItem → World → World
  pub queue_done : WorkItem → World → World
  pub queue_shut_down : World → World
  -- `cache.WaitForCacheSync`, `go wait.Until(c.runWorker, …)`, `<-stopCh`
  pub wait_for_cache_sync : List Bytes → Exec World Bool
  pub start_worker : World → World
  pub wait_for_stop : World → World
  -- `retry.RetryOnConflict` with the default backoff
  pub retry_on_conflict : Exec World (Unit {0}) → Exec World (Unit {0})
  -- `cache.MetaNamespaceKeyFunc`, `cache.SplitMetaNamespaceKey`
  pub meta_namespace_key : Object → Option Bytes
  pub split_meta_namespace_key : Bytes → Option (Bytes × Bytes)
  -- `IntOrString.IntValue` and `intstr.FromInt`
  pub int_value : IntOrString → ℤ
  pub from_int : ℤ → IntOrString
