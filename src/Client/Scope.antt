-- ===== src/Client/Scope.antt =====
-- A client of one namespace sends nothing but requests for its resource in that namespace.
use network_controller.Common.{◌≡◌, true, refl, List}
use network_controller.Go.Text.{Bytes}
use network_controller.Go.Exec.{Exec}
use network_controller.Types.{ObjectMeta}
use network_controller.Client.{
  Request, Rest, typed_client, client_get, client_list, client_watch, client_create, client_update,
  client_delete, client_delete_collection, client_patch, get_request, list_request, create_request,
  update_request, delete_request, collection_request, patch_request,
}

-- The two ways of sending agree on the requests for a resource in a namespace.
pub record Agree {W T G D V : Type 0} (resource ns : Bytes) (r s : Request T G D → Exec W V)
    : Type 0 where
  pub same : (q : Request T G D) → q.resource ≡ resource → q.namespace ≡ ns → r q ≡ s q

-- A server by its four ways of sending.
abbrev pub rest_of :
    {W T G D V : Type 0}
    → (Request T G D → Exec W T)
    → (Request T G D → Exec W (List T))
    → (Request T G D → Exec W (Unit {0}))
    → (Request T G D → Exec W V)
    → Rest W T G D
rest_of {V = V} into list send watch = record {
  Watcher = V;
  into_object = into;
  into_list = list;
  send = send;
  start_watch = watch;
}

module _ {W T G D V : Type 0} (meta_of : T → ObjectMeta) (resource ns : Bytes)
    (into1 into2 : Request T G D → Exec W T) (list1 list2 : Request T G D → Exec W (List T))
    (send1 send2 : Request T G D → Exec W (Unit {0})) (watch1 watch2 : Request T G D → Exec W V)
    (same_into : Agree resource ns into1 into2) (same_list : Agree resource ns list1 list2)
    (same_send : Agree resource ns send1 send2) (same_watch : Agree resource ns watch1 watch2) where
  -- Two servers that agree on the requests for a resource in a namespace give the same client for
  -- it: none of its eight methods depends on, or has an effect through, any other request.
  pub typed_client-scope :
      typed_client (rest_of into1 list1 send1 watch1) meta_of resource ns
      ≡ typed_client (rest_of into2 list2 send2 watch2) meta_of resource ns
  unfolding typed_client client_get client_list client_watch client_create client_update
      client_delete client_delete_collection client_patch
  typed_client-scope i = record {
    create = λ obj. same_into.same (create_request resource ns obj) refl refl i;
    update = λ obj. same_into.same (update_request resource ns (meta_of obj).name obj) refl refl i;
    delete = λ name o. same_send.same (delete_request resource ns name o) refl refl i;
    delete_collection = λ o l. same_send.same (collection_request resource ns o l) refl refl i;
    get = λ name o. same_into.same (get_request resource ns name o) refl refl i;
    list = λ l. same_list.same (list_request resource ns l) refl refl i;
    watch = λ l. same_watch.same (list_request resource ns (record l { watch = true })) refl refl i;
    patch = λ name t b s. same_into.same (patch_request resource ns name t b s) refl refl i;
  }
