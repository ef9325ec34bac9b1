-- ===== src/Client.antt =====
-- pkg/generated/clientset/versioned/typed/macvlan/v1: the clients of macvlanips and of subnets.
-- Each method builds one request and sends it; what sends it is package rest of client-go, a
-- parameter here. The result that Go allocates beside an error is left out.
pub mod Scope
use network_controller.Common.{
  ℕ, ◌*◌, ◌%◌, ◌^◌, ◌≡◌, refl, Bool, true, false, List, [], ◌∷◌, Option, none, some,
}
use network_controller.Go.Text.{Bytes, codes}
use network_controller.Go.Exec.{Exec}
use network_controller.Types.{ObjectMeta, MacvlanIp, MacvlanSubnet}

pub data Verb : Type 0 where
  get post put delete : Verb
  patch : Bytes → Verb

-- `metav1.ListOptions`: the fields that are read or written, and the others; the seconds are the
-- bits of an int64.
pub record ListOptions : Type 0 where
  pub label_selector : Bytes
  pub timeout_seconds : Option ℕ
  pub watch : Bool
  pub others : Bytes

-- What the chain of calls on a `rest.Request` has set: options of a GET or of a list, and a body
-- that is an object, options of a deletion, or the bytes of a patch.
pub data Params (G : Type 0) : Type 0 where
  no_params : Params G
  get_params : G → Params G
  list_params : ListOptions → Params G

pub data Body (T D : Type 0) : Type 0 where
  no_body : Body T D
  object : T → Body T D
  delete_options : D → Body T D
  patch_data : Bytes → Body T D

pub record Request (T G D : Type 0) : Type 0 where
  pub verb : Verb
  pub namespace : Bytes
  pub resource : Bytes
  pub name : Option Bytes
  pub subresources : List Bytes
  pub params : Params G
  pub timeout : Option ℕ
  pub body : Body T D

-- The ways to send a request: `Do().Into(result)` for an object and for a list, `Do().Error()`, and
-- `Watch()`.
pub record Rest (W T G D : Type 0) : Type 1 where
  pub Watcher : Type 0
  pub into_object : Request T G D → Exec W T
  pub into_list : Request T G D → Exec W (List T)
  pub send : Request T G D → Exec W (Unit {0})
  pub start_watch : Request T G D → Exec W Watcher

-- `time.Duration(*opts.TimeoutSeconds) * time.Second`, or 0 without a timeout: 64 bits of
-- nanoseconds.
unfoldable pub timeout_of : ListOptions → ℕ
timeout_of opts = elim opts.timeout_seconds [
  | none ↦ 0
  | some seconds ↦ seconds * 1000000000 % 2 ^ 64
]

-- `MacvlanIPInterface` and `MacvlanSubnetInterface`
pub record TypedClient (W T G D V : Type 0) : Type 0 where
  pub create : T → Exec W T
  pub update : T → Exec W T
  pub delete : Bytes → D → Exec W (Unit {0})
  pub delete_collection : D → ListOptions → Exec W (Unit {0})
  pub get : Bytes → G → Exec W T
  pub list : ListOptions → Exec W (List T)
  pub watch : ListOptions → Exec W V
  pub patch : Bytes → Bytes → Bytes → List Bytes → Exec W T

-- A request without anything set but its verb, namespace and resource.
abbrev pub plain_request : {T G D : Type 0} → Verb → Bytes → Bytes → Request T G D
plain_request verb ns resource = record {
  verb = verb;
  namespace = ns;
  resource = resource;
  name = none;
  subresources = [];
  params = no_params;
  timeout = none;
  body = no_body;
}

-- The request of each method.
module _ {T G D : Type 0} (resource ns : Bytes) where
  abbrev pub get_request : Bytes → G → Request T G D
  get_request name options = record (plain_request get ns resource) {
    name = some name;
    params = get_params options;
  }

  abbrev pub list_request : ListOptions → Request T G D
  list_request opts = record (plain_request get ns resource) {
    params = list_params opts;
    timeout = some (timeout_of opts);
  }

  abbrev pub create_request : T → Request T G D
  create_request obj = record (plain_request post ns resource) { body = object obj }

  abbrev pub update_request : Bytes → T → Request T G D
  update_request name obj = record (plain_request put ns resource) {
    name = some name;
    body = object obj;
  }

  abbrev pub delete_request : Bytes → D → Request T G D
  delete_request name options = record (plain_request delete ns resource) {
    name = some name;
    body = delete_options options;
  }

  abbrev pub collection_request : D → ListOptions → Request T G D
  collection_request options list_options = record (plain_request delete ns resource) {
    params = list_params list_options;
    timeout = some (timeout_of list_options);
    body = delete_options options;
  }

  abbrev pub patch_request : Bytes → Bytes → Bytes → List Bytes → Request T G D
  patch_request name patch_type bytes subresources =
      record (plain_request (patch patch_type) ns resource) {
        name = some name;
        subresources = subresources;
        body = patch_data bytes;
      }

module _ {W T G D : Type 0} (rest : Rest W T G D) (meta_of : T → ObjectMeta)
    (resource ns : Bytes) where
  unfoldable pub client_get : Bytes → G → Exec W T
  client_get name options = rest.into_object (get_request resource ns name options)

  unfoldable pub client_list : ListOptions → Exec W (List T)
  client_list opts = rest.into_list (list_request resource ns opts)

  unfoldable pub client_watch : ListOptions → Exec W rest.Watcher
  client_watch opts = rest.start_watch (list_request resource ns (record opts { watch = true }))

  unfoldable pub client_create : T → Exec W T
  client_create obj = rest.into_object (create_request resource ns obj)

  unfoldable pub client_update : T → Exec W T
  client_update obj = rest.into_object (update_request resource ns (meta_of obj).name obj)

  unfoldable pub client_delete : Bytes → D → Exec W (Unit {0})
  client_delete name options = rest.send (delete_request resource ns name options)

  unfoldable pub client_delete_collection : D → ListOptions → Exec W (Unit {0})
  client_delete_collection options list_options =
      rest.send (collection_request resource ns options list_options)

  unfoldable pub client_patch : Bytes → Bytes → Bytes → List Bytes → Exec W T
  client_patch name patch_type bytes subresources =
      rest.into_object (patch_request resource ns name patch_type bytes subresources)

  unfoldable pub typed_client : TypedClient W T G D rest.Watcher
  typed_client = record {
    create = client_create;
    update = client_update;
    delete = client_delete;
    delete_collection = client_delete_collection;
    get = client_get;
    list = client_list;
    watch = client_watch;
    patch = client_patch;
  }

module _ {W G D : Type 0} where
  -- `newMacvlanIPs`
  unfoldable pub macvlan_ips :
      (rest : Rest W MacvlanIp G D) → Bytes → TypedClient W MacvlanIp G D rest.Watcher
  macvlan_ips rest ns = typed_client rest MacvlanIp.meta (codes "macvlanips") ns

  -- `newMacvlanSubnets`; the methods of macvlansubnet.go differ from those of macvlanip.go in the
  -- resource and in the type of the object alone.
  unfoldable pub macvlan_subnets :
      (rest : Rest W MacvlanSubnet G D) → Bytes → TypedClient W MacvlanSubnet G D rest.Watcher
  macvlan_subnets rest ns = typed_client rest MacvlanSubnet.meta (codes "macvlansubnets") ns
