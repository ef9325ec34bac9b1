-- ===== src/Fake.antt =====
-- pkg/generated/clientset/versioned/typed/macvlan/v1/fake: the clients for tests. Each
-- method hands an action to package testing of client-go, whose tracker of objects is a parameter.
pub mod Lists
pub mod Simple
use network_controller.Common.{List, [], ◌∷◌, Option, none, some, Bool, true, false, if◌then◌else◌}
use network_controller.Go.Text.{Bytes, codes}
use network_controller.Go.Result.{Error, panics}
use network_controller.Go.Exec.{Exec, pure, lift, catch, ◌>>=◌, ◌>>◌}
use network_controller.Go.Map.{Dict, made}
use network_controller.Types.{ObjectMeta, MacvlanIp, MacvlanSubnet}
use network_controller.Client.{ListOptions}
use network_controller.Informers.{GroupVersionResource}

-- `schema.GroupVersionKind`
pub record GroupVersionKind : Type 0 where
  pub group : Bytes
  pub version : Bytes
  pub kind : Bytes

-- What the functions `testing.New…Action` are given.
pub data Action (T : Type 0) : Type 0 where
  get_action : GroupVersionResource → Bytes → Bytes → Action T
  list_action : GroupVersionResource → GroupVersionKind → Bytes → ListOptions → Action T
  watch_action : GroupVersionResource → Bytes → ListOptions → Action T
  create_action : GroupVersionResource → Bytes → T → Action T
  update_action : GroupVersionResource → Bytes → T → Action T
  delete_action : GroupVersionResource → Bytes → Bytes → Action T
  delete_collection_action : GroupVersionResource → Bytes → ListOptions → Action T
  patch_action : GroupVersionResource → Bytes → Bytes → Bytes → Bytes → List Bytes → Action T

-- A list of objects, with its metadata `M`.
pub record ObjectList (T M : Type 0) : Type 0 where
  pub list_meta : M
  pub items : List T

-- A `runtime.Object`: nil, an object of the client's type, a list of them, or another one.
pub data Returned (T M : Type 0) : Type 0 where
  nothing : Returned T M
  an_object : T → Returned T M
  a_list : ObjectList T M → Returned T M
  a_stranger : Returned T M

-- The object that `Invokes` falls back on: a new object or a new list.
pub data Fallback : Type 0 where
  new_object new_list : Fallback

-- `testing.Fake`, which returns an object beside an error, and the selectors `L` of package labels.
pub record Fake (W T M L V : Type 0) : Type 0 where
  pub invokes : Action T → Fallback → Exec W (Returned T M × Option Error)
  pub invokes_watch : Action T → Exec W (Option V × Option Error)
  pub extract_label : ListOptions → Option L
  pub everything : L
  pub matches : L → Dict Bytes → Bool

module _ {W T M L V : Type 0} (fake : Fake W T M L V) (meta_of : T → ObjectMeta)
    (resource : GroupVersionResource) (kind : GroupVersionKind) (ns : Bytes) where
  -- `if obj == nil { return nil, err }; return obj.(*macvlanv1.MacvlanIP), err`
  unfoldable pub as_object : Returned T M × Option Error → Exec W (Option T × Option Error)
  as_object (nothing, e) = pure (none, e)
  as_object (an_object a, e) = pure (some a, e)
  as_object (a_list l, e) = lift panics
  as_object (a_stranger, e) = lift panics

  unfoldable pub fake_get : Bytes → Exec W (Option T × Option Error)
  unfolding as_object
  fake_get name = fake.invokes (get_action resource ns name) new_object >>= as_object

  -- The loop of `List`.
  unfoldable pub matching : L → List T → List T
  matching label [] = []
  matching label (item ∷ rest) =
      let others = matching label rest in
      if fake.matches label (made (meta_of item).labels) then item ∷ others else others

  -- The label selector of the options, or the one that selects everything.
  unfoldable pub label_of : ListOptions → L
  label_of opts = elim (fake.extract_label opts) [ none ↦ fake.everything | some label ↦ label ]

  -- What `List` makes of the answer of `Invokes`.
  unfoldable pub as_list :
      ListOptions → Returned T M × Option Error → Exec W (Option (ObjectList T M) × Option Error)
  unfolding matching label_of
  as_list opts (nothing, e) = pure (none, e)
  as_list opts (an_object a, e) = lift panics
  as_list opts (a_list l, e) =
      pure (some (record l { items = matching (label_of opts) l.items }), e)
  as_list opts (a_stranger, e) = lift panics

  unfoldable pub fake_list : ListOptions → Exec W (Option (ObjectList T M) × Option Error)
  unfolding as_list
  fake_list opts = fake.invokes (list_action resource kind ns opts) new_list >>= as_list opts

  unfoldable pub fake_watch : ListOptions → Exec W (Option V × Option Error)
  fake_watch opts = fake.invokes_watch (watch_action resource ns opts)

  unfoldable pub fake_create : T → Exec W (Option T × Option Error)
  unfolding as_object
  fake_create obj = fake.invokes (create_action resource ns obj) new_object >>= as_object

  unfoldable pub fake_update : T → Exec W (Option T × Option Error)
  unfolding as_object
  fake_update obj = fake.invokes (update_action resource ns obj) new_object >>= as_object

  -- The options of a deletion are dropped.
  unfoldable pub fake_delete : Bytes → Exec W (Option Error)
  fake_delete name = fake.invokes (delete_action resource ns name) new_object >>= λ (obj, e). pure e

  unfoldable pub fake_delete_collection : ListOptions → Exec W (Option Error)
  fake_delete_collection list_options =
      fake.invokes (delete_collection_action resource ns list_options) new_list >>= λ (obj, e).
      pure e

  unfoldable pub fake_patch : Bytes → Bytes → Bytes → List Bytes → Exec W (Option T × Option Error)
  unfolding as_object
  fake_patch name patch_type bytes subresources =
      fake.invokes (patch_action resource ns name patch_type bytes subresources) new_object
      >>= as_object

-- The methods of `FakeMacvlanIPs` and of `FakeMacvlanSubnets`.
pub record FakeClient (W T M V : Type 0) : Type 0 where
  pub create : T → Exec W (Option T × Option Error)
  pub update : T → Exec W (Option T × Option Error)
  pub delete : Bytes → Exec W (Option Error)
  pub delete_collection : ListOptions → Exec W (Option Error)
  pub get : Bytes → Exec W (Option T × Option Error)
  pub list : ListOptions → Exec W (Option (ObjectList T M) × Option Error)
  pub watch : ListOptions → Exec W (Option V × Option Error)
  pub patch : Bytes → Bytes → Bytes → List Bytes → Exec W (Option T × Option Error)

unfoldable pub fake_resource : Bytes → GroupVersionResource
fake_resource name = record {
  group = codes "macvlan.cluster.cattle.io";
  version = codes "v1";
  resource = name;
}

unfoldable pub fake_kind : Bytes → GroupVersionKind
fake_kind name = record {
  group = codes "macvlan.cluster.cattle.io";
  version = codes "v1";
  kind = name;
}

module _ {W M L V : Type 0} where
  unfoldable pub fake_client :
      {T : Type 0}
      → Fake W T M L V
      → (T → ObjectMeta)
      → GroupVersionResource
      → GroupVersionKind
      → Bytes
      → FakeClient W T M V
  fake_client fake meta_of resource kind ns = record {
    create = fake_create fake meta_of resource kind ns;
    update = fake_update fake meta_of resource kind ns;
    delete = fake_delete fake meta_of resource kind ns;
    delete_collection = fake_delete_collection fake meta_of resource kind ns;
    get = fake_get fake meta_of resource kind ns;
    list = fake_list fake meta_of resource kind ns;
    watch = fake_watch fake meta_of resource kind ns;
    patch = fake_patch fake meta_of resource kind ns;
  }

  -- `FakeMacvlanV1.MacvlanIPs`
  unfoldable pub fake_macvlan_ips : Fake W MacvlanIp M L V → Bytes → FakeClient W MacvlanIp M V
  unfolding fake_client fake_resource fake_kind
  fake_macvlan_ips fake ns =
      fake_client fake MacvlanIp.meta (fake_resource (codes "macvlanips"))
        (fake_kind (codes "MacvlanIP")) ns

  -- `FakeMacvlanV1.MacvlanSubnets`; the methods of fake_macvlansubnet.go differ from those of
  -- fake_macvlanip.go in the resource, the kind and the type of the object alone.
  unfoldable pub fake_macvlan_subnets :
      Fake W MacvlanSubnet M L V → Bytes → FakeClient W MacvlanSubnet M V
  unfolding fake_client fake_resource fake_kind
  fake_macvlan_subnets fake ns =
      fake_client fake MacvlanSubnet.meta (fake_resource (codes "macvlansubnets"))
        (fake_kind (codes "MacvlanSubnet")) ns
