-- ===== src/Scheme.antt =====
-- types/apis/macvlan/v1/register.go, pkg/generated/clientset/versioned/scheme/register.go and
-- fake/register.go: the names of the group and the registration of its types. The scheme is of
-- apimachinery; a type stands here for its Go name.
use network_controller.Common.{List, [], ◌∷◌}
use network_controller.Go.Text.{Bytes, codes}
use network_controller.Go.Result.{panics}
use network_controller.Go.Exec.{Exec, lift, catch, perform, ◌>>◌}

-- `schema.GroupVersion`, and a name in a group.
pub record GroupVersion : Type 0 where
  pub group : Bytes
  pub version : Bytes

pub record GroupName : Type 0 where
  pub group : Bytes
  pub name : Bytes

abbrev pub group_name : Bytes
group_name = codes "macvlan.cluster.cattle.io"

-- `SchemeGroupVersion`
unfoldable pub scheme_group_version : GroupVersion
scheme_group_version = record { group = group_name; version = codes "v1" }

-- `Kind`, and `Resource`: what `WithKind(kind).GroupKind()` and `WithResource(resource).GroupResource()` leave.
unfoldable pub kind_of : Bytes → GroupName
unfolding scheme_group_version
kind_of kind = record { group = scheme_group_version.group; name = kind }

unfoldable pub resource_of : Bytes → GroupName
unfolding scheme_group_version
resource_of resource = record { group = scheme_group_version.group; name = resource }

-- A `runtime.Scheme` that lives in the world: `AddKnownTypes`, `metav1.AddToGroupVersion`, and
-- `AddToScheme` of a `runtime.SchemeBuilder` with the given functions.
pub record TypeRegistry (W : Type 0) : Type 0 where
  pub register_types : GroupVersion → List Bytes → W → W
  pub add_to_group_version : GroupVersion → W → W
  pub run_builder : List (Exec W (Unit {0})) → Exec W (Unit {0})

module _ {W : Type 0} (registry : TypeRegistry W) where
  unfoldable pub add_known_types : Exec W (Unit {0})
  unfolding scheme_group_version
  add_known_types = do
    perform (
        registry.register_types scheme_group_version (
          codes "MacvlanIP"
          ∷ codes "MacvlanIPList"
          ∷ codes "MacvlanSubnet"
          ∷ codes "MacvlanSubnetList"
          ∷ []))
    perform (registry.add_to_group_version scheme_group_version)

  -- `AddToScheme` of register.go, which both generated packages hand to a builder of their own.
  unfoldable pub add_to_scheme : Exec W (Unit {0})
  unfolding add_known_types
  add_to_scheme = registry.run_builder (add_known_types ∷ [])

  -- `AddToScheme` of both generated packages.
  unfoldable pub add_group_to_scheme : Exec W (Unit {0})
  unfolding add_to_scheme
  add_group_to_scheme = registry.run_builder (add_to_scheme ∷ [])

  -- `utilruntime.Must(AddToScheme(…))` panics on an error.
  unfoldable pub must_add_to_scheme : Exec W (Unit {0})
  unfolding add_group_to_scheme
  must_add_to_scheme = catch add_group_to_scheme (λ e. lift panics)

  -- `init` of both packages
  unfoldable pub init_scheme : Exec W (Unit {0})
  unfolding must_add_to_scheme
  init_scheme = do
    perform (registry.add_to_group_version (record { group = []; version = codes "v1" }))
    must_add_to_scheme
