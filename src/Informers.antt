-- ===== src/Informers.antt =====
-- pkg/generated/informers/externalversions: the factory of shared informers and the access to the two
-- informers of the group. A type is named by a text, as `reflect.Type` names it; an informer is of
-- client-go, and what makes one is a parameter. The factory's lock makes each method one step.
pub mod Typed
pub mod Access
pub mod Started
pub mod Shared
pub mod Runs
use network_controller.Common.{
  ◌≡◌, refl, Bool, true, false, not, ◌&&◌, List, [], ◌∷◌, ◌++◌, Option, none, some, if◌then◌else◌,
}
use network_controller.Go.Text.{Bytes, codes, beq}
use network_controller.Go.Int.{ℤ}
use network_controller.Go.Result.{Result, ok, err, plain}
use network_controller.Go.Exec.{Exec, pure, ◌>>=◌}
use network_controller.Go.Map.{Dict, get, put, value_or}

-- `sharedInformerFactory`, over the clients, the functions on list options and the informers.
pub record Factory (C T I : Type 0) : Type 0 where
  pub client : C
  pub namespace : Bytes
  pub tweak_list_options : Option T
  pub default_resync : ℤ
  pub custom_resync : Dict ℤ
  pub informers : Dict I
  pub started_informers : Dict Bool

-- `schema.GroupVersionResource`
pub record GroupVersionResource : Type 0 where
  pub group : Bytes
  pub version : Bytes
  pub resource : Bytes

-- `SharedInformerOption`
abbrev pub FactoryOption : Type 0 → Type 0 → Type 0 → Type 0
FactoryOption C T I = Factory C T I → Factory C T I

unfoldable pub put_all : Dict ℤ → List (Bytes × ℤ) → Dict ℤ
put_all m [] = m
put_all m ((k, v) ∷ rest) = put_all (put m k v) rest

-- `f.startedInformers[informerType]`
abbrev pub is_started : Dict Bool → Bytes → Bool
is_started started k = value_or false (get started k)

module _ {I : Type 0} where
  -- The loop of `Start`: the informers in the order in which the range visits them, with their
  -- types; what is started then, and the informers that `go informer.Run` was called on.
  unfoldable pub start_loop : Dict I → Dict Bool → Dict Bool × Dict I
  start_loop [] started = (started, [])
  start_loop ((k, informer) ∷ rest) started =
      let was = is_started started k in
      let (started', run) = start_loop rest (if was then started else put started k true) in
      (started', if was then run else (k, informer) ∷ run)

  -- The informers that `WaitForCacheSync` waits for.
  unfoldable pub started_only : Dict I → Dict Bool → Dict I
  started_only [] started = []
  started_only ((k, informer) ∷ rest) started =
      let others = started_only rest started in
      if is_started started k then (k, informer) ∷ others else others

  module _ {W : Type 0} (wait : I → Exec W Bool) where
    unfoldable pub wait_loop : Dict I → Exec W (Dict Bool)
    wait_loop [] = pure []
    wait_loop ((k, informer) ∷ rest) = do
      synced ← wait informer
      res ← wait_loop rest
      pure ((k, synced) ∷ res)

abbrev pub macvlan_ip_type : Bytes
macvlan_ip_type = codes "*v1.MacvlanIP"

abbrev pub macvlan_subnet_type : Bytes
macvlan_subnet_type = codes "*v1.MacvlanSubnet"

-- `resource == v1.SchemeGroupVersion.WithResource(name)`
unfoldable pub is_resource : GroupVersionResource → Bytes → Bool
is_resource r name =
    beq r.group (codes "macvlan.cluster.cattle.io")
    && (beq r.version (codes "v1") && beq r.resource name)

module _ {C T I : Type 0} where
  -- The types and periods, in the order in which the range over the given map visits them.
  unfoldable pub with_custom_resync_config : List (Bytes × ℤ) → FactoryOption C T I
  unfolding put_all
  with_custom_resync_config config factory = record factory {
    custom_resync = put_all factory.custom_resync config;
  }

  unfoldable pub with_tweak_list_options : Option T → FactoryOption C T I
  with_tweak_list_options tweak factory = record factory { tweak_list_options = tweak }

  unfoldable pub with_namespace : Bytes → FactoryOption C T I
  with_namespace namespace factory = record factory { namespace = namespace }

  unfoldable pub apply_options : List (FactoryOption C T I) → FactoryOption C T I
  apply_options [] factory = factory
  apply_options (opt ∷ options) factory = apply_options options (opt factory)

  unfoldable pub new_factory_with_options : C → ℤ → List (FactoryOption C T I) → Factory C T I
  unfolding apply_options
  new_factory_with_options client resync options = apply_options options (record {
    client = client;
    namespace = [];
    tweak_list_options = none;
    default_resync = resync;
    custom_resync = [];
    informers = [];
    started_informers = [];
  })

  unfoldable pub new_factory : C → ℤ → Factory C T I
  new_factory client resync = new_factory_with_options client resync []

  unfoldable pub new_filtered_factory : C → ℤ → Bytes → Option T → Factory C T I
  new_filtered_factory client resync namespace tweak =
      new_factory_with_options client resync
        (with_namespace namespace ∷ with_tweak_list_options tweak ∷ [])

  -- `visit` is the order of the range over the map.
  unfoldable pub start : (Dict I → Dict I) → Factory C T I → Factory C T I × Dict I
  start visit f =
      let (started, run) = start_loop (visit f.informers) f.started_informers in
      (record f { started_informers = started }, run)

  -- `wait` is `cache.WaitForCacheSync` with the stop channel.
  unfoldable pub wait_for_cache_sync :
      {W : Type 0} → (I → Exec W Bool) → (Dict I → Dict I) → Factory C T I → Exec W (Dict Bool)
  unfolding started_only wait_loop
  wait_for_cache_sync wait visit f =
      wait_loop wait (visit (started_only (visit f.informers) f.started_informers))

  -- `InformerFor`, with the type of the object and the function that makes an informer.
  unfoldable pub informer_for : Bytes → (C → ℤ → I) → Factory C T I → I × Factory C T I
  informer_for k new_func f = elim (get f.informers k) [
    | some informer ↦ (informer, f)
    | none ↦
        let informer = new_func f.client (value_or f.default_resync (get f.custom_resync k)) in
        (informer, record f { informers = put f.informers k informer })
  ]

  -- `make` is `default_informer` of Typed.antt: over the client, the namespace, the object's type,
  -- the resync period and the function on list options.
  module _ (make : C → Bytes → Bytes → ℤ → Option T → I) where
    -- `f.Macvlan().V1().MacvlanIPs().Informer()`, by the name of the type.
    unfoldable pub typed_informer : Bytes → Factory C T I → I × Factory C T I
    unfolding informer_for
    typed_informer k f =
        informer_for k (λ client resync. make client f.namespace k resync f.tweak_list_options) f

    -- The text of the resource in the error is a parameter, as package fmt prints it.
    unfoldable pub for_resource :
        (GroupVersionResource → Bytes)
        → GroupVersionResource
        → Factory C T I
        → Result I × Factory C T I
    unfolding is_resource typed_informer
    for_resource print r f =
        if is_resource r (codes "macvlanips")
        then (let (informer, f') = typed_informer macvlan_ip_type f in (ok informer, f'))
        else if is_resource r (codes "macvlansubnets")
        then (let (informer, f') = typed_informer macvlan_subnet_type f in (ok informer, f'))
        else (err (plain (codes "no informer found for " ++ print r)), f)
