-- ===== src/Examples/Informers.antt =====
-- Runs of the theorems about the factory of informers; an informer is the type that it watches, with
-- its period.
use network_controller.Common.{◌≡◌, refl, List, [], ◌∷◌, ◌++◌, Option, some, ◌⊎◌, true, false}
use network_controller.Go.Text.{Bytes, codes, beq}
use network_controller.Go.Int.{ℤ, pos}
use network_controller.Go.Result.{ok, err, plain}
use network_controller.Go.Map.{Dict, get, put, AllDistinct, keys}
use network_controller.Informers.{
  Factory, FactoryOption, GroupVersionResource, new_factory_with_options, with_custom_resync_config,
  with_namespace, informer_for, start, typed_informer, for_resource, is_resource, macvlan_ip_type,
  macvlan_subnet_type, apply_options, put_all, start_loop,
}
use network_controller.Informers.Started.{Visits}
use network_controller.Informers.Shared.{Later, for_resource-shared, informer_for-shared}
use network_controller.Informers.Runs.{IsOption, History, run_once, start-runs}

abbrev Informer : Type 0
Informer = Bytes × ℤ

abbrev Small : Type 0
Small = Factory (Unit {0}) (Unit {0}) Informer

in_order : Visits {I = Informer} (λ m. m)
in_order = record { is_map = λ m h. h; same = λ m k h. refl }

abbrev chosen : List (FactoryOption (Unit {0}) (Unit {0}) Informer)
chosen =
    with_namespace (codes "default")
    ∷ with_custom_resync_config ((macvlan_subnet_type, pos 600) ∷ [])
    ∷ []

abbrev empty : Small
empty = new_factory_with_options tt (pos 30) chosen

abbrev make_ip : Unit {0} → ℤ → Informer
make_ip client resync = (macvlan_ip_type, resync)

abbrev make_subnet : Unit {0} → ℤ → Informer
make_subnet client resync = (macvlan_subnet_type, resync)

-- An informer, a start, the other informer, and the first one again.
abbrev one : Small
one = (informer_for macvlan_ip_type make_ip empty).1

abbrev started_one : Small
started_one = (start (λ m. m) one).0

abbrev two : Small
two = (informer_for macvlan_subnet_type make_subnet started_one).1

abbrev three : Small
three = (informer_for macvlan_ip_type make_subnet two).1

abbrev first_run : Dict Informer
first_run = (start (λ m. m) one).1

three-History : History three first_run
three-History =
    History.asked
      (History.asked
        (History.started
          (History.asked
            (History.made tt (pos 30) chosen (
              IsOption.namespace (codes "default"),
              (IsOption.custom_resync ((macvlan_subnet_type, pos 600) ∷ []), tt),
            ))
            macvlan_ip_type make_ip)
          (λ m. m) in_order)
        macvlan_subnet_type make_subnet)
      macvlan_ip_type make_subnet

run_once_example :
    AllDistinct (keys first_run)
    × ((k : Bytes) (i : Informer) (new_func : Unit {0} → ℤ → Informer)
        → get first_run k ≡ some i
        → informer_for k new_func three ≡ (i, three))
run_once_example = run_once three-History

has_subnets : get three.informers macvlan_subnet_type ≡ some (macvlan_subnet_type, pos 600)
unfolding informer_for get put new_factory_with_options apply_options with_namespace
    with_custom_resync_config put_all start start_loop beq
has_subnets = refl

start-runs_example :
    get (first_run ++ (start (λ m. m) three).1) macvlan_subnet_type
    ≡ some (macvlan_subnet_type, pos 600)
start-runs_example =
    start-runs (λ m. m) macvlan_subnet_type (macvlan_subnet_type, pos 600) three-History in_order
      has_subnets

informer_for-shared_example :
    informer_for macvlan_ip_type make_subnet two
    ≡ ((informer_for macvlan_ip_type make_ip empty).0, two)
informer_for-shared_example =
    informer_for-shared empty two macvlan_ip_type make_ip make_subnet
      (Later.asked (Later.started Later.here (λ m. m)) macvlan_subnet_type make_subnet)

abbrev make_any : Unit {0} → Bytes → Bytes → ℤ → Option (Unit {0}) → Informer
make_any client namespace k resync tweak = (k, resync)

abbrev resource_named : Bytes → GroupVersionResource
resource_named name = record {
  group = codes "macvlan.cluster.cattle.io";
  version = codes "v1";
  resource = name;
}

abbrev subnets_of_one : Small
subnets_of_one =
    (for_resource make_any GroupVersionResource.resource (resource_named (codes "macvlansubnets"))
      one).1

for_resource-shared_example :
    ((is_resource (resource_named (codes "macvlansubnets")) (codes "macvlanips") ≡ true)
      × ((i : Informer) × ((for_resource make_any GroupVersionResource.resource
              (resource_named (codes "macvlansubnets"))
              one).0
            ≡ ok i)
          × (typed_informer make_any macvlan_ip_type subnets_of_one ≡ (i, subnets_of_one))))
    ⊎ (((is_resource (resource_named (codes "macvlansubnets")) (codes "macvlansubnets") ≡ true)
          × ((i : Informer) × ((for_resource make_any GroupVersionResource.resource
                  (resource_named (codes "macvlansubnets"))
                  one).0
                ≡ ok i)
              × (typed_informer make_any macvlan_subnet_type subnets_of_one ≡ (i, subnets_of_one))))
        ⊎ ((is_resource (resource_named (codes "macvlansubnets")) (codes "macvlanips") ≡ false)
            × (is_resource (resource_named (codes "macvlansubnets")) (codes "macvlansubnets")
                ≡ false)
            × (for_resource make_any GroupVersionResource.resource
                  (resource_named (codes "macvlansubnets"))
                  one
                ≡ (err (plain (codes "no informer found for " ++ codes "macvlansubnets")), one))))
for_resource-shared_example =
    for_resource-shared make_any GroupVersionResource.resource
      (resource_named (codes "macvlansubnets")) one subnets_of_one Later.here
