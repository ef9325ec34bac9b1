-- ===== src/Examples/Fakes.antt =====
-- A run of the theorem about the clients for tests: two macvlanips, one of which is selected.
use network_controller.Common.{Option, ◌≡◌, refl, [], ◌∷◌, none, some, Bool, true, false}
use network_controller.Go.Text.{Bytes, codes}
use network_controller.Go.Result.{ok, Result, Error}
use network_controller.Go.Map.{Dict}
use network_controller.Types.{MacvlanIp}
use network_controller.Client.{ListOptions}
use network_controller.Informers.{GroupVersionResource}
use network_controller.Fake.{Fake, GroupVersionKind, ObjectList, a_list, fake_list}
use network_controller.Fake.Lists.{Listed, fake_list-Listed}
use network_controller.Examples.Allocations.{taken_ip}
use network_controller.Examples.Store.{missing}

abbrev labelled : MacvlanIp
labelled = record taken_ip {
  meta = record (taken_ip.meta) { labels = some ((codes "subnet", codes "small") ∷ []) };
}

abbrev two : ObjectList MacvlanIp (Unit {0})
two = record { list_meta = tt; items = taken_ip ∷ labelled ∷ [] }

abbrev has_subnet : Dict Bytes → Bool
has_subnet [] = false
has_subnet (entry ∷ rest) = true

-- It answers each action with the two, beside an error, and its one selector asks for a label.
abbrev always_two : Fake (Unit {0}) MacvlanIp (Unit {0}) (Unit {0}) (Unit {0})
always_two = record {
  invokes = λ action fallback w. (ok (a_list two, some missing), w);
  invokes_watch = λ action w. (ok (none, none), w);
  extract_label = λ opts. some tt;
  everything = tt;
  matches = λ selector labels. has_subnet labels;
}

abbrev no_options : ListOptions
no_options = record { label_selector = []; timeout_seconds = none; watch = false; others = [] }

abbrev ip_resource : GroupVersionResource
ip_resource = record {
  group = codes "macvlan.cluster.cattle.io";
  version = codes "v1";
  resource = codes "macvlanips";
}

abbrev ip_kind : GroupVersionKind
ip_kind = record {
  group = codes "macvlan.cluster.cattle.io";
  version = codes "v1";
  kind = codes "MacvlanIP";
}

fake_list-Listed_example :
    (r : Result (Option (ObjectList MacvlanIp (Unit {0})) × Option Error)) × (fake_list always_two
        MacvlanIp.meta ip_resource ip_kind [] no_options tt
      ≡ (r, tt))
    × Listed always_two MacvlanIp.meta ip_resource ip_kind [] no_options
        (some missing)
        (a_list two)
        r
fake_list-Listed_example =
    fake_list-Listed always_two MacvlanIp.meta ip_resource ip_kind [] no_options (a_list two)
      (some missing) tt tt refl
