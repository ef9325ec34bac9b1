-- ===== src/Informers/Typed.antt =====
-- informers/externalversions/macvlan/v1: the informers of macvlanips and of subnets, over the clients
-- that list and watch. The shared informer itself is of client-go.
use network_controller.Common.{Option, none, some}
use network_controller.Go.Text.{Bytes}
use network_controller.Go.Int.{ℤ}
use network_controller.Go.Exec.{Exec}
use network_controller.Client.{ListOptions}

-- `client.MacvlanV1().MacvlanIPs(namespace)` or `MacvlanSubnets(namespace)`, by the type and the
-- namespace; a list and a watch return objects of client-go.
pub record Access (W L : Type 0) : Type 0 where
  pub list : Bytes → Bytes → ListOptions → Exec W L
  pub watch : Bytes → Bytes → ListOptions → Exec W L

-- `cache.ListWatch`
pub record ListWatch (W L : Type 0) : Type 0 where
  pub list_func : ListOptions → Exec W L
  pub watch_func : ListOptions → Exec W L

-- `if tweakListOptions != nil { tweakListOptions(&options) }`
unfoldable pub tweaked : Option (ListOptions → ListOptions) → ListOptions → ListOptions
tweaked none options = options
tweaked (some tweak) options = tweak options

-- `new_informer` is `cache.NewSharedIndexInformer`, whose indexers `X` are handed through.
module _ {W L X I : Type 0} (new_informer : ListWatch W L → Bytes → ℤ → X → I) where
  unfoldable pub new_filtered_informer :
      Access W L → Bytes → Bytes → ℤ → X → Option (ListOptions → ListOptions) → I
  new_filtered_informer client namespace k resync indexers tweak =
      new_informer
        (record {
          list_func = λ options. client.list k namespace (tweaked tweak options);
          watch_func = λ options. client.watch k namespace (tweaked tweak options);
        })
        k resync indexers

  unfoldable pub new_informer_of : Access W L → Bytes → Bytes → ℤ → X → I
  new_informer_of client namespace k resync indexers =
      new_filtered_informer client namespace k resync indexers none

  -- `defaultInformer`, which `Informer` hands to the factory: the indexer is the namespace's.
  unfoldable pub default_informer :
      X → Access W L → Bytes → Bytes → ℤ → Option (ListOptions → ListOptions) → I
  default_informer namespace_index client namespace k resync tweak =
      new_filtered_informer client namespace k resync namespace_index tweak
