-- ===== src/Lister.antt =====
-- pkg/generated/listers/macvlan/v1: the listers of macvlanips and of subnets, over the index of an
-- informer, which is of client-go. The two files differ in the type and in the resource of the error.
pub mod Lookup
use network_controller.Common.{Bool, List, [], ◌∷◌, ◌++◌, Option, none, some}
use network_controller.Go.Text.{Bytes, codes}
use network_controller.Types.{MacvlanIp, MacvlanSubnet}
use network_controller.Scheme.{GroupName, resource_of}
use network_controller.Go.Result.{Result, ok, err, panics, Error, status, Reason, ◌>>=◌}

-- An object of the index: of the lister's type or of another one.
pub data Stored (A : Type 0) : Type 0 where
  object : A → Stored A
  foreign : Stored A

-- `cache.Indexer` with `cache.ListAll` and `cache.ListAllByNamespace`: the objects on which they call
-- the function that appends, in order, and their error.
pub record Indexer (A S : Type 0) : Type 0 where
  pub list_all : S → List (Stored A) × Option Error
  pub list_all_by_namespace : Bytes → S → List (Stored A) × Option Error
  pub get_by_key : Bytes → Result (Option (Stored A))

module _ {A : Type 0} where
  -- `ret = append(ret, m.(*v1.MacvlanIP))` for each
  unfoldable pub append_all : List (Stored A) → Result (List A)
  append_all [] = ok []
  append_all (foreign ∷ rest) = panics
  append_all (object a ∷ rest) = append_all rest >>= λ ret. ok (a ∷ ret)

  unfoldable pub asserted : List (Stored A) × Option Error → Result (List A × Option Error)
  unfolding append_all
  asserted (visited, e) = append_all visited >>= λ ret. ok (ret, e)

module _ {A S : Type 0} where
  -- `List` returns its list beside an error, too.
  unfoldable pub list : Indexer A S → S → Result (List A × Option Error)
  unfolding asserted
  list indexer selector = asserted (indexer.list_all selector)

  unfoldable pub namespace_list : Indexer A S → Bytes → S → Result (List A × Option Error)
  unfolding asserted
  namespace_list indexer namespace selector =
      asserted (indexer.list_all_by_namespace namespace selector)

  -- `not_found` is `errors.NewNotFound` of the resource, by the name: a status with a message.
  unfoldable pub namespace_get : Indexer A S → (Bytes → Bytes) → Bytes → Bytes → Result A
  namespace_get indexer not_found namespace name =
      indexer.get_by_key (namespace ++ (codes "/" ++ name)) >>= λ found. elim found [
        | none ↦ err (status Reason.not_found (not_found name))
        | some (object a) ↦ ok a
        | some foreign ↦ panics
      ]

-- `MacvlanIPNamespaceLister` and `MacvlanIPLister`, or those of subnets.
pub record NamespaceLister (A S : Type 0) : Type 0 where
  pub list : S → Result (List A × Option Error)
  pub get : Bytes → Result A

pub record TypedLister (A S : Type 0) : Type 0 where
  pub list : S → Result (List A × Option Error)
  pub namespaced : Bytes → NamespaceLister A S

-- `not_found` is the message of `errors.NewNotFound`, by the resource and the name.
module _ {A S : Type 0} (not_found : GroupName → Bytes → Bytes) where
  unfoldable pub typed_lister : GroupName → Indexer A S → TypedLister A S
  unfolding list namespace_list namespace_get
  typed_lister resource indexer = record {
    list = list indexer;
    namespaced = λ namespace. record {
      list = namespace_list indexer namespace;
      get = namespace_get indexer (not_found resource) namespace;
    };
  }

module _ {S : Type 0} (not_found : GroupName → Bytes → Bytes) where
  -- `NewMacvlanIPLister`
  unfoldable pub macvlan_ip_lister : Indexer MacvlanIp S → TypedLister MacvlanIp S
  unfolding typed_lister resource_of
  macvlan_ip_lister indexer = typed_lister not_found (resource_of (codes "macvlanip")) indexer

  -- `NewMacvlanSubnetLister`; the methods of macvlansubnet.go differ from those of macvlanip.go in the
  -- resource and in the type of the object alone.
  unfoldable pub macvlan_subnet_lister : Indexer MacvlanSubnet S → TypedLister MacvlanSubnet S
  unfolding typed_lister resource_of
  macvlan_subnet_lister indexer =
      typed_lister not_found (resource_of (codes "macvlansubnet")) indexer
