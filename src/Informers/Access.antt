-- ===== src/Informers/Access.antt =====
-- informers/externalversions/macvlan/v1: `MacvlanIPInformer` and `MacvlanSubnetInformer`, the access to
-- the shared informer of a type and to the lister over its index.
use network_controller.Common.{◌≡◌, refl, Option}
use network_controller.Go.Text.{Bytes}
use network_controller.Go.Int.{ℤ}
use network_controller.Types.{MacvlanIp, MacvlanSubnet}
use network_controller.Client.{ListOptions}
use network_controller.Scheme.{GroupName}
use network_controller.Lister.{Indexer, TypedLister, macvlan_ip_lister, macvlan_subnet_lister}
use network_controller.Informers.{
  Factory, informer_for, typed_informer, macvlan_ip_type, macvlan_subnet_type,
}
use network_controller.Informers.Typed.{Access, ListWatch, default_informer}

-- `group` and `version`: what the factory hands on of itself.
pub record GroupAccess (T : Type 0) : Type 0 where
  pub namespace : Bytes
  pub tweak_list_options : Option T

module _ {C T I : Type 0} where
  -- `factory.Macvlan()`
  unfoldable pub group_access : Factory C T I → GroupAccess T
  group_access f = record { namespace = f.namespace; tweak_list_options = f.tweak_list_options }

-- `V1()`, whose version has the fields of the group
unfoldable pub version_access : {T : Type 0} → GroupAccess T → GroupAccess T
version_access g = record { namespace = g.namespace; tweak_list_options = g.tweak_list_options }

-- The methods of an access, over the factory that it was made from.
pub record InformerAccess (F I A S : Type 0) : Type 0 where
  pub informer : F → I × F
  pub lister : F → TypedLister A S × F

module _ {W L X I : Type 0} (new_informer : ListWatch W L → Bytes → ℤ → X → I) (namespace_index : X)
    (version : GroupAccess (ListOptions → ListOptions)) where
  -- `Informer()`: the shared informer of a type, made by `defaultInformer` at the first request.
  unfoldable pub access_informer :
      Bytes
      → Factory (Access W L) (ListOptions → ListOptions) I
      → I × Factory (Access W L) (ListOptions → ListOptions) I
  unfolding informer_for default_informer
  access_informer k f =
      informer_for k
        (λ client resync.
          default_informer new_informer namespace_index client version.namespace k resync
            version.tweak_list_options)
        f

  -- The methods for one type of object, by what makes a lister from an index.
  unfoldable pub informer_access :
      {A S : Type 0}
      → Bytes
      → (I → Indexer A S)
      → (Indexer A S → TypedLister A S)
      → InformerAccess (Factory (Access W L) (ListOptions → ListOptions) I) I A S
  unfolding access_informer
  informer_access k get_indexer new_lister = record {
    informer = access_informer k;
    lister = λ f. let (informer, g) = access_informer k f in (new_lister (get_indexer informer), g);
  }

  module _ {S : Type 0} (not_found : GroupName → Bytes → Bytes) where
    -- `MacvlanIPs()` of the version
    unfoldable pub macvlan_ip_informer :
        (I → Indexer MacvlanIp S)
        → InformerAccess (Factory (Access W L) (ListOptions → ListOptions) I) I MacvlanIp S
    unfolding informer_access
    macvlan_ip_informer get_indexer =
        informer_access macvlan_ip_type get_indexer (macvlan_ip_lister not_found)

    -- `MacvlanSubnets()`; the methods of macvlansubnet.go differ from those of macvlanip.go in the type
    -- alone.
    unfoldable pub macvlan_subnet_informer :
        (I → Indexer MacvlanSubnet S)
        → InformerAccess (Factory (Access W L) (ListOptions → ListOptions) I) I MacvlanSubnet S
    unfolding informer_access
    macvlan_subnet_informer get_indexer =
        informer_access macvlan_subnet_type get_indexer (macvlan_subnet_lister not_found)

-- The chain `f.Macvlan().V1().MacvlanIPs().Informer()`, and that of subnets, ask the factory for the
-- typed informer.
pub access_informer-typed_informer :
    {W L X I : Type 0} (new_informer : ListWatch W L → Bytes → ℤ → X → I) (namespace_index : X)
    (k : Bytes) (f : Factory (Access W L) (ListOptions → ListOptions) I)
    → access_informer new_informer namespace_index (version_access (group_access f)) k f
      ≡ typed_informer (default_informer new_informer namespace_index) k f
unfolding access_informer version_access group_access typed_informer
access_informer-typed_informer new_informer namespace_index k f = refl
