-- ===== src/DeepCopy/Readings.antt =====
-- What the structs of the API show, from which cells, and the copying of each.
use network_controller.Common.{ℕ, refl, List, Option}
use network_controller.Types.{IpRange, MacvlanIpSpec}
use network_controller.Go.Text.{Bytes}
use network_controller.Go.Int.{ℤ}
use network_controller.DeepCopy.{
  Metas, Heap, Mem, IpStruct, SpecStruct, SubnetStruct, ListStruct, copy_each, copy_cell,
  ranges_kind, ips_kind, subnets_kind, ip_range_kind, ip_spec_kind, subnet_spec_kind, ip_kind,
  subnet_kind, ip_list_kind, subnet_list_kind, ip_range_into, ip_spec_into, ip_into, ip_list_into,
  subnet_spec_into, subnet_into, subnet_list_into, deep_copy_ip_range, deep_copy_ip_spec,
  deep_copy_subnet_spec, deep_copy_ip, deep_copy_subnet, deep_copy_ip_list, deep_copy_subnet_list,
}
use network_controller.DeepCopy.Copies.{IsCopy, value_each, OnEach, each-IsCopy}
use network_controller.DeepCopy.Cells.{value_cell, OnCell, cell-IsCopy}
use network_controller.DeepCopy.Structs.{plain_value, Plain, Plain-IsCopy, both-IsCopy}

-- The types of types.go.
pub data GoType : Type 0 where
  ip_range ip_spec ip ip_list subnet_spec subnet subnet_list : GoType

-- The `DeepCopy` of each.
abbrev pub deep_copy :
    (k : Metas) → (k.ObjectMeta → Mem k k.ObjectMeta) → GoType → Option ℕ → Mem k (Option ℕ)
deep_copy k copy_meta ip_range = deep_copy_ip_range k copy_meta
deep_copy k copy_meta ip_spec = deep_copy_ip_spec k copy_meta
deep_copy k copy_meta ip = deep_copy_ip k copy_meta
deep_copy k copy_meta ip_list = deep_copy_ip_list k copy_meta
deep_copy k copy_meta subnet_spec = deep_copy_subnet_spec k copy_meta
deep_copy k copy_meta subnet = deep_copy_subnet k copy_meta
deep_copy k copy_meta subnet_list = deep_copy_subnet_list k copy_meta

module _ (k : Metas) (copy_meta : k.ObjectMeta → Mem k k.ObjectMeta) {V : Type 0}
    (meta_value : Heap k → k.ObjectMeta → V)
    (OnMeta : (ℕ → Type 0) → Heap k → k.ObjectMeta → Type 0) where
  -- What the structs show, and the cells that they show it from.
  abbrev pub IpValue : Type 0
  IpValue = (k.TypeMeta × MacvlanIpSpec) × V × Unit {0}

  abbrev pub ip_value : Heap k → IpStruct k → IpValue
  ip_value h x = ((x.type_meta, x.spec), meta_value h x.object_meta, tt)

  abbrev pub OnIp : (ℕ → Type 0) → Heap k → IpStruct k → Type 0
  OnIp P h x = OnMeta P h x.object_meta × Unit {0}

  abbrev pub SpecValue : Type 0
  SpecValue = (Bytes × ℤ × Bytes × Bytes × Bytes) × Option (Option (List IpRange)) × Unit {0}

  abbrev pub spec_value : Heap k → SpecStruct k → SpecValue
  spec_value h x = (
    (x.master, x.vlan, x.cidr, x.mode, x.gateway),
    value_cell plain_value Plain (ranges_kind k) h x.ranges,
    tt,
  )

  abbrev pub OnSpec : (ℕ → Type 0) → Heap k → SpecStruct k → Type 0
  OnSpec P h x = OnCell plain_value Plain (ranges_kind k) P h x.ranges × Unit {0}

  abbrev pub SubnetValue : Type 0
  SubnetValue = k.TypeMeta × V × SpecValue

  abbrev pub subnet_value : Heap k → SubnetStruct k → SubnetValue
  subnet_value h x = (x.type_meta, meta_value h x.object_meta, spec_value h x.spec)

  abbrev pub OnSubnet : (ℕ → Type 0) → Heap k → SubnetStruct k → Type 0
  OnSubnet P h x = OnMeta P h x.object_meta × OnSpec P h x.spec

  module _ (meta : IsCopy meta_value OnMeta copy_meta) where
    pub ip_into-IsCopy : IsCopy ip_value OnIp (ip_into k copy_meta)
    unfolding ip_into
    ip_into-IsCopy =
        both-IsCopy {C = Unit {0}} (λ x. (x.type_meta, x.spec)) IpStruct.object_meta (λ x. tt)
          (λ x m u. record x { object_meta = m }) (λ a b c. refl) (λ a b c. refl) (λ a b c. refl)
          meta_value OnMeta copy_meta meta plain_value Plain (λ u h. (u, h)) Plain-IsCopy

    pub spec_into-IsCopy : IsCopy spec_value OnSpec (subnet_spec_into k copy_meta)
    unfolding subnet_spec_into
    spec_into-IsCopy =
        both-IsCopy {C = Unit {0}} (λ x. (x.master, x.vlan, x.cidr, x.mode, x.gateway))
          SpecStruct.ranges (λ x. tt) (λ x r u. record x { ranges = r }) (λ a b c. refl)
          (λ a b c. refl) (λ a b c. refl) (value_cell plain_value Plain (ranges_kind k))
          (OnCell plain_value Plain (ranges_kind k)) (copy_cell k (ranges_kind k) (λ rs h. (rs, h)))
          (cell-IsCopy plain_value Plain (ranges_kind k) (λ b. refl) (λ rs h. (rs, h)) Plain-IsCopy)
          plain_value Plain (λ u h. (u, h)) Plain-IsCopy

    pub subnet_into-IsCopy : IsCopy subnet_value OnSubnet (subnet_into k copy_meta)
    unfolding subnet_into
    subnet_into-IsCopy =
        both-IsCopy SubnetStruct.type_meta SubnetStruct.object_meta SubnetStruct.spec
          (λ x m s. record x { object_meta = m; spec = s }) (λ a b c. refl) (λ a b c. refl)
          (λ a b c. refl) meta_value OnMeta copy_meta meta spec_value OnSpec
          (subnet_spec_into k copy_meta) spec_into-IsCopy

  abbrev pub ip_items_value : Heap k → Option ℕ → Option (Option (List IpValue))
  ip_items_value = value_cell (value_each ip_value OnIp) (OnEach ip_value OnIp) (ips_kind k)

  abbrev pub OnIpItems : (ℕ → Type 0) → Heap k → Option ℕ → Type 0
  OnIpItems = OnCell (value_each ip_value OnIp) (OnEach ip_value OnIp) (ips_kind k)

  abbrev pub subnet_items_value : Heap k → Option ℕ → Option (Option (List SubnetValue))
  subnet_items_value =
      value_cell (value_each subnet_value OnSubnet) (OnEach subnet_value OnSubnet) (subnets_kind k)

  abbrev pub OnSubnetItems : (ℕ → Type 0) → Heap k → Option ℕ → Type 0
  OnSubnetItems =
      OnCell (value_each subnet_value OnSubnet) (OnEach subnet_value OnSubnet) (subnets_kind k)

  -- A list, by what its items show.
  module _ {I : Type 0} (items : Heap k → Option ℕ → I)
      (On_items : (ℕ → Type 0) → Heap k → Option ℕ → Type 0) where
    abbrev pub list_value : Heap k → ListStruct k → (k.TypeMeta × k.ListMeta) × I × Unit {0}
    list_value h x = ((x.type_meta, x.list_meta), items h x.items, tt)

    abbrev pub OnList : (ℕ → Type 0) → Heap k → ListStruct k → Type 0
    OnList P h x = On_items P h x.items × Unit {0}

    abbrev pub list_into : (Option ℕ → Mem k (Option ℕ)) → ListStruct k → Mem k (ListStruct k)
    list_into into x h = let (copied, h1) = into x.items h in (record x { items = copied }, h1)

    pub list_into-IsCopy :
        (into : Option ℕ → Mem k (Option ℕ))
        → IsCopy items On_items into
        → IsCopy list_value OnList (list_into into)
    list_into-IsCopy into c =
        both-IsCopy {C = Unit {0}} (λ x. (x.type_meta, x.list_meta)) ListStruct.items (λ x. tt)
          (λ x i u. record x { items = i }) (λ a b c. refl) (λ a b c. refl) (λ a b c. refl) items
          On_items into c plain_value Plain (λ u h. (u, h)) Plain-IsCopy

  abbrev pub ListValue : Type 0 → Type 0
  ListValue T = (k.TypeMeta × k.ListMeta) × Option (Option (List T)) × Unit {0}

  -- What a pointer to each type shows, and the cells that this is shown from.
  abbrev pub Shown : GoType → Type 0
  Shown ip_range = IpRange
  Shown ip_spec = MacvlanIpSpec
  Shown ip = IpValue
  Shown ip_list = ListValue IpValue
  Shown subnet_spec = SpecValue
  Shown subnet = SubnetValue
  Shown subnet_list = ListValue SubnetValue

  abbrev pub shown : (t : GoType) → Heap k → Option ℕ → Option (Option (Shown t))
  shown ip_range = value_cell plain_value Plain (ip_range_kind k)
  shown ip_spec = value_cell plain_value Plain (ip_spec_kind k)
  shown ip = value_cell ip_value OnIp (ip_kind k)
  shown ip_list =
      value_cell (list_value ip_items_value OnIpItems) (OnList ip_items_value OnIpItems)
        (ip_list_kind k)
  shown subnet_spec = value_cell spec_value OnSpec (subnet_spec_kind k)
  shown subnet = value_cell subnet_value OnSubnet (subnet_kind k)
  shown subnet_list =
      value_cell (list_value subnet_items_value OnSubnetItems)
        (OnList subnet_items_value OnSubnetItems) (subnet_list_kind k)

  abbrev pub StandsOn : GoType → (ℕ → Type 0) → Heap k → Option ℕ → Type 0
  StandsOn ip_range = OnCell plain_value Plain (ip_range_kind k)
  StandsOn ip_spec = OnCell plain_value Plain (ip_spec_kind k)
  StandsOn ip = OnCell ip_value OnIp (ip_kind k)
  StandsOn ip_list =
      OnCell (list_value ip_items_value OnIpItems) (OnList ip_items_value OnIpItems)
        (ip_list_kind k)
  StandsOn subnet_spec = OnCell spec_value OnSpec (subnet_spec_kind k)
  StandsOn subnet = OnCell subnet_value OnSubnet (subnet_kind k)
  StandsOn subnet_list =
      OnCell (list_value subnet_items_value OnSubnetItems) (OnList subnet_items_value OnSubnetItems)
        (subnet_list_kind k)

  module _ (meta : IsCopy meta_value OnMeta copy_meta) where
    ip_list_into-IsCopy :
        IsCopy
          (list_value ip_items_value OnIpItems)
          (OnList ip_items_value OnIpItems)
          (ip_list_into k copy_meta)
    unfolding ip_list_into
    ip_list_into-IsCopy =
        list_into-IsCopy ip_items_value OnIpItems
          (copy_cell k (ips_kind k) (copy_each k (ip_into k copy_meta)))
          (cell-IsCopy _ _ (ips_kind k) (λ b. refl) (copy_each k (ip_into k copy_meta))
            (each-IsCopy ip_value OnIp (ip_into k copy_meta) (ip_into-IsCopy meta)))

    subnet_list_into-IsCopy :
        IsCopy
          (list_value subnet_items_value OnSubnetItems)
          (OnList subnet_items_value OnSubnetItems)
          (subnet_list_into k copy_meta)
    unfolding subnet_list_into
    subnet_list_into-IsCopy =
        list_into-IsCopy subnet_items_value OnSubnetItems
          (copy_cell k (subnets_kind k) (copy_each k (subnet_into k copy_meta)))
          (cell-IsCopy _ _ (subnets_kind k) (λ b. refl) (copy_each k (subnet_into k copy_meta))
            (each-IsCopy subnet_value OnSubnet (subnet_into k copy_meta) (subnet_into-IsCopy meta)))

    pub deep_copy-IsCopy : (t : GoType) → IsCopy (shown t) (StandsOn t) (deep_copy k copy_meta t)
    unfolding deep_copy_ip_range deep_copy_ip_spec deep_copy_ip deep_copy_ip_list
        deep_copy_subnet_spec deep_copy_subnet deep_copy_subnet_list ip_range_into ip_spec_into
    deep_copy-IsCopy ip_range =
        cell-IsCopy _ _ (ip_range_kind k) (λ b. refl) (ip_range_into k copy_meta) Plain-IsCopy
    deep_copy-IsCopy ip_spec =
        cell-IsCopy _ _ (ip_spec_kind k) (λ b. refl) (ip_spec_into k copy_meta) Plain-IsCopy
    deep_copy-IsCopy ip =
        cell-IsCopy _ _ (ip_kind k) (λ b. refl) (ip_into k copy_meta) (ip_into-IsCopy meta)
    deep_copy-IsCopy ip_list =
        cell-IsCopy _ _ (ip_list_kind k) (λ b. refl) (ip_list_into k copy_meta) ip_list_into-IsCopy
    deep_copy-IsCopy subnet_spec =
        cell-IsCopy _ _ (subnet_spec_kind k) (λ b. refl) (subnet_spec_into k copy_meta)
          (spec_into-IsCopy meta)
    deep_copy-IsCopy subnet =
        cell-IsCopy _ _ (subnet_kind k) (λ b. refl) (subnet_into k copy_meta)
          (subnet_into-IsCopy meta)
    deep_copy-IsCopy subnet_list =
        cell-IsCopy _ _ (subnet_list_kind k) (λ b. refl) (subnet_list_into k copy_meta)
          subnet_list_into-IsCopy
