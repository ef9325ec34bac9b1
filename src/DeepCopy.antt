-- ===== src/DeepCopy.antt =====
-- types/apis/macvlan/v1/zz_generated.deepcopy.go over a memory of cells. A slice or a pointer is the
-- address of a cell, or none for nil; a slice stands for its own part of an array alone. The
-- addresses of a copy are given out after those of its parts; the program cannot see addresses.
pub mod Copies
pub mod Cells
pub mod Structs
pub mod Readings
pub mod Isolated
use network_controller.Common.{
  ℕ, ◌+◌, List, [], ◌∷◌, Option, none, some, if◌then◌else◌, Bool, true, false, ◌==◌,
}
use network_controller.Go.Text.{Bytes}
use network_controller.Go.Int.{ℤ}
use network_controller.Types.{IpRange, MacvlanIpSpec}

-- What is of k8s.io/apimachinery: `TypeMeta` and `ListMeta` hold texts alone; `ObjectMeta` holds maps
-- and slices, whose cells are of the last type.
pub record Metas : Type 1 where
  pub TypeMeta : Type 0
  pub ListMeta : Type 0
  pub ObjectMeta : Type 0
  pub MetaCell : Type 0

module _ (k : Metas) where
  -- The structs of types.go as they lie in memory.
  pub record IpStruct : Type 0 where
    pub type_meta : k.TypeMeta
    pub object_meta : k.ObjectMeta
    pub spec : MacvlanIpSpec

  pub record SpecStruct : Type 0 where
    pub master : Bytes
    pub vlan : ℤ
    pub cidr : Bytes
    pub mode : Bytes
    pub gateway : Bytes
    pub ranges : Option ℕ

  pub record SubnetStruct : Type 0 where
    pub type_meta : k.TypeMeta
    pub object_meta : k.ObjectMeta
    pub spec : SpecStruct

  -- `MacvlanIPList` and `MacvlanSubnetList`
  pub record ListStruct : Type 0 where
    pub type_meta : k.TypeMeta
    pub list_meta : k.ListMeta
    pub items : Option ℕ

  pub data Cell : Type 0 where
    ranges : List IpRange → Cell
    ips : List IpStruct → Cell
    subnets : List SubnetStruct → Cell
    ip_range : IpRange → Cell
    ip_spec : MacvlanIpSpec → Cell
    subnet_spec : SpecStruct → Cell
    ip : IpStruct → Cell
    subnet : SubnetStruct → Cell
    ip_list : ListStruct → Cell
    subnet_list : ListStruct → Cell
    metadata : k.MetaCell → Cell

  -- The cells below `next` are in use.
  pub record Heap : Type 0 where
    pub next : ℕ
    pub cell : ℕ → Option Cell

  abbrev pub Mem : Type 0 → Type 0
  Mem A = Heap → A × Heap

  unfoldable pub alloc : Cell → Mem ℕ
  alloc c h =
      (h.next, record { next = h.next + 1; cell = λ a. if a == h.next then some c else h.cell a })

  -- A kind of cells: what it holds, and the content of a cell of this kind.
  pub record Kind (B : Type 0) : Type 0 where
    pub put : B → Cell
    pub content : Option Cell → Option B

  -- `for i := range *in { (*in)[i].DeepCopyInto(&(*out)[i]) }`
  unfoldable pub copy_each : {A : Type 0} → (A → Mem A) → List A → Mem (List A)
  copy_each into [] h = ([], h)
  copy_each into (x ∷ xs) h =
      let (y, h1) = into x h in let (ys, h2) = copy_each into xs h1 in (y ∷ ys, h2)

  -- A new cell with a copy of another one's content; nil stays nil.
  unfoldable pub copy_cell : {B : Type 0} → Kind B → (B → Mem B) → Option ℕ → Mem (Option ℕ)
  copy_cell kind into none h = (none, h)
  copy_cell kind into (some p) h = elim (kind.content (h.cell p)) [
    | none ↦ (none, h)
    | some b ↦ let (c, h1) = into b h in let (q, h2) = alloc (kind.put c) h1 in (some q, h2)
  ]

  abbrev ranges_content : Option Cell → Option (List IpRange)
  ranges_content (some (ranges x)) = some x
  ranges_content _ = none

  abbrev pub ranges_kind : Kind (List IpRange)
  ranges_kind = record { put = ranges; content = ranges_content }

  abbrev ips_content : Option Cell → Option (List IpStruct)
  ips_content (some (ips x)) = some x
  ips_content _ = none

  abbrev pub ips_kind : Kind (List IpStruct)
  ips_kind = record { put = ips; content = ips_content }

  abbrev subnets_content : Option Cell → Option (List SubnetStruct)
  subnets_content (some (subnets x)) = some x
  subnets_content _ = none

  abbrev pub subnets_kind : Kind (List SubnetStruct)
  subnets_kind = record { put = subnets; content = subnets_content }

  abbrev ip_range_content : Option Cell → Option IpRange
  ip_range_content (some (ip_range x)) = some x
  ip_range_content _ = none

  abbrev pub ip_range_kind : Kind IpRange
  ip_range_kind = record { put = ip_range; content = ip_range_content }

  abbrev ip_spec_content : Option Cell → Option MacvlanIpSpec
  ip_spec_content (some (ip_spec x)) = some x
  ip_spec_content _ = none

  abbrev pub ip_spec_kind : Kind MacvlanIpSpec
  ip_spec_kind = record { put = ip_spec; content = ip_spec_content }

  abbrev subnet_spec_content : Option Cell → Option SpecStruct
  subnet_spec_content (some (subnet_spec x)) = some x
  subnet_spec_content _ = none

  abbrev pub subnet_spec_kind : Kind SpecStruct
  subnet_spec_kind = record { put = subnet_spec; content = subnet_spec_content }

  abbrev ip_content : Option Cell → Option IpStruct
  ip_content (some (ip x)) = some x
  ip_content _ = none

  abbrev pub ip_kind : Kind IpStruct
  ip_kind = record { put = ip; content = ip_content }

  abbrev subnet_content : Option Cell → Option SubnetStruct
  subnet_content (some (subnet x)) = some x
  subnet_content _ = none

  abbrev pub subnet_kind : Kind SubnetStruct
  subnet_kind = record { put = subnet; content = subnet_content }

  abbrev ip_list_content : Option Cell → Option ListStruct
  ip_list_content (some (ip_list x)) = some x
  ip_list_content _ = none

  abbrev pub ip_list_kind : Kind ListStruct
  ip_list_kind = record { put = ip_list; content = ip_list_content }

  abbrev subnet_list_content : Option Cell → Option ListStruct
  subnet_list_content (some (subnet_list x)) = some x
  subnet_list_content _ = none

  abbrev pub subnet_list_kind : Kind ListStruct
  subnet_list_kind = record { put = subnet_list; content = subnet_list_content }

  -- `copy_meta` is `ObjectMeta.DeepCopyInto`. Each function takes what `*in` is to what `*out` becomes.
  module _ (copy_meta : k.ObjectMeta → Mem k.ObjectMeta) where
    unfoldable pub ip_range_into : IpRange → Mem IpRange
    ip_range_into x h = (x, h)

    unfoldable pub ip_spec_into : MacvlanIpSpec → Mem MacvlanIpSpec
    ip_spec_into x h = (x, h)

    unfoldable pub ip_into : IpStruct → Mem IpStruct
    ip_into x h = let (m, h1) = copy_meta x.object_meta h in (record x { object_meta = m }, h1)

    unfoldable pub ip_list_into : ListStruct → Mem ListStruct
    ip_list_into x h =
        let (items, h1) = copy_cell ips_kind (copy_each ip_into) x.items h in
        (record x { items = items }, h1)

    -- `copy(*out, *in)` of ranges
    unfoldable pub subnet_spec_into : SpecStruct → Mem SpecStruct
    subnet_spec_into x h =
        let (copied, h1) = copy_cell ranges_kind (λ rs h. (rs, h)) x.ranges h in
        (record x { ranges = copied }, h1)

    unfoldable pub subnet_into : SubnetStruct → Mem SubnetStruct
    subnet_into x h =
        let (m, h1) = copy_meta x.object_meta h in
        let (spec, h2) = subnet_spec_into x.spec h1 in
        (record x { object_meta = m; spec = spec }, h2)

    unfoldable pub subnet_list_into : ListStruct → Mem ListStruct
    subnet_list_into x h =
        let (items, h1) = copy_cell subnets_kind (copy_each subnet_into) x.items h in
        (record x { items = items }, h1)

    -- `DeepCopy` of each type; `DeepCopyObject` hands the same pointer on.
    unfoldable pub deep_copy_ip_range : Option ℕ → Mem (Option ℕ)
    deep_copy_ip_range = copy_cell ip_range_kind ip_range_into

    unfoldable pub deep_copy_ip_spec : Option ℕ → Mem (Option ℕ)
    deep_copy_ip_spec = copy_cell ip_spec_kind ip_spec_into

    unfoldable pub deep_copy_subnet_spec : Option ℕ → Mem (Option ℕ)
    deep_copy_subnet_spec = copy_cell subnet_spec_kind subnet_spec_into

    unfoldable pub deep_copy_ip : Option ℕ → Mem (Option ℕ)
    deep_copy_ip = copy_cell ip_kind ip_into

    unfoldable pub deep_copy_subnet : Option ℕ → Mem (Option ℕ)
    deep_copy_subnet = copy_cell subnet_kind subnet_into

    unfoldable pub deep_copy_ip_list : Option ℕ → Mem (Option ℕ)
    deep_copy_ip_list = copy_cell ip_list_kind ip_list_into

    unfoldable pub deep_copy_subnet_list : Option ℕ → Mem (Option ℕ)
    deep_copy_subnet_list = copy_cell subnet_list_kind subnet_list_into
