-- ===== src/Examples/DeepCopies.antt =====
-- A run of the theorem about deep copies: a list with one subnet, whose metadata has one cell of
-- labels.
use network_controller.Common.{
  ℕ, ◌<◌, ◌≡◌, refl, arith, List, [], ◌∷◌, Option, none, some, if◌then◌else◌, ◌==◌, get_elem?,
}
use network_controller.Go.Text.{Bytes, codes}
use network_controller.Go.Int.{pos}
use network_controller.Types.{IpRange}
use network_controller.DeepCopy.{
  Metas, Cell, ListStruct, Heap, Mem, Kind, ranges_kind, SubnetStruct, copy_cell,
}
use network_controller.DeepCopy.Copies.{IsCopy, Below, Between}
use network_controller.DeepCopy.Cells.{value_cell, OnCell, cell-IsCopy}
use network_controller.DeepCopy.Structs.{plain_value, Plain, Plain-IsCopy}
use network_controller.DeepCopy.Readings.{GoType, deep_copy, shown, StandsOn}
use network_controller.DeepCopy.Isolated.{deep_copy-isolated}

-- Metadata is a pointer to a text.
abbrev texts : Metas
texts = record { TypeMeta = Bytes; ListMeta = Bytes; ObjectMeta = Option ℕ; MetaCell = Bytes }

abbrev text_content : Option (Cell texts) → Option Bytes
text_content (some (Cell.metadata x)) = some x
text_content _ = none

abbrev text_kind : Kind texts Bytes
text_kind = record { put = Cell.metadata; content = text_content }

abbrev copy_text : Option ℕ → Mem texts (Option ℕ)
copy_text = copy_cell texts text_kind (λ b h. (b, h))

abbrev text_value : Heap texts → Option ℕ → Option (Option Bytes)
text_value = value_cell plain_value Plain text_kind

abbrev OnText : (ℕ → Type 0) → Heap texts → Option ℕ → Type 0
OnText = OnCell plain_value Plain text_kind

text-IsCopy : IsCopy text_value OnText copy_text
text-IsCopy = cell-IsCopy plain_value Plain text_kind (λ b. refl) (λ b h. (b, h)) Plain-IsCopy

abbrev one_subnet : SubnetStruct texts
one_subnet = record {
  type_meta = codes "MacvlanSubnet";
  object_meta = some 2;
  spec = record {
    master = codes "eth0";
    vlan = pos 7;
    cidr = codes "10.0.0.0/24";
    mode = codes "bridge";
    gateway = [];
    ranges = some 3;
  };
}

abbrev one_range : List IpRange
one_range = record { range_start = codes "10.0.0.2"; range_end = codes "10.0.0.9" } ∷ []

abbrev one_list : ListStruct texts
one_list = record { type_meta = codes "List"; list_meta = []; items = some 1 }

abbrev cells : List (Cell texts)
cells =
    Cell.subnet_list one_list
    ∷ Cell.subnets (one_subnet ∷ [])
    ∷ Cell.metadata (codes "labels")
    ∷ Cell.ranges one_range
    ∷ []

abbrev memory : Heap texts
memory = record { next = 4; cell = get_elem? cells }

-- The memory after the copying, in which the original's ranges are overwritten.
abbrev overwritten : Heap texts
overwritten = record {
  next = (deep_copy texts copy_text GoType.subnet_list (some 0) memory).1.next;
  cell = λ p.
      if p == 3
      then some (Cell.ranges [])
      else (deep_copy texts copy_text GoType.subnet_list (some 0) memory).1.cell p;
}

stands : StandsOn texts copy_text text_value OnText GoType.subnet_list (Below 4) memory (some 0)
stands =
    let labels : OnText (Below 4) memory (some 2) = (omega arith, (codes "labels", refl, tt)) in
    let ranges : OnCell plain_value Plain (ranges_kind texts) (Below 4) memory (some 3) =
      (omega arith, (one_range, refl, tt)) in
    (
      omega arith,
      (one_list, refl, ((omega arith, (one_subnet ∷ [], refl, ((labels, (ranges, tt)), tt))), tt)),
    )

deep_copy-isolated_example :
    (((p : ℕ)
        → Between 4 (deep_copy texts copy_text GoType.subnet_list (some 0) memory).1.next p
        → overwritten.cell p
          ≡ (deep_copy texts copy_text GoType.subnet_list (some 0) memory).1.cell p)
      → shown texts copy_text text_value OnText GoType.subnet_list overwritten
          (deep_copy texts copy_text GoType.subnet_list (some 0) memory).0
        ≡ shown texts copy_text text_value OnText GoType.subnet_list memory (some 0))
    × (((p : ℕ)
          → p < 4
          → overwritten.cell p
            ≡ (deep_copy texts copy_text GoType.subnet_list (some 0) memory).1.cell p)
        → shown texts copy_text text_value OnText GoType.subnet_list overwritten (some 0)
          ≡ shown texts copy_text text_value OnText GoType.subnet_list memory (some 0))
deep_copy-isolated_example =
    deep_copy-isolated texts copy_text text_value OnText GoType.subnet_list (some 0) memory
      overwritten text-IsCopy stands
