-- ===== src/Types.antt =====
-- types/apis/macvlan/v1/types.go, and the fields of Kubernetes objects that the program uses. A
-- map that may be nil is an `Option`.
use network_controller.Common.{List, Option, Bool, ◌++◌}
use network_controller.Go.Text.{Bytes, codes}
use network_controller.Go.Int.{ℤ}
use network_controller.Go.Map.{Dict}

-- `MacvlanSubnetNamespace`, the annotations and the labels
abbrev pub macvlan_subnet_namespace : Bytes
macvlan_subnet_namespace = codes "kube-system"

abbrev pub macvlan_annotation_prefix : Bytes
macvlan_annotation_prefix = codes "macvlan.pandaria.cattle.io/"

abbrev pub annotation_ip : Bytes
annotation_ip = macvlan_annotation_prefix ++ codes "ip"

abbrev pub annotation_subnet : Bytes
annotation_subnet = macvlan_annotation_prefix ++ codes "subnet"

abbrev pub annotation_mac : Bytes
annotation_mac = macvlan_annotation_prefix ++ codes "mac"

abbrev pub label_selected_ip : Bytes
label_selected_ip = macvlan_annotation_prefix ++ codes "selectedIp"

abbrev pub label_multiple_ip_hash : Bytes
label_multiple_ip_hash = macvlan_annotation_prefix ++ codes "multipleIpHash"

pub record OwnerReference : Type 0 where
  pub api_version : Bytes
  pub kind : Bytes
  pub uid : Bytes
  pub name : Bytes
  pub controller : Option Bool

pub record ObjectMeta : Type 0 where
  pub name : Bytes
  pub namespace : Bytes
  pub uid : Bytes
  pub labels : Option (Dict Bytes)
  pub annotations : Option (Dict Bytes)
  pub owner_references : List OwnerReference

pub record MacvlanIpSpec : Type 0 where
  pub subnet : Bytes
  pub pod_id : Bytes
  pub cidr : Bytes
  pub mac : Bytes

pub record MacvlanIp : Type 0 where
  pub meta : ObjectMeta
  pub spec : MacvlanIpSpec

pub record IpRange : Type 0 where
  pub range_start : Bytes
  pub range_end : Bytes

pub record MacvlanSubnetSpec : Type 0 where
  pub master : Bytes
  pub vlan : ℤ
  pub cidr : Bytes
  pub mode : Bytes
  pub gateway : Bytes
  pub ranges : List IpRange

pub record MacvlanSubnet : Type 0 where
  pub meta : ObjectMeta
  pub spec : MacvlanSubnetSpec

-- k8s.io/api: of a pod and a namespace the program reads the metadata alone.
pub record Pod : Type 0 where
  pub meta : ObjectMeta

pub record Namespace : Type 0 where
  pub meta : ObjectMeta

-- `intstr.IntOrString`
pub data IntOrString : Type 0 where
  int_val : ℤ → IntOrString
  str_val : Bytes → IntOrString

pub record ServicePort : Type 0 where
  pub name : Bytes
  pub protocol : Bytes
  pub port : ℤ
  pub target_port : IntOrString
  pub node_port : ℤ

-- The fields of a service's specification that the program copies without reading them are `rest`.
pub record Service : Type 0 where
  pub meta : ObjectMeta
  pub ports : List ServicePort
  pub rest : Dict Bytes

-- A deployment, daemon set or stateful set, as the dynamic client returns it.
pub record Workload : Type 0 where
  pub name : Bytes
  pub kind : Bytes
  pub uid : Bytes

-- The network attachment definition that `makeNetworkAttachmentDefinition` builds.
pub record Attachment : Type 0 where
  pub kind : Bytes
  pub api_version : Bytes
  pub name : Bytes
  pub namespace : Bytes
  pub config : Bytes

-- What an informer hands to a handler.
pub data Object : Type 0 where
  a_pod : Pod → Object
  a_subnet : MacvlanSubnet → Object
  a_namespace : Namespace → Object
  another : Object

-- What stands on the work queue.
pub data WorkItem : Type 0 where
  key : Bytes → WorkItem
  alien : WorkItem
