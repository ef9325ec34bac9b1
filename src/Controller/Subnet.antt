-- ===== src/Controller/Subnet.antt =====
-- controller/macvlansubnet.go: the labels and the default gateway of a new subnet.
use network_controller.Common.{some, if◌then◌else◌, is_empty}
use network_controller.Go.Text.{Bytes, codes}
use network_controller.Go.Int.{sprint}
use network_controller.Go.Result.{Result, ok}
use network_controller.Go.Exec.{Exec, pure, ignoring, ◌>>◌}
use network_controller.Go.Map.{Dict, put, made}
use network_controller.Go.Net.{Ip, nil_ip, ip_string}
use network_controller.Types.{
  MacvlanSubnet, MacvlanSubnetSpec, Object, a_subnet, a_pod, a_namespace, another,
}
use network_controller.Cluster.{Cluster}
use network_controller.Ipcalc.{calc_default_gateway}

-- The three labels, in the order in which the code writes them.
unfoldable pub subnet_labels : Dict Bytes → MacvlanSubnetSpec → Dict Bytes
subnet_labels m spec =
    put (put (put m (codes "master") spec.master) (codes "vlan") (sprint spec.vlan)) (codes "mode")
      spec.mode

-- `gateway`, which is nil beside an error
unfoldable pub gateway_of : Result Ip → Ip
gateway_of (ok ip) = ip
gateway_of _ = nil_ip

-- The subnet that the handler sends to the API server.
unfoldable pub completed : MacvlanSubnet → MacvlanSubnet
unfolding subnet_labels gateway_of
completed subnet = record subnet {
  meta = record (subnet.meta) {
    labels = some (subnet_labels (made subnet.meta.labels) subnet.spec);
  };
  spec = record (subnet.spec) {
    gateway =
        if is_empty subnet.spec.gateway
        then ip_string (gateway_of (calc_default_gateway subnet.spec.cidr))
        else subnet.spec.gateway;
  };
}

module _ (c : Cluster) where
  open c use {World, update_subnet}

  -- The type assertion on the informer's object, and the update, whose error is only logged.
  unfoldable pub on_macvlan_subnet_add : Object → Exec World (Unit {0})
  on_macvlan_subnet_add (a_subnet subnet) =
      ignoring tt (do update_subnet (codes "kube-system") (completed subnet); pure tt)
  on_macvlan_subnet_add (a_pod pod) = pure tt
  on_macvlan_subnet_add (a_namespace ns) = pure tt
  on_macvlan_subnet_add another = pure tt
