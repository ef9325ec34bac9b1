-- ===== src/Controller/Wiring.antt =====
-- controller/controller.go: the fields of a controller that stand for macvlanips and subnets, filled in
-- by the generated clients and by the generated lister. The other fields are those of a cluster.
use network_controller.Common.{false, List, [], Option, none}
use network_controller.Go.Text.{Bytes}
use network_controller.Go.Result.{Error}
use network_controller.Go.Exec.{Exec}
use network_controller.Types.{MacvlanIp, MacvlanSubnet}
use network_controller.Cluster.{Cluster}
use network_controller.Client.{ListOptions, Rest, macvlan_ips, macvlan_subnets}
use network_controller.Scheme.{GroupName}
use network_controller.Lister.{Indexer, macvlan_ip_lister}

-- What `NewController` is given for the group: the REST client of the clientset, which serves both
-- resources, and the informer of macvlanips, whose index is part of the world; and the zero values of
-- the options, and `labels.Everything()`.
pub record Clients (W G D S : Type 0) : Type 1 where
  pub rest_ips : Rest W MacvlanIp G D
  pub rest_subnets : Rest W MacvlanSubnet G D
  pub get_indexer : W → Indexer MacvlanIp S
  pub not_found : GroupName → Bytes → Bytes
  pub get_options : G
  pub delete_options : D
  pub everything : S

-- `metav1.ListOptions{LabelSelector: selector}`
unfoldable pub list_options : Bytes → ListOptions
list_options selector = record {
  label_selector = selector;
  timeout_seconds = none;
  watch = false;
  others = [];
}

module _ (c : Cluster) {G D S : Type 0} (clients : Clients c.World G D S) where
  -- `p.macvlanipLister.MacvlanIPs("").List(labels.Everything())`, over the index as it is
  unfoldable pub list_cached : Exec c.World (List MacvlanIp × Option Error)
  list_cached w =
      let lister = macvlan_ip_lister clients.not_found (clients.get_indexer w) in
      ((lister.namespaced []).list clients.everything, w)

  -- The cluster that the controller works on.
  abbrev pub wired : Cluster
  wired = record c {
    get_subnet = λ ns name. (macvlan_subnets clients.rest_subnets ns).get name clients.get_options;
    update_subnet = λ ns subnet. (macvlan_subnets clients.rest_subnets ns).update subnet;
    list_macvlan_ips =
        λ ns selector. (macvlan_ips clients.rest_ips ns).list (list_options selector);
    create_macvlan_ip = λ ns item. (macvlan_ips clients.rest_ips ns).create item;
    delete_macvlan_ip =
        λ ns name. (macvlan_ips clients.rest_ips ns).delete name clients.delete_options;
    lister_macvlan_ips = list_cached;
  }
