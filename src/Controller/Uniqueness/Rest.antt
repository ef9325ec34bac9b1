-- ===== src/Controller/Uniqueness/Rest.antt =====
-- The store of macvlanips behind the generated clients: what it means for the requests, by their verbs.
use network_controller.Common.{◌≡◌, refl, ◌++◌, List, [], none, false}
use network_controller.Go.Text.{Bytes, codes}
use network_controller.Go.Result.{ok}
use network_controller.Types.{MacvlanIp, MacvlanSubnet}
use network_controller.Cluster.{Cluster}
use network_controller.Client.{
  Verb, Request, ListOptions, object, list_params, macvlan_ips, macvlan_subnets, typed_client,
  client_get, client_list, client_create, client_update, client_delete,
}
use network_controller.Controller.Wiring.{Clients, wired, list_cached, list_options}
use network_controller.Controller.Uniqueness.Lists.{Sublist-refl}
use network_controller.Controller.Uniqueness.Hosts.{IsIpv4Network}
use network_controller.Controller.Uniqueness.Server.{IsStore, OthersLose, Loses, Lists, Created}

-- The request asks for the macvlanips of all namespaces that the selector selects.
pub record AsksFor {G D : Type 0} (selector : Bytes) (q : Request MacvlanIp G D) : Type 0 where
  pub verb : q.verb ≡ Verb.get
  pub resource : q.resource ≡ codes "macvlanips"
  pub namespace : q.namespace ≡ []
  pub name : q.name ≡ none
  pub options :
      (o : ListOptions) × (q.params ≡ list_params o)
      × (o.label_selector ≡ selector)
      × (o.watch ≡ false)

module _ (c : Cluster) {G D S : Type 0} (clients : Clients c.World G D S)
    (ips : c.World → Bytes → List MacvlanIp) where
  -- The server adds a macvlanip for a POST of it alone, and answers a GET with at least the selected
  -- ones that are left. The subnets that it returns have IPv4 networks.
  pub record IsRestStore : Type 0 where
    pub lists :
        (subnet : Bytes) (q : Request MacvlanIp G D) (w : c.World)
        → AsksFor (codes "subnet=" ++ subnet) q
        → Lists (λ v. ips v subnet) (clients.rest_ips.into_list q) w
    pub creates :
        (q : Request MacvlanIp G D) (item : MacvlanIp) (w : c.World) (subnet : Bytes)
        → q.verb ≡ Verb.post
        → q.body ≡ object item
        → Created item subnet (ips w subnet) (ips (clients.rest_ips.into_object q w).1 subnet)
    pub gets_lose :
        (q : Request MacvlanIp G D) → q.verb ≡ Verb.get → Loses ips (clients.rest_ips.into_list q)
    pub deletes_lose :
        (q : Request MacvlanIp G D) → q.verb ≡ Verb.delete → Loses ips (clients.rest_ips.send q)
    pub subnets_lose :
        (q : Request MacvlanSubnet G D) → Loses ips (clients.rest_subnets.into_object q)
    pub networks :
        (q : Request MacvlanSubnet G D) (w : c.World) (subnet : MacvlanSubnet)
        → q.verb ≡ Verb.get
        → q.resource ≡ codes "macvlansubnets"
        → (clients.rest_subnets.into_object q w).0 ≡ ok subnet
        → IsIpv4Network subnet.spec.cidr

  wired-OthersLose : OthersLose c ips → OthersLose (wired c clients) ips
  wired-OthersLose others = record {
    get_pod_loses = others.get_pod_loses;
    list_pods_loses = others.list_pods_loses;
    update_pod_loses = others.update_pod_loses;
    get_service_loses = others.get_service_loses;
    create_service_loses = others.create_service_loses;
    get_replica_set_loses = others.get_replica_set_loses;
    get_workload_loses = others.get_workload_loses;
    lister_pod_loses = others.lister_pod_loses;
    event_loses = others.event_loses;
    queue_get_loses = others.queue_get_loses;
    rate_limited_loses = others.rate_limited_loses;
    forget_loses = others.forget_loses;
    done_loses = others.done_loses;
    add_loses = others.add_loses;
    create_attachment_loses = others.create_attachment_loses;
    delete_attachment_loses = others.delete_attachment_loses;
    retry_loses = others.retry_loses;
  }

  -- Let the server add a macvlanip for a POST of it alone, and answer a GET of the macvlanips of all
  -- namespaces with a subnet's label by at least those that are left; let it return no subnets but
  -- those with IPv4 networks, and let the other calls add no macvlanips. Then the controller whose
  -- calls go through the generated clients and whose purge reads the generated lister has the store
  -- on which addresses stay apart.
  pub wired-IsStore : IsRestStore → OthersLose c ips → IsStore (wired c clients) ips
  unfolding list_cached list_options macvlan_ips macvlan_subnets typed_client client_get client_list
      client_create client_update client_delete
  wired-IsStore server others = record {
    lists = λ subnet w. server.lists subnet.meta.name _ w (record {
      verb = refl;
      resource = refl;
      namespace = refl;
      name = refl;
      options = (_, refl, refl, refl);
    });
    creates = λ ns item w subnet. server.creates _ item w subnet refl refl;
    networks = λ ns name w subnet e. server.networks _ w subnet refl refl e;
    delete_loses = λ ns name. server.deletes_lose _ refl;
    list_loses = λ ns selector. server.gets_lose _ refl;
    get_subnet_loses = λ ns name. server.subnets_lose _;
    lister_loses = record { within = λ w subnet. Sublist-refl _ };
    update_subnet_loses = λ ns subnet. server.subnets_lose _;
    others = wired-OthersLose others;
  }
