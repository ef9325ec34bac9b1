-- ===== src/Controller/Effects/Labels.antt =====
-- controller/macvlanip.go: what is written for a pod in mode auto, into its labels and into its macvlanip.
use network_controller.Go.Sha1.{sha1_sum}
use network_controller.Go.Text.Laws.{beq_refl}
use network_controller.Common.{
  ◌≡◌, ◌≢◌, refl, subst, ap, sym, ◌∙◌, true, List, [], Option, none, some, In, if◌then◌else◌, ◌∷◌,
}
use network_controller.Go.Text.{Bytes, codes, beq, hex}
use network_controller.Go.Result.{Result, ok, err, Reason, status}
use network_controller.Go.Exec.{ignoring, Exec, pure, ◌>>=◌, continue}
use network_controller.Go.Map.{get, made, get-put}
use network_controller.Go.Net.{Ip, ip_string}
use network_controller.Go.Net.Laws.{IsIpv4}
use network_controller.Types.{
  Pod, MacvlanIp, MacvlanSubnet, macvlan_subnet_namespace, annotation_ip, annotation_subnet,
}
use network_controller.Cluster.{Cluster}
use network_controller.Controller.Hosts.{calc_subnet_hosts, convert_ip_to_cidr}
use network_controller.Controller.Hosts.Used.{HasOneSlash, In-convert_to_ip_list}
use network_controller.Controller.Service.{sync_service}
use network_controller.Controller.Ipalloc.{subnet_selector, used_list, allocate_auto_ip}
use network_controller.Controller.Macvlanip.{
  annotation, make_macvlan_ip, update_labels, do_add_macvlan_ip, labelled,
}
use network_controller.Controller.Allocation.Auto.{
  Lowest, lowest, all_used, auto_result, allocate_auto_ip-Lowest,
}
use network_controller.Controller.Allocation.Results.{In-used_list}
use network_controller.Controller.Effects.Addresses.{
  outcome, bare, completion, registered, do_add_macvlan_ip-auto,
}

Lowest-unused : {hosts used : List Ip} {ip : Ip} → Lowest hosts used (some ip) → ¬ In ip used
Lowest-unused (lowest ip i n first) = n

-- The pod that is sent: its labels say which address was asked for, by the hash of the annotation, and
-- which one was chosen; every other label and the rest of the pod are as they were.
pub record IsLabelled (before : Pod) (text : Bytes) (ip : Ip) (sent : Pod) : Type 0 where
  pub labels :
      (k : Bytes)
      → get (made sent.meta.labels) k ≡ (
          if beq (codes "macvlan.pandaria.cattle.io/selectedIp") k
          then some (ip_string ip)
          else if beq (codes "macvlan.pandaria.cattle.io/multipleIpHash") k
          then some (hex (sha1_sum text))
          else get (made before.meta.labels) k)
  pub others : record sent { meta = record (sent.meta) { labels = before.meta.labels } } ≡ before

-- The macvlanip that is created for a pod: of the pod's name, in its namespace, owned by it, with the
-- label of the subnet, and with the text and the MAC that were chosen.
pub record IsMacvlanIpOf (pod : Pod) (subnet : MacvlanSubnet) (cidr mac : Bytes) (item : MacvlanIp)
    : Type 0 where
  pub name : item.meta.name ≡ pod.meta.name
  pub namespace : item.meta.namespace ≡ pod.meta.namespace
  pub label : get (made item.meta.labels) (codes "subnet") ≡ some subnet.meta.name
  pub owner :
      item.meta.owner_references
      ≡ record {
        api_version = codes "v1";
        kind = codes "Pod";
        uid = pod.meta.uid;
        name = pod.meta.name;
        controller = some true;
      }
        ∷ []
  pub spec :
      item.spec
      ≡ record { subnet = subnet.meta.name; pod_id = pod.meta.uid; cidr = cidr; mac = mac }

labelled-IsLabelled :
    (before : Pod) (text : Bytes) (ip : Ip) → IsLabelled before text ip (labelled before text ip)
unfolding labelled
labelled-IsLabelled before text ip = record {
  labels = λ k. rw (get-put, get-put) refl;
  others = refl;
}

make_macvlan_ip-IsMacvlanIpOf :
    (pod : Pod) (subnet : MacvlanSubnet) (cidr mac : Bytes)
    → IsMacvlanIpOf pod subnet cidr mac (make_macvlan_ip pod subnet cidr mac)
unfolding make_macvlan_ip get
make_macvlan_ip-IsMacvlanIpOf pod subnet cidr mac = record {
  name = refl;
  namespace = refl;
  label = rw beq_refl refl;
  owner = refl;
  spec = refl;
}

-- The retry runs a function that returns no error once, and hands on its world.
pub record RunsOnce (c : Cluster) : Type 0 where
  pub once :
      (f : Exec c.World (Unit {0})) (w v : c.World)
      → f w ≡ (ok tt, v)
      → c.retry_on_conflict f w ≡ (ok tt, v)

module _ (c : Cluster) (pod latest : Pod) (v v1 : c.World)
    (shown : c.get_pod pod.meta.namespace pod.meta.name v ≡ (ok latest, v1))
    (accepts : (p : Pod) → (q : Pod) × ((c.update_pod latest.meta.namespace p v1).0 ≡ ok q)) where
  -- The world behind the update of the pod.
  abbrev pub updated : Pod → c.World
  updated sent = (c.update_pod latest.meta.namespace sent v1).1

  accepted :
      (sent : Pod)
      → (c.update_pod latest.meta.namespace sent >>= λ _. pure tt) v1 ≡ (ok tt, updated sent)
  accepted sent =
      let (q, e) = accepts sent in
      ap (λ (r : Result Pod). continue r (λ _. pure tt) (updated sent)) e

  update_labels-sent :
      (text : Bytes) (ip : Ip)
      → update_labels c pod text ip v ≡ (ok tt, updated (labelled latest text ip))
  unfolding update_labels
  update_labels-sent text ip = rw shown (accepted (labelled latest text ip))

  module _ (runs : RunsOnce c) (subnet : MacvlanSubnet) (name : Bytes) (w u : c.World)
      (names : annotation pod annotation_subnet ≡ some name)
      (asks : annotation pod annotation_ip ≡ some (codes "auto"))
      (found : c.get_subnet macvlan_subnet_namespace name w ≡ (ok subnet, u))
      (items : List MacvlanIp) (hosts : List Ip)
      (listing : c.list_macvlan_ips [] (subnet_selector subnet) u ≡ (ok items, v))
      (calc : calc_subnet_hosts subnet ≡ ok hosts) where
    -- The macvlanip for an address.
    item_for : Ip → MacvlanIp
    item_for ip = make_macvlan_ip pod subnet (convert_ip_to_cidr ip subnet.spec.cidr) []

    chosen-registered :
        (free : Ip)
        → In free hosts
        → ¬ In free (used_list items subnet)
        → (o : Option Ip) → Lowest hosts (used_list items subnet) o
        → allocate_auto_ip c pod subnet u ≡ (auto_result subnet o, v)
        → (ip : Ip) × Lowest hosts (used_list items subnet) (some ip)
          × (do_add_macvlan_ip c pod w ≡ (
              let (answer, z) =
                c.create_macvlan_ip pod.meta.namespace
                  (item_for ip)
                  (updated (labelled latest (codes "auto") ip)) in
              registered c pod answer z))
    unfolding outcome bare completion item_for
    chosen-registered free i n none (all_used all) result = absurd (n (all free i))
    chosen-registered free i n (some ip) choice result = (
      ip,
      choice,
      do_add_macvlan_ip-auto c pod subnet name w u asks names found
          ∙ rw
              (
                result,
                runs.once (update_labels c pod (codes "auto") ip) v _
                    (update_labels-sent (codes "auto") ip),
              )
              refl,
    )

    -- A pod in mode auto, in a subnet that exists: let the macvlanips be listed, the hosts be computed
    -- and one of them be neither the gateway nor in use; let the pod be found again and its update be
    -- accepted, at once. Then the lowest such host is written into the pod's labels, with the hash of
    -- the annotation and nothing else of the pod changed; after that a macvlanip of the pod with the
    -- text of this host is created, and the handler ends as the answer to the creation says.
    pub do_add_macvlan_ip-Lowest :
        (free : Ip)
        → In free hosts
        → ¬ In free (used_list items subnet)
        → (ip : Ip) × (sent : Pod) × (item : MacvlanIp) × Lowest hosts
            (used_list items subnet)
            (some ip)
          × IsLabelled latest (codes "auto") ip sent
          × IsMacvlanIpOf pod subnet (convert_ip_to_cidr ip subnet.spec.cidr) [] item
          × (do_add_macvlan_ip c pod w ≡ (
              let (answer, z) = c.create_macvlan_ip pod.meta.namespace item (updated sent) in
              registered c pod answer z))
    unfolding item_for
    do_add_macvlan_ip-Lowest free i n =
        let (o, choice, result) =
          allocate_auto_ip-Lowest c pod subnet u v items hosts listing calc in
        let (ip, lowest_ip, ended) = chosen-registered free i n o choice result in
        (
          ip,
          labelled latest (codes "auto") ip,
          item_for ip,
          lowest_ip,
          labelled-IsLabelled latest (codes "auto") ip,
          make_macvlan_ip-IsMacvlanIpOf pod subnet _ [],
          ended,
        )

    -- Let one of the listed macvlanips, as that of the pod itself is when the handler sees the pod
    -- again, have the text of an IPv4 address in the subnet's network, and let each creation under the
    -- pod's name be answered by the error that there is such a macvlanip already. Under the same
    -- conditions the handler writes another address than that one into the pod's labels, and goes on to
    -- the services, whose errors it passes over.
    pub do_add_macvlan_ip-relabels :
        (free : Ip) (listed : MacvlanIp) (old : Ip) (m : Bytes)
        → In free hosts
        → ¬ In free (used_list items subnet)
        → In listed items
        → IsIpv4 old
        → HasOneSlash subnet.spec.cidr
        → listed.spec.cidr ≡ convert_ip_to_cidr old subnet.spec.cidr
        → ((new : MacvlanIp) (z : c.World)
            → new.meta.name ≡ pod.meta.name
            → (c.create_macvlan_ip pod.meta.namespace new z).0
              ≡ err (status Reason.already_exists m))
        → (ip : Ip) × (sent : Pod) × (item : MacvlanIp) × (ip ≢ old)
          × IsLabelled latest (codes "auto") ip sent
          × (do_add_macvlan_ip c pod w
              ≡ ignoring tt
                  (sync_service c pod.meta.name pod.meta.namespace)
                  (c.create_macvlan_ip pod.meta.namespace item (updated sent)).1)
    unfolding registered
    do_add_macvlan_ip-relabels free listed old m i n there is4 slash text exists =
        let (ip, sent, item, lowest_ip, labels, is_item, ended) =
          do_add_macvlan_ip-Lowest free i n in
        let in_use =
          In-used_list items subnet old
            (In-convert_to_ip_list items listed old subnet.spec.cidr is4 slash text there) in
        (
          ip,
          sent,
          item,
          λ same.
              Lowest-unused lowest_ip
                (subst (λ x. In x (used_list items subnet)) (sym same) in_use),
          labels,
          ended ∙ rw (exists item (updated sent) is_item.name) refl,
        )
