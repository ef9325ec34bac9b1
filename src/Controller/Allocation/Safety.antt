-- ===== src/Controller/Allocation/Safety.antt =====
-- No mode gives away the gateway's address, or an address that a listed macvlanip has.
use network_controller.Common.{◌≡◌, ◌≢◌, refl, ◌⊎◌, inl, inr, List, [], ◌∷◌, ◌++◌, In, In-append}
use network_controller.Go.Text.{Bytes, codes}
use network_controller.Go.Result.{ok, err, Error}
use network_controller.Go.Exec.{lift}
use network_controller.Go.Exec.Laws.{>>=-eq-ok, ignoring-eq-ok}
use network_controller.Go.Net.{Ip, parse_ip}
use network_controller.Go.Net.Laws.{IsIpv4}
use network_controller.Types.{Pod, MacvlanIp, MacvlanSubnet, label_multiple_ip_hash}
use network_controller.Cluster.{Cluster}
use network_controller.Controller.Hosts.{convert_ip_to_cidr, dashed, convert_to_ip_list}
use network_controller.Controller.Hosts.Used.{HasOneSlash, In-convert_to_ip_list}
use network_controller.Controller.Allocation.Results.{
  In-used_list, IsFreeHost, auto-result, single-result, select_ip-result,
}
use network_controller.Controller.Ipalloc.{
  subnet_selector, used_list, listed, allocate_auto_ip, allocate_single_ip, allocate_multiple_ip,
  macs_of, ip_hash,
}

module _ (c : Cluster) (subnet : MacvlanSubnet) where
  -- The address is free by a list that the API server gave, or by the empty one beside an error.
  abbrev pub IsFree : Ip → Type 0
  IsFree ip =
      (items : List MacvlanIp) × (v : c.World) × (((c.list_macvlan_ips [] (subnet_selector subnet)
            v).0
          ≡ ok items)
        ⊎ ((e : Error) × ((c.list_macvlan_ips [] (subnet_selector subnet) v).0 ≡ err e)))
      × (¬ In ip (used_list items subnet))

  listed-result :
      (w : c.World) (items : List MacvlanIp)
      → (listed c subnet w).0 ≡ ok items
      → ((c.list_macvlan_ips [] (subnet_selector subnet) w).0 ≡ ok items)
        ⊎ ((e : Error) × ((c.list_macvlan_ips [] (subnet_selector subnet) w).0 ≡ err e))
  unfolding listed
  listed-result w items h =
      elim (ignoring-eq-ok [] (c.list_macvlan_ips [] (subnet_selector subnet)) w h) [
        | inl e ↦ inl e
        | inr (e, q, _) ↦ inr (e, q)
      ]

  freed :
      (w : c.World) (items : List MacvlanIp) (ip : Ip)
      → (listed c subnet w).0 ≡ ok items
      → IsFreeHost subnet items ip
      → IsFree ip
  freed w items ip listing (hosts, calc, host, free) =
      (items, w, listed-result w items listing, free)

  multiple-IsFree :
      (pod : Pod) (annotation macs : Bytes) (w : c.World) (ip : Ip) (cidr mac : Bytes)
      → (allocate_multiple_ip c pod subnet annotation macs w).0 ≡ ok (ip, cidr, mac)
      → IsFree ip
  unfolding allocate_multiple_ip
  multiple-IsFree pod annotation macs w ip cidr mac h =
      let (ms, _, h1) = >>=-eq-ok (lift (macs_of (dashed annotation) annotation macs)) _ w h in
      let (pods, _, h2) =
        >>=-eq-ok
          (c.list_pods pod.meta.namespace
            (label_multiple_ip_hash ++ codes "=" ++ ip_hash annotation))
          _ _ h1 in
      let (items, listing, free, _, _) =
        select_ip-result c subnet _ _ annotation (dashed annotation) _ ip cidr mac h2 in
      freed _ items ip listing free

  -- A call of one of the three functions that returned this address, in any state of the cluster.
  pub data Allocates (ip : Ip) : Type 0 where
    auto :
        (pod : Pod) (w : c.World) (cidr : Bytes)
        → (allocate_auto_ip c pod subnet w).0 ≡ ok (ip, cidr)
        → Allocates ip
    single :
        (pod : Pod) (text : Bytes) (w : c.World) (cidr : Bytes)
        → (allocate_single_ip c pod subnet text w).0 ≡ ok (ip, cidr)
        → Allocates ip
    multiple :
        (pod : Pod) (annotation macs : Bytes) (w : c.World) (cidr mac : Bytes)
        → (allocate_multiple_ip c pod subnet annotation macs w).0 ≡ ok (ip, cidr, mac)
        → Allocates ip

  allocated-IsFree : (ip : Ip) → Allocates ip → IsFree ip
  allocated-IsFree ip (auto pod w cidr h) =
      let (items, listing, free, _) = auto-result c subnet pod w ip cidr h in
      freed w items ip listing free
  allocated-IsFree ip (single pod text w cidr h) =
      let (items, listing, free, _) = single-result c subnet pod text w ip cidr h in
      freed w items ip listing free
  allocated-IsFree ip (multiple pod annotation macs w cidr mac h) =
      multiple-IsFree pod annotation macs w ip cidr mac h

  In-gateway : (items : List MacvlanIp) → In (parse_ip subnet.spec.gateway) (used_list items subnet)
  unfolding used_list
  In-gateway items =
      (In-append _ (convert_to_ip_list items) (parse_ip subnet.spec.gateway ∷ [])).1
        (inr (inl refl))

  -- The gateway of a subnet is never allocated in it: not in any of the three modes, and whatever
  -- the API server answers.
  pub gateway_not_allocated : (ip : Ip) → Allocates ip → ip ≢ parse_ip subnet.spec.gateway
  gateway_not_allocated ip taken e =
      let (items, v, _, free) = allocated-IsFree ip taken in free (rw e (In-gateway items))

  -- An IPv4 address is not allocated twice: while every list that the API server gives of the
  -- subnet's macvlanips holds one with the text that the allocation of this address wrote, none of
  -- the three functions returns the address. The network of the subnet is a text with one slash.
  pub no_double_allocation :
      (ip : Ip) (item : MacvlanIp)
      → IsIpv4 ip
      → HasOneSlash subnet.spec.cidr
      → item.spec.cidr ≡ convert_ip_to_cidr ip subnet.spec.cidr
      → ((v : c.World)
          → (items : List MacvlanIp) × ((c.list_macvlan_ips [] (subnet_selector subnet) v).0
              ≡ ok items)
            × In item items)
      → ¬ Allocates ip
  no_double_allocation ip item is4 slash text lists taken =
      let (items, v, answer, free) = allocated-IsFree ip taken in
      let (there, listing, i) = lists v in
      elim answer [
        | inl h ↦
            let same : there ≡ items = cc in
            free (
              In-used_list items subnet ip (
                In-convert_to_ip_list items item ip subnet.spec.cidr is4 slash text (rw same at i)))
        | inr (e, h) ↦ cc
      ]
