-- ===== src/Controller/Allocation/Auto.antt =====
-- Mode `auto`: the lowest host of the subnet that is not in use.
use network_controller.Common.{
  ◌≡◌, ◌↔◌, refl, ap, ◌⊎◌, inl, inr, List, [], ◌∷◌, Option, none, some, In, Ordering, Bool-cases,
}
use network_controller.Go.Text.{Bytes, compare_bytes}
use network_controller.Go.Result.{Result, ok, err, Error, plain}
use network_controller.Go.Sort.{Ascending, All-In}
use network_controller.Go.Net.{Ip}
use network_controller.Types.{Pod, MacvlanIp, MacvlanSubnet}
use network_controller.Cluster.{Cluster}
use network_controller.Ipcalc.{remove_used_hosts}
use network_controller.Ipcalc.Sets.{In-remove_used_hosts, remove_used_hosts-Ascending}
use network_controller.Controller.Hosts.{calc_subnet_hosts, convert_ip_to_cidr, is_in_hosts}
use network_controller.Controller.Hosts.Used.{is_in_hosts_iff}
use network_controller.Controller.Ipalloc.{
  no_enough_ip, subnet_selector, used_list, pick_first, allocate_auto_ip,
}

-- The lowest of the hosts that are not used, or none where all are used.
pub data Lowest (hosts used : List Ip) : Option Ip → Type 0 where
  all_used : ((ip : Ip) → In ip hosts → In ip used) → Lowest hosts used none
  lowest :
      (ip : Ip)
      → In ip hosts
      → ¬ In ip used
      → ((h : Ip) → In h hosts → ¬ In h used → (h ≡ ip) ⊎ (compare_bytes ip h ≡ Ordering.lt))
      → Lowest hosts used (some ip)

-- The result that belongs to a choice.
abbrev pub auto_result : MacvlanSubnet → Option Ip → Result (Ip × Bytes)
auto_result subnet none = err (plain (no_enough_ip subnet.meta.name))
auto_result subnet (some ip) = ok (ip, convert_ip_to_cidr ip subnet.spec.cidr)

head_of : List Ip → Option Ip
head_of [] = none
head_of (ip ∷ ips) = some ip

In-decided : (ip : Ip) (used : List Ip) → (¬ In ip used → ⊥) → In ip used
In-decided ip used h = elim (Bool-cases (is_in_hosts used ip)) [
  | inl e ↦ (is_in_hosts_iff used ip).0 e
  | inr e ↦ absurd (h (λ i. cc ((is_in_hosts_iff used ip).1 i)))
]

pick_first-head :
    (ips : List Ip) (subnet : MacvlanSubnet)
    → pick_first ips subnet ≡ auto_result subnet (head_of ips)
unfolding pick_first head_of
pick_first-head [] subnet = refl
pick_first-head (ip ∷ ips) subnet = refl

head-Lowest :
    (hosts used usable : List Ip)
    → Ascending usable
    → ((ip : Ip) → In ip usable ↔ (In ip hosts × ¬ In ip used))
    → Lowest hosts used (head_of usable)
unfolding head_of
head-Lowest hosts used [] a same =
    all_used (λ ip i. In-decided ip used (λ n. elim ((same ip).1 (i, n)) [ ]))
head-Lowest hosts used (x ∷ xs) a same =
    let (x_in, x_free) = (same x).0 (inl refl) in
    lowest x x_in x_free
      (λ h i n. elim ((same h).1 (i, n)) [ inl e ↦ inl e | inr j ↦ inr (All-In x h xs a.0 j) ])

module _ (c : Cluster) (pod : Pod) (subnet : MacvlanSubnet) (w w' : c.World) where
  -- When the API server lists the macvlanips of the subnet and its hosts can be computed,
  -- `allocateAutoIP` returns the lowest host that is neither the gateway nor the address of a
  -- listed macvlanip, with its text, or the error that no address is left, if every host is taken.
  -- It makes no other call.
  pub allocate_auto_ip-Lowest :
      (items : List MacvlanIp) (hosts : List Ip)
      → c.list_macvlan_ips [] (subnet_selector subnet) w ≡ (ok items, w')
      → calc_subnet_hosts subnet ≡ ok hosts
      → (o : Option Ip) × Lowest hosts (used_list items subnet) o
        × (allocate_auto_ip c pod subnet w ≡ (auto_result subnet o, w'))
  unfolding allocate_auto_ip
  allocate_auto_ip-Lowest items hosts listing calc = (
    head_of (remove_used_hosts hosts (used_list items subnet)),
    head-Lowest hosts _ _ (remove_used_hosts-Ascending hosts _) (In-remove_used_hosts hosts _),
    rw (listing, calc, allocate_auto_ip)
        (ap (λ r. (r, w'))
          (pick_first-head (remove_used_hosts hosts (used_list items subnet)) subnet)),
  )

  -- When the API server fails to list the macvlanips, the error is lost and the choice is made as
  -- if none had been allocated: the lowest host that is not the gateway.
  pub allocate_auto_ip-list_error :
      (e : Error) (hosts : List Ip)
      → c.list_macvlan_ips [] (subnet_selector subnet) w ≡ (err e, w')
      → calc_subnet_hosts subnet ≡ ok hosts
      → (o : Option Ip) × Lowest hosts (used_list [] subnet) o
        × (allocate_auto_ip c pod subnet w ≡ (auto_result subnet o, w'))
  unfolding allocate_auto_ip
  allocate_auto_ip-list_error e hosts listing calc = (
    head_of (remove_used_hosts hosts (used_list [] subnet)),
    head-Lowest hosts _ _ (remove_used_hosts-Ascending hosts _) (In-remove_used_hosts hosts _),
    rw (listing, calc, allocate_auto_ip)
        (ap (λ r. (r, w'))
          (pick_first-head (remove_used_hosts hosts (used_list [] subnet)) subnet)),
  )
