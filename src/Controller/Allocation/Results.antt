-- ===== src/Controller/Allocation/Results.antt =====
-- What an address that one of the three modes returned is known to be.
use network_controller.Common.{
  ◌≡◌, refl, ap, sym, ◌∙◌, ◌⊎◌, inl, inr, Bool, true, false, List, [], ◌∷◌, In, In-append,
  Bool-cases,
}
use network_controller.Go.Text.{Bytes}
use network_controller.Go.Result.{Result, ok, err, panics, hangs}
use network_controller.Go.Exec.{lift, pure, catch, ◌>>◌}
use network_controller.Go.Exec.Laws.{>>=-eq-ok}
use network_controller.Go.Map.{Dict, get, value_or}
use network_controller.Go.Net.{Ip, parse_ip}
use network_controller.Types.{Pod, MacvlanIp, MacvlanSubnet}
use network_controller.Cluster.{Cluster}
use network_controller.Ipcalc.Sets.{In-remove_used_hosts}
use network_controller.Controller.Hosts.{
  convert_to_ip_list, calc_subnet_hosts, convert_ip_to_cidr, check_ip_validation,
}
use network_controller.Controller.Hosts.Used.{check_ip_validation_iff}
use network_controller.Controller.Ipalloc.{
  used_list, pick_first, listed, checked, allocate_auto_ip, allocate_single_ip, select_ip,
  event_macvlan_subnet_error,
}

-- The address is a host of the subnet, and neither its gateway nor the address of one of the items.
abbrev pub IsFreeHost : MacvlanSubnet → List MacvlanIp → Ip → Type 0
IsFreeHost subnet items ip =
    (hosts : List Ip) × (calc_subnet_hosts subnet ≡ ok hosts)
    × In ip hosts
    × (¬ In ip (used_list items subnet))

-- The address of a listed macvlanip is in use.
pub In-used_list :
    (items : List MacvlanIp) (subnet : MacvlanSubnet) (ip : Ip)
    → In ip (convert_to_ip_list items)
    → In ip (used_list items subnet)
unfolding used_list
In-used_list items subnet ip i =
    (In-append ip (convert_to_ip_list items) (parse_ip subnet.spec.gateway ∷ [])).1 (inl i)

pick_first-result :
    (ips : List Ip) (subnet : MacvlanSubnet) (ip : Ip) (cidr : Bytes)
    → pick_first ips subnet ≡ ok (ip, cidr)
    → In ip ips × (cidr ≡ convert_ip_to_cidr ip subnet.spec.cidr)
unfolding pick_first
pick_first-result [] subnet ip cidr h = cc
pick_first-result (x ∷ xs) subnet ip cidr h =
    let same : x ≡ ip = cc in
    let text : convert_ip_to_cidr x subnet.spec.cidr ≡ cidr = cc in
    (inl (sym same), sym text ∙ ap (λ y. convert_ip_to_cidr y subnet.spec.cidr) same)

module _ (c : Cluster) (subnet : MacvlanSubnet) where
  -- The hosts that `allocateAutoIP` goes on with: none beside an error.
  hosts-cases :
      (r : Result (List Ip)) (pod : Pod) (w : c.World) (hosts : List Ip)
      → (catch (lift r) (λ e. event_macvlan_subnet_error c pod e >> pure []) w).0 ≡ ok hosts
      → (r ≡ ok hosts) ⊎ (hosts ≡ [])
  unfolding event_macvlan_subnet_error
  hosts-cases (ok hs) pod w hosts h = inl h
  hosts-cases (err e) pod w hosts h = inr (cc)
  hosts-cases panics pod w hosts h = absurd (cc)
  hosts-cases hangs pod w hosts h = absurd (cc)

  pub auto-result :
      (pod : Pod) (w : c.World) (ip : Ip) (cidr : Bytes)
      → (allocate_auto_ip c pod subnet w).0 ≡ ok (ip, cidr)
      → (items : List MacvlanIp) × ((listed c subnet w).0 ≡ ok items)
        × IsFreeHost subnet items ip
        × (cidr ≡ convert_ip_to_cidr ip subnet.spec.cidr)
  unfolding allocate_auto_ip
  auto-result pod w ip cidr h =
      let (items, listing, h1) = >>=-eq-ok (listed c subnet) _ w h in
      let (hosts, calc, h2) =
        >>=-eq-ok
          (catch (lift (calc_subnet_hosts subnet))
            (λ e. event_macvlan_subnet_error c pod e >> pure []))
          _ _ h1 in
      let (there, text) = pick_first-result _ subnet ip cidr h2 in
      let (host, free) = (In-remove_used_hosts hosts (used_list items subnet) ip).0 there in
      elim (hosts-cases (calc_subnet_hosts subnet) pod _ hosts calc) [
        | inl e ↦ (items, listing, (hosts, e, host, free), text)
        | inr e ↦ elim (rw e at host) [ ]
      ]

  pub checked-result :
      (text : Bytes) (items : List MacvlanIp) (v : c.World) (ip : Ip) (cidr : Bytes)
      → (checked c subnet text items v).0 ≡ ok (ip, cidr)
      → (parse_ip text ≡ ip)
        × IsFreeHost subnet items ip
        × (cidr ≡ convert_ip_to_cidr ip subnet.spec.cidr)
  unfolding checked
  checked-result text items v ip cidr h =
      let (hosts, calc, h1) = >>=-eq-ok (lift (calc_subnet_hosts subnet)) _ v h in
      let used = used_list items subnet in
      let (u, good, h2) =
        >>=-eq-ok (lift (check_ip_validation (parse_ip text) hosts used subnet)) _ _ h1 in
      let (host, free) = (check_ip_validation_iff (parse_ip text) hosts used subnet).0 good in
      let same : parse_ip text ≡ ip = cc in
      (same, (hosts, calc, rw same at host, rw same at free), (cc))

  pub single-result :
      (pod : Pod) (text : Bytes) (w : c.World) (ip : Ip) (cidr : Bytes)
      → (allocate_single_ip c pod subnet text w).0 ≡ ok (ip, cidr)
      → (items : List MacvlanIp) × ((listed c subnet w).0 ≡ ok items)
        × IsFreeHost subnet items ip
        × (cidr ≡ convert_ip_to_cidr ip subnet.spec.cidr)
  unfolding allocate_single_ip
  single-result pod text w ip cidr h =
      let (items, listing, h1) = >>=-eq-ok (listed c subnet) (checked c subnet text) w h in
      let (_, free, cidr_text) = checked-result text items _ ip cidr h1 in
      (items, listing, free, cidr_text)

  -- The loop of `allocateMultipleIP` calls nothing before it lists the macvlanips.
  pub select_ip-result :
      (unused : Dict Bool) (to_mac : Dict Bytes) (annotation : Bytes) (keys : List Bytes)
      → (w : c.World) (ip : Ip) (cidr mac : Bytes)
      → (select_ip c unused to_mac subnet annotation keys w).0 ≡ ok (ip, cidr, mac)
      → (items : List MacvlanIp) × ((listed c subnet w).0 ≡ ok items)
        × IsFreeHost subnet items ip
        × (cidr ≡ convert_ip_to_cidr ip subnet.spec.cidr)
        × ((key : Bytes) × In key keys
            × (value_or false (get unused key) ≡ true)
            × (parse_ip key ≡ ip)
            × (mac ≡ value_or [] (get to_mac key)))
  unfolding select_ip
  select_ip-result unused to_mac annotation [] w ip cidr mac h = absurd (cc)
  select_ip-result unused to_mac annotation (key ∷ keys) w ip cidr mac h =
      elim (Bool-cases (value_or false (get unused key))) [
        | inr e ↦
            let (items, listing, free, text, (k, i, u, parsed, its_mac)) =
              select_ip-result unused to_mac annotation keys w ip cidr mac (rw e at h) in
            (items, listing, free, text, (k, inr i, u, parsed, its_mac))
        | inl e ↦
            let (items, listing, h1) = >>=-eq-ok (listed c subnet) _ w (rw e at h) in
            let (chosen, check, h2) = >>=-eq-ok (checked c subnet key items) _ _ h1 in
            let same : chosen ≡ (ip, cidr) = cc in
            let (parsed, free, text) = checked-result key items _ ip cidr (check ∙ ap ok same) in
            (items, listing, free, text, (key, inl refl, e, parsed, (cc)))
      ]
