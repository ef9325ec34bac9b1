-- ===== src/Controller/Allocation/Checked.antt =====
-- Modes single and multiple: the address that the annotation asks for, if it is a free host.
use network_controller.Common.{◌≡◌, ◌⊎◌, inl, inr, List, [], arith, In}
use network_controller.Go.Text.{Bytes}
use network_controller.Go.Result.{Result, ok, err, plain}
use network_controller.Go.Net.{Ip, parse_ip}
use network_controller.Types.{Pod, MacvlanIp, MacvlanSubnet}
use network_controller.Cluster.{Cluster}
use network_controller.Controller.Hosts.{calc_subnet_hosts, convert_ip_to_cidr, check_ip_validation}
use network_controller.Controller.Hosts.Used.{check_ip_validation_iff}
use network_controller.Controller.Ipalloc.{subnet_selector, used_list, allocate_single_ip}

-- The call refuses, with an error of its own making.
abbrev pub Refuses : {A W : Type 0} → Result A × W → W → Type 0
Refuses r w = (m : Bytes) × (r ≡ (err (plain m), w))

check-cases :
    (ip : Ip) (hosts used : List Ip) (subnet : MacvlanSubnet)
    → (check_ip_validation ip hosts used subnet ≡ ok tt)
      ⊎ ((m : Bytes) × (check_ip_validation ip hosts used subnet ≡ err (plain m)))
unfolding check_ip_validation
check-cases ip hosts used subnet = ground arith

module _ (c : Cluster) (pod : Pod) (subnet : MacvlanSubnet) (w w' : c.World) where
  -- When the API server lists the macvlanips of the subnet and its hosts can be computed,
  -- `allocateSingleIP` returns the address of the annotation with its text if that address is a
  -- host and is neither the gateway nor the address of a listed macvlanip, and an error otherwise.
  -- It makes no other call.
  pub allocate_single_ip-decides :
      (text : Bytes) (items : List MacvlanIp) (hosts : List Ip)
      → c.list_macvlan_ips [] (subnet_selector subnet) w ≡ (ok items, w')
      → calc_subnet_hosts subnet ≡ ok hosts
      → ((In (parse_ip text) hosts × ¬ In (parse_ip text) (used_list items subnet))
          × (allocate_single_ip c pod subnet text w
              ≡ (ok (parse_ip text, convert_ip_to_cidr (parse_ip text) subnet.spec.cidr), w')))
        ⊎ ((¬ (In (parse_ip text) hosts × ¬ In (parse_ip text) (used_list items subnet)))
            × Refuses (allocate_single_ip c pod subnet text w) w')
  unfolding allocate_single_ip
  allocate_single_ip-decides text items hosts listing calc =
      let used = used_list items subnet in
      elim (check-cases (parse_ip text) hosts used subnet) [
        | inl good ↦ inl (
          (check_ip_validation_iff (parse_ip text) hosts used subnet).0 good,
          rw (listing, calc, good, allocate_single_ip),
        )
        | inr (m, bad) ↦ inr (
          λ free. cc ((check_ip_validation_iff (parse_ip text) hosts used subnet).1 free),
          (m, rw (listing, calc, bad, allocate_single_ip)),
        )
      ]
