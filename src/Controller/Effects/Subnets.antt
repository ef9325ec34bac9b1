-- ===== src/Controller/Effects/Subnets.antt =====
-- controller/macvlansubnet.go: what a new subnet is completed with.
use network_controller.Types.{MacvlanSubnetSpec}
use network_controller.Go.Net.Laws.{ip_string-filled}
use network_controller.Go.Map.{Dict, put_again}
use network_controller.Common.{is_empty, true, false, ◌∷◌, ◌⊎◌, Bool-cases, inl, inr}
use network_controller.Common.{ℕ, ◌+◌, ◌^◌, ◌≤◌, ◌<◌, ◌≡◌, refl, [], some, if◌then◌else◌}
use network_controller.Go.Text.{Bytes, codes, beq}
use network_controller.Go.Int.{sprint}
use network_controller.Go.Map.{get, made, get-put}
use network_controller.Go.Net.{parse_ip, ip_string, to4}
use network_controller.Go.Net.Laws.{parse_ip-ip_string}
use network_controller.Types.{MacvlanSubnet}
use network_controller.Ipcalc.Incip.{quad, mapped}
use network_controller.Ipcalc.Hosts.{first}
use network_controller.Ipcalc.Cidr.{cidr_text, mapped-IsIpv4, calc_default_gateway-network}
use network_controller.Controller.Subnet.{completed, subnet_labels, gateway_of}

ip_string-quad : (n : ℕ) → ip_string (quad n) ≡ ip_string (mapped n)
unfolding ip_string to4 beq
ip_string-quad n = refl

-- A subnet without a gateway whose network is the text of an IPv4 network gets a gateway whose text
-- is read back as the address behind the first one of the network.
pub completed-gateway :
    (subnet : MacvlanSubnet) (m p : ℕ)
    → p ≤ 32
    → m < 2 ^ 32
    → subnet.spec.gateway ≡ []
    → subnet.spec.cidr ≡ cidr_text m p
    → parse_ip (completed subnet).spec.gateway ≡ mapped (first p m + 1)
unfolding completed gateway_of
completed-gateway subnet m p hp hm none_given text =
    rw (none_given, text, calc_default_gateway-network m p hp hm, ip_string-quad (first p m + 1))
      (parse_ip-ip_string (mapped-IsIpv4 (first p m + 1)))

-- The labels that a completed subnet has: the three of its specification, and every other label as
-- it was.
pub completed-labels :
    (subnet : MacvlanSubnet) (k : Bytes)
    → get (made (completed subnet).meta.labels) k ≡ (
        if beq (codes "mode") k
        then some subnet.spec.mode
        else if beq (codes "vlan") k
        then some (sprint subnet.spec.vlan)
        else if beq (codes "master") k
        then some subnet.spec.master
        else get (made subnet.meta.labels) k)
unfolding completed subnet_labels
completed-labels subnet k = rw (get-put, get-put, get-put)

is_empty-nil : (s : Bytes) → is_empty s ≡ true → s ≡ []
is_empty-nil [] h = refl
is_empty-nil (b ∷ s) h = absurd (cc)

labels_again :
    (m : Dict Bytes) (spec : MacvlanSubnetSpec)
    → subnet_labels (subnet_labels m spec) spec ≡ subnet_labels m spec
unfolding subnet_labels beq
labels_again m spec = rw (
  put_again (subnet_labels m spec) (codes "master") spec.master (rw (get-put, get-put, get-put)),
  put_again (subnet_labels m spec) (codes "vlan") (sprint spec.vlan) (rw (get-put, get-put)),
  put_again (subnet_labels m spec) (codes "mode") spec.mode (rw get-put),
)

-- A completed subnet has a gateway text, which is the one that the subnet had if it had one, and
-- completing it once more changes nothing, whatever text its network is and whatever labels it has.
pub completed-completed :
    (subnet : MacvlanSubnet)
    → (is_empty (completed subnet).spec.gateway ≡ false)
      × ((subnet.spec.gateway ≡ []) ⊎ ((completed subnet).spec.gateway ≡ subnet.spec.gateway))
      × (completed (completed subnet) ≡ completed subnet)
unfolding completed
completed-completed subnet = elim (Bool-cases (is_empty subnet.spec.gateway)) [
  | inl e ↦ (
    rw e (ip_string-filled _),
    inl (is_empty-nil subnet.spec.gateway e),
    rw (e, ip_string-filled _, labels_again (made subnet.meta.labels) subnet.spec),
  )
  | inr e ↦ (
    rw (e, e) refl,
    inr (rw e refl),
    rw (e, e, labels_again (made subnet.meta.labels) subnet.spec),
  )
]
