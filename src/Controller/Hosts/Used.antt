-- ===== src/Controller/Hosts/Used.antt =====
-- `isInHosts`, `checkIPValidation`, and the way an address goes through the text of a macvlanip:
-- what `convertIPtoCIDR` writes, `convertToIPList` reads.
use network_controller.Common.{
  ℕ, ◌≡◌, ◌≢◌, ◌↔◌, refl, ap, sym, ◌∙◌, inl, inr, true, List, [], ◌∷◌, ◌++◌, arith, In,
  Option-cases,
}
use network_controller.Go.Text.{Bytes, split}
use network_controller.Go.Text.Laws.{
  compare_bytes-eq, compare_bytes_refl, split-append, split-Lacks, Lacks,
}
use network_controller.Go.Result.{ok}
use network_controller.Go.Net.{Ip, ip_string}
use network_controller.Go.Net.Laws.{IsIpv4, parse_ip-ip_string, ip_string-Lacks}
use network_controller.Types.{MacvlanIp, MacvlanSubnet}
use network_controller.Controller.Hosts.{
  front_of_two, convert_to_ip_list, convert_ip_to_cidr, is_in_hosts, check_ip_validation,
}

-- `isInHosts` decides membership.
pub is_in_hosts_iff : (h : List Ip) (ip : Ip) → (is_in_hosts h ip ≡ true) ↔ In ip h
unfolding is_in_hosts
is_in_hosts_iff [] ip = (λ e. absurd (cc), λ n. elim n [ ])
is_in_hosts_iff (v ∷ vs) ip =
    ground (arith, compare_bytes-eq v ip, compare_bytes_refl v, is_in_hosts_iff vs ip)

-- `checkIPValidation` accepts exactly the addresses that are hosts and are not used.
pub check_ip_validation_iff :
    (ip : Ip) (hosts used : List Ip) (subnet : MacvlanSubnet)
    → (check_ip_validation ip hosts used subnet ≡ ok tt) ↔ (In ip hosts × ¬ In ip used)
unfolding check_ip_validation
check_ip_validation_iff ip hosts used subnet =
    ground (arith, is_in_hosts_iff hosts ip, is_in_hosts_iff used ip)

split-ne-nil : (s : Bytes) (sep : ℕ) → split s sep ≢ []
unfolding split
split-ne-nil [] sep h = cc
split-ne-nil (c ∷ s) sep h = ground (arith, split-ne-nil s sep)

-- A text with one slash, such as every network that `ParseCIDR` accepts.
abbrev pub HasOneSlash : Bytes → Type 0
HasOneSlash cidr = (a : Bytes) × (b : Bytes) × (cidr ≡ a ++ b'/' ∷ b) × Lacks b'/' a × Lacks b'/' b

split-one : (a b : Bytes) → Lacks b'/' a → Lacks b'/' b → split (a ++ b'/' ∷ b) b'/' ≡ a ∷ b ∷ []
split-one a b ha hb = split-append a b b'/' ha ∙ ap (λ t. a ∷ t) (split-Lacks b b'/' hb)

-- The text that an allocation writes: the address, and the prefix length of the subnet.
pub convert_ip_to_cidr-split :
    (ip : Ip) (cidr : Bytes)
    → IsIpv4 ip
    → HasOneSlash cidr
    → (b : Bytes) × (split (convert_ip_to_cidr ip cidr) b'/' ≡ ip_string ip ∷ b ∷ [])
unfolding convert_ip_to_cidr
convert_ip_to_cidr-split ip cidr v (a, b, e, ha, hb) = (
  b,
  rw (e, split-one a b ha hb)
      (split-one (ip_string ip) b (ip_string-Lacks b'/' v refl (λ z. absurd (omega arith))) hb),
)

-- `convertToIPList` reads the text back that `convertIPtoCIDR` writes: an IPv4 address stands in the
-- list of used ones if a macvlanip has its text in a network whose text has one slash.
pub In-convert_to_ip_list :
    (items : List MacvlanIp) (item : MacvlanIp) (ip : Ip) (cidr : Bytes)
    → IsIpv4 ip
    → HasOneSlash cidr
    → item.spec.cidr ≡ convert_ip_to_cidr ip cidr
    → In item items
    → In ip (convert_to_ip_list items)
unfolding convert_to_ip_list
In-convert_to_ip_list [] item ip cidr v s e i = elim i [ ]
In-convert_to_ip_list (x ∷ items) item ip cidr v s e (inl same) =
    let (b, parts) = convert_ip_to_cidr-split ip cidr v s in
    let x_parts : split x.spec.cidr b'/' ≡ ip_string ip ∷ b ∷ [] =
      ap (λ (m : MacvlanIp). split m.spec.cidr b'/') (sym same)
      ∙ ap (λ t. split t b'/') e
      ∙ parts in
    rw (x_parts, convert_to_ip_list, parse_ip-ip_string v) (inl refl)
In-convert_to_ip_list (x ∷ items) item ip cidr v s e (inr i) =
    let ih = In-convert_to_ip_list items item ip cidr v s e i in
    elim (Option-cases (front_of_two (split x.spec.cidr b'/'))) [
      | inl f ↦ rw (f, convert_to_ip_list) ih
      | inr (t, f) ↦ rw (f, convert_to_ip_list) (inr ih)
    ]
