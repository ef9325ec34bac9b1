-- ===== src/Examples/Sets.antt =====
-- Runs of the theorems of package ipcalc on lists of addresses.
use network_controller.Common.{ℕ, ◌≡◌, ◌↔◌, List, [], ◌∷◌, In, All, inl, inr}
use network_controller.Go.Text.{Bytes, beq}
use network_controller.Go.Map.{keys, put, get, delete, AllDistinct}
use network_controller.Go.Sort.{sort, Ascending}
use network_controller.Go.Net.{Ip}
use network_controller.Go.Net.Laws.{parse_ip-ip_string}
use network_controller.Ipcalc.{
  remove_used_hosts, get_usable_hosts, complement_map, mark_bytes, drop_marked, complementip,
}
use network_controller.Ipcalc.Incip.{mapped}
use network_controller.Ipcalc.Cidr.{mapped-IsIpv4}
use network_controller.Ipcalc.Sets.{remove_used_hosts_iff, complementip-order}
use network_controller.Ipcalc.Intersection.{IsCanonical, get_usable_hosts_iff}

-- 10.0.0.3, 10.0.0.1 and 10.0.0.2; and 10.0.0.1
abbrev three : List Ip
three = mapped 167772163 ∷ mapped 167772161 ∷ mapped 167772162 ∷ []

abbrev one : List Ip
one = mapped 167772161 ∷ []

canonical : (n : ℕ) → IsCanonical (mapped n)
canonical n = parse_ip-ip_string (mapped-IsIpv4 n)

three-IsCanonical : All IsCanonical three
three-IsCanonical = (canonical 167772163, (canonical 167772161, (canonical 167772162, tt)))

one-IsCanonical : All IsCanonical one
one-IsCanonical = (canonical 167772161, tt)

abbrev others : List Ip
others = mapped 167772162 ∷ mapped 167772163 ∷ []

remove_used_hosts_iff_example :
    (others ≡ remove_used_hosts three one)
    ↔ (Ascending others × ((x : Ip) → In x others ↔ (In x three × ¬ In x one)))
remove_used_hosts_iff_example = remove_used_hosts_iff three one others

get_usable_hosts_iff_example :
    (one ≡ get_usable_hosts three one)
    ↔ (Ascending one × ((x : Ip) → In x one ↔ (In x three × In x one)))
get_usable_hosts_iff_example = get_usable_hosts_iff three one three-IsCanonical one-IsCanonical one

-- The keys of the map in another order than the one of insertion.
abbrev other_order : List Bytes
other_order = mapped 167772162 ∷ mapped 167772163 ∷ []

other_order-AllDistinct : AllDistinct other_order
other_order-AllDistinct = (λ i. elim i [ inl e ↦ cc | inr n ↦ elim n [ ] ], ((λ n. elim n [ ]), tt))

same_keys : (k : Bytes) → In k other_order ↔ In k (keys (complement_map three one))
unfolding complement_map mark_bytes drop_marked put get delete keys beq
same_keys k = (
  λ i. elim i [ inl e ↦ inr (inl e) | inr (inl e) ↦ inl e | inr (inr n) ↦ elim n [ ] ],
  λ i. elim i [ inl e ↦ inr (inl e) | inr (inl e) ↦ inl e | inr (inr n) ↦ elim n [ ] ],
)

complementip-order_example : sort other_order ≡ complementip three one
complementip-order_example =
    complementip-order three one other_order other_order-AllDistinct same_keys (λ e. cc)
