-- ===== src/Controller/Uniqueness/Left.antt =====
-- What a list of a subnet's macvlanips says of those that are left once an allocation ends.
use network_controller.Common.{◌≡◌, ap, List, [], ◌∷◌, inl, inr, Bool, false, Bool-cases}
use network_controller.Go.Text.{Bytes}
use network_controller.Go.Result.{Result, ok}
use network_controller.Go.Exec.{Exec, pure, handle, ◌>>=◌}
use network_controller.Go.Exec.Laws.{>>=-first_ok}
use network_controller.Go.Exec.Keeps.{keeps_rules, Keeps}
use network_controller.Go.Map.{Dict, get, value_or}
use network_controller.Go.Net.{Ip}
use network_controller.Types.{MacvlanIp, MacvlanSubnet, Pod}
use network_controller.Cluster.{Cluster}
use network_controller.Controller.Ipalloc.{
  subnet_selector, listed, checked, select_ip, allocate_auto_ip, allocate_single_ip,
}
use network_controller.Controller.Uniqueness.Lists.{Sublist, Sublist-trans}
use network_controller.Controller.Uniqueness.Server.{IsStore}
use network_controller.Controller.Uniqueness.Losing.{IsClosed, subnet_event-Keeps}

module _ (c : Cluster) (ips : c.World → Bytes → List MacvlanIp) (store : IsStore c ips) (pod : Pod)
    (subnet : MacvlanSubnet) where
  listed-left :
      (w : c.World) (items : List MacvlanIp)
      → (listed c subnet w).0 ≡ ok items
      → Sublist (ips (listed c subnet w).1 subnet.meta.name) items
  unfolding listed
  listed-left w items h =
      let list = c.list_macvlan_ips [] (subnet_selector subnet) in
      let (found, e, left) = store.lists subnet w in
      let whole : listed c subnet w ≡ (ok found, (list w).1) =
        ap (λ (r : Result (List MacvlanIp)). handle r (λ _. pure []) (list w).1) e in
      let same : found ≡ items = cc (ap (λ (r : Result (List MacvlanIp) × c.World). r.0) whole) in
      rw (← same) (rw whole left)

  -- What follows the list may lose more of them.
  left-after :
      {A : Type 0} (next : List MacvlanIp → Exec c.World A) (w : c.World) (items : List MacvlanIp)
      → (listed c subnet w).0 ≡ ok items
      → Keeps (λ v. Sublist (ips v subnet.meta.name) items) (next items)
      → Sublist (ips ((listed c subnet >>= next) w).1 subnet.meta.name) items
  left-after next w items h k =
      rw (>>=-first_ok (listed c subnet) next w items h) (k.leads _ (listed-left w items h))

  -- What the macvlanips are that a list left behind.
  abbrev pub Left : List MacvlanIp → c.World → Type 0
  Left items v = Sublist (ips v subnet.meta.name) items

  Left-IsClosed :
      (items : List MacvlanIp) → IsClosed (λ view. Sublist (view subnet.meta.name) items)
  Left-IsClosed items v v' fewer left = Sublist-trans left (fewer subnet.meta.name)

  pub auto-Left :
      (w : c.World) (items : List MacvlanIp)
      → (listed c subnet w).0 ≡ ok items
      → Left items (allocate_auto_ip c pod subnet w).1
  unfolding allocate_auto_ip
  auto-Left w items h = left-after _ w items h (
      search (
        keeps_rules,
        subnet_event-Keeps c ips store (λ view. Sublist (view subnet.meta.name) items)
            (Left-IsClosed items),
      ))

  checked-Left :
      (t : Bytes) (items read : List MacvlanIp) → Keeps (Left items) (checked c subnet t read)
  unfolding checked
  checked-Left t items read = search keeps_rules

  pub single-Left :
      (t : Bytes) (w : c.World) (items : List MacvlanIp)
      → (listed c subnet w).0 ≡ ok items
      → Left items (allocate_single_ip c pod subnet t w).1
  unfolding allocate_single_ip
  single-Left t w items h = left-after _ w items h (checked-Left t items items)

  pub select_ip-Left :
      (unused : Dict Bool) (to_mac : Dict Bytes) (t : Bytes) (keys : List Bytes) (w : c.World)
      → (items : List MacvlanIp) (a : Ip × Bytes × Bytes) → (listed c subnet w).0 ≡ ok items
      → (select_ip c unused to_mac subnet t keys w).0 ≡ ok a
      → Left items (select_ip c unused to_mac subnet t keys w).1
  unfolding select_ip
  select_ip-Left unused to_mac t [] w items a h e = absurd (cc)
  select_ip-Left unused to_mac t (key ∷ keys) w items a h e =
      elim (Bool-cases (value_or false (get unused key))) [
        | inl u ↦ rw u (left-after _ w items h (search keeps_rules))
        | inr u ↦ rw u (select_ip-Left unused to_mac t keys w items a h (rw u at e))
      ]
