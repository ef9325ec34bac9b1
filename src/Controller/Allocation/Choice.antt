-- ===== src/Controller/Allocation/Choice.antt =====
-- Mode multiple, the whole of it: the annotation is read from left to right, and one address is tried.
use network_controller.Common.{
  ◌≡◌, refl, sym, ◌∙◌, ◌⊎◌, inl, inr, Bool, true, false, List, [], ◌∷◌, ◌++◌, In,
}
use network_controller.Go.Text.{Bytes, codes}
use network_controller.Go.Result.{ok, err, plain}
use network_controller.Go.Exec.{Exec, pure, ◌>>=◌}
use network_controller.Go.Exec.Laws.{>>=-assoc}
use network_controller.Go.Map.{Dict, get, value_or}
use network_controller.Go.Net.{Ip}
use network_controller.Types.{Pod, MacvlanSubnet, label_multiple_ip_hash}
use network_controller.Cluster.{Cluster}
use network_controller.Controller.Hosts.{dashed}
use network_controller.Controller.Ipalloc.{
  listed, checked, no_enough_ip, allocate_single_ip, allocate_multiple_ip, select_ip, macs_of,
  mac_map, unused_map, take_labels, ip_hash,
}
use network_controller.Controller.Allocation.Marks.{
  IsTaken, HasMac, free_in, take_labels-free_in, unused_map-free_in, mac_map-PlacedMac,
  macs_of-length, mac_map-nil,
}

-- The first address of the list that no pod has taken, with what stands before and behind it.
pub data FirstFree (pods : List Pod) : List Bytes → Bytes → Type 0 where
  at_once : {k : Bytes} {ks : List Bytes} → (¬ IsTaken pods k) → FirstFree pods (k ∷ ks) k
  further :
      {j k : Bytes} {ks : List Bytes}
      → IsTaken pods j
      → FirstFree pods ks k
      → FirstFree pods (j ∷ ks) k

pub data AllTaken (pods : List Pod) : List Bytes → Type 0 where
  none_left : AllTaken pods []
  one_more :
      {k : Bytes} {ks : List Bytes} → IsTaken pods k → AllTaken pods ks → AllTaken pods (k ∷ ks)

-- An allocation, with a MAC beside its result.
abbrev pub with_mac : {W : Type 0} → Bytes → Exec W (Ip × Bytes) → Exec W (Ip × Bytes × Bytes)
with_mac mac m = do (ip, cidr) ← m; pure (ip, cidr, mac)

module _ (c : Cluster) (subnet : MacvlanSubnet) (pods : List Pod) where
  -- The map says which of the addresses are taken.
  abbrev Tells : Dict Bool → List Bytes → Type 0
  Tells unused keys =
      (k : Bytes)
      → In k keys
      → (IsTaken pods k × (free_in unused k ≡ false))
        ⊎ ((¬ IsTaken pods k) × (free_in unused k ≡ true))

  module _ (pod : Pod) (unused : Dict Bool) (to_mac : Dict Bytes) (annotation : Bytes) where
    -- The loop tries the first address that is free, as mode single does.
    select_ip-first :
        (keys : List Bytes) (w : c.World)
        → Tells unused keys
        → (AllTaken pods keys
            × (select_ip c unused to_mac subnet annotation keys w
                ≡ (err (plain (no_enough_ip annotation)), w)))
          ⊎ ((k : Bytes) × FirstFree pods keys k
              × In k keys
              × (select_ip c unused to_mac subnet annotation keys w
                  ≡ with_mac (value_or [] (get to_mac k)) (allocate_single_ip c pod subnet k) w))
    unfolding select_ip allocate_single_ip
    select_ip-first [] w tells = inl (none_left, refl)
    select_ip-first (k ∷ ks) w tells = elim (tells k (inl refl)) [
      | inr (free, e) ↦ inr (
        k,
        at_once free,
        inl refl,
        rw e (sym (>>=-assoc (listed c subnet) (checked c subnet k) _ w)),
      )
      | inl (taken, e) ↦ elim (select_ip-first ks w (λ j i. tells j (inr i))) [
        | inl (all, r) ↦ inl (one_more taken all, rw e r)
        | inr (j, first, i, r) ↦ inr (j, further taken first, inr i, rw e r)
      ]
    ]

  Tells-at_first : (keys : List Bytes) → Tells (take_labels (unused_map [] keys) pods) keys
  Tells-at_first keys k i = elim (take_labels-free_in (unused_map [] keys) pods k) [
    | inl t ↦ inl t
    | inr (free, e) ↦ inr (free, e ∙ unused_map-free_in [] keys k (inl i))
  ]

  keys-HasMac :
      (keys macs : List Bytes) (annotation text k : Bytes)
      → macs_of keys annotation text ≡ ok macs
      → In k keys
      → HasMac keys macs k (value_or [] (get (mac_map [] keys macs) k))
  unfolding mac_map get
  keys-HasMac keys macs annotation text k h i = elim (macs_of-length keys annotation text macs h) [
    | inr same ↦ inr (mac_map-PlacedMac [] keys macs k same i)
    | inl nil ↦ inl (nil, rw (nil, mac_map-nil [] keys) refl)
  ]

  -- When the API server lists the pods with the hash of the annotation and the MACs of the annotation
  -- are as many as its addresses, or none, an allocation in mode multiple does what one in mode single
  -- does with the first address of the annotation that no listed pod has as its label of the selected
  -- address, and gives its result the MAC at the last place of that address, or no MAC where there are
  -- none; and if the pods have all the addresses, it calls nothing more and refuses.
  pub allocate_multiple_ip-FirstFree :
      (pod : Pod) (annotation text : Bytes) (macs : List Bytes) (w v : c.World)
      → c.list_pods pod.meta.namespace (label_multiple_ip_hash ++ codes "=" ++ ip_hash annotation) w
        ≡ (ok pods, v)
      → macs_of (dashed annotation) annotation text ≡ ok macs
      → (AllTaken pods (dashed annotation)
          × (allocate_multiple_ip c pod subnet annotation text w
              ≡ (err (plain (no_enough_ip annotation)), v)))
        ⊎ ((k mac : Bytes) × FirstFree pods (dashed annotation) k
            × HasMac (dashed annotation) macs k mac
            × (allocate_multiple_ip c pod subnet annotation text w
                ≡ with_mac mac (allocate_single_ip c pod subnet k) v))
  unfolding allocate_multiple_ip
  allocate_multiple_ip-FirstFree pod annotation text macs w v listing parsed =
      let keys = dashed annotation in
      elim (select_ip-first pod _ (mac_map [] keys macs) annotation keys v (Tells-at_first keys)) [
        | inl (all, r) ↦ inl (all, rw (parsed, listing) r)
        | inr (k, first, i, r) ↦
            inr (
              k,
              _,
              first,
              keys-HasMac keys macs annotation text k parsed i,
              rw (parsed, listing) r,
            )
      ]
