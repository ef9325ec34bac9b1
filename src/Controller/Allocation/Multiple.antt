-- ===== src/Controller/Allocation/Multiple.antt =====
-- Mode multiple: which of the annotation's addresses is chosen, and the MAC that goes with it.
use network_controller.Common.{
  ◌≡◌, ◌≢◌, refl, ap, sym, ◌∙◌, ◌⊎◌, inl, inr, Bool, true, false, List, [], ◌∷◌, ◌++◌, arith, In,
}
use network_controller.Go.Text.{Bytes, codes}
use network_controller.Go.Text.Laws.{beq_iff}
use network_controller.Go.Result.{Result, ok}
use network_controller.Go.Exec.{lift}
use network_controller.Go.Exec.Laws.{>>=-eq-ok}
use network_controller.Go.Map.{Dict, get, value_or, made, get-put}
use network_controller.Go.Net.{Ip, parse_ip}
use network_controller.Types.{Pod, MacvlanSubnet, label_multiple_ip_hash, label_selected_ip}
use network_controller.Cluster.{Cluster}
use network_controller.Controller.Hosts.{convert_ip_to_cidr, dashed}
use network_controller.Controller.Allocation.Results.{select_ip-result}
use network_controller.Controller.Ipalloc.{
  allocate_multiple_ip, macs_of, take_label, take_labels, ip_hash,
}

-- The address that the pod's labels say it was given.
abbrev pub selected : Pod → Bytes
selected pod = value_or [] (get (made pod.meta.labels) label_selected_ip)

-- The map says that the address is unused.
abbrev pub IsUnused : Dict Bool → Bytes → Type 0
IsUnused m k = value_or false (get m k) ≡ true

take_label-IsUnused :
    (m : Dict Bool) (label k : Bytes)
    → IsUnused (take_label m label) k
    → IsUnused m k × ((label ≡ []) ⊎ (label ≢ k))
unfolding take_label
take_label-IsUnused m [] k h = (h, inl refl)
take_label-IsUnused m (b ∷ bs) k h = ground (arith, get-put m (b ∷ bs) k false, beq_iff (b ∷ bs) k)

take_labels-IsUnused :
    (m : Dict Bool) (pods : List Pod) (k : Bytes)
    → IsUnused (take_labels m pods) k
    → IsUnused m k × ((pod : Pod) → In pod pods → (selected pod ≡ []) ⊎ (selected pod ≢ k))
unfolding take_labels
take_labels-IsUnused m [] k h = (h, λ pod i. elim i [ ])
take_labels-IsUnused m (v ∷ vs) k h =
    let (before, others) = take_labels-IsUnused (take_label m (selected v)) vs k h in
    let (unused, this) = take_label-IsUnused m (selected v) k before in
    (unused, λ pod i. elim i [ inl e ↦ rw e this | inr j ↦ others pod j ])

ok-injective : {A : Type 0} (a b : A) → ok a ≡ ok b → a ≡ b
ok-injective a b h = cc

module _ (c : Cluster) (subnet : MacvlanSubnet) where
  -- When the API server lists the pods with the hash of the annotation, an allocation in mode
  -- multiple that succeeds returns one of the addresses of the annotation, with its text in the
  -- subnet, and never one that a listed pod has as its label of the selected address.
  pub allocate_multiple_ip-chosen :
      (pod : Pod) (annotation macs : Bytes) (pods : List Pod) (w v : c.World)
      → (ip : Ip) (cidr mac : Bytes)
      → c.list_pods pod.meta.namespace (label_multiple_ip_hash ++ codes "=" ++ ip_hash annotation) w
        ≡ (ok pods, v)
      → (allocate_multiple_ip c pod subnet annotation macs w).0 ≡ ok (ip, cidr, mac)
      → (key : Bytes) × In key (dashed annotation)
        × (parse_ip key ≡ ip)
        × (cidr ≡ convert_ip_to_cidr ip subnet.spec.cidr)
        × ((p : Pod) → In p pods → (selected p ≡ []) ⊎ (selected p ≢ key))
  unfolding allocate_multiple_ip
  allocate_multiple_ip-chosen pod annotation macs pods w v ip cidr mac listing h =
      let (ms, _, h1) = >>=-eq-ok (lift (macs_of (dashed annotation) annotation macs)) _ w h in
      let (found, answer, h2) =
        >>=-eq-ok
          (c.list_pods pod.meta.namespace
            (label_multiple_ip_hash ++ codes "=" ++ ip_hash annotation))
          _ _ h1 in
      let same =
        ok-injective found pods
          (sym answer ∙ ap (λ (r : Result (List Pod) × c.World). r.0) listing) in
      let (_, _, _, text, (key, i, unused, parsed, _)) =
        select_ip-result c subnet _ _ annotation (dashed annotation) _ ip cidr mac h2 in
      (
        key,
        i,
        parsed,
        text,
        λ p there. (take_labels-IsUnused _ found key unused).1 p (rw (← same) at there),
      )
