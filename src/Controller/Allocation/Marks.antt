-- ===== src/Controller/Allocation/Marks.antt =====
-- Mode multiple: the two maps of `allocateMultipleIP`, of the addresses that are unused and of the MACs,
-- against the annotation and the pods.
use network_controller.Common.{
  ◌≡◌, ◌≢◌, refl, ap, sym, ◌∙◌, ◌⊎◌, inl, inr, Bool, true, false, List, [], ◌∷◌, ◌++◌, arith, In,
  some, length, get_elem?, Bool-cases,
}
use network_controller.Go.Text.{Bytes, beq}
use network_controller.Go.Text.Laws.{beq_iff, beq_refl}
use network_controller.Go.Result.{ok}
use network_controller.Go.Map.{Dict, get, put, value_or, get-put, get-put_self}
use network_controller.Types.{Pod}
use network_controller.Controller.Allocation.Multiple.{selected}
use network_controller.Controller.Ipalloc.{macs_of, mac_map, unused_map, take_label, take_labels}

-- One of the pods has the address as its label of the selected address.
abbrev pub IsTaken : List Pod → Bytes → Type 0
IsTaken pods k = (p : Pod) × In p pods × (selected p ≡ k) × (k ≢ [])

-- The MAC that stands where the address stands last in the annotation.
pub data PlacedMac : List Bytes → List Bytes → Bytes → Bytes → Type 0 where
  placed :
      (before behind : List Bytes) {k : Bytes} {macs : List Bytes} {mac : Bytes}
      → (¬ In k behind)
      → get_elem? macs (length before) ≡ some mac
      → PlacedMac (before ++ k ∷ behind) macs k mac

-- No MAC where the annotation gives none.
abbrev pub HasMac : List Bytes → List Bytes → Bytes → Bytes → Type 0
HasMac ks macs k mac = ((macs ≡ []) × (mac ≡ [])) ⊎ PlacedMac ks macs k mac

abbrev pub free_in : Dict Bool → Bytes → Bool
free_in m k = value_or false (get m k)

-- The code's map, with the labels of the pods taken away.
label_takes : Bytes → Bytes → Bool
label_takes [] k = false
label_takes (b ∷ bs) k = beq (b ∷ bs) k

take_label-free_in :
    (m : Dict Bool) (label k : Bytes)
    → (label ≡ []) ⊎ (label ≢ k)
    → free_in (take_label m label) k ≡ free_in m k
unfolding take_label
take_label-free_in m [] k h = refl
take_label-free_in m (b ∷ bs) k h = ground (arith, get-put m (b ∷ bs) k false, beq_iff (b ∷ bs) k)

taken-free_in : (m : Dict Bool) (k : Bytes) → (k ≢ []) → free_in (take_label m k) k ≡ false
unfolding take_label
taken-free_in m [] h = absurd (h refl)
taken-free_in m (b ∷ bs) h = ground (arith, get-put m (b ∷ bs) (b ∷ bs) false, beq_refl (b ∷ bs))

label-cases : (l k : Bytes) → ((l ≡ k) × (k ≢ [])) ⊎ ((l ≡ []) ⊎ (l ≢ k))
label-cases [] k = inr (inl refl)
label-cases (b ∷ bs) k = elim (Bool-cases (beq (b ∷ bs) k)) [
  | inl e ↦ let same : b ∷ bs ≡ k = (beq_iff (b ∷ bs) k).0 e in inl (same, λ nil. cc)
  | inr e ↦ inr (inr (λ same. cc ((beq_iff (b ∷ bs) k).1 same)))
]

-- What the code's map says of one address, by the labels of the pods.
pub take_labels-free_in :
    (m : Dict Bool) (pods : List Pod) (k : Bytes)
    → (IsTaken pods k × (free_in (take_labels m pods) k ≡ false))
      ⊎ ((¬ IsTaken pods k) × (free_in (take_labels m pods) k ≡ free_in m k))
unfolding take_labels
take_labels-free_in m [] k = inr (λ (q, i, s, n). elim i [ ], refl)
take_labels-free_in m (p ∷ ps) k = elim (take_labels-free_in (take_label m (selected p)) ps k) [
  | inl ((q, i, s, n), e) ↦ inl ((q, inr i, s, n), e)
  | inr (untaken, e) ↦ elim (label-cases (selected p) k) [
    | inl (s, n) ↦ inl ((p, inl refl, s, n), e ∙ rw s (taken-free_in m k n))
    | inr other ↦ inr (
      λ (q, i, s, n). elim i [
        | inl same ↦ elim other [
          | inl nil ↦ n (sym s ∙ ap selected same ∙ nil)
          | inr different ↦ different (sym (ap selected same) ∙ s)
        ]
        | inr there ↦ untaken (q, there, s, n)
      ],
      e ∙ take_label-free_in m (selected p) k other,
    )
  ]
]

pub unused_map-free_in :
    (m : Dict Bool) (ks : List Bytes) (k : Bytes)
    → In k ks ⊎ (free_in m k ≡ true)
    → free_in (unused_map m ks) k ≡ true
unfolding unused_map
unused_map-free_in m [] k (inl i) = elim i [ ]
unused_map-free_in m [] k (inr h) = h
unused_map-free_in m (v ∷ vs) k (inl (inr i)) = unused_map-free_in (put m v true) vs k (inl i)
unused_map-free_in m (v ∷ vs) k (inl (inl e)) =
    unused_map-free_in (put m v true) vs k (inr (rw (e, get-put, beq_refl v)))
unused_map-free_in m (v ∷ vs) k (inr h) =
    unused_map-free_in (put m v true) vs k (inr (ground (arith, get-put m v k true)))

In-cases : (k : Bytes) (ks : List Bytes) → In k ks ⊎ (¬ In k ks)
In-cases k [] = inr (λ i. elim i [ ])
In-cases k (j ∷ js) = ground (arith, beq_iff k j, In-cases k js, Bool-cases (beq k j))

mac_map-unchanged :
    (m : Dict Bytes) (ks macs : List Bytes) (k : Bytes)
    → ¬ In k ks
    → get (mac_map m ks macs) k ≡ get m k
unfolding mac_map
mac_map-unchanged m [] macs k n = refl
mac_map-unchanged m (v ∷ vs) [] k n = refl
mac_map-unchanged m (v ∷ vs) (mac ∷ macs) k n =
    mac_map-unchanged (put m v mac) vs macs k (λ i. n (inr i))
    ∙ ground (arith, get-put m v k mac, beq_iff v k)

pub mac_map-nil : (m : Dict Bytes) (ks : List Bytes) → mac_map m ks [] ≡ m
unfolding mac_map
mac_map-nil m [] = refl
mac_map-nil m (v ∷ vs) = refl

behind_one :
    (v mac : Bytes) {vs macs : List Bytes} {k found : Bytes}
    → PlacedMac vs macs k found
    → PlacedMac (v ∷ vs) (mac ∷ macs) k found
behind_one v mac (placed before behind n e) = placed (v ∷ before) behind n e

-- The MAC that the map gives an address of the annotation.
pub mac_map-PlacedMac :
    (m : Dict Bytes) (ks macs : List Bytes) (k : Bytes)
    → length ks ≡ length macs
    → In k ks
    → PlacedMac ks macs k (value_or [] (get (mac_map m ks macs) k))
unfolding mac_map
mac_map-PlacedMac m [] macs k same i = elim i [ ]
mac_map-PlacedMac m (v ∷ vs) [] k same i = absurd (omega arith)
mac_map-PlacedMac m (v ∷ vs) (mac ∷ macs) k same i = elim (In-cases k vs) [
  | inl later ↦ behind_one v mac (mac_map-PlacedMac (put m v mac) vs macs k (omega arith) later)
  | inr last ↦ elim i [
    | inr later ↦ absurd (last later)
    | inl e ↦
        rw (mac_map-unchanged (put m v mac) vs macs k last, e, get-put_self m v mac)
          (placed [] vs (rw e at last) refl)
  ]
]

pub macs_of-length :
    (ks : List Bytes) (annotation text : Bytes) (macs : List Bytes)
    → macs_of ks annotation text ≡ ok macs
    → (macs ≡ []) ⊎ (length ks ≡ length macs)
unfolding macs_of
macs_of-length ks annotation text macs h = ground arith
