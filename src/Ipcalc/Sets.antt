-- ===== src/Ipcalc/Sets.antt =====
-- `complementip`: the difference of two lists as sets, whatever order the map is ranged over.
use network_controller.Common.{
  ◌≡◌, ◌≢◌, refl, ◌↔◌, ◌⊎◌, inl, inr, Bool, true, List, [], ◌∷◌, none, some, arith, In,
  Option-cases,
}
use network_controller.Go.Text.{Bytes}
use network_controller.Go.Text.Laws.{beq_iff}
use network_controller.Go.Map.{
  Dict, get, put, delete, keys, get-put, get-delete, IsMap, put-IsMap, delete-IsMap, In-keys,
  AllDistinct, keys-AllDistinct,
}
use network_controller.Go.Sort.{
  sort, In-sort, sort-Ascending, Ascending, Ascending-unique, Ascending-iff,
}
use network_controller.Go.Net.{Ip}
use network_controller.Ipcalc.{
  mark_bytes, drop_marked, complement_map, complementip, remove_used_hosts,
}

-- The map has the key, with the value that the loops write.
abbrev pub Has : Dict Bool → Bytes → Type 0
Has m k = get m k ≡ some true

-- Every key of the map has that value.
abbrev pub IsTrueMap : Dict Bool → Type 0
IsTrueMap m = (k : Bytes) → get m k ≢ none → Has m k

-- Invariant of the loops: a map, with one value.
pub record IsSetMap (m : Dict Bool) : Type 0 where
  pub is_map : IsMap m
  pub is_true : IsTrueMap m

pub empty-IsSetMap : IsSetMap []
unfolding get
empty-IsSetMap = record { is_map = tt; is_true = λ k h. absurd (h refl) }

pub put-IsSetMap : (m : Dict Bool) (k : Bytes) → IsSetMap m → IsSetMap (put m k true)
put-IsSetMap m k s = record {
  is_map = put-IsMap m k true s.is_map;
  is_true = λ j h. ground (arith, get-put m k j true, s.is_true j);
}

pub delete-IsSetMap : (m : Dict Bool) (k : Bytes) → IsSetMap m → IsSetMap (delete m k)
delete-IsSetMap m k s = record {
  is_map = delete-IsMap m k s.is_map;
  is_true = λ j h. ground (arith, get-delete m k j, s.is_true j);
}

pub In-keys-Has : (m : Dict Bool) (k : Bytes) → IsSetMap m → In k (keys m) ↔ Has m k
In-keys-Has m k s = (λ i. s.is_true k ((In-keys m k).0 i), λ h. (In-keys m k).1 (λ e. cc))

mark_bytes-IsSetMap : (m : Dict Bool) (vs : List Ip) → IsSetMap m → IsSetMap (mark_bytes m vs)
unfolding mark_bytes
mark_bytes-IsSetMap m [] s = s
mark_bytes-IsSetMap m (v ∷ vs) s = mark_bytes-IsSetMap (put m v true) vs (put-IsSetMap m v s)

mark_bytes-Has :
    (m : Dict Bool) (vs : List Ip) (k : Bytes) → Has (mark_bytes m vs) k ↔ (In k vs ⊎ Has m k)
unfolding mark_bytes
mark_bytes-Has m [] k = (λ h. inr h, λ h. elim h [ inl n ↦ elim n [ ] | inr h' ↦ h' ])
mark_bytes-Has m (v ∷ vs) k =
    ground (arith, mark_bytes-Has (put m v true) vs k, get-put m v k true, beq_iff v k)

drop_marked-IsSetMap : (m : Dict Bool) (vs : List Ip) → IsSetMap m → IsSetMap (drop_marked m vs)
unfolding drop_marked
drop_marked-IsSetMap m [] s = s
drop_marked-IsSetMap m (v ∷ vs) s = elim (Option-cases (get m v)) [
  | inl e ↦ rw (e, drop_marked) (drop_marked-IsSetMap m vs s)
  | inr (b, e) ↦
      let t : Has m v = s.is_true v (λ n. cc) in
      rw (t, drop_marked) (drop_marked-IsSetMap (delete m v) vs (delete-IsSetMap m v s))
]

drop_marked-Has :
    (m : Dict Bool) (vs : List Ip) (k : Bytes)
    → IsSetMap m
    → Has (drop_marked m vs) k ↔ (Has m k × ¬ In k vs)
unfolding drop_marked
drop_marked-Has m [] k s = (λ h. (h, λ n. elim n [ ]), λ h. h.0)
drop_marked-Has m (v ∷ vs) k s = ground (
  arith,
  drop_marked-Has m vs k s,
  drop_marked-Has (delete m v) vs k (delete-IsSetMap m v s),
  get-delete m v k,
  beq_iff v k,
  s.is_true v,
)

complement_map-IsSetMap : (a b : List Ip) → IsSetMap (complement_map a b)
unfolding complement_map
complement_map-IsSetMap a b =
    drop_marked-IsSetMap (mark_bytes [] a) b (mark_bytes-IsSetMap [] a empty-IsSetMap)

In-complement_map :
    (a b : List Ip) (x : Ip) → In x (keys (complement_map a b)) ↔ (In x a × ¬ In x b)
unfolding complement_map get
In-complement_map a b x = ground (
  arith,
  In-keys-Has (complement_map a b) x (complement_map-IsSetMap a b),
  drop_marked-Has (mark_bytes [] a) b x (mark_bytes-IsSetMap [] a empty-IsSetMap),
  mark_bytes-Has [] a x,
)

-- The addresses that `RemoveUsedHosts` keeps are those of `hosts` that are not in `used`.
pub In-remove_used_hosts :
    (hosts used : List Ip) (x : Ip)
    → In x (remove_used_hosts hosts used) ↔ (In x hosts × ¬ In x used)
unfolding remove_used_hosts complementip
In-remove_used_hosts [] used x = (λ n. elim n [ ], λ h. h.0)
In-remove_used_hosts (h ∷ hs) used x =
    ground
      (arith, In-sort x (keys (complement_map (h ∷ hs) used)), In-complement_map (h ∷ hs) used x)

-- `RemoveUsedHosts` returns its addresses in strictly ascending order: sorted by their bytes, and
-- none twice.
pub remove_used_hosts-Ascending : (hosts used : List Ip) → Ascending (remove_used_hosts hosts used)
unfolding remove_used_hosts complementip
remove_used_hosts-Ascending [] used = tt
remove_used_hosts-Ascending (h ∷ hs) used =
    sort-Ascending _ (keys-AllDistinct _ (complement_map-IsSetMap (h ∷ hs) used).is_map)

-- `RemoveUsedHosts` returns the one list in strictly ascending order by bytes, without an address
-- twice, whose addresses are those of `hosts` that are not in `used`.
pub remove_used_hosts_iff :
    (hosts used ys : List Ip)
    → (ys ≡ remove_used_hosts hosts used)
      ↔ (Ascending ys × ((x : Ip) → In x ys ↔ (In x hosts × ¬ In x used)))
remove_used_hosts_iff hosts used ys =
    Ascending-iff _ ys (λ x. In x hosts × ¬ In x used) (remove_used_hosts-Ascending hosts used)
      (In-remove_used_hosts hosts used)

-- The order in which `complementip` ranges over its map does not matter: for a list of addresses
-- that is not empty, any list of the map's keys, each once, sorts to the same result.
pub complementip-order :
    (a b : List Ip) (ks : List Bytes)
    → AllDistinct ks
    → ((k : Bytes) → In k ks ↔ In k (keys (complement_map a b)))
    → a ≢ []
    → sort ks ≡ complementip a b
unfolding complementip
complementip-order [] b ks d same ne = absurd (ne refl)
complementip-order (h ∷ hs) b ks d same ne =
    Ascending-unique _ _ (sort-Ascending ks d)
      (sort-Ascending _ (keys-AllDistinct _ (complement_map-IsSetMap (h ∷ hs) b).is_map))
      (λ k. ground (arith, In-sort k ks, In-sort k (keys (complement_map (h ∷ hs) b)), same k))
