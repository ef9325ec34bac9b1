-- ===== src/Ipcalc/Intersection.antt =====
-- `intersectionip`: the intersection of two lists as sets, keyed by the text of the addresses.
use network_controller.Common.{
  ◌≡◌, refl, sym, ap, ◌∙◌, subst, ◌↔◌, ◌⊎◌, inl, inr, Bool, true, false, List, [], ◌∷◌, map, arith,
  not, Bool-cases, In, All,
}
use network_controller.Go.Text.{Bytes}
use network_controller.Go.Text.Laws.{beq_iff}
use network_controller.Go.Map.{
  Dict, get, put, delete, keys, get-put, get-delete, AllDistinct, keys-AllDistinct, value_or,
}
use network_controller.Go.Sort.{sort, In-sort, sort-Ascending, Ascending-iff, Ascending}
use network_controller.Go.Net.{Ip, parse_ip, ip_string}
use network_controller.Ipcalc.{
  mark_texts, drop_missing, intersection_map, intersectionip, get_usable_hosts,
}
use network_controller.Ipcalc.Sets.{
  Has, IsSetMap, empty-IsSetMap, put-IsSetMap, delete-IsSetMap, In-keys-Has,
}

-- An address that its text gives back.
abbrev pub IsCanonical : Ip → Type 0
IsCanonical ip = parse_ip (ip_string ip) ≡ ip

mark_texts-IsSetMap : (m : Dict Bool) (vs : List Ip) → IsSetMap m → IsSetMap (mark_texts m vs)
unfolding mark_texts
mark_texts-IsSetMap m [] s = s
mark_texts-IsSetMap m (v ∷ vs) s =
    mark_texts-IsSetMap (put m (ip_string v) true) vs (put-IsSetMap m (ip_string v) s)

mark_texts-Has :
    (m : Dict Bool) (vs : List Ip) (k : Bytes)
    → Has (mark_texts m vs) k ↔ (In k (map ip_string vs) ⊎ Has m k)
unfolding mark_texts
mark_texts-Has m [] k = (λ h. inr h, λ h. elim h [ inl n ↦ elim n [ ] | inr h' ↦ h' ])
mark_texts-Has m (v ∷ vs) k = ground (
  arith,
  mark_texts-Has (put m (ip_string v) true) vs k,
  get-put m (ip_string v) k true,
  beq_iff (ip_string v) k,
)

drop_missing-IsSetMap :
    (m2 m1 : Dict Bool) (vs : List Ip) → IsSetMap m1 → IsSetMap (drop_missing m2 m1 vs)
unfolding drop_missing
drop_missing-IsSetMap m2 m1 [] s = s
drop_missing-IsSetMap m2 m1 (v ∷ vs) s =
    elim (Bool-cases (not (value_or false (get m2 (ip_string v))))) [
      | inl e ↦
          rw (e, drop_missing)
            (drop_missing-IsSetMap m2 (delete m1 (ip_string v)) vs
              (delete-IsSetMap m1 (ip_string v) s))
      | inr e ↦ rw (e, drop_missing) (drop_missing-IsSetMap m2 m1 vs s)
    ]

drop_missing-Has :
    (m2 m1 : Dict Bool) (vs : List Ip) (k : Bytes)
    → IsSetMap m2
    → Has (drop_missing m2 m1 vs) k ↔ (Has m1 k × (Has m2 k ⊎ (¬ In k (map ip_string vs))))
unfolding drop_missing
drop_missing-Has m2 m1 [] k s = (λ h. (h, inr (λ n. elim n [ ])), λ h. h.0)
drop_missing-Has m2 m1 (v ∷ vs) k s = ground (
  arith,
  drop_missing-Has m2 m1 vs k s,
  drop_missing-Has m2 (delete m1 (ip_string v)) vs k s,
  get-delete m1 (ip_string v) k,
  beq_iff (ip_string v) k,
  s.is_true (ip_string v),
)

intersection_map-IsSetMap : (s1 s2 : List Ip) → IsSetMap (intersection_map s1 s2)
unfolding intersection_map
intersection_map-IsSetMap s1 s2 =
    drop_missing-IsSetMap (mark_texts [] s2) (mark_texts [] s1) s1
      (mark_texts-IsSetMap [] s1 empty-IsSetMap)

In-intersection_map :
    (s1 s2 : List Ip) (k : Bytes)
    → In k (keys (intersection_map s1 s2)) ↔ (In k (map ip_string s1) × In k (map ip_string s2))
unfolding intersection_map get
In-intersection_map s1 s2 k = ground (
  arith,
  In-keys-Has (intersection_map s1 s2) k (intersection_map-IsSetMap s1 s2),
  drop_missing-Has (mark_texts [] s2) (mark_texts [] s1) s1 k
      (mark_texts-IsSetMap [] s2 empty-IsSetMap),
  mark_texts-Has [] s1 k,
  mark_texts-Has [] s2 k,
)

module _ (f : Bytes → Bytes) where
  In-map : (y : Bytes) (xs : List Bytes) → In y (map f xs) → (x : Bytes) × In x xs × (f x ≡ y)
  In-map y [] i = elim i [ ]
  In-map y (x ∷ xs) (inl e) = (x, inl refl, sym e)
  In-map y (x ∷ xs) (inr i) = let (z, j, e) = In-map y xs i in (z, inr j, e)

  In-map_of_In : (x : Bytes) (xs : List Bytes) → In x xs → In (f x) (map f xs)
  In-map_of_In x [] i = elim i [ ]
  In-map_of_In x (y ∷ xs) (inl e) = inl (ap f e)
  In-map_of_In x (y ∷ xs) (inr i) = inr (In-map_of_In x xs i)

  -- A map that can be undone on the list keeps its entries apart.
  map-AllDistinct :
      (g : Bytes → Bytes) (xs : List Bytes)
      → ((x : Bytes) → In x xs → g (f x) ≡ x)
      → AllDistinct xs
      → AllDistinct (map f xs)
  map-AllDistinct g [] undo d = tt
  map-AllDistinct g (x ∷ xs) undo d = (
    λ i.
        let (z, j, e) = In-map (f x) xs i in
        let z_eq : z ≡ x = sym (undo z (inr j)) ∙ ap g e ∙ undo x (inl refl) in d.0 (rw z_eq at j),
    map-AllDistinct g xs (λ y i. undo y (inr i)) d.1,
  )

pub All-In : (P : Ip → Type 0) (xs : List Ip) (x : Ip) → All P xs → In x xs → P x
All-In P [] x h i = elim i [ ]
All-In P (y ∷ xs) x h (inl e) = subst P (sym e) h.0
All-In P (y ∷ xs) x h (inr i) = All-In P xs x h.1 i

module _ (s1 : List Ip) (c1 : All IsCanonical s1) where
  text-canonical :
      (k : Bytes)
      → In k (map ip_string s1)
      → (x : Ip) × In x s1 × (ip_string x ≡ k) × (parse_ip k ≡ x)
  text-canonical k i =
      let (x, j, e) = In-map ip_string k s1 i in
      (x, j, e, ap parse_ip (sym e) ∙ All-In IsCanonical s1 x c1 j)

  -- Whatever the second list is, nothing comes out that is not in the first one.
  pub get_usable_hosts_sub : (s2 : List Ip) (x : Ip) → In x (get_usable_hosts s1 s2) → In x s1
  unfolding get_usable_hosts intersectionip
  get_usable_hosts_sub s2 x i =
      let ks = keys (intersection_map s1 s2) in
      let (k, j, e) = In-map parse_ip x ks ((In-sort x (map parse_ip ks)).0 i) in
      let (y, y_in, _, y_eq) = text-canonical k ((In-intersection_map s1 s2 k).0 j).0 in
      let same : y ≡ x = sym y_eq ∙ e in rw same at y_in

module _ (s1 s2 : List Ip) (c1 : All IsCanonical s1) (c2 : All IsCanonical s2) where
  -- The addresses that `GetUsableHosts` keeps are those that stand in both lists, provided that
  -- each address is given back by its text, as nil and the IPv4 addresses are.
  pub In-get_usable_hosts : (x : Ip) → In x (get_usable_hosts s1 s2) ↔ (In x s1 × In x s2)
  unfolding get_usable_hosts intersectionip
  In-get_usable_hosts x = (there, back)
    where
      ks : List Bytes
      ks = keys (intersection_map s1 s2)

      there : In x (sort (map parse_ip ks)) → In x s1 × In x s2
      there i =
          let (k, j, e) = In-map parse_ip x ks ((In-sort x (map parse_ip ks)).0 i) in
          let k2 = ((In-intersection_map s1 s2 k).0 j).1 in
          let (z, z_in, z_text) = In-map ip_string k s2 k2 in
          let x_z : z ≡ x = sym (All-In IsCanonical s2 z c2 z_in) ∙ ap parse_ip z_text ∙ e in
          (get_usable_hosts_sub s1 c1 s2 x i, rw x_z at z_in)

      back : In x s1 × In x s2 → In x (sort (map parse_ip ks))
      back (i1, i2) =
          let j =
            (In-intersection_map s1 s2 (ip_string x)).1
              (In-map_of_In ip_string x s1 i1, In-map_of_In ip_string x s2 i2) in
          (In-sort x (map parse_ip ks)).1
            (rw (All-In IsCanonical s1 x c1 i1) at (In-map_of_In parse_ip (ip_string x) ks j))

  -- `GetUsableHosts` returns its addresses in strictly ascending order, under the same condition on
  -- both lists.
  pub get_usable_hosts-Ascending : Ascending (get_usable_hosts s1 s2)
  unfolding get_usable_hosts intersectionip
  get_usable_hosts-Ascending = sort-Ascending _ (
      map-AllDistinct parse_ip ip_string (keys (intersection_map s1 s2))
        (λ k i.
          let (x, _, text, parsed) = text-canonical s1 c1 k ((In-intersection_map s1 s2 k).0 i).0 in
          ap ip_string parsed ∙ text)
        (keys-AllDistinct _ (intersection_map-IsSetMap s1 s2).is_map))

  -- `GetUsableHosts` returns the one list in strictly ascending order by bytes, without an address
  -- twice, whose addresses are those that stand in both lists, provided that each address of both is
  -- given back by its text, as nil and the IPv4 addresses are.
  pub get_usable_hosts_iff :
      (ys : List Ip)
      → (ys ≡ get_usable_hosts s1 s2) ↔ (Ascending ys × ((x : Ip) → In x ys ↔ (In x s1 × In x s2)))
  get_usable_hosts_iff ys =
      Ascending-iff _ ys (λ x. In x s1 × In x s2) get_usable_hosts-Ascending In-get_usable_hosts
