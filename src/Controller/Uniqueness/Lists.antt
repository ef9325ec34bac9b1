-- ===== src/Controller/Uniqueness/Lists.antt =====
-- Lists without an entry twice, and the addresses of a list of macvlanips, under insertion and
-- removal in the middle.
use network_controller.Common.{
  ◌≡◌, refl, sym, ◌⊎◌, inl, inr, List, [], ◌∷◌, ◌++◌, In, In-append, Option-cases, arith,
}
use network_controller.Go.Text.{Bytes, split}
use network_controller.Go.Map.{AllDistinct}
use network_controller.Go.Net.{Ip, parse_ip}
use network_controller.Go.Net.Laws.{IsIpv4, parse_ip-ip_string}
use network_controller.Types.{MacvlanIp}
use network_controller.Controller.Hosts.{front_of_two, convert_to_ip_list, convert_ip_to_cidr}
use network_controller.Controller.Hosts.Used.{HasOneSlash, convert_ip_to_cidr-split}

In-middle : (y x : Bytes) (a b : List Bytes) → In y (a ++ x ∷ b) → (y ≡ x) ⊎ In y (a ++ b)
In-middle y x a b i = ground (arith, In-append y a (x ∷ b), In-append y a b)

In-around : (y x : Bytes) (a b : List Bytes) → In y (a ++ b) → In y (a ++ x ∷ b)
In-around y x a b i = ground (arith, In-append y a (x ∷ b), In-append y a b)

pub insert-AllDistinct :
    (x : Bytes) (a b : List Bytes)
    → ¬ In x (a ++ b)
    → AllDistinct (a ++ b)
    → AllDistinct (a ++ x ∷ b)
insert-AllDistinct x [] b n d = (n, d)
insert-AllDistinct x (y ∷ a) b n d = (
  λ i. elim (In-middle y x a b i) [ inl e ↦ n (inl (sym e)) | inr j ↦ d.0 j ],
  insert-AllDistinct x a b (λ i. n (inr i)) d.1,
)

pub convert_to_ip_list-append :
    (a b : List MacvlanIp)
    → convert_to_ip_list (a ++ b) ≡ convert_to_ip_list a ++ convert_to_ip_list b
unfolding convert_to_ip_list
convert_to_ip_list-append [] b = refl
convert_to_ip_list-append (x ∷ a) b = elim (Option-cases (front_of_two (split x.spec.cidr b'/'))) [
  | inl e ↦ rw (e, convert_to_ip_list) (convert_to_ip_list-append a b)
  | inr (t, e) ↦ rw (e, convert_to_ip_list, convert_to_ip_list-append a b)
]

-- A macvlanip with the text that an allocation wrote stands for the allocated address.
pub convert_to_ip_list-written :
    (item : MacvlanIp) (items : List MacvlanIp) (ip : Ip) (cidr : Bytes)
    → IsIpv4 ip
    → HasOneSlash cidr
    → item.spec.cidr ≡ convert_ip_to_cidr ip cidr
    → convert_to_ip_list (item ∷ items) ≡ ip ∷ convert_to_ip_list items
unfolding convert_to_ip_list front_of_two
convert_to_ip_list-written item items ip cidr v s e =
    let (b, parts) = convert_ip_to_cidr-split ip cidr v s in
    rw (e, parts, convert_to_ip_list, parse_ip-ip_string v)

-- The addresses behind one more item: one more address, or none.
convert_to_ip_list-cons :
    (x : MacvlanIp) (b : List MacvlanIp)
    → (convert_to_ip_list (x ∷ b) ≡ convert_to_ip_list b)
      ⊎ ((ip : Ip) × (convert_to_ip_list (x ∷ b) ≡ ip ∷ convert_to_ip_list b))
unfolding convert_to_ip_list
convert_to_ip_list-cons x b = elim (Option-cases (front_of_two (split x.spec.cidr b'/'))) [
  | inl e ↦ inl (rw (e, convert_to_ip_list))
  | inr (t, e) ↦ inr (parse_ip t, rw (e, convert_to_ip_list))
]

-- No two of the items have the same address.
abbrev pub HaveOwnAddresses : List MacvlanIp → Type 0
HaveOwnAddresses items = AllDistinct (convert_to_ip_list items)

pub one-HaveOwnAddresses : (x : MacvlanIp) → HaveOwnAddresses (x ∷ [])
unfolding convert_to_ip_list
one-HaveOwnAddresses x = elim (convert_to_ip_list-cons x []) [
  | inl e ↦ rw e tt
  | inr (ip, e) ↦ rw e (λ i. elim i [ ], tt)
]

pub insert-HaveOwnAddresses :
    (item : MacvlanIp) (a b : List MacvlanIp) (ip : Ip) (cidr : Bytes)
    → IsIpv4 ip
    → HasOneSlash cidr
    → item.spec.cidr ≡ convert_ip_to_cidr ip cidr
    → ¬ In ip (convert_to_ip_list (a ++ b))
    → HaveOwnAddresses (a ++ b)
    → HaveOwnAddresses (a ++ item ∷ b)
insert-HaveOwnAddresses item a b ip cidr v s e free d =
    rw (convert_to_ip_list-append a (item ∷ b), convert_to_ip_list-written item b ip cidr v s e)
      (insert-AllDistinct ip (convert_to_ip_list a) (convert_to_ip_list b)
        (rw (convert_to_ip_list-append a b) at free) (rw (convert_to_ip_list-append a b) at d))

-- The first list is the second one, some of whose items are gone.
pub data Sublist {A : Type 0} : List A → List A → Type 0 where
  nil : Sublist [] []
  lost : {x : A} {xs ys : List A} → Sublist xs ys → Sublist xs (x ∷ ys)
  kept : {x : A} {xs ys : List A} → Sublist xs ys → Sublist (x ∷ xs) (x ∷ ys)

module _ {A : Type 0} where
  pub Sublist-refl : (xs : List A) → Sublist xs xs
  Sublist-refl [] = nil
  Sublist-refl (x ∷ xs) = kept (Sublist-refl xs)

  pub Sublist-trans :
      {ys zs : List A} → Sublist ys zs → {xs : List A} → Sublist xs ys → Sublist xs zs
  Sublist-trans nil s = s
  Sublist-trans (lost t) s = lost (Sublist-trans t s)
  Sublist-trans (kept t) (lost s) = lost (Sublist-trans t s)
  Sublist-trans (kept t) (kept s) = kept (Sublist-trans t s)

  pub Sublist-In : {xs ys : List A} (a : A) → Sublist xs ys → In a xs → In a ys
  Sublist-In a nil i = i
  Sublist-In a (lost s) i = inr (Sublist-In a s i)
  Sublist-In a (kept s) (inl e) = inl e
  Sublist-In a (kept s) (inr i) = inr (Sublist-In a s i)

Sublist-AllDistinct : {xs ys : List Bytes} → Sublist xs ys → AllDistinct ys → AllDistinct xs
Sublist-AllDistinct nil d = d
Sublist-AllDistinct (lost s) (n, d) = Sublist-AllDistinct s d
Sublist-AllDistinct (kept {x} s) (n, d) = (λ i. n (Sublist-In x s i), Sublist-AllDistinct s d)

-- So are the addresses.
pub convert_to_ip_list-Sublist :
    {xs ys : List MacvlanIp}
    → Sublist xs ys
    → Sublist (convert_to_ip_list xs) (convert_to_ip_list ys)
unfolding convert_to_ip_list
convert_to_ip_list-Sublist nil = nil
convert_to_ip_list-Sublist (lost {x} {xs} {ys} s) = elim (convert_to_ip_list-cons x ys) [
  | inl e ↦ rw e (convert_to_ip_list-Sublist s)
  | inr (ip, e) ↦ rw e (lost (convert_to_ip_list-Sublist s))
]
convert_to_ip_list-Sublist (kept {x} {xs} {ys} s) =
    elim (Option-cases (front_of_two (split x.spec.cidr b'/'))) [
      | inl e ↦ rw (e, convert_to_ip_list) (convert_to_ip_list-Sublist s)
      | inr (t, e) ↦ rw (e, convert_to_ip_list) (kept (convert_to_ip_list-Sublist s))
    ]

pub Sublist-HaveOwnAddresses :
    {xs ys : List MacvlanIp} → Sublist xs ys → HaveOwnAddresses ys → HaveOwnAddresses xs
Sublist-HaveOwnAddresses s d = Sublist-AllDistinct (convert_to_ip_list-Sublist s) d
