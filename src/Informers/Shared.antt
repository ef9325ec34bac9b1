-- ===== src/Informers/Shared.antt =====
-- informers/externalversions: the informer of a type, asked for again and in other ways.
use network_controller.Common.{
  ◌≡◌, refl, ◌⊎◌, true, false, ◌++◌, Option, none, some, arith, Bool-cases, Option-cases, inl, inr,
}
use network_controller.Go.Text.{Bytes, codes}
use network_controller.Go.Text.Laws.{beq_iff}
use network_controller.Go.Int.{ℤ}
use network_controller.Go.Result.{ok, err, plain}
use network_controller.Go.Map.{Dict, get, put, value_or, get-put, get-put_self}
use network_controller.Informers.{
  Factory, GroupVersionResource, start, informer_for, typed_informer, for_resource, is_resource,
  macvlan_ip_type, macvlan_subnet_type,
}

module _ {C T I : Type 0} where
  -- The period of a new informer.
  abbrev pub period : Factory C T I → Bytes → ℤ
  period f k = value_or f.default_resync (get f.custom_resync k)

  pub informer_for-cases :
      (k : Bytes) (new_func : C → ℤ → I) (f : Factory C T I)
      → ((i : I) × (get f.informers k ≡ some i) × (informer_for k new_func f ≡ (i, f)))
        ⊎ ((get f.informers k ≡ none)
            × (informer_for k new_func f ≡ (
              new_func f.client (period f k),
              record f { informers = put f.informers k (new_func f.client (period f k)) },
            )))
  unfolding informer_for
  informer_for-cases k new_func f = elim (Option-cases (get f.informers k)) [
    | inl e ↦ inr (e, rw (informer_for, e) refl)
    | inr (i, e) ↦ inl (i, e, rw (informer_for, e) refl)
  ]

  pub informer_for-found :
      (k : Bytes) (new_func : C → ℤ → I) (f : Factory C T I) (i : I)
      → get f.informers k ≡ some i
      → informer_for k new_func f ≡ (i, f)
  unfolding informer_for
  informer_for-found k new_func f i e = rw (informer_for, e) refl

  -- The informer that is handed out is kept.
  informer_for-kept :
      (k : Bytes) (new_func : C → ℤ → I) (f : Factory C T I)
      → get (informer_for k new_func f).1.informers k ≡ some (informer_for k new_func f).0
  informer_for-kept k new_func f = elim (informer_for-cases k new_func f) [
    | inl (i, found, same) ↦ rw same found
    | inr (missing, same) ↦ rw same (get-put_self f.informers k (new_func f.client (period f k)))
  ]

  -- What calls make of a factory.
  pub data Later (f : Factory C T I) : Factory C T I → Type 0 where
    here : Later f f
    asked :
        {g : Factory C T I}
        → Later f g
        → (k : Bytes) (new_func : C → ℤ → I) → Later f (informer_for k new_func g).1
    started :
        {g : Factory C T I} → Later f g → (visit : Dict I → Dict I) → Later f (start visit g).0

  Later-get :
      {f g : Factory C T I} (k : Bytes) (i : I)
      → Later f g
      → get f.informers k ≡ some i
      → get g.informers k ≡ some i
  unfolding start
  Later-get k i here e = e
  Later-get k i (started l visit) e = Later-get k i l e
  Later-get {f} k i (asked {g} l j new_func) e =
      let before = Later-get k i l e in
      elim (informer_for-cases j new_func g) [
        | inl (x, found, same) ↦ rw same before
        | inr (missing, same) ↦ rw same (
            ground (
              arith,
              get-put g.informers j k (new_func g.client (period g j)),
              beq_iff j k,
              before,
            ))
      ]

  -- Once the informer of a type was asked for, every later request for this type gets the same one and
  -- leaves the factory as it is, whatever else the factory was asked and however often it was started.
  pub informer_for-shared :
      (f g : Factory C T I) (k : Bytes) (new_func other : C → ℤ → I)
      → Later (informer_for k new_func f).1 g
      → informer_for k other g ≡ ((informer_for k new_func f).0, g)
  informer_for-shared f g k new_func other l =
      informer_for-found k other g (informer_for k new_func f).0
        (Later-get k (informer_for k new_func f).0 l (informer_for-kept k new_func f))

  module _ (make : C → Bytes → Bytes → ℤ → Option T → I) where
    typed_informer-shared :
        (f g : Factory C T I) (k : Bytes)
        → Later (typed_informer make k f).1 g
        → typed_informer make k g ≡ ((typed_informer make k f).0, g)
    unfolding typed_informer
    typed_informer-shared f g k l =
        informer_for-shared f g k
          (λ client resync. make client f.namespace k resync f.tweak_list_options)
          (λ client resync. make client g.namespace k resync g.tweak_list_options) l

    -- By the resource `macvlanips` or `macvlansubnets` of the group one gets the informer that the typed
    -- access to macvlanips or subnets gives at any later time, too; then that access changes nothing. Any
    -- other resource gets an error, which leaves the factory as it is.
    pub for_resource-shared :
        (print : GroupVersionResource → Bytes) (r : GroupVersionResource) (f g : Factory C T I)
        → Later (for_resource make print r f).1 g
        → ((is_resource r (codes "macvlanips") ≡ true)
            × ((i : I) × ((for_resource make print r f).0 ≡ ok i)
                × (typed_informer make macvlan_ip_type g ≡ (i, g))))
          ⊎ (((is_resource r (codes "macvlansubnets") ≡ true)
                × ((i : I) × ((for_resource make print r f).0 ≡ ok i)
                    × (typed_informer make macvlan_subnet_type g ≡ (i, g))))
              ⊎ ((is_resource r (codes "macvlanips") ≡ false)
                  × (is_resource r (codes "macvlansubnets") ≡ false)
                  × (for_resource make print r f
                      ≡ (err (plain (codes "no informer found for " ++ print r)), f))))
    unfolding for_resource
    for_resource-shared print r f g l =
        let ip = (typed_informer make macvlan_ip_type f).0 in
        let subnet = (typed_informer make macvlan_subnet_type f).0 in
        elim (Bool-cases (is_resource r (codes "macvlanips"))) [
          | inl h ↦ inl (h, (ip, rw h refl, typed_informer-shared f g macvlan_ip_type (rw h at l)))
          | inr h ↦ inr (elim (Bool-cases (is_resource r (codes "macvlansubnets"))) [
            | inl e ↦ inl (
              e,
              (
                subnet,
                rw (h, e) refl,
                typed_informer-shared f g macvlan_subnet_type (rw (h, e) at l),
              ),
            )
            | inr e ↦ inr (h, e, rw (h, e) refl)
          ])
        ]
