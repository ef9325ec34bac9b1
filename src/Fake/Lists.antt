-- ===== src/Fake/Lists.antt =====
-- The lists of the clients for tests.
use network_controller.Common.{
  ◌≡◌, refl, ◌↔◌, inl, inr, List, [], ◌∷◌, Option, some, true, In, Bool-cases, none, Option-cases,
}
use network_controller.Go.Text.{Bytes}
use network_controller.Go.Result.{Error, Result, ok, panics}
use network_controller.Go.Map.{made}
use network_controller.Types.{ObjectMeta}
use network_controller.Client.{ListOptions}
use network_controller.Informers.{GroupVersionResource}
use network_controller.Controller.Uniqueness.Lists.{Sublist, nil, lost, kept}
use network_controller.Fake.{
  Fake, GroupVersionKind, ObjectList, a_list, list_action, new_list, matching, label_of, as_list,
  fake_list, Returned, nothing, an_object, a_stranger,
}

module _ {W T M L V : Type 0} (fake : Fake W T M L V) (meta_of : T → ObjectMeta)
    (resource : GroupVersionResource) (kind : GroupVersionKind) (ns : Bytes) where
  -- The labels of the object match the selector.
  abbrev pub IsSelected : L → T → Type 0
  IsSelected label x = fake.matches label (made (meta_of x).labels) ≡ true

  matching-Sublist :
      (label : L) (xs : List T) → Sublist (matching fake meta_of resource kind ns label xs) xs
  unfolding matching
  matching-Sublist label [] = nil
  matching-Sublist label (x ∷ xs) =
      elim (Bool-cases (fake.matches label (made (meta_of x).labels))) [
        | inl h ↦ rw h (kept (matching-Sublist label xs))
        | inr h ↦ rw h (lost (matching-Sublist label xs))
      ]

  In-matching :
      (label : L) (xs : List T) (x : T)
      → In x (matching fake meta_of resource kind ns label xs) ↔ (In x xs × IsSelected label x)
  unfolding matching
  In-matching label [] x = (λ i. elim i [ ], λ h. h.0)
  In-matching label (y ∷ ys) x =
      let rest = In-matching label ys x in
      elim (Bool-cases (fake.matches label (made (meta_of y).labels))) [
        | inl h ↦ rw h (
          λ i. elim i [ inl e ↦ (inl e, rw e h) | inr j ↦ (inr (rest.0 j).0, (rest.0 j).1) ],
          λ (i, s). elim i [ inl e ↦ inl e | inr j ↦ inr (rest.1 (j, s)) ],
        )
        | inr h ↦ rw h (
          λ i. (inr (rest.0 i).0, (rest.0 i).1),
          λ (i, s). elim i [ inl e ↦ absurd (cc (rw e at s)) | inr j ↦ rest.1 (j, s) ],
        )
      ]

  -- The selector that the options ask for: their own one, or the one for everything.
  pub data Asks (opts : ListOptions) : L → Type 0 where
    own : {label : L} → fake.extract_label opts ≡ some label → Asks opts label
    all : fake.extract_label opts ≡ none → Asks opts fake.everything

  -- What `List` returns for what the fake returned: nothing for nothing; for a list the same one with
  -- those of its objects, in its order, whose labels match the selector of the options, or the selector
  -- for everything if they have none; and it panics on an object that is no list. The error of the fake
  -- stands beside the first two.
  pub data Listed (opts : ListOptions) (e : Option Error)
      : Returned T M → Result (Option (ObjectList T M) × Option Error) → Type 0 where
    nothing_listed : Listed opts e nothing (ok (none, e))
    selected :
        {l : ObjectList T M} (label : L) (items : List T)
        → Asks opts label
        → Sublist items l.items
        → ((x : T) → In x items ↔ (In x l.items × IsSelected label x))
        → Listed opts e (a_list l) (ok (some (record l { items = items }), e))
    object_listed : {x : T} → Listed opts e (an_object x) panics
    stranger_listed : Listed opts e a_stranger panics

  label_of-Asks : (opts : ListOptions) → Asks opts (label_of fake meta_of resource kind ns opts)
  unfolding label_of
  label_of-Asks opts = elim (Option-cases (fake.extract_label opts)) [
    | inl h ↦ rw (label_of, h) (all h)
    | inr (label, h) ↦ rw (label_of, h) (own h)
  ]

  as_list-Listed :
      (opts : ListOptions) (o : Returned T M) (e : Option Error) (w : W)
      → (r : Result (Option (ObjectList T M) × Option Error)) × (as_list fake meta_of resource kind
            ns opts
            (o, e)
            w
          ≡ (r, w))
        × Listed opts e o r
  unfolding as_list
  as_list-Listed opts nothing e w = (_, refl, nothing_listed)
  as_list-Listed opts (an_object x) e w = (_, refl, object_listed)
  as_list-Listed opts (a_list l) e w =
      let label = label_of fake meta_of resource kind ns opts in
      (
        _,
        refl,
        selected label (matching fake meta_of resource kind ns label l.items) (label_of-Asks opts)
            (matching-Sublist label l.items) (In-matching label l.items),
      )
  as_list-Listed opts a_stranger e w = (_, refl, stranger_listed)

  -- Whatever the fake returns for the one action of a list with the given options, `List` of a client
  -- for tests makes the result of it that `Listed` says, and does nothing more.
  pub fake_list-Listed :
      (opts : ListOptions) (o : Returned T M) (e : Option Error) (w v : W)
      → fake.invokes (list_action resource kind ns opts) new_list w ≡ (ok (o, e), v)
      → (r : Result (Option (ObjectList T M) × Option Error)) × (fake_list fake meta_of resource
            kind ns opts w
          ≡ (r, v))
        × Listed opts e o r
  unfolding fake_list
  fake_list-Listed opts o e w v answer =
      let (r, same, is_listed) = as_list-Listed opts o e v in (r, rw answer same, is_listed)
