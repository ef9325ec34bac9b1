-- ===== src/Controller/Effects/Handlers.antt =====
-- The functions that the informers call: they return, and without an error.
use network_controller.Common.{
  ◌≡◌, refl, inl, inr, Option, none, some, In, subst, sym, Option-cases,
}
use network_controller.Go.Text.{Bytes, codes}
use network_controller.Go.Result.{Result, ok, err, panics, hangs}
use network_controller.Go.Exec.{Exec, ignoring, pure, ◌>>=◌}
use network_controller.Types.{
  Object, MacvlanSubnet, Attachment, a_pod, a_subnet, a_namespace, another,
}
use network_controller.Cluster.{Cluster}
use network_controller.Controller.Macvlanip.{enqueue_pod}
use network_controller.Controller.Subnet.{on_macvlan_subnet_add, completed}
use network_controller.Controller.Netattachdef.{
  on_namespace_add, on_namespace_delete, make_network_attachment_definition,
}
use network_controller.Controller.Service.{net_attach_def_name}
use network_controller.Controller.Setup.{Informer, Handlers, Startup, registrations}
use network_controller.Controller.Effects.Purging.{Answers}

module _ (c : Cluster) (startup : Startup c.World) where
  -- The function is one that a new controller registers for additions or for deletions.
  pub data IsRegistered (f : Object → Exec c.World (Unit {0})) : Type 0 where
    adds :
        (i : Informer) (h : Handlers c.World)
        → In (i, h) (registrations c startup)
        → h.add_func ≡ some f
        → IsRegistered f
    deletes :
        (i : Informer) (h : Handlers c.World)
        → In (i, h) (registrations c startup)
        → h.delete_func ≡ some f
        → IsRegistered f

  module _
      (updating : (n : Bytes) (s : MacvlanSubnet) (w : c.World) → Answers (c.update_subnet n s w).0)
      (creating : (n : Bytes) (a : Attachment) (w : c.World)
        → Answers (c.create_attachment n a w).0)
      (deleting : (n m : Bytes) (w : c.World) → Answers (c.delete_attachment n m w).0) where
    abbrev Returns : (Object → Exec c.World (Unit {0})) → Type 0
    Returns f = (obj : Object) (w : c.World) → (f obj w).0 ≡ ok tt

    -- The function returns, if there is one.
    abbrev ReturnsIfAny : Option (Object → Exec c.World (Unit {0})) → Type 0
    ReturnsIfAny none = Unit
    ReturnsIfAny (some f) = Returns f

    updated-ok :
        {A : Type 0} (r : Result A) (w : c.World)
        → Answers r
        → (ignoring tt ((λ u. (r, u)) >>= λ _. pure tt) w).0 ≡ ok tt
    updated-ok (ok a) w h = refl
    updated-ok (err e) w h = refl
    updated-ok panics w h = absurd h
    updated-ok hangs w h = absurd h

    made-ok :
        (r : Result (Unit {0})) (w : c.World) → Answers r → (ignoring tt (λ u. (r, u)) w).0 ≡ ok tt
    made-ok (ok tt) w h = refl
    made-ok (err e) w h = refl
    made-ok panics w h = absurd h
    made-ok hangs w h = absurd h

    enqueue_pod-Returns : Returns (enqueue_pod c)
    unfolding enqueue_pod
    enqueue_pod-Returns obj w = elim (Option-cases (c.meta_namespace_key obj)) [
      | inl e ↦ rw (enqueue_pod, e)
      | inr (k, e) ↦ rw (enqueue_pod, e)
    ]

    on_macvlan_subnet_add-Returns : Returns (on_macvlan_subnet_add c)
    unfolding on_macvlan_subnet_add
    on_macvlan_subnet_add-Returns (a_subnet subnet) w =
        let (r, v) = c.update_subnet (codes "kube-system") (completed subnet) w in
        updated-ok r v (updating (codes "kube-system") (completed subnet) w)
    on_macvlan_subnet_add-Returns (a_pod pod) w = refl
    on_macvlan_subnet_add-Returns (a_namespace ns) w = refl
    on_macvlan_subnet_add-Returns another w = refl

    on_namespace_add-Returns : Returns (on_namespace_add c)
    unfolding on_namespace_add
    on_namespace_add-Returns (a_namespace ns) w =
        let a = make_network_attachment_definition net_attach_def_name ns.meta.name in
        let (r, v) = c.create_attachment ns.meta.name a w in made-ok r v (creating ns.meta.name a w)
    on_namespace_add-Returns (a_pod pod) w = refl
    on_namespace_add-Returns (a_subnet subnet) w = refl
    on_namespace_add-Returns another w = refl

    on_namespace_delete-Returns : Returns (on_namespace_delete c)
    unfolding on_namespace_delete
    on_namespace_delete-Returns (a_namespace ns) w =
        let (r, v) = c.delete_attachment ns.meta.name net_attach_def_name w in
        made-ok r v (deleting ns.meta.name net_attach_def_name w)
    on_namespace_delete-Returns (a_pod pod) w = refl
    on_namespace_delete-Returns (a_subnet subnet) w = refl
    on_namespace_delete-Returns another w = refl

    -- What is asked of a registration.
    abbrev IsHarmless : Informer × Handlers c.World → Type 0
    IsHarmless p = ReturnsIfAny p.1.add_func × ReturnsIfAny p.1.delete_func

    registrations-IsHarmless :
        (p : Informer × Handlers c.World) → In p (registrations c startup) → IsHarmless p
    unfolding registrations
    registrations-IsHarmless p (inl e) = subst IsHarmless (sym e) (enqueue_pod-Returns, tt)
    registrations-IsHarmless p (inr (inl e)) =
        subst IsHarmless (sym e) (on_macvlan_subnet_add-Returns, tt)
    registrations-IsHarmless p (inr (inr (inl e))) =
        subst IsHarmless (sym e) (on_namespace_add-Returns, on_namespace_delete-Returns)
    registrations-IsHarmless p (inr (inr (inr n))) = elim n [ ]

    -- While the calls that update a subnet, create an attachment and delete one come back with a
    -- value or an error, each function that a new controller registers with an informer returns
    -- normally and reports no error, whatever object it is called with.
    pub IsRegistered-ok :
        (f : Object → Exec c.World (Unit {0})) (obj : Object) (w : c.World)
        → IsRegistered f
        → (f obj w).0 ≡ ok tt
    IsRegistered-ok f obj w (adds i h there has) =
        subst ReturnsIfAny has (registrations-IsHarmless (i, h) there).0 obj w
    IsRegistered-ok f obj w (deletes i h there has) =
        subst ReturnsIfAny has (registrations-IsHarmless (i, h) there).1 obj w
