-- ===== src/Controller/Uniqueness/Runs.antt =====
-- Runs of the controller: the queue, the purge and the handlers of events in any order. One worker
-- runs (`c.Run(1, stopCh)` of main.go): an item of the queue, a purge and a handler is one step,
-- during each call of which others may delete macvlanips, as the other goroutines do.
use network_controller.Common.{
  ℕ, true, false, List, [], ◌∷◌, ◌++◌, none, some, if◌then◌else◌, sym, subst, In, inl, inr, Option,
}
use network_controller.Go.Text.{Bytes, codes}
use network_controller.Go.Result.{Error, plain, error_text, is_not_found}
use network_controller.Go.Exec.{Exec, pure, raise, catch, perform, ◌>>=◌}
use network_controller.Go.Exec.Keeps.{
  Keeps, option-Keeps, keeps_rules, if-Keeps, >>=-Keeps, catch-Keeps, deferring-Keeps, pure-Keeps,
  raise-Keeps,
}
use network_controller.Types.{
  MacvlanIp, WorkItem, Object, key, alien, a_pod, a_subnet, a_namespace, another,
}
use network_controller.Cluster.{Cluster}
use network_controller.Controller.Macvlanip.{enqueue_pod}
use network_controller.Controller.Subnet.{on_macvlan_subnet_add}
use network_controller.Controller.Netattachdef.{on_namespace_add, on_namespace_delete}
use network_controller.Controller.Setup.{Informer, Handlers, Startup, registrations}
use network_controller.Controller.Effects.Handlers.{IsRegistered, adds, deletes}
use network_controller.Controller.Purge.{is_pod_not_exist, delete_one, purge_loop, purge}
use network_controller.Controller.Queue.{sync_handler, process_item, process_next_work_item}
use network_controller.Controller.Uniqueness.Server.{IsStore, Fewer, Loses}
use network_controller.Controller.Uniqueness.Losing
use network_controller.Controller.Uniqueness.Handler.{AllApart, AllApart-IsClosed, Apart}
use network_controller.Controller.Uniqueness.Modes.{do_add_macvlan_ip-Apart}

module _ (c : Cluster) (ips : c.World → Bytes → List MacvlanIp) (store : IsStore c ips) where
  abbrev Good : c.World → Type 0
  Good = Apart c ips store

  quietly : {A : Type 0} (m : Exec c.World A) → Loses ips m → Keeps Good m
  quietly m l = Losing.quietly c ips store AllApart AllApart-IsClosed m l

  found_pod :
      (ns name : Bytes)
      → Keeps Good (
          catch
            (c.lister_pod ns name >>= λ pod. pure (some pod))
            (λ e. if is_not_found e then pure none else raise e))
  found_pod ns name = search (keeps_rules, quietly, store.others.lister_pod_loses)

  sync_handler-Good : (k : Bytes) → Keeps Good (sync_handler c k)
  unfolding sync_handler
  sync_handler-Good k =
      option-Keeps Good (c.split_meta_namespace_key k) _ _ (pure-Keeps Good tt) (λ parts.
        >>=-Keeps Good _ _ (found_pod parts.0 parts.1) (λ found.
          option-Keeps Good found _ _ (pure-Keeps Good tt) (do_add_macvlan_ip-Apart c ips store)))

  process_item-Good : (item : WorkItem) → Keeps Good (process_item c item)
  unfolding process_item
  process_item-Good alien =
      quietly (perform (c.queue_forget alien)) (store.others.forget_loses alien)
  process_item-Good (key k) =
      let again =
        quietly (perform (c.queue_add_rate_limited (key k)))
          (store.others.rate_limited_loses (key k)) in
      let forgotten =
        quietly (perform (c.queue_forget (key k))) (store.others.forget_loses (key k)) in
      let requeued = λ (e : Error). plain (
        codes "error syncing '" ++ (k ++ (codes "': " ++ (error_text e ++ codes ", requeuing")))) in
      >>=-Keeps Good _ _
        (catch-Keeps Good _ _ (sync_handler-Good k)
          (λ e. >>=-Keeps Good _ _ again (λ _. raise-Keeps Good (requeued e))))
        (λ _. forgotten)

  process_next_work_item-Good : Keeps Good (process_next_work_item c)
  unfolding process_next_work_item
  process_next_work_item-Good =
      >>=-Keeps Good c.queue_get _ (quietly c.queue_get store.others.queue_get_loses) (λ obj.
        option-Keeps Good obj _ _ (pure-Keeps Good false) (λ item.
          let done = quietly (perform (c.queue_done item)) (store.others.done_loses item) in
          let ended = deferring-Keeps Good _ _ done (process_item-Good item) in
          >>=-Keeps Good _ _ (catch-Keeps Good _ _ ended (λ e. pure-Keeps Good tt))
            (λ _. pure-Keeps Good true)))

  deleted : (ns name : Bytes) → Keeps Good (c.delete_macvlan_ip ns name)
  deleted ns name = quietly (c.delete_macvlan_ip ns name) (store.delete_loses ns name)

  delete_one-Good : (ip : MacvlanIp) → Keeps Good (delete_one c ip)
  unfolding delete_one
  delete_one-Good ip = search (keeps_rules, deleted)

  is_pod_not_exist-Good : (ip : MacvlanIp) → Keeps Good (is_pod_not_exist c ip)
  unfolding is_pod_not_exist
  is_pod_not_exist-Good ip = search (keeps_rules, quietly, store.others.lister_pod_loses)

  purge_loop-Good : (items : List MacvlanIp) (count : ℕ) → Keeps Good (purge_loop c count items)
  unfolding purge_loop
  purge_loop-Good [] count = search keeps_rules
  purge_loop-Good (ip ∷ items) count = >>=-Keeps Good _ _ (is_pod_not_exist-Good ip) (λ gone.
      >>=-Keeps Good _ _ (if-Keeps Good gone _ _ (delete_one-Good ip) (pure-Keeps Good false))
        (λ gone_now. purge_loop-Good items _))

  purge-Good : Keeps Good (purge c)
  unfolding purge
  purge-Good = search (keeps_rules, quietly, store.lister_loses, purge_loop-Good)

  enqueue_pod-Good : (obj : Object) → Keeps Good (enqueue_pod c obj)
  unfolding enqueue_pod
  enqueue_pod-Good obj =
      option-Keeps Good (c.meta_namespace_key obj) _ _ (pure-Keeps Good tt)
        (λ k. quietly (perform (c.queue_add (key k))) (store.others.add_loses (key k)))

  subnet_add-Good : (obj : Object) → Keeps Good (on_macvlan_subnet_add c obj)
  unfolding on_macvlan_subnet_add
  subnet_add-Good (a_subnet s) = search (keeps_rules, quietly, store.update_subnet_loses)
  subnet_add-Good (a_pod p) = pure-Keeps Good tt
  subnet_add-Good (a_namespace n) = pure-Keeps Good tt
  subnet_add-Good another = pure-Keeps Good tt

  namespace_add-Good : (obj : Object) → Keeps Good (on_namespace_add c obj)
  unfolding on_namespace_add
  namespace_add-Good (a_namespace n) =
      search (keeps_rules, quietly, store.others.create_attachment_loses)
  namespace_add-Good (a_pod p) = pure-Keeps Good tt
  namespace_add-Good (a_subnet s) = pure-Keeps Good tt
  namespace_add-Good another = pure-Keeps Good tt

  namespace_delete-Good : (obj : Object) → Keeps Good (on_namespace_delete c obj)
  unfolding on_namespace_delete
  namespace_delete-Good (a_namespace n) =
      search (keeps_rules, quietly, store.others.delete_attachment_loses)
  namespace_delete-Good (a_pod p) = pure-Keeps Good tt
  namespace_delete-Good (a_subnet s) = pure-Keeps Good tt
  namespace_delete-Good another = pure-Keeps Good tt

  -- The function, if there is one, leaves the addresses apart.
  abbrev GoodIfAny : Option (Object → Exec c.World (Unit {0})) → Type 0
  GoodIfAny none = Unit
  GoodIfAny (some f) = (obj : Object) → Keeps Good (f obj)

  abbrev AreGood : Informer × Handlers c.World → Type 0
  AreGood p = GoodIfAny p.1.add_func × GoodIfAny p.1.delete_func

  module _ (startup : Startup c.World) where
    registrations-AreGood :
        (p : Informer × Handlers c.World) → In p (registrations c startup) → AreGood p
    unfolding registrations
    registrations-AreGood p (inl e) = subst AreGood (sym e) (enqueue_pod-Good, tt)
    registrations-AreGood p (inr (inl e)) = subst AreGood (sym e) (subnet_add-Good, tt)
    registrations-AreGood p (inr (inr (inl e))) =
        subst AreGood (sym e) (namespace_add-Good, namespace_delete-Good)
    registrations-AreGood p (inr (inr (inr n))) = elim n [ ]

    IsRegistered-Good :
        (f : Object → Exec c.World (Unit {0}))
        → IsRegistered c startup f
        → (obj : Object) → Keeps Good (f obj)
    IsRegistered-Good f (adds i h there has) =
        subst GoodIfAny has (registrations-AreGood (i, h) there).0
    IsRegistered-Good f (deletes i h there has) =
        subst GoodIfAny has (registrations-AreGood (i, h) there).1

    -- One step of the controller, in which a worker takes an item, a purge runs or an informer calls a
    -- function that a new controller registered; or one of the world around it, which adds no macvlanips.
    pub data Step : c.World → c.World → Type 0 where
      worked : (w : c.World) → Step w (process_next_work_item c w).1
      purged : (w : c.World) → Step w (purge c w).1
      called :
          (f : Object → Exec c.World (Unit {0}))
          → IsRegistered c startup f
          → (obj : Object) (w : c.World) → Step w (f obj w).1
      elsewhere : (w v : c.World) → Fewer (ips v) (ips w) → Step w v

    pub data Reach (from : c.World) : c.World → Type 0 where
      here : Reach from from
      next : {w v : c.World} → Reach from w → Step w v → Reach from v

    Step-Good : {w v : c.World} → Step w v → Good w → Good v
    Step-Good (worked w) p = process_next_work_item-Good.leads w p
    Step-Good (purged w) p = purge-Good.leads w p
    Step-Good (called f r obj w) p = (IsRegistered-Good f r obj).leads w p
    Step-Good (elsewhere w v fewer) p = AllApart-IsClosed (ips w) (ips v) fewer p

    -- Let nobody but this controller add macvlanips, while anyone may delete them at any time, during
    -- its calls as well; let each list of those of a subnet succeed and name at least those that are
    -- left when it returns, and let each subnet have an IPv4 network. If at first no two macvlanips of a
    -- subnet have the same address, then none have in any state that items of the queue, purges, calls
    -- of the functions that a new controller registers and other changes lead to, one after the other,
    -- in any order.
    pub Reach-Apart : {w v : c.World} → Reach w v → AllApart (ips w) → AllApart (ips v)
    Reach-Apart here p = p
    Reach-Apart (next r s) p = Step-Good s (Reach-Apart r p)
