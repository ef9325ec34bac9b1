-- ===== src/Controller/Queue.antt =====
-- controller/controller.go: the work queue, its workers and the handler of a key.
use network_controller.Common.{
  ℕ, zero, suc, Bool, true, false, [], ◌∷◌, ◌++◌, none, some, if◌then◌else◌,
}
use network_controller.Go.Text.{Bytes, codes}
use network_controller.Go.Result.{hangs, plain, error_text, is_not_found}
use network_controller.Go.Exec.{Exec, pure, raise, lift, catch, perform, deferring, ◌>>=◌, ◌>>◌}
use network_controller.Types.{WorkItem, key, alien}
use network_controller.Cluster.{Cluster}
use network_controller.Controller.Macvlanip.{do_add_macvlan_ip}

module _ (c : Cluster) where
  open c use {
    World, lister_pod, split_meta_namespace_key, queue_get, queue_add_rate_limited, queue_forget,
    queue_done, queue_shut_down, wait_for_cache_sync, start_worker, wait_for_stop,
  }

  -- A pod that the lister does not find, and a key that cannot be split, are no errors.
  unfoldable pub sync_handler : Bytes → Exec World (Unit {0})
  sync_handler k = elim (split_meta_namespace_key k) [
    | none ↦ pure tt
    | some (namespace, name) ↦ do
      found ←
          catch (do pod ← lister_pod namespace name; pure (some pod))
            (λ e. if is_not_found e then pure none else raise e)
      elim found [ none ↦ pure tt | some pod ↦ do_add_macvlan_ip c pod ]
  ]

  -- The function literal of `processNextWorkItem`, without its deferred call.
  unfoldable pub process_item : WorkItem → Exec World (Unit {0})
  process_item alien = perform (queue_forget alien)
  process_item (key k) =
      catch (sync_handler k) (λ e.
        perform (queue_add_rate_limited (key k))
        >> raise (
            plain (
              codes "error syncing '"
              ++ (k ++ (codes "': " ++ (error_text e ++ codes ", requeuing"))))))
      >> perform (queue_forget (key k))

  -- `false` tells the worker to stop.
  unfoldable pub process_next_work_item : Exec World Bool
  unfolding process_item
  process_next_work_item = do
    obj ← queue_get
    elim obj [
      | none ↦ pure false
      | some item ↦ do
        catch (deferring (perform (queue_done item)) (process_item item)) (λ e. pure tt)
        pure true
    ]

  -- `for c.processNextWorkItem() {}`, on fuel: a worker that is still running then is `hangs`.
  unfoldable pub run_worker : ℕ → Exec World (Unit {0})
  run_worker zero = lift hangs
  run_worker (suc fuel) =
      let rest = run_worker fuel in
      (do more ← process_next_work_item; if more then rest else pure tt)

  start_workers : ℕ → Exec World (Unit {0})
  start_workers zero = pure tt
  start_workers (suc n) = do perform start_worker; start_workers n

  run_synced : ℕ → Bool → Exec World (Unit {0})
  run_synced threadiness true = start_workers threadiness >> perform wait_for_stop
  run_synced threadiness false = raise (plain (codes "failed to wait for caches to sync"))

  -- `Run`; each worker that it starts is a `run_worker` of its own.
  unfoldable pub run : ℕ → Exec World (Unit {0})
  unfolding start_workers run_synced
  run threadiness = deferring (perform queue_shut_down) (do
    synced ← wait_for_cache_sync (codes "namespaces" ∷ codes "pods" ∷ codes "macvlanips" ∷ [])
    run_synced threadiness synced)
