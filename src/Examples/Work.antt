-- ===== src/Examples/Work.antt =====
-- Runs of the theorems about the worker and about a purge.
use network_controller.Common.{
  if◌then◌else◌, ◌≡◌, refl, ap, List, [], ◌∷◌, arith, Bool-cases, inl, inr,
}
use network_controller.Go.Text.{Bytes, codes, beq}
use network_controller.Go.Result.{Result, ok, err, plain, Error}
use network_controller.Go.Exec.{◌>>=◌}
use network_controller.Types.{Pod, WorkItem, key, alien}
use network_controller.Controller.Queue.{sync_handler, process_next_work_item, run_worker}
use network_controller.Controller.Purge.{purge}
use network_controller.Controller.Effects.Worker.{
  settled, process_next_work_item-settled, Works, shut, handled, failed, skipped, run_worker-Works,
}
use network_controller.Controller.Effects.Purging.{Answers, orphans, delete_all, purge-orphans}
use network_controller.Examples.Store.{Store, lists, find, missing}
use network_controller.Cluster.{Cluster}
use network_controller.Examples.Allocations.{small_store}

abbrev broken : Error
broken = plain (codes "broken")

abbrev queued : List WorkItem → Store
queued items = record small_store { queue = items }

process_next_work_item-settled_example :
    process_next_work_item lists (queued (key (codes "default/web") ∷ []))
    ≡ settled lists
        (codes "default/web")
        (sync_handler lists (codes "default/web") (queued [])).0
        (sync_handler lists (codes "default/web") (queued [])).1
process_next_work_item-settled_example =
    process_next_work_item-settled lists (queued (key (codes "default/web") ∷ [])) (queued [])
      (codes "default/web") refl

-- A key whose pod is not found, one whose handler fails, an item that is no key, and the shutdown.
abbrev failing : Cluster
failing = record lists {
  lister_pod = λ ns name s. if beq name (codes "a") then (err missing, s) else (err broken, s);
  queue_add_rate_limited = λ item s. s;
}

abbrev three_items : List WorkItem
three_items = key (codes "a") ∷ key (codes "b") ∷ alien ∷ []

handled_a :
    sync_handler failing (codes "a") (queued (key (codes "b") ∷ alien ∷ []))
    ≡ (ok tt, queued (key (codes "b") ∷ alien ∷ []))
unfolding sync_handler beq
handled_a = refl

failed_b :
    sync_handler failing (codes "b") (queued (alien ∷ [])) ≡ (err broken, queued (alien ∷ []))
unfolding sync_handler beq
failed_b = refl

three_worked : Works failing 3 (queued three_items) (ok tt) (queued [])
three_worked =
    handled (codes "a") refl handled_a
      (failed (codes "b") broken refl failed_b (skipped refl (shut refl)))

run_worker-Works_example : run_worker failing 4 (queued three_items) ≡ (ok tt, queued [])
run_worker-Works_example =
    run_worker-Works failing 3 4 (queued three_items) (queued []) (ok tt) (omega arith) three_worked

-- The pods of the store above, as the lister shows them.
abbrev shown : Bytes → Bytes → Result Pod
shown namespace name = find Pod.meta small_store.pods name

abbrev ShowsSmall : Store → Type 0
ShowsSmall s = s.pods ≡ small_store.pods

shown-Answers : (n m : Bytes) → Answers (shown n m)
shown-Answers n m = elim (Bool-cases (beq (codes "web-1-abc") m)) [
  | inl e ↦ rw e tt
  | inr e ↦ rw e tt
]

shown-reads : (n m : Bytes) (w : Store) → ShowsSmall w → lists.lister_pod n m w ≡ (shown n m, w)
shown-reads n m w s = ap (λ ps. (find Pod.meta ps m, w)) s

purge-orphans_example :
    purge lists small_store
    ≡ (lists.lister_macvlan_ips >>= λ (ips, e). delete_all lists 0 (orphans shown ips)) small_store
purge-orphans_example =
    purge-orphans lists ShowsSmall shown shown-Answers shown-reads (λ n m w s. s) small_store refl
