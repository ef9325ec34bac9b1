-- ===== src/Controller/Effects/Worker.antt =====
-- controller/controller.go: what a worker does with an item of the queue.
use network_controller.Common.{
  ◌∙◌, false, ℕ, zero, suc, ◌≡◌, refl, Bool, true, ◌++◌, ◌≤◌, arith, none, some,
}
use network_controller.Go.Text.{Bytes, codes}
use network_controller.Go.Result.{Result, ok, err, panics, hangs, Error, plain, error_text}
use network_controller.Go.Exec.{Exec, pure, raise, perform, deferring, catch, ◌>>◌}
use network_controller.Types.{key, alien}
use network_controller.Cluster.{Cluster}
use network_controller.Controller.Queue.{
  sync_handler, process_item, process_next_work_item, run_worker,
}

module _ (c : Cluster) where
  open c use {World}

  -- How an item is settled, by how its handler ended and in which world.
  unfoldable pub settled : Bytes → Result (Unit {0}) → World → Result Bool × World
  settled k (ok u) w = (ok true, c.queue_done (key k) (c.queue_forget (key k) w))
  settled k (err e) w = (ok true, c.queue_done (key k) (c.queue_add_rate_limited (key k) w))
  settled k panics w = (panics, c.queue_done (key k) w)
  settled k hangs w = (hangs, w)

  requeued : Bytes → Error → Exec World (Unit {0})
  requeued k e =
      perform (c.queue_add_rate_limited (key k))
      >> raise (
          plain (
            codes "error syncing '"
            ++ (k ++ (codes "': " ++ (error_text e ++ codes ", requeuing")))))

  ended :
      (k : Bytes) (r : Result (Unit {0})) (u : World)
      → (catch
              (deferring
                (perform (c.queue_done (key k)))
                (catch (λ _. (r, u)) (requeued k) >> perform (c.queue_forget (key k))))
              (λ e. pure tt)
            >> pure true)
          u
        ≡ settled k r u
  unfolding settled requeued
  ended k (ok x) u = refl
  ended k (err e) u = refl
  ended k panics u = refl
  ended k hangs u = refl

  -- A key from the queue goes to the handler once. It is then forgotten where the handler returns
  -- no error and queued again, rate limited, where it returns one; it is marked done in both cases
  -- and after a panic, and the worker goes on unless the handler panics or never returns.
  pub process_next_work_item-settled :
      (w v : World) (k : Bytes)
      → c.queue_get w ≡ (ok (some (key k)), v)
      → process_next_work_item c w ≡ settled k (sync_handler c k v).0 (sync_handler c k v).1
  unfolding process_next_work_item process_item settled requeued
  process_next_work_item-settled w v k h =
      rw h (ended k (sync_handler c k v).0 (sync_handler c k v).1)

  -- A worker's items, by what the queue gives and by how the handler ends on each key, up to the
  -- shutdown of the queue, a panic of the handler or a handler that never returns; with the number of
  -- items before that, how the worker ends, and the world that it leaves.
  pub data Works : ℕ → World → Result (Unit {0}) → World → Type 0 where
    shut : {w v : World} → c.queue_get w ≡ (ok none, v) → Works 0 w (ok tt) v
    panicked :
        {w v u : World} (k : Bytes)
        → c.queue_get w ≡ (ok (some (key k)), v)
        → sync_handler c k v ≡ (panics, u)
        → Works 0 w panics (c.queue_done (key k) u)
    stuck :
        {w v u : World} (k : Bytes)
        → c.queue_get w ≡ (ok (some (key k)), v)
        → sync_handler c k v ≡ (hangs, u)
        → Works 0 w hangs u
    handled :
        {n : ℕ} {w v u z : World} {r : Result (Unit {0})} (k : Bytes)
        → c.queue_get w ≡ (ok (some (key k)), v)
        → sync_handler c k v ≡ (ok tt, u)
        → Works n (c.queue_done (key k) (c.queue_forget (key k) u)) r z
        → Works (suc n) w r z
    failed :
        {n : ℕ} {w v u z : World} {r : Result (Unit {0})} (k : Bytes) (e : Error)
        → c.queue_get w ≡ (ok (some (key k)), v)
        → sync_handler c k v ≡ (err e, u)
        → Works n (c.queue_done (key k) (c.queue_add_rate_limited (key k) u)) r z
        → Works (suc n) w r z
    skipped :
        {n : ℕ} {w v z : World} {r : Result (Unit {0})}
        → c.queue_get w ≡ (ok (some alien), v)
        → Works n (c.queue_done alien (c.queue_forget alien v)) r z
        → Works (suc n) w r z

  key-settled :
      {w v u : World} {r : Result (Unit {0})} (k : Bytes)
      → c.queue_get w ≡ (ok (some (key k)), v)
      → sync_handler c k v ≡ (r, u)
      → process_next_work_item c w ≡ settled k r u
  key-settled {w} {v} k got handles = process_next_work_item-settled w v k got ∙ rw handles refl

  alien-settled :
      {w v : World}
      → c.queue_get w ≡ (ok (some alien), v)
      → process_next_work_item c w ≡ (ok true, c.queue_done alien (c.queue_forget alien v))
  unfolding process_next_work_item process_item
  alien-settled got = rw got refl

  stops : {w v : World} → c.queue_get w ≡ (ok none, v) → process_next_work_item c w ≡ (ok false, v)
  unfolding process_next_work_item
  stops got = rw got refl

  -- A worker takes items until the queue is shut down, also after errors of the handler: a key whose
  -- handler returns no error is forgotten, one whose handler returns an error is queued again, an item
  -- that is no key is forgotten, and each is marked done. It returns at the shutdown, panics where the
  -- handler does, with the key marked done, and never returns where the handler never does. More
  -- rounds than there are items before that are enough.
  pub run_worker-Works :
      (n fuel : ℕ) (w u : World) (r : Result (Unit {0}))
      → suc n ≤ fuel
      → Works n w r u
      → run_worker c fuel w ≡ (r, u)
  unfolding run_worker settled
  run_worker-Works n zero w u r lt d = absurd (omega arith)
  run_worker-Works n (suc fuel) w u r lt (shut got) = rw (stops got) refl
  run_worker-Works n (suc fuel) w u r lt (panicked k got h) = rw (key-settled k got h) refl
  run_worker-Works n (suc fuel) w u r lt (stuck k got h) = rw (key-settled k got h) refl
  run_worker-Works (suc n) (suc fuel) w u r lt (handled k got h rest) =
      rw (key-settled k got h) (run_worker-Works n fuel _ u r (omega arith) rest)
  run_worker-Works (suc n) (suc fuel) w u r lt (failed k e got h rest) =
      rw (key-settled k got h) (run_worker-Works n fuel _ u r (omega arith) rest)
  run_worker-Works (suc n) (suc fuel) w u r lt (skipped got rest) =
      rw (alien-settled got) (run_worker-Works n fuel _ u r (omega arith) rest)
