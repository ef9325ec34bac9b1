-- ===== src/Program/Started.antt =====
-- What main starts once its clients are built.
use network_controller.Controller.Queue.{run}
use network_controller.Common.{◌≡◌, refl, ◌∙◌, false, [], ◌∷◌, none, arith, ◌++◌}
use network_controller.Go.Text.{Bytes, beq, codes}
use network_controller.Go.Result.{ok, Result, err, panics, hangs, plain, error_text}
use network_controller.Go.Map.{Dict, get, put, IsMap}
use network_controller.Informers.{
  new_factory, new_factory_with_options, apply_options, start, typed_informer, informer_for,
  macvlan_ip_type, macvlan_subnet_type,
}
use network_controller.Informers.Started.{Visits, start_loop-run, start_loop-IsMap}
use network_controller.Clientset.{Config, Clientset, new_for_config}
use network_controller.Cluster.{Cluster}
use network_controller.Controller.Setup.{Startup, new_controller}
use network_controller.Program.{Process, setup_signal_handler}
use network_controller.Program.Main.{
  Running, Parts, configured, asked_for, serve, main, resync_period, launch, or_fatal, on_outside,
}

module _ (c : Cluster) (startup : Startup c.World) {Q L O R D K N T I : Type 0}
    (parts : Parts c.World Q L O R D K N T I) where
  -- The informers of macvlanips and of subnets over a client.
  abbrev pub both : Clientset R D → Dict I
  both client =
      (macvlan_ip_type, parts.make client [] macvlan_ip_type resync_period none)
      ∷ (macvlan_subnet_type, parts.make client [] macvlan_subnet_type resync_period none)
      ∷ []

  -- What a range over a map visits: its entries, each once.
  abbrev pub IsOrderOf : Dict I → Dict I → Type 0
  IsOrderOf order m = IsMap order × ((k : Bytes) → get order k ≡ get m k)

  asked-both :
      (client : Clientset R D)
      → (asked_for c startup parts (new_factory client resync_period)).informers ≡ both client
  unfolding asked_for typed_informer informer_for get put new_factory new_factory_with_options
      apply_options beq
  asked-both client = refl

  bare :
      (client : Clientset R D)
      → (asked_for c startup parts (new_factory client resync_period)).started_informers ≡ []
  unfolding asked_for typed_informer informer_for get put new_factory new_factory_with_options
      apply_options beq
  bare client = refl

  run-IsOrderOf :
      (visit : Dict I → Dict I) (client : Clientset R D)
      → Visits visit
      → IsOrderOf
          (start visit (asked_for c startup parts (new_factory client resync_period))).1
          (both client)
  unfolding start get beq
  run-IsOrderOf visit client v =
      let all : IsMap (both client) = (refl, (refl, tt)) in
      let order = visit (both client) in
      rw (asked-both client, bare client)
        (
          start_loop-IsMap order [] (v.is_map (both client) all),
          λ k. start_loop-run order [] k (v.is_map (both client) all) ∙ v.same (both client) k all,
        )

  first_call : (p : Process) → p.handler_set ≡ false → (setup_signal_handler p).0 ≡ ok tt
  unfolding setup_signal_handler
  first_call p e = ground arith

  -- Each informer is run, one after the other.
  pub data Launched : Dict I → c.World → c.World → Type 0 where
    none_left : {e : c.World} → Launched [] e e
    one_run :
        {k : Bytes} {informer : I} {rest : Dict I} {e e' : c.World}
        → Launched rest (parts.go_run informer e) e'
        → Launched ((k, informer) ∷ rest) e e'

  launch-Launched :
      (informers : Dict I) (e : c.World) → Launched informers e (launch c startup parts informers e)
  unfolding launch
  launch-Launched [] e = none_left
  launch-Launched ((k, informer) ∷ rest) e =
      one_run (launch-Launched rest (parts.go_run informer e))

  -- How main ends, by how the run of the controller ended: an error of it is fatal.
  unfoldable pub ended : Result (Unit {0}) → Result (Unit {0})
  ended (ok u) = ok u
  ended (err e) = err (plain (codes "Error running controller: " ++ error_text e))
  ended panics = panics
  ended hangs = hangs

  run-ended :
      (r : Result (Unit {0})) (p : Process) (e : c.World)
      → or_fatal
          (codes "Error running controller: ")
          (on_outside (λ u. (r, e)))
          (record { process = p; outside = e })
        ≡ (ended r, record { process = p; outside = e })
  unfolding ended
  run-ended (ok u) p e = refl
  run-ended (err x) p e = refl
  run-ended panics p e = refl
  run-ended hangs p e = refl

  serve-ended :
      (order : Dict I) (p : Process) (v v4 : c.World)
      → new_controller c startup v ≡ (ok tt, v4)
      → serve c startup parts order (record { process = p; outside = v }) ≡ (
          let (r, z) = run c 1 (launch c startup parts order (parts.start_kube v4)) in
          (ended r, record { process = p; outside = z }))
  unfolding serve
  serve-ended order p v v4 built =
      rw built (
        let (r, z) = run c 1 (launch c startup parts order (parts.start_kube v4)) in
        run-ended r p z)

  -- Let the configuration be read, each client be built and the controller be made, and let no signal
  -- handler be set before. Then main sets it, and behind the controller it starts the informers of the
  -- Kubernetes factory and runs the informers of macvlanips and of subnets, each once, in the order of
  -- the range; then it runs the controller in one thread, and it ends as that run does, with an error
  -- of it as a fatal one.
  pub main-Launched :
      (visit : Dict I → Dict I) (kubeconfig master : Bytes) (w w1 : Running c.World)
      (v2 v3 v4 : c.World) (cfg : Config Q L O) (kube : K) (dynamic : N) (client : Clientset R D)
      → Visits visit
      → configured c startup parts kubeconfig master w ≡ (ok cfg, w1)
      → w1.process.handler_set ≡ false
      → parts.new_kube cfg w1.outside ≡ (ok kube, v2)
      → parts.new_dynamic cfg v2 ≡ (ok dynamic, v3)
      → new_for_config parts.library cfg ≡ ok client
      → new_controller c startup v3 ≡ (ok tt, v4)
      → (order : Dict I) × (e : c.World) × IsOrderOf order (both client)
        × Launched order (parts.start_kube v4) e
        × (main c startup parts visit kubeconfig master w ≡ (
            let (r, z) = run c 1 e in
            (ended r, record { process = (setup_signal_handler w1.process).1; outside = z })))
  unfolding main
  main-Launched visit kubeconfig master w w1 v2 v3 v4 cfg kube dynamic client v e1 e e2 e3 e4 e5 =
      let order = (start visit (asked_for c startup parts (new_factory client resync_period))).1 in
      (
        order,
        launch c startup parts order (parts.start_kube v4),
        run-IsOrderOf visit client v,
        launch-Launched order (parts.start_kube v4),
        rw (main, e1, first_call w1.process e, e2, e3, e4) (serve-ended order _ v3 v4 e5),
      )
