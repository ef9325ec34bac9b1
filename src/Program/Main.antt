-- ===== src/Program/Main.antt =====
-- main.go: the construction of the clients, of the controller and of its informers, and their start.
use network_controller.Common.{[], ◌∷◌, ◌++◌, Option, if◌then◌else◌, is_empty}
use network_controller.Go.Text.{Bytes, codes}
use network_controller.Go.Int.{ℤ, pos}
use network_controller.Go.Result.{plain, error_text}
use network_controller.Go.Exec.{Exec, raise, lift, catch, perform, ◌>>=◌, ◌>>◌}
use network_controller.Go.Map.{Dict}
use network_controller.Informers.{
  Factory, new_factory, start, typed_informer, macvlan_ip_type, macvlan_subnet_type,
}
use network_controller.Clientset.{Config, Library, Clientset, new_for_config}
use network_controller.Cluster.{Cluster}
use network_controller.Controller.Queue.{run}
use network_controller.Controller.Setup.{Startup, new_controller}
use network_controller.Program.{Process, setup_signal_handler}

-- The process with the world outside.
pub record Running (E : Type 0) : Type 0 where
  pub process : Process
  pub outside : E

-- What main calls outside the repository: the configurations, the clients, what makes an informer of
-- the group, and the start of the other informers; `go_run` is `go informer.Run`.
pub record Parts (W Q L O R D K N T I : Type 0) : Type 0 where
  pub in_cluster_config : Exec W (Config Q L O)
  pub build_config_from_flags : Bytes → Bytes → Exec W (Config Q L O)
  pub new_kube : Config Q L O → Exec W K
  pub new_dynamic : Config Q L O → Exec W N
  pub library : Library Q L O R D
  pub make : Clientset R D → Bytes → Bytes → ℤ → Option T → I
  pub start_kube : W → W
  pub go_run : I → W → W

-- `log.Fatalf` with the text of the error; the process ends.
abbrev pub or_fatal : {W A : Type 0} → Bytes → Exec W A → Exec W A
or_fatal text m = catch m (λ e. raise (plain (text ++ error_text e)))

module _ {E : Type 0} where
  abbrev pub on_outside : {A : Type 0} → Exec E A → Exec (Running E) A
  on_outside m w = let (r, e) = m w.outside in (r, record w { outside = e })

  abbrev pub on_process : {A : Type 0} → Exec Process A → Exec (Running E) A
  on_process m w = let (r, p) = m w.process in (r, record w { process = p })

-- `time.Second * 30`, in nanoseconds
abbrev pub resync_period : ℤ
resync_period = pos 30000000000

-- `c` stands for what the controller reaches through the clients and the informers.
module _ (c : Cluster) (startup : Startup c.World) {Q L O R D K N T I : Type 0}
    (parts : Parts c.World Q L O R D K N T I) where
  unfoldable pub configured : Bytes → Bytes → Exec (Running c.World) (Config Q L O)
  configured kubeconfig master =
      if is_empty kubeconfig
      then or_fatal (codes "Error get cluster kubeconfig: ") (on_outside parts.in_cluster_config)
      else or_fatal (codes "Error building kubeconfig: ")
          (on_outside (parts.build_config_from_flags master kubeconfig))

  -- What `NewController` asks the macvlan factory for; its later requests get the same informers.
  unfoldable pub asked_for : Factory (Clientset R D) T I → Factory (Clientset R D) T I
  asked_for f =
      (typed_informer parts.make macvlan_subnet_type
        (typed_informer parts.make macvlan_ip_type f).1).1

  -- The `go` statements of a start.
  unfoldable pub launch : Dict I → c.World → c.World
  launch [] e = e
  launch ((k, informer) ∷ rest) e = launch rest (parts.go_run informer e)

  -- What follows the construction of the clients, with the informers of the group that are run.
  unfoldable pub serve : Dict I → Exec (Running c.World) (Unit {0})
  unfolding launch
  serve informers = do
    on_outside (new_controller c startup)
    on_outside (perform parts.start_kube)
    on_outside (perform (launch informers))
    or_fatal (codes "Error running controller: ") (on_outside (run c 1))

  -- `visit` is the order in which `Start` ranges over the informers.
  unfoldable pub main : (Dict I → Dict I) → Bytes → Bytes → Exec (Running c.World) (Unit {0})
  unfolding configured asked_for serve
  main visit kubeconfig master = do
    cfg ← configured kubeconfig master
    on_process setup_signal_handler
    kube ←
        or_fatal (codes "Error building kubernetes clientset: ") (on_outside (parts.new_kube cfg))
    dynamic ←
        or_fatal (codes "Error building example clientset: ") (on_outside (parts.new_dynamic cfg))
    macvlan ←
        or_fatal (codes "Error building example clientset: ")
          (lift (new_for_config parts.library cfg))
    serve (start visit (asked_for (new_factory macvlan resync_period))).1
