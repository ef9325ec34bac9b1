-- ===== src/Controller/Setup.antt =====
-- controller/controller.go and controller/purge.go: what a new controller registers and starts. The
-- informers that it hands the functions to, and the timer, are of client-go and of apimachinery.
use network_controller.Common.{ℕ, List, [], ◌∷◌, Option, none, some}
use network_controller.Go.Exec.{Exec, pure, perform, ◌>>◌}
use network_controller.Go.Text.{Bytes, codes}
use network_controller.Types.{Object}
use network_controller.Scheme.{TypeRegistry, must_add_to_scheme}
use network_controller.Cluster.{Cluster}
use network_controller.Controller.Macvlanip.{enqueue_pod}
use network_controller.Controller.Subnet.{on_macvlan_subnet_add}
use network_controller.Controller.Netattachdef.{on_namespace_add, on_namespace_delete}
use network_controller.Controller.Purge.{purge}

-- The informers that get a handler.
pub data Informer : Type 0 where
  pods macvlan_subnets namespaces : Informer

-- `cache.ResourceEventHandlerFuncs`: a function that is nil is `none`.
pub record Handlers (W : Type 0) : Type 0 where
  pub add_func : Option (Object → Exec W (Unit {0}))
  pub update_func : Option (Object → Object → Exec W (Unit {0}))
  pub delete_func : Option (Object → Exec W (Unit {0}))

-- The scheme of the Kubernetes clients, the event broadcaster that is made for a component and its
-- recording to the API server, `AddEventHandler` of an informer, and `go wait.JitterUntil` of a function
-- with a period.
pub record Startup (W : Type 0) : Type 0 where
  pub scheme : TypeRegistry W
  pub start_recorder : Bytes → W → W
  pub add_event_handler : Informer → Handlers W → W → W
  pub jitter_until : Exec W (Unit {0}) → ℕ → W → W

-- `controllerAgentName`
abbrev pub controller_agent_name : Bytes
controller_agent_name = codes "network-controller"

-- `intervalSeconds`
abbrev pub interval_seconds : ℕ
interval_seconds = 3600

module _ (c : Cluster) (startup : Startup c.World) where
  unfoldable pub start_purge_daemon : Exec c.World (Unit {0})
  start_purge_daemon = perform (startup.jitter_until (do purge c; pure tt) interval_seconds)

  -- The three registrations, in their order.
  unfoldable pub registrations : List (Informer × Handlers c.World)
  registrations =
      (pods, record { add_func = some (enqueue_pod c); update_func = none; delete_func = none })
      ∷ (
        macvlan_subnets,
        record {
          add_func = some (on_macvlan_subnet_add c);
          update_func = none;
          delete_func = none;
        },
      )
      ∷ (
        namespaces,
        record {
          add_func = some (on_namespace_add c);
          update_func = none;
          delete_func = some (on_namespace_delete c);
        },
      )
      ∷ []

  unfoldable pub register : List (Informer × Handlers c.World) → Exec c.World (Unit {0})
  register [] = pure tt
  register ((informer, handlers) ∷ rest) =
      perform (startup.add_event_handler informer handlers) >> register rest

  -- The group's types are put into the scheme, and the recorder is made.
  unfoldable pub prepare : Exec c.World (Unit {0})
  prepare = do
    must_add_to_scheme startup.scheme
    perform (startup.start_recorder controller_agent_name)

  unfoldable pub new_controller : Exec c.World (Unit {0})
  unfolding prepare
  new_controller = do prepare; register registrations; start_purge_daemon
