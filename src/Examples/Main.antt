-- ===== src/Examples/Main.antt =====
-- A run of the theorem about main, on the cluster kept in lists.
use network_controller.Controller.Queue.{run}
use network_controller.Scheme.{must_add_to_scheme, add_group_to_scheme}
use network_controller.Go.Int.{pos}
use network_controller.Common.{◌≡◌, refl, [], ◌∷◌, none, true}
use network_controller.Go.Text.{Bytes, codes}
use network_controller.Go.Result.{ok}
use network_controller.Go.Map.{Dict}
use network_controller.Informers.Started.{Visits}
use network_controller.Clientset.{Config, Clientset, new_for_config, v1_for_config, limited}
use network_controller.Controller.Setup.{
  Startup, new_controller, prepare, register, registrations, start_purge_daemon,
}
use network_controller.Examples.Clients.{idle}
use network_controller.Program.{new_process, setup_signal_handler}
use network_controller.Program.Main.{Running, Parts, configured, main}
use network_controller.Program.Started.{both, IsOrderOf, Launched, ended, main-Launched}
use network_controller.Examples.Store.{Store, lists}
use network_controller.Examples.Allocations.{small_store}

abbrev Nil : Type 0
Nil = Unit {0}

abbrev plain_config : Config Nil Nil Nil
plain_config = record {
  group_version = none;
  api_path = [];
  negotiated_serializer = [];
  user_agent = [];
  rate_limiter = none;
  qps = tt;
  burst = pos 0;
  others = tt;
}

-- An informer is the name of its type; to run one is logged.
abbrev plain_parts : Parts Store Nil Nil Nil Nil Nil Nil Nil Nil Bytes
plain_parts = record {
  in_cluster_config = λ s. (ok plain_config, s);
  build_config_from_flags = λ master kubeconfig s. (ok plain_config, s);
  new_kube = λ cfg s. (ok tt, s);
  new_dynamic = λ cfg s. (ok tt, s);
  library = record {
    new_limiter = λ qps burst. tt;
    is_positive = λ qps. true;
    default_user_agent = codes "agent";
    direct_codec_factory = [];
    rest_client_for = λ cfg. ok tt;
    new_discovery = λ cfg. ok tt;
  };
  make = λ client namespace k resync tweak. k;
  start_kube = λ s. s;
  go_run = λ informer s. record s { log = informer ∷ s.log };
}

abbrev no_startup : Startup Store
no_startup = idle

abbrev at_start : Running Store
at_start = record { process = new_process; outside = small_store }

abbrev plain_client : Clientset Nil Nil
plain_client = record { discovery_client = tt; macvlan_v1 = tt }

keeps_order : Visits {I = Bytes} (λ m. m)
keeps_order = record { is_map = λ m h. h; same = λ m k h. refl }

configured_plain :
    configured lists no_startup plain_parts [] [] at_start ≡ (ok plain_config, at_start)
unfolding configured
configured_plain = refl

client_plain : new_for_config plain_parts.library plain_config ≡ ok plain_client
unfolding new_for_config v1_for_config limited
client_plain = refl

controller_made : new_controller lists no_startup small_store ≡ (ok tt, small_store)
unfolding new_controller prepare must_add_to_scheme add_group_to_scheme register registrations
    start_purge_daemon
controller_made = refl

main-Launched_example :
    (order : Dict Bytes) × (e : Store) × IsOrderOf lists no_startup plain_parts order
      (both lists no_startup plain_parts plain_client)
    × Launched lists no_startup plain_parts order small_store e
    × (main lists no_startup plain_parts (λ m. m) [] [] at_start ≡ (
        let (r, z) = run lists 1 e in
        (
          ended lists no_startup plain_parts r,
          record { process = (setup_signal_handler new_process).1; outside = z },
        )))
main-Launched_example =
    main-Launched lists no_startup plain_parts (λ m. m) [] [] at_start at_start small_store
      small_store small_store plain_config tt tt plain_client keeps_order configured_plain refl refl
      refl client_plain controller_made
