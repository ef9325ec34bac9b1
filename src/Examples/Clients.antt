-- ===== src/Examples/Clients.antt =====
-- Runs of the theorems about the clients and about the functions that a new controller registers.
use network_controller.Common.{◌≡◌, refl, [], none, some, if◌then◌else◌, inl, inr}
use network_controller.Go.Text.{codes, beq}
use network_controller.Go.Result.{ok, err}
use network_controller.Go.Exec.{Exec}
use network_controller.Types.{MacvlanIp, a_subnet}
use network_controller.Scheme.{TypeRegistry}
use network_controller.Client.{Request, typed_client}
use network_controller.Client.Scope.{Agree, rest_of, typed_client-scope}
use network_controller.Controller.Subnet.{on_macvlan_subnet_add}
use network_controller.Controller.Setup.{Handlers, Startup, registrations, macvlan_subnets}
use network_controller.Controller.Effects.Handlers.{IsRegistered, adds, IsRegistered-ok}
use network_controller.Examples.Store.{Store, lists, missing}
use network_controller.Examples.Allocations.{taken_ip, small_subnet, small_store}

-- A server that answers every request, and one that knows a single namespace.
abbrev everywhere : {V : Type 0} → V → Request MacvlanIp (Unit {0}) (Unit {0}) → Exec Store V
everywhere v q s = (ok v, s)

abbrev here_only : {V : Type 0} → V → Request MacvlanIp (Unit {0}) (Unit {0}) → Exec Store V
here_only v q s = if beq q.namespace (codes "default") then (ok v, s) else (err missing, s)

agree :
    {V : Type 0} (v : V) → Agree (codes "macvlanips") (codes "default") (everywhere v) (here_only v)
unfolding beq
agree v = record { same = λ q e n. rw n }

typed_client-scope_example :
    typed_client
      (rest_of (everywhere taken_ip) (everywhere []) (everywhere tt) (everywhere tt))
      MacvlanIp.meta
      (codes "macvlanips")
      (codes "default")
    ≡ typed_client
        (rest_of (here_only taken_ip) (here_only []) (here_only tt) (here_only tt))
        MacvlanIp.meta
        (codes "macvlanips")
        (codes "default")
typed_client-scope_example =
    typed_client-scope MacvlanIp.meta (codes "macvlanips") (codes "default") (everywhere taken_ip)
      (here_only taken_ip) (everywhere []) (here_only []) (everywhere tt) (here_only tt)
      (everywhere tt) (here_only tt) (agree taken_ip) (agree []) (agree tt) (agree tt)

abbrev no_scheme : TypeRegistry Store
no_scheme = record {
  register_types = λ version types s. s;
  add_to_group_version = λ version s. s;
  run_builder = λ functions s. (ok tt, s);
}

abbrev pub idle : Startup Store
idle = record {
  scheme = no_scheme;
  start_recorder = λ component s. s;
  add_event_handler = λ i h s. s;
  jitter_until = λ f n s. s;
}

subnet_handlers : Handlers Store
subnet_handlers = record {
  add_func = some (on_macvlan_subnet_add lists);
  update_func = none;
  delete_func = none;
}

adds_subnets : IsRegistered lists idle (on_macvlan_subnet_add lists)
unfolding registrations subnet_handlers
adds_subnets = adds macvlan_subnets subnet_handlers (inr (inl refl)) refl

IsRegistered-ok_example :
    (on_macvlan_subnet_add lists (a_subnet small_subnet) small_store).0 ≡ ok tt
IsRegistered-ok_example =
    IsRegistered-ok lists idle (λ n s w. tt) (λ n a w. tt) (λ n m w. tt)
      (on_macvlan_subnet_add lists) (a_subnet small_subnet) small_store adds_subnets
