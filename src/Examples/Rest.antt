-- ===== src/Examples/Rest.antt =====
-- A REST server kept in lists, for the theorem about the store behind the generated clients.
use network_controller.Common.{◌≡◌, refl, ap, List, [], ◌∷◌, ◌++◌, Option, none, some}
use network_controller.Go.Text.{Bytes, codes}
use network_controller.Go.Result.{ok, err}
use network_controller.Types.{MacvlanIp, MacvlanSubnet}
use network_controller.Client.{
  Request, Rest, Params, no_params, get_params, list_params, Body, no_body, object, delete_options,
  patch_data,
}
use network_controller.Controller.Wiring.{Clients, wired}
use network_controller.Controller.Uniqueness.Lists.{Sublist, Sublist-refl}
use network_controller.Controller.Uniqueness.Server.{IsStore, Created}
use network_controller.Controller.Uniqueness.Rest.{AsksFor, IsRestStore, wired-IsStore}
use network_controller.Examples.Store.{Store, missing}
use network_controller.Examples.Allocations.{small_subnet}
use network_controller.Examples.Uniqueness.{
  among, selected, remove_first, labelled_lists, labelled_lists-OthersLose, ips_of, same, creation,
  deletion, network_of,
}

abbrev Zero : Type 0
Zero = Unit {0}

abbrev asked_label : Params Zero → Bytes
asked_label no_params = []
asked_label (get_params g) = []
asked_label (list_params o) = selected o.label_selector

abbrev added : Body MacvlanIp Zero → Store → List MacvlanIp
added (object item) s = s.ips ++ item ∷ []
added no_body s = s.ips
added (delete_options d) s = s.ips
added (patch_data b) s = s.ips

abbrev removed : Option Bytes → Store → List MacvlanIp
removed none s = s.ips
removed (some name) s = remove_first name s.ips

abbrev rest_ips : Rest Store MacvlanIp Zero Zero
rest_ips = record {
  Watcher = Unit {0};
  into_object = λ q s. (err missing, record s { ips = added q.body s });
  into_list = λ q s. (ok (among (asked_label q.params) s.ips), s);
  send = λ q s. (ok tt, record s { ips = removed q.name s });
  start_watch = λ q s. (ok tt, s);
}

abbrev rest_subnets : Rest Store MacvlanSubnet Zero Zero
rest_subnets = record {
  Watcher = Unit {0};
  into_object = λ q s. (ok small_subnet, s);
  into_list = λ q s. (ok (small_subnet ∷ []), s);
  send = λ q s. (ok tt, s);
  start_watch = λ q s. (ok tt, s);
}

abbrev rest_clients : Clients Store Zero Zero Bytes
rest_clients = record {
  rest_ips = rest_ips;
  rest_subnets = rest_subnets;
  get_indexer = λ s. record {
    list_all = λ selector. ([], none);
    list_all_by_namespace = λ ns selector. ([], none);
    get_by_key = λ k. ok none;
  };
  not_found = λ resource name. name;
  get_options = tt;
  delete_options = tt;
  everything = [];
}

removal :
    (name : Option Bytes) (s : Store) (subnet : Bytes)
    → Sublist (among subnet (removed name s)) (among subnet s.ips)
removal none s subnet = Sublist-refl _
removal (some name) s subnet = deletion name subnet s.ips

label-asked :
    (subnet : Bytes) (q : Request MacvlanIp Zero Zero)
    → AsksFor (codes "subnet=" ++ subnet) q
    → subnet ≡ asked_label q.params
label-asked subnet q asks = let (o, params, label, watch) = asks.options in rw (params, label) refl

addition :
    (body : Body MacvlanIp Zero) (item : MacvlanIp) (s : Store) (subnet : Bytes)
    → body ≡ object item
    → Created item subnet (among subnet s.ips) (among subnet (added body s))
addition body item s subnet e = rw e (creation item subnet s.ips)

rest_clients-IsRestStore : IsRestStore labelled_lists rest_clients ips_of
rest_clients-IsRestStore = record {
  lists =
      λ subnet q w asks. (_, refl, same _ _ (ap (λ l. among l w.ips) (label-asked subnet q asks)));
  creates = λ q item w subnet posts carries. addition q.body item w subnet carries;
  gets_lose = λ q gets. record { within = λ w subnet. Sublist-refl _ };
  deletes_lose = λ q deletes. record { within = λ w subnet. removal q.name w subnet };
  subnets_lose = λ q. record { within = λ w subnet. Sublist-refl _ };
  networks = λ q w subnet gets of_subnets e. network_of subnet (cc);
}

wired-IsStore_example : IsStore (wired labelled_lists rest_clients) ips_of
wired-IsStore_example =
    wired-IsStore labelled_lists rest_clients ips_of rest_clients-IsRestStore
      labelled_lists-OthersLose
