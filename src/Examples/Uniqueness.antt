-- ===== src/Examples/Uniqueness.antt =====
-- A run of the theorem that the addresses of a subnet stay apart, on a server in which each
-- macvlanip is listed by its label.
use network_controller.Common.{
  ◌≡◌, refl, ap, subst, arith, ◌∙◌, Bool, true, false, List, [], ◌∷◌, ◌++◌, append-nil, Option,
  none, some, if◌then◌else◌, Bool-cases, inl, inr,
}
use network_controller.Go.Text.{Bytes, codes, beq}
use network_controller.Go.Text.Laws.{beq_iff}
use network_controller.Go.Result.{ok}
use network_controller.Go.Map.{get, made}
use network_controller.Types.{MacvlanIp, MacvlanSubnet, WorkItem, key, another}
use network_controller.Cluster.{Cluster}
use network_controller.Ipcalc.Cidr.{cidr_text}
use network_controller.Controller.Queue.{process_next_work_item}
use network_controller.Controller.Purge.{purge}
use network_controller.Controller.Uniqueness.Server.{
  IsStore, OthersLose, Created, not_created, inserted,
}
use network_controller.Controller.Uniqueness.Hosts.{IsIpv4Network}
use network_controller.Controller.Uniqueness.Lists.{
  one-HaveOwnAddresses, Sublist, nil, lost, kept, Sublist-refl,
}
use network_controller.Controller.Hosts.{convert_to_ip_list}
use network_controller.Controller.Uniqueness.Handler.{AllApart}
use network_controller.Controller.Uniqueness.Runs.{here, next, worked, purged, called, Reach-Apart}
use network_controller.Controller.Setup.{Handlers, registrations, pods}
use network_controller.Controller.Effects.Handlers.{IsRegistered, adds}
use network_controller.Controller.Macvlanip.{enqueue_pod}
use network_controller.Examples.Clients.{idle}
use network_controller.Examples.Store.{Store, lists, pop}
use network_controller.Examples.Allocations.{small_subnet, small_store, taken_ip}

abbrev is_label : Bytes → Option Bytes → Bool
is_label subnet none = false
is_label subnet (some t) = beq t subnet

abbrev of_subnet : Bytes → MacvlanIp → Bool
of_subnet subnet item = is_label subnet (get (made item.meta.labels) (codes "subnet"))

-- The macvlanips with the label of a subnet.
abbrev pub among : Bytes → List MacvlanIp → List MacvlanIp
among subnet [] = []
among subnet (x ∷ xs) = if of_subnet subnet x then x ∷ among subnet xs else among subnet xs

-- A selector without its first seven bytes, `subnet=`.
abbrev pub selected : Bytes → Bytes
selected (a ∷ b ∷ c ∷ d ∷ e ∷ f ∷ g ∷ name) = name
selected _ = []

abbrev pub remove_first : Bytes → List MacvlanIp → List MacvlanIp
remove_first name [] = []
remove_first name (x ∷ xs) = if beq x.meta.name name then xs else x ∷ remove_first name xs

abbrev pub labelled_lists : Cluster
labelled_lists = record lists {
  get_subnet = λ ns name s. (ok small_subnet, s);
  list_macvlan_ips = λ ns selector s. (ok (among (selected selector) s.ips), s);
  delete_macvlan_ip = λ ns name s. (ok tt, record s { ips = remove_first name s.ips });
}

abbrev pub ips_of : Store → Bytes → List MacvlanIp
ips_of s subnet = among subnet s.ips

is_label-some : (subnet : Bytes) (o : Option Bytes) → is_label subnet o ≡ true → o ≡ some subnet
is_label-some subnet none h = absurd (cc)
is_label-some subnet (some t) h = ap some ((beq_iff t subnet).0 h)

among-append :
    (subnet : Bytes) (a b : List MacvlanIp)
    → among subnet (a ++ b) ≡ among subnet a ++ among subnet b
among-append subnet [] b = refl
among-append subnet (x ∷ a) b = elim (Bool-cases (of_subnet subnet x)) [
  | inl h ↦ rw (h, among-append subnet a b)
  | inr h ↦ rw (h, among-append subnet a b)
]

-- The macvlanips of a store are their own part.
pub same : (xs ys : List MacvlanIp) → xs ≡ ys → Sublist xs ys
same xs ys e = subst (λ (zs : List MacvlanIp). Sublist xs zs) e (Sublist-refl xs)

pub creation :
    (item : MacvlanIp) (subnet : Bytes) (xs : List MacvlanIp)
    → Created item subnet (among subnet xs) (among subnet (xs ++ item ∷ []))
creation item subnet xs = elim (Bool-cases (of_subnet subnet item)) [
  | inl h ↦
      inserted (among subnet xs) [] (is_label-some subnet _ h)
        (same _ _ (append-nil (among subnet xs)))
        (same _ _ (among-append subnet xs (item ∷ []) ∙ rw h refl))
  | inr h ↦
      not_created
        (same _ _ (among-append subnet xs (item ∷ []) ∙ rw (h, append-nil (among subnet xs)) refl))
]

pub deletion :
    (name subnet : Bytes) (xs : List MacvlanIp)
    → Sublist (among subnet (remove_first name xs)) (among subnet xs)
deletion name subnet [] = nil
deletion name subnet (x ∷ xs) = elim (Bool-cases (beq x.meta.name name)) [
  | inl h ↦ rw h (elim (Bool-cases (of_subnet subnet x)) [
    | inl g ↦ rw g (lost (Sublist-refl (among subnet xs)))
    | inr g ↦ rw g (Sublist-refl (among subnet xs))
  ])
  | inr h ↦ rw h (elim (Bool-cases (of_subnet subnet x)) [
    | inl g ↦ rw g (kept (deletion name subnet xs))
    | inr g ↦ rw g (deletion name subnet xs)
  ])
]

small_network : IsIpv4Network (cidr_text 167772160 29)
small_network = record {
  address = 167772160;
  prefix = 29;
  prefix_pos = omega arith;
  prefix_le = omega arith;
  address_lt = omega arith;
  is_text = refl;
}

pub network_of : (subnet : MacvlanSubnet) → small_subnet ≡ subnet → IsIpv4Network subnet.spec.cidr
network_of subnet e = subst (λ (s : MacvlanSubnet). IsIpv4Network s.spec.cidr) e small_network

pop-ips : (queue : List WorkItem) (s : Store) → s.queue ≡ queue → (pop s).1.ips ≡ s.ips
pop-ips [] s e = rw e refl
pop-ips (item ∷ rest) s e = rw e refl

pub labelled_lists-OthersLose : OthersLose labelled_lists ips_of
labelled_lists-OthersLose = record {
  get_pod_loses = λ ns name. record { within = λ w subnet. Sublist-refl _ };
  list_pods_loses = λ ns selector. record { within = λ w subnet. Sublist-refl _ };
  update_pod_loses = λ ns pod. record { within = λ w subnet. Sublist-refl _ };
  get_service_loses = λ ns name. record { within = λ w subnet. Sublist-refl _ };
  create_service_loses = λ ns svc. record { within = λ w subnet. Sublist-refl _ };
  get_replica_set_loses = λ ns name. record { within = λ w subnet. Sublist-refl _ };
  get_workload_loses = λ resource ns name. record { within = λ w subnet. Sublist-refl _ };
  lister_pod_loses = λ ns name. record { within = λ w subnet. Sublist-refl _ };
  event_loses = λ pod reason message. record { within = λ w subnet. Sublist-refl _ };
  queue_get_loses = record {
    within = λ w subnet. same _ _ (ap (among subnet) (pop-ips w.queue w refl));
  };
  rate_limited_loses = λ item. record { within = λ w subnet. Sublist-refl _ };
  forget_loses = λ item. record { within = λ w subnet. Sublist-refl _ };
  done_loses = λ item. record { within = λ w subnet. Sublist-refl _ };
  add_loses = λ item. record { within = λ w subnet. Sublist-refl _ };
  create_attachment_loses = λ ns a. record { within = λ w subnet. Sublist-refl _ };
  delete_attachment_loses = λ ns name. record { within = λ w subnet. Sublist-refl _ };
  retry_loses = λ f l. l;
}

labelled_lists-IsStore : IsStore labelled_lists ips_of
labelled_lists-IsStore = record {
  lists = λ subnet w. (among subnet.meta.name w.ips, refl, Sublist-refl _);
  creates = λ ns item w subnet. creation item subnet w.ips;
  networks = λ ns name w subnet e. network_of subnet (cc);
  list_loses = λ ns selector. record { within = λ w subnet. Sublist-refl _ };
  get_subnet_loses = λ ns name. record { within = λ w subnet. Sublist-refl _ };
  lister_loses = record { within = λ w subnet. Sublist-refl _ };
  delete_loses = λ ns name. record { within = λ w subnet. deletion name subnet w.ips };
  update_subnet_loses = λ ns subnet. record { within = λ w subnet. Sublist-refl _ };
  others = labelled_lists-OthersLose;
}

-- One macvlanip, of 10.0.0.2, and the key of a pod that asks for any address.
abbrev labelled_ip : MacvlanIp
labelled_ip = record taken_ip {
  meta = record (taken_ip.meta) { labels = some ((codes "subnet", codes "small") ∷ []) };
}

abbrev waiting : Store
waiting = record small_store { ips = labelled_ip ∷ []; queue = key (codes "web-1-abc") ∷ [] }

waiting-apart : AllApart (ips_of waiting)
unfolding convert_to_ip_list
waiting-apart subnet = elim (Bool-cases (of_subnet subnet labelled_ip)) [
  | inl h ↦ rw h (one-HaveOwnAddresses labelled_ip)
  | inr h ↦ rw h tt
]

-- The handler of new pods is one of the functions that a new controller registers.
pod_handlers : Handlers Store
pod_handlers = record {
  add_func = some (enqueue_pod labelled_lists);
  update_func = none;
  delete_func = none;
}

adds_pods : IsRegistered labelled_lists idle (enqueue_pod labelled_lists)
unfolding registrations pod_handlers
adds_pods = adds pods pod_handlers (inl refl) refl

-- The worker takes the key, the addresses are purged, and a pod is added.
abbrev worked_one : Store
worked_one = (process_next_work_item labelled_lists waiting).1

abbrev purged_one : Store
purged_one = (purge labelled_lists worked_one).1

Reach-Apart_example : AllApart (ips_of (enqueue_pod labelled_lists another purged_one).1)
Reach-Apart_example =
    Reach-Apart labelled_lists ips_of labelled_lists-IsStore idle
      (next (next (next here (worked waiting)) (purged worked_one))
        (called (enqueue_pod labelled_lists) adds_pods another purged_one))
      waiting-apart
