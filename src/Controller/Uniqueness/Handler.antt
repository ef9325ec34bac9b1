-- ===== src/Controller/Uniqueness/Handler.antt =====
-- controller/macvlanip.go: the handler of a pod behind an allocation, and the addresses in use.
use network_controller.Common.{
  ◌≡◌, ◌≢◌, refl, sym, ◌∙◌, subst, Bool, true, false, not, List, some, In, if◌then◌else◌,
}
use network_controller.Go.Text.{Bytes, codes}
use network_controller.Go.Text.Laws.{beq_refl}
use network_controller.Go.Result.{ok, Error, is_already_exists}
use network_controller.Go.Exec.{Exec, pure, raise, catch, ignoring, ◌>>=◌, ◌>>◌}
use network_controller.Go.Exec.Laws.{catch-raised}
use network_controller.Go.Exec.Keeps.{
  Keeps, Leads, pure-Keeps, raise-Keeps, catch-Keeps, ignoring-Keeps, >>=-Keeps, if-Keeps,
  >>=-Leads, catch-Leads, >>=-returned,
}
use network_controller.Go.Map.{get, made}
use network_controller.Go.Net.{Ip}
use network_controller.Go.Net.Laws.{IsIpv4}
use network_controller.Types.{MacvlanIp, MacvlanSubnet, Pod}
use network_controller.Cluster.{Cluster}
use network_controller.Controller.Hosts.{convert_to_ip_list, convert_ip_to_cidr}
use network_controller.Controller.Ipalloc.{event_macvlan_ip_error}
use network_controller.Controller.Macvlanip.{
  make_macvlan_ip, create_step, finish_step, update_labels, reported,
}
use network_controller.Controller.Service.{sync_service}
use network_controller.Controller.Uniqueness.Lists.{
  Sublist-HaveOwnAddresses, Sublist-In, convert_to_ip_list-Sublist, HaveOwnAddresses,
  insert-HaveOwnAddresses,
}
use network_controller.Controller.Uniqueness.Hosts.{IsIpv4Network, IsIpv4Network-HasOneSlash}
use network_controller.Controller.Uniqueness.Server.{IsStore, Loses, not_created, inserted}
use network_controller.Controller.Uniqueness.Losing.{
  IsClosed, quietly, sync_service-Keeps, ip_event-Keeps, retried-Loses,
}

-- In each subnet no two macvlanips have the same address.
abbrev pub AllApart : (Bytes → List MacvlanIp) → Type 0
AllApart view = (subnet : Bytes) → HaveOwnAddresses (view subnet)

pub AllApart-IsClosed : IsClosed AllApart
AllApart-IsClosed v v' fewer apart subnet = Sublist-HaveOwnAddresses (fewer subnet) (apart subnet)

module _ (c : Cluster) (ips : c.World → Bytes → List MacvlanIp) (store : IsStore c ips) where
  -- The state of the macvlanips is good.
  abbrev pub Apart : c.World → Type 0
  Apart w = AllApart (ips w)

  module _ (pod : Pod) (subnet : MacvlanSubnet) (net : IsIpv4Network subnet.spec.cidr) where
    -- The address may be given to a new macvlanip of the subnet.
    abbrev Ready : Ip → (Bytes → List MacvlanIp) → Type 0
    Ready ip view = AllApart view × (¬ In ip (convert_to_ip_list (view subnet.meta.name)))

    Ready-IsClosed : (ip : Ip) → IsClosed (Ready ip)
    Ready-IsClosed ip v v' fewer (apart, free) = (
      AllApart-IsClosed v v' fewer apart,
      λ i. free (Sublist-In ip (convert_to_ip_list-Sublist (fewer subnet.meta.name)) i),
    )

    label-name :
        (s mac cidr : Bytes)
        → get (made (make_macvlan_ip pod subnet cidr mac).meta.labels) (codes "subnet") ≡ some s
        → subnet.meta.name ≡ s
    unfolding make_macvlan_ip get
    label-name s mac cidr h = cc (beq_refl (codes "subnet"))

    written : (cidr mac : Bytes) → (make_macvlan_ip pod subnet cidr mac).spec.cidr ≡ cidr
    unfolding make_macvlan_ip
    written cidr mac = refl

    created-Apart :
        (cidr mac : Bytes) (ip : Ip) (w : c.World)
        → IsIpv4 ip
        → cidr ≡ convert_ip_to_cidr ip subnet.spec.cidr
        → Ready ip (ips w)
        → Apart (c.create_macvlan_ip pod.meta.namespace (make_macvlan_ip pod subnet cidr mac) w).1
    created-Apart cidr mac ip w v text (apart, free) s =
        elim (store.creates pod.meta.namespace (make_macvlan_ip pod subnet cidr mac) w s) [
          | not_created fewer ↦ Sublist-HaveOwnAddresses fewer (apart s)
          | inserted a b label before after ↦
              let named = label-name s mac cidr label in
              let free_there = subst (λ z. ¬ In ip (convert_to_ip_list (ips w z))) named free in
              Sublist-HaveOwnAddresses after (
                insert-HaveOwnAddresses (make_macvlan_ip pod subnet cidr mac) a b ip
                  subnet.spec.cidr v (IsIpv4Network-HasOneSlash subnet.spec.cidr net)
                  (written cidr mac ∙ text)
                  (λ i. free_there (Sublist-In ip (convert_to_ip_list-Sublist before) i))
                  (Sublist-HaveOwnAddresses before (apart s)))
        ]

    -- An error that is told as an event of the pod and raised again.
    retold-Keeps :
        {A : Type 0} (e : Error)
        → Keeps Apart (event_macvlan_ip_error c pod e >>= λ _. raise {A = A} e)
    retold-Keeps e =
        >>=-Keeps Apart (event_macvlan_ip_error c pod e) (λ _. raise e)
          (ip_event-Keeps c ips store AllApart AllApart-IsClosed pod e) (λ _. raise-Keeps Apart e)

    create_step-Apart :
        (cidr mac : Bytes) (ip : Ip)
        → IsIpv4 ip
        → cidr ≡ convert_ip_to_cidr ip subnet.spec.cidr
        → Leads (λ w. Ready ip (ips w)) (create_step c pod subnet cidr mac) Apart
    unfolding create_step
    create_step-Apart cidr mac ip v text =
        let ReadyNow = λ (w : c.World). Ready ip (ips w) in
        let create = c.create_macvlan_ip pod.meta.namespace (make_macvlan_ip pod subnet cidr mac) in
        let made_one : Leads ReadyNow (create >>= λ _. pure tt) Apart =
          >>=-Leads ReadyNow Apart Apart create (λ _. pure tt)
            (record { leads = λ w r. created-Apart cidr mac ip w v text r })
            (λ _. pure-Keeps Apart tt) (λ w p. p) in
        let told = λ (e : Error).
          if not (is_already_exists e)
          then event_macvlan_ip_error c pod e >> raise {A = Unit {0}} e
          else pure tt in
        >>=-Leads ReadyNow Apart Apart (catch (create >>= λ _. pure tt) told)
          (λ _. ignoring tt (sync_service c pod.meta.name pod.meta.namespace))
          (catch-Leads ReadyNow Apart (create >>= λ _. pure tt) told made_one (λ e.
            if-Keeps Apart (not (is_already_exists e)) _ _ (retold-Keeps e) (pure-Keeps Apart tt)))
          (λ _. ignoring-Keeps Apart tt _ (
            sync_service-Keeps c ips store AllApart AllApart-IsClosed pod.meta.name
              pod.meta.namespace))
          (λ w p. p)

    if-Leads :
        (b : Bool) (P Q : c.World → Type 0) (m n : Exec c.World (Unit {0}))
        → Leads P m Q
        → Leads P n Q
        → Leads P (if b then m else n) Q
    if-Leads true P Q m n km kn = km
    if-Leads false P Q m n km kn = kn

    finish_step-Apart :
        (text : Bytes) (ip : Ip) (cidr mac : Bytes)
        → IsIpv4 ip
        → cidr ≡ convert_ip_to_cidr ip subnet.spec.cidr
        → Leads (λ w. Ready ip (ips w)) (finish_step c pod subnet text (ip, cidr, mac)) Apart
    unfolding finish_step
    finish_step-Apart text ip cidr mac v is_text =
        let ReadyNow = λ (w : c.World). Ready ip (ips w) in
        let retry = c.retry_on_conflict (update_labels c pod text ip) in
        >>=-Leads ReadyNow ReadyNow Apart (catch (retry >>= λ _. pure true) (λ e. pure false)) _
          (catch-Keeps ReadyNow (retry >>= λ _. pure true) (λ e. pure false)
            (>>=-Keeps ReadyNow retry (λ _. pure true)
              (quietly c ips store (Ready ip) (Ready-IsClosed ip) retry
                (retried-Loses c ips store pod text ip))
              (λ _. pure-Keeps ReadyNow true))
            (λ e. pure-Keeps ReadyNow false))
          (λ written.
            if-Leads written ReadyNow Apart _ _ (create_step-Apart cidr mac ip v is_text)
              (record { leads = λ w r. r.0 }))
          (λ w r. r.0)

    -- What the handler relies on of an allocation.
    abbrev pub Fits : Exec c.World (Ip × Bytes × Bytes) → Type 0
    Fits m =
        (w : c.World) (ip : Ip) (cidr mac : Bytes)
        → (m w).0 ≡ ok (ip, cidr, mac)
        → IsIpv4 ip
          × (cidr ≡ convert_ip_to_cidr ip subnet.spec.cidr)
          × (¬ In ip (convert_to_ip_list (ips (m w).1 subnet.meta.name)))

    raised :
        (e : Error) (u : c.World) (a : Ip × Bytes × Bytes)
        → ((event_macvlan_ip_error c pod e >>= λ _. raise {A = Ip × Bytes × Bytes} e) u).0 ≢ ok a
    unfolding event_macvlan_ip_error
    raised e u a h = cc

    pub chosen-Apart :
        (text : Bytes) (m : Exec c.World (Ip × Bytes × Bytes))
        → Loses ips m
        → Fits m
        → Keeps Apart (reported c pod m >>= finish_step c pod subnet text)
    unfolding reported
    chosen-Apart text m loses fits = record {
      leads = λ w p.
          let shown = quietly c ips store AllApart AllApart-IsClosed m loses in
          let kept : Keeps Apart (reported c pod m) = catch-Keeps Apart m _ shown retold-Keeps in
          >>=-returned Apart (reported c pod m) _ w (kept.leads w p)
            (λ (a : Ip × Bytes × Bytes) (e : (reported c pod m w).0 ≡ ok a).
              let (returned, same) =
                catch-raised m (λ x. event_macvlan_ip_error c pod x >> raise x) w a
                  (λ x u. raised x u a) e in
              let (v, is_text, free) = fits w a.0 a.1 a.2 returned in
              let still = kept.leads w p in
              (finish_step-Apart text a.0 a.1 a.2 v is_text).leads _ (
                still,
                subst (λ u. ¬ In a.0 (convert_to_ip_list (ips u subnet.meta.name))) (sym same) free,
              ));
    }
