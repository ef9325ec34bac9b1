-- ===== src/Controller/Uniqueness/Modes.antt =====
-- controller/ipalloc.go: what the handler of a pod relies on of each mode of allocation.
use network_controller.Common.{◌≡◌, ◌≢◌, ap, ◌∙◌, not, List, [], ◌++◌, In}
use network_controller.Go.Text.{Bytes, codes, beq}
use network_controller.Go.Result.{Result, ok, Error}
use network_controller.Go.Exec.{Exec, raise, lift, catch, ◌>>=◌, ◌>>◌}
use network_controller.Go.Exec.Laws.{>>=-first_ok, >>=-eq-ok, catch-raised}
use network_controller.Go.Exec.Keeps.{
  Keeps, if-Keeps, >>=-Keeps, >>=-returned, pure-Keeps, raise-Keeps, catch-Keeps,
}
use network_controller.Go.Map.{value_or}
use network_controller.Go.Net.{Ip}
use network_controller.Go.Net.Laws.{IsIpv4}
use network_controller.Types.{
  MacvlanIp, MacvlanSubnet, Pod, macvlan_subnet_namespace, annotation_subnet,
  label_multiple_ip_hash,
}
use network_controller.Cluster.{Cluster}
use network_controller.Controller.Hosts.{convert_to_ip_list, dashed, is_single_ip, is_multiple_ip}
use network_controller.Controller.Ipalloc.{
  allocate_auto_ip, allocate_single_ip, allocate_multiple_ip, macs_of, ip_hash,
  event_macvlan_subnet_error,
}
use network_controller.Controller.Macvlanip.{
  without_mac, allocate_step, do_add_macvlan_ip, is_macvlan_pod, annotation,
}
use network_controller.Controller.Allocation.Results.{
  In-used_list, IsFreeHost, auto-result, single-result, select_ip-result,
}
use network_controller.Controller.Uniqueness.Hosts.{IsIpv4Network, calc_subnet_hosts-IsIpv4}
use network_controller.Controller.Uniqueness.Lists.{Sublist-In, convert_to_ip_list-Sublist}
use network_controller.Controller.Uniqueness.Server.{IsStore, Loses}
use network_controller.Controller.Uniqueness.Losing.{
  IsClosed, quietly, Loses-of_Keeps, allocate_auto_ip-Keeps, allocate_single_ip-Keeps,
  allocate_multiple_ip-Keeps, ip_event-Keeps, subnet_event-Keeps,
}
use network_controller.Controller.Uniqueness.Handler.{
  AllApart, AllApart-IsClosed, Apart, Fits, chosen-Apart,
}
use network_controller.Controller.Uniqueness.Left.{Left, auto-Left, single-Left, select_ip-Left}

module _ (c : Cluster) (ips : c.World → Bytes → List MacvlanIp) (store : IsStore c ips) where
  module _ (pod : Pod) (subnet : MacvlanSubnet) (net : IsIpv4Network subnet.spec.cidr) where
    free-Fits :
        (v : c.World) (items : List MacvlanIp) (ip : Ip)
        → Left c ips store pod subnet items v
        → IsFreeHost subnet items ip
        → IsIpv4 ip × (¬ In ip (convert_to_ip_list (ips v subnet.meta.name)))
    free-Fits v items ip left (hosts, calc, host, free) = (
      calc_subnet_hosts-IsIpv4 subnet net hosts ip calc host,
      λ i. free (In-used_list items subnet ip (Sublist-In ip (convert_to_ip_list-Sublist left) i)),
    )

    bare-ok :
        (m : Exec c.World (Ip × Bytes)) (w : c.World) (ip : Ip) (cidr mac : Bytes)
        → (without_mac c m w).0 ≡ ok (ip, cidr, mac)
        → ((m w).0 ≡ ok (ip, cidr)) × ((without_mac c m w).1 ≡ (m w).1)
    unfolding without_mac
    bare-ok m w ip cidr mac h =
        let (a, e, f) = >>=-eq-ok m _ w h in
        let same : a ≡ (ip, cidr) = cc in
        (
          e ∙ ap ok same,
          ap (λ (r : Result (Ip × Bytes × Bytes) × c.World). r.1) (>>=-first_ok m _ w a e),
        )

    auto-Fits : Fits c ips store pod subnet net (without_mac c (allocate_auto_ip c pod subnet))
    auto-Fits w ip cidr mac h =
        let (done, same) = bare-ok (allocate_auto_ip c pod subnet) w ip cidr mac h in
        let (items, listing, free, text) = auto-result c subnet pod w ip cidr done in
        let (v, fresh) =
          free-Fits _ items ip (rw same (auto-Left c ips store pod subnet w items listing)) free in
        (v, text, fresh)

    single-Fits :
        (t : Bytes)
        → Fits c ips store pod subnet net (without_mac c (allocate_single_ip c pod subnet t))
    single-Fits t w ip cidr mac h =
        let (done, same) = bare-ok (allocate_single_ip c pod subnet t) w ip cidr mac h in
        let (items, listing, free, text) = single-result c subnet pod t w ip cidr done in
        let (v, fresh) =
          free-Fits _ items ip (rw same (single-Left c ips store pod subnet t w items listing))
            free in
        (v, text, fresh)

    multiple-Fits :
        (t macs : Bytes)
        → Fits c ips store pod subnet net (allocate_multiple_ip c pod subnet t macs)
    unfolding allocate_multiple_ip
    multiple-Fits t macs w ip cidr mac h =
        let (ms, has_macs, h1) = >>=-eq-ok (lift (macs_of (dashed t) t macs)) _ w h in
        let list_pods =
          c.list_pods pod.meta.namespace (label_multiple_ip_hash ++ codes "=" ++ ip_hash t) in
        let (pods, has_pods, h2) = >>=-eq-ok list_pods _ _ h1 in
        let (items, listing, free, text, _) =
          select_ip-result c subnet _ _ t (dashed t) _ ip cidr mac h2 in
        let left = select_ip-Left c ips store pod subnet _ _ t (dashed t) _ items _ listing h2 in
        let (v, fresh) =
          free-Fits _ items ip
            (rw
              (
                >>=-first_ok (lift (macs_of (dashed t) t macs)) _ w ms has_macs,
                >>=-first_ok list_pods _ w pods has_pods,
              )
              left)
            free in
        (v, text, fresh)

    bare-Loses :
        (m : Exec c.World (Ip × Bytes))
        → ((Q : (Bytes → List MacvlanIp) → Type 0) → IsClosed Q → Keeps (λ w. Q (ips w)) m)
        → Loses ips (without_mac c m)
    unfolding without_mac
    bare-Loses m k = Loses-of_Keeps c ips store _ (λ Q closed.
        >>=-Keeps (λ w. Q (ips w)) m _ (k Q closed) (λ a. pure-Keeps (λ w. Q (ips w)) _))

    allocate_step-Apart :
        (text macs : Bytes) → Keeps (Apart c ips store) (allocate_step c pod subnet text macs)
    unfolding allocate_step
    allocate_step-Apart text macs =
        let P = Apart c ips store in
        let choose = chosen-Apart c ips store pod subnet net text in
        if-Keeps P (beq text (codes "auto")) _ _
          (choose (without_mac c (allocate_auto_ip c pod subnet))
            (bare-Loses _ (λ Q closed. allocate_auto_ip-Keeps c ips store Q closed pod subnet))
            auto-Fits)
          (if-Keeps P (is_single_ip text) _ _
            (choose (without_mac c (allocate_single_ip c pod subnet text))
              (bare-Loses _
                (λ Q closed. allocate_single_ip-Keeps c ips store Q closed pod subnet text))
              (single-Fits text))
            (if-Keeps P (is_multiple_ip text) _ _
              (choose (allocate_multiple_ip c pod subnet text macs)
                (Loses-of_Keeps c ips store _ (λ Q closed.
                  allocate_multiple_ip-Keeps c ips store Q closed pod subnet text macs))
                (multiple-Fits text macs))
              (ip_event-Keeps c ips store AllApart AllApart-IsClosed pod _)))

  raised :
      (pod : Pod) (e : Error) (u : c.World) (a : MacvlanSubnet)
      → ((event_macvlan_subnet_error c pod e >>= λ _. raise {A = MacvlanSubnet} e) u).0 ≢ ok a
  unfolding event_macvlan_subnet_error
  raised pod e u a h = cc

  pub do_add_macvlan_ip-Apart : (pod : Pod) → Keeps (Apart c ips store) (do_add_macvlan_ip c pod)
  unfolding do_add_macvlan_ip
  do_add_macvlan_ip-Apart pod =
      let P = Apart c ips store in
      let find =
        c.get_subnet macvlan_subnet_namespace (value_or [] (annotation pod annotation_subnet)) in
      let told = λ (e : Error). event_macvlan_subnet_error c pod e >> raise {A = MacvlanSubnet} e in
      let found : Keeps P (catch find told) =
        catch-Keeps P find told
          (quietly c ips store AllApart AllApart-IsClosed find (store.get_subnet_loses _ _))
          (λ e.
            >>=-Keeps P (event_macvlan_subnet_error c pod e) (λ _. raise e)
              (subnet_event-Keeps c ips store AllApart AllApart-IsClosed pod e)
              (λ _. raise-Keeps P e)) in
      if-Keeps P (not (is_macvlan_pod pod)) _ _ (pure-Keeps P tt) (record {
        leads = λ w p.
            >>=-returned P (catch find told) _ w (found.leads w p)
              (λ (subnet : MacvlanSubnet) (e : (catch find told w).0 ≡ ok subnet).
                let (answer, _) =
                  catch-raised find told w subnet (λ x u. raised pod x u subnet) e in
                (allocate_step-Apart pod subnet (store.networks _ _ w subnet answer) _ _).leads _
                  (found.leads w p));
      })
