-- ===== src/Controller/Effects/Addresses.antt =====
-- controller/macvlanip.go: how the handler of a new pod ends, by the answers that it gets.
use network_controller.Common.{◌≡◌, refl, true, false, not, [], some, if◌then◌else◌}
use network_controller.Go.Text.{Bytes, codes, beq}
use network_controller.Go.Result.{
  Result, ok, err, panics, hangs, Error, plain, status, Reason, error_text, is_already_exists,
}
use network_controller.Go.Exec.{pure, raise, catch, ignoring, ◌>>=◌, ◌>>◌}
use network_controller.Go.Map.{value_or}
use network_controller.Go.Net.{Ip}
use network_controller.Types.{
  Pod, MacvlanIp, MacvlanSubnet, macvlan_subnet_namespace, annotation_ip, annotation_subnet,
  annotation_mac,
}
use network_controller.Cluster.{Cluster}
use network_controller.Controller.Hosts.{is_single_ip, is_multiple_ip}
use network_controller.Controller.Service.{sync_service}
use network_controller.Controller.Ipalloc.{
  allocate_auto_ip, allocate_single_ip, allocate_multiple_ip, event_macvlan_ip_error,
}
use network_controller.Controller.Macvlanip.{
  is_macvlan_pod, annotation, make_macvlan_ip, update_labels, create_step, finish_step, reported,
  without_mac, allocate_step, do_add_macvlan_ip, is_some,
}

module _ (c : Cluster) where
  open c use {World}

  -- An error that the pod's events tell of.
  unfoldable pub told : Pod → Error → World → Result (Unit {0}) × World
  told pod e w = (err e, c.event pod (codes "MacvlanIPError") (error_text e) w)

  -- Behind the creation: the services, whose errors are dropped, or the error of the creation. A
  -- macvlanip that exists already is as good as a new one.
  unfoldable pub registered : Pod → Result MacvlanIp → World → Result (Unit {0}) × World
  registered pod (ok item) w = ignoring tt (sync_service c pod.meta.name pod.meta.namespace) w
  registered pod (err (status Reason.already_exists m)) w =
      ignoring tt (sync_service c pod.meta.name pod.meta.namespace) w
  registered pod (err (status Reason.not_found m)) w = told pod (status Reason.not_found m) w
  registered pod (err (status Reason.conflict m)) w = told pod (status Reason.conflict m) w
  registered pod (err (status Reason.other_reason m)) w = told pod (status Reason.other_reason m) w
  registered pod (err (plain m)) w = told pod (plain m) w
  registered pod panics w = (panics, w)
  registered pod hangs w = (hangs, w)

  module _ (pod : Pod) (subnet : MacvlanSubnet) where
    -- Behind the update of the pod's labels: without labels there is no macvlanip and no error.
    unfoldable pub completion :
        Bytes → Bytes → Result (Unit {0}) → World → Result (Unit {0}) × World
    completion cidr mac (ok u) w =
        let (answer, v) =
          c.create_macvlan_ip pod.meta.namespace (make_macvlan_ip pod subnet cidr mac) w in
        registered pod answer v
    completion cidr mac (err e) w = (ok tt, w)
    completion cidr mac panics w = (panics, w)
    completion cidr mac hangs w = (hangs, w)

    -- Behind the allocation: the labels, or the allocation's error.
    unfoldable pub outcome : Bytes → Result (Ip × Bytes × Bytes) → World → Result (Unit {0}) × World
    outcome text (ok (ip, cidr, mac)) w =
        let (answer, v) = c.retry_on_conflict (update_labels c pod text ip) w in
        completion cidr mac answer v
    outcome text (err e) w = told pod e w
    outcome text panics w = (panics, w)
    outcome text hangs w = (hangs, w)

    -- An address without a MAC.
    unfoldable pub bare : Result (Ip × Bytes) → Result (Ip × Bytes × Bytes)
    bare (ok (ip, cidr)) = ok (ip, cidr, [])
    bare (err e) = err e
    bare panics = panics
    bare hangs = hangs

    created-registered :
        (r : Result MacvlanIp) (w : World)
        → (catch ((λ u. (r, u)) >>= λ _. pure tt) (λ e.
                if not (is_already_exists e)
                then event_macvlan_ip_error c pod e >> raise e
                else pure tt)
              >>= λ _. ignoring tt (sync_service c pod.meta.name pod.meta.namespace))
            w
          ≡ registered pod r w
    unfolding registered told event_macvlan_ip_error
    created-registered (ok item) w = refl
    created-registered (err (status Reason.already_exists m)) w = refl
    created-registered (err (status Reason.not_found m)) w = refl
    created-registered (err (status Reason.conflict m)) w = refl
    created-registered (err (status Reason.other_reason m)) w = refl
    created-registered (err (plain m)) w = refl
    created-registered panics w = refl
    created-registered hangs w = refl

    create_step-registered :
        (cidr mac : Bytes) (w : World)
        → create_step c pod subnet cidr mac w ≡ completion cidr mac (ok tt) w
    unfolding create_step completion
    create_step-registered cidr mac w =
        let (answer, v) =
          c.create_macvlan_ip pod.meta.namespace (make_macvlan_ip pod subnet cidr mac) w in
        created-registered answer v

    written-completion :
        (cidr mac : Bytes) (r : Result (Unit {0})) (w : World)
        → (catch ((λ u. (r, u)) >>= λ _. pure true) (λ e. pure false) >>= λ written.
              if written then create_step c pod subnet cidr mac else pure tt)
            w
          ≡ completion cidr mac r w
    unfolding completion
    written-completion cidr mac (ok tt) w = create_step-registered cidr mac w
    written-completion cidr mac (err e) w = refl
    written-completion cidr mac panics w = refl
    written-completion cidr mac hangs w = refl

    finish_step-completion :
        (text : Bytes) (ip : Ip) (cidr mac : Bytes) (w : World)
        → finish_step c pod subnet text (ip, cidr, mac) w ≡ outcome text (ok (ip, cidr, mac)) w
    unfolding finish_step outcome
    finish_step-completion text ip cidr mac w =
        let (answer, v) = c.retry_on_conflict (update_labels c pod text ip) w in
        written-completion cidr mac answer v

    chosen-outcome :
        (text : Bytes) (r : Result (Ip × Bytes)) (w : World)
        → (reported c pod (without_mac c (λ u. (r, u))) >>= finish_step c pod subnet text) w
          ≡ outcome text (bare r) w
    unfolding reported without_mac outcome bare told event_macvlan_ip_error
    chosen-outcome text (ok (ip, cidr)) w = finish_step-completion text ip cidr [] w
    chosen-outcome text (err e) w = refl
    chosen-outcome text panics w = refl
    chosen-outcome text hangs w = refl

    multiple-outcome :
        (text : Bytes) (r : Result (Ip × Bytes × Bytes)) (w : World)
        → (reported c pod (λ u. (r, u)) >>= finish_step c pod subnet text) w ≡ outcome text r w
    unfolding reported outcome told event_macvlan_ip_error
    multiple-outcome text (ok (ip, cidr, mac)) w = finish_step-completion text ip cidr mac w
    multiple-outcome text (err e) w = refl
    multiple-outcome text panics w = refl
    multiple-outcome text hangs w = refl

  -- A pod that asks for any free address of a subnet that exists: the handler ends as the chain of
  -- its calls tells. An error of the allocation or of the creation becomes an event of the pod and
  -- is returned; a macvlanip that exists already and errors of the services are passed over; and
  -- where the pod's labels cannot be written, nothing is created and no error is returned.
  pub do_add_macvlan_ip-auto :
      (pod : Pod) (subnet : MacvlanSubnet) (name : Bytes) (w v : World)
      → annotation pod annotation_ip ≡ some (codes "auto")
      → annotation pod annotation_subnet ≡ some name
      → c.get_subnet macvlan_subnet_namespace name w ≡ (ok subnet, v)
      → do_add_macvlan_ip c pod w ≡ (
          let (r, u) = allocate_auto_ip c pod subnet v in
          outcome pod subnet (codes "auto") (bare pod subnet r) u)
  unfolding do_add_macvlan_ip is_macvlan_pod is_some allocate_step beq
  do_add_macvlan_ip-auto pod subnet name w v asks names found =
      rw (asks, names, found)
        (let (r, u) = allocate_auto_ip c pod subnet v in
          chosen-outcome pod subnet (codes "auto") r u)

  -- A pod that asks for one address, in a subnet that exists: the handler ends as the chain of its
  -- calls tells, with the same outcomes as for a pod that asks for any address.
  pub do_add_macvlan_ip-single :
      (pod : Pod) (subnet : MacvlanSubnet) (name text : Bytes) (w v : World)
      → annotation pod annotation_ip ≡ some text
      → annotation pod annotation_subnet ≡ some name
      → beq text (codes "auto") ≡ false
      → is_single_ip text ≡ true
      → c.get_subnet macvlan_subnet_namespace name w ≡ (ok subnet, v)
      → do_add_macvlan_ip c pod w ≡ (
          let (r, u) = allocate_single_ip c pod subnet text v in
          outcome pod subnet text (bare pod subnet r) u)
  unfolding do_add_macvlan_ip is_macvlan_pod is_some allocate_step
  do_add_macvlan_ip-single pod subnet name text w v asks names other one found =
      rw (asks, names, found, other, one)
        (let (r, u) = allocate_single_ip c pod subnet text v in chosen-outcome pod subnet text r u)

  -- A pod that asks for one of several addresses, in a subnet that exists: the handler ends as the
  -- chain of its calls tells, with the same outcomes, and the MAC that the allocation chose goes into
  -- the macvlanip.
  pub do_add_macvlan_ip-multiple :
      (pod : Pod) (subnet : MacvlanSubnet) (name text : Bytes) (w v : World)
      → annotation pod annotation_ip ≡ some text
      → annotation pod annotation_subnet ≡ some name
      → beq text (codes "auto") ≡ false
      → is_single_ip text ≡ false
      → is_multiple_ip text ≡ true
      → c.get_subnet macvlan_subnet_namespace name w ≡ (ok subnet, v)
      → do_add_macvlan_ip c pod w ≡ (
          let macs = value_or [] (annotation pod annotation_mac) in
          let (r, u) = allocate_multiple_ip c pod subnet text macs v in outcome pod subnet text r u)
  unfolding do_add_macvlan_ip is_macvlan_pod is_some allocate_step
  do_add_macvlan_ip-multiple pod subnet name text w v asks names other many several found =
      let macs = value_or [] (annotation pod annotation_mac) in
      rw (asks, names, found, other, many, several)
        (let (r, u) = allocate_multiple_ip c pod subnet text macs v in
          multiple-outcome pod subnet text r u)
