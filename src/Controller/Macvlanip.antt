-- ===== src/Controller/Macvlanip.antt =====
-- controller/macvlanip.go: an address for a new pod.
use network_controller.Common.{
  Bool, true, false, not, [], ◌∷◌, ◌++◌, Option, none, some, if◌then◌else◌,
}
use network_controller.Go.Text.{Bytes, codes, beq}
use network_controller.Go.Result.{plain, is_already_exists}
use network_controller.Go.Exec.{Exec, pure, raise, catch, ignoring, perform, ◌>>=◌, ◌>>◌}
use network_controller.Go.Map.{get, put, value_or, made}
use network_controller.Go.Net.{Ip, ip_string}
use network_controller.Types.{
  Pod, MacvlanIp, MacvlanSubnet, Object, key, macvlan_subnet_namespace, annotation_ip,
  annotation_subnet, annotation_mac, label_selected_ip, label_multiple_ip_hash,
}
use network_controller.Cluster.{Cluster}
use network_controller.Controller.Hosts.{is_single_ip, is_multiple_ip}
use network_controller.Controller.Ipalloc.{
  ip_hash, event_macvlan_subnet_error, event_macvlan_ip_error, allocate_auto_ip, allocate_single_ip,
  allocate_multiple_ip,
}
use network_controller.Controller.Service.{sync_service}

unfoldable pub is_some : Option Bytes → Bool
is_some none = false
is_some (some v) = true

-- `pod.Annotations[k]`
unfoldable pub annotation : Pod → Bytes → Option Bytes
annotation pod k = get (made pod.meta.annotations) k

unfoldable pub is_macvlan_pod : Pod → Bool
unfolding is_some annotation
is_macvlan_pod pod =
    if not (is_some (annotation pod annotation_ip))
    then false
    else if not (is_some (annotation pod annotation_subnet))
    then false
    else true

unfoldable pub make_macvlan_ip : Pod → MacvlanSubnet → Bytes → Bytes → MacvlanIp
make_macvlan_ip pod subnet cidr mac = record {
  meta = record {
    name = pod.meta.name;
    namespace = pod.meta.namespace;
    uid = [];
    labels = some ((codes "subnet", subnet.meta.name) ∷ []);
    annotations = none;
    owner_references =
        record {
          api_version = codes "v1";
          kind = codes "Pod";
          uid = pod.meta.uid;
          name = pod.meta.name;
          controller = some true;
        }
        ∷ [];
  };
  spec = record { subnet = subnet.meta.name; pod_id = pod.meta.uid; cidr = cidr; mac = mac };
}

-- The labels that the pod gets.
unfoldable pub labelled : Pod → Bytes → Ip → Pod
labelled pod annotation ip = record pod {
  meta = record (pod.meta) {
    labels = some (
        put (put (made pod.meta.labels) label_multiple_ip_hash (ip_hash annotation))
          label_selected_ip (ip_string ip));
  };
}

module _ (c : Cluster) where
  open c use {
    World, get_subnet, get_pod, update_pod, create_macvlan_ip, retry_on_conflict,
    meta_namespace_key, queue_add,
  }

  unfoldable pub enqueue_pod : Object → Exec World (Unit {0})
  enqueue_pod obj = elim (meta_namespace_key obj) [
    | none ↦ pure tt
    | some k ↦ perform (queue_add (key k))
  ]

  -- The function that `RetryOnConflict` is given.
  unfoldable pub update_labels : Pod → Bytes → Ip → Exec World (Unit {0})
  unfolding labelled
  update_labels pod annotation ip = do
    result ← get_pod pod.meta.namespace pod.meta.name
    update_pod result.meta.namespace (labelled result annotation ip)
    pure tt

  -- The creation of the macvlanip, from `makeMacvlanIP` on.
  unfoldable pub create_step : Pod → MacvlanSubnet → Bytes → Bytes → Exec World (Unit {0})
  create_step pod subnet cidr mac = do
    catch (do create_macvlan_ip pod.meta.namespace (make_macvlan_ip pod subnet cidr mac); pure tt)
        (λ e.
          if not (is_already_exists e) then event_macvlan_ip_error c pod e >> raise e else pure tt)
    ignoring tt (sync_service c pod.meta.name pod.meta.namespace)

  -- What follows the allocation. If the labels cannot be written, the code returns `err`, which is
  -- nil there, and not `retryErr`.
  unfoldable pub finish_step :
      Pod → MacvlanSubnet → Bytes → Ip × Bytes × Bytes → Exec World (Unit {0})
  unfolding update_labels create_step
  finish_step pod subnet annotation (ip, cidr, mac) = do
    written ←
        catch (do retry_on_conflict (update_labels pod annotation ip); pure true) (λ e. pure false)
    if written then create_step pod subnet cidr mac else pure tt

  -- `if err != nil { c.eventMacvlanIPError(pod, err); return err }` behind the allocation
  unfoldable pub reported : Pod → Exec World (Ip × Bytes × Bytes) → Exec World (Ip × Bytes × Bytes)
  reported pod m = catch m (λ e. event_macvlan_ip_error c pod e >> raise e)

  -- The MAC is empty in the first two modes.
  unfoldable pub without_mac : Exec World (Ip × Bytes) → Exec World (Ip × Bytes × Bytes)
  without_mac m = do (ip, cidr) ← m; pure (ip, cidr, [])

  -- The choice of the mode, by the text of the annotation.
  unfoldable pub allocate_step : Pod → MacvlanSubnet → Bytes → Bytes → Exec World (Unit {0})
  unfolding finish_step reported without_mac
  allocate_step pod subnet ip mac =
      if beq ip (codes "auto")
      then (do
        chosen ← reported pod (without_mac (allocate_auto_ip c pod subnet))
        finish_step pod subnet ip chosen)
      else if is_single_ip ip
      then (do
        chosen ← reported pod (without_mac (allocate_single_ip c pod subnet ip))
        finish_step pod subnet ip chosen)
      else if is_multiple_ip ip
      then (do
        chosen ← reported pod (allocate_multiple_ip c pod subnet ip mac)
        finish_step pod subnet ip chosen)
      else event_macvlan_ip_error c pod (plain (codes "annotation ip invalid: " ++ ip))

  unfoldable pub do_add_macvlan_ip : Pod → Exec World (Unit {0})
  unfolding allocate_step annotation
  do_add_macvlan_ip pod = if not (is_macvlan_pod pod) then pure tt else do
    subnet ←
        catch (get_subnet macvlan_subnet_namespace (value_or [] (annotation pod annotation_subnet)))
          (λ e. event_macvlan_subnet_error c pod e >> raise e)
    allocate_step pod subnet (value_or [] (annotation pod annotation_ip))
        (value_or [] (annotation pod annotation_mac))
