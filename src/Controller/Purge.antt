-- ===== src/Controller/Purge.antt =====
-- controller/purge.go: addresses whose pod is gone are deleted.
use network_controller.Common.{ℕ, ◌+◌, Bool, true, false, List, [], ◌∷◌, if◌then◌else◌}
use network_controller.Go.Result.{is_not_found}
use network_controller.Go.Exec.{Exec, pure, catch, ◌>>=◌, ◌>>◌}
use network_controller.Types.{MacvlanIp}
use network_controller.Cluster.{Cluster}

module _ (c : Cluster) where
  open c use {World, lister_pod, lister_macvlan_ips, delete_macvlan_ip}

  unfoldable pub is_pod_not_exist : MacvlanIp → Exec World Bool
  is_pod_not_exist ip =
      catch (do lister_pod ip.meta.namespace ip.meta.name; pure false) (λ e. pure (is_not_found e))

  -- One deletion: whether it counts. An address that is gone already counts too.
  unfoldable pub delete_one : MacvlanIp → Exec World Bool
  delete_one ip =
      catch (do delete_macvlan_ip ip.meta.namespace ip.meta.name; pure true)
        (λ e. pure (is_not_found e))

  -- The loop of `purge`, with `count`.
  unfoldable pub purge_loop : ℕ → List MacvlanIp → Exec World ℕ
  unfolding delete_one
  purge_loop count [] = pure count
  purge_loop count (ip ∷ ips) = do
    gone ← is_pod_not_exist ip
    deleted ← (if gone then delete_one ip else pure false)
    purge_loop (if deleted then count + 1 else count) ips

  -- The count is what the last line logs. An error of the listing is only logged, and the loop runs
  -- over what was listed beside it.
  unfoldable pub purge : Exec World ℕ
  unfolding purge_loop
  purge = do (ips, e) ← lister_macvlan_ips; purge_loop 0 ips
