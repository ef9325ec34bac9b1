-- ===== src/Clientset.antt =====
-- pkg/generated/clientset/versioned: the clientset and the client of the group, from a configuration.
-- What builds a REST client, a discovery client and a rate limiter is of client-go.
use network_controller.Go.Int.{ℤ}
use network_controller.Common.{Bool, true, false, Option, none, some, if◌then◌else◌, is_empty, ◌&&◌}
use network_controller.Go.Text.{Bytes, codes}
use network_controller.Go.Result.{Result, ok, err, panics, hangs, ◌>>=◌}

-- `rest.Config`: the fields that are read or written, and the others. `Q` are the float32 numbers, `L`
-- the rate limiters; the burst is an int.
pub record Config (Q L O : Type 0) : Type 0 where
  pub group_version : Option (Bytes × Bytes)
  pub api_path : Bytes
  pub negotiated_serializer : Bytes
  pub user_agent : Bytes
  pub rate_limiter : Option L
  pub qps : Q
  pub burst : ℤ
  pub others : O

-- `flowcontrol.NewTokenBucketRateLimiter`, the comparison with 0, the default user agent, the
-- serializer over the scheme's codecs, and what builds the clients.
pub record Library (Q L O R D : Type 0) : Type 0 where
  pub new_limiter : Q → ℤ → L
  pub is_positive : Q → Bool
  pub default_user_agent : Bytes
  pub direct_codec_factory : Bytes
  pub rest_client_for : Config Q L O → Result R
  pub new_discovery : Config Q L O → Result D

-- `Clientset`; `MacvlanV1Client` is its REST client.
pub record Clientset (R D : Type 0) : Type 0 where
  pub discovery_client : D
  pub macvlan_v1 : R

-- `Discovery` of a pointer that may be nil
unfoldable pub discovery : {R D : Type 0} → Option (Clientset R D) → Option D
discovery none = none
discovery (some c) = some c.discovery_client

-- `New`, over a REST client; `new_discovery` is `discovery.NewDiscoveryClient`.
unfoldable pub new_clientset : {R D : Type 0} → (R → D) → R → Clientset R D
new_clientset new_discovery c = record { discovery_client = new_discovery c; macvlan_v1 = c }

-- `OrDie`
abbrev or_die {ℓ} : {A : Type ℓ} → Result A → Result A
or_die (err e) = panics
or_die (ok a) = ok a
or_die panics = panics
or_die hangs = hangs

module _ {Q L O R D : Type 0} (lib : Library Q L O R D) where
  -- The function never fails.
  unfoldable pub set_config_defaults : Config Q L O → Config Q L O
  set_config_defaults config = record config {
    group_version = some (codes "macvlan.cluster.cattle.io", codes "v1");
    api_path = codes "/apis";
    negotiated_serializer = lib.direct_codec_factory;
    user_agent = if is_empty config.user_agent then lib.default_user_agent else config.user_agent;
  }

  -- `NewForConfig` and `NewForConfigOrDie` of macvlan_client.go
  unfoldable pub v1_for_config : Config Q L O → Result R
  unfolding set_config_defaults
  v1_for_config c = lib.rest_client_for (set_config_defaults c)

  unfoldable pub v1_for_config_or_die : Config Q L O → Result R
  v1_for_config_or_die c = or_die (v1_for_config c)

  has_no_limiter : Option L → Bool
  has_no_limiter none = true
  has_no_limiter (some l) = false

  -- `configShallowCopy`
  unfoldable pub limited : Config Q L O → Config Q L O
  unfolding has_no_limiter
  limited c =
      if has_no_limiter c.rate_limiter && lib.is_positive c.qps
      then record c { rate_limiter = some (lib.new_limiter c.qps c.burst) }
      else c

  unfoldable pub new_for_config : Config Q L O → Result (Clientset R D)
  new_for_config c = v1_for_config (limited c) >>= λ client.
      lib.new_discovery (limited c) >>= λ discovery.
      ok (record { discovery_client = discovery; macvlan_v1 = client })

  -- `discovery.NewDiscoveryClientForConfigOrDie` is the other one, with a panic.
  unfoldable pub new_for_config_or_die : Config Q L O → Result (Clientset R D)
  new_for_config_or_die c = v1_for_config_or_die c >>= λ client.
      or_die (lib.new_discovery c) >>= λ discovery.
      ok (record { discovery_client = discovery; macvlan_v1 = client })
