-- ===== src/KubeClient/Clients.antt =====
-- kubeclient/pool.go: `Context` and the clients that it builds once.
use k8s_explore.Base.{String, Option, none, some, Error, wrapped, foreign, Result, ok, err}

-- What the pool uses of client-go, a library outside the repository: client construction, and
-- reading the UID of the namespace `kube-system` through a dynamic client.
pub record Api : Type 1 where
  pub Config : Type 0
  pub DynamicClient : Type 0
  pub DiscoveryClient : Type 0
  pub ApiError : Type 0
  pub dynamic_new_for_config : Config → Result ApiError DynamicClient
  pub discovery_new_for_config : Config → Result ApiError DiscoveryClient
  pub get_kube_system_uid : DynamicClient → Result ApiError String

module _ (api : Api) where
  pub record Context : Type 0 where
    pub name : String
    pub cluster_uid : String
    pub user : String
    pub namespace : String
    pub cluster : String
    pub config : api.Config
    pub discovery_client : Option api.DiscoveryClient
    pub dynamic_client : Option api.DynamicClient

module _ {api : Api} where
  -- `Context.DynamicClient`: the result, and the context after the call.
  unfoldable pub dynamic_client :
      Context api → Result (Error api.ApiError) api.DynamicClient × Context api
  dynamic_client c = elim c.dynamic_client [
    | some client ↦ (ok client, c)
    | none ↦ elim (api.dynamic_new_for_config c.config) [
      | ok client ↦ (ok client, record c { dynamic_client = some client })
      | err e ↦ (err (wrapped "couldn't create dynamic client for given config" (foreign e)), c)
    ]
  ]

  -- `Context.DiscoveryClient`
  unfoldable pub discovery_client :
      Context api → Result (Error api.ApiError) api.DiscoveryClient × Context api
  discovery_client c = elim c.discovery_client [
    | some client ↦ (ok client, c)
    | none ↦ elim (api.discovery_new_for_config c.config) [
      | ok client ↦ (ok client, record c { discovery_client = some client })
      | err e ↦ (err (wrapped "couldn't create discovery client for given config" (foreign e)), c)
    ]
  ]
