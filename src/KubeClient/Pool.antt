-- ===== src/KubeClient/Pool.antt =====
-- kubeclient/pool.go: `ClientPool` and its methods.
use k8s_explore.Base.{
  ℕ, String, Option, none, some, List, [], ◌∷◌, ◌++◌, map, Error, message, wrapped, foreign, Result,
  ok, err, length, get_elem?, set,
}
use k8s_explore.Base.Dict.{Dict, lookup, insert}
use k8s_explore.KubeClient.Clients.{Api, Context, dynamic_client, discovery_client}

-- `errUnknownContext`
abbrev pub unknown_context : {E : Type 0} → Error E
unknown_context = message "unknown context"

module _ (api : Api) where
  -- `current` and the values of `contexts` are pointers: indices into `store`.
  pub record ClientPool : Type 0 where
    pub current : Option ℕ
    pub contexts : Dict ℕ
    pub store : List (Context api)

  unfoldable pub new_pool : ClientPool
  new_pool = record { current = none; contexts = []; store = [] }

module _ {api : Api} where
  -- The two lines that publish a context: `p.contexts[kctx.name] = kctx`, and `p.current = kctx`
  -- where there is no current one.
  abbrev pub publish : Context api → ClientPool api → ClientPool api
  publish kctx p = record {
    current = elim p.current [ none ↦ some (length p.store) | some r ↦ some r ];
    contexts = insert kctx.name (length p.store) p.contexts;
    store = p.store ++ kctx ∷ [];
  }

  abbrev pub new_context : String → String → String → String → api.Config → Context api
  new_context context user cluster namespace config = record {
    name = context;
    cluster_uid = "";
    user = user;
    namespace = namespace;
    cluster = cluster;
    config = config;
    discovery_client = none;
    dynamic_client = none;
  }

  -- `ClientPool.Add`: `none` is the `nil` error.
  unfoldable pub add :
      String
      → String
      → String
      → String
      → api.Config
      → ClientPool api
      → Option (Error api.ApiError) × ClientPool api
  unfolding dynamic_client
  add context user cluster namespace config p =
      let (client, kctx) = dynamic_client (new_context context user cluster namespace config) in
      elim client [
        | err e ↦ (some (wrapped "could not create dynamic client for the config" e), p)
        | ok d ↦ elim (api.get_kube_system_uid d) [
          | err e ↦ (some (wrapped "could not get kube-system ns" (foreign e)), p)
          | ok uid ↦ (none, publish (record kctx { cluster_uid = uid }) p)
        ]
      ]

  -- `ClientPool.SetCurrent`
  unfoldable pub set_current :
      String → ClientPool api → Option (Error api.ApiError) × ClientPool api
  set_current name p = elim (lookup name p.contexts) [
    | some c ↦ (none, record p { current = some c })
    | none ↦ (some unknown_context, p)
  ]

  -- `ClientPool.CurrentContext`
  unfoldable pub current_context : ClientPool api → Option ℕ
  current_context p = p.current

  -- `ClientPool.Contexts`
  unfoldable pub contexts : ClientPool api → List ℕ
  contexts p = map (λ e. e.1) p.contexts

  -- `ClientPool.Context`
  unfoldable pub context : String → ClientPool api → Result (Error api.ApiError) ℕ
  context name p = elim (lookup name p.contexts) [ some c ↦ ok c | none ↦ err unknown_context ]

  -- `*c`: a read through a pointer. `none` is the panic of a nil pointer.
  unfoldable pub deref : Option ℕ → ClientPool api → Option (Context api)
  deref none p = none
  deref (some r) p = get_elem? p.store r

  -- `c.DynamicClient()` and `c.DiscoveryClient()` for a context of the pool; both write back the
  -- client that they cache.
  unfoldable pub dynamic_client_at :
      ℕ
      → Context api
      → ClientPool api
      → Result (Error api.ApiError) api.DynamicClient × ClientPool api
  unfolding dynamic_client
  dynamic_client_at r c p =
      let (client, c') = dynamic_client c in (client, record p { store = set p.store r c' })

  unfoldable pub discovery_client_at :
      ℕ
      → Context api
      → ClientPool api
      → Result (Error api.ApiError) api.DiscoveryClient × ClientPool api
  unfolding discovery_client
  discovery_client_at r c p =
      let (client, c') = discovery_client c in (client, record p { store = set p.store r c' })
