-- ===== src/Rest/Resources.antt =====
-- api/rest/kube/resources/resources.go: `List`, the resource types of a cluster.
use k8s_explore.Base.{
  String, some, List, [], ◌∷◌, ◌++◌, ◌≡◌, arith, ◌⊎◌, inl, inr, Error, Result, ok, err,
  Result-cases,
}
use k8s_explore.KubeClient.{
  Api, Context, ClientPool, context, discovery_client, discovery_client_at,
}
use k8s_explore.KubeClient.Valid.{IsValid}
use k8s_explore.KubeClient.Caching.{discovery_client_at-IsValid, context-ready}
use k8s_explore.Rest.Gin.{Reply, returned, World, M, json, find_context, discovery_client_of, ◌>>=◌}

-- The resource lists of client-go, and the discovery call that fetches them.
pub record Discovery (api : Api) : Type 1 where
  pub ResourceList : Type 0
  pub server_preferred_resources : api.DiscoveryClient → Result api.ApiError (List ResourceList)

module _ {api : Api} (disco : Discovery api) where
  pub data Body : Type 0 where
    message : String → Body
    resources : List disco.ResourceList → Body

  -- `Handler.List`
  unfoldable pub handle_list : String → M api Body (Unit {0}) (Unit {0})
  handle_list ctx = do
    found ← find_context ctx
    elim found [
      | err _ ↦ json 404 (message "unknown context")
      | ok r ↦ do
        client ← discovery_client_of (some r)
        elim client [
          | err _ ↦ json 500 (message "internal server error")
          | ok d ↦ elim (disco.server_preferred_resources d) [
            | err _ ↦ json 500 (message "internal server error")
            | ok lists ↦ json 200 (resources lists)
          ]
        ]
    ]

  -- The reply, by what the pool, the client's construction and the cluster answer.
  abbrev pub listing : Context api → Reply Body
  listing c = elim (discovery_client c).0 [
    | err _ ↦ record { status = 500; body = message "internal server error" }
    | ok d ↦ elim (disco.server_preferred_resources d) [
      | err _ ↦ record { status = 500; body = message "internal server error" }
      | ok lists ↦ record { status = 200; body = resources lists }
    ]
  ]

  -- On a valid pool `List` returns after exactly one reply, and the pool is valid afterwards: 404 for
  -- a name that the pool lacks, else 200 or 500 by the client of the context behind the name.
  pub list_resources_lem :
      (ctx : String) (w : World api Body (Unit {0}))
      → IsValid w.pool
      → ((e : Error api.ApiError) × (context ctx w.pool ≡ err e)
          × (handle_list ctx w ≡ (
            returned tt,
            record w {
              replies = w.replies ++ record { status = 404; body = message "unknown context" } ∷ [];
            },
          )))
        ⊎ ((c : Context api) × (p : ClientPool api) × (c.name ≡ ctx)
            × (handle_list ctx w
                ≡ (returned tt, record w { pool = p; replies = w.replies ++ listing c ∷ [] }))
            × IsValid p)
  unfolding handle_list discovery_client_at
  list_resources_lem ctx w v = elim (Result-cases (context ctx w.pool)) [
    | inr (e, unknown) ↦ inl (e, unknown, ground arith)
    | inl (r, known) ↦
        let (c, d, at, named, cached) = context-ready ctx r w.pool v known in
        inr (
          c,
          (discovery_client_at r c w.pool).1,
          named,
          ground arith,
          discovery_client_at-IsValid r c w.pool at v,
        )
  ]
