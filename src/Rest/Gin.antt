-- ===== src/Rest/Gin.antt =====
-- A run of a gin handler: it reads and updates the client pool, writes replies in order, sends calls
-- to a cluster, and returns or panics (a nil pointer or a nil interface is dereferenced).
use k8s_explore.Base.{ℕ, String, Option, none, some, List, [], ◌∷◌, ◌++◌, Error, Result}
use k8s_explore.KubeClient.{
  Api, Context, ClientPool, context, current_context, deref, dynamic_client_at, discovery_client_at,
  contexts,
}

-- `c.JSON(status, body)`, or `c.AbortWithStatusJSON(status, body)`, which also keeps later handlers
-- of the chain from running; these handlers are the last of theirs.
pub record Reply (Body : Type 0) : Type 0 where
  pub status : ℕ
  pub body : Body

pub data Flow (A : Type 0) : Type 0 where
  returned : A → Flow A
  panicked : Flow A

pub record World (api : Api) (Body Call : Type 0) : Type 0 where
  pub pool : ClientPool api
  pub replies : List (Reply Body)
  pub calls : List Call

abbrev pub M : Api → Type 0 → Type 0 → Type 0 → Type 0
M api Body Call A = World api Body Call → Flow A × World api Body Call

module _ {api : Api} {Body Call : Type 0} where
  abbrev pub pure : {A : Type 0} → A → M api Body Call A
  pure a w = (returned a, w)

  abbrev pub panic : {A : Type 0} → M api Body Call A
  panic w = (panicked, w)

  abbrev pub json : ℕ → Body → M api Body Call (Unit {0})
  json status body w = (
    returned tt,
    record w { replies = w.replies ++ record { status = status; body = body } ∷ [] },
  )

  abbrev pub send : Call → M api Body Call (Unit {0})
  send call w = (returned tt, record w { calls = w.calls ++ call ∷ [] })

  abbrev pub find_context : String → M api Body Call (Result (Error api.ApiError) ℕ)
  find_context name w = (returned (context name w.pool), w)

  abbrev pub find_current : M api Body Call (Option ℕ)
  find_current w = (returned (current_context w.pool), w)

  abbrev pub all_contexts : M api Body Call (List ℕ)
  all_contexts w = (returned (contexts w.pool), w)

  -- `*c`
  abbrev pub load : Option ℕ → M api Body Call (Context api)
  load p w = elim (deref p w.pool) [ none ↦ (panicked, w) | some c ↦ (returned c, w) ]

  -- A method call on an interface value: a nil interface panics.
  abbrev pub non_nil : {A : Type 0} → Option A → M api Body Call A
  non_nil none w = (panicked, w)
  non_nil (some a) w = (returned a, w)

  infixl 5 ◌>>=◌ ◌>>◌
  abbrev pub ◌>>=◌ :
      {A B : Type 0} → M api Body Call A → (A → M api Body Call B) → M api Body Call B
  ◌>>=◌ m f w =
      let (flow, w') = m w in elim flow [ returned a ↦ f a w' | panicked ↦ (panicked, w') ]

  abbrev pub ◌>>◌ :
      {B : Type 0} → M api Body Call (Unit {0}) → M api Body Call B → M api Body Call B
  m >> k = m >>= λ _. k

  -- `kctx.DynamicClient()`; a nil `kctx` panics at its lock.
  abbrev pub dynamic_client_of :
      Option ℕ → M api Body Call (Result (Error api.ApiError) api.DynamicClient)
  dynamic_client_of none w = (panicked, w)
  dynamic_client_of (some r) w = elim (deref (some r) w.pool) [
    | none ↦ (panicked, w)
    | some c ↦
        let (client, pool) = dynamic_client_at r c w.pool in
        (returned client, record w { pool = pool })
  ]

  abbrev pub discovery_client_of :
      Option ℕ → M api Body Call (Result (Error api.ApiError) api.DiscoveryClient)
  discovery_client_of none w = (panicked, w)
  discovery_client_of (some r) w = elim (deref (some r) w.pool) [
    | none ↦ (panicked, w)
    | some c ↦
        let (client, pool) = discovery_client_at r c w.pool in
        (returned client, record w { pool = pool })
  ]
