-- ===== src/KubeClient/Valid.antt =====
-- kubeclient/pool.go: what is true of the pool between calls, and that each method keeps it.
use k8s_explore.Base.{
  ℕ, String, Error, wrapped, foreign, none, some, List, [], ◌∷◌, ◌++◌, ok, ◌≡◌, refl, sym, ◌≢◌, ◌⊎◌,
  inl, inr, arith, length, get_elem?, get_elem?-concat_end, get_elem?-concat_old, Option-cases,
  Result-cases,
}
use k8s_explore.Base.Dict.{
  lookup, IsMap, insert-IsMap, lookup-insert_self, lookup-insert-cases, lookup-insert_kept,
  lookup-insert_ne,
}
use k8s_explore.KubeClient.{
  Api, Context, ClientPool, new_pool, dynamic_client, publish, add, set_current, context, deref,
  current_context,
}

module _ {api : Api} where
  -- A dynamic client is cached.
  abbrev pub IsReady : Context api → Type 0
  IsReady c = (d : api.DynamicClient) × (c.dynamic_client ≡ some d)

  -- The pointer `r` leads to a context of that name which has its dynamic client.
  abbrev pub IsStored : List (Context api) → ℕ → String → Type 0
  IsStored store r name =
      (c : Context api) × (get_elem? store r ≡ some c) × (c.name ≡ name) × IsReady c

  -- The map has each name once and leads to contexts of that name; the current context has a name
  -- of the map, and there is one unless the map is empty.
  pub record IsValid (p : ClientPool api) : Type 0 where
    pub keys : IsMap p.contexts
    pub named : (name : String) (r : ℕ) → lookup name p.contexts ≡ some r → IsStored p.store r name
    pub listed :
        (r : ℕ)
        → p.current ≡ some r
        → (name : String) × (j : ℕ) × IsStored p.store r name × (lookup name p.contexts ≡ some j)
    pub chosen : p.current ≡ none → p.contexts ≡ []

  pub new_pool-IsValid : IsValid (new_pool api)
  unfolding new_pool
  new_pool-IsValid = record {
    keys = tt;
    named = λ name r h. cc;
    listed = λ r h. cc;
    chosen = λ h. refl;
  }

  IsStored-concat :
      (store : List (Context api)) (c : Context api) (r : ℕ) (name : String)
      → IsStored store r name
      → IsStored (store ++ c ∷ []) r name
  IsStored-concat store c r name (d, at, same, ready) =
      (d, get_elem?-concat_old store c r at, same, ready)

  module _ (c : Context api) (ready : IsReady c) (p : ClientPool api) (v : IsValid p) where
    publish-named :
        (name : String) (r : ℕ)
        → lookup name (publish c p).contexts ≡ some r
        → IsStored (publish c p).store r name
    publish-named name r h = elim (lookup-insert-cases c.name name (length p.store) p.contexts h) [
      | inl (same, here) ↦ rw (← here) (c, get_elem?-concat_end p.store c, sym same, ready)
      | inr (_, old) ↦ IsStored-concat p.store c r name (v.named name r old)
    ]

    publish-listed :
        (r : ℕ)
        → (publish c p).current ≡ some r
        → (name : String) × (j : ℕ) × IsStored (publish c p).store r name
          × (lookup name (publish c p).contexts ≡ some j)
    publish-listed r h = elim (Option-cases p.current) [
      | inl absent ↦
          let here : length p.store ≡ r = ground arith in
          (
            c.name,
            length p.store,
            rw (← here) (c, get_elem?-concat_end p.store c, refl, ready),
            lookup-insert_self c.name (length p.store) p.contexts,
          )
      | inr (r', present) ↦
          let (name, j, stored, found) = v.listed r (ground arith) in
          let (u, found') = lookup-insert_kept c.name name (length p.store) p.contexts found in
          (name, u, IsStored-concat p.store c r name stored, found')
    ]

    pub publish-IsValid : IsValid (publish c p)
    publish-IsValid = record {
      keys = insert-IsMap c.name (length p.store) p.contexts v.keys;
      named = publish-named;
      listed = publish-listed;
      chosen = λ h. ground arith;
    }

  -- The context that `Add` builds from its arguments, the client and the UID.
  abbrev pub connected :
      String → String → String → String → api.Config → api.DynamicClient → String → Context api
  connected name user cluster namespace config d uid = record {
    name = name;
    cluster_uid = uid;
    user = user;
    namespace = namespace;
    cluster = cluster;
    config = config;
    discovery_client = none;
    dynamic_client = some d;
  }

  module _ (name user cluster namespace : String) (config : api.Config) (p : ClientPool api) where
    pub add_published :
        (d : api.DynamicClient) (uid : String)
        → api.dynamic_new_for_config config ≡ ok d
        → api.get_kube_system_uid d ≡ ok uid
        → add name user cluster namespace config p
          ≡ (none, publish (connected name user cluster namespace config d uid) p)
    unfolding add dynamic_client
    add_published d uid made got = ground arith

    pub add_refused :
        ((d : api.DynamicClient) × (uid : String) × (api.dynamic_new_for_config config ≡ ok d)
          × (api.get_kube_system_uid d ≡ ok uid))
        ⊎ ((e : Error api.ApiError) × (add name user cluster namespace config p ≡ (some e, p)))
    unfolding add dynamic_client
    add_refused = elim (Result-cases (api.dynamic_new_for_config config)) [
      | inr (e, failed) ↦ inr (
        wrapped "could not create dynamic client for the config"
            (wrapped "couldn't create dynamic client for given config" (foreign e)),
        ground arith,
      )
      | inl (d, made) ↦ elim (Result-cases (api.get_kube_system_uid d)) [
        | inr (e, failed) ↦ inr (wrapped "could not get kube-system ns" (foreign e), ground arith)
        | inl (uid, got) ↦ inl (d, uid, made, got)
      ]
    ]

  -- Every way that `Add` ends leaves a valid pool valid.
  pub add-IsValid :
      (name user cluster namespace : String) (config : api.Config) (p : ClientPool api)
      → IsValid p
      → IsValid (add name user cluster namespace config p).1
  add-IsValid name user cluster namespace config p v =
      elim (add_refused name user cluster namespace config p) [
        | inl (d, uid, made, got) ↦
            rw (add_published name user cluster namespace config p d uid made got)
              (publish-IsValid _ (d, refl) p v)
        | inr (e, failed) ↦ rw failed v
      ]

  -- `SetCurrent` keeps a valid pool valid, whether it knows the name or not.
  pub set_current-IsValid :
      (name : String) (p : ClientPool api) → IsValid p → IsValid (set_current name p).1
  unfolding set_current
  set_current-IsValid name p v = elim (Option-cases (lookup name p.contexts)) [
    | inl absent ↦ rw (absent, set_current) v
    | inr (r, found) ↦
        rw (found, set_current)
          (record {
            keys = v.keys;
            named = v.named;
            listed = λ s h. (name, r, v.named name s (cc), found);
            chosen = λ h. cc;
          })
  ]

  -- What a successful `Add` has done: the new context stands behind its name and is the current one
  -- if there was none; every other name and every older pointer leads where it did.
  pub record Published (name user cluster namespace : String) (config : api.Config)
      (p p' : ClientPool api) : Type 0 where
    pub client : api.DynamicClient
    pub uid : String
    pub client_made : api.dynamic_new_for_config config ≡ ok client
    pub uid_read : api.get_kube_system_uid client ≡ ok uid
    pub found : context name p' ≡ ok (length p.store)
    pub stored :
        deref (some (length p.store)) p'
        ≡ some (connected name user cluster namespace config client uid)
    pub others : (other : String) → other ≢ name → context other p' ≡ context other p
    pub older : (r : ℕ) (c : Context api) → deref (some r) p ≡ some c → deref (some r) p' ≡ some c
    pub current_kept : (r : ℕ) → current_context p ≡ some r → current_context p' ≡ some r
    pub current_new : current_context p ≡ none → current_context p' ≡ some (length p.store)

  -- `Add` either fails and leaves the pool alone, or stores the new context behind its name, keeps
  -- what every other name stands for and every stored context, and makes the new context the current
  -- one only where there was none.
  pub add_outcome :
      (name user cluster namespace : String) (config : api.Config) (p : ClientPool api)
      → ((e : Error api.ApiError) × (add name user cluster namespace config p ≡ (some e, p)))
        ⊎ ((p' : ClientPool api) × (add name user cluster namespace config p ≡ (none, p'))
            × Published name user cluster namespace config p p')
  unfolding context deref current_context
  add_outcome name user cluster namespace config p =
      elim (add_refused name user cluster namespace config p) [
        | inr failed ↦ inl failed
        | inl (d, uid, made, got) ↦ inr (
          publish (connected name user cluster namespace config d uid) p,
          add_published name user cluster namespace config p d uid made got,
          record {
            client = d;
            uid = uid;
            client_made = made;
            uid_read = got;
            found = ground (arith, lookup-insert_self name (length p.store) p.contexts);
            stored = get_elem?-concat_end p.store _;
            others = λ other ne.
                ground (arith, lookup-insert_ne name other (length p.store) p.contexts ne);
            older = λ r c at. get_elem?-concat_old p.store _ r at;
            current_kept = λ r h. ground arith;
            current_new = λ h. ground arith;
          },
        )
      ]
