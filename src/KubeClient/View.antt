-- ===== src/KubeClient/View.antt =====
-- kubeclient/pool.go: how the methods of the pool act on the registry that it shows.
use k8s_explore.Base.{
  ℕ, String, str_eq, eq_iff, Option, none, some, ◌≡◌, refl, sym, ◌∙◌, ap, arith, ok, err, inl, inr,
  length, get_elem?, set, get_elem?-concat_end, get_elem?-concat_old, get_elem?-set_self,
  get_elem?-set_ne, Option-cases, Result-cases, ℕ_discrete, Bool-cases,
}
use k8s_explore.Base.Dict.{lookup, lookup-insert_self, lookup-insert_ne}
use k8s_explore.KubeClient.{
  Api, Context, ClientPool, new_pool, publish, add, set_current, deref, dynamic_client,
  discovery_client, dynamic_client_at, discovery_client_at,
}
use k8s_explore.KubeClient.Valid.{IsValid, connected, add_published}
use k8s_explore.KubeClient.Reach.{
  Step, adds, sets_current, asks_dynamic, asks_discovery, Reach, start, later, Reach-IsValid,
}
use k8s_explore.KubeClient.Registry.{
  Registry, info, shown, at, view, registered, chosen, connects, effect, registry_of,
}

module _ {api : Api} where
  same_registry :
      {a b : Registry api}
      → ((name : String) → a.find name ≡ b.find name)
      → a.current ≡ b.current
      → a ≡ b
  same_registry h k = λ i. record { find = λ name. h name i; current = k i }

  -- An older pointer shows what it showed.
  at-publish :
      (c d : Context api) (p : ClientPool api) (r : ℕ)
      → get_elem? p.store r ≡ some d
      → at (publish c p) (some r) ≡ at p (some r)
  at-publish c d p r there = rw (there, get_elem?-concat_old p.store c r there) refl

  at-end :
      (c : Context api) (p : ClientPool api)
      → at (publish c p) (some (length p.store)) ≡ some (info c)
  at-end c p = rw (get_elem?-concat_end p.store c) refl

  module _ (c : Context api) (p : ClientPool api) (v : IsValid p) where
    publish-find :
        (name : String) → (view (publish c p)).find name ≡ (registered (info c) (view p)).find name
    publish-find name = elim (Bool-cases (str_eq name c.name)) [
      | inl same ↦
          rw
            (
              same,
              (eq_iff name c.name).0 same,
              lookup-insert_self c.name (length p.store) p.contexts,
            )
            (at-end c p)
      | inr other ↦
          rw
            (
              other,
              lookup-insert_ne c.name name (length p.store) p.contexts
                  (λ e. cc (other, (eq_iff name c.name).1 e)),
            )
            (elim (Option-cases (lookup name p.contexts)) [
              | inl absent ↦ rw absent refl
              | inr (r, found) ↦
                  rw found (at-publish c (v.named name r found).0 p r (v.named name r found).1)
            ])
    ]

    publish-current : (view (publish c p)).current ≡ (registered (info c) (view p)).current
    publish-current = elim (Option-cases p.current) [
      | inl absent ↦ rw absent (at-end c p)
      | inr (r, present) ↦
          let (name, j, (d, there, _, _), _) = v.listed r present in
          rw (present, get_elem?-concat_old p.store c r there, there, registered) refl
    ]

    publish-view : view (publish c p) ≡ registered (info c) (view p)
    publish-view = same_registry publish-find publish-current

  set_current-view :
      (name : String) (p : ClientPool api)
      → IsValid p
      → view (set_current name p).1 ≡ chosen name (view p)
  unfolding set_current
  set_current-view name p v = elim (Option-cases (lookup name p.contexts)) [
    | inl absent ↦ rw (absent, set_current, chosen) refl
    | inr (r, found) ↦
        let (d, there, _, _) = v.named name r found in rw (found, set_current, there, chosen) refl
  ]

  -- A context in the store is written back with other clients.
  set-view :
      (r : ℕ) (c c' : Context api) (p : ClientPool api)
      → get_elem? p.store r ≡ some c
      → info c' ≡ info c
      → view (record p { store = set p.store r c' }) ≡ view p
  set-view r c c' p there same =
      same_registry (λ name. at-set (lookup name p.contexts)) (at-set p.current)
    where
      at-set : (j : Option ℕ) → at (record p { store = set p.store r c' }) j ≡ at p j
      at-set none = refl
      at-set (some j) = elim (ℕ_discrete r j) [
        | yes here ↦
            rw (← here) (
              ap shown (get_elem?-set_self p.store r c' there)
              ∙ ap some same
              ∙ ap shown (sym there))
        | no other ↦ ap shown (get_elem?-set_ne p.store r j c' other)
      ]

  dynamic_client-info : (c : Context api) → info (dynamic_client c).1 ≡ info c
  unfolding dynamic_client
  dynamic_client-info c = ground arith

  discovery_client-info : (c : Context api) → info (discovery_client c).1 ≡ info c
  unfolding discovery_client
  discovery_client-info c = ground arith

  module _ (name user cluster namespace : String) (config : api.Config) (p : ClientPool api) where
    no_client :
        (e : api.ApiError)
        → api.dynamic_new_for_config config ≡ err e
        → (add name user cluster namespace config p).1 ≡ p
    unfolding add dynamic_client
    no_client e failed = ground arith

    no_uid :
        (d : api.DynamicClient) (e : api.ApiError)
        → api.dynamic_new_for_config config ≡ ok d
        → api.get_kube_system_uid d ≡ err e
        → (add name user cluster namespace config p).1 ≡ p
    unfolding add dynamic_client
    no_uid d e made failed = ground arith

    add-view :
        IsValid p
        → view (add name user cluster namespace config p).1
          ≡ connects name user cluster namespace config (view p)
    add-view v = elim (Result-cases (api.dynamic_new_for_config config)) [
      | inr (e, failed) ↦ rw (no_client e failed, failed, connects) refl
      | inl (d, made) ↦ elim (Result-cases (api.get_kube_system_uid d)) [
        | inr (e, failed) ↦ rw (no_uid d e made failed, made, failed, connects) refl
        | inl (uid, got) ↦
            rw
              (
                add_published name user cluster namespace config p d uid made got,
                made,
                got,
                connects,
              )
              (publish-view (connected name user cluster namespace config d uid) p v)
      ]
    ]

  pub step-view :
      {p p' : ClientPool api} (step : Step p p') → IsValid p → view p' ≡ effect step (view p)
  unfolding deref dynamic_client_at discovery_client_at
  step-view {p} (adds name user cluster namespace config) v =
      add-view name user cluster namespace config p v
  step-view {p} (sets_current name) v = set_current-view name p v
  step-view {p} (asks_dynamic r c there) v =
      set-view r c (dynamic_client c).1 p there (dynamic_client-info c)
  step-view {p} (asks_discovery r c there) v =
      set-view r c (discovery_client c).1 p there (discovery_client-info c)

  -- After any calls on a new pool, in any order and with any errors, the pool shows the registry to
  -- which the same calls lead on an empty one: `Add` registers the context if its client is made and its cluster
  -- answers, and makes it current if there is none; `SetCurrent` makes a registered context current;
  -- nothing else changes anything that the getters show.
  pub pool_refines_registry :
      {p : ClientPool api} (reached : Reach p) → view p ≡ registry_of reached
  unfolding new_pool
  pool_refines_registry start = refl
  pool_refines_registry (later reached step) =
      step-view step (Reach-IsValid reached) ∙ ap (effect step) (pool_refines_registry reached)
