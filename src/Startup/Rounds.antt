-- ===== src/Startup/Rounds.antt =====
-- main.go: what one round of the loop of `initKubeClientPool` does, and the rule for the whole loop.
use k8s_explore.Base.{
  String, Option, none, some, List, [], ◌∷◌, ◌≡◌, refl, inl, inr, arith, ok, err, Option-cases,
  Result-cases,
}
use k8s_explore.Base.Dict.{Dict}
use k8s_explore.KubeClient.{Api, Context, publish}
use k8s_explore.KubeClient.Valid.{connected, add_published, add_refused, IsReady}
use k8s_explore.Startup.{RawContext, Loader, Progress, forget, init_loop}

-- The name of the last entry.
abbrev pub last_name : Dict RawContext → String → String
last_name [] flag = flag
last_name (e ∷ es) flag = last_name es e.0

module _ {api : Api} (loader : Loader api) where
  -- The context that an entry of the kubeconfig leads to, if its configuration loads, its client is
  -- made and its cluster answers.
  abbrev pub connect : String → RawContext → Option (Context api)
  connect name k = elim (loader.client_config name) [
    | err _ ↦ none
    | ok config ↦ elim (api.dynamic_new_for_config config) [
      | err _ ↦ none
      | ok d ↦ elim (api.get_kube_system_uid d) [
        | err _ ↦ none
        | ok uid ↦ some (connected name k.auth_info k.cluster k.namespace config d uid)
      ]
    ]
  ]

  module _ (e : String × RawContext) (es : Dict RawContext) (s : Progress api) where
    -- A round for an entry that connects publishes its context, and keeps the wanted name.
    pub init_loop-some :
        (c : Context api)
        → connect e.0 e.1 ≡ some c
        → init_loop loader (e ∷ es) s
          ≡ init_loop loader es (record { cur = s.cur; flag = e.0; pool = publish c s.pool })
    unfolding init_loop
    init_loop-some c h = elim (Result-cases (loader.client_config e.0)) [
      | inr (x, failed) ↦ ground arith
      | inl (config, loaded) ↦ elim (Result-cases (api.dynamic_new_for_config config)) [
        | inr (x, failed) ↦ ground arith
        | inl (d, made) ↦ elim (Result-cases (api.get_kube_system_uid d)) [
          | inr (x, failed) ↦ ground arith
          | inl (uid, got) ↦ ground (
            arith,
            add_published e.0 e.1.auth_info e.1.cluster e.1.namespace config s.pool d uid made got,
          )
        ]
      ]
    ]

    -- A round for any other entry keeps the pool, and gives the name up if it is the wanted one.
    pub init_loop-none :
        connect e.0 e.1 ≡ none
        → init_loop loader (e ∷ es) s
          ≡ init_loop loader es (record { cur = forget e.0 s.cur; flag = e.0; pool = s.pool })
    unfolding init_loop
    init_loop-none h = elim (Result-cases (loader.client_config e.0)) [
      | inr (x, failed) ↦ ground arith
      | inl (config, loaded) ↦
          elim (add_refused e.0 e.1.auth_info e.1.cluster e.1.namespace config s.pool) [
            | inl (d, uid, made, got) ↦ ground arith
            | inr (x, failed) ↦ ground arith
          ]
    ]

  -- The rule for the loop: a property of the entries left and the state that every round keeps.
  module _ {κ} (P : Dict RawContext → Progress api → Type κ)
      (joins : (e : String × RawContext) (es : Dict RawContext) (s : Progress api) (c : Context api)
        → connect e.0 e.1 ≡ some c
        → P (e ∷ es) s
        → P es (record { cur = s.cur; flag = e.0; pool = publish c s.pool }))
      (skips : (e : String × RawContext) (es : Dict RawContext) (s : Progress api)
        → connect e.0 e.1 ≡ none
        → P (e ∷ es) s
        → P es (record { cur = forget e.0 s.cur; flag = e.0; pool = s.pool })) where
    pub init_loop_inv :
        (es : Dict RawContext) (s : Progress api) → P es s → P [] (init_loop loader es s)
    init_loop_inv [] s h = unfold init_loop in h
    init_loop_inv (e ∷ es) s h = elim (Option-cases (connect e.0 e.1)) [
      | inl failed ↦ rw (init_loop-none e es s failed) (init_loop_inv es _ (skips e es s failed h))
      | inr (c, done) ↦
          rw (init_loop-some e es s c done) (init_loop_inv es _ (joins e es s c done h))
    ]

  -- The contexts of the entries that connect, in the order of the entries.
  abbrev pub joined : Dict RawContext → List (Context api)
  joined [] = []
  joined (e ∷ es) =
      let rest = joined es in elim (connect e.0 e.1) [ none ↦ rest | some c ↦ c ∷ rest ]

  pub connect-name :
      (name : String) (k : RawContext) (c : Context api)
      → connect name k ≡ some c
      → (c.name ≡ name) × IsReady c
  connect-name name k c h = elim (Result-cases (loader.client_config name)) [
    | inr (x, failed) ↦ ground arith
    | inl (config, loaded) ↦ elim (Result-cases (api.dynamic_new_for_config config)) [
      | inr (x, failed) ↦ ground arith
      | inl (d, made) ↦ elim (Result-cases (api.get_kube_system_uid d)) [
        | inr (x, failed) ↦ ground arith
        | inl (uid, got) ↦
            let e : c ≡ connected name k.auth_info k.cluster k.namespace config d uid =
              ground arith in
            rw e (refl, (d, refl))
      ]
    ]
  ]
