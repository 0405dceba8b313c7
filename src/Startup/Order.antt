-- ===== src/Startup/Order.antt =====
-- main.go: `initKubeClientPool` visits the map of the kubeconfig's contexts in an order that Go leaves
-- open. What of the start-up depends on it.
use k8s_explore.Base.{String, ◌≡◌, refl, ◌⊎◌, inl, inr, ok, err, Error, Result}
use mathlib.Core.List.{Permᴰ}
use k8s_explore.Base.Orders.{OneMap}
use k8s_explore.Base.Dict.{Dict}
use k8s_explore.KubeClient.{Api, Context, ClientPool}
use k8s_explore.Startup.{RawContext, RawConfig, Loader, wanted, init_kube_client_pool}
use k8s_explore.Startup.Choose.{choose, Agrees, Started}
use k8s_explore.Startup.Choice.{init_kube_client_pool-Agrees}
use k8s_explore.Startup.Visits.{
  Undecided, reordered, choose_order, joined-reordered, choose-reordered, joined-perm,
}

module _ {api : Api} (loader : Loader api) where
  -- What two starts end in: one error, or two pools with the same contexts, the same of which is the
  -- current one unless the kubeconfig leaves it open.
  abbrev pub Alike :
      (w : String) (es es' : Dict RawContext) (other : Loader api)
      → Result (Error api.ApiError) (ClientPool api)
      → Result (Error api.ApiError) (ClientPool api)
      → Type 0
  Alike w es es' other first_run other_run =
      ((e : Error api.ApiError) × (first_run ≡ err e) × (other_run ≡ err e))
      ⊎ ((p : ClientPool api) × (p' : ClientPool api) × (c : Context api) × (c' : Context api)
          × (first_run ≡ ok p)
          × (other_run ≡ ok p')
          × Started loader es c p
          × Started other es' c' p'
          × Permᴰ p.store p'.store
          × ((c ≡ c') ⊎ Undecided loader w es))

  started-Alike :
      (w : String) (es es' : Dict RawContext) (raw' : RawConfig)
      (first_run other_run : Result (Error api.ApiError) (ClientPool api)) (c c' : Context api)
      → OneMap es es'
      → Agrees loader es (ok c) first_run
      → Agrees (reordered loader raw') es' (ok c') other_run
      → (c ≡ c') ⊎ Undecided loader w es
      → Alike w es es' (reordered loader raw') first_run other_run
  started-Alike w es es' raw' first_run other_run c c' o (p, is_p, st) (p', is_p', st') same =
      let stores : Permᴰ p.store p'.store =
        rw (st.members, st'.members, joined-reordered loader raw' es')
          (joined-perm loader es es' o) in
      inr (p, p', c, c', is_p, is_p', st, st', stores, same)

  one_verdict-Alike :
      (w : String) (es es' : Dict RawContext) (raw' : RawConfig)
      (first_run other_run : Result (Error api.ApiError) (ClientPool api))
      (r : Result (Error api.ApiError) (Context api))
      → OneMap es es'
      → Agrees loader es r first_run
      → Agrees (reordered loader raw') es' r other_run
      → Alike w es es' (reordered loader raw') first_run other_run
  one_verdict-Alike w es es' raw' first_run other_run (err e) o a a' = inl (e, a, a')
  one_verdict-Alike w es es' raw' first_run other_run (ok c) o a a' =
      started-Alike w es es' raw' first_run other_run c c o a a' (inl refl)

  -- Two starts with one kubeconfig, whose map of contexts they visit in different orders, end in the
  -- same way: with the same error, or with pools that hold the same contexts, and
  -- of which the same is the current one; unless no context is wanted or the wanted one does not
  -- connect: then each starts with some context that connects.
  pub init_kube_client_pool_order :
      (flag : String) (raw : RawConfig) (es' : Dict RawContext)
      → loader.raw_config flag ≡ ok raw
      → OneMap raw.contexts es'
      → let other = reordered loader (record raw { contexts = es' }) in
        Alike
          (wanted flag raw)
          raw.contexts
          es'
          other
          (init_kube_client_pool loader flag).0
          (init_kube_client_pool other flag).0
  init_kube_client_pool_order flag raw es' loaded o =
      let raw' : RawConfig = record raw { contexts = es' } in
      let w = wanted flag raw in
      let agrees = (init_kube_client_pool-Agrees loader flag raw loaded o.keys).0 in
      let agrees' =
        rw (choose-reordered loader raw' w es') at
          (init_kube_client_pool-Agrees (reordered loader raw') flag raw' refl o.other_keys).0 in
      elim (choose_order loader raw.contexts es' o w) [
        | inl one_choice ↦
            one_verdict-Alike w raw.contexts es' raw' _ _ (choose loader w raw.contexts) o agrees
              (rw one_choice agrees')
        | inr (undecided, c, c', is_c, is_c') ↦
            started-Alike w raw.contexts es' raw' _ _ c c' o (rw is_c at agrees)
              (rw is_c' at agrees') (inr undecided)
      ]
