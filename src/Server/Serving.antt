-- ===== src/Server/Serving.antt =====
-- main.go and api/rest: a run of requests on the pool of the start-up.
use k8s_explore.Base.{
  ℕ, String, some, List, [], ◌∷◌, ◌≡◌, refl, ap, ◌∙◌, sym, map, ◌≢◌, Result-cases, Error, subst,
  arith, Result, ok, err, inl, inr, Option-cases,
}
use k8s_explore.Base.Dict.{Dict, lookup, IsMap}
use k8s_explore.KubeClient.{
  Api, ClientPool, context, Context, contexts, deref, current_context, discovery_client_at,
}
use k8s_explore.KubeClient.Valid.{IsValid}
use k8s_explore.Rest.Gin.{returned}
use k8s_explore.Rest.Contexts.Listing.{list_contexts_lem}
use k8s_explore.Rest.Resources
use k8s_explore.Rest.Resources.{Discovery, list_resources_lem}
use k8s_explore.Rest.Environment
use k8s_explore.Rest.Environment.{
  Environments, listing, list_environments_lem, list_environments_no_context,
}
use k8s_explore.Server.{
  Request, list_contexts, list_resources, list_environments, get_object, list_objects,
  update_object, delete_object, serve, left_by, serve_all, asked,
}
use k8s_explore.Server.Handlers.{
  handle_get-pool, handle_list-pool, handle_update-pool, handle_delete-pool,
}
use k8s_explore.Startup.Choice.{init_kube_client_pool-Agrees}
use k8s_explore.Startup.Choose.{choose, Agrees}
use k8s_explore.Startup.{wanted, RawContext, Loader, RawConfig, init_kube_client_pool}

map-ne-nil : (name : String) (j : ℕ) (m : Dict ℕ) → lookup name m ≡ some j → map (λ e. e.1) m ≢ []
map-ne-nil name j [] h = cc
map-ne-nil name j (e ∷ m) h = λ none_left. cc

module _ {api : Api} where
  -- What a request may change of the pool: the clients that its contexts cache.
  pub record Keeps (p p' : ClientPool api) : Type 0 where
    pub valid : IsValid p'
    pub same_names : p'.contexts ≡ p.contexts
    pub same_current : p'.current ≡ p.current

  unchanged : (p p' : ClientPool api) → IsValid p → p' ≡ p → Keeps p p'
  unchanged p p' v same = record {
    valid = subst IsValid (sym same) v;
    same_names = ap (λ q. q.contexts) same;
    same_current = ap (λ q. q.current) same;
  }

  contexts-ne-nil : (p : ClientPool api) (q : ℕ) → IsValid p → p.current ≡ some q → contexts p ≢ []
  unfolding contexts
  contexts-ne-nil p q v now =
      let (name, j, _, found) = v.listed q now in map-ne-nil name j p.contexts found

  resources-pool :
      (disco : Discovery api) (ctx : String) (p : ClientPool api)
      → ((left_by (Resources.handle_list disco ctx) p).contexts ≡ p.contexts)
        × ((left_by (Resources.handle_list disco ctx) p).current ≡ p.current)
  unfolding Resources.handle_list discovery_client_at
  resources-pool disco ctx p = elim (Result-cases (context ctx p)) [
    | inr (e, unknown) ↦ ground (arith, unknown)
    | inl (r, known) ↦ ground (arith, known)
  ]

  environments-pool :
      (envs : Environments api) (fields labels : String) (p : ClientPool api)
      → IsValid p
      → left_by (Environment.handle_list envs fields labels) p ≡ p
  environments-pool envs fields labels p v = elim (Option-cases p.current) [
    | inl absent ↦
        ap (λ r. r.1.pool) (list_environments_no_context envs fields labels (asked p) absent)
    | inr (q, now) ↦
        ap (λ r. r.1.pool)
          (list_environments_lem envs fields labels (asked p) v (contexts-ne-nil p q v now)).1
  ]

  pub serve-Keeps : (q : Request api) (p : ClientPool api) → IsValid p → Keeps p (serve q p)
  unfolding serve
  serve-Keeps list_contexts p v =
      let (items, done, _, _, _) = list_contexts_lem (asked p) v in
      unchanged p _ v (ap (λ r. r.1.pool) done)
  serve-Keeps (list_resources disco ctx) p v = elim (list_resources_lem disco ctx (asked p) v) [
    | inl (e, unknown, done) ↦ unchanged p _ v (ap (λ r. r.1.pool) done)
    | inr (c, p', named, done, v') ↦
        let (names, current) = resources-pool disco ctx p in
        record {
          valid = subst IsValid (sym (ap (λ r. r.1.pool) done)) v';
          same_names = names;
          same_current = current;
        }
  ]
  serve-Keeps (list_environments envs fields labels) p v =
      unchanged p _ v (environments-pool envs fields labels p v)
  serve-Keeps (get_object kube req) p v = unchanged p _ v (handle_get-pool req (asked p) v)
  serve-Keeps (list_objects kube req) p v = unchanged p _ v (handle_list-pool req (asked p) v)
  serve-Keeps (update_object kube req raw) p v =
      unchanged p _ v (handle_update-pool req (asked p) v raw)
  serve-Keeps (delete_object kube req) p v = unchanged p _ v (handle_delete-pool req (asked p) v)

  serve_all-Keeps :
      (qs : List (Request api)) (p : ClientPool api) → IsValid p → Keeps p (serve_all qs p)
  serve_all-Keeps [] p v = record { valid = v; same_names = refl; same_current = refl }
  serve_all-Keeps (q ∷ qs) p v =
      let first = serve-Keeps q p v in
      let rest = serve_all-Keeps qs (serve q p) first.valid in
      record {
        valid = rest.valid;
        same_names = rest.same_names ∙ first.same_names;
        same_current = rest.same_current ∙ first.same_current;
      }

module _ {api : Api} (loader : Loader api) where
  Agrees-started :
      (es : Dict RawContext) (verdict : Result (Error api.ApiError) (Context api))
      (p : ClientPool api)
      → Agrees loader es verdict (ok p)
      → IsValid p × (q : ℕ) × (p.current ≡ some q)
  unfolding deref current_context
  Agrees-started es (err e) p h = cc
  Agrees-started es (ok c) p (p', same, started) =
      let here : p ≡ p' = cc in
      elim (Option-cases p.current) [
        | inl absent ↦ absurd (ground (arith, started.current, here))
        | inr (q, now) ↦ (subst IsValid (sym here) started.valid, q, now)
      ]

  -- After a start-up that gives a pool, whatever requests come and whatever their clusters answer, the
  -- pool stays valid, with the names and the current context of the start, so that `Environment.List`
  -- always returns, after one reply: it does not meet the nil context on which it would panic.
  pub service-Keeps :
      (flag : String) (raw : RawConfig) (p : ClientPool api)
      → loader.raw_config flag ≡ ok raw
      → IsMap raw.contexts
      → (init_kube_client_pool loader flag).0 ≡ ok p
      → (qs : List (Request api))
      → Keeps p (serve_all qs p)
        × ((envs : Environments api) (fields labels : String)
            → (d : api.DynamicClient) × (Environment.handle_list envs fields labels
                  (asked (serve_all qs p))
                ≡ (
                  returned tt,
                  record {
                    pool = serve_all qs p;
                    replies = listing envs (envs.list d fields labels) ∷ [];
                    calls = (fields, labels) ∷ [];
                  },
                )))
  service-Keeps flag raw p loaded m started qs =
      let (v, q, now) =
        Agrees-started raw.contexts (choose loader (wanted flag raw) raw.contexts) p (
          subst (Agrees loader raw.contexts (choose loader (wanted flag raw) raw.contexts)) started
            (init_kube_client_pool-Agrees loader flag raw loaded m).0) in
      let kept = serve_all-Keeps qs p v in
      (
        kept,
        λ envs fields labels.
            list_environments_lem envs fields labels (asked (serve_all qs p)) kept.valid
              (contexts-ne-nil (serve_all qs p) q kept.valid (kept.same_current ∙ now)),
      )
