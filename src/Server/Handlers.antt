-- ===== src/Server/Handlers.antt =====
-- api/rest: what each handler leaves of the pool.
use k8s_explore.Base.{
  Option, none, some, [], ◌∷◌, ◌++◌, ◌≡◌, refl, sym, subst, ◌∙◌, arith, Result, ok, err, inl, inr,
  ◌⊎◌, Option-cases, Bool-cases, Result-cases,
}
use k8s_explore.KubeClient.{Api, context}
use k8s_explore.KubeClient.Valid.{IsValid}
use k8s_explore.Rest.Gin.{World, Reply, returned, panicked}
use k8s_explore.Rest.Objects
use k8s_explore.Rest.Objects.{
  Request, Kube, Body, message, Call, handle_get, handle_update, handle_delete, kube_client,
  is_failure, gvr_of, unstructured_object_from_request,
}
use k8s_explore.Rest.Objects.Answers.{answer, kube_client-known}
use k8s_explore.Rest.Objects.Faults.{kube_client-unknown}

module _ {api : Api} {kube : Kube api} where
  abbrev with_reply :
      World api (Body kube) (Call kube) → Reply (Body kube) → World api (Body kube) (Call kube)
  with_reply w reply = record w { replies = w.replies ++ reply ∷ [] }

  -- What reading the body leaves of the pool, and what it returns.
  unstructured-pool :
      (raw : Result api.ApiError kube.Bytes) (w : World api (Body kube) (Call kube))
      → (o : Option kube.Object) × (e : Option api.ApiError) × (w' : World api
          (Body kube)
          (Call kube))
        × (unstructured_object_from_request {kube = kube} raw w ≡ (returned (o, e), w'))
        × (w'.pool ≡ w.pool)
  unfolding unstructured_object_from_request
  unstructured-pool (err e) w = (_, _, _, refl, refl)
  unstructured-pool (ok raw) w = elim (Result-cases (kube.to_json raw)) [
    | inr (e, failed) ↦ (
      none,
      some e,
      with_reply w (answer {kube = kube} 500 (message "internal server error")),
      ground (arith, failed),
      refl,
    )
    | inl (body, converted) ↦ elim (Result-cases (kube.decode body)) [
      | inr (e, failed) ↦ (
        none,
        some e,
        with_reply w (answer {kube = kube} 500 (message "internal server error")),
        ground (arith, converted, failed),
        refl,
      )
      | inl (obj, decoded) ↦ elim (Option-cases (kube.as_unstructured obj)) [
        | inl no_cast ↦ (
          none,
          none,
          with_reply w (answer {kube = kube} 500 (message "internal server error")),
          ground (arith, converted, decoded, no_cast),
          refl,
        )
        | inr (u, cast) ↦ (some u, none, w, ground (arith, converted, decoded, cast), refl)
      ]
    ]
  ]

module _ {api : Api} {kube : Kube api} (req : Request) (w : World api (Body kube) (Call kube))
    (v : IsValid w.pool) where
  -- The client of a request, or the panic of an unknown context.
  client-pool :
      ((d : api.DynamicClient) × (kube_client {kube = kube} req w ≡ (returned (some d), w)))
      ⊎ (kube_client {kube = kube} req w
          ≡ (panicked, with_reply w (answer {kube = kube} 404 (message "unknown context"))))
  client-pool = elim (Result-cases (context req.ctx w.pool)) [
    | inl (r, known) ↦ let (d, _, client) = kube_client-known req w v r known in inl (d, client)
    | inr (e, unknown) ↦ inr (kube_client-unknown req w e unknown)
  ]

  pub handle_get-pool : (handle_get {kube = kube} req w).1.pool ≡ w.pool
  unfolding handle_get
  handle_get-pool = elim client-pool [
    | inl (d, client) ↦ ground (arith, client)
    | inr fault ↦ ground (arith, fault)
  ]

  pub handle_list-pool : (Objects.handle_list {kube = kube} req w).1.pool ≡ w.pool
  unfolding Objects.handle_list
  handle_list-pool = elim client-pool [
    | inl (d, client) ↦ ground (arith, client)
    | inr fault ↦ ground (arith, fault)
  ]

  pub handle_delete-pool : (handle_delete {kube = kube} req w).1.pool ≡ w.pool
  unfolding handle_delete
  handle_delete-pool = elim client-pool [
    | inl (d, client) ↦ ground (arith, client)
    | inr fault ↦ ground (arith, fault)
  ]

module _ {api : Api} {kube : Kube api} where
  handle_update-read :
      (req : Request) (raw : Result api.ApiError kube.Bytes)
      (w w' : World api (Body kube) (Call kube)) (o : Option kube.Object) (e : Option api.ApiError)
      → unstructured_object_from_request {kube = kube} raw w ≡ (returned (o, e), w')
      → IsValid w'.pool
      → (handle_update {kube = kube} req raw w).1.pool ≡ w'.pool
  unfolding handle_update
  handle_update-read req raw w w' o (some e) read v = ground (arith, read)
  handle_update-read req raw w w' none none read v = elim (client-pool {kube = kube} req w' v) [
    | inl (d, client) ↦ ground (arith, read, client)
    | inr fault ↦ ground (arith, read, fault)
  ]
  handle_update-read req raw w w' (some o) none read v = elim (client-pool {kube = kube} req w' v) [
    | inl (d, client) ↦
        elim (Bool-cases (is_failure kube (kube.update d (gvr_of req) req.namespace o).1)) [
          | inl failed ↦ ground (arith, read, client, failed)
          | inr fine ↦ ground (arith, read, client, fine)
        ]
    | inr fault ↦ ground (arith, read, fault)
  ]

  pub handle_update-pool :
      (req : Request) (w : World api (Body kube) (Call kube))
      → IsValid w.pool
      → (raw : Result api.ApiError kube.Bytes)
      → (handle_update {kube = kube} req raw w).1.pool ≡ w.pool
  handle_update-pool req w v raw =
      let (o, e, w', read, same) = unstructured-pool raw w in
      handle_update-read req raw w w' o e read (subst IsValid (sym same) v) ∙ same
