-- ===== src/Rest/Objects/Answers.antt =====
-- api/rest/kube/objects/objects.go: what each handler does for a context of the pool.
use k8s_explore.Base.{
  ℕ, Option, none, some, List, [], ◌∷◌, ◌++◌, ◌≡◌, arith, Result, ok, err, if◌then◌else◌,
  Option-cases, inl, inr,
}
use k8s_explore.KubeClient.{Api, context}
use k8s_explore.KubeClient.Valid.{IsValid}
use k8s_explore.KubeClient.Caching.{ClientOf, context-ready}
use k8s_explore.Rest.Gin.{Reply, Flow, returned, World}
use k8s_explore.Rest.Objects.{
  Request, Kube, Body, message, object, objects, empty, Call, get, list, update, delete, gvr_of,
  kube_client, handle_get, handle_list, unstructured_object_from_request, handle_update,
  handle_delete,
}

-- The object of a request body, if the body can be read, is YAML and holds one object.
abbrev pub body_object :
    {api : Api} (kube : Kube api) → Result api.ApiError kube.Bytes → Option kube.Object
body_object kube (err _) = none
body_object kube (ok raw) = elim (kube.to_json raw) [
  | err _ ↦ none
  | ok json_body ↦ elim (kube.decode json_body) [ err _ ↦ none | ok obj ↦ kube.as_unstructured obj ]
]

module _ {api : Api} {kube : Kube api} where
  abbrev pub answer : ℕ → Body kube → Reply (Body kube)
  answer status body = record { status = status; body = body }

  -- A run that returns after one call to the cluster and one reply, with the pool as it was.
  abbrev pub served :
      World api (Body kube) (Call kube)
      → Call kube
      → Reply (Body kube)
      → Flow (Unit {0}) × World api (Body kube) (Call kube)
  served w call reply =
      (returned tt, record w { replies = w.replies ++ reply ∷ []; calls = w.calls ++ call ∷ [] })

  -- The replies, by what the cluster answers.
  abbrev pub get_reply : Result api.ApiError kube.Object → Reply (Body kube)
  get_reply (ok obj) = answer 200 (object (some obj))
  get_reply (err e) =
      if kube.is_not_found e
      then answer 404 (message "not found")
      else answer 500 (message "internal server error")

  abbrev pub list_reply : Result api.ApiError (List kube.Object) → Reply (Body kube)
  list_reply (ok items) = answer 200 (objects items)
  list_reply (err _) = answer 500 (message "internal server error")

  -- A missing object counts as updated and as deleted.
  abbrev pub update_reply : Option kube.Object × Option api.ApiError → Reply (Body kube)
  update_reply (obj, none) = answer 200 (object obj)
  update_reply (obj, some e) =
      if kube.is_not_found e
      then answer 200 (object obj)
      else answer 500 (message "internal server error")

  abbrev pub delete_reply : Option api.ApiError → Reply (Body kube)
  delete_reply none = answer 204 empty
  delete_reply (some e) =
      if kube.is_not_found e then answer 204 empty else answer 500 (message "internal server error")

  pub parsed-some :
      (raw : Result api.ApiError kube.Bytes) (u : kube.Object)
      (w : World api (Body kube) (Call kube))
      → body_object kube raw ≡ some u
      → unstructured_object_from_request {kube = kube} raw w ≡ (returned (some u, none), w)
  unfolding unstructured_object_from_request
  parsed-some (err e) u w h = cc
  parsed-some (ok raw) u w h = ground arith

  module _ (req : Request) (w : World api (Body kube) (Call kube)) (v : IsValid w.pool) (r : ℕ)
      (known : context req.ctx w.pool ≡ ok r) where
    pub kube_client-known :
        (d : api.DynamicClient) × ClientOf req.ctx w.pool d
        × (kube_client {kube = kube} req w ≡ (returned (some d), w))
    unfolding kube_client
    kube_client-known =
        let (c, d, at, named, cached) = context-ready req.ctx r w.pool v known in
        (d, (r, c, known, at, named, cached), ground arith)

    -- `Get` of a context of a valid pool sends one call and answers as the cluster does: 200, 404 or 500.
    pub handle_get_lem :
        (d : api.DynamicClient) × (handle_get {kube = kube} req w
          ≡ served w
              (get (gvr_of req) req.namespace req.name)
              (get_reply (kube.get d (gvr_of req) req.namespace req.name)))
    unfolding handle_get
    handle_get_lem = let (d, _, client) = kube_client-known in (d, ground arith)

    -- `List` of a context of a valid pool sends one call and answers 200 or 500.
    pub handle_list_lem :
        (d : api.DynamicClient) × (handle_list {kube = kube} req w
          ≡ served w (list (gvr_of req) req.namespace req.field_selector req.label_selector) (
              list_reply
                (kube.list d (gvr_of req) req.namespace req.field_selector req.label_selector)))
    unfolding handle_list
    handle_list_lem = let (d, _, client) = kube_client-known in (d, ground arith)

    -- `Delete` of a context of a valid pool sends one call and answers 204, also for a missing object,
    -- or 500.
    pub handle_delete_lem :
        (d : api.DynamicClient) × (handle_delete {kube = kube} req w
          ≡ served w
              (delete (gvr_of req) req.namespace req.name)
              (delete_reply (kube.delete d (gvr_of req) req.namespace req.name)))
    unfolding handle_delete
    handle_delete_lem =
        let (d, _, client) = kube_client-known in
        elim (Option-cases (kube.delete d (gvr_of req) req.namespace req.name)) [
          | inl done ↦ (d, ground arith)
          | inr (e, failed) ↦ (d, ground arith)
        ]

    -- `Update` of a context of a valid pool with the object `u` in the body sends `u` and answers 200,
    -- also for a missing object, or 500.
    pub handle_update_lem :
        (raw : Result api.ApiError kube.Bytes) (u : kube.Object)
        → body_object kube raw ≡ some u
        → (d : api.DynamicClient) × (handle_update {kube = kube} req raw w
            ≡ served w
                (update (gvr_of req) req.namespace u)
                (update_reply (kube.update d (gvr_of req) req.namespace u)))
    unfolding handle_update
    handle_update_lem raw u parsed =
        let (d, _, client) = kube_client-known in (d, ground (arith, parsed-some raw u w parsed))
