-- ===== src/Rest/Environment.antt =====
-- api/rest/environment/environment.go: `List`, the environments of the current context. A nil slice
-- of Go is the empty list; both are null in the reply.
pub mod Types
use k8s_explore.Base.{
  String, Option, none, some, List, [], ◌∷◌, ◌++◌, ◌≡◌, ◌≢◌, arith, inl, inr, Result, ok, err,
  Result-cases, Option-cases, append_assoc, append-nil,
}
use k8s_explore.KubeClient.{Api, contexts, current_context}
use k8s_explore.Rest.Environment.Types.{Environment}
use k8s_explore.KubeClient.Valid.{IsValid}
use k8s_explore.KubeClient.Caching.{current_context-ready}
use k8s_explore.Rest.Gin.{
  Reply, returned, panicked, World, M, pure, json, send, non_nil, find_current, dynamic_client_of,
  ◌>>=◌, ◌>>◌,
}

-- The unstructured items, the conversion into `Environment` and its metadata of the Kubernetes
-- libraries, and the
-- listing of the resource `environments` of `salaboy.com/v1alpha1` in the namespace `default`.
pub record Environments (api : Api) : Type 1 where
  pub Item : Type 0
  pub TypeMeta : Type 0
  pub ObjectMeta : Type 0
  pub list : api.DynamicClient → String → String → Result api.ApiError (List Item)
  pub from_unstructured : Item → Result api.ApiError (Environment TypeMeta ObjectMeta)

module _ {api : Api} (envs : Environments api) where
  open envs use {Item}

  abbrev pub Converted : Type 0
  Converted = Environment envs.TypeMeta envs.ObjectMeta

  pub data Body : Type 0 where
    message : String → Body
    environments : List Converted → Body

  -- The loop of `convertUnstructuredListToEnvironmentList`.
  convert_from : List Converted → List Item → Result api.ApiError (List Converted)
  convert_from done [] = ok done
  convert_from done (item ∷ items) = elim (envs.from_unstructured item) [
    | err e ↦ err e
    | ok env ↦ convert_from (done ++ env ∷ []) items
  ]

  -- `convertUnstructuredListToEnvironmentList`
  unfoldable pub convert : List Item → Result api.ApiError (List Converted)
  unfolding convert_from
  convert items = convert_from [] items

  -- `result, err := convert…`: `List` drops the error, and the slice is nil then.
  abbrev value_or_nil : Result api.ApiError (List Converted) → List Converted
  value_or_nil (ok result) = result
  value_or_nil (err _) = []

  -- `Handler.kubeClient`: after the 500 it returns a nil client, and its own error is nil.
  unfoldable pub kube_client : M api Body (String × String) (Option api.DynamicClient)
  kube_client = do
    kctx ← find_current
    client ← dynamic_client_of kctx
    elim client [
      | ok d ↦ pure (some d)
      | err _ ↦ json 500 (message "internal server error") >> pure none
    ]

  -- `Handler.List`, with the two selectors of the query.
  unfoldable pub handle_list : String → String → M api Body (String × String) (Unit {0})
  unfolding kube_client
  handle_list fields labels = do
    client ← kube_client
    d ← non_nil client
    send (fields, labels)
    elim (envs.list d fields labels) [
      | err _ ↦ json 500 (message "internal server error")
      | ok items ↦ json 200 (environments (value_or_nil (convert items)))
    ]

  -- The environments of the items, if every item converts.
  abbrev converted : List Item → Option (List Converted)
  converted [] = some []
  converted (item ∷ items) =
      let rest = converted items in
      elim (envs.from_unstructured item) [
        | err _ ↦ none
        | ok env ↦ elim rest [ none ↦ none | some tail ↦ some (env ∷ tail) ]
      ]

  convert_from_lem :
      (done : List Converted) (items : List Item)
      → value_or_nil (convert_from done items)
        ≡ elim (converted items) [ none ↦ [] | some result ↦ done ++ result ]
  unfolding convert_from
  convert_from_lem done [] = rw (append-nil done)
  convert_from_lem done (item ∷ items) = elim (Result-cases (envs.from_unstructured item)) [
    | inr (e, failed) ↦ ground arith
    | inl (env, made) ↦ elim (Option-cases (converted items)) [
      | inl lost ↦ ground (arith, convert_from_lem (done ++ env ∷ []) items)
      | inr (result, kept) ↦
          ground
            (arith, convert_from_lem (done ++ env ∷ []) items, append_assoc done (env ∷ []) result)
    ]
  ]

  -- The reply, by what the cluster answers. Where one item does not convert it is that of an empty
  -- list.
  abbrev pub listing : Result api.ApiError (List Item) → Reply Body
  listing (err _) = record { status = 500; body = message "internal server error" }
  listing (ok items) = record {
    status = 200;
    body = environments (elim (converted items) [ none ↦ [] | some result ↦ result ]);
  }

  -- On a valid pool that is not empty `List` returns after one call, with the two selectors, and one
  -- reply; the pool stays as it is.
  pub list_environments_lem :
      (fields labels : String) (w : World api Body (String × String))
      → IsValid w.pool
      → contexts w.pool ≢ []
      → (d : api.DynamicClient) × (handle_list fields labels w ≡ (
        returned tt,
        record w {
          replies = w.replies ++ listing (envs.list d fields labels) ∷ [];
          calls = w.calls ++ (fields, labels) ∷ [];
        },
      ))
  unfolding handle_list convert
  list_environments_lem fields labels w v some_context =
      let (r, c, d, now, at, cached) = current_context-ready w.pool v some_context in
      elim (Result-cases (envs.list d fields labels)) [
        | inr (e, failed) ↦ (d, ground arith)
        | inl (items, got) ↦ (d, ground (arith, convert_from_lem [] items))
      ]

  -- Without a current context the handler panics before any reply.
  pub list_environments_no_context :
      (fields labels : String) (w : World api Body (String × String))
      → w.pool.current ≡ none
      → handle_list fields labels w ≡ (panicked, w)
  unfolding handle_list current_context
  list_environments_no_context fields labels w absent = ground arith
