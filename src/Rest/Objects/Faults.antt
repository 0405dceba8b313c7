-- ===== src/Rest/Objects/Faults.antt =====
-- api/rest/kube/objects/objects.go: requests that the handlers do not serve as they mean to.
use k8s_explore.Base.{
  ℕ, true, none, some, [], ◌∷◌, ◌++◌, ◌≡◌, ◌∙◌, refl, arith, Error, Result, ok, err,
}
use k8s_explore.KubeClient.{Api, context}
use k8s_explore.KubeClient.Valid.{IsValid}
use k8s_explore.Rest.Gin.{Reply, Flow, returned, panicked, World}
use k8s_explore.Rest.Objects.{
  Request, Kube, Body, message, object, Call, update, gvr_of, kube_client, handle_get, handle_list,
  unstructured_object_from_request, handle_update, handle_delete,
}
use k8s_explore.Rest.Objects.Answers.{
  answer, served, body_object, parsed-some, kube_client-known, handle_update_lem,
}

module _ {api : Api} {kube : Kube api} (req : Request) (w : World api (Body kube) (Call kube)) where
  abbrev pub replied : Reply (Body kube) → World api (Body kube) (Call kube)
  replied reply = record w { replies = w.replies ++ reply ∷ [] }

  pub kube_client-unknown :
      (e : Error api.ApiError)
      → context req.ctx w.pool ≡ err e
      → kube_client {kube = kube} req w
        ≡ (panicked, replied (answer {kube = kube} 404 (message "unknown context")))
  unfolding kube_client
  kube_client-unknown e h = ground arith

  -- For a context that the pool lacks each handler writes its 404 and then panics, since
  -- `kubeClient` goes on with a nil context, `Update` where its body has an object; no call is sent.
  pub unknown_context_panics :
      (e : Error api.ApiError) (raw : Result api.ApiError kube.Bytes) (u : kube.Object)
      → context req.ctx w.pool ≡ err e
      → body_object kube raw ≡ some u
      → let fault : Flow (Unit {0}) × World api (Body kube) (Call kube) =
          (panicked, replied (answer {kube = kube} 404 (message "unknown context"))) in
        (handle_get {kube = kube} req w ≡ fault)
        × (handle_list {kube = kube} req w ≡ fault)
        × (handle_update {kube = kube} req raw w ≡ fault)
        × (handle_delete {kube = kube} req w ≡ fault)
  unfolding handle_get handle_list handle_update handle_delete
  unknown_context_panics e raw u h parsed =
      let client = kube_client-unknown e h in
      (ground arith, ground arith, ground (arith, parsed-some raw u w parsed), ground arith)

  -- A body that cannot be read as YAML or decoded is answered by one 500, and no call is sent.
  pub handle_update_bad_body :
      (raw : kube.Bytes) (json_body : kube.Bytes) (e : api.ApiError)
      → kube.to_json raw ≡ ok json_body
      → kube.decode json_body ≡ err e
      → handle_update {kube = kube} req (ok raw) w
        ≡ (returned tt, replied (answer {kube = kube} 500 (message "internal server error")))
  unfolding handle_update unstructured_object_from_request
  handle_update_bad_body raw json_body e converted failed = ground arith

  -- A body that decodes to something other than one object (a list, say) is answered by 500, and
  -- then, for a context of a valid pool, `Update` goes on, and panics at its nil object: no call is sent.
  pub handle_update_cast_failure :
      (raw json_body : kube.Bytes) (obj : kube.RuntimeObject) (r : ℕ)
      → IsValid w.pool
      → context req.ctx w.pool ≡ ok r
      → kube.to_json raw ≡ ok json_body
      → kube.decode json_body ≡ ok obj
      → kube.as_unstructured obj ≡ none
      → handle_update {kube = kube} req (ok raw) w
        ≡ (panicked, replied (answer {kube = kube} 500 (message "internal server error")))
  unfolding handle_update unstructured_object_from_request
  handle_update_cast_failure raw json_body obj r v known converted decoded no_cast =
      let (d, _, client) =
        kube_client-known {kube = kube} req
          (replied (answer {kube = kube} 500 (message "internal server error"))) v r known in
      ground arith

  -- For a context of a valid pool, an update of an object that the cluster answers by a not-found
  -- error and no object is answered by 200 with a null body.
  pub handle_update_missing :
      (raw : Result api.ApiError kube.Bytes) (u : kube.Object) (e : api.ApiError) (r : ℕ)
      → IsValid w.pool
      → context req.ctx w.pool ≡ ok r
      → body_object kube raw ≡ some u
      → ((d : api.DynamicClient) → kube.update d (gvr_of req) req.namespace u ≡ (none, some e))
      → kube.is_not_found e ≡ true
      → handle_update {kube = kube} req raw w
        ≡ served w (update (gvr_of req) req.namespace u) (answer 200 (object none))
  handle_update_missing raw u e r v known parsed missing not_found =
      let (d, done) = handle_update_lem req w v r known raw u parsed in
      done ∙ rw (missing d, not_found)

  -- The group "core" of a path stands for the empty group of Kubernetes.
  pub core_group :
      (raw : Result api.ApiError kube.Bytes)
      → let core = record req { group = "core" } in
        let bare = record req { group = "" } in
        (handle_get {kube = kube} core w ≡ handle_get {kube = kube} bare w)
        × (handle_list {kube = kube} core w ≡ handle_list {kube = kube} bare w)
        × (handle_update {kube = kube} core raw w ≡ handle_update {kube = kube} bare raw w)
        × (handle_delete {kube = kube} core w ≡ handle_delete {kube = kube} bare w)
  unfolding handle_get handle_list handle_update handle_delete
  core_group raw = (refl, refl, refl, refl)
