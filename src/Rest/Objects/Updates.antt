-- ===== src/Rest/Objects/Updates.antt =====
-- api/rest/kube/objects/objects.go: what `Update` does for every body and every context.
use k8s_explore.Base.{
  Option, none, some, ◌≡◌, refl, arith, Error, Result, ok, err, ◌⊎◌, inl, inr, Option-cases,
  Result-cases,
}
use k8s_explore.KubeClient.{Api, context}
use k8s_explore.KubeClient.Valid.{IsValid}
use k8s_explore.KubeClient.Caching.{ClientOf}
use k8s_explore.Rest.Gin.{Reply, Flow, returned, panicked, World}
use k8s_explore.Rest.Objects.{
  kube_client, Request, Kube, Body, message, Call, update, gvr_of, unstructured_object_from_request,
  handle_update,
}
use k8s_explore.Rest.Objects.Answers.{answer, served, kube_client-known, update_reply}
use k8s_explore.Rest.Objects.Faults.{replied, kube_client-unknown}

-- What a body holds: `none` if it cannot be read, is no YAML or does not decode, `some none` if it
-- decodes to something other than one object.
abbrev pub body_held :
    {api : Api} (kube : Kube api) → Result api.ApiError kube.Bytes → Option (Option kube.Object)
body_held kube (err _) = none
body_held kube (ok raw) = elim (kube.to_json raw) [
  | err _ ↦ none
  | ok json_body ↦ elim (kube.decode json_body) [
    | err _ ↦ none
    | ok obj ↦ some (kube.as_unstructured obj)
  ]
]

module _ {api : Api} {kube : Kube api} where
  abbrev pub failed_reply : Reply (Body kube)
  failed_reply = answer 500 (message "internal server error")

module _ {api : Api} {kube : Kube api} (req : Request) (w : World api (Body kube) (Call kube)) where
  body_failed :
      (raw : Result api.ApiError kube.Bytes)
      → body_held kube raw ≡ none
      → (e : api.ApiError) × (unstructured_object_from_request {kube = kube} raw w
          ≡ (returned (none, some e), replied req w failed_reply))
  unfolding unstructured_object_from_request
  body_failed (err e) h = (e, refl)
  body_failed (ok raw) h = elim (Result-cases (kube.to_json raw)) [
    | inr (e, failed) ↦ (e, ground arith)
    | inl (json_body, converted) ↦ elim (Result-cases (kube.decode json_body)) [
      | inr (e, failed) ↦ (e, ground arith)
      | inl (obj, decoded) ↦ absurd (ground arith)
    ]
  ]

  -- What has been written when the body has been looked at.
  abbrev pub after_body : Option kube.Object → World api (Body kube) (Call kube)
  after_body none = replied req w failed_reply
  after_body (some _) = w

  body_parsed :
      (raw : Result api.ApiError kube.Bytes) (o : Option kube.Object)
      → body_held kube raw ≡ some o
      → unstructured_object_from_request {kube = kube} raw w ≡ (returned (o, none), after_body o)
  unfolding unstructured_object_from_request
  body_parsed (err e) o h = cc
  body_parsed (ok raw) none h = ground arith
  body_parsed (ok raw) (some u) h = ground arith

module _ {api : Api} {kube : Kube api} (req : Request) (w : World api (Body kube) (Call kube))
    (raw : Result api.ApiError kube.Bytes) where
  -- What `Update` ends in with the client of a context.
  abbrev pub sent_as :
      api.DynamicClient → Option kube.Object → Flow (Unit {0}) × World api (Body kube) (Call kube)
  sent_as d none = (panicked, replied req w failed_reply)
  sent_as d (some u) =
      served w (update (gvr_of req) req.namespace u)
        (update_reply (kube.update d (gvr_of req) req.namespace u))

  -- `Update` has dealt with a body that holds this: with nothing, it answers 500 and ends; anything
  -- but one object it has answered by 500 by then; for a context that the pool lacks it panics after a
  -- 404; for any other it sends the object with the context's client, and answers as the cluster does, or
  -- panics where it has no object.
  abbrev pub Updated : Option (Option kube.Object) → Type 0
  Updated none = handle_update {kube = kube} req raw w ≡ (returned tt, replied req w failed_reply)
  Updated (some o) =
      ((e : Error api.ApiError) × (context req.ctx w.pool ≡ err e)
        × (handle_update {kube = kube} req raw w ≡ (
          panicked,
          replied req (after_body req w o) (answer 404 (message "unknown context")),
        )))
      ⊎ ((d : api.DynamicClient) × ClientOf req.ctx w.pool d
          × (handle_update {kube = kube} req raw w ≡ sent_as d o))

  update_nothing : body_held kube raw ≡ none → Updated none
  unfolding handle_update
  update_nothing h = let (e, done) = body_failed req w raw h in ground arith

  after_body-pool : (o : Option kube.Object) → (after_body req w o).pool ≡ w.pool
  after_body-pool none = refl
  after_body-pool (some u) = refl

  sent-sent_as :
      (o : Option kube.Object) (d : api.DynamicClient)
      → body_held kube raw ≡ some o
      → kube_client {kube = kube} req (after_body req w o) ≡ (returned (some d), after_body req w o)
      → handle_update {kube = kube} req raw w ≡ sent_as d o
  unfolding handle_update
  sent-sent_as none d h client = ground (arith, body_parsed req w raw none h)
  sent-sent_as (some u) d h client = ground (arith, body_parsed req w raw (some u) h)

  update_held :
      (o : Option kube.Object) → IsValid w.pool → body_held kube raw ≡ some o → Updated (some o)
  unfolding handle_update
  update_held o v h = elim (Result-cases (context req.ctx w.pool)) [
    | inr (e, unknown) ↦
        let fault =
          kube_client-unknown req (after_body req w o) e (rw (after_body-pool o) unknown) in
        inl (e, unknown, ground (arith, body_parsed req w raw o h, fault))
    | inl (r, known) ↦
        let (d, its_client, client) =
          kube_client-known {kube = kube} req (after_body req w o) (rw (after_body-pool o) v) r
            (rw (after_body-pool o) known) in
        inr (d, rw (after_body-pool o) at its_client, sent-sent_as o d h client)
  ]

  -- For a valid pool, `Update` deals with every body and every context: with a body that cannot be
  -- read, is no YAML or does not decode it answers 500 and ends; a body that decodes to something other
  -- than one object it answers by 500, and goes on without an object; for a context that the pool lacks
  -- it panics after a 404; for any other it sends the object with the client of that context and answers
  -- 200, also for a missing object, or 500, and without an object it panics and sends nothing.
  pub handle_update_total : IsValid w.pool → Updated (body_held kube raw)
  handle_update_total v = elim (Option-cases (body_held kube raw)) [
    | inl h ↦ rw h (update_nothing h)
    | inr (o, h) ↦ rw h (update_held o v h)
  ]
