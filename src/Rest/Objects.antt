-- ===== src/Rest/Objects.antt =====
-- api/rest/kube/objects/objects.go: `Get`, `List`, `Update` and `Delete` of a Kubernetes object.
-- The cluster's answers and the decoders of a request body come from libraries outside the
-- repository: they are the parameter `Kube`. Log lines are left out.
pub mod Answers
pub mod Faults
pub mod Updates
use k8s_explore.Base.{
  ℕ, String, str_eq, Bool, true, false, not, ◌&&◌, ◌≡◌, [], ◌∷◌, Option, none, some, List, Error,
  foreign, Result, ok, err, if◌then◌else◌,
}
use k8s_explore.KubeClient.{Api}
use k8s_explore.Rest.Gin.{
  M, pure, json, send, find_context, dynamic_client_of, non_nil, ◌>>=◌, ◌>>◌,
}

-- `schema.GroupVersionResource`
pub record Gvr : Type 0 where
  pub group : String
  pub version : String
  pub resource : String

-- What the handlers read of the request: path parameters (a missing one is ""), the two queries.
pub record Request : Type 0 where
  pub ctx : String
  pub group : String
  pub version : String
  pub resource : String
  pub namespace : String
  pub name : String
  pub field_selector : String
  pub label_selector : String

-- client-go's dynamic client, `apierrors.IsNotFound`, and the steps that read a body. `update`
-- returns Go's pair, an object and an error, each of which may be nil. It reads the name of the object
-- before anything else, so that a nil object is a panic, which is not left to the parameter.
pub record Kube (api : Api) : Type 1 where
  pub Object : Type 0
  pub Bytes : Type 0
  pub RuntimeObject : Type 0
  pub get : api.DynamicClient → Gvr → String → String → Result api.ApiError Object
  pub list : api.DynamicClient → Gvr → String → String → String → Result api.ApiError (List Object)
  pub update : api.DynamicClient → Gvr → String → Object → Option Object × Option api.ApiError
  pub delete : api.DynamicClient → Gvr → String → String → Option api.ApiError
  pub is_not_found : api.ApiError → Bool
  pub to_json : Bytes → Result api.ApiError Bytes
  pub decode : Bytes → Result api.ApiError RuntimeObject
  pub as_unstructured : RuntimeObject → Option Object

module _ {api : Api} (kube : Kube api) where
  pub data Body : Type 0 where
    message : String → Body
    object : Option kube.Object → Body
    objects : List kube.Object → Body
    empty : Body

  pub data Call : Type 0 where
    get : Gvr → String → String → Call
    list : Gvr → String → String → String → Call
    update : Gvr → String → kube.Object → Call
    delete : Gvr → String → String → Call

abbrev pub Run : {api : Api} → Kube api → Type 0 → Type 0
Run {api} kube A = M api (Body kube) (Call kube) A

-- `if group == "core" { group = "" }`
abbrev pub plain_group : String → String
plain_group group = if str_eq group "core" then "" else group

abbrev pub gvr_of : Request → Gvr
gvr_of req = record {
  group = plain_group req.group;
  version = req.version;
  resource = req.resource;
}

-- `err != nil && !apierrors.IsNotFound(err)`
abbrev pub is_failure : {api : Api} → Kube api → Option api.ApiError → Bool
is_failure kube none = false
is_failure kube (some e) = not (kube.is_not_found e)

module _ {api : Api} {kube : Kube api} where
  -- `Handler.kubeClient`: after the 404 the function goes on with a nil `kctx`, and after the 500 it
  -- returns a nil client; its own error is nil on every path.
  unfoldable pub kube_client : Request → Run kube (Option api.DynamicClient)
  kube_client req = do
    found ← find_context req.ctx
    kctx ← elim found [
      | ok r ↦ pure (some r)
      | err _ ↦ json 404 (message "unknown context") >> pure none
    ]
    client ← dynamic_client_of kctx
    elim client [
      | ok d ↦ pure (some d)
      | err _ ↦ json 500 (message "internal server error") >> pure none
    ]

  -- `Handler.Get`
  unfoldable pub handle_get : Request → Run kube (Unit {0})
  unfolding kube_client
  handle_get req = do
    client ← kube_client req
    d ← non_nil client
    send (get (gvr_of req) req.namespace req.name)
    elim (kube.get d (gvr_of req) req.namespace req.name) [
      | err e ↦
          if kube.is_not_found e
          then json 404 (message "not found")
          else json 500 (message "internal server error")
      | ok obj ↦ json 200 (object (some obj))
    ]

  -- `Handler.List`
  unfoldable pub handle_list : Request → Run kube (Unit {0})
  unfolding kube_client
  handle_list req = do
    client ← kube_client req
    d ← non_nil client
    send (list (gvr_of req) req.namespace req.field_selector req.label_selector)
    elim (kube.list d (gvr_of req) req.namespace req.field_selector req.label_selector) [
      | err _ ↦ json 500 (message "internal server error")
      | ok items ↦ json 200 (objects items)
    ]

  abbrev internal_error : {A : Type 0} → A → Run kube A
  internal_error a = json 500 (message "internal server error") >> pure a

  -- `Handler.unstructuredObjectFromRequest`: Go's pair of an object and an error, each of which may
  -- be nil. Where the cast fails the error is that of `runtime.Decode`, which is nil.
  unfoldable pub unstructured_object_from_request :
      Result api.ApiError kube.Bytes → Run kube (Option kube.Object × Option api.ApiError)
  unstructured_object_from_request (err e) = internal_error (none, some e)
  unstructured_object_from_request (ok body) = elim (kube.to_json body) [
    | err e ↦ internal_error (none, some e)
    | ok json_body ↦ elim (kube.decode json_body) [
      | err e ↦ internal_error (none, some e)
      | ok obj ↦ elim (kube.as_unstructured obj) [
        | none ↦ internal_error (none, none)
        | some u ↦ pure (some u, none)
      ]
    ]
  ]

  -- `Handler.Update`; `raw` is the result of `c.GetRawData()`.
  unfoldable pub handle_update : Request → Result api.ApiError kube.Bytes → Run kube (Unit {0})
  unfolding kube_client unstructured_object_from_request
  handle_update req raw = do
    parsed ← unstructured_object_from_request raw
    elim parsed.1 [
      | some _ ↦ pure tt
      | none ↦ do
        client ← kube_client req
        d ← non_nil client
        u ← non_nil parsed.0
        send (update (gvr_of req) req.namespace u)
        let answer = kube.update d (gvr_of req) req.namespace u
        if is_failure kube answer.1
            then json 500 (message "internal server error")
            else json 200 (object answer.0)
    ]

  -- `Handler.Delete`
  unfoldable pub handle_delete : Request → Run kube (Unit {0})
  unfolding kube_client
  handle_delete req = do
    client ← kube_client req
    d ← non_nil client
    send (delete (gvr_of req) req.namespace req.name)
    if is_failure kube (kube.delete d (gvr_of req) req.namespace req.name)
        then json 500 (message "internal server error")
        else json 204 empty
