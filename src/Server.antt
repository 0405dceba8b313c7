-- ===== src/Server.antt =====
-- main.go and api/rest: the service after its start-up. A request runs one handler on the pool that
-- all handlers share. A panic ends its request only: `net/http` recovers it, and the pool is as the
-- handler left it. The clusters, which answer each request as they like, are arguments of the request.
pub mod Handlers
pub mod Serving
pub mod Http
pub mod Paths
pub mod Urls
pub mod Answered
use k8s_explore.Base.{ℕ, String, List, [], ◌∷◌, Result}
use k8s_explore.KubeClient.{Api, ClientPool}
use k8s_explore.Rest.Objects
use k8s_explore.Rest.Objects.{Kube, handle_get, handle_update, handle_delete}
use k8s_explore.Rest.Contexts
use k8s_explore.Rest.Contexts.{ContextInfo}
use k8s_explore.Rest.Resources
use k8s_explore.Rest.Resources.{Discovery}
use k8s_explore.Rest.Environment
use k8s_explore.Rest.Environment.{Environments}
use k8s_explore.Rest.Gin.{World, M}

module _ (api : Api) where
  -- A request to one of the handlers of `run`, with what its cluster answers.
  pub data Request : Type 1 where
    list_contexts : Request
    list_resources : Discovery api → String → Request
    list_environments : Environments api → String → String → Request
    get_object : Kube api → Objects.Request → Request
    list_objects : Kube api → Objects.Request → Request
    update_object : (kube : Kube api) → Objects.Request → Result api.ApiError kube.Bytes → Request
    delete_object : Kube api → Objects.Request → Request

module _ {api : Api} where
  -- The run of a handler at its start.
  abbrev pub asked : {Body Call : Type 0} → ClientPool api → World api Body Call
  asked p = record { pool = p; replies = []; calls = [] }

  -- The pool that a handler leaves.
  abbrev pub left_by : {A Body Call : Type 0} → M api Body Call A → ClientPool api → ClientPool api
  left_by m p = (m (asked p)).1.pool

  unfoldable pub serve : Request api → ClientPool api → ClientPool api
  serve list_contexts p = left_by {Body = List ContextInfo} {Call = Unit {0}} Contexts.handle_list p
  serve (list_resources disco ctx) p = left_by (Resources.handle_list disco ctx) p
  serve (list_environments envs fields labels) p =
      left_by (Environment.handle_list envs fields labels) p
  serve (get_object kube req) p = left_by (handle_get {kube = kube} req) p
  serve (list_objects kube req) p = left_by (Objects.handle_list {kube = kube} req) p
  serve (update_object kube req raw) p = left_by (handle_update {kube = kube} req raw) p
  serve (delete_object kube req) p = left_by (handle_delete {kube = kube} req) p

  abbrev pub serve_all : List (Request api) → ClientPool api → ClientPool api
  serve_all [] p = p
  serve_all (q ∷ qs) p = serve_all qs (serve q p)
