-- ===== src/Tests/Service.antt =====
-- main.go, api/handler.go and the service as a whole at concrete inputs.
use k8s_explore.Base.{ℕ, String, Option, none, some, inl, List, [], ◌∷◌, ◌≡◌, refl, ap, subst, err}
use k8s_explore.RequestId.{GinContext, request_id_of}
use k8s_explore.Rest.Environment
use k8s_explore.Rest.Environment.{Environments, listing}
use k8s_explore.Rest.Gin.{returned}
use k8s_explore.Rest.Resources.{Discovery}
use k8s_explore.Rest.Objects
use k8s_explore.Rest.Objects.{gvr_of, handle_get}
use k8s_explore.Rest.Objects.Answers.{served, get_reply}
use k8s_explore.KubeClient.{context}
use k8s_explore.KubeClient.Caching.{ClientOf}
use k8s_explore.Server.Answered.{object_answered}
use k8s_explore.Server.Http.{Clusters, receive}
use k8s_explore.Server.Paths.{Complete, url_of, query_of}
use k8s_explore.Server.Urls.{receive-url}
use k8s_explore.Routes.Found.{fitting}
use k8s_explore.Routes.{get, delete, get_object, routes, matching, Target, One, Router}
use k8s_explore.Server
use k8s_explore.Server.{Request, serve_all, asked}
use k8s_explore.Server.Serving.{Keeps, service-Keeps}
use k8s_explore.Tests.Rest.{lab, ask, disco, envs}
use k8s_explore.Tests.Startup.{entries-IsMap, init-up}
use k8s_explore.Tests.World.{small_api, two, up, three_entries}

-- The pod "web" of the namespace "dev".
abbrev pod_path : List String
pod_path =
    "api" ∷ "kube" ∷ "v1" ∷ "contexts" ∷ "lab" ∷ "resources" ∷ "core" ∷ "v1" ∷ "namespaces" ∷ "dev"
    ∷ "pods" ∷ "web" ∷ []

pod_route :
    matching routes get pod_path
    ≡ (
      get_object,
      ("ctx", "lab")
          ∷ ("group", "core")
          ∷ ("version", "v1")
          ∷ ("namespace", "dev")
          ∷ ("resource", "pods")
          ∷ ("name", "web")
          ∷ [],
    )
      ∷ []
unfolding matching
pod_route = refl

-- A router that takes the first of the routes that fit.
abbrev first_target : List Target → Option Target
first_target [] = none
first_target (m ∷ ms) = some m

first-One : (ms : List Target) (m : Target) → first_target ms ≡ some m → One m ms
first-One [] m h = cc
first-One (n ∷ ms) m h = inl cc

first-none : (ms : List Target) → first_target ms ≡ none → ms ≡ []
first-none [] h = refl
first-none (n ∷ ms) h = cc

first_router : Router routes
first_router = record {
  find = λ verb path. first_target (matching routes verb path);
  found = λ verb path m h. first-One (matching routes verb path) m h;
  finds = λ r path values member fits sure nothing.
      subst (One (r.endpoint, values)) (first-none (matching routes r.verb path) nothing)
        (fitting r routes path values member fits);
}

-- The pod "web" of the namespace "dev", by its URL.
abbrev pod : Objects.Request
pod = record (ask "lab" "web") {
  group = "core";
  version = "v1";
  namespace = "dev";
  resource = "pods";
}

abbrev answers : Clusters small_api
answers = record { discovery = disco; environments = envs; kube = lab }

pod-Complete : Complete pod
pod-Complete = record {
  some_ctx = λ e. cc;
  some_group = λ e. cc;
  some_version = λ e. cc;
  some_resource = λ e. cc;
  segments = (refl, (refl, (refl, (refl, (refl, (refl, tt))))));
  no_namespaces = λ h e. cc;
}

receive-url_example :
    receive answers first_router
      (record { verb = delete; path = url_of pod; query = query_of pod; body = err "no body" })
    ≡ some (Server.delete_object lab pod)
receive-url_example = receive-url answers first_router pod (err "no body") pod-Complete delete

-- A request without a request id.
abbrev incoming : GinContext
incoming = record { request_headers = []; request_id = none; reply_headers = [] }

-- It gets the first part of the new one.
request_id_of-incoming : request_id_of "3f2a9c10-77" incoming ≡ "3f2a9c10"
unfolding request_id_of
request_id_of-incoming = refl

-- A cluster that cannot list its resources.
abbrev silent : Discovery small_api
silent = record { ResourceList = String; server_preferred_resources = λ d. err "no answer" }

abbrev three_requests : List (Request small_api)
three_requests =
    Server.list_contexts
    ∷ Server.list_resources silent "a"
    ∷ Server.get_object lab (ask "z" "web")
    ∷ []

service-Keeps_example :
    Keeps two (serve_all three_requests two)
    × ((envs : Environments small_api) (fields labels : String)
        → (d : ℕ) × (Environment.handle_list envs fields labels
              (asked (serve_all three_requests two))
            ≡ (
              returned tt,
              record {
                pool = serve_all three_requests two;
                replies = listing envs (envs.list d fields labels) ∷ [];
                calls = (fields, labels) ∷ [];
              },
            )))
service-Keeps_example =
    service-Keeps up "" three_entries two refl entries-IsMap (ap (λ r. r.0) init-up) three_requests

-- The pod again, in the context "b", after the requests above.
abbrev pod_b : Objects.Request
pod_b = record pod { ctx = "b" }

pod_b-Complete : Complete pod_b
pod_b-Complete = record {
  some_ctx = λ e. cc;
  some_group = λ e. cc;
  some_version = λ e. cc;
  some_resource = λ e. cc;
  segments = (refl, (refl, (refl, (refl, (refl, (refl, tt))))));
  no_namespaces = λ h e. cc;
}

object_answered_example :
    (receive answers first_router
        (record { verb = get; path = url_of pod_b; query = query_of pod_b; body = err "no body" })
      ≡ some (Server.get_object lab pod_b))
    × (d : ℕ) × ClientOf "b" (serve_all three_requests two) d
    × (handle_get {kube = lab} pod_b (asked (serve_all three_requests two))
        ≡ served
            (asked (serve_all three_requests two))
            (Objects.get (gvr_of pod_b) "dev" "web")
            (get_reply (lab.get d (gvr_of pod_b) "dev" "web")))
unfolding context
object_answered_example =
    object_answered up answers first_router "" three_entries two refl entries-IsMap
      (ap (λ r. r.0) init-up) three_requests pod_b (err "no body") 1 pod_b-Complete refl refl
