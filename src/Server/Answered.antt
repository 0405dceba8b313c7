-- ===== src/Server/Answered.antt =====
-- main.go and objects.go: the way of a request from its URL to its cluster and back, in a service that
-- has started and has served other requests.
use k8s_explore.Base.{ℕ, String, str_eq, false, some, List, ◌≡◌, ◌∙◌, refl, arith, ok}
use k8s_explore.Base.Dict.{IsMap}
use k8s_explore.KubeClient.{Api, ClientPool, context}
use k8s_explore.KubeClient.Valid.{IsValid}
use k8s_explore.KubeClient.Caching.{ClientOf}
use k8s_explore.Rest.Objects
use k8s_explore.Rest.Objects.{Kube, get, gvr_of, handle_get, kube_client}
use k8s_explore.Rest.Objects.Answers.{kube_client-known, served, get_reply}
use k8s_explore.Routes.{Router, routes}
use k8s_explore.Routes as Routes
use k8s_explore.Server.{Request, get_object, serve_all, asked}
use k8s_explore.Server.Http.{Clusters, Body, receive}
use k8s_explore.Server.Serving.{Keeps, service-Keeps}
use k8s_explore.Server.Paths.{Complete, url_of, query_of}
use k8s_explore.Server.Urls.{receive-url}
use k8s_explore.Startup.{RawConfig, Loader, init_kube_client_pool}

module _ {api : Api} where
  context-Keeps :
      (name : String) (r : ℕ) (p p' : ClientPool api)
      → Keeps p p'
      → context name p ≡ ok r
      → context name p' ≡ ok r
  unfolding context
  context-Keeps name r p p' kept known = rw kept.same_names known

module _ {api : Api} {kube : Kube api} where
  handle_get-client :
      (req : Objects.Request) (p : ClientPool api) (r : ℕ)
      → IsValid p
      → context req.ctx p ≡ ok r
      → (d : api.DynamicClient) × ClientOf req.ctx p d
        × (handle_get {kube = kube} req (asked p)
            ≡ served
                (asked p)
                (get (gvr_of req) req.namespace req.name)
                (get_reply (kube.get d (gvr_of req) req.namespace req.name)))
  unfolding handle_get
  handle_get-client req p r v known =
      let (d, its_client, client) = kube_client-known {kube = kube} req (asked p) v r known in
      (d, its_client, ground arith)

module _ {api : Api} (loader : Loader api) (clusters : Clusters api) (router : Router routes) where
  -- After a start-up that gives a pool and any requests since, whatever router gin has: a `GET` of
  -- the URL of one object, with all fields that no path leaves out, no slash in a field, a resource
  -- other than `namespaces` where there is no namespace, and a context of the pool, reaches the
  -- handler of objects; it sends one call, for exactly that object, with the client that the pool
  -- has for that context, and gives the one reply that the answer of the cluster leads to.
  pub object_answered :
      (flag : String) (raw : RawConfig) (p : ClientPool api)
      → loader.raw_config flag ≡ ok raw
      → IsMap raw.contexts
      → (init_kube_client_pool loader flag).0 ≡ ok p
      → (qs : List (Request api)) (req : Objects.Request) (body : Body clusters) (r : ℕ)
      → Complete req
      → str_eq req.name "" ≡ false
      → context req.ctx p ≡ ok r
      → (receive clusters router
            (record { verb = Routes.get; path = url_of req; query = query_of req; body = body })
          ≡ some (get_object clusters.kube req))
        × (d : api.DynamicClient) × ClientOf req.ctx (serve_all qs p) d
        × (handle_get {kube = clusters.kube} req (asked (serve_all qs p))
            ≡ served
                (asked (serve_all qs p))
                (get (gvr_of req) req.namespace req.name)
                (get_reply (clusters.kube.get d (gvr_of req) req.namespace req.name)))
  object_answered flag raw p loaded m started qs req body r all named known =
      let kept = (service-Keeps loader flag raw p loaded m started qs).0 in
      let (d, its_client, answered) =
        handle_get-client {kube = clusters.kube} req (serve_all qs p) r kept.valid
          (context-Keeps req.ctx r p (serve_all qs p) kept known) in
      (receive-url clusters router req body all Routes.get ∙ rw named refl, d, its_client, answered)
