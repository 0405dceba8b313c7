-- ===== src/Server/Urls.antt =====
-- main.go and objects.go: which handler, with which fields, the URLs of kinds and objects reach.
use k8s_explore.Base.{
  String, str_eq, eq_iff, true, false, if◌then◌else◌, Bool-cases, Option, none, some, List, [], ◌∷◌,
  ◌++◌, ◌≡◌, refl, ◌∙◌, sym, ap, arith, inl, inr,
}
use k8s_explore.Base.Dict.{Dict}
use k8s_explore.KubeClient.{Api}
use k8s_explore.Rest.Objects
use k8s_explore.Rest.Objects.{Kube}
use k8s_explore.Routes.{
  Verb, Segment, get, put, delete, Endpoint, Router, Route, routes, matching, bind, param,
  cluster_objects, namespace_objects, object_route, resources_group, shaded, IsRoute,
}
use k8s_explore.Routes.Found.{routes_find, routes_miss}
use k8s_explore.Server.{Request, get_object, list_objects, update_object, delete_object}
use k8s_explore.Server.Http.{
  Clusters, HttpRequest, Body, text_of, object_request, request_of, receive,
}
use k8s_explore.Server.Paths.{
  resource_path, kind_path, url_of, query_of, Complete, bound, bound_in, bind-kind, bind-kind_in,
  kind_request, kind_in_request,
}

module _ {api : Api} (clusters : Clusters api) where
  -- What the verbs mean for an object, and for a kind.
  abbrev pub meaning : Verb → Objects.Request → Body clusters → Option (Request api)
  meaning get req body =
      if str_eq req.name ""
      then some (list_objects clusters.kube req)
      else some (get_object clusters.kube req)
  meaning put req body =
      if str_eq req.name "" then none else some (update_object clusters.kube req body)
  meaning delete req body =
      if str_eq req.name "" then none else some (delete_object clusters.kube req)

module _ {api : Api} (clusters : Clusters api) (router : Router routes) (req : Objects.Request)
    (body : Body clusters) (all : Complete req) where
  abbrev http : Verb → List String → HttpRequest (Body clusters)
  http verb path = record { verb = verb; path = path; query = query_of req; body = body }

  -- A request whose path fits a route of the table.
  receive-route :
      (r : Route) (path : List String) (values : Dict String)
      → IsRoute r routes
      → bind r.pattern path ≡ some values
      → shaded routes r.verb r.pattern path ≡ false
      → receive clusters router (http r.verb path)
        ≡ request_of clusters (r.endpoint, values) (http r.verb path)
  unfolding receive
  receive-route r path values member fits sure =
      rw (routes_find router r path values member fits sure, receive) refl

  -- A request for the objects of the kind, in its namespace or in none.
  receive-kind :
      (verb : Verb) (endpoint : Endpoint) (f : Objects.Request → Request api) (rest : List Segment)
      (names : List String) (values : Dict String)
      → IsRoute (object_route verb (cluster_objects ++ rest) endpoint) routes
      → IsRoute (object_route verb (namespace_objects ++ rest) endpoint) routes
      → bind rest names ≡ some values
      → (str_eq req.namespace "" ≡ true
          → shaded routes verb
              (resources_group ++ cluster_objects ++ rest)
              (resource_path req (req.resource ∷ names))
            ≡ false)
      → shaded routes verb
          (resources_group ++ namespace_objects ++ rest)
          (resource_path req ("namespaces" ∷ req.namespace ∷ req.resource ∷ names))
        ≡ false
      → text_of "name" values ≡ req.name
      → text_of "namespace" values ≡ ""
      → ((v : Dict String) (path : List String)
          → request_of clusters (endpoint, v) (http verb path)
            ≡ some (f (object_request v (query_of req))))
      → receive clusters router (http verb (kind_path req names)) ≡ some (f req)
  receive-kind verb endpoint f rest names values member member_in fits sure sure_in named outside
        handler =
      elim (Bool-cases (str_eq req.namespace "")) [
        | inl h ↦ rw h (
            receive-route (object_route verb (cluster_objects ++ rest) endpoint)
              (resource_path req (req.resource ∷ names))
              (bound req (("resource", req.resource) ∷ values)) member
              (bind-kind req all rest names values fits) (sure h)
            ∙ handler _ _
            ∙ ap (λ q. some (f q)) (kind_request req all values h named outside))
        | inr h ↦ rw h (
            receive-route (object_route verb (namespace_objects ++ rest) endpoint)
              (resource_path req ("namespaces" ∷ req.namespace ∷ req.resource ∷ names))
              (bound_in req values) member_in
              (bind-kind_in req all (λ e. cc (h, (eq_iff req.namespace "").1 e)) rest names values
                fits)
              sure_in
            ∙ handler _ _
            ∙ ap (λ q. some (f q)) (kind_in_request req all values named))
      ]

  receive-name :
      (verb : Verb) (endpoint : Endpoint) (f : Objects.Request → Request api)
      → IsRoute (object_route verb (cluster_objects ++ param "name" ∷ []) endpoint) routes
      → IsRoute (object_route verb (namespace_objects ++ param "name" ∷ []) endpoint) routes
      → str_eq req.name "" ≡ false
      → (str_eq req.namespace "" ≡ true
          → shaded routes verb
              (resources_group ++ cluster_objects ++ param "name" ∷ [])
              (resource_path req (req.resource ∷ req.name ∷ []))
            ≡ false)
      → shaded routes verb
          (resources_group ++ namespace_objects ++ param "name" ∷ [])
          (resource_path req ("namespaces" ∷ req.namespace ∷ req.resource ∷ req.name ∷ []))
        ≡ false
      → ((v : Dict String) (path : List String)
          → request_of clusters (endpoint, v) (http verb path)
            ≡ some (f (object_request v (query_of req))))
      → receive clusters router (http verb (kind_path req (req.name ∷ []))) ≡ some (f req)
  receive-name verb endpoint f member member_in named sure sure_in handler =
      receive-kind verb endpoint f (param "name" ∷ []) (req.name ∷ []) (("name", req.name) ∷ [])
        member member_in (rw named refl) sure sure_in refl refl handler

  -- A kind takes no `PUT` and no `DELETE`.
  receive-missed :
      (verb : Verb) (path : List String)
      → matching routes verb path ≡ []
      → receive clusters router (http verb path) ≡ none
  unfolding receive
  receive-missed verb path misses = rw (routes_miss router verb path misses, receive) refl

  put-missed : matching routes put (kind_path req []) ≡ []
  unfolding matching
  put-missed = elim (Bool-cases (str_eq req.namespace "")) [
    | inl h ↦ rw h (ground arith)
    | inr h ↦ rw h (ground arith)
  ]

  delete-missed : matching routes delete (kind_path req []) ≡ []
  unfolding matching
  delete-missed = elim (Bool-cases (str_eq req.namespace "")) [
    | inl h ↦ rw h (ground arith)
    | inr h ↦ rw h (ground arith)
  ]

  -- Outside of a namespace the path has "namespaces" nowhere in the place of a parameter.
  not_namespaces : str_eq req.namespace "" ≡ true → str_eq "namespaces" req.resource ≡ false
  not_namespaces h = elim (Bool-cases (str_eq "namespaces" req.resource)) [
    | inl same ↦ absurd (
        all.no_namespaces ((eq_iff req.namespace "").0 h)
          (sym ((eq_iff "namespaces" req.resource).0 same)))
    | inr other ↦ other
  ]

  kind-shaded :
      str_eq req.namespace "" ≡ true
      → shaded routes get
          (resources_group ++ cluster_objects ++ [])
          (resource_path req (req.resource ∷ []))
        ≡ false
  kind-shaded h = rw (not_namespaces h) refl

  name-shaded :
      (verb : Verb)
      → str_eq req.namespace "" ≡ true
      → shaded routes verb
          (resources_group ++ cluster_objects ++ param "name" ∷ [])
          (resource_path req (req.resource ∷ req.name ∷ []))
        ≡ false
  name-shaded get h = rw (not_namespaces h) refl
  name-shaded put h = rw (not_namespaces h) refl
  name-shaded delete h = rw (not_namespaces h) refl

  -- Whatever router gin has: the URL of a kind or an object, with all fields that no path leaves
  -- out and no slash in a field, and of a resource other than `namespaces` where there is no
  -- namespace, reaches with `GET` the list or the object, with `PUT` the update and with `DELETE`
  -- the removal of exactly that kind, object, context, namespace (or none) and selectors; a `PUT`
  -- or a `DELETE` of a kind reaches nothing.
  pub receive-url :
      (verb : Verb)
      → receive clusters router (http verb (url_of req)) ≡ meaning clusters verb req body
  unfolding request_of
  receive-url get = elim (Bool-cases (str_eq req.name "")) [
    | inl k ↦ rw k (
        receive-kind get Endpoint.list_objects (list_objects clusters.kube) [] [] []
          (inr (inr (inl refl))) (inr (inr (inr (inl refl)))) refl kind-shaded refl
          (sym ((eq_iff req.name "").0 k)) refl (λ v path. refl))
    | inr k ↦ rw k (
        receive-name get Endpoint.get_object (get_object clusters.kube)
          (inr (inr (inr (inr (inl refl))))) (inr (inr (inr (inr (inr (inl refl)))))) k
          (name-shaded get) refl (λ v path. refl))
  ]
  receive-url put = elim (Bool-cases (str_eq req.name "")) [
    | inl k ↦ rw k (receive-missed put (kind_path req []) put-missed)
    | inr k ↦ rw k (
        receive-name put Endpoint.update_object (λ q. update_object clusters.kube q body)
          (inr (inr (inr (inr (inr (inr (inl refl)))))))
          (inr (inr (inr (inr (inr (inr (inr (inl refl)))))))) k (name-shaded put) refl
          (λ v path. refl))
  ]
  receive-url delete = elim (Bool-cases (str_eq req.name "")) [
    | inl k ↦ rw k (receive-missed delete (kind_path req []) delete-missed)
    | inr k ↦ rw k (
        receive-name delete Endpoint.delete_object (delete_object clusters.kube)
          (inr (inr (inr (inr (inr (inr (inr (inr (inl refl)))))))))
          (inr (inr (inr (inr (inr (inr (inr (inr (inr (inl refl)))))))))) k (name-shaded delete)
          refl (λ v path. refl))
  ]
